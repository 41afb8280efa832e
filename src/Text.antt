-- ===== src/Text.antt =====
-- z3_rtsp_client/z3_rtsp_def.cpp and z3_rtsp_def.hpp: the text routines of the RTSP code and its
-- tables of methods, header fields and status codes.
pub mod Lines
pub mod Tables
pub mod Status
pub mod Version
mod Tests
