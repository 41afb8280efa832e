-- ===== src/Message.antt =====
-- The RTSP messages of z3_rtsp_client/z3_rtsp_msg.cpp.
pub mod Headers
pub mod Msg
pub mod Print
mod Tests
