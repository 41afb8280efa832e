-- ===== src/Ports.antt =====
-- z3_rtsp_client/z3_media_ports.cpp: the pool of UDP ports for RTP and RTCP.
pub mod Bitmap
pub mod Control
pub mod Pairs
mod Tests
