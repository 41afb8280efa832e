-- ===== src/Packets.antt =====
-- The media packets of z3_rtsp_client: RTCP reports, RTP packets, reception statistics and the H.264
-- frame buffer.
pub mod Buffer
pub mod Rtcp
pub mod Rtp
pub mod Stats
pub mod Frame
mod Tests
