-- ===== src/Media.antt =====
-- MediaSession and RtspMedia of z3_rtsp_client/z3_rtsp_media.cpp. What the UDP sockets answer is
-- an argument, and `new` succeeds.
pub mod Pair
mod Tests
use z3_engine.Base.{
  ℕ, zero, suc, ◌+◌, Bool, true, false, List, [], ◌∷◌, ◌++◌, Option, none, some, ◌==◌,
  if◌then◌else◌, Bytes, codes, Outcome, ok, fault, ◌>>=◌,
}
use z3_engine.Ports.Control.{PortsCtl}
use z3_engine.Ports.Pairs.{PairReply, pair, no_pair, lock_and_get_two}
use z3_engine.Sdp.{SdpMedia, SdpMessage, z3_strdup}
use z3_engine.Sdp.Line.{same_bytes}

abbrev pub video_type : ℕ
video_type = 1

abbrev pub audio_type : ℕ
audio_type = 2

abbrev pub other_type : ℕ
other_type = 3

abbrev pub rtp_over_rtsp : ℕ
rtp_over_rtsp = 1

abbrev pub rtp_over_udp : ℕ
rtp_over_udp = 2

abbrev pub rtp_over_tcp : ℕ
rtp_over_tcp = 3

pub record MediaSession : Type 0 where
  pub rtp_port : ℕ
  pub rtcp_port : ℕ
  pub media_type : ℕ
  pub transfer_mode : ℕ

-- The error codes of Init and StartRead of the RTP and the RTCP session on a port.
pub record UdpSockets : Type 0 where
  pub rtp_init : ℕ → ℕ
  pub rtp_read : ℕ → ℕ
  pub rtcp_init : ℕ → ℕ
  pub rtcp_read : ℕ → ℕ

-- The comparisons of the media's name; a null name stops.
type_of : Option Bytes → Outcome ℕ
type_of none = fault
type_of (some name) = ok (
    if same_bytes name (codes "video")
    then video_type
    else if same_bytes name (codes "audio")
    then audio_type
    else other_type)

-- The first error code that is not 0.
first_error : List ℕ → ℕ
first_error [] = 0
first_error (e ∷ es) = if e == 0 then first_error es else e

sockets_on : UdpSockets → ℕ → ℕ → ℕ
unfolding first_error
sockets_on u rtp rtcp =
    first_error (u.rtp_init rtp ∷ u.rtp_read rtp ∷ u.rtcp_init rtcp ∷ u.rtcp_read rtcp ∷ [])

-- What MediaSession::Init makes of the answer of GetPairPorts.
with_pair : UdpSockets → ℕ → PairReply × PortsCtl → ℕ × MediaSession × PortsCtl
unfolding sockets_on
with_pair u type (no_pair e, ports) = (
  e,
  record { rtp_port = 0; rtcp_port = 0; media_type = type; transfer_mode = rtp_over_udp },
  ports,
)
with_pair u type (pair rtp rtcp, ports) = (
  sockets_on u rtp rtcp,
  record { rtp_port = rtp; rtcp_port = rtcp; media_type = type; transfer_mode = rtp_over_udp },
  ports,
)

-- MediaSession::Init on a new object; `rounds` bounds the search for a pair.
unfoldable pub init_session :
    ℕ → UdpSockets → SdpMedia → PortsCtl → Outcome (ℕ × MediaSession × PortsCtl)
unfolding type_of with_pair
init_session rounds u m ports = do
  type ← type_of m.media
  reply ← lock_and_get_two rounds ports
  ok (with_pair u type reply)

-- A null list of sessions and an empty one are the same.
pub record RtspMedia : Type 0 where
  pub content_base : Option Bytes
  pub sessions : List MediaSession
  pub sdp : SdpMessage
  pub track_count : ℕ
  pub request_track : ℕ

-- RtspMedia::Init on a new object: `none` where it returns false.
unfoldable pub init_media : Bytes → ℕ → ℕ → SdpMessage → Option RtspMedia
init_media base tracks request sdp = elim (z3_strdup base) [
  | none ↦ none
  | some b ↦ some record {
    content_base = some b;
    sessions = [];
    sdp = sdp;
    track_count = tracks;
    request_track = request;
  }
]

unfoldable pub add_media_session : MediaSession → RtspMedia → RtspMedia
add_media_session session m = record m { sessions = m.sessions ++ (session ∷ []) }

keep_session : RtspMedia → ℕ × MediaSession × PortsCtl → Option MediaSession × RtspMedia × PortsCtl
keep_session m (e, session, ports) =
    if e == 0 then (some session, add_media_session session m, ports) else (none, m, ports)

-- A session whose Init fails is deleted; its ports stay taken.
unfoldable pub create_media_session :
    ℕ
    → UdpSockets
    → SdpMedia
    → RtspMedia
    → PortsCtl
    → Outcome (Option MediaSession × RtspMedia × PortsCtl)
unfolding init_session keep_session
create_media_session rounds u sdp_media m ports = do
  made ← init_session rounds u sdp_media ports
  ok (keep_session m made)
