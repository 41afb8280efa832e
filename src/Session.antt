-- ===== src/Session.antt =====
-- The state of RtspSession in z3_rtsp_client/z3_rtsp_session.cpp, Connector::WriteMsg and StartRead
-- of z3_engine/z3_connector.cpp below it, and the requests that the session sends. Memory is not
-- short.
pub mod Respond
pub mod Url
pub mod Read
pub mod Phase
pub mod Sends
pub mod Requests
pub mod Setup
use z3_engine.Base.{
  ℕ, zero, suc, ◌+◌, ◌-◌, ◌%◌, Bool, true, false, ◌&&◌, ◌||◌, not, List, [], ◌∷◌, ◌++◌, Option,
  none, some, ltb, leb, ◌==◌, if◌then◌else◌, is_odd, Bytes, codes, length, take, Outcome, ok, fault,
  ◌>>=◌,
}
use z3_engine.Media.{
  RtspMedia, MediaSession, UdpSockets, create_media_session, rtp_over_rtsp, rtp_over_udp,
  rtp_over_tcp,
}
use z3_engine.Message.Msg.{RtspMsg, new_msg, init_request, add_header}
use z3_engine.Message.Print.{to_string, decimal}
use z3_engine.Ports.Control.{PortsCtl}
use z3_engine.Sdp.{SdpMedia, get_sdp_media, get_attribute_value}
use z3_engine.Text.Version.{z3_eok}

abbrev pub rtsp_describe : ℕ
rtsp_describe = 1

abbrev pub rtsp_options : ℕ
rtsp_options = 8

abbrev pub rtsp_play : ℕ
rtsp_play = 32

abbrev pub rtsp_setup : ℕ
rtsp_setup = 256

abbrev pub hdr_accept : ℕ
hdr_accept = 1

abbrev pub hdr_content_base : ℕ
hdr_content_base = 11

abbrev pub hdr_cseq : ℕ
hdr_cseq = 17

abbrev pub hdr_public : ℕ
hdr_public = 25

abbrev pub hdr_range : ℕ
hdr_range = 26

abbrev pub hdr_session : ℕ
hdr_session = 32

abbrev pub hdr_transport : ℕ
hdr_transport = 35

abbrev pub hdr_user_agent : ℕ
hdr_user_agent = 37

abbrev pub z3_enomem : ℕ
z3_enomem = 0x399B6002

abbrev pub z3_einval : ℕ
z3_einval = 0x399B6003

abbrev pub z3_rtsp_emediasession : ℕ
z3_rtsp_emediasession = 0x80001007

abbrev pub session_init : ℕ
session_init = 0

abbrev pub session_ready : ℕ
session_ready = 1

-- What the world answers: AsyncTCPWrite to a text and AsyncTCPRead, each after so many requests,
-- the UDP sockets, the date; and what the stack holds behind a short text.
pub record World : Type 0 where
  pub write : ℕ → Bytes → ℕ
  pub read : ℕ → ℕ
  pub udp : UdpSockets
  pub rounds : ℕ
  pub date : Bytes
  pub stack : Bytes

-- `reading` is whether a read has been started and not completed, `sent` the requests whose write
-- was started, and `ports` the instance of MediaPorts.
pub record Session : Type 0 where
  pub url : Option Bytes
  pub method_previous : ℕ
  pub cseq_previous : ℕ
  pub media : Option RtspMedia
  pub state : ℕ
  pub session_id : Option Bytes
  pub timeout : ℕ
  pub ports : PortsCtl
  pub sent : List RtspMsg
  pub reading : Bool

abbrev pub default_timeout : ℕ
default_timeout = 15000

unfoldable pub new_session : PortsCtl → Session
new_session ports = record {
  url = none;
  method_previous = 0;
  cseq_previous = 0;
  media = none;
  state = session_init;
  session_id = none;
  timeout = default_timeout;
  ports = ports;
  sent = [];
  reading = false;
}

abbrev pub send_buf_size : ℕ
send_buf_size = 4096

-- The write of a text that ToString gave, which must not be empty and must fit the buffer.
write_text : World → RtspMsg → Session → Option Bytes → Outcome (ℕ × Session)
write_text w m s none = ok (z3_einval, s)
write_text w m s (some text) =
    let e = w.write (length s.sent) text in
    if ltb 0 (length text) && leb (length text) send_buf_size
    then ok (e, if e == 0 then record s { sent = s.sent ++ (m ∷ []) } else s)
    else fault

pub write_msg : World → RtspMsg → Session → Outcome (ℕ × Session)
unfolding write_text
write_msg w m s = do (text, _) ← to_string true w.date m; write_text w m s text

pub start_read : World → Session → ℕ × Session
start_read w s =
    let e = w.read (length s.sent) in (e, if e == 0 then record s { reading = true } else s)

-- AddHeader whose result is asserted.
pub must_add : ℕ → Bytes → RtspMsg → Outcome RtspMsg
must_add field value m = do (e, m') ← add_header field value m; if e == z3_eok then ok m' else fault

-- WriteMsg, and the method that is remembered where it answers 0.
pub write_request : World → ℕ → RtspMsg → Session → Outcome (ℕ × Session)
unfolding write_msg
write_request w method m s = do
  (e, s') ← write_msg w m s
  ok (e, if e == 0 then record s' { method_previous = method } else s')

abbrev pub nul : Bytes
nul = 0 ∷ []

abbrev agent : Bytes
agent = codes "RtspClient, which is developped by Z3Engine & RTSP util library" ++ (13 ∷ 10 ∷ nul)

options_at : World → Session → RtspMsg × ℕ → Outcome (ℕ × Session)
unfolding must_add write_request
options_at w s (m, e) =
    if e == z3_eok
    then (do
      m1 ← must_add hdr_cseq (codes "0" ++ nul) m
      m2 ← must_add hdr_user_agent agent m1
      (e', s') ← write_request w rtsp_options m2 s
      ok (e', if e' == 0 then record s' { cseq_previous = 0 } else s'))
    else ok (z3_enomem, s)

pub send_options : World → Session → Outcome (ℕ × Session)
unfolding options_at
send_options w s = elim s.url [
  | none ↦ fault
  | some url ↦ options_at w s (init_request rtsp_options url new_msg)
]

-- The 16 bytes of `szCSeq`, all of which are added.
describe_cseq : Bytes → ℕ → Bytes
describe_cseq stack n = take 16 (decimal n ++ (0 ∷ stack))

describe_at : World → Session → RtspMsg × ℕ → Outcome (ℕ × Session)
unfolding must_add write_request describe_cseq
describe_at w s (m, e) =
    if e == z3_eok
    then (do
      m1 ← must_add hdr_cseq (describe_cseq w.stack (s.cseq_previous + 1)) m
      m2 ← must_add hdr_accept (codes "application/sdp" ++ nul) m1
      write_request w rtsp_describe m2 (record s { cseq_previous = s.cseq_previous + 1 }))
    else ok (z3_enomem, s)

pub send_describe : World → Session → Outcome (ℕ × Session)
unfolding describe_at
send_describe w s = elim s.url [
  | none ↦ fault
  | some url ↦ describe_at w s (init_request rtsp_describe url new_msg)
]

-- sprintf_s into 256 bytes: a longer text stops.
abbrev pub buf_size : ℕ
buf_size = 256

in_buffer : Bytes → Outcome Bytes
in_buffer text = if ltb (length text) buf_size then ok text else fault

-- `assert` of a pointer.
pub present {ℓ} : {A : Type ℓ} → Option A → Outcome A
present none = fault
present (some a) = ok a

pub asserted : RtspMsg × ℕ → Outcome RtspMsg
asserted (m, e) = if e == z3_eok then ok m else fault

-- The assertions on the ports, which are of 16 bits.
pub ports_ok : ℕ → ℕ → Bool
ports_ok rtp rtcp = not (rtp == 0) && (not (rtcp == 0) && (rtcp == rtp + 1 && rtp % 2 == 0))

-- The value of the Transport header; in a mode that is not known the buffer keeps the URL.
transport_text : MediaSession → Bytes → Outcome Bytes
transport_text session url =
    let range = decimal session.rtp_port ++ (codes "-" ++ decimal session.rtcp_port) in
    if session.transfer_mode == rtp_over_rtsp
    then ok (codes "RTP/AVP/TCP;unicast;interleaved=" ++ range)
    else if session.transfer_mode == rtp_over_udp
    then ok (codes "RTP/AVP;unicast;client_port=" ++ range)
    else if session.transfer_mode == rtp_over_tcp
    then fault
    else ok url

-- The session's header, if there is a session; what AddHeader answers is not looked at.
pub add_session : Option Bytes → RtspMsg → Outcome RtspMsg
add_session none m = ok m
add_session (some id) m = do (_, m') ← add_header hdr_session (id ++ nul) m; ok m'

-- From GetPort on.
setup_with : World → Bytes → RtspMsg → MediaSession → Session → Outcome (ℕ × Session)
unfolding must_add write_request transport_text add_session ports_ok
setup_with w url m session s =
    if ports_ok session.rtp_port session.rtcp_port
    then (do
      transport ← transport_text session url
      m1 ← must_add hdr_transport (transport ++ nul) m
      m2 ← add_session s.session_id m1
      m3 ← must_add hdr_cseq (decimal (s.cseq_previous + 1) ++ nul) m2
      write_request w rtsp_setup m3 (record s { cseq_previous = s.cseq_previous + 1 }))
    else fault

setup_made :
    World
    → Bytes
    → RtspMsg
    → Session
    → Option MediaSession × RtspMedia × PortsCtl
    → Outcome (ℕ × Session)
unfolding setup_with
setup_made w url m s (none, media, ports) =
    ok (z3_rtsp_emediasession, record s { media = some media; ports = ports })
setup_made w url m s (some session, media, ports) =
    setup_with w url m session (record s { media = some media; ports = ports })

setup_of : World → RtspMedia → Session → Outcome (ℕ × Session)
unfolding setup_made in_buffer present asserted
setup_of w media s = do
  sdp_media ← get_sdp_media media.sdp media.request_track
  control ← get_attribute_value sdp_media (codes "control") 0
  value ← present control
  base ← present media.content_base
  url ← in_buffer (base ++ value)
  m ← asserted (init_request rtsp_setup url new_msg)
  made ←
      create_media_session w.rounds w.udp sdp_media
        (record media { request_track = media.request_track + 1 }) s.ports
  setup_made w url m s made

pub send_setup : World → Session → Outcome (ℕ × Session)
unfolding setup_of present
send_setup w s = do media ← present s.media; setup_of w media s

play_of : World → Bytes → Bytes → Session → Outcome (ℕ × Session)
unfolding in_buffer asserted must_add write_request
play_of w base id s = do
  url ← in_buffer base
  m ← asserted (init_request rtsp_play url new_msg)
  m1 ← must_add hdr_cseq (decimal (s.cseq_previous + 1) ++ nul) m
  m2 ← must_add hdr_range (codes "npt=0.000-" ++ nul) m1
  m3 ← must_add hdr_session (id ++ nul) m2
  write_request w rtsp_play m3 (record s { cseq_previous = s.cseq_previous + 1 })

pub send_play : World → Session → Outcome (ℕ × Session)
unfolding play_of present
send_play w s = do
  media ← present s.media
  base ← present media.content_base
  id ← present s.session_id
  play_of w base id s
