-- ===== src/Session/Respond.antt =====
-- What RtspSession does with a response: Dispatch, InvokeStateMachine and the three handlers, and
-- OnConnect, in z3_rtsp_client/z3_rtsp_session.cpp. A header's value is a C string.
pub mod Advance
pub mod Passes
pub mod Refine
pub mod Stops
pub mod Tracks
pub mod Tests
use z3_engine.Base.{
  ℕ, zero, suc, ◌+◌, ◌-◌, Bool, true, false, not, ◌&&◌, ◌||◌, List, [], ◌∷◌, ◌++◌, Option, none,
  some, ltb, leb, ◌==◌, if◌then◌else◌, Bytes, codes, length, Outcome, ok, fault, hangs, ◌>>=◌,
}
use z3_engine.Media.{RtspMedia, init_media}
use z3_engine.Message.Headers.{KeyValues}
use z3_engine.Message.Msg.{MsgObj, request, response, channel_data, RtspMsg, get_header, c_string}
use z3_engine.Message.Print.{to_string}
use z3_engine.Sdp.{SdpMessage, new_sdp, get_media_count, z3_strdup, atoi}
use z3_engine.Sdp.Document.{parse_string}
use z3_engine.Session.{
  World, Session, start_read, send_options, send_describe, send_setup, send_play, present,
  rtsp_describe, rtsp_options, rtsp_play, rtsp_setup, hdr_content_base, hdr_cseq, hdr_public,
  hdr_session, z3_enomem, z3_einval, session_init, session_ready, default_timeout,
}
use z3_engine.Text.Lines.{skip_spaces}
use z3_engine.Text.Tables.{same_text}
use z3_engine.Text.Version.{z3_eok, z3_error, scan_u}

abbrev pub z3_rtsp_enotimpl : ℕ
z3_rtsp_enotimpl = 0x80001001

abbrev pub z3_rtsp_eunsupported : ℕ
z3_rtsp_eunsupported = 0x80001004

abbrev pub z3_rtsp_estreamcounts : ℕ
z3_rtsp_estreamcounts = 0x80001006

abbrev pub z3_rtsp_enosessionid : ℕ
z3_rtsp_enosessionid = 0x80001008

abbrev pub z3_rtsp_esessionid : ℕ
z3_rtsp_esessionid = 0x80001009

abbrev pub einval : ℕ
einval = 22

-- The loop over the Public headers from `index` on; a null value stops.
public_from : ℕ → RtspMsg → ℕ → Outcome Bool
public_from zero resp index = hangs
public_from (suc fuel) resp index =
    let rest = public_from fuel resp (index + 1) in
    elim (get_header resp hdr_public index) [
      | none ↦ ok false
      | some none ↦ fault
      | some (some v) ↦ if same_text (c_string v) (codes "describe") then ok true else rest
    ]

header_count : Option KeyValues → ℕ
header_count none = 0
header_count (some a) = a.sum

pub on_options_respond : World → RtspMsg → Session → Outcome (ℕ × Session)
unfolding public_from header_count
on_options_respond w resp s = do
  found ← public_from (header_count resp.headers + 1) resp 0
  if found then send_describe w s else ok (z3_rtsp_eunsupported, s)

-- `base` is the answer of GetHeader; z3_strdup of NULL stops, and so does the destructor of the media
-- whose Init has failed, which goes through the NULL list of sessions.
describe_media : World → Session → SdpMessage → Option (Option Bytes) → Outcome (ℕ × Session)
describe_media w s sdp none = ok (z3_rtsp_enotimpl, s)
describe_media w s sdp (some none) = fault
describe_media w s sdp (some (some base)) =
    elim (init_media (c_string base) (get_media_count sdp) 0 sdp) [
      | none ↦ fault
      | some media ↦ send_setup w (record s { media = some media })
    ]

describe_parsed : World → RtspMsg → Session → ℕ × SdpMessage → Outcome (ℕ × Session)
unfolding describe_media
describe_parsed w resp s (e, sdp) =
    if e == 0
    then (if ltb (get_media_count sdp) 1
        then ok (z3_rtsp_estreamcounts, s)
        else describe_media w s sdp (get_header resp hdr_content_base 0))
    else ok (e, s)

-- GetBody gives the body and its size.
pub describe_body : World → RtspMsg → Session → Option Bytes → Outcome (ℕ × Session)
unfolding describe_parsed
describe_body w resp s none = ok (z3_einval, s)
describe_body w resp s (some body) = if resp.body_size == 0 then ok (z3_einval, s) else (do
  r ← parse_string (some (c_string body)) resp.body_size new_sdp
  describe_parsed w resp s r)

pub absent {ℓ} : {A : Type ℓ} → Option A → Bool
absent none = true
absent (some a) = false

pub on_describe_respond : World → RtspMsg → Session → Outcome (ℕ × Session)
unfolding describe_body absent
on_describe_respond w resp s =
    if s.state == session_init && absent s.media then describe_body w resp s resp.body else fault

-- strtok_s for `;`: delimiters in front are passed over, and the one behind the token is cut.
pub to_semicolon : Bytes → Bytes
to_semicolon [] = []
to_semicolon (c ∷ cs) = if c == b';' then [] else c ∷ to_semicolon cs

pub token_of : Bytes → Bytes
unfolding to_semicolon
token_of [] = []
token_of (c ∷ cs) = if c == b';' then c ∷ token_of cs else to_semicolon (c ∷ cs)

-- What stands behind a text that is a prefix.
pub behind : Bytes → Bytes → Option Bytes
behind [] s = some s
behind (c ∷ cs) [] = none
behind (c ∷ cs) (d ∷ ds) = if c == d then behind cs ds else none

-- strstr: what stands behind the first occurrence.
pub find_text : Bytes → Bytes → Option Bytes
unfolding behind
find_text t [] = behind t []
find_text t (c ∷ cs) = elim (behind t (c ∷ cs)) [ some r ↦ some r | none ↦ find_text t cs ]

-- The number that sscanf reads, as the bits of an `int`: one that is not positive gives the
-- default, and if there is none the old timeout is tested.
timeout_of : Option (ℕ × Bytes) → ℕ → ℕ
timeout_of read old =
    let n : ℕ = elim read [ none ↦ old | some (value, _) ↦ value ] in
    if n == 0 || leb 2147483648 n then default_timeout else n

pub timeout_from : Option Bytes → ℕ → ℕ
unfolding timeout_of
timeout_from none old = old
timeout_from (some digits) old = timeout_of (scan_u digits) old

pub timeout_in : Bytes → ℕ → ℕ
unfolding timeout_from find_text
timeout_in id old = timeout_from (find_text (codes "timeout=") id) old

-- The session of the first SETUP response, and the check of the later ones: the session's id must
-- begin the value. z3_strdup gives NULL for an empty value, which strtok_s does not take.
pub take_session : Option Bytes → Bytes → Session → Outcome (ℕ × Session)
unfolding token_of timeout_in behind
take_session none [] s = fault
take_session none (c ∷ cs) s =
    let id = token_of (c ∷ cs) in
    ok (z3_eok, record s { session_id = some id; timeout = timeout_in id s.timeout })
take_session (some id) v s = elim (behind id v) [
  | none ↦ ok (z3_rtsp_esessionid, s)
  | some _ ↦ ok (z3_eok, s)
]

-- All tracks are set up, or the one that follows is asked for.
pub next_track : World → Session → RtspMedia → Outcome (ℕ × Session)
next_track w s media =
    if leb media.track_count media.request_track
    then send_play w (record s { state = session_ready })
    else send_setup w s

pub setup_session : World → RtspMedia → Session → Option (Option Bytes) → Outcome (ℕ × Session)
unfolding take_session next_track
setup_session w media s none = ok (z3_rtsp_enosessionid, s)
setup_session w media s (some none) = fault
setup_session w media s (some (some v)) = do
  (e, s') ← take_session s.session_id (c_string v) s
  if e == z3_eok then next_track w s' media else ok (e, s')

pub on_setup_respond : World → RtspMsg → Session → Outcome (ℕ × Session)
unfolding setup_session
on_setup_respond w resp s = do
  media ← present s.media
  setup_session w media s (get_header resp hdr_session 0)

handler : World → ℕ → RtspMsg → Session → Outcome (ℕ × Session)
unfolding on_options_respond on_describe_respond on_setup_respond
handler w method resp s =
    if method == rtsp_options
    then on_options_respond w resp s
    else if method == rtsp_describe
    then on_describe_respond w resp s
    else if method == rtsp_setup
    then on_setup_respond w resp s
    else if method == rtsp_play
    then ok (z3_error, s)
    else fault

-- The read that follows a handler that went well; it is asserted.
pub read_on : World → ℕ × Session → Outcome (ℕ × Session)
read_on w (e, s) =
    if e == 0
    then (let (e', s') = start_read w s in if e' == 0 then ok (0, s') else fault)
    else ok (0, s)

pub invoke_state_machine : World → ℕ → RtspMsg → Session → Outcome (ℕ × Session)
unfolding handler read_on
invoke_state_machine w method resp s = do r ← handler w method resp s; read_on w r

-- The CSeq of a response is compared with the one that is remembered.
answer : World → RtspMsg → Session → Option (Option Bytes) → Outcome (ℕ × Session)
unfolding invoke_state_machine
answer w resp s none = ok (0, s)
answer w resp s (some none) = fault
answer w resp s (some (some v)) =
    if atoi (skip_spaces (c_string v)) == s.cseq_previous
    then invoke_state_machine w s.method_previous resp s
    else ok (0, s)

not_response : World → RtspMsg → Session → Outcome (ℕ × Session)
not_response w msg s = do _ ← to_string true w.date msg; ok (einval, s)

dispatch_obj : World → RtspMsg → Session → Option MsgObj → Outcome (ℕ × Session)
unfolding answer not_response
dispatch_obj w msg s none = fault
dispatch_obj w msg s (some (request method uri version)) = not_response w msg s
dispatch_obj w msg s (some (channel_data channel)) = not_response w msg s
dispatch_obj w msg s (some (response code reason version)) =
    if code == 200 then answer w msg s (get_header msg hdr_cseq 0) else ok (0, s)

pub dispatch : World → RtspMsg → Session → Outcome (ℕ × Session)
unfolding dispatch_obj
dispatch w msg s = dispatch_obj w msg s msg.obj

-- OnConnect; an error is only notified.
read_after : World → ℕ × Session → ℕ × Session
read_after w (e, s) = if e == z3_eok then start_read w s else (e, s)

pub on_connect : World → ℕ → Session → Outcome (ℕ × Session)
unfolding read_after
on_connect w code s =
    if code == 0 then (do r ← send_options w s; ok (read_after w r)) else ok (z3_eok, s)

-- The read that was started completes with a message that the parser made.
unfoldable pub on_message : World → RtspMsg → Session → Outcome (ℕ × Session)
unfolding dispatch
on_message w msg s = dispatch w msg (record s { reading = false })
