-- ===== src/Session/Phase.antt =====
-- How far a session is in its exchange of requests and responses: the protocol that it carries out,
-- and which sessions stand where in it.
use z3_engine.Base.{
  ℕ, zero, suc, ◌+◌, ◌≤◌, ◌<◌, ◌≡◌, refl, sym, ◌∙◌, ap, List, [], ◌∷◌, ◌++◌, Option, none, some,
  length, Bytes, codes, ◌==◌, if◌then◌else◌, ok, subst, false,
}
use mathlib.Core.List.{map, append_assoc, append-nil}
use z3_engine.Media.{RtspMedia}
use z3_engine.Message.Msg.{RtspMsg, MsgObj, request, get_method}
use z3_engine.Sdp.{SdpMessage, SdpMedia, get_sdp_media, get_media_count, get_attribute_value}
use z3_engine.Session.{
  Session, rtsp_describe, rtsp_options, rtsp_play, rtsp_setup, session_init, session_ready,
}

-- The request that was sent last; of the SETUP requests, how many of the tracks they have asked for.
pub data Phase : Type 0 where
  asked_options : Phase
  asked_describe : Phase
  asked_setup : (tracks : ℕ) → (asked : ℕ) → Phase
  asked_play : (tracks : ℕ) → Phase

-- The protocol: OPTIONS, DESCRIBE, a SETUP for each track, PLAY.
pub data Follows : Phase → Phase → Type 0 where
  describe : Follows asked_options asked_describe
  setup_first : (n : ℕ) → 0 < n → Follows asked_describe (asked_setup n 1)
  setup_more : (n k : ℕ) → k < n → Follows (asked_setup n k) (asked_setup n (k + 1))
  play : (n : ℕ) → Follows (asked_setup n n) (asked_play n)

abbrev pub repeated : ℕ → ℕ → List ℕ
repeated zero x = []
repeated (suc n) x = x ∷ repeated n x

-- The methods of the requests so far.
abbrev pub trace : Phase → List ℕ
trace asked_options = rtsp_options ∷ []
trace asked_describe = rtsp_options ∷ rtsp_describe ∷ []
trace (asked_setup n k) = rtsp_options ∷ rtsp_describe ∷ repeated k rtsp_setup
trace (asked_play n) = (rtsp_options ∷ rtsp_describe ∷ repeated n rtsp_setup) ++ (rtsp_play ∷ [])

abbrev pub asked_last : Phase → ℕ
asked_last asked_options = rtsp_options
asked_last asked_describe = rtsp_describe
asked_last (asked_setup n k) = rtsp_setup
asked_last (asked_play n) = rtsp_play

abbrev pub state_in : Phase → ℕ
state_in (asked_play n) = session_ready
state_in _ = session_init

abbrev pub methods : List RtspMsg → List ℕ
methods = map get_method

-- The tracks of the media, and how many of them were asked for.
abbrev pub tracks_of : Option RtspMedia → Option (ℕ × ℕ)
tracks_of none = none
tracks_of (some m) = some (m.track_count, m.request_track)

abbrev pub HasTracks : Phase → Option RtspMedia → Type 0
HasTracks (asked_setup n k) media = (tracks_of media ≡ some (n, k)) × (0 < k) × (k ≤ n)
HasTracks (asked_play n) media = tracks_of media ≡ some (n, n)
HasTracks _ media = tracks_of media ≡ none

-- The session has sent just the requests of the phase, remembers the last method and its CSeq, which
-- counts the requests from 0, and has the state and the media of the phase.
pub record At (p : Phase) (s : Session) : Type 0 where
  pub method : s.method_previous ≡ asked_last p
  pub sent : methods s.sent ≡ trace p
  pub cseq : s.cseq_previous + 1 ≡ length s.sent
  pub state : s.state ≡ state_in p
  pub tracks : HasTracks p s.media

-- The URLs that the SETUP requests name, in order.
abbrev pub setup_uri : Option MsgObj → List Bytes
setup_uri (some (request method uri version)) = if method == rtsp_setup then uri ∷ [] else []
setup_uri _ = []

pub setup_uris : List RtspMsg → List Bytes
setup_uris [] = []
setup_uris (m ∷ ms) = setup_uri m.obj ++ setup_uris ms

pub setup_uris-nil : setup_uris [] ≡ []
unfolding setup_uris
setup_uris-nil = refl

pub setup_uris-snoc :
    (ms : List RtspMsg) (m : RtspMsg)
    → setup_uris (ms ++ (m ∷ [])) ≡ setup_uris ms ++ setup_uri m.obj
unfolding setup_uris
setup_uris-snoc [] m = append-nil (setup_uri m.obj)
setup_uris-snoc (x ∷ ms) m =
    ap (λ l. setup_uri x.obj ++ l) (setup_uris-snoc ms m)
    ∙ sym (append_assoc (setup_uri x.obj) (setup_uris ms) (setup_uri m.obj))

-- The URLs of the tracks below a number, one for each in turn: the content base, and the first
-- `control` of the track's own media in the description.
pub data TrackUrls (sdp : SdpMessage) (content_base : Option Bytes) : ℕ → List Bytes → Type 0 where
  no_track : TrackUrls sdp content_base 0 []
  a_track :
      (k : ℕ) (urls : List Bytes) (base control : Bytes) (d : SdpMedia)
      → TrackUrls sdp content_base k urls
      → get_sdp_media sdp k ≡ ok d
      → get_attribute_value d (codes "control") 0 ≡ ok (some control)
      → content_base ≡ some base
      → TrackUrls sdp content_base (k + 1) (urls ++ ((base ++ control) ∷ []))

abbrev pub Asks : Option RtspMedia → List Bytes → Type 0
Asks none urls = urls ≡ []
Asks (some m) urls =
    TrackUrls m.sdp m.content_base m.request_track urls × (m.track_count ≡ get_media_count m.sdp)

-- The SETUP requests that the session has sent asked for its tracks in turn, from the first on, and
-- there is a track for each media of the description.
abbrev pub InTurn : Session → Type 0
InTurn s = Asks s.media (setup_uris s.sent)

-- A request of another method.
pub other-Asks :
    (media : Option RtspMedia) (urls : List Bytes) (m : RtspMsg) (method version : ℕ) (uri : Bytes)
    → m.obj ≡ some (request method uri version)
    → (method == rtsp_setup) ≡ false
    → Asks media urls
    → Asks media (urls ++ setup_uri m.obj)
other-Asks media urls m method version uri o n h =
    let none_asked : setup_uri m.obj ≡ [] =
      ap setup_uri o ∙ ap (λ b. if b then uri ∷ [] else []) n in
    subst (Asks media) (sym (ap (λ l. urls ++ l) none_asked ∙ append-nil urls)) h
