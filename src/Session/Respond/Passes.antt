-- ===== src/Session/Respond/Passes.antt =====
-- The assertions of InvokeStateMachine and of the handlers it calls, in
-- z3_rtsp_client/z3_rtsp_session.cpp.
use z3_engine.Base.{◌⊎◌, ◌>>=◌, ℕ, ◌≤◌, ◌≡◌, some, Outcome, ok}
use z3_engine.Media.{RtspMedia}
use z3_engine.Message.Msg.{RtspMsg, get_header}
use z3_engine.Sdp.{SdpMedia, get_sdp_media}
use z3_engine.Session.{World, Session, rtsp_describe, rtsp_options, rtsp_play, rtsp_setup}
use z3_engine.Session.Phase.{Phase}
use z3_engine.Session.Respond.{on_options_respond, describe_body, setup_session, read_on}
use z3_engine.Session.{hdr_session}

-- What the work on an answer comes to when the assertions of InvokeStateMachine and of the handler
-- have passed: the rest of the handler of the method that the session remembers, and the read. A track
-- that SETUP still has to ask for is in the description, as GetSDPMedia asserts.
pub data Proceeds (w : World) (msg : RtspMsg) (t : Session) (o : Outcome (ℕ × Session))
    : Type 0 where
  on_options :
      t.method_previous ≡ rtsp_options
      → o ≡ (on_options_respond w msg t >>= read_on w)
      → Proceeds w msg t o
  on_describe :
      t.method_previous ≡ rtsp_describe
      → o ≡ (describe_body w msg t msg.body >>= read_on w)
      → Proceeds w msg t o
  on_setup :
      (m : RtspMedia)
      → t.method_previous ≡ rtsp_setup
      → t.media ≡ some m
      → (m.track_count ≤ m.request_track)
        ⊎ ((d : SdpMedia) × (get_sdp_media m.sdp m.request_track ≡ ok d))
      → o ≡ (setup_session w m t (get_header msg hdr_session 0) >>= read_on w)
      → Proceeds w msg t o
  on_play : t.method_previous ≡ rtsp_play → o ≡ ok (0, t) → Proceeds w msg t o
