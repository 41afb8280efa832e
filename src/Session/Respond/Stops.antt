-- ===== src/Session/Respond/Stops.antt =====
-- OnMessage of z3_rtsp_client/z3_rtsp_session.cpp: which messages InvokeStateMachine gets, what a
-- session does that has asked to play, and the session text of a SETUP response.
use z3_engine.Base.{
  ◌⊎◌, >>=-eq-ok, ok-injective, ==→eq, ℕ, ◌≡◌, refl, sym, ◌∙◌, ap, Bool, true, false, inl, inr, [],
  ◌∷◌, ◌++◌, Option, none, some, ◌==◌, Bytes, codes, Outcome, ok, Bool-cases,
}
use z3_engine.Message.Msg.{RtspMsg, MsgObj, request, response, channel_data, get_header, c_string}
use z3_engine.Sdp.{atoi}
use z3_engine.Session.{World, Session, rtsp_play, hdr_cseq}
use z3_engine.Session.Phase.{asked_play, At}
use z3_engine.Session.Respond.{
  not_response, einval, on_message, dispatch, dispatch_obj, answer, invoke_state_machine, read_on,
  handler, take_session, token_of, to_semicolon, timeout_in, timeout_from, find_text,
}
use z3_engine.Message.Print.{to_string}
use z3_engine.Session.Sends.{fault-ne-ok, reply}
use z3_engine.Text.Lines.{skip_spaces}
use z3_engine.Text.Lines.Words.{None}
use z3_engine.Text.Version.{z3_eok}

-- The message is a response of code 200 with the CSeq that the session remembers.
pub record Answers (msg : RtspMsg) (s : Session) : Type 0 where
  pub version : ℕ
  pub reason : Bytes
  pub cseq : Bytes
  pub obj : msg.obj ≡ some (response 200 reason version)
  pub header : get_header msg hdr_cseq 0 ≡ some (some cseq)
  pub same : atoi (skip_spaces (c_string cseq)) ≡ s.cseq_previous

abbrev pub unread : Session → Session
unread s = record s { reading = false }

-- The result for a message that is not taken: 0 for a response and EINVAL for any other.
abbrev pub not_taken : Option MsgObj → ℕ
not_taken (some (response code reason version)) = 0
not_taken _ = 22

-- What is left as it was, but for the read.
unchanged : (e : ℕ) (s : Session) {r : ℕ × Session} → reply e (unread s) ≡ ok r → r ≡ (e, unread s)
unchanged e s h = sym (ok-injective h)

answer-Answers :
    (w : World) (msg : RtspMsg) (s : Session) (version : ℕ) (reason : Bytes)
    (v : Option (Option Bytes)) {r : ℕ × Session}
    → msg.obj ≡ some (response 200 reason version)
    → get_header msg hdr_cseq 0 ≡ v
    → answer w msg (unread s) v ≡ ok r
    → Answers msg s ⊎ (r ≡ (0, unread s))
unfolding answer
answer-Answers w msg s version reason none o g h = inr (unchanged 0 s h)
answer-Answers w msg s version reason (some none) o g h = absurd (fault-ne-ok h)
answer-Answers w msg s version reason (some (some v)) o g h =
    elim (Bool-cases (atoi (skip_spaces (c_string v)) == s.cseq_previous)) [
      | inl t ↦ inl record {
        version = version;
        reason = reason;
        cseq = v;
        obj = o;
        header = g;
        same = ==→eq _ _ t;
      }
      | inr f ↦ inr (unchanged 0 s (rw f at h))
    ]

not_response-unchanged :
    (w : World) (msg : RtspMsg) (s : Session) {r : ℕ × Session}
    → not_response w msg (unread s) ≡ ok r
    → r ≡ (einval, unread s)
unfolding not_response
not_response-unchanged w msg s h =
    let (_, _, q) = >>=-eq-ok (to_string true w.date msg) (λ _. reply einval (unread s)) h in
    unchanged einval s q

dispatch_obj-Answers :
    (w : World) (msg : RtspMsg) (s : Session) (o : Option MsgObj) {r : ℕ × Session}
    → msg.obj ≡ o
    → dispatch_obj w msg (unread s) o ≡ ok r
    → Answers msg s ⊎ (r ≡ (not_taken o, unread s))
unfolding dispatch_obj
dispatch_obj-Answers w msg s none e h = absurd (fault-ne-ok h)
dispatch_obj-Answers w msg s (some (request method uri version)) e h =
    inr (not_response-unchanged w msg s h)
dispatch_obj-Answers w msg s (some (channel_data channel)) e h =
    inr (not_response-unchanged w msg s h)
dispatch_obj-Answers w msg s (some (response code reason version)) e h =
    elim (Bool-cases (code == 200)) [
      | inl t ↦
          answer-Answers w msg s version reason (get_header msg hdr_cseq 0)
            (e ∙ ap (λ c. some (response c reason version)) (==→eq code 200 t)) refl (rw t at h)
      | inr f ↦ inr (unchanged 0 s (rw f at h))
    ]

-- Where the work on a message returns, the message was a response of code 200 with the CSeq that
-- the session remembers, or the session is as before but that no read is pending, so that no
-- request was sent and what it remembers stays; `Dispatch` returns 0 then for a response and
-- EINVAL for any other message.
pub on_message-Answers :
    (w : World) (msg : RtspMsg) (s : Session) {r : ℕ × Session}
    → on_message w msg s ≡ ok r
    → Answers msg s ⊎ (r ≡ (not_taken msg.obj, record s { reading = false }))
unfolding on_message dispatch
on_message-Answers w msg s h = dispatch_obj-Answers w msg s msg.obj refl h

pub played :
    (w : World) (msg : RtspMsg) (s : Session)
    → s.method_previous ≡ rtsp_play
    → invoke_state_machine w s.method_previous msg s ≡ ok (0, s)
unfolding invoke_state_machine handler read_on
played w msg s e = ap (λ k. invoke_state_machine w k msg s) e

-- A session that has asked to play takes any response that has a CSeq with a value, whatever its
-- code, and then has no read pending, with nothing else changed.
pub on_message_played :
    (w : World) (msg : RtspMsg) (s : Session) (n code version : ℕ) (reason v : Bytes)
    → At (asked_play n) s
    → msg.obj ≡ some (response code reason version)
    → get_header msg hdr_cseq 0 ≡ some (some v)
    → on_message w msg s ≡ ok (0, record s { reading = false })
unfolding on_message dispatch dispatch_obj answer
on_message_played w msg s n code version reason v a o h =
    ap (dispatch_obj w msg (unread s)) o ∙ (elim (Bool-cases (code == 200)) [
      | inl t ↦ rw t (
          ap (answer w msg (unread s)) h
          ∙ (elim (Bool-cases (atoi (skip_spaces (c_string v)) == s.cseq_previous)) [
            | inl g ↦ rw g (played w msg (unread s) a.method)
            | inr g ↦ rw g
          ]))
      | inr f ↦ rw f
    ])

abbrev pub semicolon : ℕ → Bool
semicolon c = c == b';'

to_semicolon-cut : (id rest : Bytes) → None semicolon id → to_semicolon (id ++ (b';' ∷ rest)) ≡ id
unfolding to_semicolon
to_semicolon-cut [] rest n = refl
to_semicolon-cut (c ∷ id) rest n = rw (n.0, to_semicolon-cut id rest n.1)

token_of-cut :
    (c : ℕ) (cs rest : Bytes)
    → None semicolon (c ∷ cs)
    → token_of ((c ∷ cs) ++ (b';' ∷ rest)) ≡ c ∷ cs
unfolding token_of
token_of-cut c cs rest n = rw n.0 (ap (λ l. c ∷ l) (to_semicolon-cut cs rest n.1))

abbrev named : Session → Bytes → ℕ → Outcome (ℕ × Session)
named s id timeout = ok (z3_eok, record s { session_id = some id; timeout = timeout })

-- The first SETUP response with a session `<id>;<parameters>`, where the id is not empty, has no
-- semicolon and does not contain `timeout=`, gives the session that id and leaves its timeout as
-- it was, whatever the parameters are.
pub take_session-semicolon :
    (c : ℕ) (cs rest : Bytes) (s : Session)
    → None semicolon (c ∷ cs)
    → find_text (codes "timeout=") (c ∷ cs) ≡ none
    → take_session none ((c ∷ cs) ++ (b';' ∷ rest)) s
      ≡ ok (z3_eok, record s { session_id = some (c ∷ cs) })
unfolding take_session timeout_in timeout_from
take_session-semicolon c cs rest s n h =
    ap (λ id. named s id (timeout_in id s.timeout)) (token_of-cut c cs rest n)
    ∙ ap (λ o. named s (c ∷ cs) (timeout_from o s.timeout)) h
