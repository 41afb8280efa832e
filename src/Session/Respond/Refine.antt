-- ===== src/Session/Respond/Refine.antt =====
-- The session carries out the protocol: each response that it takes leads to the phase that follows,
-- or ends the reading.
use z3_engine.Base.{
  ℕ, ◌≡◌, ◌≢◌, refl, sym, ◌∙◌, ap, subst, Bool, true, false, ◌⊎◌, inl, inr, [], ◌∷◌, ◌++◌, Option,
  none, some, ◌==◌, Bytes, length, ok, >>=-eq-ok, ok-injective, Bool-cases, ne→==, eq→==, arith,
}
use z3_engine.Message.Msg.{RtspMsg, MsgObj, request, response, channel_data, get_header, c_string}
use z3_engine.Message.Print.{to_string}
use z3_engine.Sdp.{atoi}
use z3_engine.Session.{
  World, Session, start_read, send_options, rtsp_options, session_init, hdr_cseq,
}
use z3_engine.Session.Phase.{
  Phase, asked_options, asked_describe, asked_setup, asked_play, Follows, At, asked_last, methods,
  tracks_of, InTurn, Asks, setup_uris, setup_uris-nil,
}
use z3_engine.Session.Requests.{send_options-Sends}
use z3_engine.Session.Respond.{
  on_message, dispatch, dispatch_obj, not_response, answer, invoke_state_machine, read_on, handler,
  on_connect, read_after, einval,
}
use z3_engine.Session.Respond.Advance.{
  Advances, failed, on_options_respond-Advances, on_describe_respond-Advances,
}
use z3_engine.Session.Respond.Tracks.{on_setup_respond-Advances}
use z3_engine.Session.Sends.{Sends, fault-ne-ok, reply}
use z3_engine.Text.Lines.{skip_spaces}
use z3_engine.Text.Version.{z3_error}

pub false-ne-true : false ≡ true → ⊥
false-ne-true h = cc

module _ (w : World) (resp : RtspMsg) (s : Session) (idle : s.reading ≡ false) where
  handler-Advances :
      (p : Phase) {r : ℕ × Session}
      → At p s
      → handler w (asked_last p) resp s ≡ ok r
      → Advances p s r
  unfolding handler
  handler-Advances asked_options a h = on_options_respond-Advances w resp s idle a h
  handler-Advances asked_describe a h = on_describe_respond-Advances w resp s idle a h
  handler-Advances (asked_setup n k) a h = on_setup_respond-Advances w resp s idle n k a h
  handler-Advances (asked_play n) a h =
      failed (asked_play n) s z3_error s (λ z. omega (arith, z)) idle h

-- What a message comes to: no read is pending, or one is and the session is in the phase that follows.
abbrev pub Moves : Phase → Session → Type 0
Moves p t = (t.reading ≡ false) ⊎ ((q : Phase) × Follows p q × At q t × (t.reading ≡ true))

-- The same, and then its SETUP requests are in turn if they were.
abbrev Steps : Phase → Session → Session → Type 0
Steps p s t =
    (t.reading ≡ false)
    ⊎ ((q : Phase) × Follows p q × At q t × (t.reading ≡ true) × (InTurn s → InTurn t))

pub At_reading : (p : Phase) (s : Session) (b : Bool) → At p s → At p (record s { reading = b })
At_reading p s b a = record {
  method = a.method;
  sent = a.sent;
  cseq = a.cseq;
  state = a.state;
  tracks = a.tracks;
}

quiet :
    (p : Phase) (s0 : Session) (e : ℕ) (s : Session) {r : ℕ × Session}
    → s.reading ≡ false
    → reply e s ≡ ok r
    → Steps p s0 r.1
quiet p s0 e s idle h = inl (sym (ap (λ x. x.1.reading) (ok-injective h)) ∙ idle)

read_on-Steps :
    (w : World) (p : Phase) (s0 : Session) (a : ℕ × Session) {r : ℕ × Session}
    → Advances p s0 a
    → read_on w a ≡ ok r
    → Steps p s0 r.1
unfolding read_on start_read
read_on-Steps w p s0 (e, s) {r} c h = elim c [
  | inl (n, idle) ↦ quiet p s0 0 s idle (rw (not_zero n) at h)
  | inr (z, (q, f, a, turn)) ↦
      let h1 = rw (eq→== e 0 z) at h in
      elim (Bool-cases (w.read (length s.sent) == 0)) [
        | inl g ↦
            let same = ok-injective (rw g at h1) in
            inr (
              q,
              f,
              subst (At q) (ap (λ x. x.1) same) (At_reading q s true a),
              sym (ap (λ x. x.1.reading) same),
              λ i. subst InTurn (ap (λ x. x.1) same) (turn i),
            )
        | inr g ↦ absurd (fault-ne-ok (rw g at h1))
      ]
]
  where
    not_zero : e ≢ 0 → (e == 0) ≡ false
    not_zero n = ne→== e 0 n

answer-Steps :
    (w : World) (msg : RtspMsg) (p : Phase) (s : Session) (v : Option (Option Bytes))
    {r : ℕ × Session}
    → At p s
    → s.reading ≡ false
    → answer w msg s v ≡ ok r
    → Steps p s r.1
unfolding answer invoke_state_machine
answer-Steps w msg p s none a idle h = quiet p s 0 s idle h
answer-Steps w msg p s (some none) a idle h = absurd (fault-ne-ok h)
answer-Steps w msg p s (some (some v)) a idle h =
    elim (Bool-cases (atoi (skip_spaces (c_string v)) == s.cseq_previous)) [
      | inl t ↦
          let (b, e, h1) = >>=-eq-ok (handler w s.method_previous msg s) (read_on w) (rw t at h) in
          read_on-Steps w p s b
            (handler-Advances w msg s idle p a (ap (λ k. handler w k msg s) (sym a.method) ∙ e)) h1
      | inr f ↦ quiet p s 0 s idle (rw f at h)
    ]

not_response-quiet :
    (w : World) (msg : RtspMsg) (p : Phase) (s : Session) {r : ℕ × Session}
    → s.reading ≡ false
    → not_response w msg s ≡ ok r
    → Steps p s r.1
unfolding not_response
not_response-quiet w msg p s idle h =
    let (_, _, q) = >>=-eq-ok (to_string true w.date msg) (λ _. reply einval s) h in
    quiet p s einval s idle q

dispatch_obj-Steps :
    (w : World) (msg : RtspMsg) (p : Phase) (s : Session) (o : Option MsgObj) {r : ℕ × Session}
    → At p s
    → s.reading ≡ false
    → dispatch_obj w msg s o ≡ ok r
    → Steps p s r.1
unfolding dispatch_obj
dispatch_obj-Steps w msg p s none a idle h = absurd (fault-ne-ok h)
dispatch_obj-Steps w msg p s (some (request method uri version)) a idle h =
    not_response-quiet w msg p s idle h
dispatch_obj-Steps w msg p s (some (channel_data channel)) a idle h =
    not_response-quiet w msg p s idle h
dispatch_obj-Steps w msg p s (some (response code reason version)) a idle h =
    elim (Bool-cases (code == 200)) [
      | inl t ↦ answer-Steps w msg p s (get_header msg hdr_cseq 0) a idle (rw t at h)
      | inr f ↦ quiet p s 0 s idle (rw f at h)
    ]

on_message-Steps :
    (w : World) (msg : RtspMsg) (p : Phase) (s : Session) {r : ℕ × Session}
    → At p s
    → on_message w msg s ≡ ok r
    → Steps p s r.1
unfolding on_message dispatch
on_message-Steps w msg p s a h =
    dispatch_obj-Steps w msg p (record s { reading = false }) msg.obj (At_reading p s false a) refl
      h

-- A session that is at a phase of the protocol OPTIONS, DESCRIBE, a SETUP for each track, PLAY,
-- and takes a message without a stop, either has no read pending then, or is at the phase that
-- follows: the requests that it has sent, the method and the CSeq that it remembers, its state and
-- its count of tracks are those of that phase, and a read is pending.
pub on_message-Moves :
    (w : World) (msg : RtspMsg) (p : Phase) (s : Session) {r : ℕ × Session}
    → At p s
    → on_message w msg s ≡ ok r
    → Moves p r.1
on_message-Moves w msg p s a h = elim (on_message-Steps w msg p s a h) [
  | inl g ↦ inl g
  | inr (q, f, b, g, _) ↦ inr (q, f, b, g)
]

-- A session before it is connected.
pub record IsFresh (s : Session) : Type 0 where
  pub media : s.media ≡ none
  pub sent : s.sent ≡ []
  pub state : s.state ≡ session_init
  pub reading : s.reading ≡ false

fresh-InTurn : (s : Session) → IsFresh s → InTurn s
fresh-InTurn s f =
    subst (λ o. Asks o (setup_uris s.sent)) (sym f.media) (ap setup_uris f.sent ∙ setup_uris-nil)

abbrev Opens : Session → Type 0
Opens t = (t.reading ≡ false) ⊎ (At asked_options t × (t.reading ≡ true) × InTurn t)

options-Opens :
    (w : World) (s : Session) (b : ℕ × Session)
    → IsFresh s
    → Sends rtsp_options 0 (tracks_of s.media) s b
    → Opens (read_after w b).1
unfolding read_after start_read
options-Opens w s (e, t) f sends = elim sends [
  | inr (n, same) ↦ rw (ne→== e 0 n) (inl (same ∙ f.reading))
  | inl (z, v) ↦ rw (eq→== e 0 z) (elim (Bool-cases (w.read (length t.sent) == 0)) [
    | inl g ↦ rw g (
        inr (
          record {
            method = v.method;
            sent = v.sent ∙ ap (λ l. methods l ++ (rtsp_options ∷ [])) f.sent;
            cseq = omega (arith, v.cseq, v.one_more, ap (λ l. length l) f.sent);
            state = v.state ∙ f.state;
            tracks = v.tracks ∙ ap tracks_of f.media;
          },
          refl,
          v.in_turn (fresh-InTurn s f),
        ))
    | inr g ↦ rw g (inl (v.reading ∙ f.reading))
  ])
]

pub on_connect-Opens :
    (w : World) (code : ℕ) (s : Session) {r : ℕ × Session}
    → IsFresh s
    → on_connect w code s ≡ ok r
    → Opens r.1
unfolding on_connect
on_connect-Opens w code s {r} f h = elim (Bool-cases (code == 0)) [
  | inl t ↦
      let (b, e, h1) = >>=-eq-ok (send_options w s) (λ x. ok (read_after w x)) (rw t at h) in
      subst (λ x. Opens x.1) (ok-injective h1) (options-Opens w s b f (send_options-Sends w s e))
  | inr g ↦ inl (sym (ap (λ x. x.1.reading) (ok-injective (rw g at h))) ∙ f.reading)
]

-- The sessions that come of a connect and of messages, each taken by a pending read.
pub data Reach (w : World) (s : Session) : Session → Type 0 where
  connected : (code : ℕ) {r : ℕ × Session} → on_connect w code s ≡ ok r → Reach w s r.1
  received :
      {t : Session} (msg : RtspMsg) {r : ℕ × Session}
      → Reach w s t
      → t.reading ≡ true
      → on_message w msg t ≡ ok r
      → Reach w s r.1

-- A session that comes of a new one by a connect and by messages, each taken by a pending read,
-- either has no read pending or is at a phase of the protocol: it has sent OPTIONS, DESCRIBE,
-- SETUP for the tracks in turn and PLAY, as far as it has come, the CSeq that it remembers is one
-- less than the number of its requests, and its state is READY just when PLAY was sent. The SETUP
-- requests name, for the tracks from 0 on that were asked for, the content base with the value of
-- the first `control` attribute of the description's media of that number behind it; once there is
-- a media, its tracks are as many as the media of its description.
pub Reach-At :
    (w : World) (s : Session) {t : Session}
    → IsFresh s
    → Reach w s t
    → (t.reading ≡ false) ⊎ ((p : Phase) × At p t × InTurn t)
Reach-At w s f (connected code h) = elim (on_connect-Opens w code s f h) [
  | inl g ↦ inl g
  | inr (a, _, i) ↦ inr (asked_options, a, i)
]
Reach-At w s f (received {t} msg reached reading h) = elim (Reach-At w s f reached) [
  | inl g ↦ absurd (false-ne-true (sym g ∙ reading))
  | inr (p, a, i) ↦ elim (on_message-Steps w msg p t a h) [
    | inl g ↦ inl g
    | inr (q, _, b, _, turn) ↦ inr (q, b, turn i)
  ]
]
