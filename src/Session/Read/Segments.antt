-- ===== src/Session/Read/Segments.antt =====
-- A session that takes what arrives, segment by segment.
use z3_engine.Base.{
  subst, ℕ, ◌<◌, ◌≡◌, refl, sym, ◌∙◌, ap, ◌⊎◌, inl, inr, true, false, List, [], ◌∷◌, ◌++◌, none,
  some, ltb, ◌==◌, Bytes, length, Outcome, ok, ◌>>=◌, >>=-eq-ok, ok-injective, Bool-cases, arith,
}
use z3_engine.Message.Msg.{RtspMsg, new_msg, get_header}
use z3_engine.Parser.Stream.{
  RtspParser, new_parser, Leftover, parse, reset, hdr_content_length, z3_rtsp_eintr,
}
use z3_engine.Parser.Stream.Part.{kept, parse_part}
use z3_engine.Text.Lines.Words.{None}
use z3_engine.Parser.Stream.Idle.{parse-idle, reset-new}
use z3_engine.Parser.Stream.Lines.{cr_or_nul, AllLines, lines_text, Reads}
use z3_engine.Parser.Stream.Message.{Completes, parse_message, parse_cut}
use z3_engine.Session.{World, Session}
use z3_engine.Session.Phase.{Phase, At, InTurn}
use z3_engine.Session.Read.{AfterRead, parsed, read_bytes, on_ev_read, socket_recv_bufsize}
use z3_engine.Session.Respond.{dispatch, on_connect, on_message}
use z3_engine.Session.Respond.Refine.{false-ne-true, IsFresh, Reach, connected, received, Reach-At}
use z3_engine.Session.Sends.{fault-ne-ok}

-- A parser and a session that come of a connect and of reads, each of which was started.
pub data Runs (w : World) (s : Session) : RtspParser → Session → Type 0 where
  connects : (code : ℕ) {r : ℕ × Session} → on_connect w code s ≡ ok r → Runs w s new_parser r.1
  reads :
      {p : RtspParser} {t : Session} (l : Leftover) (code : ℕ) (buf : Bytes) {r : AfterRead}
      → Runs w s p t
      → t.reading ≡ true
      → on_ev_read w l code buf p t ≡ ok r
      → Runs w s r.1 r.2

-- A read ends with none pending, or Dispatch has taken the message of a parser that waits for the next.
abbrev Takes : World → Session → RtspParser → Session → Type 0
Takes w t q t' =
    (t'.reading ≡ false) ⊎ ((e : ℕ) × (on_message w q.msg t ≡ ok (e, t')) × (reset q ≡ new_parser))

parsed-Takes :
    (w : World) (t : Session) (a : ℕ × RtspParser) {r : AfterRead}
    → ((a.0 == 0) ≡ true → reset a.1 ≡ new_parser)
    → parsed w (record t { reading = false }) a ≡ ok r
    → Takes w t r.1 r.2
unfolding parsed on_message
parsed-Takes w t (e, p) {r} idle h =
    let t0 : Session = record t { reading = false } in
    elim (Bool-cases (e == 0)) [
      | inl z ↦
          let (b, d, h1) = >>=-eq-ok (dispatch w p.msg t0) (λ x. ok (x.0, p, x.1)) (rw z at h) in
          let same : b.1 ≡ r.2 = ap (λ x. x.2) (ok-injective h1) in
          let kept : p ≡ r.1 = ap (λ x. x.1) (ok-injective h1) in
          inr (
            b.0,
            subst (λ q. on_message w q.msg t ≡ ok (b.0, r.2)) kept (d ∙ ap (λ x. ok (b.0, x)) same),
            subst (λ q. reset q ≡ new_parser) kept (idle z),
          )
      | inr n ↦ inl (sym (ap (λ x. x.2.reading) (ok-injective (rw n at h))))
    ]

read_bytes-Takes :
    (w : World) (l : Leftover) (buf : Bytes) (p : RtspParser) (t : Session) {r : AfterRead}
    → read_bytes w l buf p (record t { reading = false }) ≡ ok r
    → Takes w t r.1 r.2
unfolding read_bytes
read_bytes-Takes w l [] p t {r} h = inl (sym (ap (λ x. x.2.reading) (ok-injective h)))
read_bytes-Takes w l (c ∷ cs) p t {r} h =
    elim (Bool-cases (ltb (length (c ∷ cs)) socket_recv_bufsize)) [
      | inl z ↦
          let (a, e, h1) =
            >>=-eq-ok (parse l (some (c ∷ cs)) p) (λ x. parsed w (record t { reading = false }) x)
              (rw z at h) in
          parsed-Takes w t a (parse-idle l (c ∷ cs) p e) h1
      | inr n ↦ absurd (fault-ne-ok (rw n at h))
    ]

on_ev_read-Takes :
    (w : World) (l : Leftover) (code : ℕ) (buf : Bytes) (p : RtspParser) (t : Session)
    {r : AfterRead}
    → on_ev_read w l code buf p t ≡ ok r
    → Takes w t r.1 r.2
unfolding on_ev_read
on_ev_read-Takes w l code buf p t {r} h = elim (Bool-cases (code == 0)) [
  | inl z ↦ read_bytes-Takes w l buf p t (rw z at h)
  | inr n ↦ inl (sym (ap (λ x. x.2.reading) (ok-injective (rw n at h))))
]

Runs-Reach :
    (w : World) (s : Session) {p : RtspParser} {t : Session}
    → Runs w s p t
    → (t.reading ≡ false) ⊎ (Reach w s t × (reset p ≡ new_parser))
Runs-Reach w s (connects code h) = inr (connected code h, reset-new)
Runs-Reach w s (reads {p} {t} l code buf {r} runs reading h) = elim (Runs-Reach w s runs) [
  | inl g ↦ absurd (false-ne-true (sym g ∙ reading))
  | inr (reached, _) ↦ elim (on_ev_read-Takes w l code buf p t h) [
    | inl g ↦ inl g
    | inr (e, m, idle) ↦ inr (received r.1.msg reached reading m, idle)
  ]
]

-- A parser and a session that come of a connect and of reads, each started before, with any
-- segments and error codes: either no read is pending, or the session is at a phase of the
-- protocol, with its SETUP requests for the tracks in turn, and the parser waits for a new
-- message: the reset at the start of its next call makes it a new parser.
pub Runs-At :
    (w : World) (s t : Session) (p : RtspParser)
    → IsFresh s
    → Runs w s p t
    → (t.reading ≡ false) ⊎ ((phase : Phase) × At phase t × InTurn t × (reset p ≡ new_parser))
Runs-At w s t p f runs = elim (Runs-Reach w s runs) [
  | inl g ↦ inl g
  | inr (reached, idle) ↦ elim (Reach-At w s f reached) [
    | inl g ↦ inl g
    | inr (phase, a, i) ↦ inr (phase, a, i, idle)
  ]
]

-- The read is the work of a message, and the message is complete.
abbrev pub ReadsAs : World → RtspMsg → Session → Outcome AfterRead → Type 0
ReadsAs w m s o =
    (q : RtspParser) × (o ≡ (on_message w m s >>= λ r. ok (r.0, q, r.1))) × (q.completed ≡ true)

completed-ReadsAs :
    (w : World) (l : Leftover) (c : ℕ) (cs : Bytes) (p : RtspParser) (s : Session) (m : RtspMsg)
    → length (c ∷ cs) < socket_recv_bufsize
    → Completes (parse l (some (c ∷ cs)) p) m
    → ReadsAs w m s (on_ev_read w l 0 (c ∷ cs) p s)
unfolding on_ev_read read_bytes parsed on_message
completed-ReadsAs w l c cs p s m h (q, e, same, full) =
    let room : ltb (length (c ∷ cs)) socket_recv_bufsize ≡ true = ground (arith, h) in
    (q, rw (room, e, same) refl, full)

-- A read of such a segment, of fewer than 4096 bytes, by a session whose parser waits for a
-- message does what the session does with the message that the lines make, with the same result,
-- and leaves the message complete in the parser.
pub on_ev_read-message :
    (w : World) (l : Leftover) (p : RtspParser) (s : Session) (c k : ℕ) (x extra : Bytes)
    (xs : List Bytes) (m : RtspMsg)
    → reset p ≡ new_parser
    → (c == b'$') ≡ false
    → AllLines ((c ∷ x) ∷ xs)
    → Reads l 0 new_msg ((c ∷ x) ∷ xs) k m
    → get_header m hdr_content_length 0 ≡ none
    → length (lines_text ((c ∷ x) ∷ xs) (13 ∷ 10 ∷ extra)) < socket_recv_bufsize
    → ReadsAs w m s (on_ev_read w l 0 (lines_text ((c ∷ x) ∷ xs) (13 ∷ 10 ∷ extra)) p s)
on_ev_read-message w l p s c k x extra xs m idle d a r no_size h =
    completed-ReadsAs w l c (x ++ (13 ∷ 10 ∷ lines_text xs (13 ∷ 10 ∷ extra))) p s m h
      (parse_message l p c k x extra xs m idle d a r no_size (omega (arith, h)))

pub on_ev_read_cut :
    (w : World) (l : Leftover) (p : RtspParser) (s : Session) (c k : ℕ) (x : Bytes)
    (xs : List Bytes) (m : RtspMsg)
    → reset p ≡ new_parser
    → (c == b'$') ≡ false
    → AllLines ((c ∷ x) ∷ xs)
    → Reads l 0 new_msg ((c ∷ x) ∷ xs) k m
    → length (lines_text ((c ∷ x) ∷ xs) []) < socket_recv_bufsize
    → ReadsAs w m s (on_ev_read w l 0 (lines_text ((c ∷ x) ∷ xs) []) p s)
on_ev_read_cut w l p s c k x xs m idle d a r h =
    completed-ReadsAs w l c (x ++ (13 ∷ 10 ∷ lines_text xs [])) p s m h
      (parse_cut l p c k x xs m idle d a r (omega (arith, h)))

-- A read of a part of a first line, not beginning with `$`, without CR or NUL and of fewer than
-- 4096 bytes, where the buffer holds a NUL behind it, returns Z3_RTSP_EINTR: the parser, which
-- waited for a message, keeps the bytes, and the session is as before with no read pending.
pub on_ev_read_part :
    (w : World) (l : Leftover) (p : RtspParser) (s : Session) (c : ℕ) (x rest : Bytes)
    → reset p ≡ new_parser
    → (c == b'$') ≡ false
    → None cr_or_nul (c ∷ x)
    → l.behind ≡ 0 ∷ rest
    → length (c ∷ x) < socket_recv_bufsize
    → on_ev_read w l 0 (c ∷ x) p s ≡ ok (z3_rtsp_eintr, kept (c ∷ x), record s { reading = false })
unfolding on_ev_read read_bytes parsed
on_ev_read_part w l p s c x rest idle d n b h =
    let e = parse_part l p c x rest idle d n b (omega (arith, h)) in
    let room : ltb (length (c ∷ x)) socket_recv_bufsize ≡ true = ground (arith, h) in
    rw (room, e) refl
