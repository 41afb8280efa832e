-- ===== src/Parser/Stream/Calls.antt =====
-- Parse called with one segment after the other, on a parser that waits for a message.
use z3_engine.Base.{
  ℕ, ◌≤◌, ◌<◌, ◌≡◌, refl, false, List, [], ◌∷◌, ◌++◌, some, ◌==◌, Bytes, length, Outcome, ok, ◌>>=◌,
  arith,
}
use z3_engine.Message.Msg.{RtspMsg, new_msg}
use z3_engine.Parser.Stream.{
  rtsp_recvbuf_size, z3_rtsp_eintr, RtspParser, new_parser, Leftover, clean, parse_numbered, reset,
  parse,
}
use z3_engine.Parser.Stream.Data.{Waiting, parse-Waiting, parse_data-Waits}
use z3_engine.Parser.Stream.Lines.{cr_or_nul}
use z3_engine.Parser.Stream.Stuck.{Stuck, parse-Stuck, parse_split-Sticks, parse_refused-Sticks}
use z3_engine.Text.Lines.Words.{None}
use z3_engine.Text.Version.{z3_eok, z3_error}

-- A segment, and what is not initialised in its call.
abbrev pub Segment : Type 0
Segment = Leftover × Bytes

-- The results of the calls.
pub calls : RtspParser → List Segment → Outcome (List ℕ)
calls p [] = ok []
calls p ((l, buf) ∷ later) = do (e, q) ← parse l (some buf) p; es ← calls q later; ok (e ∷ es)

-- The same result for each segment.
abbrev pub each : ℕ → List Segment → List ℕ
each e [] = []
each e (s ∷ later) = e ∷ each e later

abbrev pub NoneEmpty : List Segment → Type 0
NoneEmpty [] = Unit {0}
NoneEmpty ((l, buf) ∷ later) = (0 < length buf) × NoneEmpty later

calls-first :
    (l : Leftover) (buf : Bytes) (later : List Segment) (p q : RtspParser) (e : ℕ) (es : List ℕ)
    → parse l (some buf) p ≡ ok (e, q)
    → calls q later ≡ ok es
    → calls p ((l, buf) ∷ later) ≡ ok (e ∷ es)
unfolding calls
calls-first l buf later p q e es a b = rw (a, b) refl

calls-Stuck :
    (q : RtspParser) (later : List Segment) → Stuck q → calls q later ≡ ok (each z3_error later)
unfolding calls
calls-Stuck q [] s = refl
calls-Stuck q ((l, buf) ∷ later) s =
    let (t, a, s', _) = parse-Stuck l buf q s in
    calls-first l buf later q t z3_error (each z3_error later) a (calls-Stuck t later s')

calls-Waiting :
    (q : RtspParser) (later : List Segment)
    → Waiting q
    → NoneEmpty later
    → calls q later ≡ ok (each z3_rtsp_eintr later)
unfolding calls
calls-Waiting q [] w n = refl
calls-Waiting q ((l, []) ∷ later) w n = absurd (omega (arith, n.0))
calls-Waiting q ((l, c ∷ cs) ∷ later) w n =
    let (t, a, w') = parse-Waiting l c cs q w in
    calls-first l (c ∷ cs) later q t z3_rtsp_eintr (each z3_rtsp_eintr later) a
      (calls-Waiting t later w' n.1)

-- A parser that waits for a message, given in one segment of at most 4096 bytes a first line, not
-- beginning with `$` and without CR or NUL, with CR behind it, where the buffer does not hold LF
-- behind that, returns Z3_ERROR, and so does every later call with any segment.
pub calls_split :
    (l : Leftover) (p : RtspParser) (c d : ℕ) (x behind : Bytes) (later : List Segment)
    → reset p ≡ new_parser
    → (c == b'$') ≡ false
    → None cr_or_nul (c ∷ x)
    → length ((c ∷ x) ++ (13 ∷ [])) ≤ rtsp_recvbuf_size
    → l.behind ≡ d ∷ behind
    → (d == 10) ≡ false
    → calls p ((l, (c ∷ x) ++ (13 ∷ [])) ∷ later) ≡ ok (z3_error ∷ each z3_error later)
calls_split l p c d x behind later idle dollar w h b e =
    let (q, a, s) = parse_split-Sticks l p c d x behind idle dollar w h b e in
    calls-first l ((c ∷ x) ++ (13 ∷ [])) later p q z3_error (each z3_error later) a
      (calls-Stuck q later s)

pub calls_refused :
    (l : Leftover) (p : RtspParser) (c e : ℕ) (x rest : Bytes) (next : RtspMsg)
    (later : List Segment)
    → reset p ≡ new_parser
    → (c == b'$') ≡ false
    → None cr_or_nul (c ∷ x)
    → parse_numbered l 0 (clean (c ∷ x)) new_msg ≡ ok (next, e)
    → (e == z3_eok) ≡ false
    → length ((c ∷ x) ++ (13 ∷ 10 ∷ rest)) ≤ rtsp_recvbuf_size
    → calls p ((l, (c ∷ x) ++ (13 ∷ 10 ∷ rest)) ∷ later) ≡ ok (e ∷ each z3_error later)
calls_refused l p c e x rest next later idle dollar w parsed ne h =
    let (q, a, s) = parse_refused-Sticks l p c e x rest next idle dollar w parsed ne h in
    calls-first l ((c ∷ x) ++ (13 ∷ 10 ∷ rest)) later p q e (each z3_error later) a
      (calls-Stuck q later s)

-- A parser that waits for a message, given in one segment of at most 4096 bytes a frame with `$`,
-- a channel, a size whose low byte is 128 or more, and at least one byte, returns Z3_RTSP_EINTR,
-- and so does every later call with a segment that is not empty.
pub calls_data :
    (l : Leftover) (p : RtspParser) (channel high low d : ℕ) (rest : Bytes) (later : List Segment)
    → reset p ≡ new_parser
    → 128 ≤ low
    → low < 256
    → length (36 ∷ channel ∷ high ∷ low ∷ d ∷ rest) ≤ rtsp_recvbuf_size
    → NoneEmpty later
    → calls p ((l, 36 ∷ channel ∷ high ∷ low ∷ d ∷ rest) ∷ later)
      ≡ ok (z3_rtsp_eintr ∷ each z3_rtsp_eintr later)
calls_data l p channel high low d rest later idle h k fits n =
    let (q, a, w) = parse_data-Waits l p channel high low d rest idle h k fits in
    calls-first l (36 ∷ channel ∷ high ∷ low ∷ d ∷ rest) later p q z3_rtsp_eintr
      (each z3_rtsp_eintr later) a (calls-Waiting q later w n)
