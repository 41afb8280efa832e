-- ===== src/Parser/Stream/Ends.antt =====
-- Parse comes to an end: its loop consumes bytes, goes on to a later state, or stops.
use z3_engine.Base.{
  ap, sym, subst, ℕ, zero, suc, ◌+◌, ◌-◌, ◌≤◌, ◌<◌, ◌≡◌, refl, inl, inr, true, false, Option, none,
  some, [], ◌∷◌, ◌++◌, leb, ◌==◌, if◌then◌else◌, Bytes, length, take, Outcome, ok, fault, hangs,
  ◌>>=◌, Halts, then-ok-Halts, if-Halts, arith, Bool-cases,
}
use z3_engine.Message.Msg.{RtspMsg, set_body, get_header}
use z3_engine.Message.Msg.Ends.{set_body-Halts, init_data-eok}
use z3_engine.Parser.Stream.{
  BuilderState, state_start, state_data_header, state_data_body, state_read_lines, state_end,
  hdr_content_length, RtspParser, Leftover, Run, wait_more, start_round, header_of, header_round,
  body_rest, body_round, Search, found, absent, outside, in_front, find_cr, end_headers, clean,
  parse_numbered, data_size, line_taken, line_round, lines_round, round, goes_on, rounds, first_run,
  finished, parse_received, reset, appended, parse_bytes, parse,
}
use z3_engine.Parser.Stream.Halting.{end_headers-Halts, parse_numbered-Halts}
use z3_engine.Parser.Stream.Lines.{go_round, at_lines}
use z3_engine.Text.Version.{z3_eok}

-- How many rounds a state may take that consume nothing.
abbrev pub rank : BuilderState → ℕ
rank state_start = 2
rank state_end = 0
rank _ = 1

pub measure : Run → ℕ
measure r = length r.text + rank r.state

-- The outcome of a round that is not endless: a stop of the program, the last round, or one that
-- leaves less to do.
data Falls (n : ℕ) : Outcome Run → Type 0 where
  faulted : Falls n fault
  last : (r : Run) → r.stop ≡ true → Falls n (ok r)
  less : (r : Run) → measure r < n → Falls n (ok r)

>>=-Falls {ℓ} :
    {A : Type ℓ} (n : ℕ) (o : Outcome A) (f : A → Outcome Run)
    → Halts o
    → ((a : A) → Falls n (f a))
    → Falls n (o >>= f)
>>=-Falls n hangs f h k = absurd (h refl)
>>=-Falls n fault f h k = faulted
>>=-Falls n (ok a) f h k = k a

start_round-Falls :
    (r : Run) (text : Bytes) → r.text ≡ text → Falls (length text + 2) (start_round r text)
unfolding start_round measure
start_round-Falls r [] t = faulted
start_round-Falls r (c ∷ cs) t = elim (Bool-cases (c == b'$')) [
  | inl y ↦ rw y (less _ (rw t (omega arith)))
  | inr n ↦ rw n (less _ (rw t (omega arith)))
]

short_header :
    (r : Run) (n : ℕ) → Falls n (if leb 4 (r.bytes - r.offset) then fault else ok (wait_more r))
unfolding wait_more
short_header r n = elim (Bool-cases (leb 4 (r.bytes - r.offset))) [
  | inl y ↦ rw y faulted
  | inr f ↦ rw f (last _ refl)
]

header_round-Falls : (r : Run) (text : Bytes) → Falls (length text + 1) (header_round r text)
unfolding header_round header_of measure wait_more data_size
header_round-Falls r [] = short_header r 1
header_round-Falls r (a ∷ []) = short_header r 2
header_round-Falls r (a ∷ b ∷ []) = short_header r 3
header_round-Falls r (a ∷ b ∷ c ∷ []) = short_header r 4
header_round-Falls r (a ∷ channel ∷ high ∷ low ∷ rest) =
    elim (Bool-cases (leb 4 (r.bytes - r.offset))) [
      | inl y ↦ rw (y, init_data-eok channel (data_size high low) r.msg) (less _ (omega arith))
      | inr n ↦ rw n (last _ refl)
    ]

body_round-Falls : (r : Run) (n : ℕ) → Falls n (body_round r)
unfolding body_round wait_more
body_round-Falls r n =
    let need = body_rest r.msg in
    elim (Bool-cases (leb need (r.bytes - r.offset))) [
      | inl y ↦ rw y (
          >>=-Falls n (set_body (take need r.text) r.msg) _
            (set_body-Halts (take need r.text) r.msg) (λ a. last _ refl))
      | inr f ↦ rw f (last _ refl)
    ]

rank-le : (s : BuilderState) → rank s ≤ 2
rank-le state_start = omega arith
rank-le state_data_header = omega arith
rank-le state_data_body = omega arith
rank-le state_read_lines = omega arith
rank-le state_end = omega arith

-- What strchr finds stands behind at least one byte of `n`.
abbrev Behind : ℕ → Search → Type 0
Behind n (found front rest) = length rest < n
Behind n _ = Unit {0}

in_front-Behind : (c n : ℕ) (s : Search) → Behind n s → Behind (suc n) (in_front c s)
in_front-Behind c n (found front rest) h = omega (arith, h)
in_front-Behind c n absent h = tt
in_front-Behind c n outside h = tt

find_cr-Behind : (t : Bytes) → Behind (length t) (find_cr t)
unfolding find_cr
find_cr-Behind [] = tt
find_cr-Behind (c ∷ cs) = elim (Bool-cases (c == 13)) [
  | inl y ↦ rw y (omega arith)
  | inr n ↦ elim (Bool-cases (c == 0)) [
    | inl z ↦ rw (n, z) tt
    | inr o ↦ rw (n, o) (in_front-Behind c (length cs) (find_cr cs) (find_cr-Behind cs))
  ]
]

line_taken-Falls :
    (r : Run) (line rest : Bytes) (made : RtspMsg × ℕ)
    → r.state ≡ state_read_lines
    → length rest < length r.text
    → Falls (length r.text + 1) (ok (line_taken r line rest made))
unfolding line_taken measure
line_taken-Falls r line rest (m, e) s h = elim (Bool-cases (e == z3_eok)) [
  | inl y ↦ rw y (less _ (rw s (omega (arith, h))))
  | inr n ↦ rw n (less _ (omega arith))
]

line_round-Falls :
    (l : Leftover) (r : Run) (line rest : Bytes)
    → r.state ≡ state_read_lines
    → length rest + 1 < length r.text
    → Falls (length r.text + 1) (line_round l r line rest)
unfolding line_round measure
line_round-Falls l r [] rest s h =
    >>=-Falls (length r.text + 1) (end_headers (get_header r.msg hdr_content_length 0) r.msg) _
      (end_headers-Halts (get_header r.msg hdr_content_length 0) r.msg)
      λ a. less _ (omega (arith, h, rank-le a.1))
line_round-Falls l r (c ∷ cs) rest s h =
    >>=-Falls (length r.text + 1) (parse_numbered l r.line (clean (c ∷ cs)) r.msg) _
      (parse_numbered-Halts l r.line (clean (c ∷ cs)) r.msg)
      λ made. line_taken-Falls r (c ∷ cs) rest made s (omega (arith, h))

lines_round-Falls :
    (l : Leftover) (r : Run) (s : Search)
    → r.state ≡ state_read_lines
    → Behind (length r.text) s
    → Falls (length r.text + 1) (lines_round l r s)
unfolding lines_round wait_more measure
lines_round-Falls l r outside e h = faulted
lines_round-Falls l r absent e h = last _ refl
lines_round-Falls l r (found front []) e h = faulted
lines_round-Falls l r (found front (c ∷ rest)) e h = elim (Bool-cases (c == 10)) [
  | inl y ↦ rw y (line_round-Falls l r front rest e (omega (arith, h)))
  | inr n ↦ rw n (less _ (omega arith))
]

round_in-Falls :
    (l : Leftover) (r : Run) (s : BuilderState)
    → Falls (length r.text + rank s) (round l (record r { state = s }))
unfolding round
round_in-Falls l r state_start = start_round-Falls (record r { state = state_start }) r.text refl
round_in-Falls l r state_data_header =
    header_round-Falls (record r { state = state_data_header }) r.text
round_in-Falls l r state_data_body =
    body_round-Falls (record r { state = state_data_body }) (length r.text + 1)
round_in-Falls l r state_read_lines =
    lines_round-Falls l (record r { state = state_read_lines }) (find_cr r.text) refl
      (find_cr-Behind r.text)
round_in-Falls l r state_end = last _ refl

round-Falls : (l : Leftover) (r : Run) → Falls (measure r) (round l r)
unfolding measure
round-Falls l r = round_in-Falls l r r.state

after_round-Halts :
    (l : Leftover) (fuel n : ℕ) (o : Outcome Run)
    → Falls n o
    → n ≤ fuel
    → ((r : Run) → measure r < fuel → Halts (rounds fuel l r))
    → Halts (o >>= go_round fuel l)
after_round-Halts l fuel n _ faulted h ih = λ e. cc
after_round-Halts l fuel n _ (last r s) h ih = rw s (λ e. cc)
after_round-Halts l fuel n _ (less r m) h ih = elim (Bool-cases (goes_on r)) [
  | inl y ↦
      subst (λ b. Halts (elim b [ true ↦ rounds fuel l r | false ↦ ok r ])) (sym y)
        (ih r (omega (arith, h, m)))
  | inr f ↦ subst (λ b. Halts (elim b [ true ↦ rounds fuel l r | false ↦ ok r ])) (sym f) (λ e. cc)
]

rounds-Halts : (l : Leftover) (fuel : ℕ) (r : Run) → measure r < fuel → Halts (rounds fuel l r)
unfolding rounds
rounds-Halts l zero r h = absurd (omega (arith, h))
rounds-Halts l (suc fuel) r h =
    after_round-Halts l fuel (measure r) (round l r) (round-Falls l r) (omega (arith, h))
      (rounds-Halts l fuel)

parse_received-Halts :
    (l : Leftover) (p : RtspParser) (received : Bytes) → Halts (parse_received l p received)
unfolding parse_received first_run measure
parse_received-Halts l p received =
    if-Halts (p.offset == 0) _ _
      (then-ok-Halts (rounds (length (received ++ l.behind) + 3) l (first_run p received l.behind))
        (λ r. finished received r)
        (rounds-Halts l (length (received ++ l.behind) + 3) (first_run p received l.behind)
          (omega (arith, rank-le p.state))))
      (λ e. cc)

parse_bytes-Halts : (l : Leftover) (buf : Bytes) (p : RtspParser) → Halts (parse_bytes l buf p)
unfolding parse_bytes
parse_bytes-Halts l [] p = λ e. cc
parse_bytes-Halts l (c ∷ cs) p = parse_received-Halts l p (appended p.received (c ∷ cs))

-- `RtspProtoParser::Parse` comes to an end in every state, on every segment, whatever the buffer
-- holds behind: three rounds more than the buffer has bytes are enough for its loop.
pub parse-Halts : (l : Leftover) (buf : Option Bytes) (p : RtspParser) → Halts (parse l buf p)
unfolding parse
parse-Halts l none p = λ e. cc
parse-Halts l (some buf) p = parse_bytes-Halts l buf (reset p)

after_round-enough :
    (l : Leftover) (fuel n : ℕ) (o : Outcome Run)
    → Falls n o
    → n ≤ fuel
    → ((r : Run) → measure r < fuel → rounds (suc fuel) l r ≡ rounds fuel l r)
    → (o >>= go_round (suc fuel) l) ≡ (o >>= go_round fuel l)
after_round-enough l fuel n _ faulted h ih = refl
after_round-enough l fuel n _ (last r s) h ih = rw s refl
after_round-enough l fuel n _ (less r m) h ih =
    ap (λ o. elim (goes_on r) [ true ↦ o | false ↦ ok r ]) (ih r (omega (arith, h, m)))

-- One round more than enough changes nothing.
pub rounds-enough :
    (l : Leftover) (fuel : ℕ) (r : Run) → measure r < fuel → rounds (suc fuel) l r ≡ rounds fuel l r
unfolding rounds
rounds-enough l zero r h = absurd (omega (arith, h))
rounds-enough l (suc fuel) r h =
    after_round-enough l fuel (measure r) (round l r) (round-Falls l r) (omega (arith, h))
      (rounds-enough l fuel)

pub measure_lines :
    (n : ℕ) (m : RtspMsg) (text : Bytes) (bytes result : ℕ)
    → measure (at_lines n m text 0 bytes result) ≡ length text + 1
unfolding measure
measure_lines n m text bytes result = refl
