-- ===== src/Parser/Stream/Part.antt =====
-- Parse of a part of a line: it is kept, and more is wanted.
use z3_engine.Base.{
  ◌<◌, take-all, length-append, subst, ℕ, suc, ◌+◌, ◌-◌, ◌≤◌, ◌≡◌, refl, sym, ◌∙◌, ap, true, false,
  [], ◌∷◌, ◌++◌, some, ltb, ◌==◌, Bytes, length, take, ok, ◌>>=◌, arith,
}
use z3_engine.Message.Msg.{new_msg}
use z3_engine.Parser.Stream.{
  state_read_lines, rtsp_recvbuf_size, z3_rtsp_eintr, RtspParser, new_parser, Leftover, Run,
  wait_more, absent, find_cr, lines_round, round, rounds, finished, reset, parse, parse_bytes,
  parse_received, appended, first_run,
}
use z3_engine.Parser.Stream.Ends.{measure, measure_lines, rounds-enough}
use z3_engine.Parser.Stream.Lines.{cr_or_nul, cr_or_nul_none, at_lines, rounds-last}
use z3_engine.Parser.Stream.Message.{parse_idle}
use z3_engine.Text.Lines.Words.{None}
use z3_engine.Text.Version.{z3_error}

find_cr-absent : (x rest : Bytes) → None cr_or_nul x → find_cr (x ++ (0 ∷ rest)) ≡ absent
unfolding find_cr
find_cr-absent [] rest n = refl
find_cr-absent (c ∷ x) rest n =
    let (a, b) = cr_or_nul_none c n.0 in rw (a, b, find_cr-absent x rest n.1) refl

take-front : (xs ys : Bytes) → take (length xs) (xs ++ ys) ≡ xs
take-front [] ys = refl
take-front (x ∷ xs) ys = ap (λ k. x ∷ k) (take-front xs ys)

-- The loop that waits at a line.
abbrev waiting : Bytes → ℕ → Run
waiting text bytes = record (at_lines 0 new_msg text 0 bytes z3_error) {
  result = z3_rtsp_eintr;
  stop = true;
}

round-part :
    (l : Leftover) (x rest : Bytes) (bytes : ℕ)
    → None cr_or_nul x
    → round l (at_lines 0 new_msg (x ++ (0 ∷ rest)) 0 bytes z3_error)
      ≡ ok (waiting (x ++ (0 ∷ rest)) bytes)
unfolding round lines_round wait_more
round-part l x rest bytes n = rw (find_cr-absent x rest n) refl

-- A parser that has kept a part of a first line.
pub kept : Bytes → RtspParser
unfolding new_parser
kept part = record new_parser { state = state_read_lines; received = part }

finished-kept :
    (c : ℕ) (x behind : Bytes)
    → finished (c ∷ x) (waiting ((c ∷ x) ++ behind) (length (c ∷ x)))
      ≡ (z3_rtsp_eintr, kept (c ∷ x))
unfolding finished kept new_parser
finished-kept c x behind =
    let some_left : ltb 0 (length (c ∷ x)) ≡ true = ground arith in
    let whole : length (c ∷ x) - 0 ≡ length (c ∷ x) = omega arith in
    rw (some_left, whole, take-front x behind) refl

pub parse_part :
    (l : Leftover) (p : RtspParser) (c : ℕ) (x rest : Bytes)
    → reset p ≡ new_parser
    → (c == b'$') ≡ false
    → None cr_or_nul (c ∷ x)
    → l.behind ≡ 0 ∷ rest
    → length (c ∷ x) ≤ rtsp_recvbuf_size
    → parse l (some (c ∷ x)) p ≡ ok (z3_rtsp_eintr, kept (c ∷ x))
parse_part l p c x rest idle d n b h =
    let text : Bytes = (c ∷ x) ++ l.behind in
    let bytes : ℕ = length (c ∷ x) in
    let fuel : ℕ = length text + 1 in
    let out : Run = waiting text bytes in
    let num : length text + 2 ≡ suc fuel = omega arith in
    let step : round l (at_lines 0 new_msg text 0 bytes z3_error) ≡ ok out =
      subst
        (λ t.
          round l (at_lines 0 new_msg ((c ∷ x) ++ t) 0 bytes z3_error)
          ≡ ok (waiting ((c ∷ x) ++ t) bytes))
        (sym b) (round-part l (c ∷ x) rest bytes n) in
    let run : rounds (length text + 2) l (at_lines 0 new_msg text 0 bytes z3_error) ≡ ok out =
      ap (λ k. rounds k l (at_lines 0 new_msg text 0 bytes z3_error)) num
      ∙ rounds-last fuel l (at_lines 0 new_msg text 0 bytes z3_error) out step refl in
    parse_idle l p c x idle d h
    ∙ ap (λ o. o >>= λ r. ok (finished (c ∷ x) r)) run
    ∙ ap (λ f. ok f) (finished-kept c x l.behind)

-- What a second segment makes of it.
parse-kept :
    (l : Leftover) (c b : ℕ) (x bs : Bytes)
    → length ((c ∷ x) ++ (b ∷ bs)) ≤ rtsp_recvbuf_size
    → parse l (some (b ∷ bs)) (kept (c ∷ x)) ≡ (
        rounds (length (((c ∷ x) ++ (b ∷ bs)) ++ l.behind) + 3) l (
          at_lines 0 new_msg
            (((c ∷ x) ++ (b ∷ bs)) ++ l.behind)
            0
            (length ((c ∷ x) ++ (b ∷ bs)))
            z3_error)
        >>= λ r. ok (finished ((c ∷ x) ++ (b ∷ bs)) r))
unfolding parse parse_bytes parse_received reset kept new_parser appended first_run
parse-kept l c b x bs h =
    let fits : take (4096 - length (c ∷ x)) (b ∷ bs) ≡ b ∷ bs =
      take-all (4096 - length (c ∷ x)) (b ∷ bs)
        (omega (arith, h, length-append (c ∷ x) (b ∷ bs))) in
    rw fits refl

-- A parser that waits for a message, given a part of a first line, not beginning with `$`, without
-- CR or NUL, where the buffer holds a NUL behind it, and then a second segment that is not empty,
-- comes to the same result and state as if it were given both together, of at most 4096 bytes,
-- with the buffer as it is behind the second.
pub parse_part-joined :
    (l l' : Leftover) (p : RtspParser) (c b : ℕ) (x bs rest : Bytes)
    → reset p ≡ new_parser
    → (c == b'$') ≡ false
    → None cr_or_nul (c ∷ x)
    → l.behind ≡ 0 ∷ rest
    → length ((c ∷ x) ++ (b ∷ bs)) ≤ rtsp_recvbuf_size
    → (parse l (some (c ∷ x)) p >>= λ r. parse l' (some (b ∷ bs)) r.1)
      ≡ parse l' (some ((c ∷ x) ++ (b ∷ bs))) p
parse_part-joined l l' p c b x bs rest idle d n zero_behind h =
    let whole : Bytes = (c ∷ x) ++ (b ∷ bs) in
    let text : Bytes = whole ++ l'.behind in
    let at : Run = at_lines 0 new_msg text 0 (length whole) z3_error in
    let num : length text + 3 ≡ suc (length text + 2) = omega arith in
    let few : measure at < length text + 2 =
      omega (arith, measure_lines 0 new_msg text (length whole) z3_error) in
    let more = length-append (c ∷ x) (b ∷ bs) in
    let enough : rounds (length text + 3) l' at ≡ rounds (length text + 2) l' at =
      ap (λ k. rounds k l' at) num ∙ rounds-enough l' (length text + 2) at few in
    ap (λ o. o >>= λ r. parse l' (some (b ∷ bs)) r.1)
      (parse_part l p c x rest idle d n zero_behind (omega (arith, h, more)))
    ∙ parse-kept l' c b x bs h
    ∙ ap (λ o. o >>= λ r. ok (finished whole r)) enough
    ∙ sym (parse_idle l' p c (x ++ (b ∷ bs)) idle d h)
