-- ===== src/Parser/Stream/Stuck.antt =====
-- How Parse comes to a state in which it takes no message any more.
use mathlib.Core.List.{append_assoc}
use z3_engine.Base.{
  subst, ℕ, suc, ◌+◌, ◌≤◌, ◌<◌, ◌≡◌, refl, sym, ◌∙◌, ap, Bool, true, false, [], ◌∷◌, ◌++◌, some,
  ◌==◌, Bytes, length, Outcome, ok, ◌>>=◌, arith,
}
use z3_engine.Message.Msg.{RtspMsg, new_msg}
use z3_engine.Parser.Stream.{
  state_end, rtsp_recvbuf_size, RtspParser, new_parser, Leftover, Run, clean, parse_numbered, round,
  lines_round, line_round, line_taken, rounds, finished, first_run, parse_received, reset, appended,
  parse_bytes, parse,
}
use z3_engine.Parser.Stream.Lines.{cr_or_nul, at_lines, rounds-on, rounds-last, find_cr-found}
use z3_engine.Parser.Stream.Message.{parse_idle}
use z3_engine.Text.Lines.Words.{None}
use z3_engine.Text.Version.{z3_eok, z3_error}

-- The state is END, and no message is complete.
pub record Stuck (q : RtspParser) : Type 0 where
  pub state : q.state ≡ state_end
  pub completed : q.completed ≡ false
  pub offset : q.offset ≡ 0

reset-Stuck : (q : RtspParser) → Stuck q → reset q ≡ q
unfolding reset
reset-Stuck q s = rw s.completed refl

-- The call of a stuck parser leaves it as it is but for the bytes.
abbrev pub StaysStuck : Outcome (ℕ × RtspParser) → RtspParser → Type 0
StaysStuck o q = (t : RtspParser) × (o ≡ ok (z3_error, t)) × Stuck t × (t.msg ≡ q.msg)

abbrev stopped : RtspParser → Bytes → Bytes → Run
stopped q received behind = record (first_run q received behind) { stop = true }

rounds-Stuck :
    (l : Leftover) (fuel : ℕ) (q : RtspParser) (received : Bytes)
    → Stuck q
    → rounds (suc fuel) l (first_run q received l.behind) ≡ ok (stopped q received l.behind)
unfolding round first_run
rounds-Stuck l fuel q received s =
    rounds-last fuel l (first_run q received l.behind) (stopped q received l.behind)
      (rw s.state refl) refl

parse_received-Stuck :
    (l : Leftover) (q : RtspParser) (received : Bytes)
    → Stuck q
    → 0 < length received
    → StaysStuck (parse_received l q received) q
unfolding parse_received finished first_run
parse_received-Stuck l q received s h =
    let num : length (received ++ l.behind) + 3 ≡ suc (length (received ++ l.behind) + 2) =
      omega arith in
    let t = finished received (stopped q received l.behind) in
    (
      t.1,
      rw (s.offset, num, rounds-Stuck l (length (received ++ l.behind) + 2) q received s) refl,
      record { state = s.state; completed = refl; offset = ground (arith, h) },
      refl,
    )

length-appended : (c : ℕ) (received cs : Bytes) → 0 < length (appended received (c ∷ cs))
unfolding appended
length-appended c [] cs = omega arith
length-appended c (d ∷ ds) cs = omega arith

pub parse-Stuck :
    (l : Leftover) (buf : Bytes) (q : RtspParser) → Stuck q → StaysStuck (parse l (some buf) q) q
unfolding parse parse_bytes
parse-Stuck l [] q s = rw (reset-Stuck q s) (q, refl, s, refl)
parse-Stuck l (c ∷ cs) q s =
    rw (reset-Stuck q s)
      (parse_received-Stuck l q (appended q.received (c ∷ cs)) s (length-appended c q.received cs))

-- A call that returns an error and leaves a parser that is stuck.
abbrev pub Sticks : Outcome (ℕ × RtspParser) → ℕ → Type 0
Sticks o e = (q : RtspParser) × (o ≡ ok (e, q)) × Stuck q

-- The loop at the end, with nothing consumed.
abbrev refused : ℕ → RtspMsg → Bytes → ℕ → ℕ → Bool → Run
refused n m text bytes e stop = record {
  msg = m;
  state = state_end;
  line = n;
  text = text;
  offset = 0;
  bytes = bytes;
  result = e;
  stop = stop;
}

sticks :
    (l : Leftover) (fuel : ℕ) (received : Bytes) (m : RtspMsg) (e : ℕ) (r : Run)
    → (e == z3_eok) ≡ false
    → 0 < length received
    → round l r ≡ ok (refused 0 m (received ++ l.behind) (length received) e false)
    → Sticks (rounds (suc (suc fuel)) l r >>= λ x. ok (finished received x)) e
unfolding round finished
sticks l fuel received m e r ne h step =
    let text = received ++ l.behind in
    let bytes = length received in
    let before = refused 0 m text bytes e false in
    let last = refused 0 m text bytes e true in
    let run : rounds (suc (suc fuel)) l r ≡ ok last =
      rounds-on (suc fuel) l r before step (ground (arith, h))
      ∙ rounds-last fuel l before last refl refl in
    (
      (finished received last).1,
      rw run refl,
      record { state = refl; completed = ne; offset = ground (arith, h) },
    )

round_split :
    (l : Leftover) (m : RtspMsg) (x : Bytes) (d : ℕ) (rest : Bytes) (bytes : ℕ)
    → None cr_or_nul x
    → (d == 10) ≡ false
    → round l (at_lines 0 m (x ++ (13 ∷ d ∷ rest)) 0 bytes z3_error)
      ≡ ok (refused 0 m (x ++ (13 ∷ d ∷ rest)) bytes z3_error false)
unfolding round lines_round
round_split l m x d rest bytes w e = rw (find_cr-found x (d ∷ rest) w, e) refl

round-refused :
    (l : Leftover) (m next : RtspMsg) (c : ℕ) (x rest : Bytes) (bytes e : ℕ)
    → None cr_or_nul (c ∷ x)
    → parse_numbered l 0 (clean (c ∷ x)) m ≡ ok (next, e)
    → (e == z3_eok) ≡ false
    → round l (at_lines 0 m ((c ∷ x) ++ (13 ∷ 10 ∷ rest)) 0 bytes z3_error)
      ≡ ok (refused 0 next ((c ∷ x) ++ (13 ∷ 10 ∷ rest)) bytes e false)
unfolding round lines_round line_round line_taken
round-refused l m next c x rest bytes e w p ne =
    rw (find_cr-found (c ∷ x) (10 ∷ rest) w, p, ne) refl

rounds_plus_two :
    (l : Leftover) (text : Bytes)
    → (rounds
          (length (text ++ l.behind) + 2)
          l
          (at_lines 0 new_msg (text ++ l.behind) 0 (length text) z3_error)
        >>= λ r. ok (finished text r))
      ≡ (rounds
            (suc (suc (length (text ++ l.behind))))
            l
            (at_lines 0 new_msg (text ++ l.behind) 0 (length text) z3_error)
          >>= λ r. ok (finished text r))
rounds_plus_two l text =
    let num : length (text ++ l.behind) + 2 ≡ suc (suc (length (text ++ l.behind))) = omega arith in
    ap
      (λ n. rounds n l (at_lines 0 new_msg (text ++ l.behind) 0 (length text) z3_error) >>= λ r.
        ok (finished text r))
      num

pub parse_split-Sticks :
    (l : Leftover) (p : RtspParser) (c d : ℕ) (x rest : Bytes)
    → reset p ≡ new_parser
    → (c == b'$') ≡ false
    → None cr_or_nul (c ∷ x)
    → length ((c ∷ x) ++ (13 ∷ [])) ≤ rtsp_recvbuf_size
    → l.behind ≡ d ∷ rest
    → (d == 10) ≡ false
    → Sticks (parse l (some ((c ∷ x) ++ (13 ∷ []))) p) z3_error
parse_split-Sticks l p c d x rest idle dollar w h b e =
    let text : Bytes = (c ∷ x) ++ (13 ∷ []) in
    let moved : text ++ l.behind ≡ (c ∷ x) ++ (13 ∷ d ∷ rest) =
      append_assoc (c ∷ x) (13 ∷ []) l.behind ∙ ap (λ t. (c ∷ x) ++ (13 ∷ t)) b in
    let (q, f, s) =
      sticks l (length (text ++ l.behind)) text new_msg z3_error
        (at_lines 0 new_msg (text ++ l.behind) 0 (length text) z3_error) refl (omega arith)
        (subst
          (λ t.
            round l (at_lines 0 new_msg t 0 (length text) z3_error)
            ≡ ok (refused 0 new_msg t (length text) z3_error false))
          (sym moved) (round_split l new_msg (c ∷ x) d rest (length text) w e)) in
    (q, parse_idle l p c (x ++ (13 ∷ [])) idle dollar h ∙ rounds_plus_two l text ∙ f, s)

pub parse_refused-Sticks :
    (l : Leftover) (p : RtspParser) (c e : ℕ) (x rest : Bytes) (next : RtspMsg)
    → reset p ≡ new_parser
    → (c == b'$') ≡ false
    → None cr_or_nul (c ∷ x)
    → parse_numbered l 0 (clean (c ∷ x)) new_msg ≡ ok (next, e)
    → (e == z3_eok) ≡ false
    → length ((c ∷ x) ++ (13 ∷ 10 ∷ rest)) ≤ rtsp_recvbuf_size
    → Sticks (parse l (some ((c ∷ x) ++ (13 ∷ 10 ∷ rest))) p) e
parse_refused-Sticks l p c e x rest next idle dollar w parsed ne h =
    let text : Bytes = (c ∷ x) ++ (13 ∷ 10 ∷ rest) in
    let moved = append_assoc (c ∷ x) (13 ∷ 10 ∷ rest) l.behind in
    let (q, f, s) =
      sticks l (length (text ++ l.behind)) text next e
        (at_lines 0 new_msg (text ++ l.behind) 0 (length text) z3_error) ne (omega arith)
        (subst
          (λ t.
            round l (at_lines 0 new_msg t 0 (length text) z3_error)
            ≡ ok (refused 0 next t (length text) e false))
          (sym moved)
          (round-refused l new_msg next c x (rest ++ l.behind) (length text) e w parsed ne)) in
    (q, parse_idle l p c (x ++ (13 ∷ 10 ∷ rest)) idle dollar h ∙ rounds_plus_two l text ∙ f, s)
