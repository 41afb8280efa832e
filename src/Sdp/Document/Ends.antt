-- ===== src/Sdp/Document/Ends.antt =====
-- ParseString comes to an end on every text: each round takes off a byte.
use z3_engine.Base.{
  ℕ, zero, suc, ◌+◌, ◌≤◌, ◌<◌, ◌≡◌, sym, ap, Option, none, some, [], ◌∷◌, ◌==◌, Bytes, length, ok,
  arith, Bool-cases, inl, inr, >>=-eq-ok, ok-injective,
}
use z3_engine.Sdp.{SdpMessage}
use z3_engine.Sdp.Document.{
  line_at, line_done, starts_value, value_part, parse_one, parse_lines, parse_string, new_context,
}
use z3_engine.Sdp.Document.Lines.{go_on}
use z3_engine.Sdp.Line.{SdpContext, parse_line}
use z3_engine.Sdp.Line.Formats.{parse_line-Halts}
use z3_engine.Base.{Halts, >>=-Halts}
use z3_engine.Text.Lines.{skip_spaces}
use z3_engine.Text.Lines.Lengths.{length-skip_spaces}

length-line_done : (s : Bytes) → length (line_done s) ≤ length s
unfolding line_done
length-line_done [] = omega arith
length-line_done (c ∷ cs) = ground (arith, length-line_done cs)

length-line_at : (s : Bytes) → length (line_at s).1 ≤ length s
unfolding line_at
length-line_at [] = omega arith
length-line_at (c ∷ cs) = ground (arith, length-line_at cs)

length-value_part : (s : Bytes) → length (value_part s) ≤ length s
length-value_part [] = omega arith
length-value_part (c ∷ cs) = omega arith

parse_one-Halts : (ctx : SdpContext) (type : ℕ) (pos : Bytes) → Halts (parse_one ctx type pos)
unfolding parse_one
parse_one-Halts ctx type pos = elim (Bool-cases (starts_value pos)) [
  | inl t ↦
      rw t (>>=-Halts (parse_line ctx type _) _ (parse_line-Halts ctx type _) (λ c _. λ e. cc))
  | inr f ↦ rw f (λ e. cc)
]

-- What a round leaves is no longer than what stood behind the type.
parse_one-shorter :
    (ctx : SdpContext) (type : ℕ) (pos : Bytes) (out : SdpContext × Bytes)
    → parse_one ctx type pos ≡ ok out
    → length out.1 ≤ length pos
unfolding parse_one
parse_one-shorter ctx type pos out e = elim (Bool-cases (starts_value pos)) [
  | inl t ↦
      let rest = line_done (line_at (value_part pos)).1 in
      let (c, _, q) = >>=-eq-ok (parse_line ctx type _) (λ c. ok (c, rest)) (rw t at e) in
      let same : out.1 ≡ rest = ap (λ r. r.1) (sym (ok-injective q)) in
      rw same (
        omega (
          arith,
          length-line_done (line_at (value_part pos)).1,
          length-line_at (value_part pos),
          length-value_part pos,
        ))
  | inr f ↦
      let same : out.1 ≡ line_done pos = ap (λ r. r.1) (sym (ok-injective (rw f at e))) in
      rw same (length-line_done pos)
]

go_on-Halts :
    (fuel : ℕ) (ctx : SdpContext) (pos : Bytes)
    → length pos ≤ fuel
    → ((c : SdpContext) (rest : Bytes) → length rest < fuel → Halts (parse_lines fuel c rest))
    → Halts (go_on fuel ctx pos)
go_on-Halts fuel ctx [] h ih = λ e. cc
go_on-Halts fuel ctx (type ∷ pos) h ih =
    >>=-Halts (parse_one ctx type pos) _ (parse_one-Halts ctx type pos)
      λ out e. ih out.0 out.1 (omega (arith, h, parse_one-shorter ctx type pos out e))

parse_lines-Halts :
    (fuel : ℕ) (ctx : SdpContext) (pos : Bytes)
    → length pos < fuel
    → Halts (parse_lines fuel ctx pos)
unfolding parse_lines
parse_lines-Halts zero ctx pos h = absurd (omega (arith, h))
parse_lines-Halts (suc fuel) ctx pos h =
    go_on-Halts fuel ctx (skip_spaces pos) (omega (arith, h, length-skip_spaces pos))
      (parse_lines-Halts fuel)

-- `ParseString` comes to an end on every text: with one round for each byte its loop, and the loop
-- over the formats of a media line within it, have enough rounds.
pub parse_string-Halts :
    (text : Option Bytes) (size : ℕ) (s : SdpMessage) → Halts (parse_string text size s)
unfolding parse_string
parse_string-Halts none size s = λ e. cc
parse_string-Halts (some text) size s = elim (Bool-cases (size == 0)) [
  | inl t ↦ rw t (λ e. cc)
  | inr f ↦ rw f (
      >>=-Halts (parse_lines (length text + 1) (new_context s) text) _
        (parse_lines-Halts _ _ text (omega arith)) (λ ctx _. λ e. cc))
]
