-- ===== src/Parser/Header/Ends.antt =====
-- ParseLine comes to an end with any message, whether its headers are well formed or not.
use z3_engine.Base.{
  ℕ, zero, suc, ◌≤◌, ◌≡◌, refl, Bool, Option, none, some, [], ◌∷◌, ◌++◌, ◌==◌, Bytes, length, ok,
  Halts, >>=-Halts, ok-Halts, then-ok-Halts, arith, Bool-cases, inl, inr,
}
use z3_engine.Message.Headers.{add_to}
use z3_engine.Message.Headers.Ends.{add_to-Halts}
use z3_engine.Message.Msg.{RtspMsg, add_header, array_of}
use z3_engine.Parser.Header.{
  value_of, add_value, add_values, add_field, line_parts, parse_line, skip_one, trim_one, tail_of,
}
use z3_engine.Parser.Header.Total.{value_of-le, skip_one-le, tail_of-le}
use z3_engine.Text.Tables.{rtsp_find_header_field, rtsp_header_allow_multiple}
use z3_engine.Text.Tables.RoundTrip.{header-allow_multiple}
use z3_engine.Text.Version.{split_at, z3_eok}

add_header-Halts : (field : ℕ) (value : Bytes) (m : RtspMsg) → Halts (add_header field value m)
unfolding add_header
add_header-Halts field value m =
    >>=-Halts (add_to field value (array_of m.headers)) _
      (add_to-Halts field value (array_of m.headers)) (λ _ _. λ e. cc)

add_value-Halts : (field : ℕ) (v : Bytes) (m : RtspMsg) → Halts (add_value field v m)
unfolding add_value
add_value-Halts field [] m = ok-Halts m
add_value-Halts field (c ∷ v) m =
    >>=-Halts (add_header field ((c ∷ v) ++ (0 ∷ [])) m) _
      (add_header-Halts field ((c ∷ v) ++ (0 ∷ [])) m) (λ _ _. λ e. cc)

add_values-Halts :
    (fuel field : ℕ) (b : Bool) (v : Bytes) (m : RtspMsg)
    → rtsp_header_allow_multiple field ≡ ok b
    → length v ≤ fuel
    → Halts (add_values fuel field v m)
unfolding add_values
add_values-Halts fuel field b [] m a h = ok-Halts m
add_values-Halts zero field b (c ∷ v) m a h = absurd (omega (arith, h))
add_values-Halts (suc fuel) field b (c ∷ v) m a h =
    let found = value_of b field (skip_one (c ∷ v)) in
    let less : length (tail_of found.1) ≤ fuel =
      tail_of-le found.1 fuel
        (omega (arith, h, value_of-le b field (skip_one (c ∷ v)), skip_one-le (c ∷ v))) in
    rw a (
      >>=-Halts (add_value field (trim_one found.0) m) _
        (add_value-Halts field (trim_one found.0) m)
        λ m' _. add_values-Halts fuel field b (tail_of found.1) m' a less)

add_field-Halts :
    (field : ℕ) (name v : Bytes) (m : RtspMsg)
    → rtsp_find_header_field name ≡ field
    → Halts (add_field field v m)
unfolding add_field
add_field-Halts field name v m e = elim (Bool-cases (field == 0)) [
  | inl t ↦ rw t (ok-Halts (m, z3_eok))
  | inr f ↦
      let (b, a) = header-allow_multiple name field e (λ z. ground (arith, f, z)) in
      rw f (
        then-ok-Halts (add_values (length v) field v m) (λ m'. (m', z3_eok))
          (add_values-Halts (length v) field b v m a (omega arith)))
]

line_parts-Halts : (parts : Option (Bytes × Bytes)) (m : RtspMsg) → Halts (line_parts parts m)
unfolding line_parts
line_parts-Halts none m = λ e. cc
line_parts-Halts (some ([], v)) m = λ e. cc
line_parts-Halts (some (c ∷ name, v)) m =
    add_field-Halts (rtsp_find_header_field (trim_one (c ∷ name))) (trim_one (c ∷ name)) v m refl

pub parse_line-Halts : (line : Bytes) (m : RtspMsg) → Halts (parse_line line m)
unfolding parse_line
parse_line-Halts line m = line_parts-Halts (split_at b':' line) m
