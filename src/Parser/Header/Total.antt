-- ===== src/Parser/Header/Total.antt =====
-- ParseLine returns for every line: the loop over the values ends, and no call in it fails.
use z3_engine.Base.{
  ℕ, zero, suc, ◌+◌, ◌-◌, ◌≡◌, ◌≤◌, refl, inl, inr, Bool, true, false, not, Option, none, some, [],
  ◌∷◌, ◌++◌, reverse, arith, ◌==◌, Bool-cases, Bytes, length, Outcome, ok,
}
use z3_engine.Message.Headers.Add.{Inv}
use z3_engine.Message.Msg.{RtspMsg, array_of}
use z3_engine.Message.Msg.Answer.{add_header-Inv}
use z3_engine.Parser.Header.{
  escape, quote, open_comment, close_comment, comma_here, comma_behind, stop, stop_at_comma, plain,
  Mode, normal, passing, marking, step, scan_value, at_comma, is_set, cut_here, peek, value_of,
  add_value, add_values, add_field, line_parts, parse_line, skip_one, trim_one, tail_of, is_auth,
}
use z3_engine.Text.Tables.{rtsp_find_header_field, rtsp_header_allow_multiple}
use z3_engine.Text.Tables.RoundTrip.{header-allow_multiple}
use z3_engine.Text.Version.{split_at, z3_eok, z3_rtsp_eparse}

-- What `pComma` points at is no longer than `n`.
Within : ℕ → Option (Bytes × Bytes) → Type 0
Within n none = Unit {0}
Within n (some (front, rest)) = length rest ≤ n

-- What is left is no longer than `n`.
Short : ℕ → Bytes × Bytes → Type 0
Short n r = length r.1 ≤ n

short_lem : (n : ℕ) (left value : Bytes) → length left ≤ n → Short n (value, left)
unfolding Short
short_lem n left value h = h

scan_at_comma-le :
    (comma : Option (Bytes × Bytes)) (here : Bytes × Bytes) (n : ℕ)
    → Short n here
    → Within n comma
    → Short n (at_comma comma here)
unfolding at_comma Within Short
scan_at_comma-le none here n h w = h
scan_at_comma-le (some there) here n h w = w

scan_value-le :
    (auth : Bool) (mode : Mode) (quoted : Bool) (comments : ℕ) (comma : Option (Bytes × Bytes))
    (front rest : Bytes) (n : ℕ)
    → length rest ≤ n
    → Within n comma
    → Short n (scan_value auth mode quoted comments comma front rest)
unfolding scan_value Within
scan_value-le auth mode quoted comments comma front [] n h w =
    short_lem n [] (reverse front) (omega arith)
scan_value-le auth passing quoted comments comma front (c ∷ rest) n h w =
    scan_value-le auth normal quoted comments comma (c ∷ front) rest n (omega (arith, h)) w
scan_value-le auth marking quoted comments comma front (c ∷ rest) n h w =
    scan_value-le auth normal quoted comments (some (cut_here front (c ∷ rest))) (c ∷ front) rest n
      (omega (arith, h)) h
scan_value-le auth normal quoted comments comma front (c ∷ rest) n h w =
    let less : length rest ≤ n = omega (arith, h) in
    let t = step auth quoted comments (is_set comma) c (peek rest) in
    (elim t
        as (λ x. t ≡ x → Short n (scan_value auth normal quoted comments comma front (c ∷ rest))) [
          | escape ↦ λ e.
              rw (e, scan_value)
                (scan_value-le auth passing quoted comments comma (c ∷ front) rest n less w)
          | quote ↦ λ e.
              rw (e, scan_value)
                (scan_value-le auth normal (not quoted) comments comma (c ∷ front) rest n less w)
          | open_comment ↦ λ e.
              rw (e, scan_value)
                (scan_value-le auth normal quoted (comments + 1) comma (c ∷ front) rest n less w)
          | close_comment ↦ λ e.
              rw (e, scan_value)
                (scan_value-le auth normal quoted (comments - 1) comma (c ∷ front) rest n less w)
          | comma_here ↦ λ e.
              rw (e, scan_value)
                (scan_value-le auth normal quoted comments (some (cut_here front (c ∷ rest)))
                  (c ∷ front) rest n less h)
          | comma_behind ↦ λ e.
              rw (e, scan_value)
                (scan_value-le auth marking quoted comments comma (c ∷ front) rest n less w)
          | stop ↦ λ e. rw (e, scan_value) (short_lem n (c ∷ rest) (reverse front) h)
          | stop_at_comma ↦ λ e.
              rw (e, scan_value)
                (scan_at_comma-le comma (cut_here front (c ∷ rest)) n
                  (short_lem n (c ∷ rest) (reverse front) h) w)
          | plain ↦ λ e.
              rw (e, scan_value)
                (scan_value-le auth normal quoted comments comma (c ∷ front) rest n less w)
        ])
      refl

pub value_of-le : (b : Bool) (field : ℕ) (v : Bytes) → length (value_of b field v).1 ≤ length v
unfolding value_of Within Short
value_of-le false field v = omega arith
value_of-le true field v =
    scan_value-le (is_auth field) normal false 0 none [] v (length v) (omega arith) tt

pub skip_one-le : (v : Bytes) → length (skip_one v) ≤ length v
skip_one-le [] = omega arith
skip_one-le (c ∷ cs) = elim (Bool-cases (c == b' ')) [
  | inl t ↦ rw t (omega arith)
  | inr f ↦ rw f (omega arith)
]

pub tail_of-le : (v : Bytes) (n : ℕ) → length v ≤ suc n → length (tail_of v) ≤ n
tail_of-le [] n h = omega arith
tail_of-le (c ∷ cs) n h = omega (arith, h)

abbrev Kept : Outcome RtspMsg → Type 0
Kept o = (b : RtspMsg) × (o ≡ ok b) × Inv (array_of b.headers)

add_value-Kept :
    (field : ℕ) (v : Bytes) (m : RtspMsg) → Inv (array_of m.headers) → Kept (add_value field v m)
unfolding add_value
add_value-Kept field [] m i = (m, refl, i)
add_value-Kept field (c ∷ v) m i =
    let (e, b, q, i') = add_header-Inv field ((c ∷ v) ++ (0 ∷ [])) m i in (b, rw q, i')

add_values-Kept :
    (fuel field : ℕ) (b : Bool) (v : Bytes) (m : RtspMsg)
    → rtsp_header_allow_multiple field ≡ ok b
    → Inv (array_of m.headers)
    → length v ≤ fuel
    → Kept (add_values fuel field v m)
unfolding add_values
add_values-Kept fuel field b [] m a i h = (m, refl, i)
add_values-Kept zero field b (c ∷ v) m a i h = absurd (omega (arith, h))
add_values-Kept (suc fuel) field b (c ∷ v) m a i h =
    let found = value_of b field (skip_one (c ∷ v)) in
    let (n, q, j) = add_value-Kept field (trim_one found.0) m i in
    let less : length (tail_of found.1) ≤ fuel =
      tail_of-le found.1 fuel
        (omega (arith, h, value_of-le b field (skip_one (c ∷ v)), skip_one-le (c ∷ v))) in
    let (o, r, k) = add_values-Kept fuel field b (tail_of found.1) n a j less in (o, rw (a, q) r, k)

abbrev KeptLine : Outcome (RtspMsg × ℕ) → Type 0
KeptLine o = (b : RtspMsg) × (e : ℕ) × (o ≡ ok (b, e)) × Inv (array_of b.headers)

add_field-Kept :
    (field : ℕ) (name v : Bytes) (m : RtspMsg)
    → rtsp_find_header_field name ≡ field
    → Inv (array_of m.headers)
    → KeptLine (add_field field v m)
unfolding add_field
add_field-Kept field name v m e i = elim (Bool-cases (field == 0)) [
  | inl t ↦ (m, z3_eok, rw t, i)
  | inr f ↦
      let (b, a) = header-allow_multiple name field e (λ z. ground (arith, f, z)) in
      let (o, r, k) = add_values-Kept (length v) field b v m a i (omega arith) in
      (o, z3_eok, rw (f, r), k)
]

line_parts-Kept :
    (parts : Option (Bytes × Bytes)) (m : RtspMsg)
    → Inv (array_of m.headers)
    → KeptLine (line_parts parts m)
unfolding line_parts
line_parts-Kept none m i = (m, z3_rtsp_eparse, refl, i)
line_parts-Kept (some ([], v)) m i = (m, z3_rtsp_eparse, refl, i)
line_parts-Kept (some (c ∷ name, v)) m i =
    add_field-Kept (rtsp_find_header_field (trim_one (c ∷ name))) (trim_one (c ∷ name)) v m refl i

-- `ParseLine` of any line into a message with well-formed headers, or none yet, returns: its loops
-- end, no assertion fails, and the headers are well formed again.
pub parse_line-Inv :
    (line : Bytes) (m : RtspMsg)
    → Inv (array_of m.headers)
    → (b : RtspMsg) × (e : ℕ) × (parse_line line m ≡ ok (b, e)) × Inv (array_of b.headers)
unfolding parse_line
parse_line-Inv line m i = line_parts-Kept (split_at b':' line) m i
