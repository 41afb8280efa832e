-- ===== src/Text/Lines/Lengths.antt =====
-- How much of a text skip_spaces and read_string leave.
use z3_engine.Base.{
  ℕ, zero, suc, ◌-◌, ◌≤◌, Bool, false, [], ◌∷◌, arith, Bytes, length, Bool-cases, inl, inr, ◌≡◌,
}
use z3_engine.Text.Lines.{is_space, skip_while, skip_spaces, read_until, read_string}

length-skip_while : (p : ℕ → Bool) (s : Bytes) → length (skip_while p s) ≤ length s
unfolding skip_while
length-skip_while p [] = omega arith
length-skip_while p (c ∷ cs) = ground (arith, length-skip_while p cs)

pub length-skip_spaces : (s : Bytes) → length (skip_spaces s) ≤ length s
unfolding skip_spaces
length-skip_spaces s = length-skip_while is_space s

length-read_until :
    (p : ℕ → Bool) (room : ℕ) (s : Bytes) → length (read_until p room s).rest ≤ length s
unfolding read_until
length-read_until p room [] = omega arith
length-read_until p zero (c ∷ cs) = ground (arith, length-read_until p zero cs)
length-read_until p (suc room) (c ∷ cs) = ground (arith, length-read_until p room cs)

shorter_word :
    (room : ℕ) (c : ℕ) (cs : Bytes)
    → is_space c ≡ false
    → length (read_until is_space room (c ∷ cs)).rest ≤ length cs
unfolding read_until
shorter_word zero c cs e = rw e (length-read_until is_space zero cs)
shorter_word (suc room) c cs e = rw e (length-read_until is_space room cs)

skipped_word :
    (room : ℕ) (s : Bytes) → length (read_until is_space room (skip_spaces s)).rest ≤ length s - 1
unfolding skip_spaces skip_while
skipped_word room [] = length-read_until is_space room []
skipped_word room (c ∷ cs) = elim (Bool-cases (is_space c)) [
  | inl t ↦ rw t (
      omega (
        arith,
        length-read_until is_space room (skip_while is_space cs),
        length-skip_while is_space cs,
      ))
  | inr f ↦ rw f (omega (arith, shorter_word room c cs f))
]

-- A word takes at least one byte off a text that has one.
pub length-read_string : (size : ℕ) (s : Bytes) → length (read_string size s).rest ≤ length s - 1
unfolding read_string
length-read_string size s = skipped_word _ s
