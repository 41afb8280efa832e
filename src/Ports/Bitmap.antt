-- ===== src/Ports/Bitmap.antt =====
-- Class Bitmap of z3_rtsp_client/z3_media_ports.cpp. `sizeof(char)` is 1, so the map spends one
-- byte on each bit, and the offset within that byte is always 0.
use z3_engine.Base.{
  ℕ, ◌+◌, ◌-◌, ◌*◌, ◌/◌, ◌%◌, ◌^◌, ◌≤◌, ◌<◌, ◌≡◌, refl, ap, Option, none, some, arith, ltb, leb,
  le→leb, ◌==◌, if◌then◌else◌, update, Outcome, ok, fault, Bool-cases, inl, inr,
}

-- The bytes from `m_pMap` on, those behind the allocated block too.
abbrev pub Memory : Type 0
Memory = ℕ → ℕ

pub record Bitmap : Type 0 where
  pub bits : ℕ
  pub map : Option Memory

abbrev pub size_char : ℕ
size_char = 1

pub new_bitmap : Bitmap
new_bitmap = record { bits = 0; map = none }

-- ALIGN(size, sizeof(char)) / sizeof(char).
abbrev pub bit_bytes : ℕ → ℕ
bit_bytes size = (size + size_char - 1) / size_char * size_char / size_char

-- `block` is what `z3_malloc` returns: none for NULL.
pub alloc : Option Memory → ℕ → Bitmap → Bitmap
alloc none size b = record b { map = none }
alloc (some block) size b = record { bits = size; map = some block }

clear_to : ℕ → Memory → Memory
clear_to n m j = if ltb j n then 0 else m j

set_zero_in : Option Memory → Bitmap → Bitmap
set_zero_in none b = b
set_zero_in (some m) b = record b { map = some (clear_to (bit_bytes b.bits) m) }

pub set_zero : Bitmap → Bitmap
unfolding set_zero_in clear_to
set_zero b = set_zero_in b.map b

-- x & (1 << k), x | (1 << k) and x & ~(1 << k) on one byte.
abbrev pub and_bit : ℕ → ℕ → ℕ
and_bit x k = x / 2 ^ k % 2 * 2 ^ k

abbrev pub or_bit : ℕ → ℕ → ℕ
or_bit x k = if and_bit x k == 0 then x + 2 ^ k else x

abbrev pub and_not_bit : ℕ → ℕ → ℕ
and_not_bit x k = x - and_bit x k

set_cell : Bitmap → ℕ → Option Memory → Outcome (Bitmap × ℕ)
set_cell b n none = fault
set_cell b n (some m) =
    let i = n / size_char in
    let offset = n % size_char in
    ok (record b { map = some (update m i (or_bit (m i) offset)) }, and_bit (m i) offset)

unfoldable pub test_and_set : Bitmap → ℕ → Outcome (Bitmap × ℕ)
unfolding set_cell
test_and_set b n = if leb n b.bits then set_cell b n b.map else fault

clear_cell : Bitmap → ℕ → Option Memory → Outcome Bitmap
clear_cell b n none = fault
clear_cell b n (some m) =
    let i = n / size_char in
    let offset = n % size_char in
    if and_bit (m i) offset == 0
    then fault
    else ok (record b { map = some (update m i (and_not_bit (m i) offset)) })

unfoldable pub reset : Bitmap → ℕ → Outcome Bitmap
unfolding clear_cell
reset b n = if leb n b.bits then clear_cell b n b.map else fault

pub set_bits : Bitmap → ℕ → Outcome Bitmap
set_bits b n = if ltb n b.bits then ok (record b { bits = n }) else fault

-- The bitmap over a mapped block.
abbrev pub over : ℕ → Memory → Bitmap
over bits m = record { bits = bits; map = some m }

abbrev pub bit : Memory → ℕ → ℕ
bit m i = m i % 2

abbrev pub marked : Memory → ℕ → Memory
marked m i = update m i (if bit m i == 0 then m i + 1 else m i)

abbrev pub unmarked : Memory → ℕ → Memory
unmarked m i = update m i (m i - bit m i)

mod_one : (n : ℕ) → n % 1 ≡ 0
mod_one n = omega arith

div_one : (n : ℕ) → n / 1 ≡ n
div_one n = omega arith

mul_one : (n : ℕ) → n * 1 ≡ n
mul_one n = omega arith

ruleset one_laws = (mod_one, div_one, mul_one)

-- With one byte for each bit, a mask is 1 and picks the parity of the byte.
pub test_and_set-over :
    (bits : ℕ) (m : Memory) (n : ℕ)
    → n ≤ bits
    → test_and_set (over bits m) n ≡ ok (over bits (marked m n), bit m n)
unfolding test_and_set set_cell
test_and_set-over bits m n h = rw (le→leb n bits h) (simp one_laws)

pub reset-over :
    (bits : ℕ) (m : Memory) (n : ℕ)
    → n ≤ bits
    → bit m n ≡ 1
    → reset (over bits m) n ≡ ok (over bits (unmarked m n))
unfolding reset clear_cell
reset-over bits m n h e = rw (le→leb n bits h) (simp (one_laws, e))

pub reset_clear : (bits : ℕ) (m : Memory) (n : ℕ) → bit m n ≡ 0 → reset (over bits m) n ≡ fault
unfolding reset clear_cell
reset_clear bits m n e = elim (Bool-cases (leb n bits)) [
  | inl t ↦ rw t (simp (one_laws, e))
  | inr t ↦ rw t
]

-- The memory behind `memset(m_pMap, 0, k)`.
abbrev pub cleared : ℕ → Memory → Memory
cleared k m j = if ltb j k then 0 else m j

bit_bytes_lem : (k : ℕ) → bit_bytes k ≡ k
bit_bytes_lem k = omega arith

pub set_zero-over : (k : ℕ) (m : Memory) → set_zero (over k m) ≡ over k (cleared k m)
unfolding set_zero clear_to
set_zero-over k m = ap (λ n. over k (clear_to n m)) (bit_bytes_lem k)

pub alloc_lem : (k : ℕ) (m : Memory) → alloc (some m) k new_bitmap ≡ over k m
unfolding alloc new_bitmap
alloc_lem k m = refl

-- A range of the same size or larger is refused by the `assert`.
pub set_bits_refused : (n k : ℕ) (m : Memory) → k ≤ n → set_bits (over k m) n ≡ fault
unfolding set_bits
set_bits_refused n k m h = ground arith

pub set_bits_smaller : (n k : ℕ) (m : Memory) → n < k → set_bits (over k m) n ≡ ok (over n m)
unfolding set_bits
set_bits_smaller n k m h = ground arith
