-- ===== src/Ports/Control/Invariant.antt =====
-- The well-formed states of PortsCtl: the range, the cursor, and the two counters that account for
-- every set bit of the range.
use native.Mathlib.Numerals.{add-one}
use z3_engine.Base.{
  ℕ, zero, suc, ◌+◌, ◌-◌, ◌%◌, ◌≤◌, ◌<◌, ◌≡◌, refl, ◌∙◌, ap, inl, inr, some, arith, ◌==◌, update,
  Bool-cases, ok, ==→eq,
}
use z3_engine.Ports.Bitmap.{
  Memory, over, bit, marked, unmarked, cleared, test_and_set-over, reset-over,
}
use z3_engine.Ports.Control.{PortsCtl, bit_of, mark_port, mark_in, unmark_port, unmark_in}

-- How many of the first `n` bits are set.
unfoldable pub count : Memory → ℕ → ℕ
count m zero = 0
count m (suc n) = count m n + bit m n

pub count-le : (m : Memory) (n : ℕ) → count m n ≤ n
unfolding count
count-le m zero = omega arith
count-le m (suc n) = omega (arith, count-le m n)

count-update_above : (m : Memory) (n i v : ℕ) → n ≤ i → count (update m i v) n ≡ count m n
unfolding count
count-update_above m zero i v h = refl
count-update_above m (suc n) i v h = ground (arith, count-update_above m n i v)

-- Writing one byte changes the count by what its bit changes.
pub count-update :
    (m : Memory) (n i v : ℕ) → i < n → count (update m i v) n + bit m i ≡ count m n + v % 2
unfolding count
count-update m zero i v h = absurd (omega arith)
count-update m (suc n) i v h = ground (arith, count-update m n i v, count-update_above m n i v)

pub count-cleared : (m : Memory) (k n : ℕ) → n ≤ k → count (cleared k m) n ≡ 0
unfolding count
count-cleared m k zero h = refl
count-cleared m k (suc n) h = ground (arith, count-cleared m k n)

pub count-cleared_suc : (m : Memory) (k : ℕ) → count (cleared k m) (k + 1) ≡ bit m k
unfolding count
count-cleared_suc m k = rw (add-one k) (ground (arith, count-cleared m k k))

-- Below the full count there is a clear bit.
pub clear_bit : (m : Memory) (n : ℕ) → count m n < n → (i : ℕ) × (i < n) × (bit m i ≡ 0)
unfolding count
clear_bit m zero h = absurd (omega arith)
clear_bit m (suc n) h = elim (Bool-cases (bit m n == 0)) [
  | inl t ↦ (n, omega arith, ==→eq _ _ t)
  | inr t ↦ let (i, lt, e) = clear_bit m n (ground arith) in (i, omega arith, e)
]

-- The ports of the range, and the accounting over their bits. The bit of the last port lies behind
-- the block that `SetRange` allocates.
pub record Inv (s : PortsCtl) (m : Memory) : Type 0 where
  pub mapped : s.bitmap ≡ some (over (s.max_port - s.min_port) m)
  pub positive : 0 < s.min_port
  pub ordered : s.min_port < s.max_port
  pub fits : s.max_port < 65535
  pub next_low : s.min_port ≤ s.next
  pub next_high : s.next ≤ s.max_port
  pub counted : count m (s.max_port - s.min_port + 1) ≡ s.used + s.reserved

-- A port of the range whose bit is clear, and one whose bit is set.
pub record IsFree (s : PortsCtl) (m : Memory) (p : ℕ) : Type 0 where
  pub low : s.min_port ≤ p
  pub high : p ≤ s.max_port
  pub clear : bit m (p - s.min_port) ≡ 0

pub record IsTaken (s : PortsCtl) (m : Memory) (p : ℕ) : Type 0 where
  pub low : s.min_port ≤ p
  pub high : p ≤ s.max_port
  pub is_set : bit m (p - s.min_port) ≡ 1

bit_of_lem : (s : PortsCtl) (p : ℕ) → s.min_port ≤ p → p < 65536 → bit_of s p ≡ p - s.min_port
bit_of_lem s p h k = omega arith

pub mark_port-over :
    (s : PortsCtl) (m : Memory) (p : ℕ)
    → Inv s m
    → s.min_port ≤ p
    → p ≤ s.max_port
    → mark_port s p
      ≡ ok (
        record s { bitmap = some (over (s.max_port - s.min_port) (marked m (p - s.min_port))) },
        bit m (p - s.min_port),
      )
unfolding mark_port mark_in
mark_port-over s m p v h k =
    ap (λ b. mark_in b s p) v.mapped
    ∙ rw (bit_of_lem s p h (omega (arith, v.fits)))
        (rw (test_and_set-over (s.max_port - s.min_port) m (p - s.min_port) (omega arith)))

pub unmark_port-over :
    (s : PortsCtl) (m : Memory) (p : ℕ)
    → Inv s m
    → IsTaken s m p
    → unmark_port s p
      ≡ ok (record s {
        bitmap = some (over (s.max_port - s.min_port) (unmarked m (p - s.min_port)));
      })
unfolding unmark_port unmark_in
unmark_port-over s m p v t =
    ap (λ b. unmark_in b s p) v.mapped
    ∙ rw (bit_of_lem s p t.low (omega (arith, v.fits, t.high))) (
        rw (
          reset-over (s.max_port - s.min_port) m (p - s.min_port) (omega (arith, t.low, t.high))
            t.is_set))
