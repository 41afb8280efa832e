-- ===== src/Ports/Control/Range.antt =====
-- SetRange of PortsCtl, on its allocating path and on the path that keeps the old bitmap.
use native.Mathlib.Nat.{le_refl}
use z3_engine.Base.{
  ℕ, ◌+◌, ◌-◌, ◌<◌, ◌≡◌, ◌↔◌, refl, sym, ◌∙◌, true, some, arith, ok, fault, lt→ltb, ge→ltb,
  add_sub_one,
}
use z3_engine.Ports.Bitmap.{
  Memory, over, bit, alloc_lem, set_bits_refused, set_bits_smaller, cleared, set_zero-over,
}
use z3_engine.Ports.Control.{
  PortsCtl, u16, set_range, fresh_range, reuse_range, start_range, lock_on, lock_off,
}
use z3_engine.Ports.Control.Invariant.{count-cleared_suc, Inv}

size_lem : (low high : ℕ) → low < high → high < 65535 → u16 (high + 65536 - low) ≡ high - low
size_lem low high b c = omega arith

-- The state that a new range of ports begins with.
abbrev pub started : PortsCtl → ℕ → ℕ → Memory → PortsCtl
started s low high m = record s {
  min_port = low;
  max_port = high;
  used = 0;
  next = low;
  reserved = 0;
  bitmap = some (over (high - low) (cleared (high - low) m));
}

-- The byte of the last port is not among those that `SetZero` clears, so the new range is well
-- formed exactly if its bit happens to be clear.
started-Inv :
    (s : PortsCtl) (low high : ℕ) (m : Memory)
    → 0 < low
    → low < high
    → high < 65535
    → Inv (started s low high m) (cleared (high - low) m) ↔ (bit m (high - low) ≡ 0)
started-Inv s low high m a b c = (
  (λ v. sym (count-cleared_suc m (high - low)) ∙ v.counted),
  (λ e. record {
    mapped = refl;
    positive = a;
    ordered = b;
    fits = c;
    next_low = le_refl low;
    next_high = omega arith;
    counted = count-cleared_suc m (high - low) ∙ e;
  }),
)

-- `SetRange` to a range with more ports than the one before, below port 65535, gets the block that
-- the allocator found with `block` in it, starts with no port used or reserved and the cursor at
-- the first port, and releases the lock; the new state is well formed exactly if the bit of the
-- last port, whose byte lies behind the block and is not cleared, happens to be 0.
pub set_range-fresh :
    (s : PortsCtl) (low high : ℕ) (block : Memory)
    → 0 < low
    → low < high
    → high < 65535
    → s.max_port - s.min_port < high - low
    → (set_range true (some block) low high s ≡ ok (started s low high block, 0))
      × (Inv (started s low high block) (cleared (high - low) block) ↔ (bit block (high - low) ≡ 0))
unfolding set_range fresh_range start_range lock_on lock_off
set_range-fresh s low high block a b c d = (
  rw
      (
        lt→ltb 0 low a,
        lt→ltb 0 high (omega arith),
        lt→ltb low high b,
        size_lem low high b c,
        lt→ltb _ _ d,
      )
      (rw (alloc_lem (high - low) block)
        (rw (set_zero-over (high - low) block, add_sub_one s.lock))),
  started-Inv s low high block a b c,
)

-- `SetRange` over a well-formed state to a range with fewer ports, below port 65535, keeps the
-- block and starts with no port used or reserved, with the part of the block that holds the bits
-- of all ports but the last cleared; the new state is well formed exactly if the last port's bit
-- was clear.
pub set_range_smaller :
    (s : PortsCtl) (m : Memory) (low high : ℕ)
    → Inv s m
    → 0 < low
    → low < high
    → high < 65535
    → high - low < s.max_port - s.min_port
    → (set_range true (some m) low high s ≡ ok (started s low high m, 0))
      × (Inv (started s low high m) (cleared (high - low) m) ↔ (bit m (high - low) ≡ 0))
unfolding set_range reuse_range start_range lock_on lock_off
set_range_smaller s m low high v a b c d = (
  rw
      (
        lt→ltb 0 low a,
        lt→ltb 0 high (omega arith),
        lt→ltb low high b,
        size_lem low high b c,
        ge→ltb (s.max_port - s.min_port) (high - low) (omega arith),
      )
      (rw (v.mapped, reuse_range)
        (rw (size_lem low high b c, set_bits_smaller (high - low) (s.max_port - s.min_port) m d)
          (rw (set_zero-over (high - low) m, add_sub_one s.lock)))),
  started-Inv s low high m a b c,
)

-- Setting a range of the size that is set already ends in a failed `assert`.
pub set_range_same_size :
    (s : PortsCtl) (m : Memory) (low high : ℕ)
    → Inv s m
    → 0 < low
    → low < high
    → high < 65535
    → high - low ≡ s.max_port - s.min_port
    → set_range true (some m) low high s ≡ fault
unfolding set_range reuse_range start_range lock_on lock_off
set_range_same_size s m low high v a b c d =
    rw
      (
        lt→ltb 0 low a,
        lt→ltb 0 high (omega arith),
        lt→ltb low high b,
        size_lem low high b c,
        ge→ltb (s.max_port - s.min_port) (high - low) (omega (arith, d)),
      )
      (rw (v.mapped, reuse_range)
        (rw (
          size_lem low high b c,
          set_bits_refused (high - low) (s.max_port - s.min_port) m (omega (arith, d)),
        )))
