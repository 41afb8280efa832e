-- ===== src/Ports/Control/Put.antt =====
-- PutOne and SetReserved of PortsCtl.
use z3_engine.Base.{
  ℕ, ◌+◌, ◌-◌, ◌≤◌, ◌<◌, ◌≡◌, ◌⊎◌, refl, ◌∙◌, ap, false, some, arith, fun_ext, ok, eq→==,
  add_sub_one,
}
use z3_engine.Ports.Bitmap.{Memory, over, bit, marked, unmarked}
use z3_engine.Ports.Control.{PortsCtl, u16, put_one, out_of_range, lock_on, lock_off, set_reserved}
use z3_engine.Ports.Control.Invariant.{
  count, count-update, Inv, IsFree, IsTaken, mark_port-over, unmark_port-over,
}
use z3_engine.Ports.Control.Scan.{Handed, count-marked, used_fits}

-- What giving port `p` back does to the state.
pub record Released (s : PortsCtl) (m : Memory) (p : ℕ) (t : PortsCtl) : Type 0 where
  pub inv : Inv t (unmarked m (p - s.min_port))
  pub min_same : t.min_port ≡ s.min_port
  pub max_same : t.max_port ≡ s.max_port
  pub used_less : t.used + 1 ≡ s.used
  pub reserved_same : t.reserved ≡ s.reserved
  pub lock_same : t.lock ≡ s.lock

count-unmarked :
    (m : Memory) (n i : ℕ) → i < n → bit m i ≡ 1 → count (unmarked m i) n + 1 ≡ count m n
count-unmarked m n i h e = omega (arith, count-update m n i (m i - bit m i))

released_state : PortsCtl → Memory → ℕ → PortsCtl
released_state s m p = record s {
  used = u16 (s.used + 65535);
  bitmap = some (over (s.max_port - s.min_port) (unmarked m (p - s.min_port)));
}

unmarked-Released :
    (s : PortsCtl) (m : Memory) (p : ℕ)
    → Inv s m
    → IsTaken s m p
    → 0 < s.used
    → Released s m p (released_state s m p)
unfolding released_state
unmarked-Released s m p v t h =
    let fewer : u16 (s.used + 65535) + 1 ≡ s.used = omega (arith, used_fits s m v) in
    record {
      inv = record {
        mapped = refl;
        positive = v.positive;
        ordered = v.ordered;
        fits = v.fits;
        next_low = v.next_low;
        next_high = v.next_high;
        counted = omega (
          arith,
          v.counted,
          count-unmarked m (s.max_port - s.min_port + 1) (p - s.min_port)
              (omega (arith, t.low, t.high)) t.is_set,
        );
      };
      min_same = refl;
      max_same = refl;
      used_less = fewer;
      reserved_same = refl;
      lock_same = refl;
    }

in_range : (s : PortsCtl) (p : ℕ) → s.min_port ≤ p → p ≤ s.max_port → out_of_range s p ≡ false
in_range s p h k = ground arith

-- For a port of the range whose bit is set, over a well-formed state with a port in use, `PutOne`
-- succeeds: its bit alone is cleared, one port fewer is used, the state stays well formed, and the
-- range, the reserved count and the lock are as they were.
pub put_one-taken :
    (s : PortsCtl) (m : Memory) (p : ℕ)
    → Inv s m
    → IsTaken s m p
    → 0 < s.used
    → (t : PortsCtl) × (put_one s p ≡ ok t) × Released s m p t
unfolding put_one
put_one-taken s m p v t h = (
  released_state s m p,
  rw (in_range s p t.low t.high) (rw (unmark_port-over s m p v t) (unfold released_state in refl)),
  unmarked-Released s m p v t h,
)

-- A port outside the range only lowers the count of the lock, which the caller lowers again.
pub put_one_outside :
    (s : PortsCtl) (p : ℕ) → (p < s.min_port) ⊎ (s.max_port < p) → put_one s p ≡ ok (lock_off s)
unfolding put_one
put_one_outside s p h = ground arith

pub unmarked-marked : (m : Memory) (i : ℕ) → bit m i ≡ 0 → unmarked (marked m i) i ≡ m
unmarked-marked m i e = fun_ext λ j. ground arith

pub bit-marked : (m : Memory) (i : ℕ) → bit m i ≡ 0 → bit (marked m i) i ≡ 1
bit-marked m i e = ground arith

-- A port that was handed out is taken in the new state.
pub Handed-IsTaken :
    {s : PortsCtl} {m : Memory} {p : ℕ} {t : PortsCtl}
    → Handed s m p t
    → IsTaken t (marked m (p - s.min_port)) p
Handed-IsTaken {s} {m} {p} {t} h = record {
  low = omega (arith, h.min_same, h.was_free.low);
  high = omega (arith, h.max_same, h.was_free.high);
  is_set =
      ap (λ x. bit (marked m (p - s.min_port)) (p - x)) h.min_same
      ∙ bit-marked m (p - s.min_port) h.was_free.clear;
}

-- For a port that was handed out of a state, `PutOne` succeeds and gives back the bits, both
-- counters, the range and the lock of that state, well formed; the cursor is not said to be the
-- old one.
pub put_one-get_one :
    (s : PortsCtl) (m : Memory) (p : ℕ) (t : PortsCtl)
    → Handed s m p t
    → (u : PortsCtl) × (put_one t p ≡ ok u)
      × Inv u m
      × (u.used ≡ s.used)
      × (u.reserved ≡ s.reserved)
      × (u.min_port ≡ s.min_port)
      × (u.max_port ≡ s.max_port)
      × (u.lock ≡ s.lock)
put_one-get_one s m p t h =
    let i = p - s.min_port in
    let (u, e, r) =
      put_one-taken t (marked m i) p h.inv (Handed-IsTaken h) (omega (arith, h.used_more)) in
    let same : unmarked (marked m i) (p - t.min_port) ≡ m =
      ap (λ x. unmarked (marked m i) (p - x)) h.min_same ∙ unmarked-marked m i h.was_free.clear in
    (
      u,
      e,
      (rw same at r.inv),
      omega (arith, r.used_less, h.used_more),
      r.reserved_same ∙ h.reserved_same,
      r.min_same ∙ h.min_same,
      r.max_same ∙ h.max_same,
      r.lock_same ∙ h.lock_same,
    )

reserved_state : PortsCtl → Memory → ℕ → PortsCtl
reserved_state s m p = record s {
  reserved = u16 (s.reserved + 1);
  bitmap = some (over (s.max_port - s.min_port) (marked m (p - s.min_port)));
}

reserved_state-Inv :
    (s : PortsCtl) (m : Memory) (p : ℕ)
    → Inv s m
    → IsFree s m p
    → Inv (reserved_state s m p) (marked m (p - s.min_port))
unfolding reserved_state
reserved_state-Inv s m p v f = record {
  mapped = refl;
  positive = v.positive;
  ordered = v.ordered;
  fits = v.fits;
  next_low = v.next_low;
  next_high = v.next_high;
  counted = omega (
    arith,
    v.counted,
    used_fits s m v,
    count-marked m (s.max_port - s.min_port + 1) (p - s.min_port) (omega (arith, f.low, f.high))
        f.clear,
  );
}

lock_on-Inv : (s : PortsCtl) (m : Memory) → Inv s m → Inv (lock_on s) m
unfolding lock_on
lock_on-Inv s m v = record {
  mapped = v.mapped;
  positive = v.positive;
  ordered = v.ordered;
  fits = v.fits;
  next_low = v.next_low;
  next_high = v.next_high;
  counted = v.counted;
}

-- `SetReserved` of a port of the range whose bit is clear, over a well-formed state, succeeds: it
-- sets that bit alone and counts one port more as reserved; the state stays well formed, and the
-- used count and the lock are as they were.
pub set_reserved-free :
    (s : PortsCtl) (m : Memory) (p : ℕ)
    → Inv s m
    → IsFree s m p
    → (t : PortsCtl) × (set_reserved s p ≡ ok t)
      × Inv t (marked m (p - s.min_port))
      × (t.reserved ≡ s.reserved + 1)
      × (t.used ≡ s.used)
      × (t.lock ≡ s.lock)
unfolding set_reserved reserved_state lock_on lock_off
set_reserved-free s m p v f = (
  reserved_state s m p,
  rw (in_range s p f.low f.high) (
      rw (mark_port-over (lock_on s) m p (lock_on-Inv s m v) f.low f.high)
        (rw (eq→== (bit m (p - s.min_port)) 0 f.clear) (rw (add_sub_one s.lock)))),
  reserved_state-Inv s m p v f,
  omega (arith, used_fits s m v),
  refl,
  refl,
)
