-- ===== src/Ports/Pairs/Rounds.antt =====
-- GetTwo of PortsCtl: what one round of its inner loops keeps, and what it can come to.
use z3_engine.Base.{
  ℕ, ◌+◌, ◌-◌, ◌%◌, ◌≤◌, ◌≡◌, ◌≢◌, refl, ◌∙◌, inl, inr, Option, none, some, arith, fun_ext, ◌==◌,
  is_odd, Bool-cases, Outcome, ok, ==→eq,
}
use z3_engine.Ports.Bitmap.{Memory, bit, marked, unmarked}
use z3_engine.Ports.Control.{PortsCtl, got, put_one}
use z3_engine.Ports.Control.Invariant.{Inv, IsFree, IsTaken}
use z3_engine.Ports.Control.Scan.{Handed, get_one-free}
use z3_engine.Ports.Control.Put.{put_one-get_one, bit-marked, put_one-taken, unmarked-marked}
use z3_engine.Ports.Pairs.{pair, Round, return, again, low_round, high_round, high_next, pair_round}

marked_other :
    (m : Memory) (i j : ℕ) → bit (marked m i) j ≡ 0 → bit m i ≡ 0 → (i ≢ j) × (bit m j ≡ 0)
marked_other m i j e f = ((λ q. ground arith), ground arith)

-- Marks at two places, the first taken back.
unmarked-marked_other :
    (m : Memory) (i j : ℕ) → bit m i ≡ 0 → i ≢ j → unmarked (marked (marked m i) j) i ≡ marked m j
unmarked-marked_other m i j e ne = fun_ext λ k. ground arith

module _ (m : Memory) (s0 : PortsCtl) where
  abbrev pub at_port : ℕ → ℕ
  at_port p = p - s0.min_port

  -- The bits while the loop has `held` in hand, and what it knows of that port.
  abbrev pub held_bits : Option ℕ → Memory
  held_bits none = m
  held_bits (some p) = marked m (at_port p)

  abbrev pub held_count : Option ℕ → ℕ
  held_count none = 0
  held_count (some p) = 1

  abbrev pub IsEvenFree : Option ℕ → Type 0
  IsEvenFree none = Unit {0}
  IsEvenFree (some p) = IsFree s0 m p × (p % 2 ≡ 0)

  -- The loop stands on the bits that it began with, but for the port in hand.
  pub record At (held : Option ℕ) (s : PortsCtl) : Type 0 where
    pub inv : Inv s (held_bits held)
    pub min_same : s.min_port ≡ s0.min_port
    pub max_same : s.max_port ≡ s0.max_port
    pub used_is : s.used ≡ s0.used + held_count held
    pub reserved_same : s.reserved ≡ s0.reserved
    pub lock_same : s.lock ≡ s0.lock
    pub even_free : IsEvenFree held

  abbrev pub ports : ℕ
  ports = s0.max_port - s0.min_port + 1

  -- The state that the loop returns with a pair.
  pub record Paired (low high : ℕ) (t : PortsCtl) : Type 0 where
    pub low_free : IsFree s0 m low
    pub high_free : IsFree s0 m high
    pub even : low % 2 ≡ 0
    pub adjacent : high ≡ low + 1
    pub inv : Inv t (marked (marked m (at_port low)) (at_port high))
    pub min_same : t.min_port ≡ s0.min_port
    pub max_same : t.max_port ≡ s0.max_port
    pub used_more : t.used ≡ s0.used + 2
    pub reserved_same : t.reserved ≡ s0.reserved
    pub lock_same : t.lock ≡ s0.lock

  -- What one round may come to.
  pub data Goes : Outcome Round → Type 0 where
    goes_on : (held : Option ℕ) (s : PortsCtl) → At held s → Goes (ok (again held s))
    returns :
        (low high : ℕ) (t : PortsCtl) → Paired low high t → Goes (ok (return (pair low high) t))

  -- A port that `GetOne` hands out beside the one in hand.
  IsFree-beside :
      (held : Option ℕ) (s t : PortsCtl) (p : ℕ)
      → At held s
      → Handed s (held_bits held) p t
      → IsFree s0 (held_bits held) p
  IsFree-beside held s t p a h = record {
    low = omega (arith, h.was_free.low, a.min_same);
    high = omega (arith, h.was_free.high, a.max_same);
    clear = rw a.min_same at h.was_free.clear;
  }

  low_round-even : (s t : PortsCtl) (p : ℕ) → At none s → Handed s m p t → p % 2 ≡ 0 → At (some p) t
  low_round-even s t p a h e = record {
    inv = rw a.min_same at h.inv;
    min_same = h.min_same ∙ a.min_same;
    max_same = h.max_same ∙ a.max_same;
    used_is = omega (arith, h.used_more, a.used_is);
    reserved_same = h.reserved_same ∙ a.reserved_same;
    lock_same = h.lock_same ∙ a.lock_same;
    even_free = (IsFree-beside none s t p a h, e);
  }

  -- An odd first port is put back, an even one is kept in hand.
  low_round-Goes :
      (s t : PortsCtl) (p : ℕ) → At none s → Handed s m p t → Goes (low_round (got p, t))
  unfolding low_round
  low_round-Goes s t p a h = elim (Bool-cases (is_odd p)) [
    | inl odd ↦
        let (u, e, v, us, rs, mi, ma, lo) = put_one-get_one s m p t h in
        rw (odd, e)
          (goes_on none u (record {
            inv = v;
            min_same = mi ∙ a.min_same;
            max_same = ma ∙ a.max_same;
            used_is = omega (arith, us, a.used_is);
            reserved_same = rs ∙ a.reserved_same;
            lock_same = lo ∙ a.lock_same;
            even_free = tt;
          }))
    | inr even ↦ rw even (goes_on (some p) t (low_round-even s t p a h (ground arith)))
  ]

  -- Both ports are in hand: `t` holds the marks of `low` and of `p`.
  record Both (low p : ℕ) (t : PortsCtl) : Type 0 where
    low_free : IsFree s0 m low
    even : low % 2 ≡ 0
    p_free : IsFree s0 m p
    apart : at_port low ≢ at_port p
    inv : Inv t (marked (marked m (at_port low)) (at_port p))
    min_same : t.min_port ≡ s0.min_port
    max_same : t.max_port ≡ s0.max_port
    used_is : t.used ≡ s0.used + 2
    reserved_same : t.reserved ≡ s0.reserved
    lock_same : t.lock ≡ s0.lock

  Both-of :
      (low p : ℕ) (s t : PortsCtl)
      → At (some low) s
      → Handed s (marked m (at_port low)) p t
      → Both low p t
  Both-of low p s t a h =
      let f = IsFree-beside (some low) s t p a h in
      let other = marked_other m (at_port low) (at_port p) f.clear a.even_free.0.clear in
      record {
        low_free = a.even_free.0;
        even = a.even_free.1;
        p_free = record { low = f.low; high = f.high; clear = other.1 };
        apart = other.0;
        inv = rw a.min_same at h.inv;
        min_same = h.min_same ∙ a.min_same;
        max_same = h.max_same ∙ a.max_same;
        used_is = omega (arith, h.used_more, a.used_is);
        reserved_same = h.reserved_same ∙ a.reserved_same;
        lock_same = h.lock_same ∙ a.lock_same;
      }

  -- The state behind `PutOne(*pnLow)`: the second port alone is marked.
  record Single (p : ℕ) (u : PortsCtl) : Type 0 where
    inv : Inv u (marked m (at_port p))
    min_same : u.min_port ≡ s0.min_port
    max_same : u.max_port ≡ s0.max_port
    used_is : u.used ≡ s0.used + 1
    reserved_same : u.reserved ≡ s0.reserved
    lock_same : u.lock ≡ s0.lock

  low_set : (i j : ℕ) → bit m i ≡ 0 → bit (marked (marked m i) j) i ≡ 1
  low_set i j e = ground arith

  put_low :
      (low p : ℕ) (t : PortsCtl)
      → Both low p t
      → (u : PortsCtl) × (put_one t low ≡ ok u) × Single p u
  put_low low p t b =
      let bits = marked (marked m (at_port low)) (at_port p) in
      let taken : IsTaken t bits low = record {
        low = omega (arith, b.low_free.low, b.min_same);
        high = omega (arith, b.low_free.high, b.max_same);
        is_set = rw b.min_same (low_set (at_port low) (at_port p) b.low_free.clear);
      } in
      let (u, e, r) = put_one-taken t bits low b.inv taken (omega (arith, b.used_is)) in
      (
        u,
        e,
        record {
          inv =
              rw
                (
                  b.min_same,
                  unmarked-marked_other m (at_port low) (at_port p) b.low_free.clear b.apart,
                )
                at r.inv;
          min_same = r.min_same ∙ b.min_same;
          max_same = r.max_same ∙ b.max_same;
          used_is = omega (arith, r.used_less, b.used_is);
          reserved_same = r.reserved_same ∙ b.reserved_same;
          lock_same = r.lock_same ∙ b.lock_same;
        },
      )

  put_high :
      (p : ℕ) (u : PortsCtl)
      → IsFree s0 m p
      → Single p u
      → (v : PortsCtl) × (put_one u p ≡ ok v) × At none v
  put_high p u f b =
      let bits = marked m (at_port p) in
      let taken : IsTaken u bits p = record {
        low = omega (arith, f.low, b.min_same);
        high = omega (arith, f.high, b.max_same);
        is_set = rw b.min_same (bit-marked m (at_port p) f.clear);
      } in
      let (v, e, r) = put_one-taken u bits p b.inv taken (omega (arith, b.used_is)) in
      (
        v,
        e,
        record {
          inv = rw (b.min_same, unmarked-marked m (at_port p) f.clear) at r.inv;
          min_same = r.min_same ∙ b.min_same;
          max_same = r.max_same ∙ b.max_same;
          used_is = omega (arith, r.used_less, b.used_is);
          reserved_same = r.reserved_same ∙ b.reserved_same;
          lock_same = r.lock_same ∙ b.lock_same;
          even_free = tt;
        },
      )

  high_next-Goes : (p : ℕ) (u : PortsCtl) → IsFree s0 m p → Single p u → Goes (high_next p u)
  unfolding high_next
  high_next-Goes p u f b = elim (Bool-cases (is_odd p)) [
    | inl odd ↦ let (v, e, a) = put_high p u f b in rw (odd, e) (goes_on none v a)
    | inr even ↦ rw even (
        goes_on (some p) u (record {
          inv = b.inv;
          min_same = b.min_same;
          max_same = b.max_same;
          used_is = b.used_is;
          reserved_same = b.reserved_same;
          lock_same = b.lock_same;
          even_free = (f, ground arith);
        }))
  ]

  high_round-Goes : (low p : ℕ) (t : PortsCtl) → Both low p t → Goes (high_round low (got p, t))
  unfolding high_round
  high_round-Goes low p t b = elim (Bool-cases (p == low + 1)) [
    | inl found ↦ rw found (
        returns low p t (record {
          low_free = b.low_free;
          high_free = b.p_free;
          even = b.even;
          adjacent = ==→eq p (low + 1) found;
          inv = b.inv;
          min_same = b.min_same;
          max_same = b.max_same;
          used_more = b.used_is;
          reserved_same = b.reserved_same;
          lock_same = b.lock_same;
        }))
    | inr other ↦ let (u, e, c) = put_low low p t b in rw (other, e) (high_next-Goes p u b.p_free c)
  ]

  pub pair_round-Goes :
      (held : Option ℕ) (s : PortsCtl)
      → At held s
      → s0.used + s0.reserved + 2 ≤ ports
      → Goes (pair_round held s)
  unfolding pair_round
  pair_round-Goes none s a room =
      let (p, t, e, h) = get_one-free s m a.inv (omega arith) in rw e (low_round-Goes s t p a h)
  pair_round-Goes (some low) s a room =
      let (p, t, e, h) = get_one-free s (marked m (at_port low)) a.inv (omega arith) in
      rw e (high_round-Goes low p t (Both-of low p s t a h))

  pub start : Inv s0 m → At none s0
  start v = record {
    inv = v;
    min_same = refl;
    max_same = refl;
    used_is = omega arith;
    reserved_same = refl;
    lock_same = refl;
    even_free = tt;
  }
