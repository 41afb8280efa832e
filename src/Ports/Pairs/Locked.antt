-- ===== src/Ports/Pairs/Locked.antt =====
-- PutTwo, and the entry points that hold the lock.
use z3_engine.Base.{ℕ, ◌+◌, ◌-◌, ◌≡◌, ◌≢◌, ◌<◌, ◌⊎◌, ◌∙◌, ap, subst, fun_ext, arith, ok, ◌>>=◌}
use z3_engine.Ports.Bitmap.{Memory, bit, marked, unmarked}
use z3_engine.Ports.Control.{PortsCtl, lock_on, lock_off}
use z3_engine.Ports.Control.Invariant.{Inv, IsTaken}
use z3_engine.Ports.Control.Put.{put_one-taken, put_one_outside}
use z3_engine.Ports.Control.Scan.{Handed, get_one-free}
use z3_engine.Ports.Pairs.Rounds.{Paired}
use z3_engine.Ports.Pairs.{put_two, lock_and_get_one, lock_and_put_one, get_one_port, reply_port}

locked-Inv : (s : PortsCtl) (m : Memory) (n : ℕ) → Inv s m → Inv (record s { lock = n }) m
locked-Inv s m n v = record {
  mapped = v.mapped;
  positive = v.positive;
  ordered = v.ordered;
  fits = v.fits;
  next_low = v.next_low;
  next_high = v.next_high;
  counted = v.counted;
}

-- Two bits set and taken back in the same order.
unmarked_two :
    (m : Memory) (i j : ℕ)
    → bit m i ≡ 0
    → bit m j ≡ 0
    → i ≢ j
    → unmarked (unmarked (marked (marked m i) j) i) j ≡ m
unmarked_two m i j e f n = fun_ext λ k. ground arith

bit_first : (m : Memory) (i j : ℕ) → bit m i ≡ 0 → i ≢ j → bit (marked (marked m i) j) i ≡ 1
bit_first m i j e n = ground arith

bit_second :
    (m : Memory) (i j : ℕ)
    → bit m i ≡ 0
    → bit m j ≡ 0
    → i ≢ j
    → bit (unmarked (marked (marked m i) j) i) j ≡ 1
bit_second m i j e f n = ground arith

-- For a pair that `GetTwo` found over a well-formed state, `PutTwo` succeeds and gives back the
-- bits, both counters, the range and the lock of that state, well formed; the cursor is not said
-- to be the old one.
pub put_two-Paired :
    (m : Memory) (s t : PortsCtl) (low high : ℕ)
    → Inv s m
    → Paired m s low high t
    → (u : PortsCtl) × (put_two t low high ≡ ok u)
      × Inv u m
      × (u.used ≡ s.used)
      × (u.reserved ≡ s.reserved)
      × (u.min_port ≡ s.min_port)
      × (u.max_port ≡ s.max_port)
      × (u.lock ≡ s.lock)
unfolding put_two
put_two-Paired m s t low high v p =
    let i = low - s.min_port in
    let j = high - s.min_port in
    let both : Memory = marked (marked m i) j in
    let apart : i ≢ j = λ q. omega (arith, q, p.adjacent, p.low_free.low) in
    let first : IsTaken t both low = record {
      low = omega (arith, p.low_free.low, p.min_same);
      high = omega (arith, p.low_free.high, p.max_same);
      is_set = ap (λ x. bit both (low - x)) p.min_same ∙ bit_first m i j p.low_free.clear apart;
    } in
    let (a, e, r) = put_one-taken t both low p.inv first (omega (arith, p.used_more)) in
    let one : Memory = unmarked both i in
    let held : Inv a one = subst (Inv a) (ap (λ x. unmarked both (low - x)) p.min_same) r.inv in
    let second : IsTaken a one high = record {
      low = omega (arith, p.high_free.low, p.min_same, r.min_same);
      high = omega (arith, p.high_free.high, p.max_same, r.max_same);
      is_set =
          ap (λ x. bit one (high - x)) (r.min_same ∙ p.min_same)
          ∙ bit_second m i j p.low_free.clear p.high_free.clear apart;
    } in
    let (b, f, q) =
      put_one-taken a one high held second (omega (arith, p.used_more, r.used_less)) in
    let none_left : unmarked one (high - a.min_port) ≡ m =
      ap (λ x. unmarked one (high - x)) (r.min_same ∙ p.min_same)
      ∙ unmarked_two m i j p.low_free.clear p.high_free.clear apart in
    (
      b,
      rw e f,
      subst (Inv b) none_left q.inv,
      omega (arith, p.used_more, r.used_less, q.used_less),
      q.reserved_same ∙ r.reserved_same ∙ p.reserved_same,
      q.min_same ∙ r.min_same ∙ p.min_same,
      q.max_same ∙ r.max_same ∙ p.max_same,
      q.lock_same ∙ r.lock_same ∙ p.lock_same,
    )

-- `GetOnePort` over a well-formed state that uses and reserves fewer ports than its range has
-- gives a port above 0 whose bit was clear, sets that bit alone, counts one port more as used, and
-- leaves the lock as it was.
pub get_one_port-Handed :
    (s : PortsCtl) (m : Memory)
    → Inv s m
    → s.used + s.reserved < s.max_port - s.min_port + 1
    → (p : ℕ) × (t : PortsCtl) × (get_one_port s ≡ ok (p, t)) × (0 < p) × Handed s m p t
unfolding get_one_port reply_port lock_and_get_one lock_on lock_off
get_one_port-Handed s m v free =
    let (p, t, e, h) =
      get_one-free (record s { lock = s.lock + 1 }) m (locked-Inv s m (s.lock + 1) v) free in
    (
      p,
      record t { lock = t.lock - 1 },
      rw e,
      omega (arith, h.was_free.low, v.positive),
      record {
        was_free = record {
          low = h.was_free.low;
          high = h.was_free.high;
          clear = h.was_free.clear;
        };
        inv = locked-Inv t (marked m (p - s.min_port)) (t.lock - 1) h.inv;
        min_same = h.min_same;
        max_same = h.max_same;
        used_more = h.used_more;
        reserved_same = h.reserved_same;
        lock_same = omega (arith, h.lock_same);
      },
    )

-- `LockAndPutOne` of a port out of the range changes nothing but the lock, which the caller then
-- holds once less than before.
pub lock_and_put_one_outside :
    (s : PortsCtl) (p : ℕ)
    → (p < s.min_port) ⊎ (s.max_port < p)
    → lock_and_put_one s p ≡ ok (record s { lock = s.lock - 1 })
unfolding lock_and_put_one lock_on lock_off
lock_and_put_one_outside s p h =
    ap (λ o. o >>= λ s'. ok (lock_off s')) (put_one_outside (lock_on s) p h)
    ∙ ap (λ n. ok (record s { lock = n })) (omega arith)
