-- ===== src/Ports/Control/Scan.antt =====
-- GetOne of PortsCtl: the scan finds the next clear bit, within one round for each port.
use z3_engine.Base.{
  ℕ, zero, suc, ◌+◌, ◌-◌, ◌≤◌, ◌<◌, ◌≡◌, ◌≢◌, refl, ◌∙◌, ap, inl, inr, some, arith, leb, ◌==◌,
  if◌then◌else◌, update_self, Bool-cases, Outcome, ok, eq→==, ne→==, ==→eq,
}
use z3_engine.Ports.Bitmap.{Memory, over, bit, marked}
use z3_engine.Ports.Control.{
  PortsCtl, u16, Reply, got, failed, advance, scan, total, get_one, z3_rtsp_eoutofports,
}
use z3_engine.Ports.Control.Invariant.{
  count, count-le, count-update, clear_bit, Inv, IsFree, mark_port-over,
}

-- What handing out port `p` does to the state.
pub record Handed (s : PortsCtl) (m : Memory) (p : ℕ) (t : PortsCtl) : Type 0 where
  pub was_free : IsFree s m p
  pub inv : Inv t (marked m (p - s.min_port))
  pub min_same : t.min_port ≡ s.min_port
  pub max_same : t.max_port ≡ s.max_port
  pub used_more : t.used ≡ s.used + 1
  pub reserved_same : t.reserved ≡ s.reserved
  pub lock_same : t.lock ≡ s.lock

-- How far the cursor at offset `i` is from offset `j`, going up and round.
abbrev ahead : ℕ → ℕ → ℕ → ℕ
ahead span i j = if leb i j then j - i else span + 1 - i + j

-- The state behind a set bit: nothing but the cursor has moved.
abbrev passed : PortsCtl → Memory → PortsCtl
passed s m = record s { bitmap = some (over (s.max_port - s.min_port) m) }

advance-Inv : (s : PortsCtl) (m : Memory) → Inv s m → Inv (advance (passed s m)) m
unfolding advance
advance-Inv s m v = record {
  mapped = refl;
  positive = v.positive;
  ordered = v.ordered;
  fits = v.fits;
  next_low = ground (arith, v.next_low, v.next_high, v.ordered, v.fits);
  next_high = ground (arith, v.next_low, v.next_high, v.ordered, v.fits);
  counted = v.counted;
}

advance-ahead :
    (s : PortsCtl) (m : Memory) (j : ℕ)
    → Inv s m
    → j ≤ s.max_port - s.min_port
    → s.next - s.min_port ≢ j
    → ahead (s.max_port - s.min_port) ((advance (passed s m)).next - s.min_port) j + 1
      ≡ ahead (s.max_port - s.min_port) (s.next - s.min_port) j
unfolding advance
advance-ahead s m j v h ne = ground (arith, v.next_low, v.next_high, v.ordered, v.fits)

taken_state : PortsCtl → Memory → PortsCtl
taken_state s m =
    advance (record (passed s (marked m (s.next - s.min_port))) { used = u16 (s.used + 1) })

pub count-marked :
    (m : Memory) (n i : ℕ) → i < n → bit m i ≡ 0 → count (marked m i) n ≡ count m n + 1
count-marked m n i h e = ground (arith, count-update m n i (if bit m i == 0 then m i + 1 else m i))

pub used_fits : (s : PortsCtl) (m : Memory) → Inv s m → s.used + s.reserved < 65535
used_fits s m v =
    omega (arith, v.counted, v.fits, v.positive, count-le m (s.max_port - s.min_port + 1))

taken-Inv :
    (s : PortsCtl) (m : Memory)
    → Inv s m
    → bit m (s.next - s.min_port) ≡ 0
    → Inv (taken_state s m) (marked m (s.next - s.min_port))
unfolding taken_state advance
taken-Inv s m v e = record {
  mapped = refl;
  positive = v.positive;
  ordered = v.ordered;
  fits = v.fits;
  next_low = ground (arith, v.next_low, v.next_high, v.ordered, v.fits);
  next_high = ground (arith, v.next_low, v.next_high, v.ordered, v.fits);
  counted =
      count-marked m (s.max_port - s.min_port + 1) (s.next - s.min_port)
        (omega (arith, v.next_low, v.next_high)) e
      ∙ omega (arith, v.counted, used_fits s m v);
}

taken-Handed :
    (s : PortsCtl) (m : Memory)
    → Inv s m
    → bit m (s.next - s.min_port) ≡ 0
    → Handed s m s.next (taken_state s m)
unfolding taken_state advance
taken-Handed s m v e = record {
  was_free = record { low = v.next_low; high = v.next_high; clear = e };
  inv = taken-Inv s m v e;
  min_same = refl;
  max_same = refl;
  used_more = omega (arith, used_fits s m v);
  reserved_same = refl;
  lock_same = refl;
}

-- What is handed out behind a set bit is handed out of the first state.
Handed-passed :
    (s : PortsCtl) (m : Memory) (p : ℕ) (t : PortsCtl)
    → Handed (advance (passed s m)) m p t
    → Handed s m p t
unfolding advance
Handed-passed s m p t h = record {
  was_free = record { low = h.was_free.low; high = h.was_free.high; clear = h.was_free.clear };
  inv = h.inv;
  min_same = h.min_same;
  max_same = h.max_same;
  used_more = h.used_more;
  reserved_same = h.reserved_same;
  lock_same = h.lock_same;
}

abbrev pub Hands : PortsCtl → Memory → Outcome (Reply × PortsCtl) → Type 0
Hands s m o = (p : ℕ) × (t : PortsCtl) × (o ≡ ok (got p, t)) × Handed s m p t

scan-clear :
    (fuel : ℕ) (s : PortsCtl) (m : Memory)
    → Inv s m
    → bit m (s.next - s.min_port) ≡ 0
    → Hands s m (scan (suc fuel) s)
unfolding scan
scan-clear fuel s m v e = (
  s.next,
  taken_state s m,
  rw (mark_port-over s m s.next v v.next_low v.next_high, scan)
      (rw (eq→== _ 0 e) (unfold taken_state in refl)),
  taken-Handed s m v e,
)

scan_set :
    (fuel : ℕ) (s : PortsCtl) (m : Memory)
    → Inv s m
    → bit m (s.next - s.min_port) ≡ 1
    → scan (suc fuel) s ≡ scan fuel (advance (passed s m))
unfolding scan
scan_set fuel s m v e =
    rw (mark_port-over s m s.next v v.next_low v.next_high, scan)
      (rw (ne→== (bit m (s.next - s.min_port)) 0 (omega arith)) (
        ap (λ m'. scan fuel (advance (passed s m')))
          (update_self m (s.next - s.min_port) _ (ground arith))))

-- From any cursor the scan comes to a clear bit, in as many rounds as that bit is ahead.
scan_finds :
    (fuel : ℕ) (s : PortsCtl) (m : Memory) (j : ℕ)
    → Inv s m
    → j ≤ s.max_port - s.min_port
    → bit m j ≡ 0
    → ahead (s.max_port - s.min_port) (s.next - s.min_port) j < fuel
    → Hands s m (scan fuel s)
unfolding advance
scan_finds zero s m j v h e lt = absurd (omega arith)
scan_finds (suc fuel) s m j v h e lt = elim (Bool-cases (bit m (s.next - s.min_port) == 0)) [
  | inl clear ↦ scan-clear fuel s m v (==→eq _ 0 clear)
  | inr set ↦
      let one : bit m (s.next - s.min_port) ≡ 1 = ground arith in
      let apart : s.next - s.min_port ≢ j = λ q. omega (arith, ap (bit m) q) in
      let (p, t, r, d) =
        scan_finds fuel (advance (passed s m)) m j (advance-Inv s m v) h e
          (ground (arith, advance-ahead s m j v h apart)) in
      (p, t, scan_set fuel s m v one ∙ r, Handed-passed s m p t d)
]

total-span : (s : PortsCtl) (m : Memory) → Inv s m → total s ≡ s.max_port - s.min_port + 1
total-span s m v = omega (arith, v.ordered, v.fits)

get_one-scan : (s : PortsCtl) → s.used + s.reserved < total s → get_one s ≡ scan (total s) s
unfolding get_one
get_one-scan s h = ground arith

-- Over a well-formed state that uses and reserves fewer ports than its range has, `GetOne`
-- returns: it gives a port of the range whose bit was clear, sets that bit alone, counts one port
-- more as used, and leaves the state well formed with its range, reserved count and lock as they
-- were.
pub get_one-free :
    (s : PortsCtl) (m : Memory)
    → Inv s m
    → s.used + s.reserved < s.max_port - s.min_port + 1
    → Hands s m (get_one s)
get_one-free s m v h =
    let (j, lt, clear) = clear_bit m (s.max_port - s.min_port + 1) (omega (arith, v.counted)) in
    let (p, t, r, d) =
      scan_finds (total s) s m j v (omega arith) clear
        (ground (arith, total-span s m v, v.next_low, v.next_high)) in
    (p, t, get_one-scan s (omega (arith, total-span s m v)) ∙ r, d)

-- `GetOne` over a well-formed state that uses and reserves all its ports reports that the ports are
-- used up and changes nothing.
pub get_one_full :
    (s : PortsCtl) (m : Memory)
    → Inv s m
    → s.max_port - s.min_port + 1 ≤ s.used + s.reserved
    → get_one s ≡ ok (failed z3_rtsp_eoutofports, s)
unfolding get_one
get_one_full s m v h = ground (arith, total-span s m v)
