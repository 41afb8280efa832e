-- ===== src/Ports/Tests.antt =====
-- The theorems on z3_rtsp_client/z3_media_ports.cpp at the four ports 20000 to 20003.
use z3_engine.Base.{ℕ, ◌+◌, ◌≤◌, ◌<◌, ◌≡◌, ◌⊎◌, ◌↔◌, refl, true, some, arith, ok, hangs, ◌%◌}
use z3_engine.Ports.Bitmap.{Memory, over, bit, marked, cleared}
use z3_engine.Ports.Control.{PortsCtl, get_one, put_one, set_range, new_ports, z3_rtsp_eoutofports}
use z3_engine.Ports.Control.Invariant.{Inv, IsFree, IsTaken, count}
use z3_engine.Ports.Control.Scan.{Hands, Handed, get_one-free}
use z3_engine.Ports.Control.Put.{put_one-get_one}
use z3_engine.Ports.Control.Range.{started, set_range-fresh}
use z3_engine.Ports.Pairs.Rounds.{Paired}
use z3_engine.Ports.Pairs.{get_two, no_pair}
use z3_engine.Ports.Pairs.Sound.{get_two-Ends, get_two_no_pair, Ends}

abbrev none_set : Memory
none_set j = 0

abbrev first_set : Memory
first_set = marked none_set 0

abbrev four_ports : Memory → ℕ → ℕ → PortsCtl
four_ports m used next = record {
  min_port = 20000;
  max_port = 20003;
  used = used;
  next = next;
  reserved = 0;
  lock = 1;
  bitmap = some (over 3 m);
}

abbrev four : PortsCtl
four = four_ports none_set 0 20000

abbrev first_out : PortsCtl
first_out = four_ports first_set 1 20001

four-Inv : Inv four none_set
unfolding count
four-Inv = record {
  mapped = refl;
  positive = omega arith;
  ordered = omega arith;
  fits = omega arith;
  next_low = omega arith;
  next_high = omega arith;
  counted = refl;
}

first_out-Inv : Inv first_out first_set
unfolding count
first_out-Inv = record {
  mapped = refl;
  positive = omega arith;
  ordered = omega arith;
  fits = omega arith;
  next_low = omega arith;
  next_high = omega arith;
  counted = refl;
}

first-IsFree : IsFree four none_set 20000
first-IsFree = record { low = omega arith; high = omega arith; clear = refl }

first-IsTaken : IsTaken first_out first_set 20000
first-IsTaken = record { low = omega arith; high = omega arith; is_set = refl }

first-Handed : Handed four none_set 20000 first_out
first-Handed = record {
  was_free = first-IsFree;
  inv = first_out-Inv;
  min_same = refl;
  max_same = refl;
  used_more = refl;
  reserved_same = refl;
  lock_same = refl;
}

get_one-free_example : Hands four none_set (get_one four)
get_one-free_example = get_one-free four none_set four-Inv (omega arith)

put_one-get_one_example :
    (u : PortsCtl) × (put_one first_out 20000 ≡ ok u)
    × Inv u none_set
    × (u.used ≡ 0)
    × (u.reserved ≡ 0)
    × (u.min_port ≡ 20000)
    × (u.max_port ≡ 20003)
    × (u.lock ≡ 1)
put_one-get_one_example = put_one-get_one four none_set 20000 first_out first-Handed

get_two-Ends_example :
    ((4 < 0 + 0 + 3) × (get_two 5 four ≡ ok (no_pair z3_rtsp_eoutofports, four)))
    ⊎ ((0 + 0 + 3 ≤ 4) × Ends none_set four (get_two 5 four))
get_two-Ends_example = get_two-Ends none_set four 5 four-Inv

-- Every other port of 20000 to 20004 is taken.
abbrev odd_set : Memory
odd_set j = j % 2

abbrev odd_out : PortsCtl
odd_out = record {
  min_port = 20000;
  max_port = 20004;
  used = 2;
  next = 20000;
  reserved = 0;
  lock = 0;
  bitmap = some (over 4 odd_set);
}

odd_out-Inv : Inv odd_out odd_set
unfolding count
odd_out-Inv = record {
  mapped = refl;
  positive = omega arith;
  ordered = omega arith;
  fits = omega arith;
  next_low = omega arith;
  next_high = omega arith;
  counted = refl;
}

no_even_pair : (p : ℕ) → IsFree odd_out odd_set p → p % 2 ≡ 0 → ¬ IsFree odd_out odd_set (p + 1)
no_even_pair p f e g = omega (arith, f.low, f.clear, g.low, g.clear)

get_two_no_pair_example : get_two 100 odd_out ≡ hangs
get_two_no_pair_example = get_two_no_pair odd_set odd_out 100 odd_out-Inv (omega arith) no_even_pair

set_range-fresh_example :
    (set_range true (some none_set) 20000 20003 (new_ports 7)
      ≡ ok (started (new_ports 7) 20000 20003 none_set, 0))
    × (Inv (started (new_ports 7) 20000 20003 none_set) (cleared 3 none_set) ↔ (bit none_set 3 ≡ 0))
unfolding new_ports
set_range-fresh_example =
    set_range-fresh (new_ports 7) 20000 20003 none_set (omega arith) (omega arith) (omega arith)
      (omega arith)

-- The ports 20000 and 20001 as GetTwo leaves them.
abbrev two_out : PortsCtl
two_out = four_ports (marked first_set 1) 2 20002

two_out-Paired : Paired none_set four 20000 20001 two_out
unfolding count
two_out-Paired = record {
  low_free = first-IsFree;
  high_free = record { low = omega arith; high = omega arith; clear = refl };
  even = refl;
  adjacent = refl;
  inv = record {
    mapped = refl;
    positive = omega arith;
    ordered = omega arith;
    fits = omega arith;
    next_low = omega arith;
    next_high = omega arith;
    counted = refl;
  };
  min_same = refl;
  max_same = refl;
  used_more = refl;
  reserved_same = refl;
  lock_same = refl;
}
