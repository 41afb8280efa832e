-- ===== src/Ports/Pairs.antt =====
-- GetTwo, PutTwo, the locked entry points of PortsCtl and class MediaPorts, all of
-- z3_rtsp_client/z3_media_ports.cpp.
pub mod Locked
pub mod Rounds
pub mod Sound
use z3_engine.Base.{
  ℕ, zero, suc, ◌+◌, ◌-◌, Bool, true, false, Option, none, some, ltb, ◌==◌, if◌then◌else◌, is_odd,
  Outcome, ok, fault, hangs, ◌>>=◌,
}
use z3_engine.Ports.Bitmap.{Memory}
use z3_engine.Ports.Control.{
  PortsCtl, u16, z3_rtsp_eoutofports, lock_on, lock_off, new_ports, set_range, set_reserved, Reply,
  got, failed, get_one, put_one,
}

pub data PairReply : Type 0 where
  pair : ℕ → ℕ → PairReply
  no_pair : ℕ → PairReply

-- One round of the first inner loop (no low port in hand) or of the second (`low` in hand) of
-- `GetTwo`: it returns, or goes on with the port that it keeps.
pub data Round : Type 0 where
  return : PairReply → PortsCtl → Round
  again : Option ℕ → PortsCtl → Round

low_round : Reply × PortsCtl → Outcome Round
low_round (failed e, s) = ok (return (no_pair e) s)
low_round (got p, s) =
    if is_odd p then (do s' ← put_one s p; ok (again none s')) else ok (again (some p) s)

high_next : ℕ → PortsCtl → Outcome Round
high_next high s =
    if is_odd high then (do s' ← put_one s high; ok (again none s')) else ok (again (some high) s)

high_round : ℕ → Reply × PortsCtl → Outcome Round
high_round low (failed e, s) = do s' ← put_one s low; ok (return (no_pair e) s')
high_round low (got high, s) =
    if high == low + 1
    then ok (return (pair low high) s)
    else (do s' ← put_one s low; high_next high s')

unfoldable pub pair_round : Option ℕ → PortsCtl → Outcome Round
unfolding low_round high_round high_next
pair_round none s = do r ← get_one s; low_round r
pair_round (some low) s = do r ← get_one s; high_round low r

-- What follows a round: `rest` is the loop's next rounds.
unfoldable pub go_on :
    (Option ℕ → PortsCtl → Outcome (PairReply × PortsCtl))
    → Outcome Round
    → Outcome (PairReply × PortsCtl)
go_on rest (ok (return reply s)) = ok (reply, s)
go_on rest (ok (again held s)) = rest held s
go_on rest fault = fault
go_on rest hangs = hangs

-- `fuel` bounds the rounds; the source has no bound.
unfoldable pub pair_loop : ℕ → Option ℕ → PortsCtl → Outcome (PairReply × PortsCtl)
pair_loop zero held s = hangs
pair_loop (suc fuel) held s = go_on (pair_loop fuel) (pair_round held s)

unfoldable pub get_two : ℕ → PortsCtl → Outcome (PairReply × PortsCtl)
get_two fuel s =
    if ltb (u16 (s.max_port + 65536 - s.min_port)) (s.used + s.reserved + 2)
    then ok (no_pair z3_rtsp_eoutofports, s)
    else pair_loop fuel none s

pub put_two : PortsCtl → ℕ → ℕ → Outcome PortsCtl
put_two s low high = do s' ← put_one s low; put_one s' high

pub lock_and_get_one : PortsCtl → Outcome (Reply × PortsCtl)
lock_and_get_one s = do (r, s') ← get_one (lock_on s); ok (r, lock_off s')

pub lock_and_put_one : PortsCtl → ℕ → Outcome PortsCtl
lock_and_put_one s p = do s' ← put_one (lock_on s) p; ok (lock_off s')

abbrev pub lock_and_get_two : ℕ → PortsCtl → Outcome (PairReply × PortsCtl)
lock_and_get_two fuel s = do (r, s') ← get_two fuel (lock_on s); ok (r, lock_off s')

abbrev pub lock_and_put_two : PortsCtl → ℕ → ℕ → Outcome PortsCtl
lock_and_put_two s low high = do s' ← put_two (lock_on s) low high; ok (lock_off s')

-- MediaPorts: the range of the one instance, and the calls that it passes on.
abbrev pub set_default_range : Bool → Option Memory → PortsCtl → Outcome (PortsCtl × ℕ)
set_default_range object block s = set_range object block 20000 30000 s

-- The first call makes the instance; its range may fail to be set, which nobody looks at.
abbrev pub get_instance : ℕ → Bool → Option Memory → Option PortsCtl → Outcome PortsCtl
unfolding set_default_range
get_instance garbage object block (some s) = ok s
get_instance garbage object block none = do
  (s, _) ← set_default_range object block (new_ports garbage)
  ok s

reply_port : Reply × PortsCtl → ℕ × PortsCtl
reply_port (got p, s) = (p, s)
reply_port (failed e, s) = (0, s)

pub get_one_port : PortsCtl → Outcome (ℕ × PortsCtl)
unfolding reply_port lock_and_get_one
get_one_port s = do r ← lock_and_get_one s; ok (reply_port r)
