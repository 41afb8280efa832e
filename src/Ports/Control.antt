-- ===== src/Ports/Control.antt =====
-- Class PortsCtl of z3_rtsp_client/z3_media_ports.cpp, and MediaPorts over it. The 16-bit fields
-- wrap; `lock` counts how often the caller's thread holds the mutex, which `ReleaseMutex` lowers
-- and leaves at 0. The allocator's answers are arguments.
pub mod Invariant
pub mod Put
pub mod Range
pub mod Scan
use z3_engine.Base.{
  ℕ, zero, suc, ◌+◌, ◌-◌, ◌%◌, Bool, true, false, ◌&&◌, ◌||◌, Option, none, some, ltb, leb, ◌==◌,
  if◌then◌else◌, Outcome, ok, fault, hangs, ◌>>=◌,
}
use z3_engine.Ports.Bitmap.{
  Bitmap, Memory, new_bitmap, alloc, set_zero, test_and_set, reset, set_bits,
}

pub record PortsCtl : Type 0 where
  pub min_port : ℕ
  pub max_port : ℕ
  pub used : ℕ
  pub next : ℕ
  pub reserved : ℕ
  pub lock : ℕ
  pub bitmap : Option Bitmap

abbrev pub u16 : ℕ → ℕ
u16 x = x % 65536

-- `p - m_nMinPort` is an `int`, which the parameter of the bitmap's methods makes unsigned.
abbrev pub bit_of : PortsCtl → ℕ → ℕ
bit_of s p = (p + 4294967296 - s.min_port) % 4294967296

abbrev pub z3_rtsp_eoutofports : ℕ
z3_rtsp_eoutofports = 0x80001005

abbrev enomem : ℕ
enomem = 12

-- The constructor leaves `m_nReserved` as it finds it.
unfoldable pub new_ports : ℕ → PortsCtl
new_ports garbage = record {
  min_port = 0;
  max_port = 0;
  used = 0;
  next = 1;
  reserved = garbage;
  lock = 0;
  bitmap = none;
}

unfoldable pub lock_on : PortsCtl → PortsCtl
lock_on s = record s { lock = s.lock + 1 }

unfoldable pub lock_off : PortsCtl → PortsCtl
lock_off s = record s { lock = s.lock - 1 }

start_range : PortsCtl → ℕ → ℕ → Bitmap → PortsCtl
start_range s low high b = record s {
  min_port = low;
  max_port = high;
  used = 0;
  next = low;
  reserved = 0;
  bitmap = some (set_zero b);
}

-- `object` tells whether `new Bitmap` gave one, `block` is what `Alloc` gets from the allocator.
fresh_range : PortsCtl → ℕ → ℕ → Bool → Option Memory → PortsCtl × ℕ
unfolding lock_off start_range
fresh_range s low high false block = (lock_off (record s { bitmap = none }), enomem)
fresh_range s low high true block =
    (lock_off (start_range s low high (alloc block (u16 (high + 65536 - low)) new_bitmap)), 0)

reuse_range : PortsCtl → ℕ → ℕ → Option Bitmap → Outcome (PortsCtl × ℕ)
unfolding lock_off start_range
reuse_range s low high none = fault
reuse_range s low high (some b) = do
  b' ← set_bits b (u16 (high + 65536 - low))
  ok (lock_off (start_range s low high b'), 0)

pub set_range : Bool → Option Memory → ℕ → ℕ → PortsCtl → Outcome (PortsCtl × ℕ)
unfolding lock_on fresh_range reuse_range
set_range object block low high s =
    if ltb 0 low && ltb 0 high && ltb low high
    then (if ltb (s.max_port - s.min_port) (u16 (high + 65536 - low))
        then ok (fresh_range (lock_on s) low high object block)
        else reuse_range (lock_on s) low high s.bitmap)
    else fault

-- `m_pBitmap->TestAndSet` and `m_pBitmap->Reset` on the bit of a port.
pub mark_in : Option Bitmap → PortsCtl → ℕ → Outcome (PortsCtl × ℕ)
mark_in none s p = fault
mark_in (some b) s p = do
  (b', old) ← test_and_set b (bit_of s p)
  ok (record s { bitmap = some b' }, old)

unfoldable pub mark_port : PortsCtl → ℕ → Outcome (PortsCtl × ℕ)
unfolding mark_in
mark_port s p = mark_in s.bitmap s p

pub unmark_in : Option Bitmap → PortsCtl → ℕ → Outcome PortsCtl
unmark_in none s p = fault
unmark_in (some b) s p = do b' ← reset b (bit_of s p); ok (record s { bitmap = some b' })

unfoldable pub unmark_port : PortsCtl → ℕ → Outcome PortsCtl
unfolding unmark_in
unmark_port s p = unmark_in s.bitmap s p

abbrev out_of_range : PortsCtl → ℕ → Bool
out_of_range s p = ltb s.max_port p || ltb p s.min_port

pub set_reserved : PortsCtl → ℕ → Outcome PortsCtl
unfolding lock_on lock_off
set_reserved s p = if out_of_range s p then ok (lock_off (lock_on s)) else (do
  (s', old) ← mark_port (lock_on s) p
  ok (lock_off (if old == 0 then record s' { reserved = u16 (s'.reserved + 1) } else s')))

-- What `GetOne` returns, with the port that it writes through its pointer.
pub data Reply : Type 0 where
  got : ℕ → Reply
  failed : ℕ → Reply

unfoldable pub advance : PortsCtl → PortsCtl
advance s =
    let n = u16 (s.next + 1) in record s { next = if ltb s.max_port n then s.min_port else n }

-- The loop of `GetOne`. `--nTotal < 0` compares an unsigned 16-bit value with 0 and never holds,
-- so the loop ends only at a clear bit.
unfoldable pub scan : ℕ → PortsCtl → Outcome (Reply × PortsCtl)
scan zero s = hangs
scan (suc fuel) s = elim (mark_port s s.next) [
  | ok (s', old) ↦ elim (old == 0) [
    | true ↦ ok (got s.next, advance (record s' { used = u16 (s'.used + 1) }))
    | false ↦ scan fuel (advance s')
  ]
  | fault ↦ fault
  | hangs ↦ hangs
]

abbrev pub total : PortsCtl → ℕ
total s = u16 (s.max_port + 65537 - s.min_port)

-- One round for each port: after that many the loop has seen every bit set.
unfoldable pub get_one : PortsCtl → Outcome (Reply × PortsCtl)
get_one s =
    if leb (total s) (s.used + s.reserved)
    then ok (failed z3_rtsp_eoutofports, s)
    else scan (total s) s

unfoldable pub put_one : PortsCtl → ℕ → Outcome PortsCtl
unfolding lock_off
put_one s p =
    if out_of_range s p
    then ok (lock_off s)
    else (do s' ← unmark_port s p; ok (record s' { used = u16 (s'.used + 65535) }))
