-- ===== src/Packets/Rtp.antt =====
-- z3_rtsp_client/z3_rtp_msg.cpp, with the layout and macros of z3_rtp.hpp, on a little-endian
-- machine. The payload is an offset from the start of the packet.
use z3_engine.Base.{
  ℕ, ◌+◌, ◌-◌, ◌*◌, ◌/◌, ◌%◌, ◌≤◌, ◌<◌, ◌≡◌, sym, ap, Bool, true, false, Option, none, some, arith,
  ◌==◌, if◌then◌else◌, Bytes, Outcome, ok, fault, ◌>>=◌, ok-injective,
}
use z3_engine.Packets.Buffer.{byte_at, be16, be32}

-- RTPPacket: a pointer to the caller's bytes, NULL before InitPacket, and a 32-bit size.
pub record RtpPacket : Type 0 where
  pub bytes : Option Bytes
  pub size : ℕ

abbrev pub init_packet : Bytes → ℕ → RtpPacket → RtpPacket
init_packet buf size p = record { bytes = some buf; size = size % 4294967296 }

abbrev sizeof_rtp_hdr : ℕ
sizeof_rtp_hdr = 12

-- RTP_PKT_DATA adds `csrc_count * 4` to a pointer to `unsigned int`, so it skips 16 bytes for each
-- source.
abbrev data_offset : ℕ → ℕ
data_offset csrc_count = sizeof_rtp_hdr + csrc_count * 4 * 4

unfoldable pub payload_offset : Bytes → Outcome ℕ
payload_offset buf = do
  b ← byte_at buf 0
  if b / 16 % 2 == 0
      then ok (data_offset (b % 16))
      else (do len ← be16 buf (data_offset (b % 16) + 2); ok (data_offset (b % 16) + 4 + 4 * len))

abbrev over_bytes {ℓ} : {A : Type ℓ} → Option Bytes → (Bytes → Outcome A) → Outcome A
over_bytes none f = fault
over_bytes (some buf) f = f buf

unfoldable pub get_payload : RtpPacket → Outcome ℕ
unfolding payload_offset
get_payload p = over_bytes p.bytes payload_offset

-- The difference of the pointers, in 32 bits.
pub get_payload_size : RtpPacket → Outcome ℕ
unfolding get_payload
get_payload_size p = do start ← get_payload p; ok ((p.size + 4294967296 - start) % 4294967296)

abbrev pub get_timestamp : RtpPacket → Outcome ℕ
get_timestamp p = over_bytes p.bytes (λ buf. be32 buf 4)

abbrev pub is_marker : RtpPacket → Outcome Bool
is_marker p = over_bytes p.bytes (λ buf. do b ← byte_at buf 1; ok (b / 128 % 2 == 1))

-- RtpMsg: its own copy of the bytes, and a size that no method sets.
pub record RtpMsg : Type 0 where
  pub bytes : Option Bytes
  pub size : ℕ

unfoldable pub new_rtp_msg : RtpMsg
new_rtp_msg = record { bytes = none; size = 0 }

abbrev is_null {ℓ} : {A : Type ℓ} → Option A → Bool
is_null none = true
is_null (some a) = false

-- `memory` tells whether `z3_malloc` has room; the result is 0 or ENOMEM.
unfoldable pub fill_buffer : Bool → Bytes → RtpMsg → Outcome (RtpMsg × ℕ)
fill_buffer memory buf m =
    if is_null m.bytes
    then (if m.size == 0
        then ok (if memory then (record m { bytes = some buf }, 0) else (m, 12))
        else fault)
    else fault

unfoldable pub msg_get_payload : RtpMsg → Outcome ℕ
unfolding payload_offset
msg_get_payload m = over_bytes m.bytes payload_offset

pub msg_get_payload_size : RtpMsg → Outcome ℕ
unfolding msg_get_payload
msg_get_payload_size m = do
  start ← msg_get_payload m
  ok ((m.size + 4294967296 - start) % 4294967296)

-- Where the payload begins by RFC 3550: behind 12 bytes, 4 for each source, and the extension.
pub standard_offset : Bytes → Outcome ℕ
standard_offset buf = do
  b ← byte_at buf 0
  if b / 16 % 2 == 0
      then ok (12 + b % 16 * 4)
      else (do len ← be16 buf (12 + b % 16 * 4 + 2); ok (12 + b % 16 * 4 + 4 + 4 * len))

-- On a packet without contributing sources `GetPayload` is the offset by RFC 3550, with and
-- without an extension, errors included.
pub get_payload-standard :
    (buf : Bytes) (b : ℕ) (p : RtpPacket)
    → p.bytes ≡ some buf
    → byte_at buf 0 ≡ ok b
    → b % 16 ≡ 0
    → get_payload p ≡ standard_offset buf
unfolding get_payload payload_offset standard_offset
get_payload-standard buf b p e f none_csrc = rw (e, f, none_csrc)

-- On a packet with contributing sources and no extension the payload of `GetPayload` is 12 bytes
-- for each source behind the one by RFC 3550.
pub get_payload_sources :
    (buf : Bytes) (b : ℕ) (p : RtpPacket)
    → p.bytes ≡ some buf
    → byte_at buf 0 ≡ ok b
    → b / 16 % 2 ≡ 0
    → (start : ℕ) × (standard_offset buf ≡ ok start) × (get_payload p ≡ ok (start + 12 * (b % 16)))
unfolding get_payload payload_offset standard_offset
get_payload_sources buf b p e f plain =
    (12 + b % 16 * 4, rw (f, plain), rw (e, f, plain) (ap ok (omega arith)))

-- The payload's size is what is left of the packet behind its start, as long as it begins inside.
pub get_payload_size-rest :
    (p : RtpPacket) (start : ℕ)
    → get_payload p ≡ ok start
    → start ≤ p.size
    → p.size < 4294967296
    → get_payload_size p ≡ ok (p.size - start)
unfolding get_payload_size
get_payload_size-rest p start e h k = rw e (ap ok (omega arith))

-- After `FillBuffer` has filled a new `RtpMsg` whose payload begins behind byte 0,
-- `GetPayloadSize` is the start of the payload taken from 0, in 32 bits, whatever the size of the
-- packet.
pub msg_get_payload_size_filled :
    (buf : Bytes) (m : RtpMsg) (start : ℕ)
    → fill_buffer true buf new_rtp_msg ≡ ok (m, 0)
    → msg_get_payload m ≡ ok start
    → 0 < start
    → start < 4294967296
    → msg_get_payload_size m ≡ ok (4294967296 - start)
unfolding msg_get_payload_size fill_buffer new_rtp_msg
msg_get_payload_size_filled buf m start e f h k =
    let size : m.size ≡ 0 = ap (λ (r : RtpMsg × ℕ). r.0.size) (sym (ok-injective e)) in
    rw (f, size) (ap ok (omega arith))
