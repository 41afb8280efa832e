-- ===== src/Packets/Rtcp.antt =====
-- z3_rtsp_client/z3_rtcp_msg.cpp, with the layouts and macros of z3_rtcp.hpp. A packet keeps a copy
-- of the bytes that it is given; report blocks and source descriptions keep pointers into the
-- caller's buffer, here offsets, so their getters take that buffer.
pub mod Reports
pub mod Chunks
use z3_engine.Base.{
  ℕ, zero, suc, ◌+◌, ◌-◌, ◌*◌, ◌/◌, ◌%◌, Bool, true, false, List, [], ◌∷◌, ◌++◌, Option, none, some,
  ltb, leb, ◌==◌, if◌then◌else◌, Bytes, length, get_elem?, take, drop, Outcome, ok, fault, hangs,
  ◌>>=◌,
}
use z3_engine.Packets.Buffer.{byte_at, be16, be32, le32}

pub record Packet : Type 0 where
  pub bytes : Option Bytes
  pub size : ℕ

pub new_packet : Packet
new_packet = record { bytes = none; size = 0 }

-- RTCPPacket::InitPacket over a buffer of `length buf` bytes; `memory` tells whether `z3_malloc` has
-- room. Where it has none the pointer is NULL and the size stays what it was.
pub init_packet : Bool → Bytes → Packet → Packet
init_packet true buf p = record { bytes = some buf; size = length buf }
init_packet false buf p = record p { bytes = none }

abbrev with_bytes {ℓ} : {A : Type ℓ} → Option Bytes → (Bytes → Outcome A) → Outcome A
with_bytes none f = fault
with_bytes (some buf) f = f buf

-- RTCP_PKT_RC, RTCP_PKT_PT and RTCP_PKT_LENGTH.
pkt_rc : Bytes → Outcome ℕ
pkt_rc buf = do b ← byte_at buf 0; ok (b % 32)

pkt_length : Bytes → Outcome ℕ
pkt_length buf = do n ← be16 buf 2; ok ((n + 1) * 4)

pub get_rc : Packet → Outcome ℕ
unfolding pkt_rc
get_rc p = with_bytes p.bytes pkt_rc

abbrev pub get_payload_type : Packet → Outcome ℕ
get_payload_type p = with_bytes p.bytes (λ buf. byte_at buf 1)

-- The result is 16 bits wide.
pub get_packet_length : Packet → Outcome ℕ
unfolding pkt_length
get_packet_length p =
    with_bytes p.bytes
      (λ buf. do n ← pkt_length buf; if leb n p.size then ok (n % 65536) else fault)

-- RTCPPacketList.
abbrev pub push : {A : Type 0} → List A → A → List A × ℕ
push l p = (l ++ (p ∷ []), length l + 1)

abbrev pub pop : {A : Type 0} → List A → Option A × List A
pop [] = (none, [])
pop (p ∷ l) = (some p, l)

-- RB. A pointer into the caller's buffer, NULL before InitBlock.
pub record Block : Type 0 where
  pub start : ℕ
  pub size : ℕ

abbrev sizeof_rr_block : ℕ
sizeof_rr_block = 24

init_block : ℕ → ℕ → Outcome Block
init_block start size =
    if leb sizeof_rr_block size then ok (record { start = start; size = size }) else fault

-- The getters do not swap the bytes; `lost_rate` and `lost` share the second word.
abbrev pub rb_ssrc : Bytes → Block → Outcome ℕ
rb_ssrc buf b = le32 buf b.start

abbrev pub rb_lost_rate : Bytes → Block → Outcome ℕ
rb_lost_rate buf b = do w ← le32 buf (b.start + 4); ok (w % 256)

abbrev pub rb_lost : Bytes → Block → Outcome ℕ
rb_lost buf b = do w ← le32 buf (b.start + 4); ok (w / 256)

abbrev pub rb_jitter : Bytes → Block → Outcome ℕ
rb_jitter buf b = le32 buf (b.start + 12)

abbrev pub rb_lsr : Bytes → Block → Outcome ℕ
rb_lsr buf b = le32 buf (b.start + 16)

abbrev pub rb_dlsr : Bytes → Block → Outcome ℕ
rb_dlsr buf b = le32 buf (b.start + 20)

-- SR and RR: a packet and its vector of report blocks.
pub record Report : Type 0 where
  pub packet : Packet
  pub blocks : List Block

abbrev pub new_report : Report
unfolding new_packet
new_report = record { packet = new_packet; blocks = [] }

-- `while (nCount > 0)`: the blocks from the last to the first, each pushed at the end.
pub push_blocks : ℕ → List Block → Outcome (List Block)
unfolding init_block
push_blocks zero blocks = ok blocks
push_blocks (suc count) blocks = elim (init_block (28 + count * 24) 24) [
  | ok b ↦ push_blocks count (blocks ++ (b ∷ []))
  | fault ↦ fault
  | hangs ↦ hangs
]

-- InitPacket of SR and of RR, which are the same text.
init_report : Bool → Bytes → Report → Outcome Report
unfolding init_packet get_rc get_packet_length push_blocks
init_report memory buf r = do
  let p = init_packet memory buf r.packet
  count ← get_rc p
  if count == 0 then ok (record r { packet = p }) else (do
    len ← get_packet_length p
    if leb (count * 24 + 28) len
        then (do blocks ← push_blocks count r.blocks; ok (record { packet = p; blocks = blocks }))
        else fault)

pub sr_init_packet : Bool → Bytes → Report → Outcome Report
unfolding init_report
sr_init_packet = init_report

pub rr_init_packet : Bool → Bytes → Report → Outcome Report
unfolding init_report
rr_init_packet = init_report

abbrev pub get_rb_count : Report → ℕ
get_rb_count r = length r.blocks

pub get_rb : Report → ℕ → Option Block
get_rb r index = get_elem? r.blocks index

-- sizeof(RTCP_SR_HEADER), which holds one report block.
abbrev pub sizeof_sr_header : ℕ
sizeof_sr_header = 52

unfoldable pub sr_word : Report → ℕ → Outcome ℕ
sr_word r offset =
    if leb sizeof_sr_header r.packet.size
    then with_bytes r.packet.bytes (λ buf. be32 buf offset)
    else fault

unfoldable pub sr_get_ssrc : Report → Outcome ℕ
unfolding sr_word
sr_get_ssrc r = sr_word r 4

unfoldable pub sr_get_ntp_timestamp : Report → Outcome ℕ
unfolding sr_word
sr_get_ntp_timestamp r = do hi ← sr_word r 8; lo ← sr_word r 12; ok (hi * 4294967296 + lo)

unfoldable pub sr_get_rtp_timestamp : Report → Outcome ℕ
unfolding sr_word
sr_get_rtp_timestamp r = sr_word r 16

abbrev pub sr_get_sender_pkt_count : Report → Outcome ℕ
unfolding sr_word
sr_get_sender_pkt_count r = sr_word r 20

abbrev pub sr_get_sender_bytes : Report → Outcome ℕ
unfolding sr_word
sr_get_sender_bytes r = sr_word r 24

-- SrcDesc. A chunk is a pointer into the caller's buffer and the size that is left there.
pub record Chunk : Type 0 where
  pub start : ℕ
  pub size : ℕ

unfoldable pub init_chunk : ℕ → ℕ → Outcome Chunk
init_chunk start size = if leb 6 size then ok (record { start = start; size = size }) else fault

unfoldable pub sd_get_ssrc : Bytes → Chunk → Outcome ℕ
sd_get_ssrc buf c = be32 buf c.start

pub sd_get_type : Bytes → Chunk → Outcome ℕ
sd_get_type buf c = byte_at buf c.start

unfoldable pub sd_get_length : Bytes → Chunk → Outcome ℕ
sd_get_length buf c = byte_at buf (c.start + 1)

-- SDES.
pub record Descriptions : Type 0 where
  pub packet : Packet
  pub chunks : List Chunk

-- `if (nOffset % 4) nOffset = ((nOffset + 4) / 4) * 4`.
unfoldable pub align4 : ℕ → ℕ
align4 n = if n % 4 == 0 then n else (n + 4) / 4 * 4

-- `while (nCount > 0)`; `nBufSize - nOffset` is kept in 32 bits.
unfoldable pub push_chunks : Bytes → ℕ → ℕ → List Chunk → Outcome (List Chunk)
push_chunks buf zero offset chunks = ok chunks
push_chunks buf (suc count) offset chunks =
    elim (init_chunk (offset + 4) ((length buf + 4294967296 - (offset + 4)) % 4294967296)) [
      | ok c ↦ elim (sd_get_length buf c) [
        | ok n ↦ push_chunks buf count (align4 (offset + 4 + 2 + n)) (chunks ++ (c ∷ []))
        | fault ↦ fault
        | hangs ↦ hangs
      ]
      | fault ↦ fault
      | hangs ↦ hangs
    ]

abbrev pub sdes_init_packet : Bool → Bytes → Descriptions → Outcome Descriptions
unfolding init_packet get_rc get_packet_length push_chunks
sdes_init_packet memory buf d = do
  let p = init_packet memory buf d.packet
  count ← get_rc p
  if count == 0 then ok (record d { packet = p }) else (do
    len ← get_packet_length p
    if ltb 4 len
        then (do
          chunks ← push_chunks buf count 0 d.chunks
          ok (record { packet = p; chunks = chunks }))
        else fault)
