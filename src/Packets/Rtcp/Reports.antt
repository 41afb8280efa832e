-- ===== src/Packets/Rtcp/Reports.antt =====
-- The report blocks that InitPacket of SR and RR finds, and the getters of SR.
use mathlib.Core.List.{append_assoc, append-nil}
use z3_engine.Base.{
  ℕ, zero, suc, ◌+◌, ◌-◌, ◌*◌, ◌%◌, ◌≤◌, ◌<◌, ◌≡◌, sym, ◌∙◌, ap, true, List, [], ◌∷◌, ◌++◌, some,
  arith, le→leb, gt→leb, ne→==, Bytes, length, get_elem?, ok, fault,
}
use z3_engine.Packets.Buffer.{byte_at, be16, be32, be32-ok}
use z3_engine.Packets.Rtcp.{
  Packet, Block, Report, push_blocks, init_block, init_report, sr_init_packet, rr_init_packet,
  get_rc, pkt_rc, get_packet_length, pkt_length, init_packet, get_rb, sr_word, sr_get_ssrc,
  sr_get_ntp_timestamp, sr_get_rtp_timestamp,
}

abbrev pub block : ℕ → Block
block k = record { start = 28 + k * 24; size = 24 }

-- Blocks `n - 1` down to 0.
abbrev pub blocks_down : ℕ → List Block
blocks_down zero = []
blocks_down (suc n) = block n ∷ blocks_down n

push_blocks_lem : (n : ℕ) (bs : List Block) → push_blocks n bs ≡ ok (bs ++ blocks_down n)
unfolding push_blocks init_block
push_blocks_lem zero bs = ap ok (sym (append-nil bs))
push_blocks_lem (suc n) bs =
    push_blocks_lem n (bs ++ (block n ∷ []))
    ∙ ap ok (append_assoc bs (block n ∷ []) (blocks_down n))

get-blocks_down : (n i : ℕ) → i < n → get_elem? (blocks_down n) i ≡ some (block (n - 1 - i))
get-blocks_down zero i h = absurd (omega arith)
get-blocks_down (suc n) zero h = ap (λ k. some (block k)) (omega arith)
get-blocks_down (suc n) (suc i) h =
    get-blocks_down n i (omega arith) ∙ ap (λ k. some (block k)) (omega arith)

-- What the header of a packet says: its count of report blocks, and its length in bytes.
pub record Says (buf : Bytes) (count len : ℕ) : Type 0 where
  pub first : ℕ
  pub words : ℕ
  pub reads_first : byte_at buf 0 ≡ ok first
  pub reads_words : be16 buf 2 ≡ ok words
  pub count_is : count ≡ first % 32
  pub len_is : len ≡ (words + 1) * 4

abbrev pub packet_of : Bytes → Packet
packet_of buf = record { bytes = some buf; size = length buf }

get_rc_lem : (buf : Bytes) (count len : ℕ) → Says buf count len → get_rc (packet_of buf) ≡ ok count
unfolding get_rc pkt_rc
get_rc_lem buf count len s = rw s.reads_first (ap ok (sym s.count_is))

get_packet_length_lem :
    (buf : Bytes) (count len : ℕ)
    → Says buf count len
    → len ≤ length buf
    → len < 65536
    → get_packet_length (packet_of buf) ≡ ok len
unfolding get_packet_length pkt_length
get_packet_length_lem buf count len s h k =
    rw (s.reads_words, ← s.len_is) (rw (le→leb len (length buf) h) (ap ok (omega arith)))

-- For a packet that says at least one report block and a length within the buffer, below 65536 and
-- of at least 28 bytes and 24 for each block, `SR::InitPacket` succeeds and adds the blocks behind
-- the 28 bytes of the header to those of the object, the last one first.
pub sr_init_packet-ok :
    (buf : Bytes) (count len : ℕ) (r : Report)
    → Says buf count len
    → 0 < count
    → len ≤ length buf
    → len < 65536
    → count * 24 + 28 ≤ len
    → sr_init_packet true buf r
      ≡ ok (record { packet = packet_of buf; blocks = r.blocks ++ blocks_down count })
unfolding sr_init_packet init_report init_packet
sr_init_packet-ok buf count len r s pos h k fits =
    rw (get_rc_lem buf count len s, ne→== count 0 (omega arith))
      (rw (get_packet_length_lem buf count len s h k, le→leb (count * 24 + 28) len fits)
        (rw (push_blocks_lem count r.blocks)))

-- On a new object, for a packet that says `count` report blocks and a length within the buffer,
-- below 65536 and of at least 28 bytes and 24 for each block, `SR::InitPacket` succeeds and
-- `GetRB(i)` for `i` below the count is the block at place `count` - 1 - `i` of the packet, which
-- lies within the buffer.
pub sr_get_rb :
    (buf : Bytes) (count len : ℕ) (r : Report) (i : ℕ)
    → Says buf count len
    → len ≤ length buf
    → len < 65536
    → count * 24 + 28 ≤ len
    → r.blocks ≡ []
    → i < count
    → (t : Report) × (sr_init_packet true buf r ≡ ok t)
      × (get_rb t i ≡ some (block (count - 1 - i)))
      × ((block (count - 1 - i)).start + 24 ≤ length buf)
unfolding get_rb
sr_get_rb buf count len r i s h k fits empty lt = (
  record { packet = packet_of buf; blocks = r.blocks ++ blocks_down count },
  sr_init_packet-ok buf count len r s (omega arith) h k fits,
  rw empty (get-blocks_down count i lt),
  omega arith,
)

-- For a receiver report of the standard's length, 8 bytes and 24 for each of at least one block,
-- within the buffer and below 65536, `RR::InitPacket` stops on its `assert`.
pub rr_init_packet_standard :
    (buf : Bytes) (count : ℕ) (r : Report)
    → Says buf count (8 + count * 24)
    → 0 < count
    → 8 + count * 24 ≤ length buf
    → 8 + count * 24 < 65536
    → rr_init_packet true buf r ≡ fault
unfolding rr_init_packet init_report init_packet
rr_init_packet_standard buf count r s pos h k =
    rw (get_rc_lem buf count _ s, ne→== count 0 (omega arith))
      (rw (
        get_packet_length_lem buf count _ s h k,
        gt→leb (count * 24 + 28) (8 + count * 24) (omega arith),
      ))

sr_word-ok :
    (r : Report) (buf : Bytes) (i : ℕ)
    → r.packet ≡ packet_of buf
    → 52 ≤ length buf
    → i + 4 ≤ 52
    → (v : ℕ) × (sr_word r i ≡ ok v) × (be32 buf i ≡ ok v)
unfolding sr_word
sr_word-ok r buf i e h k =
    let (v, q) = be32-ok buf i (omega arith) in (v, rw e (rw (le→leb 52 (length buf) h) q), q)

-- On a sender report of at least 52 bytes the getters of SR give the source, the two words of the
-- NTP time and the RTP time, each the four bytes at its place in the header with the most
-- significant first.
pub sr_get_long :
    (r : Report) (buf : Bytes)
    → r.packet ≡ packet_of buf
    → 52 ≤ length buf
    → (ssrc hi lo rtp : ℕ) × (sr_get_ssrc r ≡ ok ssrc)
      × (be32 buf 4 ≡ ok ssrc)
      × (sr_get_ntp_timestamp r ≡ ok (hi * 4294967296 + lo))
      × (be32 buf 8 ≡ ok hi)
      × (be32 buf 12 ≡ ok lo)
      × (sr_get_rtp_timestamp r ≡ ok rtp)
      × (be32 buf 16 ≡ ok rtp)
unfolding sr_get_ssrc sr_get_ntp_timestamp sr_get_rtp_timestamp
sr_get_long r buf e h =
    let (ssrc, a, a') = sr_word-ok r buf 4 e h (omega arith) in
    let (hi, b, b') = sr_word-ok r buf 8 e h (omega arith) in
    let (lo, c, c') = sr_word-ok r buf 12 e h (omega arith) in
    let (rtp, d, d') = sr_word-ok r buf 16 e h (omega arith) in
    (ssrc, hi, lo, rtp, a, a', rw (b, c), b', c', d, d')

-- The getters of SR answer only on a packet with room for one report block: a sender report without
-- blocks, 28 bytes long, stops on the `assert` of each.
pub sr_get_short :
    (r : Report)
    → r.packet.size < 52
    → (sr_get_ssrc r ≡ fault) × (sr_get_ntp_timestamp r ≡ fault) × (sr_get_rtp_timestamp r ≡ fault)
unfolding sr_get_ssrc sr_get_ntp_timestamp sr_get_rtp_timestamp sr_word
sr_get_short r h = let e = gt→leb 52 r.packet.size h in (rw e, rw e, rw e)
