-- ===== src/Packets/Tests.antt =====
-- The theorems on the media packets at concrete packets.
use z3_engine.Base.{
  ℕ, zero, suc, ◌+◌, ◌≤◌, ◌≡◌, refl, true, none, some, [], ◌∷◌, ◌++◌, arith, Bytes, ok, ◌==◌,
  if◌then◌else◌,
}
use z3_engine.Packets.Buffer.{byte_at, be16, be32, found}
use z3_engine.Packets.Rtcp.{
  Report, Chunk, sr_init_packet, get_rb, sr_word, sr_get_ssrc, sr_get_ntp_timestamp,
  sr_get_rtp_timestamp, sd_get_length, init_chunk, push_chunks, align4,
}
use z3_engine.Packets.Rtcp.Reports.{Says, block, packet_of, sr_get_rb}
use z3_engine.Packets.Rtcp.Chunks.{AllIn, push_chunks-AllIn}
use z3_engine.Packets.Stats.{
  Timeval, Db, sync_of, lookup, known, db_process_incoming_sr, lookup-db_process_incoming_sr,
}
use z3_engine.Packets.Frame.{H264Frame, content_from, Holds}

-- `count` copies of eight bytes.
abbrev eights : ℕ → Bytes
eights zero = []
eights (suc n) = 0 ∷ 0 ∷ 1 ∷ 2 ∷ 3 ∷ 4 ∷ 5 ∷ 6 ∷ eights n

-- A sender report with two blocks: 76 bytes.
abbrev sender_report : Bytes
sender_report = 0x82 ∷ 200 ∷ 0 ∷ 18 ∷ eights 9

sender_report-Says : Says (sender_report ++ (0 ∷ 0 ∷ 0 ∷ 0 ∷ [])) 2 76
unfolding byte_at be16 found
sender_report-Says = record {
  first = 0x82;
  words = 18;
  reads_first = refl;
  reads_words = refl;
  count_is = refl;
  len_is = refl;
}

abbrev sender_packet : Bytes
sender_packet = sender_report ++ (0 ∷ 0 ∷ 0 ∷ 0 ∷ [])

abbrev no_report : Report
no_report = record { packet = record { bytes = none; size = 0 }; blocks = [] }

sr_get_rb_example :
    (t : Report) × (sr_init_packet true sender_packet no_report ≡ ok t)
    × (get_rb t 0 ≡ some (block 1))
    × (52 + 24 ≤ 80)
sr_get_rb_example =
    sr_get_rb sender_packet 2 76 no_report 0 sender_report-Says (omega arith) (omega arith)
      (omega arith) refl (omega arith)

-- A receiver report with one block: 32 bytes.
abbrev receiver_report : Bytes
receiver_report = 0x81 ∷ 201 ∷ 0 ∷ 7 ∷ 1 ∷ 2 ∷ 3 ∷ 4 ∷ eights 3

receiver_report-Says : Says receiver_report 1 32
unfolding byte_at be16 found
receiver_report-Says = record {
  first = 0x81;
  words = 7;
  reads_first = refl;
  reads_words = refl;
  count_is = refl;
  len_is = refl;
}

abbrev sender : Report
sender = record { packet = packet_of sender_packet; blocks = [] }

-- One chunk: its source, then a CNAME of three bytes.
abbrev description : Bytes
description = 0x81 ∷ 202 ∷ 0 ∷ 3 ∷ 7 ∷ 6 ∷ 5 ∷ 4 ∷ 1 ∷ 3 ∷ 97 ∷ 98 ∷ 99 ∷ 0 ∷ 0 ∷ 0 ∷ []

abbrev chunk : Chunk
chunk = record { start = 4; size = 12 }

push_chunks-AllIn_example : AllIn 16 (chunk ∷ [])
unfolding push_chunks init_chunk sd_get_length align4 byte_at found
push_chunks-AllIn_example =
    push_chunks-AllIn description 1 0 [] (chunk ∷ []) (omega arith) refl tt refl

-- Two sources, no extension; none, with an extension of one word.
abbrev mixed : Bytes
mixed = 0x82 ∷ 96 ∷ eights 3

abbrev extended : Bytes
extended = 0x90 ∷ 96 ∷ 0 ∷ 1 ∷ eights 1 ++ (0xBE ∷ 0xDE ∷ 0 ∷ 1 ∷ eights 1)

abbrev noon : Timeval
noon = record { sec = 43200; usec = 0 }

lookup-db_process_incoming_sr_example :
    (db' : Db) × (db_process_incoming_sr noon sender [] ≡ ok db')
    × (lookup 9 db' ≡ (
        if 0x00000102 == 9
        then some (record (known 0x00000102 []) {
          last_ntp = 0x0304050600000102;
          last_rtp = 0x03040506;
          last_time = noon;
          sync_time = sync_of 0x0304050600000102;
        })
        else lookup 9 []))
unfolding sr_get_ssrc sr_get_ntp_timestamp sr_get_rtp_timestamp sr_word byte_at be16 be32 found
lookup-db_process_incoming_sr_example =
    lookup-db_process_incoming_sr noon sender [] 0x00000102 0x0304050600000102 0x03040506 9 refl
      refl refl

abbrev empty_block : ℕ → ℕ
empty_block j = 0

abbrev frame : H264Frame
frame = record { buf = some empty_block; pos = 0; max_size = 8; timestamp = 0 }

frame-Holds : Holds frame []
unfolding content_from
frame-Holds = (empty_block, refl, refl, omega arith, omega arith)
