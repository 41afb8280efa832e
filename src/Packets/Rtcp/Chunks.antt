-- ===== src/Packets/Rtcp/Chunks.antt =====
-- The source descriptions that SDES::InitPacket finds, and the getters of SrcDesc.
use z3_engine.Base.{
  ℕ, zero, suc, ◌+◌, ◌-◌, ◌/◌, ◌%◌, ◌≤◌, ◌<◌, ◌≡◌, ◌∙◌, ap, List, [], ◌∷◌, ◌++◌, arith, Bytes, inl,
  inr, length, ok, Outcome-cases, ok-injective,
}
use z3_engine.Packets.Buffer.{IsBytes, byte_at-inside, be32_bytes}
use z3_engine.Packets.Rtcp.{
  Chunk, init_chunk, sd_get_ssrc, sd_get_type, sd_get_length, align4, push_chunks,
}

-- Rounding up to the next multiple of four.
pub align4_lem : (n : ℕ) → (align4 n % 4 ≡ 0) × (n ≤ align4 n) × (align4 n < n + 4)
unfolding align4
align4_lem n = ground arith

-- Where `GetSSRC` of a chunk reads a source, `GetType` and `GetLength` of it are the two most
-- significant bytes of that source.
pub sd_get_type-ssrc :
    (buf : Bytes) (c : Chunk) (ssrc : ℕ)
    → IsBytes buf
    → sd_get_ssrc buf c ≡ ok ssrc
    → (sd_get_type buf c ≡ ok (ssrc / 16777216)) × (sd_get_length buf c ≡ ok (ssrc / 65536 % 256))
unfolding sd_get_ssrc sd_get_type sd_get_length
sd_get_type-ssrc buf c ssrc b e =
    let (x, y, lo, p, q, hx, hy, hl, r) = be32_bytes buf c.start ssrc b e in
    (p ∙ ap ok (omega (arith, r)), q ∙ ap ok (omega (arith, r)))

-- Every chunk begins at a multiple of four and has room in the buffer for its source and the two
-- bytes behind.
abbrev pub InBuffer : ℕ → Chunk → Type 0
InBuffer size c = (c.start % 4 ≡ 0) × (c.start + 6 ≤ size) × (c.size ≡ size - c.start)

abbrev pub AllIn : ℕ → List Chunk → Type 0
AllIn size [] = Unit {0}
AllIn size (c ∷ cs) = InBuffer size c × AllIn size cs

AllIn-concat :
    (size : ℕ) (cs : List Chunk) (c : Chunk)
    → AllIn size cs
    → InBuffer size c
    → AllIn size (cs ++ (c ∷ []))
AllIn-concat size [] c a i = (i, tt)
AllIn-concat size (d ∷ cs) c a i = (a.0, AllIn-concat size cs c a.1 i)

init_chunk-ok :
    (start size : ℕ) (c : Chunk)
    → init_chunk start size ≡ ok c
    → (6 ≤ size) × (c.start ≡ start) × (c.size ≡ size)
unfolding init_chunk
init_chunk-ok start size c e = ground arith

chunk_in :
    (buf : Bytes) (offset n : ℕ) (c : Chunk)
    → length buf < 4294967296
    → offset % 4 ≡ 0
    → init_chunk (offset + 4) ((length buf + 4294967296 - (offset + 4)) % 4294967296) ≡ ok c
    → sd_get_length buf c ≡ ok n
    → InBuffer (length buf) c
unfolding sd_get_length
chunk_in buf offset n c small a e r =
    let (room, starts, sizes) = init_chunk-ok (offset + 4) _ c e in
    let inside = byte_at-inside buf (c.start + 1) n r in ground (arith, room, starts, sizes, inside)

-- When the loop of `SDES::InitPacket` over a buffer of less than 2^32 bytes succeeds, from an
-- offset that is a multiple of four and with chunks that all lie in the buffer, every chunk it
-- leaves begins at a multiple of four, with at least 6 bytes of the buffer from there on, and its
-- size is what the buffer has from there on.
pub push_chunks-AllIn :
    (buf : Bytes) (count offset : ℕ) (cs ds : List Chunk)
    → length buf < 4294967296
    → offset % 4 ≡ 0
    → AllIn (length buf) cs
    → push_chunks buf count offset cs ≡ ok ds
    → AllIn (length buf) ds
unfolding push_chunks
push_chunks-AllIn buf zero offset cs ds small a i e = rw (← ok-injective e) i
push_chunks-AllIn buf (suc count) offset cs ds small a i e =
    elim (Outcome-cases
      (init_chunk (offset + 4) ((length buf + 4294967296 - (offset + 4)) % 4294967296))) [
        | inl (c, p) ↦ elim (Outcome-cases (sd_get_length buf c)) [
          | inl (n, q) ↦
              push_chunks-AllIn buf count (align4 (offset + 4 + 2 + n)) (cs ++ (c ∷ [])) ds small
                (align4_lem (offset + 4 + 2 + n)).0
                (AllIn-concat (length buf) cs c i (chunk_in buf offset n c small a p q))
                (rw q at (rw (p, push_chunks) at e))
          | inr (inl q) ↦ cc (rw q at (rw (p, push_chunks) at e))
          | inr (inr q) ↦ cc (rw q at (rw (p, push_chunks) at e))
        ]
        | inr (inl p) ↦ cc (rw (p, push_chunks) at e)
        | inr (inr p) ↦ cc (rw (p, push_chunks) at e)
      ]
