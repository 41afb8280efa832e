-- ===== src/Packets/Frame.antt =====
-- z3_rtsp_client/z3_h264_frame.cpp: the buffer in which a frame is put together. `unsigned long` and
-- `size_t` have 32 bits. The buffer's content up to the position is kept as a list.
use native.Mathlib.Nat.{zero-add, add-zero}
use z3_engine.Base.{
  ℕ, zero, suc, ◌+◌, ◌%◌, ◌≤◌, ◌<◌, ◌≡◌, refl, ◌∙◌, ap, ◌⊎◌, inl, inr, Bool, true, false, [], ◌∷◌,
  ◌++◌, Option, none, some, arith, if◌then◌else◌, Bool-cases, Bytes, length, Outcome, ok, fault,
  ◌>>=◌, ltb, lt→ltb, update,
}

-- `buf` is NULL or the bytes of the block; the block has `max_size` of them.
pub record H264Frame : Type 0 where
  pub buf : Option (ℕ → ℕ)
  pub pos : ℕ
  pub max_size : ℕ
  pub timestamp : ℕ

pub new_frame : H264Frame
new_frame = record { buf = none; pos = 0; max_size = 0; timestamp = 0 }

-- `block` is what z3_malloc returns. The old block is freed first; the position stays.
allocate_block : Option (ℕ → ℕ) → ℕ → H264Frame → H264Frame × Bool
allocate_block none size f = (record f { buf = none }, false)
allocate_block (some block) size f = (record f { buf = some block; max_size = size }, true)

pub allocate : Option (ℕ → ℕ) → ℕ → H264Frame → H264Frame × Bool
unfolding allocate_block
allocate block size f = if ltb f.max_size size then allocate_block block size f else (f, false)

-- memcpy of a list of bytes to an offset.
copy_to : (ℕ → ℕ) → ℕ → Bytes → ℕ → ℕ
copy_to m i [] = m
copy_to m i (c ∷ cs) = copy_to (update m i c) (i + 1) cs

append_bytes : Option (ℕ → ℕ) → Bytes → H264Frame → Outcome H264Frame
unfolding copy_to
append_bytes none bytes f = fault
append_bytes (some m) bytes f =
    ok (record f { buf = some (copy_to m f.pos bytes); pos = (f.pos + length bytes) % 4294967296 })

abbrev pub start_code : Bytes
start_code = 0 ∷ 0 ∷ 0 ∷ 1 ∷ []

pub add_nal_start_code : H264Frame → Outcome (H264Frame × Bool)
unfolding append_bytes
add_nal_start_code f =
    if ltb f.max_size ((f.pos + 4) % 4294967296)
    then ok (f, false)
    else (do f' ← append_bytes f.buf start_code f; ok (f', true))

-- Data that does not fit stops on the `assert`.
pub fill_data : Bytes → H264Frame → Outcome (H264Frame × ℕ)
unfolding append_bytes
fill_data bytes f =
    if ltb f.max_size ((f.pos + length bytes) % 4294967296)
    then fault
    else (do f' ← append_bytes f.buf bytes f; ok (f', length bytes))

pub reset_frame : H264Frame → H264Frame
reset_frame f = record f { pos = 0; timestamp = 0 }

-- The bytes of the frame so far.
unfoldable pub content_from : (ℕ → ℕ) → ℕ → ℕ → Bytes
content_from m i zero = []
content_from m i (suc n) = m i ∷ content_from m (i + 1) n

abbrev pub Holds : H264Frame → Bytes → Type 0
Holds f bytes =
    (m : ℕ → ℕ) × (f.buf ≡ some m)
    × (content_from m 0 f.pos ≡ bytes)
    × (f.pos ≤ f.max_size)
    × (f.max_size < 4294967296)

content_from-append :
    (m : ℕ → ℕ) (i a b : ℕ)
    → content_from m i (a + b) ≡ content_from m i a ++ content_from m (i + a) b
unfolding content_from
content_from-append m i zero b = rw (zero-add b, add-zero i)
content_from-append m i (suc a) b =
    let p : suc a + b ≡ suc (a + b) = omega arith in
    let q : i + suc a ≡ i + 1 + a = omega arith in
    rw (p, q) (ap (◌∷◌ (m i)) (content_from-append m (i + 1) a b))

copy_to_below : (m : ℕ → ℕ) (i j : ℕ) (bytes : Bytes) → j < i → copy_to m i bytes j ≡ m j
unfolding copy_to
copy_to_below m i j [] h = refl
copy_to_below m i j (c ∷ cs) h =
    copy_to_below (update m i c) (i + 1) j cs (omega arith) ∙ ground arith

content_from_below :
    (m : ℕ → ℕ) (i a n : ℕ) (bytes : Bytes)
    → a + n ≤ i
    → content_from (copy_to m i bytes) a n ≡ content_from m a n
unfolding content_from
content_from_below m i a zero bytes h = refl
content_from_below m i a (suc n) bytes h =
    rw (
      copy_to_below m i a bytes (omega arith),
      content_from_below m i (a + 1) n bytes (omega arith),
    )

content_from-copy_to :
    (m : ℕ → ℕ) (i : ℕ) (bytes : Bytes) → content_from (copy_to m i bytes) i (length bytes) ≡ bytes
unfolding content_from copy_to
content_from-copy_to m i [] = refl
content_from-copy_to m i (c ∷ cs) =
    rw
      (
        copy_to_below (update m i c) (i + 1) i cs (omega arith),
        content_from-copy_to (update m i c) (i + 1) cs,
      )
      (ap (λ x. x ∷ cs) (ground arith))

append_bytes-Holds :
    (f : H264Frame) (b bytes : Bytes)
    → Holds f b
    → f.pos + length bytes ≤ f.max_size
    → (f' : H264Frame) × (append_bytes f.buf bytes f ≡ ok f')
      × Holds f' (b ++ bytes)
      × (f'.max_size ≡ f.max_size)
      × (f'.timestamp ≡ f.timestamp)
unfolding append_bytes
append_bytes-Holds f b bytes (m, e, c, h, k) room =
    let m' = copy_to m f.pos bytes in
    let whole : (f.pos + length bytes) % 4294967296 ≡ f.pos + length bytes = omega arith in
    let joined : content_from m' 0 (f.pos + length bytes) ≡ b ++ bytes =
      content_from-append m' 0 f.pos (length bytes)
      ∙ rw (
        zero-add f.pos,
        content_from-copy_to m f.pos bytes,
        content_from_below m f.pos 0 f.pos bytes (omega arith),
        c,
      ) in
    (
      record f { buf = some m'; pos = (f.pos + length bytes) % 4294967296 },
      rw e,
      (m', refl, rw whole joined, rw whole room, k),
      refl,
      refl,
    )

-- `FillData` on a frame that holds some bytes, with a position that does not wrap: data that fits
-- in the block is appended, and the result is its size; data that does not fit stops on the
-- `assert`.
pub fill_data-Holds :
    (f : H264Frame) (b bytes : Bytes)
    → Holds f b
    → f.pos + length bytes < 4294967296
    → ((f.pos + length bytes ≤ f.max_size)
        × (f' : H264Frame) × (fill_data bytes f ≡ ok (f', length bytes))
        × Holds f' (b ++ bytes))
      ⊎ ((f.max_size < f.pos + length bytes) × (fill_data bytes f ≡ fault))
unfolding fill_data
fill_data-Holds f b bytes v small =
    let sum : (f.pos + length bytes) % 4294967296 ≡ f.pos + length bytes = omega arith in
    elim (Bool-cases (ltb f.max_size (f.pos + length bytes))) [
      | inl over ↦ inr (ground arith, rw (sum, over))
      | inr fits ↦
          let (f', e, h, _, _) = append_bytes-Holds f b bytes v (ground arith) in
          inl (ground arith, f', rw (sum, fits, e), h)
    ]

-- `AddNalStartCode` on a frame that holds some bytes, with a position that does not wrap, appends
-- the start code where four bytes are free, and otherwise leaves the frame as it is and returns
-- false.
pub add_nal_start_code-Holds :
    (f : H264Frame) (b : Bytes)
    → Holds f b
    → f.pos + 4 < 4294967296
    → ((f.pos + 4 ≤ f.max_size)
        × (f' : H264Frame) × (add_nal_start_code f ≡ ok (f', true))
        × Holds f' (b ++ start_code))
      ⊎ ((f.max_size < f.pos + 4) × (add_nal_start_code f ≡ ok (f, false)))
unfolding add_nal_start_code
add_nal_start_code-Holds f b v small =
    let sum : (f.pos + 4) % 4294967296 ≡ f.pos + 4 = omega arith in
    elim (Bool-cases (ltb f.max_size (f.pos + 4))) [
      | inl over ↦ inr (ground arith, rw (sum, over))
      | inr fits ↦
          let (f', e, h, _, _) = append_bytes-Holds f b start_code v (ground arith) in
          inl (ground arith, f', rw (sum, fits, e), h)
    ]

-- `Allocate` of a size above 0 on a new frame returns true when the allocator has a block, and the
-- frame then holds no bytes, also after `Reset`.
pub allocate-Holds :
    (block : ℕ → ℕ) (size : ℕ)
    → 0 < size
    → size < 4294967296
    → (f : H264Frame) × (allocate (some block) size new_frame ≡ (f, true))
      × Holds f []
      × Holds (reset_frame f) []
unfolding allocate new_frame reset_frame content_from
allocate-Holds block size a b = (
  record { buf = some block; pos = 0; max_size = size; timestamp = 0 },
  rw (lt→ltb 0 size a),
  (block, refl, refl, omega arith, b),
  (block, refl, refl, omega arith, b),
)
