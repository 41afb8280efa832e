-- ===== src/Packets/Buffer.antt =====
-- Reads of a packet's bytes at an offset. A read outside the buffer is a fault.
use z3_engine.Base.{
  ℕ, zero, suc, ◌+◌, ◌*◌, ◌<◌, ◌≡◌, refl, Option, none, some, [], ◌∷◌, arith, Bytes, length,
  get_elem?, Outcome, ok, fault, ◌>>=◌, >>=-eq-ok, ok-injective,
}

unfoldable pub found : Option ℕ → Outcome ℕ
found none = fault
found (some b) = ok b

unfoldable pub byte_at : Bytes → ℕ → Outcome ℕ
unfolding found
byte_at buf i = found (get_elem? buf i)

-- ntohs and ntohl of the bytes at an offset.
unfoldable pub be16 : Bytes → ℕ → Outcome ℕ
be16 buf i = do a ← byte_at buf i; b ← byte_at buf (i + 1); ok (a * 256 + b)

unfoldable pub be32 : Bytes → ℕ → Outcome ℕ
be32 buf i = do hi ← be16 buf i; lo ← be16 buf (i + 2); ok (hi * 65536 + lo)

-- The same bytes read with no byte swap, on a little-endian machine.
pub le32 : Bytes → ℕ → Outcome ℕ
le32 buf i = do
  a ← byte_at buf i
  b ← byte_at buf (i + 1)
  c ← byte_at buf (i + 2)
  d ← byte_at buf (i + 3)
  ok (a + b * 256 + c * 65536 + d * 16777216)

get_elem?-some : (buf : Bytes) (i : ℕ) → i < length buf → (b : ℕ) × (get_elem? buf i ≡ some b)
get_elem?-some [] i h = absurd (omega arith)
get_elem?-some (x ∷ xs) zero h = (x, refl)
get_elem?-some (x ∷ xs) (suc i) h = get_elem?-some xs i (omega arith)

-- A read inside the buffer succeeds.
pub byte_at-ok : (buf : Bytes) (i : ℕ) → i < length buf → (b : ℕ) × (byte_at buf i ≡ ok b)
unfolding byte_at
byte_at-ok buf i h = let (b, e) = get_elem?-some buf i h in (b, rw e)

pub be16-ok : (buf : Bytes) (i : ℕ) → i + 1 < length buf → (v : ℕ) × (be16 buf i ≡ ok v)
unfolding be16
be16-ok buf i h =
    let (a, e) = byte_at-ok buf i (omega arith) in
    let (b, f) = byte_at-ok buf (i + 1) h in (a * 256 + b, rw (e, f))

pub be32-ok : (buf : Bytes) (i : ℕ) → i + 3 < length buf → (v : ℕ) × (be32 buf i ≡ ok v)
unfolding be32
be32-ok buf i h =
    let (a, e) = be16-ok buf i (omega arith) in
    let (b, f) = be16-ok buf (i + 2) (omega arith) in (a * 65536 + b, rw (e, f))

-- Every element is a byte.
abbrev pub IsBytes : Bytes → Type 0
IsBytes [] = Unit {0}
IsBytes (b ∷ bs) = (b < 256) × IsBytes bs

get_elem?-lt :
    (buf : Bytes) (i b : ℕ) → IsBytes buf → get_elem? buf i ≡ some b → (i < length buf) × (b < 256)
get_elem?-lt [] i b a e = cc
get_elem?-lt (x ∷ xs) zero b a e = let q : x ≡ b = cc in (omega arith, omega (arith, q, a.0))
get_elem?-lt (x ∷ xs) (suc i) b a e = let (h, k) = get_elem?-lt xs i b a.1 e in (omega arith, k)

found-ok : (o : Option ℕ) (b : ℕ) → found o ≡ ok b → o ≡ some b
unfolding found
found-ok none b e = cc
found-ok (some c) b e = cc

get_elem?-inside : (buf : Bytes) (i b : ℕ) → get_elem? buf i ≡ some b → i < length buf
get_elem?-inside [] i b q = cc
get_elem?-inside (x ∷ xs) zero b q = omega arith
get_elem?-inside (x ∷ xs) (suc i) b q = omega (arith, get_elem?-inside xs i b q)

-- A read that succeeds is inside the buffer.
pub byte_at-inside : (buf : Bytes) (i b : ℕ) → byte_at buf i ≡ ok b → i < length buf
unfolding byte_at
byte_at-inside buf i b e = get_elem?-inside buf i b (found-ok (get_elem? buf i) b e)

pub byte_at-lt : (buf : Bytes) (i b : ℕ) → IsBytes buf → byte_at buf i ≡ ok b → b < 256
unfolding byte_at
byte_at-lt buf i b a e = (get_elem?-lt buf i b a (found-ok (get_elem? buf i) b e)).1

be16_bytes :
    (buf : Bytes) (i v : ℕ)
    → be16 buf i ≡ ok v
    → (x : ℕ) × (y : ℕ) × (byte_at buf i ≡ ok x) × (byte_at buf (i + 1) ≡ ok y) × (v ≡ x * 256 + y)
unfolding be16
be16_bytes buf i v e =
    let (x, p, e1) = >>=-eq-ok (byte_at buf i) _ e in
    let (y, q, e2) = >>=-eq-ok (byte_at buf (i + 1)) _ e1 in (x, y, p, q, cc)

-- The first two of the four bytes behind a big-endian word.
pub be32_bytes :
    (buf : Bytes) (i v : ℕ)
    → IsBytes buf
    → be32 buf i ≡ ok v
    → (x : ℕ) × (y : ℕ) × (lo : ℕ) × (byte_at buf i ≡ ok x)
      × (byte_at buf (i + 1) ≡ ok y)
      × (x < 256)
      × (y < 256)
      × (lo < 65536)
      × (v ≡ (x * 256 + y) * 65536 + lo)
unfolding be32
be32_bytes buf i v b e =
    let (hi, p, e1) = >>=-eq-ok (be16 buf i) _ e in
    let (lo, q, e2) = >>=-eq-ok (be16 buf (i + 2)) _ e1 in
    let (x, y, px, py, r) = be16_bytes buf i hi p in
    let (z, w, pz, pw, t) = be16_bytes buf (i + 2) lo q in
    (
      x,
      y,
      lo,
      px,
      py,
      byte_at-lt buf i x b px,
      byte_at-lt buf (i + 1) y b py,
      omega (arith, t, byte_at-lt buf (i + 2) z b pz, byte_at-lt buf (i + 2 + 1) w b pw),
      omega (arith, ok-injective e2, r),
    )
