-- ===== src/Message/Headers/Get.antt =====
-- GetHeader: the search through the entries, against a search through the list of headers.
use native.Mathlib.Nat.{zero-add}
use z3_engine.Base.{
  ℕ, ◌⊎◌, zero, suc, ◌+◌, ◌<◌, ◌≡◌, refl, sym, ◌∙◌, ap, ne→==, eq→==, inl, inr, true, false, List,
  [], ◌∷◌, Option, none, some, arith, ◌==◌, if◌then◌else◌, Bool-cases, Bytes,
}
use z3_engine.Message.Headers.{KeyValue, KeyValues, get_from, get_header_in, shown}
use z3_engine.Message.Headers.Add.{Inv, HeaderLine, listed_from, listed}

-- The value of the header of the field that has `index` of the same field before it.
unfoldable pub nth_of : List HeaderLine → ℕ → ℕ → Option (Option Bytes)
nth_of [] field index = none
nth_of ((f, v) ∷ l) field zero = if f == field then some (some v) else nth_of l field 0
nth_of ((f, v) ∷ l) field (suc index) =
    if f == field then nth_of l field index else nth_of l field (suc index)

get_from-nth :
    (s : ℕ → KeyValue) (i n field cnt d : ℕ)
    → ((j : ℕ) → j < i + n → (v : Bytes) × ((s j).value ≡ some v))
    → shown (get_from s i n field cnt (cnt + d)) ≡ nth_of (listed_from s i n) field d
unfolding get_from nth_of listed_from
get_from-nth s i zero field cnt d h = refl
get_from-nth s i (suc n) field cnt zero h = elim (Bool-cases ((s i).field == field)) [
  | inl t ↦
      let (v, e) = h i (omega arith) in
      let now : (cnt == cnt + 0) ≡ true = eq→== cnt (cnt + 0) (omega arith) in rw (t, now) (rw e)
  | inr f ↦ rw f (get_from-nth s (i + 1) n field cnt 0 (λ j k. h j (omega (arith, k))))
]
get_from-nth s i (suc n) field cnt (suc d) h = elim (Bool-cases ((s i).field == field)) [
  | inl t ↦
      let later : (cnt == cnt + suc d) ≡ false = ne→== cnt (cnt + suc d) (omega arith) in
      let next : cnt + suc d ≡ (cnt + 1) + d = omega arith in
      rw (t, later)
        (rw next (get_from-nth s (i + 1) n field (cnt + 1) d (λ j k. h j (omega (arith, k)))))
  | inr f ↦ rw f (get_from-nth s (i + 1) n field cnt (suc d) (λ j k. h j (omega (arith, k))))
]

-- `GetHeader` over a well-formed array gives the value of the header of the field that has `index`
-- headers of the same field before it, as a search through the list of headers finds it, and
-- Z3_RTSP_ENOTIMPL where there is none.
pub get_header_in-nth :
    (a : KeyValues) (field index : ℕ)
    → Inv a
    → get_header_in (some a) field index ≡ nth_of (listed a) field index
unfolding get_header_in listed
get_header_in-nth a field index v =
    ap (λ k. shown (get_from a.slots 0 a.sum field 0 k)) (sym (zero-add index))
    ∙ get_from-nth a.slots 0 a.sum field 0 index (λ j k. v.valued j (omega (arith, k)))

-- A header that is found has a value.
pub nth_of-value :
    (l : List HeaderLine) (field index : ℕ)
    → (nth_of l field index ≡ none) ⊎ ((v : Bytes) × (nth_of l field index ≡ some (some v)))
unfolding nth_of
nth_of-value [] field index = inl refl
nth_of-value ((f, v) ∷ l) field zero = elim (Bool-cases (f == field)) [
  | inl t ↦ inr (v, rw t)
  | inr e ↦ rw e (nth_of-value l field 0)
]
nth_of-value ((f, v) ∷ l) field (suc index) = elim (Bool-cases (f == field)) [
  | inl t ↦ rw t (nth_of-value l field index)
  | inr e ↦ rw e (nth_of-value l field (suc index))
]
