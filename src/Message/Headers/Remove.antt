-- ===== src/Message/Headers/Remove.antt =====
-- RemoveHeader: the last header is taken off; in front of it the wrong one is lost.
use native.Mathlib.Nat.{zero-add}
use native.Mathlib.Numerals.{add-one}
use z3_engine.Base.{
  none, ℕ, ◌+◌, ◌-◌, ◌<◌, ◌≡◌, refl, ◌∙◌, ap, ne→==, inl, inr, true, false, [], ◌∷◌, ◌++◌, Option,
  some, arith, add_sub_one, ltb, ◌==◌, if◌then◌else◌, Bool-cases, Bytes, update, ok, fault, ◌>>=◌,
}
use z3_engine.Message.Headers.{
  KeyValues, blank, fill_key_value, unset_key_value, add_key_value, added, add_to, place_from,
  remove_at, remove_place, remove_from, z3_rtsp_enotimpl,
}
use z3_engine.Message.Headers.Add.{Inv, entry, listed, listed_from-agree, listed_from-last}

abbrev fewer : KeyValues → ℕ → KeyValues
fewer a i = record a { sum = a.sum - 1; slots = update a.slots i blank }

remove_at_lem : (a : KeyValues) (i : ℕ) → remove_at i a ≡ ok (fewer a i)
unfolding remove_at unset_key_value fill_key_value
remove_at_lem a i = elim (Bool-cases (ltb i (a.sum - 1))) [ inl t ↦ rw t | inr f ↦ rw f ]

remove_from-place :
    (a : KeyValues) (field : ℕ) (index : Option ℕ) (i : ℕ)
    → place_from a.slots 0 a.sum field 0 index ≡ some i
    → remove_from field index a ≡ ok (0, fewer a i)
unfolding remove_from remove_place
remove_from-place a field index i e = rw e (ap (λ m. m >>= λ a'. ok (0, a')) (remove_at_lem a i))

pub remove_from_absent :
    (a : KeyValues) (field : ℕ) (index : Option ℕ)
    → place_from a.slots 0 a.sum field 0 index ≡ none
    → remove_from field index a ≡ ok (z3_rtsp_enotimpl, a)
unfolding remove_from remove_place
remove_from_absent a field index e = rw e

fewer-Inv : (a : KeyValues) (i : ℕ) → Inv a → a.sum ≡ i + 1 → Inv (fewer a i)
fewer-Inv a i v l = record {
  sized = v.sized;
  room = omega (arith, v.room);
  rest_blank = λ j h. elim (Bool-cases (j == i)) [
    | inl t ↦ rw t
    | inr f ↦ rw f (v.rest_blank j (ground (arith, h, f)))
  ];
  valued = λ j h. rw (ne→== j i (omega (arith, h))) (v.valued j (omega (arith, h)));
}

-- `RemoveHeader` that finds its header in the last place of a well-formed array returns Z3_EOK,
-- takes that header off the list of headers and no other, and leaves a well-formed array.
pub remove_from_last :
    (a : KeyValues) (field : ℕ) (index : Option ℕ) (i : ℕ)
    → Inv a
    → place_from a.slots 0 a.sum field 0 index ≡ some i
    → a.sum ≡ i + 1
    → (b : KeyValues) × (remove_from field index a ≡ ok (0, b))
      × Inv b
      × (listed a ≡ listed b ++ (entry (a.slots i) ∷ []))
unfolding listed
remove_from_last a field index i v e l =
    let less : a.sum - 1 ≡ i = omega arith in
    (
      fewer a i,
      remove_from-place a field index i e,
      fewer-Inv a i v l,
      rw (l, add-one i)
          (listed_from-last a.slots 0 i
            ∙ rw (zero-add i) (
                rw (← add-one i) (
                  rw (add_sub_one i) (
                    ap (λ k. k ++ (entry (a.slots i) ∷ []))
                      (listed_from-agree a.slots (update a.slots i blank) 0 i
                        (λ j h. rw (ne→== j i (omega (arith, h))))))))),
    )

stuck_at :
    (a : KeyValues) (i : ℕ)
    → Inv a
    → i + 1 < a.sum
    → (f : ℕ) (w : Bytes) → add_key_value f w (fewer a i) ≡ fault
unfolding add_key_value fill_key_value
stuck_at a i v l f w =
    let (u, e) = v.valued (a.sum - 1) (omega arith) in
    let other : (a.sum - 1 == i) ≡ false = ne→== (a.sum - 1) i (omega arith) in rw other (rw e)

stuck :
    (a : KeyValues) (i : ℕ)
    → Inv a
    → i + 1 < a.sum
    → (f : ℕ) (w : Bytes) → add_to f w (fewer a i) ≡ fault
unfolding add_to added
stuck a i v l f w =
    let below : (a.sum - 1 == a.size) ≡ false = ne→== (a.sum - 1) a.size (omega (arith, v.room)) in
    elim v.sized [
      | inl s ↦
          let first : (a.size == 8) ≡ true = ap (λ n. n == 8) s in
          rw (first, below) (ap added (stuck_at a i v l f w))
      | inr s ↦
          let first : (a.size == 8) ≡ false = ap (λ n. n == 8) s in
          let second : (a.size == 16) ≡ true = ap (λ n. n == 16) s in
          rw (first, second, below) (ap added (stuck_at a i v l f w))
    ]

-- `RemoveHeader` that finds its header in front of the last place of a well-formed array returns
-- Z3_EOK, blanks that entry, keeps the other entries and counts one header less, so the header in
-- the last place is no longer in the array; from then on `AddHeader` fails its `assert` whatever
-- header it is given.
pub remove_from_lost :
    (a : KeyValues) (field : ℕ) (index : Option ℕ) (i : ℕ)
    → Inv a
    → place_from a.slots 0 a.sum field 0 index ≡ some i
    → i + 1 < a.sum
    → (b : KeyValues) × (remove_from field index a ≡ ok (0, b))
      × (b.sum + 1 ≡ a.sum)
      × ((j : ℕ) → j < b.sum → b.slots j ≡ (if j == i then blank else a.slots j))
      × ((f : ℕ) (w : Bytes) → add_to f w b ≡ fault)
remove_from_lost a field index i v e l =
    (fewer a i, remove_from-place a field index i e, omega arith, λ j h. refl, stuck a i v l)
