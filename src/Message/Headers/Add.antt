-- ===== src/Message/Headers/Add.antt =====
-- AddHeader and GetHeader: the array as the list of the headers that were added.
use native.Mathlib.Nat.{zero-add, le_refl}
use native.Mathlib.Numerals.{add-one}
use z3_engine.Base.{
  ℕ, zero, suc, ◌+◌, ◌≤◌, ◌<◌, ◌≡◌, refl, ◌∙◌, ap, ap₂, ge→ltb, ne→==, ==→eq, ==-self, ◌>>=◌, ◌⊎◌,
  inl, inr, true, false, List, [], ◌∷◌, ◌++◌, some, arith, leb, ◌==◌, Bool-cases, Bytes, length,
  update, Outcome, ok, lt→ltb,
}
use z3_engine.Message.Headers.{
  KeyValue, KeyValues, blank, fill_key_value, copy_of, bytes_of, copied, take_key_values_to_larger,
  add_key_value, added, grow_and_add, add_to, new_key_values,
}

-- The well-formed arrays: what is not in use is blank, and what is in use has a value.
pub record Inv (a : KeyValues) : Type 0 where
  pub sized : (a.size ≡ 8) ⊎ (a.size ≡ 16)
  pub room : a.sum ≤ a.size
  pub rest_blank : (i : ℕ) → a.sum ≤ i → a.slots i ≡ blank
  pub valued : (i : ℕ) → i < a.sum → (v : Bytes) × ((a.slots i).value ≡ some v)

pub new_key_values-Inv : Inv new_key_values
unfolding new_key_values
new_key_values-Inv = record {
  sized = inl refl;
  room = omega arith;
  rest_blank = λ i h. refl;
  valued = λ i h. absurd (omega arith);
}

-- The headers in order, as field and value.
abbrev pub HeaderLine : Type 0
HeaderLine = ℕ × Bytes

abbrev pub entry : KeyValue → HeaderLine
entry k = (k.field, bytes_of k.value)

unfoldable pub listed_from : (ℕ → KeyValue) → ℕ → ℕ → List HeaderLine
listed_from slots i zero = []
listed_from slots i (suc n) = entry (slots i) ∷ listed_from slots (i + 1) n

unfoldable pub listed : KeyValues → List HeaderLine
unfolding listed_from
listed a = listed_from a.slots 0 a.sum

length-listed_from : (s : ℕ → KeyValue) (i n : ℕ) → length (listed_from s i n) ≡ n
unfolding listed_from
length-listed_from s i zero = refl
length-listed_from s i (suc n) = omega (arith, length-listed_from s (i + 1) n)

pub length-listed : (a : KeyValues) → length (listed a) ≡ a.sum
unfolding listed
length-listed a = length-listed_from a.slots 0 a.sum

pub listed_from-agree :
    (s t : ℕ → KeyValue) (i n : ℕ)
    → ((j : ℕ) → j < i + n → entry (s j) ≡ entry (t j))
    → listed_from s i n ≡ listed_from t i n
unfolding listed_from
listed_from-agree s t i zero h = refl
listed_from-agree s t i (suc n) h =
    ap₂ ◌∷◌ (h i (omega arith)) (listed_from-agree s t (i + 1) n (λ j k. h j (omega arith)))

pub listed_from-last :
    (s : ℕ → KeyValue) (i n : ℕ)
    → listed_from s i (suc n) ≡ listed_from s i n ++ (entry (s (i + n)) ∷ [])
unfolding listed_from
listed_from-last s i zero = ap (λ k. entry (s k) ∷ []) (omega arith)
listed_from-last s i (suc n) = ap (◌∷◌ (entry (s i))) (
    listed_from-last s (i + 1) n
    ∙ ap (λ k. listed_from s (i + 1) n ++ (entry (s k) ∷ [])) (omega arith))

abbrev grown : KeyValues → KeyValues
grown a = record a { size = 16; slots = copied a }

grown-Inv : (a : KeyValues) → Inv a → Inv (grown a)
unfolding copied copy_of
grown-Inv a v = record {
  sized = inr refl;
  room = ground (arith, v.sized, v.room);
  rest_blank = λ i h. rw (ge→ltb i a.sum h);
  valued = λ i h. (bytes_of (a.slots i).value, rw (lt→ltb i a.sum h));
}

grown-listed : (a : KeyValues) → Inv a → listed (grown a) ≡ listed a
unfolding listed copied copy_of
grown-listed a v =
    listed_from-agree (copied a) a.slots 0 a.sum (λ j h. rw (lt→ltb j a.sum (omega (arith, h))))

abbrev filled : ℕ → Bytes → KeyValue
filled field value = record { field = field; len = length value; value = some value }

abbrev appended : ℕ → Bytes → KeyValues → KeyValues
appended field value a = record a {
  sum = a.sum + 1;
  slots = update a.slots a.sum (filled field value);
}

add_key_value_lem :
    (field : ℕ) (value : Bytes) (a : KeyValues)
    → Inv a
    → add_key_value field value a ≡ ok (appended field value a)
unfolding add_key_value fill_key_value
add_key_value_lem field value a v =
    ap
      (λ k. fill_key_value k field value >>= λ k'.
        ok (record a { sum = a.sum + 1; slots = update a.slots a.sum k' }))
      (v.rest_blank a.sum (le_refl a.sum))

appended-Inv :
    (field : ℕ) (value : Bytes) (a : KeyValues)
    → Inv a
    → a.sum < a.size
    → Inv (appended field value a)
appended-Inv field value a v h = record {
  sized = v.sized;
  room = omega arith;
  rest_blank = λ i k. rw (ne→== i a.sum (omega (arith, k))) (v.rest_blank i (omega (arith, k)));
  valued = λ i k. elim (Bool-cases (i == a.sum)) [
    | inl t ↦ (value, rw t)
    | inr f ↦ let (w, e) = v.valued i (ground (arith, k)) in (w, rw f e)
  ];
}

appended-listed :
    (field : ℕ) (value : Bytes) (a : KeyValues)
    → listed (appended field value a) ≡ listed a ++ ((field, value) ∷ [])
unfolding listed
appended-listed field value a =
    let s = update a.slots a.sum (filled field value) in
    let there : s (0 + a.sum) ≡ filled field value = rw (zero-add a.sum) (rw (==-self a.sum)) in
    let before : listed_from s 0 a.sum ≡ listed_from a.slots 0 a.sum =
      listed_from-agree s a.slots 0 a.sum (λ j h. rw (ne→== j a.sum (omega (arith, h)))) in
    rw (add-one a.sum) (
      listed_from-last s 0 a.sum
      ∙ ap (λ k. listed_from s 0 a.sum ++ (entry k ∷ [])) there
      ∙ ap (λ l. l ++ ((field, value) ∷ [])) before)

abbrev pub Adds : ℕ → Bytes → KeyValues → Outcome (ℕ × KeyValues) → Type 0
Adds field value a m =
    (b : KeyValues) × (m ≡ ok (0, b)) × Inv b × (listed b ≡ listed a ++ ((field, value) ∷ []))

add_key_value-Adds :
    (field : ℕ) (value : Bytes) (a : KeyValues)
    → Inv a
    → a.sum < a.size
    → Adds field value a (added (add_key_value field value a))
unfolding added
add_key_value-Adds field value a v h = (
  appended field value a,
  ap added (add_key_value_lem field value a v),
  appended-Inv field value a v h,
  appended-listed field value a,
)

grow_and_add-Adds :
    (field : ℕ) (value : Bytes) (a : KeyValues)
    → Inv a
    → a.size ≡ 8
    → a.sum ≡ 8
    → Adds field value a (grow_and_add (take_key_values_to_larger 16 a) field value)
unfolding grow_and_add take_key_values_to_larger
grow_and_add-Adds field value a v s h =
    let (b, e, i, l) =
      add_key_value-Adds field value (grown a) (grown-Inv a v) (omega (arith, h)) in
    let larger : leb 16 a.size ≡ false = ap (leb 16) s in
    (b, rw larger e, i, l ∙ ap (λ k. k ++ ((field, value) ∷ [])) (grown-listed a v))

-- `AddHeader` over a well-formed array of fewer than 16 headers returns Z3_EOK and puts the new
-- header behind the others, in an array of 8 or 16 entries that is well formed again; over one of
-- 16 it returns Z3_ERROR and changes nothing.
pub add_to-listed :
    (field : ℕ) (value : Bytes) (a : KeyValues)
    → Inv a
    → ((a.sum < 16) × Adds field value a (add_to field value a))
      ⊎ ((a.sum ≡ 16) × (add_to field value a ≡ ok (0x399B6001, a)))
unfolding add_to
add_to-listed field value a v = elim v.sized [
  | inl s ↦
      let first : (a.size == 8) ≡ true = ap (λ n. n == 8) s in
      elim (Bool-cases (a.sum == a.size)) [
        | inl t ↦
            let h : a.sum ≡ 8 = ==→eq a.sum a.size t ∙ s in
            inl (omega (arith, h), rw (first, t) (grow_and_add-Adds field value a v s h))
        | inr f ↦
            let h : a.sum < a.size = ground (arith, f, v.room) in
            inl (omega (arith, h, s), rw (first, f) (add_key_value-Adds field value a v h))
      ]
  | inr s ↦
      let first : (a.size == 8) ≡ false = ap (λ n. n == 8) s in
      let second : (a.size == 16) ≡ true = ap (λ n. n == 16) s in
      elim (Bool-cases (a.sum == a.size)) [
        | inl t ↦ inr (==→eq a.sum a.size t ∙ s, rw (first, second, t))
        | inr f ↦
            let h : a.sum < a.size = ground (arith, f, v.room) in
            inl (omega (arith, h, s), rw (first, second, f) (add_key_value-Adds field value a v h))
      ]
]
