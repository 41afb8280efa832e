-- ===== src/Text/Tables/RoundTrip.antt =====
-- The lookups by name and the texts of the tables are inverse to each other.
use native.Mathlib.Nat.{add-zero, zero-add}
use z3_engine.Base.{
  ℕ, zero, suc, ◌+◌, ◌^◌, ◌≡◌, ◌≢◌, refl, sym, ==→eq, ne→==, add_sub_one, ◌∙◌, ap, inl, inr, Bool,
  true, false, List, [], ◌∷◌, Option, none, some, arith, ◌==◌, if◌then◌else◌, Bytes, Bool-cases,
  get_elem?, Outcome, ok, fault, hangs, ◌-◌,
}
use z3_engine.Text.Tables.{
  same_text, rtsp_methods, rtsp_headers, Header, names, find_name, method_of, field_of,
  rtsp_find_method, rtsp_find_header_field, table_at, rtsp_method_as_text, header_name,
  rtsp_header_as_text, rtsp_invalid, rtsp_header_allow_multiple, header_multiple,
}

-- What a lookup by name has found.
find_name-found :
    (table : List Bytes) (idx : ℕ) (name : Bytes) (k : ℕ)
    → find_name idx table name ≡ some k
    → (i : ℕ) × (text : Bytes) × (k ≡ idx + i)
      × (get_elem? table i ≡ some text)
      × (same_text text name ≡ true)
unfolding find_name
find_name-found [] idx name k e = cc
find_name-found (n ∷ ns) idx name k e = elim (Bool-cases (same_text n name)) [
  | inl t ↦ (0, n, ground arith, refl, t)
  | inr f ↦
      let (i, text, p, q, r) = find_name-found ns (idx + 1) name k (rw f at e) in
      (suc i, text, omega arith, q, r)
]

if_true : (a b : Bool) → (if a then b else false) ≡ true → (a ≡ true) × (b ≡ true)
if_true a b h = ground arith

-- Each name is found at its own place, in any mix of upper and lower case: over the whole table.
abbrev each {ℓ} : {A : Type ℓ} → List A → (ℕ → A → Bool) → ℕ → Bool
each [] p i = true
each (x ∷ xs) p i = if p i x then each xs p (i + 1) else false

each_sound {ℓ} :
    {A : Type ℓ} (xs : List A) (p : ℕ → A → Bool) (i j : ℕ) (x : A)
    → each xs p i ≡ true
    → get_elem? xs j ≡ some x
    → p (i + j) x ≡ true
each_sound [] p i j x h e = cc
each_sound (y ∷ ys) p i zero x h e =
    let q : x ≡ y = cc in rw (add-zero i) (ap (p i) q ∙ (if_true (p i y) _ h).0)
each_sound (y ∷ ys) p i (suc j) x h e =
    ap (λ k. p k x) (omega arith) ∙ each_sound ys p (i + 1) j x (if_true (p i y) _ h).1 e

method_text :
    (i : ℕ) (text : Bytes)
    → get_elem? rtsp_methods i ≡ some text
    → rtsp_method_as_text (2 ^ i) ≡ ok (some text)
unfolding rtsp_method_as_text
method_text zero text e = ap ok e
method_text (suc zero) text e = ap ok e
method_text (suc (suc zero)) text e = ap ok e
method_text (suc (suc (suc zero))) text e = ap ok e
method_text (suc (suc (suc (suc zero)))) text e = ap ok e
method_text (suc (suc (suc (suc (suc zero))))) text e = ap ok e
method_text (suc (suc (suc (suc (suc (suc zero)))))) text e = ap ok e
method_text (suc (suc (suc (suc (suc (suc (suc zero))))))) text e = ap ok e
method_text (suc (suc (suc (suc (suc (suc (suc (suc zero)))))))) text e = ap ok e
method_text (suc (suc (suc (suc (suc (suc (suc (suc (suc zero))))))))) text e = ap ok e
method_text (suc (suc (suc (suc (suc (suc (suc (suc (suc (suc zero)))))))))) text e = ap ok e
method_text (suc (suc (suc (suc (suc (suc (suc (suc (suc (suc (suc zero))))))))))) text e = ap ok e
method_text (suc (suc (suc (suc (suc (suc (suc (suc (suc (suc (suc (suc zero)))))))))))) text e =
    ap ok e
method_text (suc (suc (suc (suc (suc (suc (suc (suc (suc (suc (suc (suc (suc i))))))))))))) text e =
    cc

-- A method other than RTSP_INVALID that is found by a name has a text, which is the name in some
-- mix of cases.
pub method-find :
    (name : Bytes) (m : ℕ)
    → rtsp_find_method name ≡ m
    → m ≢ rtsp_invalid
    → (text : Bytes) × (rtsp_method_as_text m ≡ ok (some text)) × (same_text text name ≡ true)
unfolding rtsp_find_method
method-find name m e ne = go (find_name 0 rtsp_methods name) refl
  where
    go :
        (o : Option ℕ)
        → find_name 0 rtsp_methods name ≡ o
        → (text : Bytes) × (rtsp_method_as_text m ≡ ok (some text)) × (same_text text name ≡ true)
    go none q = absurd (ne (sym e ∙ ap method_of q))
    go (some k) q =
        let (i, text, p, t, r) = find_name-found rtsp_methods 0 name k q in
        (text, rw (← e, q, method_of) (rw (p ∙ zero-add i) (method_text i text t)), r)

-- The name at place `i` of the table of methods is the text of the method 2^`i`, and is found
-- again as that method.
pub find_method-text :
    (i : ℕ) (text : Bytes)
    → get_elem? rtsp_methods i ≡ some text
    → (rtsp_method_as_text (2 ^ i) ≡ ok (some text)) × (rtsp_find_method text ≡ 2 ^ i)
unfolding rtsp_find_method
find_method-text i text e = (
  method_text i text e,
  ==→eq _ _ (
      ap (λ k. rtsp_find_method text == 2 ^ k) (sym (zero-add i))
      ∙ each_sound rtsp_methods (λ k t. rtsp_find_method t == 2 ^ k) 0 i text refl e),
)

table_at-get :
    {A : Type 0} (xs : List A) (i : ℕ) (x : A)
    → get_elem? xs i ≡ some x
    → table_at xs i ≡ ok (some x)
unfolding table_at
table_at-get [] i x e = cc
table_at-get (y ∷ ys) zero x e = ap ok e
table_at-get (y ∷ ys) (suc i) x e = table_at-get ys i x e

names-get :
    (hs : List Header) (i : ℕ) (text : Bytes)
    → get_elem? (names hs) i ≡ some text
    → (h : Header) × (get_elem? hs i ≡ some h) × (h.name ≡ text)
names-get [] i text e = cc
names-get (h ∷ hs) zero text e = (h, refl, cc)
names-get (h ∷ hs) (suc i) text e = names-get hs i text e

header_text :
    (i : ℕ) (text : Bytes)
    → get_elem? (names rtsp_headers) i ≡ some text
    → rtsp_header_as_text (i + 1) ≡ ok (some text)
unfolding rtsp_header_as_text
header_text i text e =
    let (h, q, r) = names-get rtsp_headers i text e in
    rw (ne→== (i + 1) 0 (omega arith), add_sub_one i)
      (rw (table_at-get rtsp_headers i h q, header_name) (ap (λ n. ok (some n)) r))

-- A header field that is found by a name has a text, which is the name in some mix of cases.
pub header-find :
    (name : Bytes) (f : ℕ)
    → rtsp_find_header_field name ≡ f
    → f ≢ 0
    → (text : Bytes) × (rtsp_header_as_text f ≡ ok (some text)) × (same_text text name ≡ true)
unfolding rtsp_find_header_field
header-find name f e ne = go (find_name 0 (names rtsp_headers) name) refl
  where
    go :
        (o : Option ℕ)
        → find_name 0 (names rtsp_headers) name ≡ o
        → (text : Bytes) × (rtsp_header_as_text f ≡ ok (some text)) × (same_text text name ≡ true)
    go none q = absurd (ne (sym e ∙ ap field_of q))
    go (some k) q =
        let (i, text, p, t, r) = find_name-found (names rtsp_headers) 0 name k q in
        (text, rw (← e, q, field_of) (rw (p ∙ zero-add i) (header_text i text t)), r)

-- The name at place `i` of the table of header fields is the text of field `i` + 1, and is found
-- again as that field.
pub find_header-text :
    (i : ℕ) (text : Bytes)
    → get_elem? (names rtsp_headers) i ≡ some text
    → (rtsp_header_as_text (i + 1) ≡ ok (some text)) × (rtsp_find_header_field text ≡ i + 1)
unfolding rtsp_find_header_field
find_header-text i text e = (
  header_text i text e,
  ==→eq _ _ (
      ap (λ k. rtsp_find_header_field text == k + 1) (sym (zero-add i))
      ∙ each_sound (names rtsp_headers) (λ k t. rtsp_find_header_field t == k + 1) 0 i text refl e),
)

multiple_of :
    (o : Outcome (Option Header)) (text : Bytes)
    → header_name o ≡ ok (some text)
    → (b : Bool) × (header_multiple o ≡ ok b)
unfolding header_name header_multiple
multiple_of (ok none) text e = (false, refl)
multiple_of (ok (some h)) text e = (h.multiple, refl)
multiple_of fault text e = cc
multiple_of hangs text e = cc

-- The table says of every field that is found whether it may stand in a message more than once.
pub header-allow_multiple :
    (name : Bytes) (f : ℕ)
    → rtsp_find_header_field name ≡ f
    → f ≢ 0
    → (b : Bool) × (rtsp_header_allow_multiple f ≡ ok b)
unfolding rtsp_header_allow_multiple rtsp_header_as_text
header-allow_multiple name f e n =
    let (text, t, _) = header-find name f e n in
    let some_field : (f == 0) ≡ false = ne→== f 0 n in
    rw some_field (multiple_of (table_at rtsp_headers (f - 1)) text (rw some_field at t))
