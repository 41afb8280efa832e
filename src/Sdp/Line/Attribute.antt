-- ===== src/Sdp/Line/Attribute.antt =====
-- The attribute lines of a media section, and GetAttributeValue on what they leave.
use z3_engine.Base.{
  take-all, ℕ, suc, ◌+◌, ◌-◌, ◌≤◌, ◌≡◌, refl, ◌∙◌, ap, Bool, true, false, List, [], ◌∷◌, ◌++◌,
  Option, none, some, ◌==◌, if◌then◌else◌, Bytes, length, Outcome, ok, fault, ◌>>=◌, arith,
  Bool-cases, inl, inr, ne→==,
}
use z3_engine.Sdp.{
  SdpAttribute, SdpMedia, z3_strdup, set_attribute, attribute_from, get_attribute_value,
  media_add_attribute,
}
use z3_engine.Sdp.Line.{
  SdpContext, change_at, on_media, parse_line, parse_attribute, past_one, buffer_size,
}
use z3_engine.Text.Lines.{is_space, read_string_del}
use z3_engine.Text.Lines.Words.{None, whole, read_string_del_word}
use z3_engine.Text.Tables.{same_text}

-- The attributes that have a key, as all have that a line with a key made.
abbrev pub Keyed : List SdpAttribute → Type 0
Keyed [] = Unit {0}
Keyed (a ∷ as') = ((k : Bytes) × (a.key ≡ some k)) × Keyed as'

abbrev key_is : Option Bytes → Bytes → Bool
key_is none key = false
key_is (some k) key = same_text k key

-- How many of them have the key, in any case.
pub matching : Bytes → List SdpAttribute → ℕ
matching key [] = 0
matching key (a ∷ as') = if key_is a.key key then matching key as' + 1 else matching key as'

abbrev one_round :
    List SdpAttribute → SdpAttribute → Bytes → ℕ → Option Bytes → Outcome (Option Bytes)
one_round as' a key nth o = elim o [
  | none ↦ fault
  | some k ↦
      if same_text k key
      then (if nth == 0 then ok a.value else attribute_from as' key (nth - 1))
      else attribute_from as' key nth
]

attribute_from_round :
    (a : SdpAttribute) (as' : List SdpAttribute) (key k : Bytes) (nth : ℕ)
    → a.key ≡ some k
    → attribute_from (a ∷ as') key nth ≡ one_round as' a key nth (some k)
unfolding attribute_from
attribute_from_round a as' key k nth e = ap (one_round as' a key nth) e

matching_round :
    (a : SdpAttribute) (as' : List SdpAttribute) (key k : Bytes)
    → a.key ≡ some k
    → matching key (a ∷ as') ≡ (if same_text k key then matching key as' + 1 else matching key as')
unfolding matching
matching_round a as' key k e =
    ap (λ o. if key_is o key then matching key as' + 1 else matching key as') e

suc_not_zero : (n : ℕ) → (suc n == 0) ≡ false
suc_not_zero n = ne→== (suc n) 0 (λ e. omega (arith, e))

suc_minus_one : (n : ℕ) → suc n - 1 ≡ n
suc_minus_one n = omega arith

-- The loop passes over the attributes in front and counts those that match.
attribute_from-append :
    (as' rest : List SdpAttribute) (key : Bytes) (j : ℕ)
    → Keyed as'
    → attribute_from (as' ++ rest) key (matching key as' + j) ≡ attribute_from rest key j
unfolding matching
attribute_from-append [] rest key j h = ap (attribute_from rest key) (omega arith)
attribute_from-append (a ∷ as') rest key j ((k, e), h) =
    let ih = attribute_from-append as' rest key j h in
    attribute_from_round a (as' ++ rest) key k _ e ∙ (elim (Bool-cases (same_text k key)) [
      | inl t ↦
          let n : matching key (a ∷ as') + j ≡ suc (matching key as' + j) =
            omega (arith, rw t at (matching_round a as' key k e)) in
          rw (t, n, suc_not_zero (matching key as' + j), suc_minus_one (matching key as' + j)) ih
      | inr f ↦
          let n : matching key (a ∷ as') ≡ matching key as' =
            rw f at (matching_round a as' key k e) in
          rw (f, n) ih
    ])

change_at-last :
    (g : SdpMedia → SdpMedia) (ms : List SdpMedia) (m : SdpMedia)
    → change_at (λ x. ok (g x)) (length ms) (ms ++ (m ∷ [])) ≡ ok (ms ++ (g m ∷ []))
unfolding change_at
change_at-last g [] m = refl
change_at-last g (x ∷ ms) m = rw (change_at-last g ms m)

key_read :
    (c : ℕ) (k value : Bytes)
    → is_space c ≡ false
    → None (λ x. x == b':') (c ∷ k)
    → length (c ∷ k) ≤ 1023
    → read_string_del buffer_size b':' ((c ∷ k) ++ (b':' ∷ value)) ≡ whole (c ∷ k) (b':' ∷ value)
key_read c k value s n h =
    read_string_del_word buffer_size b':' c k (b':' ∷ value) (omega arith) (omega arith) s n (refl)
    ∙ ap (λ w. whole w (b':' ∷ value)) (take-all 1023 (c ∷ k) h)

on_last_media :
    (g : SdpMedia → SdpMedia) (ctx : SdpContext) (ms : List SdpMedia) (m : SdpMedia)
    → ctx.media ≡ some (length ms)
    → ctx.msg.medias ≡ ms ++ (m ∷ [])
    → on_media (λ x. ok (g x)) ctx
      ≡ ok (record ctx { msg = record ctx.msg { medias = ms ++ (g m ∷ []) } })
unfolding on_media
on_last_media g ctx ms m p q =
    let done : List SdpMedia → SdpContext =
      λ l. record ctx { msg = record ctx.msg { medias = l } } in
    ap
      (λ o. elim o [
        | none ↦ fault
        | some k ↦ change_at (λ x. ok (g x)) k ctx.msg.medias >>= λ l. ok (done l)
      ])
      p
    ∙ ap (λ l. change_at (λ x. ok (g x)) (length ms) l >>= λ l'. ok (done l')) q
    ∙ ap (λ o. o >>= λ l. ok (done l)) (change_at-last g ms m)

taken : (b : Bool) (x y : Outcome SdpContext) → b ≡ true → (if b then x else y) ≡ x
taken true x y e = refl
taken false x y e = cc

found_added :
    (as' : List SdpAttribute) (c : ℕ) (k value key : Bytes)
    → Keyed as'
    → same_text (c ∷ k) key ≡ true
    → attribute_from (as' ++ (set_attribute (c ∷ k) value ∷ [])) key (matching key as')
      ≡ ok (z3_strdup value)
unfolding set_attribute
found_added as' c k value key h same =
    let a = set_attribute (c ∷ k) value in
    let zero_more : matching key as' ≡ matching key as' + 0 = omega arith in
    ap (attribute_from (as' ++ (a ∷ [])) key) zero_more
    ∙ attribute_from-append as' (a ∷ []) key 0 h
    ∙ attribute_from_round a [] key (c ∷ k) 0 refl
    ∙ rw same

-- `ParseLine` of `a=<key>:<value>`, with a key of 1 to 1023 bytes that has no colon and begins
-- with no whitespace, where `ctx.media` is the last media of the message and its attributes have
-- keys, changes that media only, and `GetAttributeValue` of it then finds the value, NULL if it is
-- empty, under any spelling of the key in capitals or not, as the one behind those that were
-- there.
pub parse_line-attribute :
    (ctx : SdpContext) (ms : List SdpMedia) (m : SdpMedia) (c : ℕ) (k value key : Bytes)
    → ctx.in_media ≡ true
    → ctx.media ≡ some (length ms)
    → ctx.msg.medias ≡ ms ++ (m ∷ [])
    → is_space c ≡ false
    → None (λ x. x == b':') (c ∷ k)
    → length (c ∷ k) ≤ 1023
    → Keyed m.attributes
    → same_text (c ∷ k) key ≡ true
    → (m' : SdpMedia) × (parse_line ctx b'a' ((c ∷ k) ++ (b':' ∷ value))
        ≡ ok (record ctx { msg = record ctx.msg { medias = ms ++ (m' ∷ []) } }))
      × (get_attribute_value m' key (matching key m.attributes) ≡ ok (z3_strdup value))
unfolding parse_line parse_attribute past_one get_attribute_value media_add_attribute
parse_line-attribute ctx ms m c k value key i p q s n h keyed same = (
  media_add_attribute (c ∷ k) value m,
  rw (key_read c k value s n h)
      (taken ctx.in_media _ _ i ∙ on_last_media (media_add_attribute (c ∷ k) value) ctx ms m p q),
  found_added m.attributes c k value key keyed same,
)
