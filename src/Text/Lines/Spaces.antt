-- ===== src/Text/Lines/Spaces.antt =====
-- TrimRightSpace, strchomp and NormalizeLine: what they keep and what they leave no trace of.
use mathlib.Core.List.{reverse-append, reverse-reverse, reverse-cons}
use mathlib.Core.Bool.{false≢true}
use z3_engine.Base.{
  ℕ, ◌+◌, ◌≡◌, refl, sym, ◌∙◌, ap, inl, inr, true, false, [], ◌∷◌, ◌++◌, reverse, arith,
  if◌then◌else◌, Bool, Bool-cases, ◌==◌, Bytes, length, some,
}
use z3_engine.Text.Lines.{
  is_space, skip_while, trim_right_space, strchomp, drop_last_while, normalize_from, normalize_line,
}
use z3_engine.Text.Lines.Words.{All}

abbrev pub HeadNot : (ℕ → Bool) → Bytes → Type 0
HeadNot p [] = Unit {0}
HeadNot p (c ∷ cs) = p c ≡ false

-- The string is empty or its last byte fails the test.
abbrev pub LastNot : (ℕ → Bool) → Bytes → Type 0
LastNot p l = HeadNot p (reverse l)

All-append : (p : ℕ → Bool) (xs ys : Bytes) → All p xs → All p ys → All p (xs ++ ys)
All-append p [] ys a b = b
All-append p (x ∷ xs) ys a b = (a.0, All-append p xs ys a.1 b)

All-reverse : (p : ℕ → Bool) (xs : Bytes) → All p xs → All p (reverse xs)
All-reverse p [] a = tt
All-reverse p (x ∷ xs) a =
    rw (reverse-cons x xs) (All-append p (reverse xs) (x ∷ []) (All-reverse p xs a.1) (a.0, tt))

-- `line` is `kept` with a tail of bytes that pass, and `kept` does not end in one.
pub record Trims (p : ℕ → Bool) (line kept : Bytes) : Type 0 where
  pub tail : Bytes
  pub splits : line ≡ kept ++ tail
  pub dropped : All p tail
  pub last_not : LastNot p kept

skip_while-splits :
    (p : ℕ → Bool) (l : Bytes)
    → (front : Bytes) × (l ≡ front ++ skip_while p l) × All p front × HeadNot p (skip_while p l)
unfolding skip_while
skip_while-splits p [] = ([], refl, tt, tt)
skip_while-splits p (c ∷ cs) = elim (Bool-cases (p c)) [
  | inl t ↦
      let (front, e, a, h) = skip_while-splits p cs in
      (c ∷ front, rw t (ap (◌∷◌ c) e), (t, a), rw t h)
  | inr f ↦ ([], rw f, tt, rw f f)
]

drop_last_while-Trims : (p : ℕ → Bool) (l : Bytes) → Trims p l (drop_last_while p l)
drop_last_while-Trims p l =
    let (front, e, a, h) = skip_while-splits p (reverse l) in
    record {
      tail = reverse front;
      splits =
          sym (reverse-reverse l) ∙ ap reverse e ∙ reverse-append front (skip_while p (reverse l));
      dropped = All-reverse p front a;
      last_not = rw (reverse-reverse (skip_while p (reverse l))) h;
    }

-- `TrimRightSpace` cuts off a tail of spaces, and what it leaves does not end in a space.
pub trim_right_space-Trims : (line : Bytes) → Trims (λ c. c == b' ') line (trim_right_space line)
unfolding trim_right_space
trim_right_space-Trims line = drop_last_while-Trims (λ c. c == b' ') line

-- `strchomp` cuts off a tail of whitespace, and what it leaves does not end in whitespace.
pub strchomp-Trims :
    (str : Bytes) → (kept : Bytes) × (strchomp (some str) ≡ some kept) × Trims is_space str kept
unfolding strchomp
strchomp-Trims str = (drop_last_while is_space str, refl, drop_last_while-Trims is_space str)

-- Each whitespace byte is a space, and none follows another. The flag tells whether the byte before
-- was one.
abbrev pub IsNormal : Bool → Bytes → Type 0
IsNormal after [] = Unit {0}
IsNormal after (c ∷ cs) =
    (is_space c ≡ true → (c ≡ b' ') × (after ≡ false)) × IsNormal (is_space c) cs

-- The bytes that are not whitespace.
abbrev pub visible : Bytes → Bytes
visible [] = []
visible (c ∷ cs) = if is_space c then visible cs else c ∷ visible cs

pub record Normalizes (after : Bool) (line : Bytes) (r : ℕ × Bytes) : Type 0 where
  pub normal : IsNormal after r.1
  pub same_visible : visible r.1 ≡ visible line
  pub counted : r.0 + length r.1 ≡ length line

normalize_step :
    (b after : Bool) (c : ℕ) (cs : Bytes)
    → is_space c ≡ b
    → Normalizes b cs (normalize_from b cs)
    → Normalizes after (c ∷ cs) (normalize_from after (c ∷ cs))
unfolding normalize_from is_space
normalize_step true true c cs e n = rw e (record {
  normal = n.normal;
  same_visible = rw e n.same_visible;
  counted = omega (arith, n.counted);
})
normalize_step true false c cs e n = rw e (record {
  normal = ((λ _. (refl, refl)), n.normal);
  same_visible = rw e n.same_visible;
  counted = omega (arith, n.counted);
})
normalize_step false after c cs e n = rw e (record {
  normal = ((λ t. absurd (false≢true (sym e ∙ t))), rw e n.normal);
  same_visible = rw e (ap (◌∷◌ c) n.same_visible);
  counted = omega (arith, n.counted);
})

normalize_from-Normalizes : (after : Bool) (l : Bytes) → Normalizes after l (normalize_from after l)
unfolding normalize_from
normalize_from-Normalizes after [] = record {
  normal = tt;
  same_visible = refl;
  counted = omega arith;
}
normalize_from-Normalizes after (c ∷ cs) =
    normalize_step (is_space c) after c cs refl (normalize_from-Normalizes (is_space c) cs)

-- `NormalizeLine` leaves a line in which whitespace is only single spaces, keeps all other bytes
-- in their order, and returns how many bytes it dropped.
pub normalize_line-Normalizes : (line : Bytes) → Normalizes false line (normalize_line line)
unfolding normalize_line
normalize_line-Normalizes line = normalize_from-Normalizes false line

normalize_from_normal :
    (after : Bool) (l : Bytes) → IsNormal after l → normalize_from after l ≡ (0, l)
unfolding normalize_from
normalize_from_normal after [] n = refl
normalize_from_normal after (c ∷ cs) n =
    let ih = normalize_from_normal (is_space c) cs n.1 in
    elim (Bool-cases (is_space c)) [
      | inl t ↦ rw (ih, t, (n.0 t).1) (ap (λ x. (0, x ∷ cs)) (sym (n.0 t).0))
      | inr f ↦ rw (ih, f)
    ]

-- `NormalizeLine` leaves a line that it has normalized as it is and drops nothing of it.
pub normalize_line_twice :
    (line : Bytes) → normalize_line (normalize_line line).1 ≡ (0, (normalize_line line).1)
unfolding normalize_line
normalize_line_twice line =
    normalize_from_normal false _ (normalize_from-Normalizes false line).normal
