-- ===== src/Text/Version/Split.antt =====
-- strchr and strrchr for a byte, in a text whose byte is written out.
use mathlib.Core.List.{append_assoc, reverse-append, reverse_aux}
use z3_engine.Base.{
  ℕ, ◌≡◌, refl, ◌∙◌, ap, Bool, [], ◌∷◌, ◌++◌, reverse, none, some, ◌==◌, ==-self, Bytes,
}
use z3_engine.Text.Lines.Words.{None}
use z3_engine.Text.Version.{split_at}

abbrev pub is_byte : ℕ → ℕ → Bool
is_byte sep c = c == sep

pub split_at-first :
    (sep : ℕ) (front rest : Bytes)
    → None (is_byte sep) front
    → split_at sep (front ++ (sep ∷ rest)) ≡ some (front, rest)
unfolding split_at
split_at-first sep [] rest n = rw (==-self sep)
split_at-first sep (c ∷ front) rest n = rw (n.0, split_at-first sep front rest n.1)

pub split_at-none : (sep : ℕ) (text : Bytes) → None (is_byte sep) text → split_at sep text ≡ none
unfolding split_at
split_at-none sep [] n = refl
split_at-none sep (c ∷ text) n = rw (n.0, split_at-none sep text n.1)

None-reverse_aux :
    (p : ℕ → Bool) (text rest : Bytes) → None p text → None p rest → None p (reverse_aux text rest)
None-reverse_aux p [] rest n m = m
None-reverse_aux p (c ∷ text) rest n m = None-reverse_aux p text (c ∷ rest) n.1 (n.0, m)

pub None-reverse : (p : ℕ → Bool) (text : Bytes) → None p text → None p (reverse text)
None-reverse p text n = None-reverse_aux p text [] n tt

pub reverse-apart :
    (sep : ℕ) (front behind : Bytes)
    → reverse (front ++ (sep ∷ behind)) ≡ reverse behind ++ (sep ∷ reverse front)
reverse-apart sep front behind =
    reverse-append front (sep ∷ behind)
    ∙ ap (λ l. l ++ reverse front) (reverse-append (sep ∷ []) behind)
    ∙ append_assoc (reverse behind) (sep ∷ []) (reverse front)
