-- ===== src/Text/Lines/Words.antt =====
-- ParseString, read_string and read_string_del on a word between whitespace.
use z3_engine.Base.{
  ℕ, zero, suc, ◌+◌, ◌%◌, ◌-◌, ◌<◌, ◌≡◌, refl, ◌∙◌, ap, true, false, [], ◌∷◌, ◌++◌, leb, le→leb,
  arith, if◌then◌else◌, Bytes, length, take, drop, Bool, ◌==◌,
}
use z3_engine.Text.Lines.{
  is_space, skip_while, Word, copy_word, parse_string, read_until, read_string, read_string_del,
}

-- All bytes pass the test, or all fail it; and a rest that is empty or begins with one that passes.
abbrev pub All : (ℕ → Bool) → Bytes → Type 0
All p [] = Unit {0}
All p (c ∷ cs) = (p c ≡ true) × All p cs

abbrev pub None : (ℕ → Bool) → Bytes → Type 0
None p [] = Unit {0}
None p (c ∷ cs) = (p c ≡ false) × None p cs

abbrev pub Starts : (ℕ → Bool) → Bytes → Type 0
Starts p [] = Unit {0}
Starts p (c ∷ cs) = p c ≡ true

pub skip_while-All :
    (p : ℕ → Bool) (front rest : Bytes) (c : ℕ)
    → All p front
    → p c ≡ false
    → skip_while p (front ++ (c ∷ rest)) ≡ c ∷ rest
unfolding skip_while
skip_while-All p [] rest c a e = rw e
skip_while-All p (x ∷ front) rest c a e = rw a.0 (skip_while-All p front rest c a.1 e)

abbrev pub cut : ℕ → Bytes → Bytes → Word
cut room word rest = record {
  too_long = true;
  word = take room word;
  rest = drop room word ++ rest;
}

abbrev pub whole : Bytes → Bytes → Word
whole word rest = record { too_long = false; word = word; rest = rest }

copy_word_stop :
    (room : ℕ) (rest : Bytes) → Starts is_space rest → copy_word room rest ≡ whole [] rest
unfolding copy_word
copy_word_stop room [] h = refl
copy_word_stop zero (c ∷ cs) h = rw h
copy_word_stop (suc room) (c ∷ cs) h = rw h

copy_word_lem :
    (room : ℕ) (word rest : Bytes)
    → None is_space word
    → Starts is_space rest
    → copy_word room (word ++ rest)
      ≡ (if leb (length word) room then whole word rest else cut room word rest)
unfolding copy_word
copy_word_lem zero [] rest n h = copy_word_stop zero rest h
copy_word_lem (suc room) [] rest n h =
    rw (le→leb 0 (suc room) (omega arith)) (copy_word_stop (suc room) rest h)
copy_word_lem zero (c ∷ cs) rest n h = rw n.0 (ground arith)
copy_word_lem (suc room) (c ∷ cs) rest n h =
    rw n.0 (ground (arith, copy_word_lem room cs rest n.1 h))

-- `ParseString` over whitespace, then a word, then the end or whitespace: it returns the word with
-- the cursor behind it if a buffer of `size` bytes holds the word and a NUL; otherwise it reports
-- an error, having copied the first `size` - 1 bytes of the word, with the cursor at the byte
-- after them.
pub parse_string_word :
    (size : ℕ) (spaces : Bytes) (c : ℕ) (word rest : Bytes)
    → All is_space spaces
    → None is_space (c ∷ word)
    → Starts is_space rest
    → parse_string size (spaces ++ ((c ∷ word) ++ rest)) ≡ (
        if leb (length (c ∷ word)) (size - 1)
        then whole (c ∷ word) rest
        else cut (size - 1) (c ∷ word) rest)
unfolding parse_string
parse_string_word size spaces c word rest a n h =
    ap (copy_word (size - 1)) (skip_while-All is_space spaces (word ++ rest) c a n.0)
    ∙ copy_word_lem (size - 1) (c ∷ word) rest n h

read_until_stop :
    (p : ℕ → Bool) (room : ℕ) (rest : Bytes)
    → Starts p rest
    → read_until p room rest ≡ whole [] rest
unfolding read_until
read_until_stop p room [] h = refl
read_until_stop p zero (c ∷ cs) h = rw h
read_until_stop p (suc room) (c ∷ cs) h = rw h

read_until_lem :
    (p : ℕ → Bool) (room : ℕ) (word rest : Bytes)
    → None p word
    → Starts p rest
    → read_until p room (word ++ rest) ≡ whole (take room word) rest
unfolding read_until
read_until_lem p zero [] rest n h = read_until_stop p zero rest h
read_until_lem p (suc room) [] rest n h = read_until_stop p (suc room) rest h
read_until_lem p zero (c ∷ cs) rest n h = rw n.0 (read_until_lem p zero cs rest n.1 h)
read_until_lem p (suc room) (c ∷ cs) rest n h = rw (n.0, read_until_lem p room cs rest n.1 h)

-- `read_string` with a buffer of at least one byte, over whitespace, then a word, then the end or
-- whitespace, passes over the whole word and keeps as much of it as fits beside a NUL.
pub read_string_word :
    (size : ℕ) (spaces : Bytes) (c : ℕ) (word rest : Bytes)
    → 0 < size
    → size < 4294967296
    → All is_space spaces
    → None is_space (c ∷ word)
    → Starts is_space rest
    → read_string size (spaces ++ ((c ∷ word) ++ rest)) ≡ whole (take (size - 1) (c ∷ word)) rest
unfolding read_string
read_string_word size spaces c word rest lo hi a n h =
    ap (read_until is_space _) (skip_while-All is_space spaces (word ++ rest) c a n.0)
    ∙ read_until_lem is_space _ (c ∷ word) rest n h
    ∙ ap (λ k. whole (take k (c ∷ word)) rest) (omega arith)

-- `read_string_del` with such a buffer, over a word that does not begin with whitespace, then the
-- end or the delimiter.
pub read_string_del_word :
    (size del c : ℕ) (word rest : Bytes)
    → 0 < size
    → size < 4294967296
    → is_space c ≡ false
    → None (λ x. x == del) (c ∷ word)
    → Starts (λ x. x == del) rest
    → read_string_del size del ((c ∷ word) ++ rest) ≡ whole (take (size - 1) (c ∷ word)) rest
unfolding read_string_del
read_string_del_word size del c word rest lo hi s n h =
    let p : ℕ → Bool = λ x. x == del in
    ap (read_until p _) (skip_while-All is_space [] (word ++ rest) c tt s)
    ∙ read_until_lem p _ (c ∷ word) rest n h
    ∙ ap (λ k. whole (take k (c ∷ word)) rest) (omega arith)

-- At the end of the text there is no word.
pub read_string_end : (size : ℕ) → read_string size [] ≡ whole [] []
unfolding read_string
read_string_end size = read_until_stop is_space ((size + 4294967295) % 4294967296) [] tt
