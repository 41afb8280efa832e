-- ===== src/Text/Lines.antt =====
-- The string routines of z3_rtsp_client/z3_rtsp_def.cpp. A string is its bytes before the NUL; a
-- cursor `char **` is the string that is left.
pub mod Lengths
pub mod Spaces
pub mod Words
use z3_engine.Base.{
  ℕ, zero, suc, ◌+◌, ◌-◌, ◌%◌, Bool, true, false, ◌&&◌, ◌||◌, not, Option, none, some, [], ◌∷◌,
  ◌++◌, reverse, leb, ltb, ◌==◌, if◌then◌else◌, Bytes,
}

-- isspace of the C locale.
unfoldable pub is_space : ℕ → Bool
is_space c = c == 32 || (leb 9 c && leb c 13)

-- Drops the front bytes that pass the test.
unfoldable pub skip_while : (ℕ → Bool) → Bytes → Bytes
skip_while p [] = []
skip_while p (c ∷ cs) = if p c then skip_while p cs else c ∷ cs

unfoldable pub skip_spaces : Bytes → Bytes
unfolding skip_while is_space
skip_spaces = skip_while is_space

-- Both loops go down from the last byte and write a NUL over each that passes.
abbrev pub drop_last_while : (ℕ → Bool) → Bytes → Bytes
drop_last_while p line = reverse (skip_while p (reverse line))

unfoldable pub trim_right_space : Bytes → Bytes
unfolding skip_while
trim_right_space line = drop_last_while (λ c. c == b' ') line

-- `none` is the null pointer.
pub strchomp : Option Bytes → Option Bytes
unfolding skip_while is_space
strchomp none = none
strchomp (some str) = some (drop_last_while is_space str)

-- The outer loop (`after` false) and the inner `for` over the whitespace behind a written space
-- (`after` true). The count is of the bytes dropped.
unfoldable pub normalize_from : Bool → Bytes → ℕ × Bytes
normalize_from after [] = (0, [])
normalize_from after (c ∷ cs) =
    let rest = normalize_from (is_space c) cs in
    if is_space c
    then (if after then (rest.0 + 1, rest.1) else (rest.0, b' ' ∷ rest.1))
    else (rest.0, c ∷ rest.1)

unfoldable pub normalize_line : Bytes → ℕ × Bytes
unfolding normalize_from
normalize_line line = normalize_from false line

-- What a routine that copies a word leaves: whether the word was too long, the word, the rest.
pub record Word : Type 0 where
  pub too_long : Bool
  pub word : Bytes
  pub rest : Bytes

abbrev stop_at : Bool → Bytes → Word
stop_at long rest = record { too_long = long; word = []; rest = rest }

abbrev with_byte : ℕ → Word → Word
with_byte c w = record w { word = c ∷ w.word }

-- The second loop of `ParseString`; `room` is how many bytes still fit.
unfoldable pub copy_word : ℕ → Bytes → Word
copy_word room [] = stop_at false []
copy_word zero (c ∷ cs) = if is_space c then stop_at false (c ∷ cs) else stop_at true (c ∷ cs)
copy_word (suc room) (c ∷ cs) =
    let next = copy_word room cs in if is_space c then stop_at false (c ∷ cs) else with_byte c next

unfoldable pub parse_string : ℕ → Bytes → Word
unfolding copy_word skip_spaces
parse_string size src = copy_word (size - 1) (skip_spaces src)

-- The second loop of `read_string` and `read_string_del`: it reads on when the room is used up.
pub read_until : (ℕ → Bool) → ℕ → Bytes → Word
read_until ends room [] = stop_at false []
read_until ends zero (c ∷ cs) =
    let next = read_until ends zero cs in if ends c then stop_at false (c ∷ cs) else next
read_until ends (suc room) (c ∷ cs) =
    let next = read_until ends room cs in
    if ends c then stop_at false (c ∷ cs) else with_byte c next

-- `size - 1` is unsigned.
unfoldable pub read_string : ℕ → Bytes → Word
unfolding read_until skip_spaces is_space
read_string size src = read_until is_space ((size + 4294967295) % 4294967296) (skip_spaces src)

unfoldable pub read_string_del : ℕ → ℕ → Bytes → Word
unfolding read_until skip_spaces
read_string_del size del src =
    read_until (λ c. c == del) ((size + 4294967295) % 4294967296) (skip_spaces src)
