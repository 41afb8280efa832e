-- ===== src/Parser/Header.antt =====
-- ParseLine of z3_rtsp_client/z3_rtsp_proto_parser.cpp: a header line and the values in it.
pub mod Single
pub mod Total
pub mod Ends
use z3_engine.Base.{
  ℕ, zero, suc, ◌+◌, ◌-◌, Bool, true, false, ◌&&◌, ◌||◌, not, Option, none, some, [], ◌∷◌, ◌++◌,
  reverse, leb, ◌==◌, if◌then◌else◌, Bytes, length, Outcome, ok, fault, hangs, ◌>>=◌,
}
use z3_engine.Message.Msg.{RtspMsg, add_header}
use z3_engine.Text.Tables.{rtsp_find_header_field, rtsp_header_allow_multiple}
use z3_engine.Text.Version.{z3_eok, z3_rtsp_eparse, split_at}

-- What one byte of a value means to the loop that looks for the value's end.
pub data Step : Type 0 where
  escape quote open_comment close_comment comma_here comma_behind stop stop_at_comma plain : Step

-- `auth` is one of the two authentication fields, `comma` tells whether `pComma` is set, and `next`
-- is the byte behind, 0 at the end.
unfoldable pub step : Bool → Bool → ℕ → Bool → ℕ → ℕ → Step
step auth quoted comments comma c next =
    if (quoted || not (comments == 0)) && c == b'\\' && not (next == 0)
    then escape
    else if comments == 0 && c == b'"'
    then quote
    else if not quoted && c == b'('
    then open_comment
    else if not (comments == 0) && c == b')'
    then close_comment
    else if not quoted && comments == 0
    then (if auth
        then (if c == b','
            then (if next == b' ' then comma_behind else comma_here)
            else if c == b' ' && not (next == b',') && not (next == b'=') && comma
            then stop_at_comma
            else plain)
        else if c == b','
        then stop
        else plain)
    else plain

abbrev pub peek : Bytes → ℕ
peek [] = 0
peek (c ∷ cs) = c

-- Whether the next byte is only passed over, or is where `pComma` points.
pub data Mode : Type 0 where
  normal passing marking : Mode

abbrev is_set {ℓ} : {A : Type ℓ} → Option A → Bool
is_set none = false
is_set (some a) = true

-- The value in front and what is left where `pNextValue` stops; with no `pComma` there is no stop at
-- one.
unfoldable pub at_comma : Option (Bytes × Bytes) → Bytes × Bytes → Bytes × Bytes
at_comma none here = here
at_comma (some there) here = there

abbrev cut_here : Bytes → Bytes → Bytes × Bytes
cut_here front rest = (reverse front, rest)

-- `front` is what has been passed, the last byte first.
unfoldable pub scan_value :
    Bool → Mode → Bool → ℕ → Option (Bytes × Bytes) → Bytes → Bytes → Bytes × Bytes
unfolding step at_comma
scan_value auth mode quoted comments comma front [] = cut_here front []
scan_value auth passing quoted comments comma front (c ∷ rest) =
    scan_value auth normal quoted comments comma (c ∷ front) rest
scan_value auth marking quoted comments comma front (c ∷ rest) =
    scan_value auth normal quoted comments (some (cut_here front (c ∷ rest))) (c ∷ front) rest
scan_value auth normal quoted comments comma front (c ∷ rest) =
    elim (step auth quoted comments (is_set comma) c (peek rest)) [
      | escape ↦ scan_value auth passing quoted comments comma (c ∷ front) rest
      | quote ↦ scan_value auth normal (not quoted) comments comma (c ∷ front) rest
      | open_comment ↦ scan_value auth normal quoted (comments + 1) comma (c ∷ front) rest
      | close_comment ↦ scan_value auth normal quoted (comments - 1) comma (c ∷ front) rest
      | comma_here ↦
          scan_value auth normal quoted comments (some (cut_here front (c ∷ rest))) (c ∷ front) rest
      | comma_behind ↦ scan_value auth marking quoted comments comma (c ∷ front) rest
      | stop ↦ cut_here front (c ∷ rest)
      | stop_at_comma ↦ at_comma comma (cut_here front (c ∷ rest))
      | plain ↦ scan_value auth normal quoted comments comma (c ∷ front) rest
    ]

abbrev pub skip_one : Bytes → Bytes
skip_one [] = []
skip_one (c ∷ cs) = if c == b' ' then cs else c ∷ cs

abbrev pub trim_one : Bytes → Bytes
trim_one v = reverse (skip_one (reverse v))

abbrev pub tail_of : Bytes → Bytes
tail_of [] = []
tail_of (c ∷ cs) = cs

abbrev is_auth : ℕ → Bool
is_auth field = field == 23 || field == 39

unfoldable pub value_of : Bool → ℕ → Bytes → Bytes × Bytes
unfolding scan_value
value_of false field v = (v, [])
value_of true field v = scan_value (is_auth field) normal false 0 none [] v

-- AddHeader's result is not looked at.
unfoldable pub add_value : ℕ → Bytes → RtspMsg → Outcome RtspMsg
add_value field [] m = ok m
add_value field (c ∷ v) m = do (_, m') ← add_header field ((c ∷ v) ++ (0 ∷ [])) m; ok m'

-- One round for each byte is enough, since each takes one off.
unfoldable pub add_values : ℕ → ℕ → Bytes → RtspMsg → Outcome RtspMsg
unfolding value_of add_value
add_values fuel field [] m = ok m
add_values zero field (c ∷ v) m = hangs
add_values (suc fuel) field (c ∷ v) m = do
  multiple ← rtsp_header_allow_multiple field
  let found = value_of multiple field (skip_one (c ∷ v))
  m' ← add_value field (trim_one found.0) m
  add_values fuel field (tail_of found.1) m'

unfoldable pub add_field : ℕ → Bytes → RtspMsg → Outcome (RtspMsg × ℕ)
unfolding add_values
add_field field value m =
    if field == 0
    then ok (m, z3_eok)
    else (do m' ← add_values (length value) field value m; ok (m', z3_eok))

unfoldable pub line_parts : Option (Bytes × Bytes) → RtspMsg → Outcome (RtspMsg × ℕ)
unfolding add_field
line_parts none m = ok (m, z3_rtsp_eparse)
line_parts (some ([], value)) m = ok (m, z3_rtsp_eparse)
line_parts (some (c ∷ name, value)) m =
    add_field (rtsp_find_header_field (trim_one (c ∷ name))) value m

unfoldable pub parse_line : Bytes → RtspMsg → Outcome (RtspMsg × ℕ)
unfolding line_parts
parse_line line m = line_parts (split_at b':' line) m
