-- ===== src/Parser/Header/Single.antt =====
-- A header that may stand in a message once has the whole line as its value.
use z3_engine.Base.{
  ℕ, suc, ◌≡◌, ◌≢◌, ◌<◌, false, List, [], ◌∷◌, ◌++◌, ◌==◌, ne→==, Bytes, length, ok,
}
use z3_engine.Message.Headers.Add.{HeaderLine}
use z3_engine.Message.Msg.{RtspMsg}
use z3_engine.Message.Msg.Answer.{Has, add_header-Has}
use z3_engine.Parser.Header.{
  value_of, add_value, add_values, add_field, line_parts, parse_line, trim_one,
}
use z3_engine.Text.Lines.Words.{None}
use z3_engine.Text.Tables.{rtsp_find_header_field, rtsp_header_allow_multiple}
use z3_engine.Text.Version.{z3_eok}
use z3_engine.Text.Version.Split.{split_at-first}

add_values-single :
    (field fuel d e : ℕ) (value kept : Bytes) (m : RtspMsg) (l : List HeaderLine)
    → Has m l
    → length l < 16
    → rtsp_header_allow_multiple field ≡ ok false
    → trim_one (d ∷ value) ≡ e ∷ kept
    → (b : RtspMsg) × (add_values (suc fuel) field (b' ' ∷ d ∷ value) m ≡ ok b)
      × Has b (l ++ ((field, (e ∷ kept) ++ (0 ∷ [])) ∷ []))
      × (b.obj ≡ m.obj)
unfolding add_values value_of add_value
add_values-single field fuel d e value kept m l h room single ends =
    let (b, q, i, o) = add_header-Has field ((e ∷ kept) ++ (0 ∷ [])) m l h room in
    (b, rw (single, ends) (rw q), i, o)

-- `ParseLine` of a name without a colon, a colon, a space and a value, where the name, less one
-- space at its end, is a field that may stand in a message only once, and the value, less one
-- space at its end, is not empty, into a message with fewer than 16 well-formed headers, returns
-- Z3_EOK and adds that field with that value and a NUL as the last header, and leaves the kind of
-- the message as it is.
pub parse_line-single :
    (field c d e : ℕ) (name value kept : Bytes) (m : RtspMsg) (l : List HeaderLine)
    → Has m l
    → length l < 16
    → None (λ x. x == b':') (c ∷ name)
    → rtsp_find_header_field (trim_one (c ∷ name)) ≡ field
    → field ≢ 0
    → rtsp_header_allow_multiple field ≡ ok false
    → trim_one (d ∷ value) ≡ e ∷ kept
    → (b : RtspMsg) × (parse_line ((c ∷ name) ++ (b':' ∷ b' ' ∷ d ∷ value)) m ≡ ok (b, z3_eok))
      × Has b (l ++ ((field, (e ∷ kept) ++ (0 ∷ [])) ∷ []))
      × (b.obj ≡ m.obj)
unfolding parse_line line_parts add_field
parse_line-single field c d e name value kept m l h room colon finds some_field single ends =
    let parts = split_at-first b':' (c ∷ name) (b' ' ∷ d ∷ value) colon in
    let (b, q, i, o) =
      add_values-single field (length (d ∷ value)) d e value kept m l h room single ends in
    let found : (field == 0) ≡ false = ne→== field 0 some_field in
    (b, rw (parts, finds, found) (rw q), i, o)
