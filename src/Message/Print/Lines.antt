-- ===== src/Message/Print/Lines.antt =====
-- What ToString prints for a request.
use z3_engine.Base.{
  ℕ, zero, suc, ◌+◌, ◌-◌, ◌≡◌, ◌<◌, sym, ◌∙◌, ap, true, false, none, some, List, [], ◌∷◌, ◌++◌, ltb,
  arith, lt→ltb, ne→==, ◌==◌, Bytes, codes, length, length-append, get_elem?, ok,
}
use z3_engine.Message.Headers.{KeyValue, KeyValues, bytes_of, place_from}
use z3_engine.Message.Headers.Add.{Inv, HeaderLine, listed, listed_from, length-listed}
use z3_engine.Message.Msg.{request, RtspMsg, c_string}
use z3_engine.Message.Msg.Answer.{remove_header_absent}
use z3_engine.Message.Print.{
  string_max, crlf, printed, terminated, value_text, append_headers, hdr_content_length, has_body,
  end_lines, header_lines, finish, to_string_of, to_string,
}
use z3_engine.Text.Tables.{names, rtsp_headers, rtsp_method_as_text, rtsp_header_as_text}
use z3_engine.Text.Tables.RoundTrip.{find_header-text}

abbrev pub line_of : Bytes → Bytes → Bytes
line_of name v = name ++ (codes ": " ++ (c_string v ++ crlf))

-- The text of a list of headers: a line for each, with the field's name and the value up to its NUL.
abbrev pub Prints : List HeaderLine → Bytes → Type 0
Prints [] text = text ≡ []
Prints ((f, v) ∷ l) text =
    (i : ℕ) × (name rest : Bytes) × (f ≡ i + 1)
    × (get_elem? (names rtsp_headers) i ≡ some name)
    × (terminated v ≡ true)
    × (text ≡ line_of name v ++ rest)
    × Prints l rest

append_headers-Prints :
    (s : ℕ → KeyValue) (i n room : ℕ) (text : Bytes)
    → ((j : ℕ) → j < i + n → (v : Bytes) × ((s j).value ≡ some v))
    → Prints (listed_from s i n) text
    → length text < room
    → append_headers s i n room ≡ ok text
unfolding append_headers listed_from value_text printed
append_headers-Prints s i zero room text h p fits = ap ok (sym p)
append_headers-Prints s i (suc n) room text h (k, name, rest, f, at, ends, cut, p) fits =
    let (v, e) = h i (omega arith) in
    let w = bytes_of (s i).value in
    let value : value_text (s i).value ≡ ok (c_string w) = rw e (rw (rw e at ends)) in
    let named : rtsp_header_as_text (s i).field ≡ ok (some name) =
      ap rtsp_header_as_text f ∙ (find_header-text k name at).0 in
    let line = line_of name w in
    let total : length text ≡ length line + length rest = ap length cut ∙ length-append line rest in
    let shorter : length line < room = omega (arith, total, fits) in
    let more : append_headers s (i + 1) n (room - length line) ≡ ok rest =
      append_headers-Prints s (i + 1) n (room - length line) rest (λ j g. h j (omega (arith, g))) p
        (omega (arith, total, fits)) in
    rw (named, value, lt→ltb (length line) room shorter, more) (ap ok (sym cut))

-- The first line of a request.
abbrev pub request_line : Bytes → Bytes → Bytes
request_line name uri = name ++ (codes " " ++ (uri ++ (codes " RTSP/1.0" ++ crlf)))

Prints-pos : (l : List HeaderLine) (text : Bytes) → 0 < length l → Prints l text → 0 < length text
Prints-pos [] text h p = absurd (omega arith)
Prints-pos ((f, v) ∷ l) text h (k, name, rest, e, at, ends, cut, p) = omega (
  arith,
  ap length cut,
  length-append (line_of name v) rest,
  length-append name (codes ": " ++ (c_string v ++ crlf)),
)

finish-lines :
    (line text : Bytes) (m : RtspMsg) (a : KeyValues)
    → m.headers ≡ some a
    → m.body ≡ none
    → place_from a.slots 0 a.sum hdr_content_length 0 none ≡ none
    → append_headers a.slots 0 a.sum (string_max - length line) ≡ ok text
    → 0 < length text
    → length line + (length text + 2) < string_max
    → finish line m ≡ ok (some (line ++ (text ++ crlf)), record m { headers = some a })
unfolding finish has_body header_lines end_lines printed
finish-lines line text m a hs b absent appended some_text fits =
    let removed = remove_header_absent m a hdr_content_length none hs absent in
    let some_line : (length text == 0) ≡ false = ne→== (length text) 0 (omega arith) in
    let room : ltb 2 (string_max - length line - length text) ≡ true =
      lt→ltb 2 (string_max - length line - length text) (omega (arith, fits)) in
    rw (removed, b) (rw (appended, some_line, room))

-- `ToString` of a request with a method of the table, no body, and a well-formed array of at least
-- one header, none of them Content-Length, each with a field of the table and a value that ends in
-- a NUL or has fewer than 64 bytes, whose text is shorter than 1500 bytes, returns true with the
-- request line, a line for each header in order with the field's name and the value up to its NUL,
-- and an empty line, and leaves the message as it is.
pub to_string-request :
    (date : Bytes) (m : RtspMsg) (a : KeyValues) (method version : ℕ) (name uri text : Bytes)
    → m.obj ≡ some (request method uri version)
    → m.headers ≡ some a
    → m.body ≡ none
    → Inv a
    → rtsp_method_as_text method ≡ ok (some name)
    → place_from a.slots 0 a.sum hdr_content_length 0 none ≡ none
    → 0 < a.sum
    → Prints (listed a) text
    → length (request_line name uri) + (length text + 2) < string_max
    → to_string true date m
      ≡ ok (some (request_line name uri ++ (text ++ crlf)), record m { headers = some a })
unfolding to_string to_string_of printed listed
to_string-request date m a method version name uri text o hs b v named absent some_line p fits =
    let line = request_line name uri in
    let short : ltb (length line) string_max ≡ true =
      lt→ltb (length line) string_max (omega (arith, fits)) in
    let appended : append_headers a.slots 0 a.sum (string_max - length line) ≡ ok text =
      append_headers-Prints a.slots 0 a.sum (string_max - length line) text
        (λ j h. v.valued j (omega (arith, h))) p (omega (arith, fits)) in
    let some_text : 0 < length text =
      Prints-pos (listed a) text (omega (arith, length-listed a, some_line)) p in
    ap (λ x. to_string_of date x m) o
    ∙ rw (named, short) (finish-lines line text m a hs b absent appended some_text fits)
