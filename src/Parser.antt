-- ===== src/Parser.antt =====
-- ParseRequestLine and ParseResponseStatus of z3_rtsp_client/z3_rtsp_proto_parser.cpp. `major`,
-- `minor` and `version` are what the variables hold that nothing is written to before they are read.
pub mod FirstLine
pub mod Header
pub mod StatusLine
pub mod Stream
mod Tests
use z3_engine.Base.{
  ℕ, zero, suc, ◌+◌, ◌-◌, ◌*◌, ◌%◌, Bool, true, false, ◌&&◌, ◌||◌, not, Option, none, some, [], ◌∷◌,
  ltb, leb, ◌==◌, if◌then◌else◌, Bytes, Outcome, ok, fault, ◌>>=◌,
}
use z3_engine.Message.Msg.{
  RtspMsg, init_request, init_response, set_version, get_method, set_method, c_string,
}
use z3_engine.Text.Lines.{parse_string, skip_spaces, Word}
use z3_engine.Text.Tables.{rtsp_find_method}
use z3_engine.Text.Version.{z3_eok, z3_error, z3_rtsp_eparse, parser_protocol_version, VersionReply}

abbrev pub is_empty : Bytes → Bool
is_empty [] = true
is_empty (c ∷ cs) = false

abbrev or_old : Option ℕ → ℕ → ℕ
or_old none old = old
or_old (some new) old = new

abbrev pub rtsp_get : ℕ
rtsp_get = 2048

abbrev pub rtsp_post : ℕ
rtsp_post = 4096

-- The last test: GET and POST are no methods of RTSP.
no_http : RtspMsg → ℕ → RtspMsg × ℕ
no_http m res =
    if get_method m == rtsp_get || get_method m == rtsp_post
    then ((set_method 0 m).0, if res == z3_eok then z3_error else res)
    else (m, res)

set_parsed_version : RtspMsg → ℕ → ℕ → VersionReply → RtspMsg × ℕ
unfolding no_http
set_parsed_version m res version reply =
    if res == z3_eok
    then no_http (set_version (or_old reply.0 version) m).0 reply.1
    else no_http m res

-- The three words: all must fit their buffers, the URI must not be empty, nothing may follow.
words_res : Word → Word → Word → ℕ
words_res a b c =
    if a.too_long || b.too_long || is_empty b.word || c.too_long || not (is_empty c.rest)
    then z3_rtsp_eparse
    else z3_eok

request_of : ℕ → ℕ → ℕ → Word → Word → Word → RtspMsg → RtspMsg × ℕ
unfolding words_res set_parsed_version
request_of major minor version a b c m =
    let made = init_request (rtsp_find_method a.word) b.word m in
    let res = if made.1 == z3_eok then words_res a b c else z3_rtsp_eparse in
    set_parsed_version made.0 res version (parser_protocol_version major minor c.word)

pub parse_request_line : ℕ → ℕ → ℕ → Bytes → RtspMsg → RtspMsg × ℕ
unfolding request_of
parse_request_line major minor version line m =
    let a = parse_string 20 line in
    let b = parse_string 4096 a.rest in
    let c = parse_string 20 b.rest in request_of major minor version a b c m

is_digit : ℕ → Bool
is_digit c = leb b'0' c && leb c b'9'

-- atoi of at most three bytes, which cannot overflow: the digits in front.
number_of : ℕ → Bytes → ℕ
number_of value [] = value
number_of value (c ∷ cs) =
    let rest = number_of (value * 10 + (c - b'0')) cs in if is_digit c then rest else value

-- A sign: whether the number is below zero, and its size.
atoi : Bytes → Bool × ℕ
unfolding number_of is_digit
atoi [] = (false, 0)
atoi (c ∷ cs) =
    if c == b'-'
    then (ltb 0 (number_of 0 cs), number_of 0 cs)
    else if c == b'+'
    then (false, number_of 0 cs)
    else (false, number_of 0 (c ∷ cs))

status_version : RtspMsg × ℕ → ℕ → VersionReply → RtspMsg × ℕ
status_version (m, e) version reply =
    if e == z3_eok
    then (if reply.1 == z3_eok
        then ((set_version (or_old reply.0 version) m).0, z3_eok)
        else (m, reply.1))
    else (m, z3_rtsp_eparse)

-- What follows once the status code is read.
status_code : ℕ → ℕ → ℕ → Bool × ℕ → Bytes → Bytes → RtspMsg → Outcome (RtspMsg × ℕ)
unfolding status_version
status_code major minor version (below, code) word rest m =
    if below || ltb 600 code then ok (m, z3_rtsp_eparse) else (do
      made ← init_response none code (some (skip_spaces rest)) m
      ok (status_version made version (parser_protocol_version major minor word)))

status_of : ℕ → ℕ → ℕ → Word → Word → RtspMsg → Outcome (RtspMsg × ℕ)
unfolding status_code
status_of major minor version a b m =
    if a.too_long
    then ok (m, z3_rtsp_eparse)
    else if b.too_long
    then ok (m, z3_rtsp_eparse)
    else status_code major minor version (atoi b.word) a.word b.rest m

pub parse_response_status : ℕ → ℕ → ℕ → Bytes → RtspMsg → Outcome (RtspMsg × ℕ)
unfolding status_of
parse_response_status major minor version line m =
    let a = parse_string 20 line in
    let b = parse_string 4 a.rest in status_of major minor version a b m
