-- ===== src/Parser/FirstLine.antt =====
-- What ParseRequestLine makes of the first line that ToString prints for a request.
use z3_engine.Base.{
  ℕ, ◌-◌, ◌≡◌, ◌≢◌, ◌<◌, refl, ◌∙◌, false, some, [], ◌∷◌, ◌++◌, ◌==◌, arith, le→leb, ne→==, Bytes,
  codes, length,
}
use z3_engine.Message.Msg.{RtspMsg, request, new_msg, version_1_0}
use z3_engine.Message.Msg.Fields.{init_request-ok, set_version-request, get_method-request}
use z3_engine.Parser.{
  parse_request_line, request_of, words_res, set_parsed_version, no_http, rtsp_get, rtsp_post,
}
use z3_engine.Text.Lines.{is_space, parse_string}
use z3_engine.Text.Lines.Words.{All, None, Starts, whole, parse_string_word}
use z3_engine.Text.Tables.{rtsp_find_method}
use z3_engine.Text.Version.{z3_eok}
use z3_engine.Text.Version.Check.{parser_protocol_version-1_0}

-- A word that fits, behind at most one space.
pub parse_string-fits :
    (size : ℕ) (spaces : Bytes) (c : ℕ) (word rest : Bytes)
    → All is_space spaces
    → None is_space (c ∷ word)
    → Starts is_space rest
    → length (c ∷ word) < size
    → parse_string size (spaces ++ ((c ∷ word) ++ rest)) ≡ whole (c ∷ word) rest
parse_string-fits size spaces c word rest a n s fits =
    parse_string_word size spaces c word rest a n s
    ∙ rw (le→leb (length (c ∷ word)) (size - 1) (omega (arith, fits)))

abbrev pub words_line : Bytes → Bytes → Bytes
words_line method uri = method ++ (codes " " ++ (uri ++ codes " RTSP/1.0"))

request_of-words :
    (major minor version c d : ℕ) (method uri after_method after_uri : Bytes) (m : RtspMsg)
    → rtsp_find_method (c ∷ method) ≢ rtsp_get
    → rtsp_find_method (c ∷ method) ≢ rtsp_post
    → request_of major minor version
        (whole (c ∷ method) after_method)
        (whole (d ∷ uri) after_uri)
        (whole (codes "RTSP/1.0") [])
        m
      ≡ (
        record new_msg { obj = some (request (rtsp_find_method (c ∷ method)) (d ∷ uri) version) },
        z3_eok,
      )
unfolding request_of words_res set_parsed_version no_http
request_of-words major minor version c d method uri after_method after_uri m no_get no_post =
    let k = rtsp_find_method (c ∷ method) in
    let made : RtspMsg = record new_msg { obj = some (request k (d ∷ uri) version_1_0) } in
    let known : RtspMsg = record new_msg { obj = some (request k (d ∷ uri) version) } in
    let is_get : (k == rtsp_get) ≡ false = ne→== k rtsp_get no_get in
    let is_post : (k == rtsp_post) ≡ false = ne→== k rtsp_post no_post in
    rw (init_request-ok k (d ∷ uri) m (omega arith), parser_protocol_version-1_0 major minor)
      (rw (set_version-request made k version version_1_0 (d ∷ uri) refl)
        (rw (get_method-request known k version (d ∷ uri) refl) (rw (is_get, is_post))))

-- `ParseRequestLine` over a method word, a space, a URI, a space and `RTSP/1.0`, where method and
-- URI are words without whitespace that fit their buffers and the method is not GET or POST,
-- returns Z3_EOK and makes the message a request with the method found for the word, RTSP_INVALID
-- for an unknown one, that URI, no header and no body, and as its version whatever the local
-- variable held.
pub parse_request_line-words :
    (major minor version c d : ℕ) (method uri : Bytes) (m : RtspMsg)
    → None is_space (c ∷ method)
    → None is_space (d ∷ uri)
    → length (c ∷ method) < 20
    → length (d ∷ uri) < 4096
    → rtsp_find_method (c ∷ method) ≢ rtsp_get
    → rtsp_find_method (c ∷ method) ≢ rtsp_post
    → parse_request_line major minor version (words_line (c ∷ method) (d ∷ uri)) m ≡ (
      record new_msg { obj = some (request (rtsp_find_method (c ∷ method)) (d ∷ uri) version) },
      z3_eok,
    )
unfolding parse_request_line is_space
parse_request_line-words major minor version c d method uri m a b fa fb no_get no_post =
    let first =
      parse_string-fits 20 [] c method (codes " " ++ ((d ∷ uri) ++ codes " RTSP/1.0")) tt a refl
        fa in
    let second =
      parse_string-fits 4096 (codes " ") d uri (codes " RTSP/1.0") (refl, tt) b refl fb in
    let third =
      parse_string-fits 20 (codes " ") b'R' (codes "TSP/1.0") [] (refl, tt)
        (refl, (refl, (refl, (refl, (refl, (refl, (refl, (refl, tt)))))))) tt (omega arith) in
    rw (first, second, third)
      (request_of-words major minor version c d method uri
        (codes " " ++ ((d ∷ uri) ++ codes " RTSP/1.0")) (codes " RTSP/1.0") m no_get no_post)
