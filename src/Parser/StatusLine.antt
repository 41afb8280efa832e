-- ===== src/Parser/StatusLine.antt =====
-- What ParseResponseStatus makes of the first line of a response.
use z3_engine.Base.{
  ℕ, ◌+◌, ◌*◌, ◌≡◌, ◌<◌, ◌≤◌, refl, ◌∙◌, ap, true, false, some, [], ◌∷◌, ◌++◌, ltb, ◌==◌, arith,
  ne→==, ge→ltb, Bytes, codes, ok,
}
use z3_engine.Message.Msg.{RtspMsg, response, new_msg, version_1_0}
use z3_engine.Message.Msg.Fields.{init_response-ok, set_version-response}
use z3_engine.Parser.{
  parse_response_status, status_of, status_code, atoi, number_of, is_digit, status_version,
}
use z3_engine.Parser.FirstLine.{parse_string-fits}
use z3_engine.Text.Lines.{is_space, skip_spaces}
use z3_engine.Text.Lines.Words.{None, whole, skip_while-All}
use z3_engine.Text.Version.{z3_eok}
use z3_engine.Text.Version.Check.{parser_protocol_version-1_0}

-- Three digits.
abbrev pub three : ℕ → ℕ → ℕ → Bytes
three h t u = (b'0' + h) ∷ (b'0' + t) ∷ (b'0' + u) ∷ []

abbrev pub value3 : ℕ → ℕ → ℕ → ℕ
value3 h t u = h * 100 + t * 10 + u

space : is_space b' ' ≡ true
unfolding is_space
space = refl

protocol : None is_space (codes "RTSP/1.0")
unfolding is_space
protocol = (refl, (refl, (refl, (refl, (refl, (refl, (refl, (refl, tt))))))))

digit : (h : ℕ) → h < 10 → is_digit (b'0' + h) ≡ true
unfolding is_digit
digit h l = ground arith

no_space : (h : ℕ) → h < 10 → is_space (b'0' + h) ≡ false
unfolding is_space
no_space h l = ground arith

atoi-three : (h t u : ℕ) → h < 10 → t < 10 → u < 10 → atoi (three h t u) ≡ (false, value3 h t u)
unfolding atoi number_of
atoi-three h t u a b c =
    let minus : (b'0' + h == b'-') ≡ false = ne→== (b'0' + h) b'-' (λ q. omega (arith, q)) in
    let plus : (b'0' + h == b'+') ≡ false = ne→== (b'0' + h) b'+' (λ q. omega (arith, q)) in
    rw (minus, plus, digit h a, digit t b, digit u c) (ap (λ k. (false, k)) (omega arith))

skip_spaces_one :
    (d : ℕ) (rest : Bytes) → is_space d ≡ false → skip_spaces (b' ' ∷ d ∷ rest) ≡ d ∷ rest
unfolding skip_spaces
skip_spaces_one d rest s = skip_while-All is_space (b' ' ∷ []) rest d (space, tt) s

status_code-words :
    (major minor version code d : ℕ) (reason : Bytes) (m : RtspMsg)
    → code ≤ 600
    → is_space d ≡ false
    → status_code major minor version (false, code) (codes "RTSP/1.0") (b' ' ∷ d ∷ reason) m
      ≡ ok (record new_msg { obj = some (response code (d ∷ reason) version_1_0) }, z3_eok)
unfolding status_code status_version
status_code-words major minor version code d reason m limit s =
    let made : RtspMsg = record new_msg { obj = some (response code (d ∷ reason) version_1_0) } in
    let high : ltb 600 code ≡ false = ge→ltb 600 code limit in
    rw
      (
        high,
        skip_spaces_one d reason s,
        init_response-ok code (d ∷ reason) m (omega arith),
        parser_protocol_version-1_0 major minor,
      )
      (ap (λ k. ok (k, z3_eok))
        (set_version-response made code version version_1_0 (d ∷ reason) refl))

status_of-words :
    (major minor version h t u d : ℕ) (reason after : Bytes) (m : RtspMsg)
    → h < 10
    → t < 10
    → u < 10
    → value3 h t u ≤ 600
    → is_space d ≡ false
    → status_of major minor version
        (whole (codes "RTSP/1.0") after)
        (whole (three h t u) (b' ' ∷ d ∷ reason))
        m
      ≡ ok
          (record new_msg { obj = some (response (value3 h t u) (d ∷ reason) version_1_0) }, z3_eok)
unfolding status_of
status_of-words major minor version h t u d reason after m a b c limit s =
    ap (λ k. status_code major minor version k (codes "RTSP/1.0") (b' ' ∷ d ∷ reason) m)
      (atoi-three h t u a b c)
    ∙ status_code-words major minor version (value3 h t u) d reason m limit s

-- `ParseResponseStatus` over `RTSP/1.0`, a space, three digits of a number of at most 600, a space
-- and a reason that begins with no whitespace returns Z3_EOK and makes the message a response with
-- that number as its code, that reason, version 1.0, no header and no body.
pub parse_response_status-words :
    (major minor version h t u d : ℕ) (reason : Bytes) (m : RtspMsg)
    → h < 10
    → t < 10
    → u < 10
    → value3 h t u ≤ 600
    → is_space d ≡ false
    → parse_response_status major minor version
        (codes "RTSP/1.0" ++ (codes " " ++ (three h t u ++ (codes " " ++ (d ∷ reason)))))
        m
      ≡ ok
          (record new_msg { obj = some (response (value3 h t u) (d ∷ reason) version_1_0) }, z3_eok)
unfolding parse_response_status
parse_response_status-words major minor version h t u d reason m a b c limit s =
    let first =
      parse_string-fits 20 [] b'R' (codes "TSP/1.0")
        (codes " " ++ (three h t u ++ (codes " " ++ (d ∷ reason)))) tt protocol space
        (omega arith) in
    let second =
      parse_string-fits 4 (codes " ") (b'0' + h) ((b'0' + t) ∷ (b'0' + u) ∷ [])
        (codes " " ++ (d ∷ reason)) (space, tt) (no_space h a, (no_space t b, (no_space u c, tt)))
        space (omega arith) in
    rw (first, second)
      (status_of-words major minor version h t u d reason
        (codes " " ++ (three h t u ++ (codes " " ++ (d ∷ reason)))) m a b c limit s)
