-- ===== src/Parser/Tests.antt =====
-- The theorems on the parser at concrete lines.
use z3_engine.Base.{ℕ, ◌≡◌, refl, none, some, [], ◌∷◌, ◌++◌, arith, codes, ok}
use z3_engine.Message.Headers.{new_key_values}
use z3_engine.Message.Headers.Add.{Inv, new_key_values-Inv, listed, listed_from}
use z3_engine.Message.Msg.{RtspMsg, response, version_1_0, request, array_of, new_msg}
use z3_engine.Message.Msg.Answer.{Has}
use z3_engine.Parser.{parse_request_line, parse_response_status}
use z3_engine.Parser.StatusLine.{three, parse_response_status-words}
use z3_engine.Parser.FirstLine.{words_line, parse_request_line-words}
use z3_engine.Parser.Header.{parse_line}
use z3_engine.Parser.Header.Single.{parse_line-single}
use z3_engine.Parser.Header.Total.{parse_line-Inv}
use z3_engine.Text.Lines.{is_space}
use z3_engine.Text.Tables.{
  rtsp_find_method, rtsp_find_header_field, rtsp_header_allow_multiple, header_multiple, table_at,
  find_name, method_of, field_of, same_text, to_lower,
}
use z3_engine.Text.Version.{z3_eok}

parse_request_line-words_example :
    parse_request_line 0 0 7 (words_line (codes "PLAY") (codes "rtsp")) new_msg
    ≡ (record new_msg { obj = some (request 32 (codes "rtsp") 7) }, z3_eok)
unfolding is_space rtsp_find_method find_name method_of same_text to_lower
parse_request_line-words_example =
    parse_request_line-words 0 0 7 b'P' b'r' (codes "LAY") (codes "tsp") new_msg
      (refl, (refl, (refl, (refl, tt)))) (refl, (refl, (refl, (refl, tt)))) (omega arith)
      (omega arith) (λ q. omega (arith, q)) (λ q. omega (arith, q))

abbrev empty_msg : RtspMsg
empty_msg = record { obj = none; headers = none; body = none; body_size = 0 }

empty_msg-Has : Has empty_msg []
unfolding listed listed_from new_key_values
empty_msg-Has = record { inv = new_key_values-Inv; lists = refl }

parse_line-single_example :
    (b : RtspMsg) × (parse_line (codes "CSeq: 7") empty_msg ≡ ok (b, z3_eok))
    × Has b ((17, codes "7" ++ (0 ∷ [])) ∷ [])
    × (b.obj ≡ none)
unfolding rtsp_find_header_field find_name field_of same_text to_lower rtsp_header_allow_multiple
    table_at header_multiple
parse_line-single_example =
    parse_line-single 17 b'C' b'7' b'7' (codes "Seq") [] [] empty_msg [] empty_msg-Has (omega arith)
      (refl, (refl, (refl, (refl, tt)))) refl (λ q. omega (arith, q)) refl refl

parse_line-Inv_example :
    (b : RtspMsg) × (e : ℕ) × (parse_line (codes "Public: PLAY, \\PAUSE") empty_msg ≡ ok (b, e))
    × Inv (array_of b.headers)
parse_line-Inv_example = parse_line-Inv (codes "Public: PLAY, \\PAUSE") empty_msg new_key_values-Inv

parse_response_status-words_example :
    parse_response_status 0 0 7
      (codes "RTSP/1.0" ++ (codes " " ++ (three 4 0 4 ++ (codes " " ++ codes "Not Found"))))
      new_msg
    ≡ ok (record new_msg { obj = some (response 404 (codes "Not Found") version_1_0) }, z3_eok)
unfolding is_space
parse_response_status-words_example =
    parse_response_status-words 0 0 7 4 0 4 b'N' (codes "ot Found") new_msg (omega arith)
      (omega arith) (omega arith) (omega arith) refl
