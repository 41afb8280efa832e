-- ===== src/Message/Tests.antt =====
-- The theorems on z3_rtsp_client/z3_rtsp_msg.cpp at a request with two headers.
use z3_engine.Base.{
  List, ℕ, ◌+◌, ◌<◌, ◌≡◌, ◌⊎◌, inl, inr, refl, none, some, [], ◌∷◌, ◌++◌, arith, Bytes, codes, ok,
  fault, ◌==◌, if◌then◌else◌, Bool-cases, true, ◌⊎◌, ◌<◌,
}
use z3_engine.Message.Headers.{
  KeyValue, KeyValues, blank, add_to, get_header_in, remove_from, place_from,
}
use z3_engine.Message.Headers.Add.{HeaderLine, Inv, Adds, listed, listed_from, add_to-listed}
use z3_engine.Message.Headers.Get.{nth_of, get_header_in-nth}
use z3_engine.Message.Headers.Remove.{remove_from_lost}
use z3_engine.Message.Msg.{
  RtspMsg, set_body, init_data, request, response, init_response, version_1_0, hdr_cseq,
  hdr_session, c_string,
}
use z3_engine.Message.Msg.Answer.{Has, init_response-Has}
use z3_engine.Message.Msg.Copied.{UpTo, CopiesCseq, CopiesSession}
use z3_engine.Message.Print.{to_string, terminated, has_nul, crlf}
use z3_engine.Message.Print.Data.{to_string-init_data}
use z3_engine.Message.Print.Lines.{Prints, line_of, request_line, to_string-request}
use z3_engine.Text.Status.{rtsp_status_as_text, switch}
use z3_engine.Text.Tables.RoundTrip.{find_method-text}
use z3_engine.Text.Version.{z3_eok}

-- RTSP_HDR_CSEQ and RTSP_HDR_SESSION.
abbrev cseq : KeyValue
cseq = record { field = 17; len = 1; value = some (codes "7") }

abbrev session : KeyValue
session = record { field = 32; len = 2; value = some (codes "ab") }

abbrev two_slots : ℕ → KeyValue
two_slots i = if i == 0 then cseq else if i == 1 then session else blank

abbrev two : KeyValues
two = record { size = 8; sum = 2; slots = two_slots }

two-Inv : Inv two
two-Inv = record {
  sized = inl refl;
  room = omega arith;
  rest_blank = λ i h. ground (arith, h);
  valued = λ i h. elim (Bool-cases (i == 0)) [
    | inl t ↦ (codes "7", rw t)
    | inr f ↦ let g : (i == 1) ≡ true = ground (arith, f, h) in (codes "ab", rw (f, g))
  ];
}

add_to-listed_example :
    ((2 < 16) × Adds 18 (codes "now") two (add_to 18 (codes "now") two))
    ⊎ ((two.sum ≡ 16) × (add_to 18 (codes "now") two ≡ ok (0x399B6001, two)))
add_to-listed_example = add_to-listed 18 (codes "now") two two-Inv

get_header_in-nth_example : get_header_in (some two) 32 0 ≡ nth_of (listed two) 32 0
get_header_in-nth_example = get_header_in-nth two 32 0 two-Inv

remove_from_lost_example :
    (b : KeyValues) × (remove_from 17 none two ≡ ok (0, b))
    × (b.sum + 1 ≡ 2)
    × ((j : ℕ) → j < b.sum → b.slots j ≡ (if j == 0 then blank else two_slots j))
    × ((f : ℕ) (w : Bytes) → add_to f w b ≡ fault)
unfolding place_from
remove_from_lost_example = remove_from_lost two 17 none 0 two-Inv refl (omega arith)

abbrev play : RtspMsg
play = record {
  obj = some (request 32 (codes "rtsp://a") 0x10);
  headers = some two;
  body = none;
  body_size = 0;
}

abbrev two_listed : List HeaderLine
two_listed = (17, codes "7") ∷ (32, codes "ab") ∷ []

play-Has : Has play two_listed
unfolding listed listed_from
play-Has = record { inv = two-Inv; lists = refl }

init_response-Has_example :
    ((v : Bytes) × (nth_of two_listed hdr_session 0 ≡ some (some v))
      × UpTo 0 v []
      × (init_response (some play) 404 none play ≡ fault))
    ⊎ ((b : RtspMsg) × (cseq : List HeaderLine) × (session : List HeaderLine) × (init_response
            (some play)
            404
            none
            play
          ≡ ok (b, z3_eok))
        × (b.obj ≡ some (response 404 (rtsp_status_as_text 404) version_1_0))
        × CopiesCseq (nth_of two_listed hdr_cseq 0) cseq
        × CopiesSession (nth_of two_listed hdr_session 0) session
        × Has b (cseq ++ session))
unfolding rtsp_status_as_text switch
init_response-Has_example = init_response-Has play play two_listed 404 none play-Has (omega arith)

abbrev two_printed : Bytes
two_printed = line_of (codes "CSeq") (codes "7") ++ (line_of (codes "Session") (codes "ab") ++ [])

two-Prints : Prints (listed two) two_printed
unfolding listed listed_from terminated has_nul
two-Prints = (
  16,
  codes "CSeq",
  line_of (codes "Session") (codes "ab") ++ [],
  refl,
  refl,
  refl,
  refl,
  (31, codes "Session", [], refl, refl, refl, refl, refl),
)

to_string-request_example :
    to_string true [] play
    ≡ ok (some (request_line (codes "PLAY") (codes "rtsp://a") ++ (two_printed ++ crlf)), play)
unfolding place_from c_string
to_string-request_example =
    to_string-request [] play two 32 0x10 (codes "PLAY") (codes "rtsp://a") two_printed refl refl
      refl two-Inv (find_method-text 5 (codes "PLAY") refl).0 refl (omega arith) two-Prints
      (omega arith)

to_string-init_data_example :
    (d : RtspMsg) × (set_body (1 ∷ 2 ∷ 3 ∷ []) (init_data 0 4 play).0 ≡ ok (d, z3_eok))
    × (d.body ≡ some (1 ∷ 2 ∷ 3 ∷ 0 ∷ []))
    × (to_string true [] d ≡ fault)
to_string-init_data_example = to_string-init_data [] (1 ∷ 2 ∷ 3 ∷ []) 0 4 play refl
