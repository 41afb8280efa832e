-- ===== src/Parser/Stream/Tests.antt =====
-- The theorems on Parse at concrete segments.
use z3_engine.Text.Lines.Words.{None}
use z3_engine.Base.{
  Bool, true, false, if◌then◌else◌, Bool-cases, inl, inr, Outcome, ℕ, ◌≡◌, refl, none, some, [],
  ◌∷◌, ◌++◌, arith, codes, ok, Bytes, Halts,
}
use z3_engine.Message.Headers.{new_key_values}
use z3_engine.Message.Msg.{
  RtspMsg, response, version_1_0, new_msg, get_header, add_header, init_response,
}
use z3_engine.Message.Headers.{get_header_in}
use z3_engine.Parser.Stream.{
  new_parser, Leftover, parse, reset, z3_rtsp_eintr, parse_numbered, clean, starts_with,
}
use z3_engine.Parser.Stream.Calls.{calls, calls_split, calls_data}
use z3_engine.Parser.Stream.Ends.{parse-Halts}
use z3_engine.Parser.Stream.Lines.{AllLines, cr_or_nul, lines_text, Reads, no_line, a_line}
use z3_engine.Base.{◌>>=◌}
use z3_engine.Parser.Stream.Part.{parse_part-joined}
use z3_engine.Parser.Stream.Message.{Completes, parse_message, parse_cut}
use z3_engine.Text.Lines.{
  trim_right_space, normalize_line, normalize_from, skip_while, is_space, parse_string,
}
use z3_engine.Message.Headers.{add_to}
use z3_engine.Text.Tables.{
  rtsp_find_header_field, rtsp_header_allow_multiple, header_multiple, table_at, find_name,
  field_of, same_text, to_lower,
}
use z3_engine.Text.Version.{split_at, z3_error, z3_eok}

-- No byte of a text passes the test.
abbrev pub none_passes : (ℕ → Bool) → Bytes → Bool
none_passes p [] = true
none_passes p (c ∷ cs) = if p c then false else none_passes p cs

pub none_of : (s : Bytes) → none_passes cr_or_nul s ≡ true → None cr_or_nul s
none_of [] h = tt
none_of (c ∷ cs) h = elim (Bool-cases (cr_or_nul c)) [
  | inl t ↦ absurd (ground (arith, t, h))
  | inr f ↦ (f, none_of cs (rw f at h))
]

abbrev pub zeroed : Leftover
zeroed = record { major = 0; minor = 0; version = 0; behind = 0 ∷ [] }

pub reset_new : reset new_parser ≡ new_parser
unfolding reset new_parser
reset_new = refl

abbrev pub head : Bytes
head = codes "TSP/1.0 200 OK"

abbrev pub accepted : RtspMsg
accepted = record new_msg { obj = some (response 200 (codes "OK") version_1_0) }

head_read : parse_numbered zeroed 0 (clean (b'R' ∷ head)) new_msg ≡ ok (accepted, z3_eok)
unfolding parse_numbered clean starts_with new_msg trim_right_space normalize_line normalize_from
    skip_while is_space z3_engine.Parser.parse_response_status parse_string z3_engine.Parser.atoi
    init_response z3_engine.Text.Version.parser_protocol_version same_text
    z3_engine.Message.Msg.set_version
head_read = refl

abbrev pub cseq_line : Bytes
cseq_line = codes "CSeq: 3"

-- A message with the header's field and value added.
abbrev pub added_to : Outcome (ℕ × RtspMsg) → RtspMsg
added_to (ok (_, m)) = m
added_to _ = new_msg

abbrev pub numbered : RtspMsg
numbered = added_to (add_header 17 (codes "3" ++ (0 ∷ [])) accepted)

cseq_read : parse_numbered zeroed 1 (clean cseq_line) accepted ≡ ok (numbered, z3_eok)
unfolding parse_numbered clean z3_engine.Parser.Header.parse_line rtsp_find_header_field find_name
    field_of same_text to_lower rtsp_header_allow_multiple table_at header_multiple add_header
    add_to trim_right_space normalize_line normalize_from skip_while is_space split_at new_msg
    new_key_values
cseq_read = refl

pub both_read : Reads zeroed 0 new_msg ((b'R' ∷ head) ∷ cseq_line ∷ []) 2 numbered
both_read =
    a_line 0 2 new_msg accepted numbered (b'R' ∷ head) (cseq_line ∷ []) head_read
      (a_line 1 2 accepted numbered numbered cseq_line [] cseq_read (no_line 2 numbered))

pub both_lines : AllLines ((b'R' ∷ head) ∷ cseq_line ∷ [])
both_lines = (omega arith, none_of (b'R' ∷ head) refl, (omega arith, none_of cseq_line refl, tt))

pub no_length : get_header numbered 14 0 ≡ none
unfolding get_header add_header add_to new_key_values new_msg get_header_in
no_length = refl

parse_message_example :
    Completes
      (parse zeroed
        (some (lines_text ((b'R' ∷ head) ∷ cseq_line ∷ []) (13 ∷ 10 ∷ codes "xy")))
        new_parser)
      numbered
parse_message_example =
    parse_message zeroed new_parser b'R' 2 head (codes "xy") (cseq_line ∷ []) numbered reset_new
      refl both_lines both_read no_length (omega arith)

parse_cut_example :
    Completes
      (parse zeroed (some (lines_text ((b'R' ∷ head) ∷ cseq_line ∷ []) [])) new_parser)
      numbered
parse_cut_example =
    parse_cut zeroed new_parser b'R' 2 head (cseq_line ∷ []) numbered reset_new refl both_lines
      both_read (omega arith)

parse-Halts_example : Halts (parse zeroed (some (codes "$$")) new_parser)
parse-Halts_example = parse-Halts zeroed (some (codes "$$")) new_parser

calls_split_example :
    calls new_parser
      ((zeroed, (b'R' ∷ head) ++ (13 ∷ [])) ∷ (zeroed, 10 ∷ []) ∷ (zeroed, codes "CSeq: 3") ∷ [])
    ≡ ok (z3_error ∷ z3_error ∷ z3_error ∷ [])
calls_split_example =
    calls_split zeroed new_parser b'R' 0 head []
      ((zeroed, 10 ∷ []) ∷ (zeroed, codes "CSeq: 3") ∷ []) reset_new refl
      (none_of (b'R' ∷ head) refl) (omega arith) refl refl

calls_data_example :
    calls new_parser ((zeroed, 36 ∷ 1 ∷ 0 ∷ 128 ∷ 5 ∷ []) ∷ (zeroed, 7 ∷ []) ∷ [])
    ≡ ok (z3_rtsp_eintr ∷ z3_rtsp_eintr ∷ [])
calls_data_example =
    calls_data zeroed new_parser 1 0 128 5 [] ((zeroed, 7 ∷ []) ∷ []) reset_new (omega arith)
      (omega arith) (omega arith) (omega arith, tt)

parse_part-joined_example :
    (parse zeroed (some (codes "RTSP/1")) new_parser >>= λ r.
    parse zeroed (some (codes ".0 200 OK")) r.1)
    ≡ parse zeroed (some (codes "RTSP/1" ++ codes ".0 200 OK")) new_parser
parse_part-joined_example =
    parse_part-joined zeroed zeroed new_parser b'R' b'.' (codes "TSP/1") (codes "0 200 OK") []
      reset_new refl (none_of (codes "RTSP/1") refl) refl (omega arith)
