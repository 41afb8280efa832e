-- ===== src/Parser/Stream/Halting.antt =====
-- What a round of Parse calls comes to an end: the lines, and the end of the headers.
use z3_engine.Base.{
  ℕ, zero, suc, ◌+◌, Bool, Option, none, some, ltb, Bytes, ok, Halts, >>=-Halts, then-ok-Halts,
  if-Halts,
}
use z3_engine.Message.Msg.{
  RtspMsg, MsgObj, request, response, channel_data, set_body_size, init_response,
}
use z3_engine.Message.Msg.Ends.{set_body_size-Halts, init_response-Halts}
use z3_engine.Text.Lines.{skip_spaces, parse_string}
use z3_engine.Text.Version.{parser_protocol_version}
use z3_engine.Parser.{
  status_version, atoi as sign_number, parse_response_status, status_of, status_code,
}
use z3_engine.Parser.Header.Ends.{parse_line-Halts}
use z3_engine.Sdp.{atoi}
use z3_engine.Message.Msg.{c_string}
use z3_engine.Base.{codes, ◌&&◌, ◌||◌}
use z3_engine.Parser.Stream.{
  starts_with, state_data_body, state_end, Leftover, is_response_obj, body_of_size, sized_body,
  end_headers, parse_numbered,
}

is_response_obj-Halts : (o : Option MsgObj) → Halts (is_response_obj o)
unfolding is_response_obj
is_response_obj-Halts none = λ e. cc
is_response_obj-Halts (some (request method uri version)) = λ e. cc
is_response_obj-Halts (some (response code reason version)) = λ e. cc
is_response_obj-Halts (some (channel_data channel)) = λ e. cc

body_of_size-Halts : (size : ℕ) (m : RtspMsg) → Halts (body_of_size size m)
unfolding body_of_size
body_of_size-Halts size m =
    if-Halts (ltb 0 size && ltb size 2147483648) _ _
      (then-ok-Halts (set_body_size (size + 1) m) (λ a. (a.0, state_data_body))
        (set_body_size-Halts (size + 1) m))
      (λ e. cc)

sized_body-Halts : (o : Option Bytes) (m : RtspMsg) → Halts (sized_body o m)
unfolding sized_body
sized_body-Halts none m = λ e. cc
sized_body-Halts (some v) m = body_of_size-Halts (atoi (skip_spaces (c_string v))) m

pub end_headers-Halts : (o : Option (Option Bytes)) (m : RtspMsg) → Halts (end_headers o m)
unfolding end_headers
end_headers-Halts none m = λ e. cc
end_headers-Halts (some v) m =
    >>=-Halts (is_response_obj m.obj) _ (is_response_obj-Halts m.obj)
      λ b _. if-Halts b (sized_body v m) (ok (m, state_end)) (sized_body-Halts v m) (λ e. cc)

status_code-Halts :
    (major minor version : ℕ) (code : Bool × ℕ) (word rest : Bytes) (m : RtspMsg)
    → Halts (status_code major minor version code word rest m)
unfolding status_code
status_code-Halts major minor version (below, code) word rest m =
    if-Halts (below || ltb 600 code) _ _ (λ e. cc)
      (then-ok-Halts (init_response none code (some (skip_spaces rest)) m)
        (λ made. status_version made version (parser_protocol_version major minor word))
        (init_response-Halts code (skip_spaces rest) m))

parse_response_status-Halts :
    (major minor version : ℕ) (line : Bytes) (m : RtspMsg)
    → Halts (parse_response_status major minor version line m)
unfolding parse_response_status status_of
parse_response_status-Halts major minor version line m =
    let a = parse_string 20 line in
    let b = parse_string 4 a.rest in
    if-Halts a.too_long _ _ (λ e. cc)
      (if-Halts b.too_long _ _ (λ e. cc)
        (status_code-Halts major minor version (sign_number b.word) a.word b.rest m))

pub parse_numbered-Halts :
    (l : Leftover) (n : ℕ) (line : Bytes) (m : RtspMsg) → Halts (parse_numbered l n line m)
unfolding parse_numbered
parse_numbered-Halts l zero line m =
    if-Halts (starts_with (codes "RTSP") line) _ _
      (parse_response_status-Halts l.major l.minor l.version line m) (λ e. cc)
parse_numbered-Halts l (suc n) line m = parse_line-Halts line m
