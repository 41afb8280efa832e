-- ===== src/Parser/Stream.antt =====
-- RtspProtoParser::Parse of z3_rtsp_client/z3_rtsp_proto_parser.cpp: the state machine over the bytes
-- that arrive. The buffer is the bytes that were received and not consumed, and what it holds behind
-- them is an argument of a call, since strchr reads on into it.
pub mod Calls
pub mod Data
pub mod Lines
pub mod Message
pub mod Part
pub mod Ends
pub mod Halting
pub mod Idle
pub mod Stuck
pub mod Tests
use z3_engine.Base.{
  ℕ, zero, suc, ◌+◌, ◌-◌, ◌*◌, ◌%◌, Bool, true, false, ◌&&◌, not, Option, none, some, [], ◌∷◌, ◌++◌,
  ltb, leb, ◌==◌, if◌then◌else◌, Bytes, codes, length, take, drop, Outcome, ok, fault, hangs, ◌>>=◌,
}
use z3_engine.Message.Msg.{
  MsgObj, request, response, channel_data, RtspMsg, new_msg, unset, get_header, init_data, set_body,
  set_body_size, c_string,
}
use z3_engine.Parser.{parse_request_line, parse_response_status}
use z3_engine.Parser.Header.{parse_line}
use z3_engine.Sdp.{atoi}
use z3_engine.Text.Lines.{normalize_line, trim_right_space, skip_spaces}
use z3_engine.Text.Version.{z3_eok, z3_error}

pub data BuilderState : Type 0 where
  state_start state_data_header state_data_body state_read_lines state_end : BuilderState

abbrev pub rtsp_recvbuf_size : ℕ
rtsp_recvbuf_size = 4096

abbrev pub z3_rtsp_eintr : ℕ
z3_rtsp_eintr = 0x80001003

abbrev pub hdr_content_length : ℕ
hdr_content_length = 14

-- `received` is the buffer up to `m_nBufBytes`, as the bytes arrived.
pub record RtspParser : Type 0 where
  pub msg : RtspMsg
  pub completed : Bool
  pub state : BuilderState
  pub line : ℕ
  pub received : Bytes
  pub offset : ℕ

unfoldable pub new_parser : RtspParser
new_parser = record {
  msg = new_msg;
  completed = false;
  state = state_start;
  line = 0;
  received = [];
  offset = 0;
}

-- What is not initialised in a call: three variables, and the buffer behind the received bytes.
pub record Leftover : Type 0 where
  pub major : ℕ
  pub minor : ℕ
  pub version : ℕ
  pub behind : Bytes

-- The variables of the loop; `text` is the buffer from `m_nOffset` on, up to its end.
pub record Run : Type 0 where
  pub msg : RtspMsg
  pub state : BuilderState
  pub line : ℕ
  pub text : Bytes
  pub offset : ℕ
  pub bytes : ℕ
  pub result : ℕ
  pub stop : Bool

wait_more : Run → Run
wait_more r = record r { result = z3_rtsp_eintr; stop = true }

start_round : Run → Bytes → Outcome Run
start_round r [] = fault
start_round r (tag ∷ _) = ok (
    if tag == b'$'
    then record r { state = state_data_header }
    else record r { line = 0; state = state_read_lines })

-- `char` is signed: a low byte from 128 on sets all bits of the high one.
pub data_size : ℕ → ℕ → ℕ
data_size high low = if ltb low 128 then high * 256 % 65536 + low else 65280 + low

header_of : Run → Bytes → RtspMsg × ℕ → Run
header_of r rest (m, e) =
    if e == z3_eok
    then record r {
      msg = m;
      result = e;
      state = state_data_body;
      offset = r.offset + 4;
      text = rest;
    }
    else record r { msg = m; result = e }

header_round : Run → Bytes → Outcome Run
unfolding header_of data_size
header_round r (_ ∷ channel ∷ high ∷ low ∷ rest) = ok (
    if leb 4 (r.bytes - r.offset)
    then header_of r rest (init_data channel (data_size high low) r.msg)
    else wait_more r)
header_round r _ = if leb 4 (r.bytes - r.offset) then fault else ok (wait_more r)

-- The body's size less one, which is unsigned.
pub body_rest : RtspMsg → ℕ
body_rest m = (m.body_size + 4294967295) % 4294967296

body_round : Run → Outcome Run
unfolding body_rest
body_round r =
    let need = body_rest r.msg in
    if leb need (r.bytes - r.offset)
    then (do
      (m, e) ← set_body (take need r.text) r.msg
      ok (record r {
        msg = m;
        result = e;
        offset = r.offset + need;
        text = drop need r.text;
        state = state_end;
        stop = true;
      }))
    else ok (wait_more r)

-- strchr for CR: the bytes in front of it and those behind, no CR in front of a NUL, or a read past
-- the end of the buffer.
pub data Search : Type 0 where
  found : (front : Bytes) → (rest : Bytes) → Search
  absent outside : Search

abbrev pub in_front : ℕ → Search → Search
in_front c (found front rest) = found (c ∷ front) rest
in_front c absent = absent
in_front c outside = outside

pub find_cr : Bytes → Search
find_cr [] = outside
find_cr (c ∷ cs) =
    let next = find_cr cs in
    if c == 13 then found [] cs else if c == 0 then absent else in_front c next

pub is_response_obj : Option MsgObj → Outcome Bool
is_response_obj none = fault
is_response_obj (some (response code reason version)) = ok true
is_response_obj (some (request method uri version)) = ok false
is_response_obj (some (channel_data channel)) = ok false

-- The body of a response is as long as Content-Length says, if it is positive as a `long`.
body_of_size : ℕ → RtspMsg → Outcome (RtspMsg × BuilderState)
body_of_size size m =
    if ltb 0 size && ltb size 2147483648
    then (do (m', _) ← set_body_size (size + 1) m; ok (m', state_data_body))
    else ok (m, state_end)

sized_body : Option Bytes → RtspMsg → Outcome (RtspMsg × BuilderState)
unfolding body_of_size
sized_body none m = fault
sized_body (some v) m = body_of_size (atoi (skip_spaces (c_string v))) m

pub end_headers : Option (Option Bytes) → RtspMsg → Outcome (RtspMsg × BuilderState)
unfolding is_response_obj sized_body
end_headers none m = ok (m, state_end)
end_headers (some v) m = do
  sized ← is_response_obj m.obj
  if sized then sized_body v m else ok (m, state_end)

pub starts_with : Bytes → Bytes → Bool
starts_with [] s = true
starts_with (c ∷ cs) [] = false
starts_with (c ∷ cs) (d ∷ ds) = if c == d then starts_with cs ds else false

-- NormalizeLine and TrimRightSpace.
pub clean : Bytes → Bytes
clean line = trim_right_space (normalize_line line).1

-- The first line, and one of a later number.
pub parse_numbered : Leftover → ℕ → Bytes → RtspMsg → Outcome (RtspMsg × ℕ)
unfolding starts_with
parse_numbered l zero line m =
    if starts_with (codes "RTSP") line
    then parse_response_status l.major l.minor l.version line m
    else ok (parse_request_line l.major l.minor l.version line m)
parse_numbered l (suc n) line m = parse_line line m

-- A line that is refused is left where it is; what NormalizeLine has made of it in the buffer is not
-- kept, since no state reads it again.
line_taken : Run → Bytes → Bytes → RtspMsg × ℕ → Run
line_taken r line rest (m, e) =
    if e == z3_eok
    then record r {
      msg = m;
      result = e;
      line = r.line + 1;
      offset = r.offset + (length line + 2);
      text = rest;
    }
    else record r { msg = m; result = e; state = state_end }

-- The line up to CR LF and what follows; an empty line ends the headers.
line_round : Leftover → Run → Bytes → Bytes → Outcome Run
unfolding end_headers parse_numbered line_taken clean
line_round l r [] rest = do
  (m, state) ← end_headers (get_header r.msg hdr_content_length 0) r.msg
  ok (record r { msg = m; state = state; offset = r.offset + 2; text = rest })
line_round l r (c ∷ cs) rest = do
  made ← parse_numbered l r.line (clean (c ∷ cs)) r.msg
  ok (line_taken r (c ∷ cs) rest made)

lines_round : Leftover → Run → Search → Outcome Run
unfolding line_round
lines_round l r outside = fault
lines_round l r absent = ok (wait_more r)
lines_round l r (found front []) = fault
lines_round l r (found front (c ∷ rest)) =
    if c == 10
    then line_round l r front rest
    else ok (record r { result = z3_error; state = state_end })

-- The switch.
pub round : Leftover → Run → Outcome Run
unfolding start_round header_round body_round lines_round find_cr
round l r = elim r.state [
  | state_start ↦ start_round r r.text
  | state_data_header ↦ header_round r r.text
  | state_data_body ↦ body_round r
  | state_read_lines ↦ lines_round l r (find_cr r.text)
  | state_end ↦ ok (record r { stop = true })
]

abbrev pub goes_on : Run → Bool
goes_on r = not r.stop && ltb r.offset r.bytes

pub rounds : ℕ → Leftover → Run → Outcome Run
unfolding round
rounds zero l r = hangs
rounds (suc fuel) l r = do
  r' ← round l r
  elim (goes_on r') [ true ↦ rounds fuel l r' | false ↦ ok r' ]

-- After the loop: what is left moves to the front of the buffer, if anything is.
pub finished : Bytes → Run → ℕ × RtspParser
finished received r =
    let left : Bool = ltb r.offset r.bytes in
    (
      r.result,
      record {
        msg = r.msg;
        completed = r.result == z3_eok;
        state = r.state;
        line = r.line;
        received = (if left then take (r.bytes - r.offset) r.text else received);
        offset = (if left then 0 else r.offset);
      },
    )

unfoldable pub first_run : RtspParser → Bytes → Bytes → Run
first_run p received behind = record {
  msg = p.msg;
  state = p.state;
  line = p.line;
  text = received ++ behind;
  offset = 0;
  bytes = length received;
  result = z3_error;
  stop = false;
}

-- Each round but the first and the last takes a byte off, so the fuel is enough.
parse_received : Leftover → RtspParser → Bytes → Outcome (ℕ × RtspParser)
unfolding rounds finished first_run
parse_received l p received =
    if p.offset == 0
    then (do
      r ← rounds (length (received ++ l.behind) + 3) l (first_run p received l.behind)
      ok (finished received r))
    else fault

-- A completed message is given up, and so is what the buffer still holds.
pub reset : RtspParser → RtspParser
unfolding unset
reset p =
    if p.completed
    then record {
      msg = unset p.msg;
      completed = false;
      state = state_start;
      line = 0;
      received = [];
      offset = 0;
    }
    else p

-- `nReadBytes`: bytes that do not fit the buffer are dropped.
pub appended : Bytes → Bytes → Bytes
appended received buf = received ++ take (rtsp_recvbuf_size - length received) buf

parse_bytes : Leftover → Bytes → RtspParser → Outcome (ℕ × RtspParser)
unfolding parse_received appended
parse_bytes l [] p = ok (z3_error, p)
parse_bytes l (c ∷ cs) p = parse_received l p (appended p.received (c ∷ cs))

-- `none` is NULL. The message is passed on exactly if the result is Z3_EOK.
pub parse : Leftover → Option Bytes → RtspParser → Outcome (ℕ × RtspParser)
unfolding parse_bytes reset
parse l none p = ok (z3_error, reset p)
parse l (some buf) p = parse_bytes l buf (reset p)
