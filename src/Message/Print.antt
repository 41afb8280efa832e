-- ===== src/Message/Print.antt =====
-- ToString and AppendHeaders of RtspMsg, in z3_rtsp_client/z3_rtsp_msg.cpp. `_snprintf_s` with a text
-- that does not fit stops the program; a NULL for `%s` prints `(null)`.
pub mod Data
pub mod Lines
use z3_engine.Base.{
  ℕ, zero, suc, ◌+◌, ◌-◌, ◌/◌, ◌%◌, Bool, true, false, ◌||◌, Option, none, some, [], ◌∷◌, ◌++◌, ltb,
  leb, ◌==◌, if◌then◌else◌, Bytes, codes, length, take, Outcome, ok, fault, ◌>>=◌,
}
use z3_engine.Message.Headers.{KeyValue, KeyValues}
use z3_engine.Message.Msg.{
  MsgObj, request, response, channel_data, RtspMsg, c_string, add_header, remove_header,
}
use z3_engine.Text.Tables.{rtsp_method_as_text, rtsp_header_as_text}

abbrev pub string_max : ℕ
string_max = 1500

abbrev pub crlf : Bytes
crlf = 13 ∷ 10 ∷ []

pub printed : ℕ → Bytes → Outcome Bytes
printed room text = if ltb (length text) room then ok text else fault

abbrev pub or_null : Option Bytes → Bytes
or_null none = codes "(null)"
or_null (some text) = text

unfoldable pub has_nul : Bytes → Bool
has_nul [] = false
has_nul (c ∷ cs) = c == 0 || has_nul cs

-- A value of fewer than 64 bytes lies in `m_szInit`, which is zero behind it; a longer one ends
-- only if a NUL was copied with it.
unfoldable pub terminated : Bytes → Bool
unfolding has_nul
terminated v = has_nul v || ltb (length v) 64

pub value_text : Option Bytes → Outcome Bytes
unfolding terminated
value_text none = ok (or_null none)
value_text (some v) = if terminated v then ok (c_string v) else fault

-- What a call of printf leaves is shorter than its room, so the code's test of the room holds.
pub append_headers : (ℕ → KeyValue) → ℕ → ℕ → ℕ → Outcome Bytes
unfolding value_text printed
append_headers slots i zero room = ok []
append_headers slots i (suc n) room = do
  name ← rtsp_header_as_text (slots i).field
  value ← value_text (slots i).value
  line ← printed room (or_null name ++ (codes ": " ++ (value ++ crlf)))
  rest ← append_headers slots (i + 1) n (room - length line)
  ok (line ++ rest)

-- `%d` of a number that is not negative.
pub digits_of : ℕ → ℕ → Bytes
digits_of zero n = []
digits_of (suc fuel) n =
    let front = digits_of fuel (n / 10) in
    (if n / 10 == 0 then [] else front) ++ ((b'0' + n % 10) ∷ [])

pub decimal : ℕ → Bytes
unfolding digits_of
decimal n = digits_of 10 n

abbrev pub hdr_date : ℕ
hdr_date = 18

abbrev pub hdr_content_length : ℕ
hdr_content_length = 14

pub has_body : Option Bytes → ℕ → Bool
has_body none size = false
has_body (some b) size = ltb 0 size

-- The headers and the empty line behind the first line; no header at all is a failure.
pub end_lines : Bytes → Bytes → RtspMsg → Outcome (Option Bytes × RtspMsg)
unfolding printed
end_lines line hs m = if length hs == 0 then ok (none, m) else (do
  last ← printed (string_max - length line - length hs) crlf
  ok (some (line ++ (hs ++ last)), m))

pub header_lines : Bytes → Option KeyValues → RtspMsg → Outcome (Option Bytes × RtspMsg)
unfolding append_headers end_lines
header_lines line none m = fault
header_lines line (some a) m = do
  hs ← append_headers a.slots 0 a.sum (string_max - length line)
  end_lines line hs m

-- A message with a body meets `assert(false)`.
pub finish : Bytes → RtspMsg → Outcome (Option Bytes × RtspMsg)
unfolding has_body header_lines
finish line m = do
  (_, m') ← remove_header hdr_content_length none m
  if has_body m'.body m'.body_size then fault else header_lines line m'.headers m'

pub data_text : ℕ → Option Bytes → ℕ → Outcome Bytes
data_text channel none size = if size == 0 then ok (b'$' ∷ channel ∷ 0 ∷ 0 ∷ []) else fault
data_text channel (some body) size =
    ok (b'$' ∷ channel ∷ (size / 256 % 256) ∷ (size % 256) ∷ take size body)

pub to_string_of : Bytes → Option MsgObj → RtspMsg → Outcome (Option Bytes × RtspMsg)
unfolding printed finish decimal data_text
to_string_of date none m = fault
to_string_of date (some (request method uri version)) m = do
  text ← rtsp_method_as_text method
  line ← printed string_max (or_null text ++ (codes " " ++ (uri ++ (codes " RTSP/1.0" ++ crlf))))
  finish line m
to_string_of date (some (response code reason version)) m = do
  line ← printed string_max (codes "RTSP/1.0 " ++ (decimal code ++ (codes " " ++ (reason ++ crlf))))
  (_, m1) ← remove_header hdr_date none m
  (_, m2) ← add_header hdr_date (date ++ (0 ∷ [])) m1
  finish line m2
to_string_of date (some (channel_data channel)) m =
    if leb string_max (m.body_size + 4)
    then ok (none, m)
    else (do text ← data_text channel m.body m.body_size; ok (some text, m))

-- `memory` tells whether z3_malloc has room, and `date` is what GenerateDateString writes. The result
-- is the text, or `none` where ToString returns false.
unfoldable pub to_string : Bool → Bytes → RtspMsg → Outcome (Option Bytes × RtspMsg)
unfolding to_string_of
to_string memory date m = if memory then to_string_of date m.obj m else ok (none, m)
