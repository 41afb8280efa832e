-- ===== src/Message/Msg.antt =====
-- RtspMsg of z3_rtsp_client/z3_rtsp_msg.cpp with its three kinds of objects. Memory is not short. A
-- header's value is a C string: its bytes end at a NUL.
pub mod Answer
pub mod Copied
pub mod Data
pub mod Ends
pub mod Fields
use z3_engine.Base.{
  ℕ, zero, suc, ◌+◌, ◌-◌, Bool, true, false, Option, none, some, [], ◌∷◌, ◌++◌, ltb, leb, ◌==◌,
  if◌then◌else◌, Bytes, length, drop, Outcome, ok, fault, ◌>>=◌,
}
use z3_engine.Message.Headers.{
  KeyValues, new_key_values, add_to, get_header_in, remove_from, bytes_of,
}
use z3_engine.Text.Lines.{strchomp}
use z3_engine.Text.Status.{rtsp_status_as_text}
use z3_engine.Text.Version.{z3_eok, z3_error, version_invalid}

pub data MsgObj : Type 0 where
  request : (method : ℕ) → (uri : Bytes) → (version : ℕ) → MsgObj
  response : (code : ℕ) → (reason : Bytes) → (version : ℕ) → MsgObj
  channel_data : (channel : ℕ) → MsgObj

pub record RtspMsg : Type 0 where
  pub obj : Option MsgObj
  pub headers : Option KeyValues
  pub body : Option Bytes
  pub body_size : ℕ

abbrev pub version_1_0 : ℕ
version_1_0 = 0x10

abbrev pub z3_enomem : ℕ
z3_enomem = 0x399B6002

unfoldable pub new_msg : RtspMsg
new_msg = record { obj = none; headers = none; body = none; body_size = 0 }

unfoldable pub unset : RtspMsg → RtspMsg
unfolding new_msg
unset m = new_msg

-- An empty URI is refused, and the object deleted.
unfoldable pub init_request : ℕ → Bytes → RtspMsg → RtspMsg × ℕ
unfolding unset
init_request method uri m =
    if ltb 1 (length uri + 1)
    then (record (unset m) { obj = some (request method uri version_1_0) }, z3_eok)
    else (unset m, z3_error)

-- A header array is made by the first AddHeader.
abbrev pub array_of : Option KeyValues → KeyValues
array_of none = new_key_values
array_of (some a) = a

unfoldable pub add_header : ℕ → Bytes → RtspMsg → Outcome (ℕ × RtspMsg)
add_header field value m = do
  (e, a) ← add_to field value (array_of m.headers)
  ok (e, record m { headers = some a })

unfoldable pub get_header : RtspMsg → ℕ → ℕ → Option (Option Bytes)
get_header m field index = get_header_in m.headers field index

pub remove_in : Option KeyValues → ℕ → Option ℕ → RtspMsg → Outcome (ℕ × RtspMsg)
remove_in none field index m = ok (z3_eok, m)
remove_in (some a) field index m = do
  (e, a') ← remove_from field index a
  ok (e, record m { headers = some a' })

unfoldable pub remove_header : ℕ → Option ℕ → RtspMsg → Outcome (ℕ × RtspMsg)
unfolding remove_in
remove_header field index m = remove_in m.headers field index m

-- The bytes of a C string up to its NUL.
unfoldable pub c_string : Bytes → Bytes
c_string [] = []
c_string (c ∷ cs) = if c == 0 then [] else c ∷ c_string cs

-- strchr for `:`, and the NUL that is written there.
pub cut_at : ℕ → Bytes → Bytes
cut_at sep [] = []
cut_at sep (c ∷ cs) = if c == sep then [] else c ∷ cut_at sep cs

abbrev pub hdr_cseq : ℕ
hdr_cseq = 17

abbrev pub hdr_session : ℕ
hdr_session = 32

pub chomped : Option Bytes → Bytes
chomped s = bytes_of s

-- The session's text that is copied to the response, with its NUL.
pub session_text : Bytes → Bytes
unfolding c_string cut_at chomped
session_text v = chomped (strchomp (some (cut_at b':' (c_string v)))) ++ (0 ∷ [])

copy_cseq : Option (Option Bytes) → RtspMsg → Outcome (ℕ × RtspMsg)
unfolding add_header c_string
copy_cseq none m = ok (z3_eok, m)
copy_cseq (some none) m = fault
copy_cseq (some (some v)) m = add_header hdr_cseq (c_string v) m

-- `copy` is what z3_strdup is given: its result for no bytes is NULL, of which strlen is taken.
add_session : Bytes → Bytes → RtspMsg → Outcome (ℕ × RtspMsg)
unfolding add_header session_text
add_session [] v m = fault
add_session (_ ∷ _) v m = add_header hdr_session (session_text v) m

copy_session : Option (Option Bytes) → RtspMsg → Outcome (ℕ × RtspMsg)
unfolding add_session c_string
copy_session none m = ok (z3_eok, m)
copy_session (some none) m = fault
copy_session (some (some v)) m = add_session (c_string v) v m

-- `request` is NULL or the message that is answered. The result of copying CSeq is not looked at.
copy_headers : Option RtspMsg → RtspMsg → Outcome (RtspMsg × ℕ)
unfolding copy_cseq copy_session get_header
copy_headers none m = ok (m, z3_eok)
copy_headers (some q) m = do
  (_, m') ← copy_cseq (get_header q hdr_cseq 0) m
  (e, m'') ← copy_session (get_header q hdr_session 0) m'
  ok (m'', e)

abbrev pub reason_of : Option Bytes → ℕ → Bytes
reason_of none code = rtsp_status_as_text code
reason_of (some reason) code = reason

unfoldable pub init_response : Option RtspMsg → ℕ → Option Bytes → RtspMsg → Outcome (RtspMsg × ℕ)
unfolding copy_headers unset
init_response q code reason m =
    let text = reason_of reason code in
    if ltb 1 (length text + 1)
    then copy_headers q (record (unset m) { obj = some (response code text version_1_0) })
    else ok (unset m, z3_error)

zeros : ℕ → Bytes
zeros zero = []
zeros (suc n) = 0 ∷ zeros n

-- The object is initialised but not kept.
pub init_data : ℕ → ℕ → RtspMsg → RtspMsg × ℕ
unfolding zeros unset
init_data channel size m = (record (unset m) { body = some (zeros size); body_size = size }, z3_eok)

write_body : Option Bytes → Bytes → RtspMsg → Outcome (RtspMsg × ℕ)
write_body none buf m = fault
write_body (some old) buf m =
    if ltb (length buf) m.body_size
    then ok (record m { body = some (buf ++ drop (length buf) old) }, z3_eok)
    else fault

pub set_body : Bytes → RtspMsg → Outcome (RtspMsg × ℕ)
unfolding write_body
set_body buf m = write_body m.body buf m

new_body : Option Bytes → ℕ → RtspMsg → Outcome (RtspMsg × ℕ)
unfolding zeros
new_body (some old) size m = fault
new_body none size m =
    if m.body_size == 0
    then ok (record m { body = some (zeros size); body_size = size }, z3_eok)
    else fault

abbrev pub set_body_size : ℕ → RtspMsg → Outcome (RtspMsg × ℕ)
unfolding new_body
set_body_size size m = if ltb 0 size then new_body m.body size m else ok (m, z3_enomem)

version_of_obj : Option MsgObj → ℕ
version_of_obj (some (request method uri version)) = version
version_of_obj _ = version_invalid

abbrev pub get_version : RtspMsg → ℕ
unfolding version_of_obj
get_version m = version_of_obj m.obj

unfoldable pub with_version : Option MsgObj → ℕ → RtspMsg → RtspMsg × ℕ
with_version (some (request method uri old)) version m =
    (record m { obj = some (request method uri version) }, z3_eok)
with_version _ version m = (m, z3_error)

unfoldable pub set_version : ℕ → RtspMsg → RtspMsg × ℕ
unfolding with_version
set_version version m = with_version m.obj version m

pub method_of_obj : Option MsgObj → ℕ
method_of_obj (some (request method uri version)) = method
method_of_obj _ = 0

unfoldable pub get_method : RtspMsg → ℕ
unfolding method_of_obj
get_method m = method_of_obj m.obj

with_method : Option MsgObj → ℕ → RtspMsg → RtspMsg × ℕ
with_method (some (request old uri version)) method m =
    (record m { obj = some (request method uri version) }, z3_eok)
with_method _ method m = (m, z3_error)

abbrev pub set_method : ℕ → RtspMsg → RtspMsg × ℕ
unfolding with_method
set_method method m = with_method m.obj method m
