-- ===== src/Text/Tables.antt =====
-- The tables of z3_rtsp_client/z3_rtsp_def.cpp: methods, header fields, status codes, and their
-- lookups. A method is one bit of a 32-bit word, a header field its place in the table plus one.
pub mod RoundTrip
use Prim.Native.String.{String}
use z3_engine.Base.{
  ℕ, zero, suc, ◌+◌, ◌-◌, ◌/◌, ◌%◌, ◌^◌, Bool, true, false, ◌&&◌, List, [], ◌∷◌, ◌++◌, reverse,
  Option, none, some, leb, ◌==◌, if◌then◌else◌, Bytes, codes, get_elem?, Outcome, ok, fault, hangs,
}

-- tolower of the C locale, and _stricmp compared with 0.
unfoldable pub to_lower : ℕ → ℕ
to_lower c = if leb b'A' c && leb c b'Z' then c + 32 else c

unfoldable pub same_text : Bytes → Bytes → Bool
unfolding to_lower
same_text [] [] = true
same_text [] (d ∷ ds) = false
same_text (c ∷ cs) [] = false
same_text (c ∷ cs) (d ∷ ds) = to_lower c == to_lower d && same_text cs ds

-- RTSP_METHODS without its NULL.
abbrev pub rtsp_methods : List Bytes
rtsp_methods =
    codes "DESCRIBE"
    ∷ codes "ANNOUNCE"
    ∷ codes "GET_PARAMETER"
    ∷ codes "OPTIONS"
    ∷ codes "PAUSE"
    ∷ codes "PLAY"
    ∷ codes "RECORD"
    ∷ codes "REDIRECT"
    ∷ codes "SETUP"
    ∷ codes "SET_PARAMETER"
    ∷ codes "TEARDOWN"
    ∷ codes "GET"
    ∷ codes "POST"
    ∷ []

pub record Header : Type 0 where
  pub name : Bytes
  pub multiple : Bool

abbrev pub single : String → Header
single name = record { name = codes name; multiple = false }

abbrev pub several : String → Header
several name = record { name = codes name; multiple = true }

-- RTSP_HEADERS without its last entry.
abbrev pub rtsp_headers : List Header
rtsp_headers =
    several "Accept"
    ∷ several "Accept-Encoding"
    ∷ several "Accept-Language"
    ∷ several "Allow"
    ∷ single "Authorization"
    ∷ single "Bandwidth"
    ∷ single "Blocksize"
    ∷ several "Cache-Control"
    ∷ single "Conference"
    ∷ several "Connection"
    ∷ single "Content-Base"
    ∷ several "Content-Encoding"
    ∷ several "Content-Language"
    ∷ single "Content-Length"
    ∷ single "Content-Location"
    ∷ single "Content-Type"
    ∷ single "CSeq"
    ∷ single "Date"
    ∷ single "Expires"
    ∷ single "From"
    ∷ single "If-Modified-Since"
    ∷ single "Last-Modified"
    ∷ several "Proxy-Authenticate"
    ∷ several "Proxy-Require"
    ∷ several "Public"
    ∷ single "Range"
    ∷ single "Referer"
    ∷ several "Require"
    ∷ single "Retry-After"
    ∷ several "RTP-Info"
    ∷ single "Scale"
    ∷ single "Session"
    ∷ single "Server"
    ∷ single "Speed"
    ∷ several "Transport"
    ∷ single "Unsupported"
    ∷ single "User-Agent"
    ∷ several "Via"
    ∷ several "WWW-Authenticate"
    ∷ single "Location"
    ∷ single "ETag"
    ∷ several "If-Match"
    ∷ single "Timestamp"
    ∷ single "Authentication-Info"
    ∷ single "Host"
    ∷ several "Pragma"
    ∷ single "X-Server-IP-Address"
    ∷ single "X-Sessioncookie"
    ∷ []

-- The place of the first name that matches, counted from `idx`.
unfoldable pub find_name : ℕ → List Bytes → Bytes → Option ℕ
find_name idx [] name = none
find_name idx (n ∷ ns) name = if same_text n name then some idx else find_name (idx + 1) ns name

abbrev pub names : List Header → List Bytes
names [] = []
names (h ∷ hs) = h.name ∷ names hs

abbrev pub rtsp_invalid : ℕ
rtsp_invalid = 0

unfoldable pub method_of : Option ℕ → ℕ
method_of none = rtsp_invalid
method_of (some idx) = 2 ^ idx

unfoldable pub rtsp_find_method : Bytes → ℕ
unfolding find_name same_text method_of
rtsp_find_method method = method_of (find_name 0 rtsp_methods method)

unfoldable pub field_of : Option ℕ → ℕ
field_of none = 0
field_of (some idx) = idx + 1

unfoldable pub rtsp_find_header_field : Bytes → ℕ
unfolding find_name same_text field_of
rtsp_find_header_field header = field_of (find_name 0 (names rtsp_headers) header)

-- A read of a table at an index: the entry after the last is NULL, the next ones are outside.
unfoldable pub table_at {ℓ} : {A : Type ℓ} → List A → ℕ → Outcome (Option A)
table_at [] zero = ok none
table_at [] (suc i) = fault
table_at (x ∷ xs) zero = ok (some x)
table_at (x ∷ xs) (suc i) = table_at xs i

-- `while ((method & 1) == 0)`: which bit is the lowest; a 32-bit word that is not 0 has one.
lowest_bit : ℕ → ℕ → ℕ → Option ℕ
lowest_bit zero i method = none
lowest_bit (suc fuel) i method =
    let rest = lowest_bit fuel (i + 1) (method / 2) in if method % 2 == 0 then rest else some i

text_at : Option ℕ → Outcome (Option Bytes)
unfolding table_at
text_at none = hangs
text_at (some i) = table_at rtsp_methods i

unfoldable pub rtsp_method_as_text : ℕ → Outcome (Option Bytes)
unfolding text_at lowest_bit
rtsp_method_as_text method =
    if method == rtsp_invalid then ok none else text_at (lowest_bit 32 0 method)

pub header_name : Outcome (Option Header) → Outcome (Option Bytes)
header_name (ok none) = ok none
header_name (ok (some h)) = ok (some h.name)
header_name fault = fault
header_name hangs = hangs

unfoldable pub rtsp_header_as_text : ℕ → Outcome (Option Bytes)
unfolding table_at header_name
rtsp_header_as_text field =
    if field == 0 then ok none else header_name (table_at rtsp_headers (field - 1))

-- The last entry says false.
unfoldable pub header_multiple : Outcome (Option Header) → Outcome Bool
header_multiple (ok none) = ok false
header_multiple (ok (some h)) = ok h.multiple
header_multiple fault = fault
header_multiple hangs = hangs

unfoldable pub rtsp_header_allow_multiple : ℕ → Outcome Bool
unfolding table_at header_multiple
rtsp_header_allow_multiple field =
    if field == 0 then ok false else header_multiple (table_at rtsp_headers (field - 1))
