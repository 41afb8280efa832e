-- ===== src/Text/Version.antt =====
-- ParseProtocolVersion, which the sources have twice: as a function of z3_rtsp_def.cpp and as a
-- method of RtspProtoParser in z3_rtsp_proto_parser.cpp.
pub mod Check
pub mod Split
use z3_engine.Base.{
  ℕ, zero, suc, ◌+◌, ◌-◌, ◌*◌, ◌%◌, Bool, true, false, ◌&&◌, ◌||◌, not, List, [], ◌∷◌, Option, none,
  some, leb, ◌==◌, if◌then◌else◌, Bytes, codes,
}
use z3_engine.Text.Lines.{skip_spaces}
use z3_engine.Text.Tables.{same_text}

abbrev pub z3_eok : ℕ
z3_eok = 0

abbrev pub z3_error : ℕ
z3_error = 0x399B6001

abbrev pub z3_rtsp_eparse : ℕ
z3_rtsp_eparse = 0x80001002

-- Splits at the first byte that is `sep`: what stands before and what behind it. `strchr` fails
-- where there is none.
unfoldable pub split_at : ℕ → Bytes → Option (Bytes × Bytes)
split_at sep [] = none
split_at sep (c ∷ cs) =
    if c == sep
    then some ([], cs)
    else elim (split_at sep cs) [ none ↦ none | some (a, b) ↦ some (c ∷ a, b) ]

pub is_digit : ℕ → Bool
is_digit c = leb b'0' c && leb c b'9'

-- The digits of `%u` behind its first, with the value so far; the value wraps at 32 bits.
unfoldable pub digits : ℕ → Bytes → ℕ × Bytes
unfolding is_digit
digits value [] = (value, [])
digits value (c ∷ cs) =
    let rest = digits ((value * 10 + (c - b'0')) % 4294967296) cs in
    if is_digit c then rest else (value, c ∷ cs)

-- One `%u`: whitespace, a sign, at least one digit.
unfoldable pub number : Bool → Bytes → Option (ℕ × Bytes)
number negative [] = none
number negative (c ∷ cs) =
    if is_digit c
    then (let (value, rest) = digits 0 (c ∷ cs) in
        some ((if negative then (4294967296 - value) % 4294967296 else value), rest))
    else none

unfoldable pub signed : Bytes → Option (ℕ × Bytes)
unfolding number
signed [] = none
signed (c ∷ cs) =
    if c == b'-'
    then number true cs
    else if c == b'+'
    then number false cs
    else number false (c ∷ cs)

unfoldable pub scan_u : Bytes → Option (ℕ × Bytes)
unfolding signed digits is_digit
scan_u s = signed (skip_spaces s)

-- What `sscanf_s(s, "%u.%u%c", …)` returns, with what it has written to the two numbers; they keep
-- their old values where it does not get so far.
pub record Scanned : Type 0 where
  pub count : ℕ
  pub major : ℕ
  pub minor : ℕ

unfoldable pub scan_minor : ℕ → ℕ → Option (ℕ × Bytes) → Scanned
scan_minor major minor none = record { count = 1; major = major; minor = minor }
scan_minor major minor (some (v, [])) = record { count = 2; major = major; minor = v }
scan_minor major minor (some (v, c ∷ cs)) = record { count = 3; major = major; minor = v }

unfoldable pub scan_dot : ℕ → ℕ → Bytes → Scanned
unfolding scan_minor scan_u
scan_dot major minor [] = record { count = 1; major = major; minor = minor }
scan_dot major minor (c ∷ cs) =
    if c == b'.'
    then scan_minor major minor (scan_u cs)
    else record { count = 1; major = major; minor = minor }

unfoldable pub scan_major : ℕ → ℕ → Option (ℕ × Bytes) → Scanned
unfolding scan_dot
scan_major major minor none = record { count = 0; major = major; minor = minor }
scan_major major minor (some (v, rest)) = scan_dot v minor rest

unfoldable pub scan_version : ℕ → ℕ → Bytes → Scanned
unfolding scan_major scan_u
scan_version major minor s = scan_major major minor (scan_u s)

-- The version that is written through the pointer, if one is, and the result.
abbrev pub VersionReply : Type 0
VersionReply = Option ℕ × ℕ

abbrev pub version_invalid : ℕ
version_invalid = 0

-- z3_rtsp_def.cpp. `major` and `minor` are what the two variables hold before the scan.
after_scan : Bytes → Scanned → VersionReply
after_scan protocol r =
    let res = if r.count == 2 then z3_eok else z3_rtsp_eparse in
    if same_text protocol (codes "RTSP")
    then (if not (r.major == 1) || not (r.minor == 0)
        then (some version_invalid, z3_error)
        else (none, res))
    else (none, z3_rtsp_eparse)

version_of : ℕ → ℕ → Option (Bytes × Bytes) → VersionReply
unfolding after_scan scan_version
version_of major minor none = (none, z3_rtsp_eparse)
version_of major minor (some (protocol, ver)) = after_scan protocol (scan_version major minor ver)

pub parse_protocol_version : ℕ → ℕ → Bytes → VersionReply
unfolding version_of split_at
parse_protocol_version major minor text = version_of major minor (split_at b'/' text)

-- z3_rtsp_proto_parser.cpp: the result of the scan is overwritten on every branch.
unfoldable pub after_scan' : Bytes → Scanned → VersionReply
after_scan' protocol r =
    if same_text protocol (codes "rtsp")
    then (if not (r.major == 1) || not (r.minor == 0)
        then (some version_invalid, z3_error)
        else (none, z3_eok))
    else (none, z3_rtsp_eparse)

unfoldable pub version_of' : ℕ → ℕ → Option (Bytes × Bytes) → VersionReply
unfolding after_scan' scan_version
version_of' major minor none = (none, z3_rtsp_eparse)
version_of' major minor (some (protocol, ver)) = after_scan' protocol (scan_version major minor ver)

unfoldable pub parser_protocol_version : ℕ → ℕ → Bytes → VersionReply
unfolding version_of' split_at
parser_protocol_version major minor text = version_of' major minor (split_at b'/' text)
