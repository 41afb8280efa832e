-- ===== src/Text/Version/Check.antt =====
-- The two versions of ParseProtocolVersion accept different texts.
use z3_engine.Base.{none, ℕ, ◌≡◌, ◌↔◌, refl, true, some, [], ◌∷◌, arith, Bytes, codes}
use z3_engine.Text.Tables.{same_text, to_lower}
use z3_engine.Text.Lines.{skip_spaces, skip_while, is_space}
use z3_engine.Text.Version.{
  parse_protocol_version, parser_protocol_version, version_of, version_of', after_scan, after_scan',
  scan_version, scan_major, scan_dot, scan_minor, scan_u, signed, number, digits, is_digit, Scanned,
  split_at, z3_eok,
}

-- What a text must be for its version to be accepted, but for what stands behind the numbers.
abbrev pub IsVersion1 : Bytes → Scanned → Type 0
IsVersion1 protocol r = (same_text protocol (codes "rtsp") ≡ true) × (r.major ≡ 1) × (r.minor ≡ 0)

same_text_upper : (p : Bytes) → same_text p (codes "RTSP") ≡ same_text p (codes "rtsp")
unfolding same_text
same_text_upper [] = refl
same_text_upper (a ∷ []) = refl
same_text_upper (a ∷ b ∷ []) = refl
same_text_upper (a ∷ b ∷ c ∷ []) = refl
same_text_upper (a ∷ b ∷ c ∷ d ∷ []) = refl
same_text_upper (a ∷ b ∷ c ∷ d ∷ e ∷ rest) = refl

after_scan-ok :
    (protocol : Bytes) (r : Scanned)
    → (after_scan protocol r).1 ≡ z3_eok ↔ IsVersion1 protocol r × (r.count ≡ 2)
unfolding after_scan
after_scan-ok protocol r = rw (same_text_upper protocol) ((λ h. ground arith), (λ h. ground arith))

after_scan'-ok :
    (protocol : Bytes) (r : Scanned) → (after_scan' protocol r).1 ≡ z3_eok ↔ IsVersion1 protocol r
unfolding after_scan'
after_scan'-ok protocol r = ((λ h. ground arith), (λ h. ground arith))

-- The function `ParseProtocolVersion` accepts a text with a `/` exactly if the part before the
-- first `/` is `rtsp` in some mix of cases, the two numbers come out as 1 and 0, and `sscanf_s`
-- converts these two and nothing more.
pub parse_protocol_version-ok :
    (major minor : ℕ) (text protocol ver : Bytes)
    → split_at b'/' text ≡ some (protocol, ver)
    → (parse_protocol_version major minor text).1 ≡ z3_eok
      ↔ IsVersion1 protocol (scan_version major minor ver)
        × ((scan_version major minor ver).count ≡ 2)
unfolding parse_protocol_version version_of
parse_protocol_version-ok major minor text protocol ver e =
    rw (e, version_of) (after_scan-ok protocol (scan_version major minor ver))

-- The method `RtspProtoParser::ParseProtocolVersion` accepts a text with a `/` exactly if the part
-- before the first `/` is `rtsp` in some mix of cases and the two numbers come out as 1 and 0,
-- however many of them `sscanf_s` converts.
pub parser_protocol_version-ok :
    (major minor : ℕ) (text protocol ver : Bytes)
    → split_at b'/' text ≡ some (protocol, ver)
    → (parser_protocol_version major minor text).1 ≡ z3_eok
      ↔ IsVersion1 protocol (scan_version major minor ver)
unfolding parser_protocol_version version_of'
parser_protocol_version-ok major minor text protocol ver e =
    rw (e, version_of') (after_scan'-ok protocol (scan_version major minor ver))

pub parser_protocol_version-1_0 :
    (major minor : ℕ) → parser_protocol_version major minor (codes "RTSP/1.0") ≡ (none, z3_eok)
unfolding parser_protocol_version split_at version_of' after_scan' scan_version scan_major scan_dot
    scan_minor scan_u signed number digits is_digit same_text to_lower skip_spaces skip_while
    is_space
parser_protocol_version-1_0 major minor = refl
