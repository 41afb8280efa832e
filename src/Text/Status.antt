-- ===== src/Text/Status.antt =====
-- RTSP_STATUS_AS_TEXT and RTSP_OPTIONS_AS_TEXT of
-- z3_rtsp_client/z3_rtsp_def.cpp.
use z3_engine.Base.{
  ℕ, ◌+◌, ◌/◌, ◌%◌, ◌^◌, ◌≡◌, ◌≢◌, ◌≤◌, refl, Bool, true, false, List, [], ◌∷◌, ◌++◌, reverse,
  arith, ◌==◌, if◌then◌else◌, Bytes, codes, length, length-append, Bool-cases, inl, inr, not, ◌&&◌,
  ap,
}

-- The cases of the switch, in its order, and its default.
abbrev pub status_texts : List (ℕ × Bytes)
status_texts =
    (100, codes "Continue")
    ∷ (200, codes "OK")
    ∷ (201, codes "Created")
    ∷ (250, codes "Low on Storage Space")
    ∷ (300, codes "Multiple Choices")
    ∷ (301, codes "Moved Permanently")
    ∷ (302, codes "Move Temporarily")
    ∷ (303, codes "See Other")
    ∷ (304, codes "Not Modified")
    ∷ (305, codes "Use Proxy")
    ∷ (400, codes "Bad Request")
    ∷ (401, codes "Unauthorized")
    ∷ (402, codes "Payment Required")
    ∷ (403, codes "Forbidden")
    ∷ (404, codes "Not Found")
    ∷ (405, codes "Method Not Allowed")
    ∷ (406, codes "Not Acceptable")
    ∷ (407, codes "Proxy Authentication Required")
    ∷ (408, codes "Request Time-out")
    ∷ (410, codes "Gone")
    ∷ (411, codes "Length Required")
    ∷ (412, codes "Precondition Failed")
    ∷ (413, codes "Request Entity Too Large")
    ∷ (414, codes "Request-URI Too Large")
    ∷ (415, codes "Unsupported Media Type")
    ∷ (451, codes "Parameter Not Understood")
    ∷ (452, codes "Conference Not Found")
    ∷ (453, codes "Not Enough Bandwidth")
    ∷ (454, codes "Session Not Found")
    ∷ (455, codes "Method Not Valid in This State")
    ∷ (456, codes "Header Field Not Valid for Resource")
    ∷ (457, codes "Invalid Range")
    ∷ (458, codes "Parameter Is Read-Only")
    ∷ (459, codes "Aggregate operation not allowed")
    ∷ (460, codes "Only aggregate operation allowed")
    ∷ (461, codes "Unsupported transport")
    ∷ (462, codes "Destination unreachable")
    ∷ (500, codes "Internal Server Error")
    ∷ (501, codes "Not Implemented")
    ∷ (502, codes "Bad Gateway")
    ∷ (503, codes "Service Unavailable")
    ∷ (504, codes "Gateway Time-out")
    ∷ (505, codes "RTSP Version not supported")
    ∷ (551, codes "Option not supported")
    ∷ []

unfoldable pub switch : List (ℕ × Bytes) → Bytes → ℕ → Bytes
switch [] default code = default
switch ((c, text) ∷ rest) default code = if code == c then text else switch rest default code

unfoldable pub rtsp_status_as_text : ℕ → Bytes
unfolding switch
rtsp_status_as_text code = switch status_texts (codes "Unknown Method") code

-- The bits in the order in which the text lists them.
abbrev pub option_names : List (ℕ × Bytes)
option_names =
    (3, codes "OPTIONS, ")
    ∷ (0, codes "DESCRIBE, ")
    ∷ (1, codes "ANNOUNCE, ")
    ∷ (4, codes "PAUSE, ")
    ∷ (5, codes "PLAY, ")
    ∷ (6, codes "RECORD, ")
    ∷ (7, codes "REDIRECT, ")
    ∷ (8, codes "SETUP, ")
    ∷ (2, codes "GET_PARAMETER, ")
    ∷ (9, codes "SET_PARAMETER, ")
    ∷ (10, codes "TEARDOWN, ")
    ∷ []

pub add_options : List (ℕ × Bytes) → ℕ → Bytes
add_options [] options = []
add_options ((b, name) ∷ rest) options =
    (if options / 2 ^ b % 2 == 0 then [] else name) ++ add_options rest options

-- From the end: the bytes down to the last comma go, but never the first byte.
cut_comma : Bytes → Bytes
cut_comma [] = []
cut_comma (c ∷ []) = c ∷ []
cut_comma (c ∷ d ∷ rest) = if c == b',' then d ∷ rest else cut_comma (d ∷ rest)

abbrev pub rtsp_options_as_text : ℕ → Bytes
unfolding add_options cut_comma
rtsp_options_as_text options = reverse (cut_comma (reverse (add_options option_names options)))

is_nil : Bytes → Bool
is_nil [] = true
is_nil (c ∷ cs) = false

all_texts : List (ℕ × Bytes) → Bool
all_texts [] = true
all_texts ((c, text) ∷ rest) = not (is_nil text) && all_texts rest

switch_text :
    (t : List (ℕ × Bytes)) (default : Bytes) (code : ℕ)
    → all_texts t ≡ true
    → is_nil default ≡ false
    → is_nil (switch t default code) ≡ false
unfolding switch all_texts
switch_text [] default code n d = d
switch_text ((c, text) ∷ rest) default code n d = ground (arith, switch_text rest default code)

-- Every code has a reason phrase that is not empty, the unknown ones too.
pub rtsp_status_as_text-ne-nil : (code : ℕ) → rtsp_status_as_text code ≢ []
unfolding rtsp_status_as_text is_nil all_texts
rtsp_status_as_text-ne-nil code e =
    cc (ap is_nil e, switch_text status_texts (codes "Unknown Method") code refl refl)

abbrev total_length : List (ℕ × Bytes) → ℕ
total_length [] = 0
total_length ((b, name) ∷ rest) = length name + total_length rest

add_options_bound :
    (t : List (ℕ × Bytes)) (options : ℕ) → length (add_options t options) ≤ total_length t
unfolding add_options
add_options_bound [] options = omega arith
add_options_bound ((b, name) ∷ rest) options = elim (Bool-cases (options / 2 ^ b % 2 == 0)) [
  | inl t ↦ rw t (omega (arith, add_options_bound rest options))
  | inr f ↦
      rw f (
        omega
          (arith, length-append name (add_options rest options), add_options_bound rest options))
]

-- For any word of methods, what `RTSP_OPTIONS_AS_TEXT` has written with `strcat` fits in the 128
-- bytes of its buffer, the NUL included.
pub add_options_fits : (options : ℕ) → length (add_options option_names options) + 1 ≤ 128
add_options_fits options = omega (arith, add_options_bound option_names options)
