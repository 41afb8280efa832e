-- ===== src/Sdp.antt =====
-- The session descriptions of z3_rtsp_client/z3_sdp.cpp and z3_sdp.hpp: the objects and their
-- setters. A null vector and an empty one are the same list, and `new` succeeds. SDPTime, SDPZone
-- and SDPKey, which no line fills, are left out.
pub mod Line
pub mod Document
mod Tests
use z3_engine.Base.{
  ℕ, zero, suc, ◌+◌, ◌-◌, ◌*◌, ◌%◌, Bool, true, false, List, [], ◌∷◌, ◌++◌, Option, none, some, ltb,
  leb, ◌==◌, if◌then◌else◌, Bytes, codes, length, get_elem?, Outcome, ok, fault, ◌>>=◌,
}
use z3_engine.Text.Tables.{same_text}
use z3_engine.Text.Version.{digits}

-- _z3_strdup of z3_utilib/z3_alloc.c, the allocator of the debug build: an empty text gives NULL.
unfoldable pub z3_strdup : Bytes → Option Bytes
z3_strdup [] = none
z3_strdup (c ∷ cs) = some (c ∷ cs)

-- The setters that return the length of the copy: `strlen` stops at NULL.
unfoldable pub set_field : Bytes → Outcome (Option Bytes)
unfolding z3_strdup
set_field [] = fault
set_field (c ∷ cs) = ok (z3_strdup (c ∷ cs))

pub record SdpBandwidth : Type 0 where
  pub bw_type : Option Bytes
  pub bandwidth : ℕ

pub record SdpOrigin : Type 0 where
  pub username : Option Bytes
  pub sess_id : Option Bytes
  pub sess_version : Option Bytes
  pub net_type : Option Bytes
  pub addr_type : Option Bytes
  pub addr : Option Bytes

pub record SdpConnection : Type 0 where
  pub net_type : Option Bytes
  pub addr_type : Option Bytes
  pub address : Option Bytes
  pub ttl : ℕ
  pub addr_num : ℕ

pub record SdpAttribute : Type 0 where
  pub key : Option Bytes
  pub value : Option Bytes

pub record SdpMedia : Type 0 where
  pub media : Option Bytes
  pub port : ℕ
  pub port_num : ℕ
  pub proto : Option Bytes
  pub fmts : List Bytes
  pub info : Option Bytes
  pub connections : List SdpConnection
  pub bandwidths : List SdpBandwidth
  pub attributes : List SdpAttribute

pub record SdpMessage : Type 0 where
  pub version : Option Bytes
  pub origin : SdpOrigin
  pub session_name : Option Bytes
  pub info : Option Bytes
  pub url : Option Bytes
  pub emails : List Bytes
  pub phones : List Bytes
  pub connection : Option SdpConnection
  pub bandwidths : List SdpBandwidth
  pub attributes : List SdpAttribute
  pub medias : List SdpMedia

unfoldable pub new_origin : SdpOrigin
new_origin = record {
  username = none;
  sess_id = none;
  sess_version = none;
  net_type = none;
  addr_type = none;
  addr = none;
}

unfoldable pub new_connection : SdpConnection
new_connection = record { net_type = none; addr_type = none; address = none; ttl = 0; addr_num = 0 }

abbrev pub no_port_num : ℕ
no_port_num = 0xFFFFFFFF

unfoldable pub new_media : SdpMedia
new_media = record {
  media = none;
  port = 0;
  port_num = no_port_num;
  proto = none;
  fmts = [];
  info = none;
  connections = [];
  bandwidths = [];
  attributes = [];
}

unfoldable pub new_sdp : SdpMessage
unfolding new_origin
new_sdp = record {
  version = none;
  origin = new_origin;
  session_name = none;
  info = none;
  url = none;
  emails = [];
  phones = [];
  connection = none;
  bandwidths = [];
  attributes = [];
  medias = [];
}

-- atoi of a text with no whitespace in front, as the bits of an `int`; past 32 bits, where the C
-- standard does not say, it wraps.
unfoldable pub atoi : Bytes → ℕ
atoi [] = 0
atoi (c ∷ cs) =
    if c == b'-'
    then (4294967296 - (digits 0 cs).0) % 4294967296
    else if c == b'+'
    then (digits 0 cs).0
    else (digits 0 (c ∷ cs)).0

-- strtoul in base 10 of such a text: it stays at ULONG_MAX, and a minus negates.
pub capped : ℕ → Bytes → ℕ
capped value [] = value
capped value (c ∷ cs) =
    let more = value * 10 + (c - b'0') in
    let rest = capped (if ltb more 4294967295 then more else 4294967295) cs in
    if ltb c b'0' then value else if ltb b'9' c then value else rest

unfoldable pub strtoul : Bytes → ℕ
unfolding capped
strtoul [] = 0
strtoul (c ∷ cs) =
    if c == b'-'
    then (4294967296 - capped 0 cs) % 4294967296
    else if c == b'+'
    then capped 0 cs
    else capped 0 (c ∷ cs)

-- SDPBandwidth::SetBandwidth on a new object.
pub set_bandwidth : Bytes → ℕ → SdpBandwidth
unfolding z3_strdup
set_bandwidth type number = elim (z3_strdup type) [
  | none ↦ record { bw_type = none; bandwidth = 0 }
  | some t ↦ record { bw_type = some t; bandwidth = number }
]

unfoldable pub set_attribute : Bytes → Bytes → SdpAttribute
unfolding z3_strdup
set_attribute key value = record { key = z3_strdup key; value = z3_strdup value }

unfoldable pub media_add_attribute : Bytes → Bytes → SdpMedia → SdpMedia
unfolding set_attribute
media_add_attribute key value m = record m {
  attributes = m.attributes ++ (set_attribute key value ∷ []);
}

unfoldable pub media_add_bandwidth : Bytes → Bytes → SdpMedia → SdpMedia
unfolding set_bandwidth
media_add_bandwidth type number m = record m {
  bandwidths = m.bandwidths ++ (set_bandwidth type (atoi number) ∷ []);
}

unfoldable pub add_connection : SdpConnection → SdpMedia → SdpMedia
add_connection conn m = record m { connections = m.connections ++ (conn ∷ []) }

unfoldable pub add_format : Bytes → SdpMedia → SdpMedia
add_format format m = record m { fmts = m.fmts ++ (format ∷ []) }

pub media_set_info : Bytes → SdpMedia → Outcome SdpMedia
unfolding set_field
media_set_info text m = do t ← set_field text; ok (record m { info = t })

-- SDPMedia::GetAttributeValue over the attributes that are left; `_stricmp` stops at a null key.
pub attribute_from : List SdpAttribute → Bytes → ℕ → Outcome (Option Bytes)
attribute_from [] key nth = ok none
attribute_from (a ∷ as') key nth =
    let skipped = attribute_from as' key (nth - 1) in
    let passed = attribute_from as' key nth in
    elim a.key [
      | none ↦ fault
      | some k ↦ if same_text k key then (if nth == 0 then ok a.value else skipped) else passed
    ]

unfoldable pub get_attribute_value : SdpMedia → Bytes → ℕ → Outcome (Option Bytes)
unfolding attribute_from
get_attribute_value m key nth = attribute_from m.attributes key nth

pub set_version : Bytes → SdpMessage → Outcome SdpMessage
unfolding set_field
set_version text s = do t ← set_field text; ok (record s { version = t })

pub set_session_name : Bytes → SdpMessage → Outcome SdpMessage
unfolding set_field
set_session_name text s = do t ← set_field text; ok (record s { session_name = t })

pub set_info : Bytes → SdpMessage → Outcome SdpMessage
unfolding set_field
set_info text s = do t ← set_field text; ok (record s { info = t })

pub set_url : Bytes → SdpMessage → Outcome SdpMessage
unfolding set_field
set_url text s = do t ← set_field text; ok (record s { url = t })

unfoldable pub add_mail : Bytes → SdpMessage → SdpMessage
add_mail mail s = record s { emails = s.emails ++ (mail ∷ []) }

unfoldable pub add_phone : Bytes → SdpMessage → SdpMessage
add_phone phone s = record s { phones = s.phones ++ (phone ∷ []) }

-- The new SDPBandwidth is filled, and not put into the vector.
pub add_bandwidth : Bytes → Bytes → SdpMessage → SdpMessage
add_bandwidth type number s = s

unfoldable pub add_attribute : Bytes → Bytes → SdpMessage → SdpMessage
unfolding set_attribute
add_attribute key value s = record s { attributes = s.attributes ++ (set_attribute key value ∷ []) }

unfoldable pub add_media : SdpMedia → SdpMessage → SdpMessage
add_media m s = record s { medias = s.medias ++ (m ∷ []) }

unfoldable pub get_media_count : SdpMessage → ℕ
get_media_count s = length s.medias

-- The assertions stop at a null vector and out of range.
unfoldable pub get_sdp_media : SdpMessage → ℕ → Outcome SdpMedia
get_sdp_media s index = elim (get_elem? s.medias index) [ none ↦ fault | some m ↦ ok m ]
