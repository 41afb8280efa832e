-- ===== src/Sdp/Line.antt =====
-- SDPMessage::ParseLine of z3_rtsp_client/z3_sdp.cpp. `ctx.media` points at a media of the message:
-- it is kept as the place in the vector.
pub mod Attribute
pub mod Context
pub mod Empty
pub mod Formats
pub mod Media
use z3_engine.Base.{
  ℕ, zero, suc, ◌+◌, ◌-◌, Bool, true, false, List, [], ◌∷◌, ◌++◌, reverse, Option, none, some, ltb,
  ◌==◌, if◌then◌else◌, Bytes, codes, length, Outcome, ok, fault, hangs, ◌>>=◌,
}
use z3_engine.Sdp.{
  SdpOrigin, SdpConnection, SdpMedia, SdpMessage, new_connection, new_media, no_port_num, z3_strdup,
  set_field, set_version, set_session_name, set_info, set_url, add_mail, add_phone, add_bandwidth,
  add_attribute, add_media, media_set_info, media_add_bandwidth, media_add_attribute,
  add_connection, add_format, atoi, strtoul,
}
use z3_engine.Text.Lines.{read_string, read_string_del, Word}
use z3_engine.Text.Version.{split_at}

-- SDPContext; `in_media` is whether the state is SDP_MEDIA.
pub record SdpContext : Type 0 where
  pub in_media : Bool
  pub media : Option ℕ
  pub msg : SdpMessage

-- The buffers are of 1024 bytes.
abbrev pub buffer_size : ℕ
buffer_size = 1024

-- A change of the media at a place; past the end there is none.
unfoldable pub change_at :
    (SdpMedia → Outcome SdpMedia) → ℕ → List SdpMedia → Outcome (List SdpMedia)
change_at f place [] = fault
change_at f zero (m ∷ ms) = do m' ← f m; ok (m' ∷ ms)
change_at f (suc place) (m ∷ ms) = do ms' ← change_at f place ms; ok (m ∷ ms')

-- A call through `pCtx->media`.
unfoldable pub on_media : (SdpMedia → Outcome SdpMedia) → SdpContext → Outcome SdpContext
unfolding change_at
on_media f ctx = elim ctx.media [
  | none ↦ fault
  | some place ↦ do
    ms ← change_at f place ctx.msg.medias
    ok (record ctx { msg = record ctx.msg { medias = ms } })
]

-- A call of the message, where it may stop.
unfoldable pub on_msg : (SdpMessage → Outcome SdpMessage) → SdpContext → Outcome SdpContext
on_msg f ctx = do s ← f ctx.msg; ok (record ctx { msg = s })

-- One word is read and set.
next_field : Bytes → Outcome (Option Bytes × Bytes)
next_field p = let w = read_string buffer_size p in do t ← set_field w.word; ok (t, w.rest)

parse_origin : Bytes → Outcome SdpOrigin
unfolding next_field
parse_origin p = do
  (username, p1) ← next_field p
  (sess_id, p2) ← next_field p1
  (sess_version, p3) ← next_field p2
  (net_type, p4) ← next_field p3
  (addr_type, p5) ← next_field p4
  (addr, p6) ← next_field p5
  ok (record {
    username = username;
    sess_id = sess_id;
    sess_version = sess_version;
    net_type = net_type;
    addr_type = addr_type;
    addr = addr;
  })

-- The loop over strchr.
slashes_to_spaces : Bytes → Bytes
slashes_to_spaces [] = []
slashes_to_spaces (c ∷ cs) = (if c == b'/' then b' ' else c) ∷ slashes_to_spaces cs

unfoldable pub same_bytes : Bytes → Bytes → Bool
same_bytes [] [] = true
same_bytes [] (d ∷ ds) = false
same_bytes (c ∷ cs) [] = false
same_bytes (c ∷ cs) (d ∷ ds) = if c == d then same_bytes cs ds else false

-- strcmp with a text that is not NULL.
is_text : Option Bytes → Bytes → Bool
unfolding same_bytes
is_text none t = false
is_text (some s) t = same_bytes s t

-- The third word of an IP4 address goes to SetAddrNum.
parse_connection : Bytes → Outcome SdpConnection
unfolding next_field slashes_to_spaces is_text
parse_connection line = do
  (net_type, p1) ← next_field (slashes_to_spaces line)
  (addr_type, p2) ← next_field p1
  (address, p3) ← next_field p2
  ok (record new_connection {
    net_type = net_type;
    addr_type = addr_type;
    address = address;
    addr_num =
        (if is_text addr_type (codes "IP4") then strtoul (read_string buffer_size p3).word else 0);
  })

-- `if (*p != '\0') p++;`
past_one : Bytes → Bytes
past_one [] = []
past_one (c ∷ cs) = cs

-- strrchr for `/`: what stands before and behind the last one.
pub split_last : Bytes → Option (Bytes × Bytes)
unfolding split_at
split_last s = elim (split_at b'/' (reverse s)) [
  | none ↦ none
  | some (behind, before) ↦ some (reverse before, reverse behind)
]

pub with_ports : Option (Bytes × Bytes) → Bytes → SdpMedia → SdpMedia
with_ports (some (port, number)) word m = record m { port = atoi port; port_num = atoi number }
with_ports none word m = record m { port = atoi word; port_num = no_port_num }

pub set_ports : Bytes → SdpMedia → SdpMedia
unfolding with_ports split_last
set_ports word m = with_ports (split_last word) word m

-- The do-while loop over the formats. A round takes a byte off, or there is none.
pub read_formats : ℕ → Bytes → SdpMedia → Outcome SdpMedia
read_formats zero p m = hangs
read_formats (suc fuel) p m =
    let w = read_string buffer_size p in
    let m' = add_format w.word m in
    let rest = read_formats fuel w.rest m' in elim w.rest [ [] ↦ ok m' | _ ∷ _ ↦ rest ]

pub parse_media : Bytes → Outcome SdpMedia
unfolding set_ports read_formats
parse_media p =
    let a = read_string buffer_size p in
    let b = read_string buffer_size a.rest in
    let c = read_string buffer_size b.rest in
    let m = set_ports b.word (record new_media { media = z3_strdup a.word }) in
    read_formats (length c.rest + 1) c.rest (record m { proto = z3_strdup c.word })

add_parsed : SdpMedia → SdpContext → SdpContext
add_parsed m ctx = record ctx {
  in_media = true;
  media = some (length ctx.msg.medias);
  msg = add_media m ctx.msg;
}

keep_connection : SdpConnection → SdpContext → Outcome SdpContext
keep_connection conn ctx =
    if ctx.in_media
    then on_media (λ m. ok (add_connection conn m)) ctx
    else ok (record ctx { msg = record ctx.msg { connection = some conn } })

parse_bandwidth : Bytes → SdpContext → Outcome SdpContext
unfolding past_one
parse_bandwidth p ctx =
    let type = read_string_del buffer_size b':' p in
    let number = read_string buffer_size (past_one type.rest) in
    if ctx.in_media
    then on_media (λ m. ok (media_add_bandwidth type.word number.word m)) ctx
    else ok (record ctx { msg = add_bandwidth type.word number.word ctx.msg })

pub parse_attribute : Bytes → SdpContext → Outcome SdpContext
unfolding past_one
parse_attribute p ctx =
    let key = read_string_del buffer_size b':' p in
    if ctx.in_media
    then on_media (λ m. ok (media_add_attribute key.word (past_one key.rest) m)) ctx
    else ok (record ctx { msg = add_attribute key.word (past_one key.rest) ctx.msg })

pub parse_info : Bytes → SdpContext → Outcome SdpContext
parse_info line ctx =
    if ctx.in_media then on_media (media_set_info line) ctx else on_msg (set_info line) ctx

-- The switch over the type. The lines `t` and `k`, and those of any other type, do nothing.
unfoldable pub parse_line : SdpContext → ℕ → Bytes → Outcome SdpContext
unfolding parse_origin parse_connection parse_media add_parsed keep_connection parse_bandwidth
    parse_attribute parse_info
parse_line ctx type line =
    if type == b'v'
    then on_msg (set_version line) ctx
    else if type == b'o'
    then (do
      origin ← parse_origin line
      ok (record ctx { msg = record ctx.msg { origin = origin } }))
    else if type == b's'
    then on_msg (set_session_name line) ctx
    else if type == b'i'
    then parse_info line ctx
    else if type == b'u'
    then on_msg (set_url line) ctx
    else if type == b'e'
    then ok (record ctx { msg = add_mail line ctx.msg })
    else if type == b'p'
    then ok (record ctx { msg = add_phone line ctx.msg })
    else if type == b'c'
    then (do conn ← parse_connection line; keep_connection conn ctx)
    else if type == b'b'
    then parse_bandwidth line ctx
    else if type == b'a'
    then parse_attribute line ctx
    else if type == b'm'
    then (do m ← parse_media line; ok (add_parsed m ctx))
    else ok ctx
