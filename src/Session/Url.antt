-- ===== src/Session/Url.antt =====
-- SetRequestUrl of z3_rtsp_client/z3_rtsp_session.cpp, with Connector::SetDestination of
-- z3_engine/z3_connector.cpp. Memory is not short; the text that was there before is not freed.
pub mod Parts
mod Tests
use z3_engine.Base.{
  ℕ, zero, suc, ◌+◌, ◌-◌, ◌%◌, Bool, true, false, not, ◌&&◌, ◌||◌, List, [], ◌∷◌, ◌++◌, Option,
  none, some, ltb, ◌==◌, if◌then◌else◌, Bytes, codes, length, Outcome, ok, fault, ◌>>=◌,
}
use z3_engine.Sdp.{atoi}
use z3_engine.Session.{Session, z3_einval, z3_enomem}
use z3_engine.Text.Lines.{skip_spaces}
use z3_engine.Text.Tables.{same_text}
use z3_engine.Text.Version.{split_at, z3_eok}

pub record Destination : Type 0 where
  pub host : Option Bytes
  pub port : ℕ

abbrev pub default_rtsp_port : ℕ
default_rtsp_port = 8554

pub set_destination : Bytes → ℕ → Destination → Bool × Destination
set_destination host port d =
    if ltb 0 port && ltb 0 (length host)
    then (true, record { host = some host; port = port })
    else (false, d)

-- The host's text, its port cut off; a port is cut to 16 bits.
host_of : Bytes → Option (Bytes × Bytes) → Bytes × ℕ
host_of text none = (text, default_rtsp_port)
host_of text (some (host, port)) = (host, atoi (skip_spaces port) % 65536)

pub host_port : Bytes → Bytes × ℕ
unfolding host_of
host_port text = host_of text (split_at b':' text)

destined : Session → Bool × Destination → ℕ × Session × Destination
destined s (set, d) = (if set then z3_eok else z3_enomem, s, d)

set_host : Bytes × ℕ → Session → Destination → Outcome (ℕ × Session × Destination)
unfolding set_destination destined
set_host (host, port) s d = ok (destined s (set_destination host port d))

-- From the second strchr for `/` on; a length is computed with its NULL where there is none.
with_host : Option (Bytes × Bytes) → Session → Destination → Outcome (ℕ × Session × Destination)
unfolding host_port set_host
with_host none s d = fault
with_host (some (text, resource)) s d = set_host (host_port text) s d

-- The two bytes behind the colon, read past the NUL where the text ends before them.
behind_colon : Bytes → Session → Destination → Outcome (ℕ × Session × Destination)
unfolding with_host
behind_colon [] s d = fault
behind_colon (x ∷ []) s d = if x == b'/' then fault else ok (z3_einval, s, d)
behind_colon (x ∷ y ∷ rest) s d =
    if not (x == b'/') && not (y == b'/')
    then ok (z3_einval, s, d)
    else with_host (split_at b'/' rest) s d

with_protocol : Option (Bytes × Bytes) → Session → Destination → Outcome (ℕ × Session × Destination)
unfolding behind_colon
with_protocol none s d = ok (z3_einval, s, d)
with_protocol (some (protocol, rest)) s d =
    if same_text protocol (codes "rtsp") then behind_colon rest s d else ok (z3_einval, s, d)

pub set_request_url : Bytes → Session → Destination → Outcome (ℕ × Session × Destination)
unfolding with_protocol
set_request_url url s d = with_protocol (split_at b':' url) (record s { url = some url }) d
