-- ===== src/Session/Url/Parts.antt =====
-- SetRequestUrl on a URL with its parts.
use z3_engine.Base.{
  ℕ, ◌%◌, ◌<◌, ◌≡◌, refl, ◌∙◌, ap, Bool, true, false, not, ◌&&◌, ◌||◌, ◌∷◌, ◌++◌, some, ◌==◌,
  lt→ltb, Bytes, codes, length, ok,
}
use z3_engine.Sdp.{atoi}
use z3_engine.Session.{Session}
use z3_engine.Session.Url.{
  Destination, set_request_url, behind_colon, with_host, with_protocol, set_host, host_of,
  host_port, set_destination, destined, default_rtsp_port,
}
use z3_engine.Text.Lines.{skip_spaces}
use z3_engine.Text.Lines.Words.{None}
use z3_engine.Text.Tables.{same_text}
use z3_engine.Text.Version.{z3_eok}
use z3_engine.Text.Version.Split.{is_byte, split_at-first, split_at-none}

-- The part of the URL between the slashes, and the port that it gives.
pub data Authority (host : Bytes) : Bytes → ℕ → Type 0 where
  with_port :
      (digits : Bytes)
      → Authority host (host ++ (b':' ∷ digits)) (atoi (skip_spaces digits) % 65536)
  bare : Authority host host default_rtsp_port

host_port-Authority :
    (host : Bytes) {text : Bytes} {port : ℕ}
    → None (is_byte b':') host
    → Authority host text port
    → host_port text ≡ (host, port)
unfolding host_port host_of
host_port-Authority host n (with_port digits) =
    ap (host_of (host ++ (b':' ∷ digits))) (split_at-first b':' host digits n)
host_port-Authority host n bare = ap (host_of host) (split_at-none b':' host n)

one_slash : (x y : Bool) → (x || y) ≡ true → (not x && not y) ≡ false
one_slash true y e = refl
one_slash false true e = refl
one_slash false false e = cc

-- `SetRequestUrl` of a protocol that is `rtsp` in any spelling, a colon, two bytes of which one is
-- a slash, a host that is not empty and has no colon or slash, a colon and a text without slash
-- that `atoi` takes to a number other than 0 in 16 bits, or neither, and a slash with what
-- follows, returns Z3_EOK: it stores the URL, the host, and that number or else 8554 as the port.
pub set_request_url-parts :
    (protocol host resource : Bytes) (x y : ℕ) (s : Session) (d : Destination) {text : Bytes}
    {port : ℕ}
    → None (is_byte b':') protocol
    → same_text protocol (codes "rtsp") ≡ true
    → (x == b'/' || y == b'/') ≡ true
    → None (is_byte b':') host
    → Authority host text port
    → None (is_byte b'/') text
    → 0 < length host
    → 0 < port
    → set_request_url (protocol ++ (b':' ∷ x ∷ y ∷ (text ++ (b'/' ∷ resource)))) s d
      ≡ ok (
        z3_eok,
        record s { url = some (protocol ++ (b':' ∷ x ∷ y ∷ (text ++ (b'/' ∷ resource)))) },
        record { host = some host; port = port },
      )
unfolding set_request_url with_protocol behind_colon with_host set_host set_destination destined
set_request_url-parts protocol host resource x y s d {text} {port} n1 rtsp slash n2 a n3 h p =
    let rest = x ∷ y ∷ (text ++ (b'/' ∷ resource)) in
    let s' : Session = record s { url = some (protocol ++ (b':' ∷ rest)) } in
    ap (λ o. with_protocol o s' d) (split_at-first b':' protocol rest n1)
    ∙ rw (
      rtsp,
      one_slash (x == b'/') (y == b'/') slash,
      split_at-first b'/' text resource n3,
      host_port-Authority host n2 a,
      lt→ltb 0 port p,
      lt→ltb 0 (length host) h,
    )
