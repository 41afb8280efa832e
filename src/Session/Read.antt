-- ===== src/Session/Read.antt =====
-- Connector::OnEvRead of z3_engine/z3_connector.cpp over the session: what arrives goes to the parser,
-- and a message that is complete to Dispatch.
pub mod Segments
mod Tests
use z3_engine.Base.{
  ℕ, zero, suc, Bool, true, false, not, [], ◌∷◌, Option, none, some, ltb, ◌==◌, if◌then◌else◌,
  Bytes, length, Outcome, ok, fault, ◌>>=◌,
}
use z3_engine.Message.Msg.{RtspMsg}
use z3_engine.Parser.Stream.{RtspParser, Leftover, parse}
use z3_engine.Session.{World, Session}
use z3_engine.Session.Respond.{dispatch}
use z3_engine.Text.Version.{z3_error}

abbrev pub socket_recv_bufsize : ℕ
socket_recv_bufsize = 4096

abbrev pub z3_eintr : ℕ
z3_eintr = 0x399B6004

-- The result, the parser and the session.
abbrev pub AfterRead : Type 0
AfterRead = ℕ × RtspParser × Session

-- Parse has returned.
parsed : World → Session → ℕ × RtspParser → Outcome AfterRead
parsed w s (e, p) =
    if e == 0 then (do (e', s') ← dispatch w p.msg s; ok (e', p, s')) else ok (e, p, s)

read_bytes : World → Leftover → Bytes → RtspParser → Session → Outcome AfterRead
unfolding parsed
read_bytes w l [] p s = ok (z3_error, p, s)
read_bytes w l (c ∷ cs) p s =
    if ltb (length (c ∷ cs)) socket_recv_bufsize
    then (do r ← parse l (some (c ∷ cs)) p; parsed w s r)
    else fault

-- The read that was started completes with an error code or with bytes; an error is notified and
-- closes the socket, and no bytes mean that the peer has closed it.
pub on_ev_read : World → Leftover → ℕ → Bytes → RtspParser → Session → Outcome AfterRead
unfolding read_bytes
on_ev_read w l code buf p s =
    let s' = record s { reading = false } in
    if code == 0 then read_bytes w l buf p s' else ok (z3_eintr, p, s')
