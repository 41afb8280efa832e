-- ===== src/Session/Url/Tests.antt =====
-- The theorem on SetRequestUrl at a URL with a port.
use z3_engine.Base.{◌≡◌, refl, none, some, codes, ok, arith}
use z3_engine.Ports.Control.{new_ports}
use z3_engine.Sdp.{atoi}
use z3_engine.Session.{new_session}
use z3_engine.Session.Url.{Destination, set_request_url}
use z3_engine.Session.Url.Parts.{set_request_url-parts, with_port}
use z3_engine.Text.Lines.{skip_spaces}
use z3_engine.Text.Tables.{same_text}
use z3_engine.Text.Version.{digits, z3_eok}

abbrev nowhere : Destination
nowhere = record { host = none; port = 0 }

set_request_url-parts_example :
    set_request_url (codes "rtsp://cam:554/live") (new_session (new_ports 0)) nowhere
    ≡ ok (
      z3_eok,
      record (new_session (new_ports 0)) { url = some (codes "rtsp://cam:554/live") },
      record { host = some (codes "cam"); port = 554 },
    )
unfolding atoi skip_spaces digits same_text
set_request_url-parts_example =
    set_request_url-parts (codes "rtsp") (codes "cam") (codes "live") b'/' b'/'
      (new_session (new_ports 0)) nowhere (refl, (refl, (refl, (refl, tt)))) refl refl
      (refl, (refl, (refl, tt))) (with_port (codes "554"))
      (refl, (refl, (refl, (refl, (refl, (refl, (refl, tt))))))) (omega arith) (omega arith)
