-- ===== src/Media/Tests.antt =====
-- The theorem on CreateMediaSession at four ports.
use z3_engine.Base.{◌≡◌, refl, Option, some, [], codes, ok, Outcome, arith}
use z3_engine.Media.{MediaSession, RtspMedia, UdpSockets, create_media_session}
use z3_engine.Media.Pair.{UsesPair, create_media_session-pair}
use z3_engine.Ports.Bitmap.{Memory, over, test_and_set}
use z3_engine.Ports.Control.{PortsCtl, lock_on, lock_off, get_one, scan, advance, mark_port}
use z3_engine.Ports.Control.Invariant.{Inv, count}
use z3_engine.Ports.Pairs.{get_two, pair_loop, pair_round, go_on}
use z3_engine.Sdp.{SdpMedia, new_media, new_sdp}
use z3_engine.Sdp.Line.{same_bytes}

abbrev clear : Memory
clear j = 0

abbrev four : PortsCtl
four = record {
  min_port = 20000;
  max_port = 20003;
  used = 0;
  next = 20000;
  reserved = 0;
  lock = 1;
  bitmap = some (over 3 clear);
}

four-Inv : Inv four clear
unfolding count
four-Inv = record {
  mapped = refl;
  positive = omega arith;
  ordered = omega arith;
  fits = omega arith;
  next_low = omega arith;
  next_high = omega arith;
  counted = refl;
}

abbrev sockets : UdpSockets
sockets = record { rtp_init = λ p. 0; rtp_read = λ p. 0; rtcp_init = λ p. 0; rtcp_read = λ p. 0 }

abbrev video : SdpMedia
unfolding new_media
video = record new_media { media = some (codes "video") }

abbrev media : RtspMedia
unfolding new_sdp
media = record {
  content_base = some (codes "rtsp://a/b/");
  sessions = [];
  sdp = new_sdp;
  track_count = 1;
  request_track = 1;
}

abbrev made : MediaSession
made = record { rtp_port = 20000; rtcp_port = 20001; media_type = 1; transfer_mode = 2 }

abbrev result_of : Outcome (Option MediaSession × RtspMedia × PortsCtl) → RtspMedia × PortsCtl
result_of (ok (s, m, p)) = (m, p)
result_of _ = (media, four)

after : RtspMedia × PortsCtl
after = result_of (create_media_session 2 sockets video media four)

makes : create_media_session 2 sockets video media four ≡ ok (some made, after.0, after.1)
unfolding after create_media_session new_media same_bytes lock_on lock_off get_two pair_loop
    pair_round go_on get_one scan advance mark_port test_and_set
makes = refl

create_media_session-pair_example : UsesPair made after.1
create_media_session-pair_example =
    create_media_session-pair 2 sockets video media four clear {session = made} {m' = after.0}
      {t = after.1} four-Inv makes
