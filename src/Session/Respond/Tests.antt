-- ===== src/Session/Respond/Tests.antt =====
-- The theorems on the session at a connection that is opened and asked for a description, and at
-- one that plays.
use z3_engine.Base.{
  ℕ, ◌≡◌, refl, true, false, ◌⊎◌, some, none, [], ◌∷◌, codes, ok, Outcome, if◌then◌else◌, ◌==◌,
}
use z3_engine.Media.{RtspMedia}
use z3_engine.Message.Headers.{KeyValue, blank, add_to, remove_from, new_key_values, get_header_in}
use z3_engine.Message.Msg.{
  RtspMsg, request, response, add_header, init_request, remove_header, get_header, get_method,
  c_string, version_1_0,
}
use z3_engine.Message.Print.{to_string}
use z3_engine.Ports.Control.{new_ports}
use z3_engine.Sdp.{new_sdp, atoi}
use z3_engine.Session.{
  start_read, World, Session, new_session, send_options, send_describe, rtsp_options, rtsp_describe,
  rtsp_setup, rtsp_play, session_ready,
}
use z3_engine.Session.Phase.{Phase, asked_options, asked_play, At, InTurn}
use z3_engine.Session.Respond.{on_connect, on_message, take_session, find_text}
use z3_engine.Session.Respond.Refine.{
  IsFresh, Moves, on_message-Moves, Reach, connected, received, Reach-At,
}
use z3_engine.Session.Respond.Stops.{
  Answers, not_taken, on_message-Answers, on_message_played, take_session-semicolon,
}
use z3_engine.Text.Tables.{rtsp_method_as_text, rtsp_header_as_text, same_text}
use z3_engine.Text.Lines.{skip_spaces}
use z3_engine.Text.Version.{z3_eok, digits}

abbrev pub world : World
world = record {
  write = λ n text. 0;
  read = λ n. 0;
  udp = record { rtp_init = λ p. 0; rtp_read = λ p. 0; rtcp_init = λ p. 0; rtcp_read = λ p. 0 };
  rounds = 9;
  date = codes "now";
  stack = [];
}

abbrev pub fresh : Session
unfolding new_session
fresh = record (new_session (new_ports 0)) { url = some (codes "rtsp://a/b") }

pub fresh-IsFresh : IsFresh fresh
unfolding new_session
fresh-IsFresh = record { media = refl; sent = refl; state = refl; reading = refl }

abbrev pub result_of : Outcome (ℕ × Session) → ℕ × Session
result_of (ok r) = r
result_of _ = (0, fresh)

pub opened : ℕ × Session
opened = result_of (on_connect world 0 fresh)

pub opens : on_connect world 0 fresh ≡ ok opened
unfolding opened on_connect send_options new_session add_header init_request to_string remove_header
    remove_from add_to new_key_values rtsp_method_as_text rtsp_header_as_text c_string
opens = refl

-- 200 OK with CSeq 0 and Public: DESCRIBE.
abbrev answer_slots : ℕ → KeyValue
answer_slots i =
    if i == 0
    then record { field = 17; len = 1; value = some (codes "0") }
    else if i == 1
    then record { field = 25; len = 8; value = some (codes "DESCRIBE") }
    else blank

abbrev options_answer : RtspMsg
options_answer = record {
  obj = some (response 200 (codes "OK") version_1_0);
  headers = some (record { size = 8; sum = 2; slots = answer_slots });
  body = none;
  body_size = 0;
}

described : ℕ × Session
described = result_of (on_message world options_answer opened.1)

describes : on_message world options_answer opened.1 ≡ ok described
unfolding described opened on_connect send_options new_session add_header init_request to_string
    remove_header remove_from add_to new_key_values rtsp_method_as_text rtsp_header_as_text c_string
    on_message send_describe get_header get_header_in same_text atoi skip_spaces digits start_read
describes = refl

opened-At : At asked_options opened.1
unfolding opened on_connect send_options new_session add_header init_request to_string remove_header
    remove_from add_to new_key_values rtsp_method_as_text rtsp_header_as_text c_string get_method
    start_read
opened-At = record { method = refl; sent = refl; cseq = refl; state = refl; tracks = refl }

on_message-Moves_example : Moves asked_options described.1
on_message-Moves_example =
    on_message-Moves world options_answer asked_options opened.1 {r = described} opened-At describes

pub opened_reads : opened.1.reading ≡ true
unfolding opened on_connect send_options new_session add_header init_request to_string remove_header
    remove_from add_to new_key_values rtsp_method_as_text rtsp_header_as_text c_string start_read
opened_reads = refl

described-Reach : Reach world fresh described.1
described-Reach = received options_answer (connected 0 opens) opened_reads describes

Reach-At_example :
    (described.1.reading ≡ false) ⊎ ((p : Phase) × At p described.1 × InTurn described.1)
Reach-At_example = Reach-At world fresh {t = described.1} fresh-IsFresh described-Reach

options_header : get_header options_answer 17 0 ≡ some (some (codes "0"))
unfolding get_header get_header_in
options_header = refl

on_message-Answers_example :
    Answers options_answer opened.1
    ⊎ (described ≡ (not_taken options_answer.obj, record opened.1 { reading = false }))
on_message-Answers_example =
    on_message-Answers world options_answer opened.1 {r = described} describes

-- OPTIONS, DESCRIBE, SETUP and PLAY were sent.
abbrev asked : ℕ → RtspMsg
asked method = record {
  obj = some (request method (codes "rtsp://a/b") version_1_0);
  headers = none;
  body = none;
  body_size = 0;
}

abbrev one_track : RtspMedia
one_track = record {
  content_base = some (codes "rtsp://a/b/");
  sessions = [];
  sdp = new_sdp;
  track_count = 1;
  request_track = 1;
}

abbrev playing : Session
unfolding new_session
playing = record fresh {
  method_previous = rtsp_play;
  cseq_previous = 3;
  media = some one_track;
  state = session_ready;
  session_id = some (codes "7");
  sent = asked rtsp_options ∷ asked rtsp_describe ∷ asked rtsp_setup ∷ asked rtsp_play ∷ [];
  reading = true;
}

playing-At : At (asked_play 1) playing
unfolding new_session get_method
playing-At = record { method = refl; sent = refl; cseq = refl; state = refl; tracks = refl }

on_message_played_example :
    on_message world options_answer playing ≡ ok (0, record playing { reading = false })
on_message_played_example =
    on_message_played world options_answer playing 1 200 version_1_0 (codes "OK") (codes "0")
      playing-At refl options_header

take_session-semicolon_example :
    take_session none (codes "12;timeout=60") fresh
    ≡ ok (z3_eok, record fresh { session_id = some (codes "12") })
unfolding find_text
take_session-semicolon_example =
    take_session-semicolon b'1' (b'2' ∷ []) (codes "timeout=60") fresh (refl, (refl, tt)) refl
