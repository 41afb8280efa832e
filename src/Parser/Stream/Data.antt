-- ===== src/Parser/Stream/Data.antt =====
-- Parse of interleaved data: the size of a frame whose low byte is 128 or more.
use z3_engine.Base.{
  take-all, length-take-le, ℕ, suc, ◌+◌, ◌-◌, ◌≤◌, ◌<◌, ◌≡◌, refl, ◌∙◌, ap, true, false, [], ◌∷◌,
  ◌++◌, some, ltb, leb, Bytes, length, length-append, take, Outcome, ok, ◌>>=◌, arith, ◌%◌,
}
use z3_engine.Message.Msg.{RtspMsg, new_msg, init_data}
use z3_engine.Message.Msg.Ends.{init_data-eok, init_data-body_size}
use z3_engine.Parser.Stream.{
  state_data_header, state_data_body, rtsp_recvbuf_size, z3_rtsp_eintr, RtspParser, new_parser,
  Leftover, Run, wait_more, start_round, header_of, header_round, data_size, body_rest, body_round,
  round, rounds, finished, first_run, parse_received, reset, appended, parse_bytes, parse,
}
use z3_engine.Parser.Stream.Lines.{rounds-on, rounds-last}
use z3_engine.Text.Version.{z3_eok, z3_error}

-- The parser waits for a body that does not fit its buffer.
pub record Waiting (q : RtspParser) : Type 0 where
  pub state : q.state ≡ state_data_body
  pub completed : q.completed ≡ false
  pub offset : q.offset ≡ 0
  pub fits : length q.received ≤ rtsp_recvbuf_size
  pub body : rtsp_recvbuf_size < body_rest q.msg

-- A call that wants more bytes and leaves such a parser.
abbrev pub Waits : Outcome (ℕ × RtspParser) → Type 0
Waits o = (t : RtspParser) × (o ≡ ok (z3_rtsp_eintr, t)) × Waiting t

-- The loop at a body.
abbrev at_body : RtspMsg → ℕ → Bytes → ℕ → ℕ → ℕ → Run
at_body m line text offset bytes result = record {
  msg = m;
  state = state_data_body;
  line = line;
  text = text;
  offset = offset;
  bytes = bytes;
  result = result;
  stop = false;
}

waited : Run → Run
waited r = record r { result = z3_rtsp_eintr; stop = true }

rounds-body :
    (l : Leftover) (fuel line : ℕ) (m : RtspMsg) (text : Bytes) (offset bytes result : ℕ)
    → bytes ≤ rtsp_recvbuf_size
    → rtsp_recvbuf_size < body_rest m
    → rounds (suc fuel) l (at_body m line text offset bytes result)
      ≡ ok (waited (at_body m line text offset bytes result))
unfolding round body_round wait_more waited
rounds-body l fuel line m text offset bytes result h b =
    let short : leb (body_rest m) (bytes - offset) ≡ false = ground (arith, h, b) in
    rounds-last fuel l (at_body m line text offset bytes result)
      (waited (at_body m line text offset bytes result)) (rw short refl) refl

finished-Waiting :
    (received : Bytes) (line : ℕ) (m : RtspMsg) (text : Bytes) (offset bytes result : ℕ)
    → offset < bytes
    → bytes ≤ rtsp_recvbuf_size
    → rtsp_recvbuf_size < body_rest m
    → Waits (ok (finished received (waited (at_body m line text offset bytes result))))
unfolding finished waited
finished-Waiting received line m text offset bytes result o h b =
    let left : ltb offset bytes ≡ true = ground (arith, o) in
    let t = (finished received (waited (at_body m line text offset bytes result))).1 in
    (
      t,
      refl,
      record {
        state = refl;
        completed = refl;
        offset = rw left refl;
        fits = rw left (omega (arith, h, length-take-le (bytes - offset) text));
        body = b;
      },
    )

appended-fits :
    (c : ℕ) (cs received : Bytes)
    → length received ≤ rtsp_recvbuf_size
    → (0 < length (appended received (c ∷ cs)))
      × (length (appended received (c ∷ cs)) ≤ rtsp_recvbuf_size)
unfolding appended
appended-fits c cs [] h = (omega arith, length-take-le 4096 (c ∷ cs))
appended-fits c cs (d ∷ ds) h =
    let more = length-append ds (take (4096 - length (d ∷ ds)) (c ∷ cs)) in
    (omega arith, omega (arith, h, more, length-take-le (4096 - length (d ∷ ds)) (c ∷ cs)))

reset-Waiting : (q : RtspParser) → Waiting q → reset q ≡ q
unfolding reset
reset-Waiting q w = rw w.completed refl

parse_received-Waits :
    (l : Leftover) (q : RtspParser) (received : Bytes)
    → Waiting q
    → 0 < length received
    → length received ≤ rtsp_recvbuf_size
    → Waits (parse_received l q received)
unfolding parse_received first_run
parse_received-Waits l q received w h k =
    let text = received ++ l.behind in
    let num : length text + 3 ≡ suc (length text + 2) = omega arith in
    let (t, e, v) =
      finished-Waiting received q.line q.msg text 0 (length received) z3_error h k w.body in
    (
      t,
      rw
          (
            w.offset,
            w.state,
            num,
            rounds-body l (length text + 2) q.line q.msg text 0 (length received) z3_error k w.body,
          )
          e,
      v,
    )

pub parse-Waiting :
    (l : Leftover) (c : ℕ) (cs : Bytes) (q : RtspParser)
    → Waiting q
    → Waits (parse l (some (c ∷ cs)) q)
unfolding parse parse_bytes
parse-Waiting l c cs q w =
    let (a, b) = appended-fits c cs q.received w.fits in
    rw (reset-Waiting q w) (parse_received-Waits l q (appended q.received (c ∷ cs)) w a b)

-- The message of a frame.
abbrev framed : ℕ → ℕ → ℕ → RtspMsg
framed channel high low = (init_data channel (data_size high low) new_msg).0

framed-large :
    (channel high low : ℕ)
    → 128 ≤ low
    → low < 256
    → rtsp_recvbuf_size < body_rest (framed channel high low)
unfolding body_rest data_size
framed-large channel high low h k =
    let signed : ltb low 128 ≡ false = ground (arith, h) in
    let wraps : (65280 + low + 4294967295) % 4294967296 ≡ 65279 + low = omega (arith, k) in
    rw (init_data-body_size channel (data_size high low) new_msg, signed, wraps) (omega (arith, h))

-- The loop at a frame's header.
abbrev at_header : Bytes → ℕ → Run
at_header text bytes = record {
  msg = new_msg;
  state = state_data_header;
  line = 0;
  text = text;
  offset = 0;
  bytes = bytes;
  result = z3_error;
  stop = false;
}

round-header :
    (l : Leftover) (channel high low : ℕ) (rest : Bytes) (bytes : ℕ)
    → 4 ≤ bytes
    → round l (at_header (36 ∷ channel ∷ high ∷ low ∷ rest) bytes)
      ≡ ok (at_body (framed channel high low) 0 rest 4 bytes z3_eok)
unfolding round header_round header_of
round-header l channel high low rest bytes h =
    let enough : leb 4 (bytes - 0) ≡ true = ground (arith, h) in
    rw (enough, init_data-eok channel (data_size high low) new_msg) refl

round_start-header :
    (l : Leftover) (received behind : Bytes)
    → round l (first_run new_parser (36 ∷ received) behind)
      ≡ ok (at_header (36 ∷ (received ++ behind)) (length (36 ∷ received)))
unfolding round start_round new_parser first_run
round_start-header l received behind = refl

rounds-frame :
    (l : Leftover) (fuel channel high low d : ℕ) (rest : Bytes)
    → 128 ≤ low
    → low < 256
    → length (36 ∷ channel ∷ high ∷ low ∷ d ∷ rest) ≤ rtsp_recvbuf_size
    → rounds
        (suc (suc (suc fuel)))
        l
        (first_run new_parser (36 ∷ channel ∷ high ∷ low ∷ d ∷ rest) l.behind)
      ≡ ok (
          waited (
            at_body
              (framed channel high low)
              0
              (d ∷ (rest ++ l.behind))
              4
              (length (36 ∷ channel ∷ high ∷ low ∷ d ∷ rest))
              z3_eok))
rounds-frame l fuel channel high low d rest h k fits =
    let bytes = length (36 ∷ channel ∷ high ∷ low ∷ d ∷ rest) in
    let text : Bytes = d ∷ (rest ++ l.behind) in
    rounds-on (suc (suc fuel)) l _ (at_header (36 ∷ channel ∷ high ∷ low ∷ text) bytes)
      (round_start-header l (channel ∷ high ∷ low ∷ d ∷ rest) l.behind) (ground arith)
    ∙ rounds-on (suc fuel) l _ (at_body (framed channel high low) 0 text 4 bytes z3_eok)
        (round-header l channel high low text bytes (omega arith)) (ground arith)
    ∙ rounds-body l fuel 0 (framed channel high low) text 4 bytes z3_eok fits
        (framed-large channel high low h k)

pub parse_data-Waits :
    (l : Leftover) (p : RtspParser) (channel high low d : ℕ) (rest : Bytes)
    → reset p ≡ new_parser
    → 128 ≤ low
    → low < 256
    → length (36 ∷ channel ∷ high ∷ low ∷ d ∷ rest) ≤ rtsp_recvbuf_size
    → Waits (parse l (some (36 ∷ channel ∷ high ∷ low ∷ d ∷ rest)) p)
unfolding parse parse_bytes parse_received appended new_parser
parse_data-Waits l p channel high low d rest idle h k fits =
    let received : Bytes = 36 ∷ channel ∷ high ∷ low ∷ d ∷ rest in
    let whole : take 4091 rest ≡ rest = take-all 4091 rest (omega (arith, fits)) in
    let num : length (received ++ l.behind) + 3 ≡ suc (suc (suc (length (received ++ l.behind)))) =
      omega arith in
    let (t, e, w) =
      finished-Waiting received 0 (framed channel high low) (d ∷ (rest ++ l.behind)) 4
        (length received) z3_eok (omega arith) fits (framed-large channel high low h k) in
    let run = rounds-frame l (length (received ++ l.behind)) channel high low d rest h k fits in
    (
      t,
      rw (idle, whole)
          (ap
              (λ n. rounds n l (first_run new_parser received l.behind) >>= λ r.
                ok (finished received r))
              num
            ∙ ap (λ o. o >>= λ r. ok (finished received r)) run
            ∙ e),
      w,
    )
