-- ===== src/Parser/Stream/Message.antt =====
-- Parse of what arrives at once, on a parser that waits for a message: a whole message, and one that
-- is cut behind a line.
use mathlib.Core.List.{append_assoc}
use z3_engine.Base.{
  take-all, ℕ, zero, suc, ◌+◌, ◌≤◌, ◌<◌, ◌≡◌, refl, ◌∙◌, ap, true, false, List, [], ◌∷◌, ◌++◌, none,
  some, ◌==◌, Bytes, length, length-append, take, Outcome, ok, ◌>>=◌, arith,
}
use z3_engine.Message.Msg.{RtspMsg, new_msg, get_header}
use z3_engine.Parser.Stream.{
  hdr_content_length, rtsp_recvbuf_size, RtspParser, new_parser, Leftover, Run, start_round, round,
  rounds, finished, first_run, parse_received, reset, appended, parse_bytes, parse,
}
use z3_engine.Parser.Stream.Lines.{
  AllLines, lines_text, Reads, no_line, a_line, at_lines, round-line, Over, Comes, rounds-on,
  rounds-last, goes_on-lines, rounds-message,
}
use z3_engine.Text.Version.{z3_eok, z3_error}

start_round-lines :
    (l : Leftover) (c : ℕ) (text received : Bytes)
    → (c == b'$') ≡ false
    → round l (first_run new_parser (c ∷ received) text)
      ≡ ok (at_lines 0 new_msg (c ∷ (received ++ text)) 0 (length (c ∷ received)) z3_error)
unfolding round start_round new_parser first_run
start_round-lines l c text received d = rw d refl

-- The loop of a first call, from its second round on.
pub parse_idle :
    (l : Leftover) (p : RtspParser) (c : ℕ) (cs : Bytes)
    → reset p ≡ new_parser
    → (c == b'$') ≡ false
    → length (c ∷ cs) ≤ rtsp_recvbuf_size
    → parse l (some (c ∷ cs)) p ≡ (
        rounds
          (length ((c ∷ cs) ++ l.behind) + 2)
          l
          (at_lines 0 new_msg ((c ∷ cs) ++ l.behind) 0 (length (c ∷ cs)) z3_error)
        >>= λ r. ok (finished (c ∷ cs) r))
unfolding parse parse_bytes parse_received appended new_parser first_run
parse_idle l p c cs idle d h =
    let fits : take 4095 cs ≡ cs = take-all 4095 cs (omega (arith, h)) in
    let fuel : ℕ = length ((c ∷ cs) ++ l.behind) + 2 in
    let begun : Run = at_lines 0 new_msg (c ∷ (cs ++ l.behind)) 0 (length (c ∷ cs)) z3_error in
    let num : suc (length (cs ++ l.behind)) + 3 ≡ suc fuel = omega arith in
    rw (idle, fits)
      (ap
          (λ n.
            rounds n l (first_run new_parser (c ∷ cs) l.behind) >>= λ r. ok (finished (c ∷ cs) r))
          num
        ∙ ap (λ o. o >>= λ r. ok (finished (c ∷ cs) r))
            (rounds-on fuel l (first_run new_parser (c ∷ cs) l.behind) begun
              (start_round-lines l c l.behind cs d)
              (goes_on-lines 0 new_msg (c ∷ (cs ++ l.behind)) 0 (length (c ∷ cs)) z3_error
                (omega arith))))

finished-Over :
    (received : Bytes) (m : RtspMsg) (r : Run)
    → Over m r
    → ((finished received r).0 ≡ z3_eok)
      × ((finished received r).1.msg ≡ m)
      × ((finished received r).1.completed ≡ true)
unfolding finished
finished-Over received m r o = (o.result, o.msg, rw o.result refl)

-- A call that returns Z3_EOK with the message, which is complete.
abbrev pub Completes : Outcome (ℕ × RtspParser) → RtspMsg → Type 0
Completes o m = (q : RtspParser) × (o ≡ ok (z3_eok, q)) × (q.msg ≡ m) × (q.completed ≡ true)

completes :
    (received : Bytes) (m : RtspMsg) (o : Outcome Run)
    → Comes o m
    → Completes (o >>= λ r. ok (finished received r)) m
completes received m o (r, e, over) =
    let f = finished received r in
    let (a, b, c) = finished-Over received m r over in (f.1, rw e (ap (λ x. ok (x, f.1)) a), b, c)

lines_text-behind :
    (xs : List Bytes) (rest behind : Bytes)
    → lines_text xs rest ++ behind ≡ lines_text xs (rest ++ behind)
lines_text-behind [] rest behind = refl
lines_text-behind (x ∷ xs) rest behind =
    append_assoc x (13 ∷ 10 ∷ lines_text xs rest) behind
    ∙ ap (λ t. x ++ (13 ∷ 10 ∷ t)) (lines_text-behind xs rest behind)

length-lines_text :
    (xs : List Bytes) (rest : Bytes)
    → (length (lines_text xs rest) ≡ length (lines_text xs []) + length rest)
      × (length xs ≤ length (lines_text xs rest))
length-lines_text [] rest = (omega arith, omega arith)
length-lines_text (x ∷ xs) rest =
    let (a, b) = length-lines_text xs rest in
    let c = length-append x (13 ∷ 10 ∷ lines_text xs rest) in
    let d = length-append x (13 ∷ 10 ∷ lines_text xs []) in
    (omega (arith, a, c, d), omega (arith, b, c))

-- The bytes of the text behind its first.
abbrev pub first_text : ℕ → Bytes → List Bytes → Bytes → Bytes
first_text c x xs rest = x ++ (13 ∷ 10 ∷ lines_text xs rest)

-- A parser that waits for a message, given in one segment of at most 4096 bytes the lines of a
-- message, not empty, without CR or NUL, the first not beginning with `$`, each with CR LF behind
-- it, the empty line, and anything more, where each line in turn is accepted into the message,
-- which has no Content-Length then, returns Z3_EOK with that message and marks it complete,
-- whatever the buffer holds behind.
pub parse_message :
    (l : Leftover) (p : RtspParser) (c k : ℕ) (x extra : Bytes) (xs : List Bytes) (m : RtspMsg)
    → reset p ≡ new_parser
    → (c == b'$') ≡ false
    → AllLines ((c ∷ x) ∷ xs)
    → Reads l 0 new_msg ((c ∷ x) ∷ xs) k m
    → get_header m hdr_content_length 0 ≡ none
    → length (lines_text ((c ∷ x) ∷ xs) (13 ∷ 10 ∷ extra)) ≤ rtsp_recvbuf_size
    → Completes (parse l (some (lines_text ((c ∷ x) ∷ xs) (13 ∷ 10 ∷ extra))) p) m
parse_message l p c k x extra xs m idle d a (a_line _ _ _ next _ _ _ e r) no_size h =
    let text : Bytes = lines_text ((c ∷ x) ∷ xs) (13 ∷ 10 ∷ extra) in
    let rest : Bytes = extra ++ l.behind in
    let tail : Bytes = lines_text xs (13 ∷ 10 ∷ rest) in
    let bytes : ℕ = length text in
    let moved = lines_text-behind ((c ∷ x) ∷ xs) (13 ∷ 10 ∷ extra) l.behind in
    let (size, count) = length-lines_text xs (13 ∷ 10 ∷ extra) in
    let more = length-append x (13 ∷ 10 ∷ lines_text xs (13 ∷ 10 ∷ extra)) in
    let all = length-append text l.behind in
    let fuel : ℕ = length (text ++ l.behind) + 1 in
    let (out, o, over) =
      rounds-message l fuel 1 k next m xs rest (0 + (length (c ∷ x) + 2)) bytes r a.2
        (omega (arith, count, more, all)) (omega (arith, size, more)) no_size in
    let num : length (text ++ l.behind) + 2 ≡ suc fuel = omega arith in
    let run : rounds (length (text ++ l.behind) + 2) l
          (at_lines 0 new_msg (text ++ l.behind) 0 bytes z3_error)
        ≡ ok out =
      ap (λ n. rounds n l (at_lines 0 new_msg (text ++ l.behind) 0 bytes z3_error)) num
      ∙ ap (λ t. rounds (suc fuel) l (at_lines 0 new_msg t 0 bytes z3_error)) moved
      ∙ rounds-on fuel l _ _ (round-line l 0 new_msg next (c ∷ x) tail 0 bytes z3_error a.0 a.1 e) (
          goes_on-lines 1 next tail (0 + (length (c ∷ x) + 2)) bytes z3_eok
            (omega (arith, more, size)))
      ∙ o in
    let (q, f, g, b) = completes text m _ (out, run, over) in
    (q, parse_idle l p c (first_text c x xs (13 ∷ 10 ∷ extra)) idle d h ∙ f, g, b)

-- The last line ends where the received bytes end.
rounds-cut :
    (l : Leftover) (fuel n k : ℕ) (m final : RtspMsg) (x : Bytes) (xs : List Bytes) (rest : Bytes)
    (offset bytes result : ℕ)
    → Reads l n m (x ∷ xs) k final
    → AllLines (x ∷ xs)
    → length xs < fuel
    → offset + length (lines_text (x ∷ xs) []) ≡ bytes
    → Comes (rounds fuel l (at_lines n m (lines_text (x ∷ xs) rest) offset bytes result)) final
rounds-cut l zero n k m final x xs rest offset bytes result r a h b = absurd (omega (arith, h))
rounds-cut l (suc fuel) _ _ _ _ x _ rest offset bytes result
      (a_line n _ m _ _ _ _ e (no_line _ next)) a h b =
    let more = length-append x (13 ∷ 10 ∷ []) in
    (
      at_lines (n + 1) next rest (offset + (length x + 2)) bytes z3_eok,
      rounds-last fuel l _ _ (round-line l n m next x rest offset bytes result a.0 a.1 e)
          (ground (arith, b, more)),
      record { msg = refl; result = refl },
    )
rounds-cut l (suc fuel) _ _ _ _ x _ rest offset bytes result
      (a_line n k m next final _ _ e (a_line _ _ _ next' _ y ys e' r)) a h b =
    let more = length-append x (13 ∷ 10 ∷ lines_text (y ∷ ys) []) in
    let more' = length-append y (13 ∷ 10 ∷ lines_text ys []) in
    let (out, o, over) =
      rounds-cut l fuel (n + 1) k next final y ys rest (offset + (length x + 2)) bytes z3_eok
        (a_line (n + 1) k next next' final y ys e' r) a.2 (omega (arith, h))
        (omega (arith, b, more)) in
    (
      out,
      rounds-on fuel l _ _
            (round-line l n m next x (lines_text (y ∷ ys) rest) offset bytes result a.0 a.1 e)
            (goes_on-lines (n + 1) next (lines_text (y ∷ ys) rest) (offset + (length x + 2)) bytes
              z3_eok (omega (arith, b, more, more')))
          ∙ o,
      over,
    )

-- A parser that waits for a message, given only lines of it in one segment of at most 4096 bytes,
-- at least one, not empty, without CR or NUL, the first not beginning with `$`, each with CR LF
-- behind it, where each in turn is accepted into the message, returns Z3_EOK with the message that
-- these lines make and marks it complete.
pub parse_cut :
    (l : Leftover) (p : RtspParser) (c k : ℕ) (x : Bytes) (xs : List Bytes) (m : RtspMsg)
    → reset p ≡ new_parser
    → (c == b'$') ≡ false
    → AllLines ((c ∷ x) ∷ xs)
    → Reads l 0 new_msg ((c ∷ x) ∷ xs) k m
    → length (lines_text ((c ∷ x) ∷ xs) []) ≤ rtsp_recvbuf_size
    → Completes (parse l (some (lines_text ((c ∷ x) ∷ xs) [])) p) m
parse_cut l p c k x xs m idle d a r h =
    let text : Bytes = lines_text ((c ∷ x) ∷ xs) [] in
    let (_, count) = length-lines_text ((c ∷ x) ∷ xs) [] in
    let all = length-append text l.behind in
    let fuel : ℕ = length (text ++ l.behind) + 2 in
    let (out, o, over) =
      rounds-cut l fuel 0 k new_msg m (c ∷ x) xs l.behind 0 (length text) z3_error r a
        (omega (arith, count, all)) (omega arith) in
    let run : rounds fuel l (at_lines 0 new_msg (text ++ l.behind) 0 (length text) z3_error)
        ≡ ok out =
      ap (λ t. rounds fuel l (at_lines 0 new_msg t 0 (length text) z3_error))
        (lines_text-behind ((c ∷ x) ∷ xs) [] l.behind)
      ∙ o in
    let (q, f, g, b) = completes text m _ (out, run, over) in
    (q, parse_idle l p c (first_text c x xs []) idle d h ∙ f, g, b)
