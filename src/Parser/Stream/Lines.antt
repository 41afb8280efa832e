-- ===== src/Parser/Stream/Lines.antt =====
-- Parse of a text that is lines: what each line makes of the message, and where it says that the
-- message is complete.
use z3_engine.Base.{
  ℕ, zero, suc, ◌+◌, ◌≤◌, ◌<◌, ◌≡◌, refl, ◌∙◌, ap, Bool, true, false, ◌||◌, List, [], ◌∷◌, ◌++◌,
  none, ◌==◌, Bytes, length, length-append, Outcome, ok, ◌>>=◌, arith, Bool-cases, inl, inr,
}
use z3_engine.Message.Msg.{RtspMsg, get_header}
use z3_engine.Parser.Stream.{
  state_read_lines, state_end, hdr_content_length, Leftover, Run, found, find_cr, end_headers,
  clean, parse_numbered, line_taken, line_round, lines_round, round, goes_on, rounds,
}
use z3_engine.Text.Lines.Words.{None}
use z3_engine.Text.Version.{z3_eok}

-- What strchr for CR does not pass over.
abbrev pub cr_or_nul : ℕ → Bool
cr_or_nul c = c == 13 || c == 0

-- Lines that are not empty and have no CR or NUL.
abbrev pub AllLines : List Bytes → Type 0
AllLines [] = Unit {0}
AllLines (x ∷ xs) = (0 < length x) × (None cr_or_nul x) × AllLines xs

-- Each line with CR LF behind it.
abbrev pub lines_text : List Bytes → Bytes → Bytes
lines_text [] rest = rest
lines_text (x ∷ xs) rest = x ++ (13 ∷ 10 ∷ lines_text xs rest)

-- The lines from number `n` on are taken, one after the other, into the message.
pub data Reads (l : Leftover) : ℕ → RtspMsg → List Bytes → ℕ → RtspMsg → Type 0 where
  no_line : (n : ℕ) (m : RtspMsg) → Reads l n m [] n m
  a_line :
      (n k : ℕ) (m next final : RtspMsg) (x : Bytes) (xs : List Bytes)
      → parse_numbered l n (clean x) m ≡ ok (next, z3_eok)
      → Reads l (n + 1) next xs k final
      → Reads l n m (x ∷ xs) k final

pub cr_or_nul_none : (c : ℕ) → cr_or_nul c ≡ false → ((c == 13) ≡ false) × ((c == 0) ≡ false)
cr_or_nul_none c h = elim (Bool-cases (c == 13)) [
  | inl t ↦ absurd (ground (arith, t, h))
  | inr f ↦ (f, ground (arith, f, h))
]

pub find_cr-found : (x rest : Bytes) → None cr_or_nul x → find_cr (x ++ (13 ∷ rest)) ≡ found x rest
unfolding find_cr
find_cr-found [] rest n = refl
find_cr-found (c ∷ x) rest n =
    let (a, b) = cr_or_nul_none c n.0 in rw (a, b, find_cr-found x rest n.1)

-- The loop at a line.
abbrev pub at_lines : ℕ → RtspMsg → Bytes → ℕ → ℕ → ℕ → Run
at_lines n m text offset bytes result = record {
  msg = m;
  state = state_read_lines;
  line = n;
  text = text;
  offset = offset;
  bytes = bytes;
  result = result;
  stop = false;
}

pub round-line :
    (l : Leftover) (n : ℕ) (m next : RtspMsg) (x rest : Bytes) (offset bytes result : ℕ)
    → 0 < length x
    → None cr_or_nul x
    → parse_numbered l n (clean x) m ≡ ok (next, z3_eok)
    → round l (at_lines n m (x ++ (13 ∷ 10 ∷ rest)) offset bytes result)
      ≡ ok (at_lines (n + 1) next rest (offset + (length x + 2)) bytes z3_eok)
unfolding round lines_round line_round line_taken
round-line l n m next [] rest offset bytes result p w e = absurd (omega (arith, p))
round-line l n m next (c ∷ cs) rest offset bytes result p w e =
    rw (find_cr-found (c ∷ cs) (10 ∷ rest) w, e) refl

-- The loop behind the empty line.
abbrev pub at_end : ℕ → RtspMsg → Bytes → ℕ → ℕ → Bool → Run
at_end n m rest offset bytes stop = record {
  msg = m;
  state = state_end;
  line = n;
  text = rest;
  offset = offset;
  bytes = bytes;
  result = z3_eok;
  stop = stop;
}

round-empty :
    (l : Leftover) (n : ℕ) (m : RtspMsg) (rest : Bytes) (offset bytes : ℕ)
    → get_header m hdr_content_length 0 ≡ none
    → round l (at_lines n m (13 ∷ 10 ∷ rest) offset bytes z3_eok)
      ≡ ok (at_end n m rest (offset + 2) bytes false)
unfolding round lines_round line_round end_headers find_cr
round-empty l n m rest offset bytes e = rw e refl

-- What is said of a run that is over.
pub record Over (m : RtspMsg) (r : Run) : Type 0 where
  pub msg : r.msg ≡ m
  pub result : r.result ≡ z3_eok

abbrev pub Comes : Outcome Run → RtspMsg → Type 0
Comes o m = (r : Run) × (o ≡ ok r) × Over m r

-- What is left of the loop behind a round.
abbrev pub go_round : ℕ → Leftover → Run → Outcome Run
go_round fuel l r = elim (goes_on r) [ true ↦ rounds fuel l r | false ↦ ok r ]

pub rounds-on :
    (fuel : ℕ) (l : Leftover) (r next : Run)
    → round l r ≡ ok next
    → goes_on next ≡ true
    → rounds (suc fuel) l r ≡ rounds fuel l next
unfolding rounds
rounds-on fuel l r next e g =
    ap (λ o. o >>= go_round fuel l) e
    ∙ ap (λ b. elim b [ true ↦ rounds fuel l next | false ↦ ok next ]) g

pub rounds-last :
    (fuel : ℕ) (l : Leftover) (r next : Run)
    → round l r ≡ ok next
    → goes_on next ≡ false
    → rounds (suc fuel) l r ≡ ok next
unfolding rounds
rounds-last fuel l r next e g =
    ap (λ o. o >>= go_round fuel l) e
    ∙ ap (λ b. elim b [ true ↦ rounds fuel l next | false ↦ ok next ]) g

rounds-end :
    (l : Leftover) (fuel n : ℕ) (m : RtspMsg) (rest : Bytes) (offset bytes : ℕ)
    → 2 ≤ fuel
    → get_header m hdr_content_length 0 ≡ none
    → Comes (rounds fuel l (at_lines n m (13 ∷ 10 ∷ rest) offset bytes z3_eok)) m
unfolding round
rounds-end l zero n m rest offset bytes h e = absurd (omega (arith, h))
rounds-end l (suc zero) n m rest offset bytes h e = absurd (omega (arith, h))
rounds-end l (suc (suc fuel)) n m rest offset bytes h e =
    let before = at_lines n m (13 ∷ 10 ∷ rest) offset bytes z3_eok in
    let behind : Bool → Run = at_end n m rest (offset + 2) bytes in
    let step = round-empty l n m rest offset bytes e in
    elim (Bool-cases (goes_on (behind false))) [
      | inl t ↦ (
        behind true,
        rounds-on (suc fuel) l before (behind false) step t
            ∙ rounds-last fuel l (behind false) (behind true) refl refl,
        record { msg = refl; result = refl },
      )
      | inr f ↦ (
        behind false,
        rounds-last (suc fuel) l before (behind false) step f,
        record { msg = refl; result = refl },
      )
    ]

pub goes_on-lines :
    (n : ℕ) (m : RtspMsg) (text : Bytes) (offset bytes result : ℕ)
    → offset < bytes
    → goes_on (at_lines n m text offset bytes result) ≡ true
goes_on-lines n m text offset bytes result h = ground (arith, h)

-- The lines, and the empty line behind them.
pub rounds-message :
    (l : Leftover) (fuel n k : ℕ) (m final : RtspMsg) (xs : List Bytes) (rest : Bytes)
    (offset bytes : ℕ)
    → Reads l n m xs k final
    → AllLines xs
    → length xs + 2 ≤ fuel
    → offset + length (lines_text xs []) < bytes
    → get_header final hdr_content_length 0 ≡ none
    → Comes
        (rounds fuel l (at_lines n m (lines_text xs (13 ∷ 10 ∷ rest)) offset bytes z3_eok))
        final
rounds-message l fuel _ _ _ _ _ rest offset bytes (no_line n m) a h b e =
    rounds-end l fuel n m rest offset bytes (omega (arith, h)) e
rounds-message l zero _ _ _ _ _ rest offset bytes (a_line n k m next final x xs e r) a h b c =
    absurd (omega (arith, h))
rounds-message l (suc fuel) _ _ _ _ _ rest offset bytes (a_line n k m next final x xs e r) a h b c =
    let more = length-append x (13 ∷ 10 ∷ lines_text xs []) in
    let (out, o, over) =
      rounds-message l fuel (n + 1) k next final xs rest (offset + (length x + 2)) bytes r a.2
        (omega (arith, h)) (omega (arith, b, more)) c in
    (
      out,
      rounds-on fuel l _ _
            (round-line l n m next x (lines_text xs (13 ∷ 10 ∷ rest)) offset bytes z3_eok a.0 a.1 e)
            (goes_on-lines (n + 1) next (lines_text xs (13 ∷ 10 ∷ rest)) (offset + (length x + 2))
              bytes z3_eok (omega (arith, b, more)))
          ∙ o,
      over,
    )
