-- ===== src/Sdp/Document.antt =====
-- SDPMessage::ParseString of z3_rtsp_client/z3_sdp.cpp: the loop over the lines of a text that ends
-- at its NUL.
pub mod Ends
pub mod Lines
use z3_engine.Base.{
  ℕ, zero, suc, ◌+◌, Bool, true, false, ◌||◌, Option, none, some, [], ◌∷◌, ◌==◌, if◌then◌else◌,
  Bytes, length, take, Outcome, ok, fault, hangs, ◌>>=◌,
}
use z3_engine.Sdp.{SdpMessage}
use z3_engine.Sdp.Line.{SdpContext, parse_line, buffer_size}
use z3_engine.Text.Lines.{skip_spaces}

-- What `*pos` ends the copying of a line, behind the NUL.
abbrev pub ends_line : ℕ → Bool
ends_line c = c == 10 || c == 13

-- The line up to its end, and the text from there.
pub line_at : Bytes → Bytes × Bytes
line_at [] = ([], [])
line_at (c ∷ cs) = if ends_line c then ([], c ∷ cs) else (c ∷ (line_at cs).0, (line_at cs).1)

-- `line_done`: up to and over the newline.
pub line_done : Bytes → Bytes
line_done [] = []
line_done (c ∷ cs) = if c == 10 then cs else line_done cs

-- A line whose type `=` follows.
abbrev starts_value : Bytes → Bool
starts_value [] = false
starts_value (c ∷ cs) = c == b'='

abbrev value_part : Bytes → Bytes
value_part [] = []
value_part (c ∷ cs) = cs

-- What a round leaves: the context and the text behind the line. The buffer keeps 1023 bytes.
pub parse_one : SdpContext → ℕ → Bytes → Outcome (SdpContext × Bytes)
unfolding line_at line_done
parse_one ctx type pos =
    if starts_value pos
    then (do
      ctx' ← parse_line ctx type (take 1023 (line_at (value_part pos)).0)
      ok (ctx', line_done (line_at (value_part pos)).1))
    else ok (ctx, line_done pos)

unfoldable pub parse_lines : ℕ → SdpContext → Bytes → Outcome SdpContext
unfolding parse_one
parse_lines zero ctx pos = hangs
parse_lines (suc fuel) ctx pos = elim (skip_spaces pos) [
  | [] ↦ ok ctx
  | type ∷ pos' ↦ do (ctx', rest) ← parse_one ctx type pos'; parse_lines fuel ctx' rest
]

abbrev pub einval : ℕ
einval = 22

unfoldable pub new_context : SdpMessage → SdpContext
new_context s = record { in_media = false; media = none; msg = s }

-- `none` is NULL. Every round takes a byte off at least.
unfoldable pub parse_string : Option Bytes → ℕ → SdpMessage → Outcome (ℕ × SdpMessage)
unfolding parse_lines
parse_string none size s = ok (einval, s)
parse_string (some text) size s =
    if size == 0
    then ok (einval, s)
    else (do ctx ← parse_lines (length text + 1) (new_context s) text; ok (0, ctx.msg))
