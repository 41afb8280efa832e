-- ===== src/Sdp/Document/Lines.antt =====
-- ParseString of a text that is lines: the fold of ParseLine over them.
use z3_engine.Base.{
  take-all, ℕ, zero, suc, ◌+◌, ◌≤◌, ◌<◌, ◌≡◌, refl, fun_ext, sym, ◌∙◌, ap, false, List, [], ◌∷◌,
  ◌++◌, some, ◌==◌, if◌then◌else◌, Bytes, length, length-append, Outcome, ok, fault, hangs, ◌>>=◌,
  arith, ne→==, subst, inl, >>=-eq-ok, ok-injective,
}
use z3_engine.Sdp.{SdpMessage, new_sdp, get_media_count}
use z3_engine.Sdp.Document.{
  ends_line, line_at, line_done, parse_one, parse_lines, parse_string, new_context,
}
use z3_engine.Sdp.Line.{SdpContext, parse_line}
use z3_engine.Sdp.Line.Context.{Linked, media_after, parse_line-Linked}
use z3_engine.Text.Lines.{is_space, skip_spaces, skip_while}
use z3_engine.Text.Lines.Words.{None}

-- A type and a value.
abbrev pub SdpLine : Type 0
SdpLine = ℕ × Bytes

-- `<type>=<value>` and CR LF.
abbrev pub text_of : List SdpLine → Bytes
text_of [] = []
text_of ((type, value) ∷ ls) = type ∷ b'=' ∷ (value ++ (13 ∷ 10 ∷ text_of ls))

abbrev pub WellFormed : List SdpLine → Type 0
WellFormed [] = Unit {0}
WellFormed ((type, value) ∷ ls) =
    (is_space type ≡ false) × (None ends_line value) × (length value ≤ 1023) × WellFormed ls

-- ParseLine on one line after the other.
pub fold_lines : SdpContext → List SdpLine → Outcome SdpContext
fold_lines ctx [] = ok ctx
fold_lines ctx ((type, value) ∷ ls) = do ctx' ← parse_line ctx type value; fold_lines ctx' ls

line_at-ended :
    (value rest : Bytes)
    → None ends_line value
    → line_at (value ++ (13 ∷ 10 ∷ rest)) ≡ (value, 13 ∷ 10 ∷ rest)
unfolding line_at
line_at-ended [] rest n = refl
line_at-ended (c ∷ cs) rest n = rw (n.0, line_at-ended cs rest n.1)

parse_one-line :
    (ctx : SdpContext) (type : ℕ) (value rest : Bytes)
    → None ends_line value
    → length value ≤ 1023
    → parse_one ctx type (b'=' ∷ (value ++ (13 ∷ 10 ∷ rest)))
      ≡ (parse_line ctx type value >>= λ c. ok (c, rest))
unfolding parse_one line_done
parse_one-line ctx type value rest n h = rw (line_at-ended value rest n, take-all 1023 value h)

>>=-with-rest :
    (m : Outcome SdpContext) (rest : Bytes) (f : SdpContext × Bytes → Outcome SdpContext)
    → ((m >>= λ c. ok (c, rest)) >>= f) ≡ (m >>= λ c. f (c, rest))
>>=-with-rest hangs rest f = refl
>>=-with-rest fault rest f = refl
>>=-with-rest (ok c) rest f = refl

-- The rest of a round, once whitespace is skipped.
abbrev pub go_on : ℕ → SdpContext → Bytes → Outcome SdpContext
go_on fuel ctx pos = elim pos [
  | [] ↦ ok ctx
  | type ∷ pos' ↦ do (ctx', rest) ← parse_one ctx type pos'; parse_lines fuel ctx' rest
]

skip_spaces_none : (c : ℕ) (cs : Bytes) → is_space c ≡ false → skip_spaces (c ∷ cs) ≡ c ∷ cs
unfolding skip_spaces skip_while
skip_spaces_none c cs e = rw e

step_one :
    (fuel : ℕ) (ctx : SdpContext) (type : ℕ) (value rest : Bytes)
    → is_space type ≡ false
    → None ends_line value
    → length value ≤ 1023
    → parse_lines (suc fuel) ctx (type ∷ b'=' ∷ (value ++ (13 ∷ 10 ∷ rest)))
      ≡ (parse_line ctx type value >>= λ c. parse_lines fuel c rest)
unfolding parse_lines
step_one fuel ctx type value rest s n h =
    ap (go_on fuel ctx) (skip_spaces_none type _ s)
    ∙ ap (λ m. m >>= λ (c, r). parse_lines fuel c r) (parse_one-line ctx type value rest n h)
    ∙ >>=-with-rest (parse_line ctx type value) rest (λ (c, r). parse_lines fuel c r)

parse_lines-fold :
    (fuel : ℕ) (ctx : SdpContext) (ls : List SdpLine)
    → length ls < fuel
    → WellFormed ls
    → parse_lines fuel ctx (text_of ls) ≡ fold_lines ctx ls
unfolding fold_lines parse_lines skip_spaces skip_while
parse_lines-fold zero ctx ls h w = absurd (omega (arith, h))
parse_lines-fold (suc fuel) ctx [] h w = refl
parse_lines-fold (suc fuel) ctx ((type, value) ∷ ls) h (s, n, l, w) =
    step_one fuel ctx type value (text_of ls) s n l
    ∙ ap (λ f. parse_line ctx type value >>= f)
        (fun_ext λ c. parse_lines-fold fuel c ls (omega (arith, h)) w)

length-le-text_of : (ls : List SdpLine) → length ls ≤ length (text_of ls)
length-le-text_of [] = omega arith
length-le-text_of ((type, value) ∷ ls) =
    omega (arith, length-append value (13 ∷ 10 ∷ text_of ls), length-le-text_of ls)

-- `ParseString` of a text that is lines `<type>=<value>`, each ended by CR LF, with types that are
-- no whitespace and values of at most 1023 bytes without CR or LF, comes to what `ParseLine` on
-- one line after the other comes to, with the result 0.
pub parse_string-lines :
    (ls : List SdpLine) (size : ℕ) (s : SdpMessage)
    → WellFormed ls
    → 0 < size
    → parse_string (some (text_of ls)) size s
      ≡ (fold_lines (new_context s) ls >>= λ ctx. ok (0, ctx.msg))
unfolding parse_string
parse_string-lines ls size s w h = rw (
  ne→== size 0 (λ e. omega (arith, e, h)),
  parse_lines-fold (length (text_of ls) + 1) (new_context s) ls
      (omega (arith, length-le-text_of ls)) w,
)

-- The lines of type `m`.
pub media_lines : List SdpLine → ℕ
media_lines [] = 0
media_lines ((type, value) ∷ ls) = if type == b'm' then suc (media_lines ls) else media_lines ls

fold_lines-Linked :
    (n : ℕ) (ctx : SdpContext) (ls : List SdpLine) {out : SdpContext}
    → Linked n ctx
    → fold_lines ctx ls ≡ ok out
    → Linked (n + media_lines ls) out
unfolding fold_lines media_lines
fold_lines-Linked n ctx [] l e = rw (← ok-injective e) (subst (λ k. Linked k ctx) (omega arith) l)
fold_lines-Linked n ctx ((type, value) ∷ ls) {out} l e =
    let (c, e1, e2) = >>=-eq-ok (parse_line ctx type value) (λ c. fold_lines c ls) e in
    let ih =
      fold_lines-Linked (media_after n type) c ls (parse_line-Linked n ctx type value l e1) e2 in
    subst (λ k. Linked k out) (ground arith) ih

-- Where `ParseString` of such a text of lines into a new message returns 0, the message has as
-- many media as the text has lines of type `m`.
pub parse_string-media_count :
    (ls : List SdpLine) (size : ℕ) {s : SdpMessage}
    → WellFormed ls
    → 0 < size
    → parse_string (some (text_of ls)) size new_sdp ≡ ok (0, s)
    → get_media_count s ≡ media_lines ls
unfolding new_context new_sdp get_media_count
parse_string-media_count ls size {s} w h e =
    let (ctx, e1, e2) =
      >>=-eq-ok (fold_lines (new_context new_sdp) ls) (λ c. ok (0, c.msg))
        (sym (parse_string-lines ls size new_sdp w h) ∙ e) in
    let l =
      fold_lines-Linked 0 (new_context new_sdp) ls (record { counted = refl; last = inl refl })
        e1 in
    let same : ctx.msg ≡ s = ap (λ r. r.1) (ok-injective e2) in
    ap (λ m. length m.medias) (sym same) ∙ l.counted ∙ omega arith
