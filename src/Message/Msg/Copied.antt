-- ===== src/Message/Msg/Copied.antt =====
-- What InitResponse copies of the request's CSeq and Session headers.
use z3_engine.Base.{
  ℕ, ◌≡◌, ◌<◌, ap, false, Bool-cases, Option, none, some, List, [], ◌∷◌, ◌++◌, ◌==◌, ==→eq, Bytes,
  length, inl, inr,
}
use z3_engine.Message.Headers.Add.{HeaderLine}
use z3_engine.Message.Msg.{c_string, cut_at, session_text, chomped, hdr_cseq, hdr_session}
use z3_engine.Text.Lines.{is_space}
use z3_engine.Text.Lines.Spaces.{Trims, strchomp-Trims}
use z3_engine.Text.Lines.Words.{None}
use z3_engine.Text.Version.Split.{is_byte}

-- The front of a text up to the first byte that is `sep`, or the whole text if there is none.
pub data UpTo (sep : ℕ) : Bytes → Bytes → Type 0 where
  whole_text : (text : Bytes) → None (is_byte sep) text → UpTo sep text text
  up_to : (front rest : Bytes) → None (is_byte sep) front → UpTo sep (front ++ (sep ∷ rest)) front

cons-UpTo :
    (sep c : ℕ) {text front : Bytes}
    → (c == sep) ≡ false
    → UpTo sep text front
    → UpTo sep (c ∷ text) (c ∷ front)
cons-UpTo sep c e (whole_text text n) = whole_text (c ∷ text) (e, n)
cons-UpTo sep c e (up_to front rest n) = up_to (c ∷ front) rest (e, n)

pub cut_at-UpTo : (sep : ℕ) (text : Bytes) → UpTo sep text (cut_at sep text)
unfolding cut_at
cut_at-UpTo sep [] = whole_text [] tt
cut_at-UpTo sep (c ∷ text) = elim (Bool-cases (c == sep)) [
  | inl t ↦ rw (t, ==→eq c sep t) (up_to [] text tt)
  | inr f ↦ rw f (cons-UpTo sep c f (cut_at-UpTo sep text))
]

pub c_string-UpTo : (text : Bytes) → UpTo 0 text (c_string text)
unfolding c_string
c_string-UpTo [] = whole_text [] tt
c_string-UpTo (c ∷ text) = elim (Bool-cases (c == 0)) [
  | inl t ↦ rw (t, ==→eq c 0 t) (up_to [] text tt)
  | inr f ↦ rw f (cons-UpTo 0 c f (c_string-UpTo text))
]

-- The Session value `v` up to its NUL, not empty, up to its first colon, less the whitespace at its
-- end, with a NUL behind.
pub record SessionCopy (v copy : Bytes) : Type 0 where
  pub text : Bytes
  pub front : Bytes
  pub kept : Bytes
  pub to_nul : UpTo 0 v text
  pub some_text : 0 < length text
  pub to_colon : UpTo b':' text front
  pub trimmed : Trims is_space front kept
  pub with_nul : copy ≡ kept ++ (0 ∷ [])

pub session_text-SessionCopy :
    (v : Bytes) → 0 < length (c_string v) → SessionCopy v (session_text v)
unfolding session_text chomped
session_text-SessionCopy v some_text =
    let (kept, e, trims) = strchomp-Trims (cut_at b':' (c_string v)) in
    record {
      text = c_string v;
      front = cut_at b':' (c_string v);
      kept = kept;
      to_nul = c_string-UpTo v;
      some_text = some_text;
      to_colon = cut_at-UpTo b':' (c_string v);
      trimmed = trims;
      with_nul = ap (λ o. chomped o ++ (0 ∷ [])) e;
    }

-- The headers of the answer for the request's CSeq and Session, if it has them.
pub data CopiesCseq : Option (Option Bytes) → List HeaderLine → Type 0 where
  no_cseq : CopiesCseq none []
  a_cseq : (v text : Bytes) → UpTo 0 v text → CopiesCseq (some (some v)) ((hdr_cseq, text) ∷ [])

pub data CopiesSession : Option (Option Bytes) → List HeaderLine → Type 0 where
  no_session : CopiesSession none []
  a_session :
      (v copy : Bytes)
      → SessionCopy v copy
      → CopiesSession (some (some v)) ((hdr_session, copy) ∷ [])
