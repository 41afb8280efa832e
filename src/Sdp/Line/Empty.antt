-- ===== src/Sdp/Line/Empty.antt =====
-- Lines with an empty value, and the bandwidth of a session.
use z3_engine.Base.{
  Bool, Option, none, some, List, ◌∷◌, zero, suc, Outcome, ◌>>=◌, ap, ◌∙◌, Bool-cases, Option-cases,
  ℕ, ◌≡◌, refl, false, true, [], Bytes, ok, fault, ◌⊎◌, inl, inr, if◌then◌else◌,
}
use z3_engine.Sdp.{
  SdpMessage, SdpMedia, set_field, set_version, set_session_name, set_info, set_url, media_set_info,
  add_bandwidth,
}
use z3_engine.Sdp.Line.{
  SdpContext, parse_line, change_at, on_media, buffer_size, on_msg, parse_info, parse_origin,
  parse_connection, next_field, slashes_to_spaces, parse_bandwidth,
}
use z3_engine.Text.Lines.{read_string, Word}
use z3_engine.Text.Lines.Words.{read_string_end}

-- The types whose setter takes the length of the copy.
abbrev pub Measured : ℕ → Type 0
Measured type =
    (type ≡ b'v')
    ⊎ ((type ≡ b'o') ⊎ ((type ≡ b's') ⊎ ((type ≡ b'i') ⊎ ((type ≡ b'u') ⊎ (type ≡ b'c')))))

empty_field :
    (ctx : SdpContext) (g : Option Bytes → SdpMessage)
    → on_msg (λ s. set_field [] >>= λ t. ok (g t)) ctx ≡ fault
unfolding on_msg set_field
empty_field ctx g = refl

change_at_fault :
    (f : SdpMedia → Outcome SdpMedia) (k : ℕ) (ms : List SdpMedia)
    → ((m : SdpMedia) → f m ≡ fault)
    → change_at f k ms ≡ fault
unfolding change_at
change_at_fault f k [] h = refl
change_at_fault f zero (m ∷ ms) h = rw (h m)
change_at_fault f (suc k) (m ∷ ms) h = rw (change_at_fault f k ms h)

on_media_fault :
    (f : SdpMedia → Outcome SdpMedia) (ctx : SdpContext)
    → ((m : SdpMedia) → f m ≡ fault)
    → on_media f ctx ≡ fault
unfolding on_media
on_media_fault f ctx h = elim (Option-cases ctx.media) [
  | inl e ↦ ap (from ctx) e
  | inr (k, e) ↦ ap (from ctx) e ∙ rw (change_at_fault f k ctx.msg.medias h)
]
  where
    from : SdpContext → Option ℕ → Outcome SdpContext
    from c o = elim o [
      | none ↦ fault
      | some k ↦ do
        ms ← change_at f k c.msg.medias
        ok (record c { msg = record c.msg { medias = ms } })
    ]

empty_info : (ctx : SdpContext) → parse_info [] ctx ≡ fault
unfolding parse_info on_msg set_info set_field media_set_info
empty_info ctx = elim (Bool-cases ctx.in_media) [
  | inl t ↦
      ap (λ b. if b then on_media (media_set_info []) ctx else fault) t
      ∙ on_media_fault (media_set_info []) ctx (λ m. refl)
  | inr f ↦ ap (λ b. if b then on_media (media_set_info []) ctx else fault) f
]

nothing : (p : Bytes) → p ≡ [] → next_field p ≡ fault
unfolding next_field set_field
nothing p e =
    ap (λ k. let w = read_string buffer_size k in set_field w.word >>= λ t. ok (t, w.rest)) e
    ∙ ap (λ w. set_field (Word.word w) >>= λ t. ok (t, Word.rest w)) (read_string_end buffer_size)

empty_origin : parse_origin [] ≡ fault
unfolding parse_origin
empty_origin = rw (nothing [] refl)

empty_connection : parse_connection [] ≡ fault
unfolding parse_connection slashes_to_spaces
empty_connection = rw (nothing [] refl)

-- `ParseLine` of a line of type v, o, s, i, u or c with an empty value stops the program, in every
-- context.
pub parse_line_empty :
    (ctx : SdpContext) (type : ℕ) → Measured type → parse_line ctx type [] ≡ fault
unfolding parse_line on_msg set_field set_version set_session_name set_url
parse_line_empty ctx type h = elim h [
  | inl e ↦ ap (λ t. parse_line ctx t []) e
  | inr (inl e) ↦ ap (λ t. parse_line ctx t []) e ∙ rw empty_origin
  | inr (inr (inl e)) ↦ ap (λ t. parse_line ctx t []) e
  | inr (inr (inr (inl e))) ↦ ap (λ t. parse_line ctx t []) e ∙ empty_info ctx
  | inr (inr (inr (inr (inl e)))) ↦ ap (λ t. parse_line ctx t []) e
  | inr (inr (inr (inr (inr e)))) ↦ ap (λ t. parse_line ctx t []) e ∙ rw empty_connection
]

session_bandwidth : (b : Bool) (x y : Outcome SdpContext) → b ≡ false → (if b then x else y) ≡ y
session_bandwidth true x y e = cc
session_bandwidth false x y e = refl

pub parse_line-bandwidth :
    (ctx : SdpContext) (line : Bytes) → ctx.in_media ≡ false → parse_line ctx b'b' line ≡ ok ctx
unfolding parse_line parse_bandwidth add_bandwidth
parse_line-bandwidth ctx line h = session_bandwidth ctx.in_media _ _ h
