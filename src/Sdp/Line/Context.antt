-- ===== src/Sdp/Line/Context.antt =====
-- What holds of the context between two lines: once a media line was read, `ctx.media` is the last
-- media of the message.
use z3_engine.Base.{
  ℕ, zero, suc, ◌+◌, ◌≡◌, refl, sym, ◌∙◌, ap, Bool, true, false, ◌⊎◌, inl, inr, List, [], ◌∷◌,
  Option, none, some, ◌==◌, if◌then◌else◌, Bytes, length, length-append, Outcome, ok, fault, ◌>>=◌,
  arith, ==→eq, Bool-cases, >>=-eq-ok, ok-injective,
}
use z3_engine.Sdp.{
  SdpMedia, SdpMessage, add_media, add_mail, add_phone, add_bandwidth, add_attribute, set_field,
  set_info, set_version, set_session_name, set_url,
}
use z3_engine.Sdp.Line.{
  SdpContext, change_at, on_media, on_msg, parse_line, keep_connection, parse_bandwidth,
  parse_attribute, parse_info, parse_media, add_parsed,
}

-- `n` media so far; in a media section, `ctx.media` is the last.
pub record Linked (n : ℕ) (ctx : SdpContext) : Type 0 where
  pub counted : length ctx.msg.medias ≡ n
  pub last : (ctx.in_media ≡ false) ⊎ ((k : ℕ) × (ctx.media ≡ some k) × (k + 1 ≡ n))

length-change_at :
    (f : SdpMedia → Outcome SdpMedia) (k : ℕ) (ms : List SdpMedia) {out : List SdpMedia}
    → change_at f k ms ≡ ok out
    → length out ≡ length ms
unfolding change_at
length-change_at f k [] e = cc
length-change_at f zero (m ∷ ms) e =
    let (m', e1, e2) = >>=-eq-ok (f m) (λ m'. ok (m' ∷ ms)) e in rw (← ok-injective e2)
length-change_at f (suc k) (m ∷ ms) e =
    let (ms', e1, e2) = >>=-eq-ok (change_at f k ms) (λ ms'. ok (m ∷ ms')) e in
    rw (← ok-injective e2) (ap suc (length-change_at f k ms e1))

-- The change of the media under a stuck call: the parts of a success.
on_media-ok :
    (f : SdpMedia → Outcome SdpMedia) (ctx : SdpContext) {out : SdpContext}
    → on_media f ctx ≡ ok out
    → (ms : List SdpMedia) × (length ms ≡ length ctx.msg.medias)
      × (out ≡ record ctx { msg = record ctx.msg { medias = ms } })
unfolding on_media
on_media-ok f ctx {out} e = split ctx.media e
  where
    split :
        (place : Option ℕ)
        → elim place [
          | none ↦ fault
          | some k ↦ do
            ms ← change_at f k ctx.msg.medias
            ok (record ctx { msg = record ctx.msg { medias = ms } })
        ]
          ≡ ok out
        → (ms : List SdpMedia) × (length ms ≡ length ctx.msg.medias)
          × (out ≡ record ctx { msg = record ctx.msg { medias = ms } })
    split none e' = cc
    split (some k) e' =
        let (ms, e1, e2) =
          >>=-eq-ok (change_at f k ctx.msg.medias)
            (λ ms. ok (record ctx { msg = record ctx.msg { medias = ms } })) e' in
        (ms, length-change_at f k ctx.msg.medias e1, sym (ok-injective e2))

on_media-Linked :
    (f : SdpMedia → Outcome SdpMedia) (n : ℕ) (ctx : SdpContext) {out : SdpContext}
    → Linked n ctx
    → on_media f ctx ≡ ok out
    → Linked n out
on_media-Linked f n ctx l e =
    let (ms, q, o) = on_media-ok f ctx e in rw o (record { counted = q ∙ l.counted; last = l.last })

-- Every result of the call is linked.
abbrev Keeps : ℕ → Outcome SdpContext → Type 0
Keeps n o = (out : SdpContext) → o ≡ ok out → Linked n out

choose-Keeps :
    (b : Bool) (n : ℕ) {x y : Outcome SdpContext}
    → Keeps n x
    → Keeps n y
    → Keeps n (if b then x else y)
choose-Keeps true n p q = p
choose-Keeps false n p q = q

ok-Keeps : (n : ℕ) (ctx : SdpContext) → Linked n ctx → Keeps n (ok ctx)
ok-Keeps n ctx l out e = rw (← ok-injective e) l

bind-Keeps {ℓ} :
    {A : Type ℓ} (n : ℕ) (m : Outcome A) (f : A → Outcome SdpContext)
    → ((a : A) → Keeps n (f a))
    → Keeps n (m >>= f)
bind-Keeps n m f k out e = let (a, _, e2) = >>=-eq-ok m f e in k a out e2

-- A message with the same media.
alike :
    (n : ℕ) (ctx : SdpContext) (s : SdpMessage)
    → s.medias ≡ ctx.msg.medias
    → Linked n ctx
    → Linked n (record ctx { msg = s })
alike n ctx s e l = record { counted = ap (length {_}) e ∙ l.counted; last = l.last }

-- The setters that take the length of the copy, each with the field it writes.
field_set :
    (n : ℕ) (ctx : SdpContext) (line : Bytes) (g : Option Bytes → SdpMessage)
    → Linked n ctx
    → ((t : Option Bytes) → (g t).medias ≡ ctx.msg.medias)
    → Keeps n (on_msg (λ s. set_field line >>= λ t. ok (g t)) ctx)
unfolding on_msg
field_set n ctx line g l h out e =
    let (s, e1, e2) =
      >>=-eq-ok (set_field line >>= λ t. ok (g t)) (λ s. ok (record ctx { msg = s })) e in
    let (t, _, e3) = >>=-eq-ok (set_field line) (λ t. ok (g t)) e1 in
    rw (← ok-injective e2, ← ok-injective e3) (alike n ctx (g t) (h t) l)

-- Every line but a media line.
other_line :
    (n : ℕ) (ctx : SdpContext) (type : ℕ) (line : Bytes)
    → Linked n ctx
    → (type == b'm') ≡ false
    → Keeps n (parse_line ctx type line)
unfolding parse_line on_msg set_version set_session_name set_info set_url parse_info keep_connection
    parse_bandwidth parse_attribute add_mail add_phone add_bandwidth add_attribute
other_line n ctx type line l no_media =
    choose-Keeps (type == b'v') n
      (field_set n ctx line (λ t. record ctx.msg { version = t }) l (λ t. refl))
      (choose-Keeps (type == b'o') n
        (bind-Keeps n _ _ (λ origin. ok-Keeps n _ (alike n ctx _ refl l)))
        (choose-Keeps (type == b's') n
          (field_set n ctx line (λ t. record ctx.msg { session_name = t }) l (λ t. refl))
          (choose-Keeps (type == b'i') n
            (choose-Keeps ctx.in_media n (λ out. on_media-Linked _ n ctx l)
              (field_set n ctx line (λ t. record ctx.msg { info = t }) l (λ t. refl)))
            (choose-Keeps (type == b'u') n
              (field_set n ctx line (λ t. record ctx.msg { url = t }) l (λ t. refl))
              (choose-Keeps (type == b'e') n (ok-Keeps n _ (alike n ctx _ refl l)) (
                choose-Keeps (type == b'p') n (ok-Keeps n _ (alike n ctx _ refl l)) (
                  choose-Keeps (type == b'c') n
                    (bind-Keeps n _ _ (λ conn.
                      choose-Keeps ctx.in_media n (λ out. on_media-Linked _ n ctx l)
                        (ok-Keeps n _ (alike n ctx _ refl l))))
                    (choose-Keeps (type == b'b') n
                      (choose-Keeps ctx.in_media n (λ out. on_media-Linked _ n ctx l)
                        (ok-Keeps n _ (alike n ctx _ refl l)))
                      (choose-Keeps (type == b'a') n
                        (choose-Keeps ctx.in_media n (λ out. on_media-Linked _ n ctx l)
                          (ok-Keeps n _ (alike n ctx _ refl l)))
                        (rw no_media (ok-Keeps n ctx l)))))))))))

media_line :
    (n : ℕ) (ctx : SdpContext) (line : Bytes)
    → Linked n ctx
    → Keeps (n + 1) (parse_media line >>= λ m. ok (add_parsed m ctx))
unfolding add_parsed add_media
media_line n ctx line l = bind-Keeps (n + 1) (parse_media line) _ λ m. ok-Keeps (n + 1) _ record {
  counted = omega (arith, l.counted, length-append ctx.msg.medias (m ∷ []));
  last = inr (length ctx.msg.medias, refl, omega (arith, l.counted));
}

-- The media after one more line.
abbrev pub media_after : ℕ → ℕ → ℕ
media_after n type = if type == b'm' then n + 1 else n

pub parse_line-Linked :
    (n : ℕ) (ctx : SdpContext) (type : ℕ) (line : Bytes) {out : SdpContext}
    → Linked n ctx
    → parse_line ctx type line ≡ ok out
    → Linked (media_after n type) out
unfolding parse_line
parse_line-Linked n ctx type line {out} l e = elim (Bool-cases (type == b'm')) [
  | inl t ↦
      let q : type ≡ b'm' = ==→eq type b'm' t in
      let e' : (parse_media line >>= λ m. ok (add_parsed m ctx)) ≡ ok out =
        ap (λ k. parse_line ctx k line) (sym q) ∙ e in
      rw t (media_line n ctx line l out e')
  | inr f ↦ rw f (other_line n ctx type line l f out e)
]
