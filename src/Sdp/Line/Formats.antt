-- ===== src/Sdp/Line/Formats.antt =====
-- ParseLine comes to an end: the loop over the formats of a media line has enough rounds.
use z3_engine.Base.{
  ℕ, zero, suc, ◌≤◌, ◌<◌, Bool, true, false, Option, none, some, List, [], ◌∷◌, if◌then◌else◌,
  Bytes, length, Outcome, ok, fault, ◌>>=◌, Halts, >>=-Halts, ok-Halts, then-ok-Halts, arith, ◌-◌,
  ◌==◌,
}
use z3_engine.Sdp.{
  SdpMedia, SdpMessage, add_format, set_field, set_version, set_session_name, set_info, set_url,
  media_set_info,
}
use z3_engine.Sdp.Line.{
  SdpContext, parse_line, read_formats, parse_media, change_at, on_media, on_msg, parse_origin,
  parse_connection, next_field, keep_connection, parse_bandwidth, parse_attribute, parse_info,
  buffer_size,
}
use z3_engine.Text.Lines.{read_string}
use z3_engine.Text.Lines.Lengths.{length-read_string}

loop_end :
    (rest : Bytes) (m : SdpMedia) (more : Outcome SdpMedia)
    → (0 < length rest → Halts more)
    → Halts (elim rest [ [] ↦ ok m | _ ∷ _ ↦ more ])
loop_end [] m more h = λ e. cc
loop_end (c ∷ cs) m more h = h (omega arith)

read_formats-Halts :
    (fuel : ℕ) (p : Bytes) (m : SdpMedia) → length p < fuel → Halts (read_formats fuel p m)
unfolding read_formats
read_formats-Halts zero p m h = absurd (omega (arith, h))
read_formats-Halts (suc fuel) p m h =
    let w = read_string buffer_size p in
    let m' = add_format w.word m in
    let few : length w.rest ≤ length p - 1 = length-read_string buffer_size p in
    loop_end w.rest m' (read_formats fuel w.rest m')
      λ some_left. read_formats-Halts fuel w.rest m' (omega (arith, h, few, some_left))

set_field-Halts : (text : Bytes) → Halts (set_field text)
unfolding set_field
set_field-Halts [] = λ e. cc
set_field-Halts (c ∷ cs) = λ e. cc

change_at-Halts :
    (f : SdpMedia → Outcome SdpMedia) (k : ℕ) (ms : List SdpMedia)
    → ((m : SdpMedia) → Halts (f m))
    → Halts (change_at f k ms)
unfolding change_at
change_at-Halts f k [] h = λ e. cc
change_at-Halts f zero (m ∷ ms) h = then-ok-Halts (f m) (λ m'. m' ∷ ms) (h m)
change_at-Halts f (suc k) (m ∷ ms) h =
    then-ok-Halts (change_at f k ms) (λ ms'. m ∷ ms') (change_at-Halts f k ms h)

on_media-Halts :
    (f : SdpMedia → Outcome SdpMedia) (ctx : SdpContext)
    → ((m : SdpMedia) → Halts (f m))
    → Halts (on_media f ctx)
unfolding on_media
on_media-Halts f ctx h = at ctx.media
  where
    at :
        (place : Option ℕ)
        → Halts (elim place [
          | none ↦ fault
          | some k ↦ do
            ms ← change_at f k ctx.msg.medias
            ok (record ctx { msg = record ctx.msg { medias = ms } })
        ])
    at none = λ e. cc
    at (some k) = then-ok-Halts (change_at f k ctx.msg.medias) _ (change_at-Halts f k _ h)

on_msg-Halts :
    (ctx : SdpContext) (line : Bytes) (g : Option Bytes → SdpMessage)
    → Halts (on_msg (λ s. set_field line >>= λ t. ok (g t)) ctx)
unfolding on_msg
on_msg-Halts ctx line g =
    then-ok-Halts (set_field line >>= λ t. ok (g t)) _
      (then-ok-Halts (set_field line) g (set_field-Halts line))

next_field-Halts : (p : Bytes) → Halts (next_field p)
unfolding next_field
next_field-Halts p = then-ok-Halts (set_field _) _ (set_field-Halts _)

fields-Halts {ℓ} :
    {A : Type ℓ} (p : Bytes) (f : Option Bytes × Bytes → Outcome A)
    → ((r : Option Bytes × Bytes) → Halts (f r))
    → Halts (next_field p >>= f)
fields-Halts p f h = >>=-Halts (next_field p) f (next_field-Halts p) (λ r _. h r)

parse_origin-Halts : (p : Bytes) → Halts (parse_origin p)
unfolding parse_origin
parse_origin-Halts p = fields-Halts p _ λ a. fields-Halts a.1 _ λ b.
    fields-Halts b.1 _
      λ c. fields-Halts c.1 _ λ d. fields-Halts d.1 _ λ e. fields-Halts e.1 _ λ f. ok-Halts _

parse_connection-Halts : (p : Bytes) → Halts (parse_connection p)
unfolding parse_connection
parse_connection-Halts p =
    fields-Halts _ _ λ a. fields-Halts a.1 _ λ b. fields-Halts b.1 _ λ c. ok-Halts _

parse_media-Halts : (p : Bytes) → Halts (parse_media p)
unfolding parse_media
parse_media-Halts p = read_formats-Halts _ _ _ (omega arith)

choose-Halts :
    (b : Bool) {x y : Outcome SdpContext} → Halts x → Halts y → Halts (if b then x else y)
choose-Halts true p q = p
choose-Halts false p q = q

pub parse_line-Halts :
    (ctx : SdpContext) (type : ℕ) (line : Bytes) → Halts (parse_line ctx type line)
unfolding parse_line on_msg set_version set_session_name set_info set_url parse_info keep_connection
    parse_bandwidth parse_attribute media_set_info
parse_line-Halts ctx type line =
    let set = on_msg-Halts ctx line in
    choose-Halts (type == b'v') (set (λ t. record ctx.msg { version = t })) (
      choose-Halts (type == b'o') (then-ok-Halts (parse_origin line) _ (parse_origin-Halts line)) (
        choose-Halts (type == b's') (set (λ t. record ctx.msg { session_name = t })) (
          choose-Halts (type == b'i')
            (choose-Halts ctx.in_media
              (on_media-Halts _ ctx (λ m. then-ok-Halts (set_field line) _ (set_field-Halts line)))
              (set (λ t. record ctx.msg { info = t })))
            (choose-Halts (type == b'u') (set (λ t. record ctx.msg { url = t })) (
              choose-Halts (type == b'e') (ok-Halts _) (
                choose-Halts (type == b'p') (ok-Halts _) (
                  choose-Halts (type == b'c')
                    (>>=-Halts (parse_connection line) _ (parse_connection-Halts line) λ conn _.
                      choose-Halts ctx.in_media (on_media-Halts _ ctx (λ m. ok-Halts _))
                        (ok-Halts _))
                    (choose-Halts (type == b'b')
                      (choose-Halts ctx.in_media (on_media-Halts _ ctx (λ m. ok-Halts _))
                        (ok-Halts _))
                      (choose-Halts (type == b'a')
                        (choose-Halts ctx.in_media (on_media-Halts _ ctx (λ m. ok-Halts _))
                          (ok-Halts _))
                        (choose-Halts (type == b'm')
                          (then-ok-Halts (parse_media line) _ (parse_media-Halts line))
                          (ok-Halts _)))))))))))
