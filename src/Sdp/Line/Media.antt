-- ===== src/Sdp/Line/Media.antt =====
-- ParseLine on a media line that is written as RFC 4566 has it.
use z3_engine.Base.{
  take-all, true, ℕ, zero, suc, ◌+◌, ◌≤◌, ◌<◌, ◌≡◌, refl, ◌∙◌, ap, List, [], ◌∷◌, ◌++◌, reverse,
  Option, none, some, Bytes, length, ok, Outcome, arith, length-append,
}
use mathlib.Core.List.{append_assoc, reverse-reverse}
use z3_engine.Sdp.{SdpMedia, new_media, add_format, z3_strdup, atoi}
use z3_engine.Sdp.Line.{read_formats, parse_media, set_ports, with_ports, split_last, buffer_size}
use z3_engine.Text.Lines.{is_space, read_string, Word}
use z3_engine.Text.Version.{split_at}
use z3_engine.Text.Version.Split.{
  is_byte, split_at-first, split_at-none, None-reverse, reverse-apart,
}
use z3_engine.Text.Lines.Words.{None, All, Starts, whole, read_string_word}

-- A word that its buffer holds.
abbrev pub IsWord : Bytes → Type 0
IsWord w = (0 < length w) × (length w ≤ 1023) × None is_space w

abbrev pub AllWords : List Bytes → Type 0
AllWords [] = Unit {0}
AllWords (w ∷ ws) = IsWord w × AllWords ws

-- Words with a space before each.
abbrev pub spaced : List Bytes → Bytes
spaced [] = []
spaced (w ∷ ws) = b' ' ∷ (w ++ spaced ws)

space_is : is_space b' ' ≡ true
unfolding is_space
space_is = refl

spaced-Starts : (ws : List Bytes) → Starts is_space (spaced ws)
spaced-Starts [] = tt
spaced-Starts (w ∷ ws) = space_is

read_word :
    (front w rest : Bytes)
    → All is_space front
    → IsWord w
    → Starts is_space rest
    → read_string buffer_size (front ++ (w ++ rest)) ≡ whole w rest
read_word front [] rest a h s = absurd (omega (arith, h.0))
read_word front (c ∷ w) rest a h s =
    read_string_word buffer_size front c w rest (omega arith) (omega arith) a h.2 s
    ∙ ap (λ k. whole k rest) (take-all 1023 (c ∷ w) h.1)

read_spaced :
    (w : Bytes) (ws : List Bytes)
    → IsWord w
    → read_string buffer_size (spaced (w ∷ ws)) ≡ whole w (spaced ws)
read_spaced w ws h = read_word (b' ' ∷ []) w (spaced ws) (space_is, tt) h (spaced-Starts ws)

abbrev with_formats : SdpMedia → List Bytes → SdpMedia
with_formats m ws = record m { fmts = m.fmts ++ ws }

abbrev round : ℕ → SdpMedia → Word → Outcome SdpMedia
round fuel m w = elim w.rest [
  | [] ↦ ok (add_format w.word m)
  | _ ∷ _ ↦ read_formats fuel w.rest (add_format w.word m)
]

read_formats-spaced :
    (fuel : ℕ) (w : Bytes) (ws : List Bytes) (m : SdpMedia)
    → length ws < fuel
    → AllWords (w ∷ ws)
    → read_formats fuel (spaced (w ∷ ws)) m ≡ ok (with_formats m (w ∷ ws))
unfolding read_formats add_format
read_formats-spaced zero w ws m h a = absurd (omega (arith, h))
read_formats-spaced (suc fuel) w [] m h a = ap (round fuel m) (read_spaced w [] a.0)
read_formats-spaced (suc fuel) w (v ∷ ws) m h a =
    ap (round fuel m) (read_spaced w (v ∷ ws) a.0)
    ∙ read_formats-spaced fuel v ws (add_format w m) (omega (arith, h)) a.1
    ∙ ap (λ l. ok (record m { fmts = l })) (append_assoc m.fmts (w ∷ []) (v ∷ ws))

-- The word of the port with the port and the number of ports that it names: behind its last slash
-- stands the number, and without a slash the number is 0xFFFFFFFF.
pub data PortWord : Bytes → ℕ → ℕ → Type 0 where
  plain : (word : Bytes) → None (is_byte b'/') word → PortWord word (atoi word) 0xFFFFFFFF
  numbered :
      (port number : Bytes)
      → None (is_byte b'/') number
      → PortWord (port ++ (b'/' ∷ number)) (atoi port) (atoi number)

abbrev halves : Option (Bytes × Bytes) → Option (Bytes × Bytes)
halves o = elim o [ none ↦ none | some (behind, before) ↦ some (reverse before, reverse behind) ]

split_last-apart :
    (front behind : Bytes)
    → None (is_byte b'/') behind
    → split_last (front ++ (b'/' ∷ behind)) ≡ some (front, behind)
unfolding split_last
split_last-apart front behind n =
    ap (λ s. halves (split_at b'/' s)) (reverse-apart b'/' front behind)
    ∙ ap halves (
        split_at-first b'/' (reverse behind) (reverse front) (None-reverse (is_byte b'/') behind n))
    ∙ ap (λ f. some (f, reverse (reverse behind))) (reverse-reverse front)
    ∙ ap (λ k. some (front, k)) (reverse-reverse behind)

split_last-none : (word : Bytes) → None (is_byte b'/') word → split_last word ≡ none
unfolding split_last
split_last-none word n =
    ap halves (split_at-none b'/' (reverse word) (None-reverse (is_byte b'/') word n))

set_ports-PortWord :
    (m : SdpMedia) {word : Bytes} {port number : ℕ}
    → PortWord word port number
    → set_ports word m ≡ record m { port = port; port_num = number }
unfolding set_ports with_ports
set_ports-PortWord m (plain word n) = ap (λ o. with_ports o word m) (split_last-none word n)
set_ports-PortWord m (numbered port number n) =
    ap (λ o. with_ports o (port ++ (b'/' ∷ number)) m) (split_last-apart port number n)

strdup-word : (w : Bytes) → IsWord w → z3_strdup w ≡ some w
unfolding z3_strdup
strdup-word [] h = absurd (omega (arith, h.0))
strdup-word (c ∷ w) h = refl

length-le-spaced : (ws : List Bytes) → length ws ≤ length (spaced ws)
length-le-spaced [] = omega arith
length-le-spaced (w ∷ ws) = omega (arith, length-append w (spaced ws), length-le-spaced ws)

-- The media that `ParseLine` makes of `m=<media> <port> <proto> <fmt> ...`, with words of 1 to
-- 1023 bytes without whitespace, one space before each but the first, and at least one format, has
-- the first word as its media, the third as its protocol, and the words behind it as its formats
-- in order. Its port is the number before the last slash of the second word and its number of
-- ports the one behind it. Without a slash the port is the number of the whole second word, and
-- the number of ports is 0xFFFFFFFF.
pub parse_media-words :
    (a b c w : Bytes) (ws : List Bytes) (port number : ℕ)
    → AllWords (a ∷ b ∷ c ∷ w ∷ ws)
    → PortWord b port number
    → parse_media (a ++ spaced (b ∷ c ∷ w ∷ ws))
      ≡ ok (record new_media {
        media = some a;
        port = port;
        port_num = number;
        proto = some c;
        fmts = w ∷ ws;
      })
unfolding parse_media new_media
parse_media-words a b c w ws port number h ports =
    let begun : SdpMedia = record new_media { media = some a } in
    let made : SdpMedia = record begun { port = port; port_num = number; proto = some c } in
    rw
      (
        read_word [] a (spaced (b ∷ c ∷ w ∷ ws)) tt h.0 (spaced-Starts (b ∷ c ∷ w ∷ ws)),
        read_spaced b (c ∷ w ∷ ws) h.1.0,
        read_spaced c (w ∷ ws) h.1.1.0,
        strdup-word a h.0,
        strdup-word c h.1.1.0,
        set_ports-PortWord begun ports,
      )
      (read_formats-spaced (length (spaced (w ∷ ws)) + 1) w ws made
        (omega (arith, length-le-spaced (w ∷ ws))) h.1.1.1)
