-- ===== src/Message/Msg/Answer.antt =====
-- InitResponse: which headers the answer to a request has.
use mathlib.Core.List.{append-nil}
use z3_engine.Base.{
  ℕ, ◌+◌, ◌≡◌, ◌<◌, refl, sym, ◌∙◌, ap, ◌⊎◌, inl, inr, Option, none, some, List, [], ◌∷◌, ◌++◌,
  arith, lt→ltb, Bytes, length, ok, fault, subst,
}
use z3_engine.Message.Headers.{
  KeyValues, new_key_values, get_header_in, place_from, z3_rtsp_enotimpl,
}
use z3_engine.Message.Headers.Add.{
  Inv, HeaderLine, listed, new_key_values-Inv, length-listed, add_to-listed, listed_from,
}
use z3_engine.Message.Headers.Get.{nth_of, nth_of-value, get_header_in-nth}
use z3_engine.Message.Headers.Remove.{remove_from_absent}
use z3_engine.Message.Msg.{
  response, RtspMsg, array_of, reason_of, unset, new_msg, add_header, get_header, c_string,
  session_text, hdr_cseq, hdr_session, copy_cseq, add_session, copy_session, copy_headers,
  remove_header, remove_in, init_response, version_1_0,
}
use z3_engine.Message.Msg.Copied.{
  UpTo, c_string-UpTo, session_text-SessionCopy, CopiesCseq, CopiesSession, no_cseq, a_cseq,
  no_session, a_session,
}
use z3_engine.Text.Version.{z3_eok}

-- The messages whose headers are well formed and are `l`; a message with no array has none.
pub record Has (m : RtspMsg) (l : List HeaderLine) : Type 0 where
  pub inv : Inv (array_of m.headers)
  pub lists : listed (array_of m.headers) ≡ l

pub add_header-Has :
    (field : ℕ) (value : Bytes) (m : RtspMsg) (l : List HeaderLine)
    → Has m l
    → length l < 16
    → (b : RtspMsg) × (add_header field value m ≡ ok (z3_eok, b))
      × Has b (l ++ ((field, value) ∷ []))
      × (b.obj ≡ m.obj)
unfolding add_header
add_header-Has field value m l h room =
    let a = array_of m.headers in
    let few : a.sum < 16 = omega (arith, length-listed a, ap length h.lists) in
    elim (add_to-listed field value a h.inv) [
      | inl (_, (b, e, v, q)) ↦ (
        record m { headers = some b },
        rw e,
        record { inv = v; lists = q ∙ ap (λ k. k ++ ((field, value) ∷ [])) h.lists },
        refl,
      )
      | inr (full, _) ↦ absurd (omega (arith, few, full))
    ]

pub add_header-Inv :
    (field : ℕ) (value : Bytes) (m : RtspMsg)
    → Inv (array_of m.headers)
    → (e : ℕ) × (b : RtspMsg) × (add_header field value m ≡ ok (e, b)) × Inv (array_of b.headers)
unfolding add_header
add_header-Inv field value m h =
    let a = array_of m.headers in
    elim (add_to-listed field value a h) [
      | inl (_, (b, e, v, q)) ↦ (z3_eok, record m { headers = some b }, rw e, v)
      | inr (_, e) ↦ (0x399B6001, record m { headers = some a }, rw e, h)
    ]

-- The header that an answer has of a field, where the request has one.
abbrev answers : ℕ → (Bytes → Bytes) → Option (Option Bytes) → List HeaderLine
answers field copy none = []
answers field copy (some none) = []
answers field copy (some (some v)) = (field, copy v) ∷ []

copy_cseq-Has :
    (o : Option (Option Bytes)) (m : RtspMsg)
    → (o ≡ none) ⊎ ((v : Bytes) × (o ≡ some (some v)))
    → Has m []
    → (b : RtspMsg) × (copy_cseq o m ≡ ok (z3_eok, b))
      × Has b (answers hdr_cseq c_string o)
      × (b.obj ≡ m.obj)
unfolding copy_cseq
copy_cseq-Has none m c h = (m, refl, h, refl)
copy_cseq-Has (some none) m c h = elim c [ inl e ↦ cc | inr (v, e) ↦ cc ]
copy_cseq-Has (some (some v)) m c h = add_header-Has hdr_cseq (c_string v) m [] h (omega arith)

-- The Session value that is copied, when there is one, is not empty.
abbrev Copied : Option (Option Bytes) → Type 0
Copied none = Unit {0}
Copied (some none) = Unit {0}
Copied (some (some v)) = 0 < length (c_string v)

add_session-Has :
    (copy v : Bytes) (m : RtspMsg) (l : List HeaderLine)
    → 0 < length copy
    → Has m l
    → length l < 16
    → (b : RtspMsg) × (add_session copy v m ≡ ok (z3_eok, b))
      × Has b (l ++ ((hdr_session, session_text v) ∷ []))
      × (b.obj ≡ m.obj)
unfolding add_session
add_session-Has [] v m l n h room = absurd (omega (arith, n))
add_session-Has (c ∷ copy) v m l n h room = add_header-Has hdr_session (session_text v) m l h room

add_session_empty :
    (v : Bytes) (m : RtspMsg) → c_string v ≡ [] → add_session (c_string v) v m ≡ fault
unfolding add_session
add_session_empty v m e = ap (λ copy. add_session copy v m) e

copy_session-Has :
    (o : Option (Option Bytes)) (m : RtspMsg) (l : List HeaderLine)
    → (o ≡ none) ⊎ ((v : Bytes) × (o ≡ some (some v)))
    → Copied o
    → Has m l
    → length l < 16
    → (b : RtspMsg) × (copy_session o m ≡ ok (z3_eok, b))
      × Has b (l ++ answers hdr_session session_text o)
      × (b.obj ≡ m.obj)
unfolding copy_session
copy_session-Has none m l c n h room =
    (m, refl, record { inv = h.inv; lists = h.lists ∙ sym (append-nil l) }, refl)
copy_session-Has (some none) m l c n h room = elim c [ inl e ↦ cc | inr (v, e) ↦ cc ]
copy_session-Has (some (some v)) m l c n h room = add_session-Has (c_string v) v m l n h room

copy_session_empty :
    (o : Option (Option Bytes)) (v : Bytes) (m : RtspMsg)
    → o ≡ some (some v)
    → c_string v ≡ []
    → copy_session o m ≡ fault
unfolding copy_session
copy_session_empty o v m e n = ap (λ k. copy_session k m) e ∙ add_session_empty v m n

text-cases : (text : Bytes) → (text ≡ []) ⊎ (0 < length text)
text-cases [] = inl refl
text-cases (c ∷ text) = inr (omega arith)

Copied-cases :
    (o : Option (Option Bytes)) → ((v : Bytes) × (o ≡ some (some v)) × (c_string v ≡ [])) ⊎ Copied o
Copied-cases none = inr tt
Copied-cases (some none) = inr tt
Copied-cases (some (some v)) = elim (text-cases (c_string v)) [
  | inl e ↦ inl (v, refl, e)
  | inr n ↦ inr n
]

get_header-nth :
    (h : Option KeyValues) (field index : ℕ)
    → Inv (array_of h)
    → get_header_in h field index ≡ nth_of (listed (array_of h)) field index
unfolding get_header_in new_key_values listed listed_from nth_of
get_header-nth none field index v = refl
get_header-nth (some a) field index v = get_header_in-nth a field index v

answers_few : (o : Option (Option Bytes)) → length (answers hdr_cseq c_string o) < 16
answers_few none = omega arith
answers_few (some none) = omega arith
answers_few (some (some v)) = omega arith

answers-CopiesCseq :
    (o : Option (Option Bytes))
    → (o ≡ none) ⊎ ((v : Bytes) × (o ≡ some (some v)))
    → CopiesCseq o (answers hdr_cseq c_string o)
answers-CopiesCseq none c = no_cseq
answers-CopiesCseq (some none) c = elim c [ inl e ↦ cc | inr (v, e) ↦ cc ]
answers-CopiesCseq (some (some v)) c = a_cseq v (c_string v) (c_string-UpTo v)

answers-CopiesSession :
    (o : Option (Option Bytes))
    → (o ≡ none) ⊎ ((v : Bytes) × (o ≡ some (some v)))
    → Copied o
    → CopiesSession o (answers hdr_session session_text o)
answers-CopiesSession none c n = no_session
answers-CopiesSession (some none) c n = elim c [ inl e ↦ cc | inr (v, e) ↦ cc ]
answers-CopiesSession (some (some v)) c n =
    a_session v (session_text v) (session_text-SessionCopy v n)

-- `InitResponse` to a request with well-formed headers, with a reason phrase, given or by the
-- code, that is not empty, stops the program if the value of the request's first Session is empty
-- up to its NUL. Otherwise it returns Z3_EOK: the message is a response with that code and reason,
-- and its headers are the request's first CSeq, up to its NUL, and then its first Session, up to
-- its NUL, up to its first colon and less the whitespace at its end, with a NUL behind, each if
-- the request has one, and no other.
pub init_response-Has :
    (q m : RtspMsg) (l : List HeaderLine) (code : ℕ) (reason : Option Bytes)
    → Has q l
    → 0 < length (reason_of reason code)
    → ((v : Bytes) × (nth_of l hdr_session 0 ≡ some (some v))
        × UpTo 0 v []
        × (init_response (some q) code reason m ≡ fault))
      ⊎ ((b : RtspMsg) × (cseq : List HeaderLine) × (session : List HeaderLine) × (init_response
              (some q)
              code
              reason
              m
            ≡ ok (b, z3_eok))
          × (b.obj ≡ some (response code (reason_of reason code) version_1_0))
          × CopiesCseq (nth_of l hdr_cseq 0) cseq
          × CopiesSession (nth_of l hdr_session 0) session
          × Has b (cseq ++ session))
unfolding init_response copy_headers unset new_msg get_header listed listed_from new_key_values
init_response-Has q m l code reason h some_text =
    let text = reason_of reason code in
    let begun : RtspMsg = record new_msg { obj = some (response code text version_1_0) } in
    let found : (f : ℕ) → get_header_in q.headers f 0 ≡ nth_of l f 0 =
      λ f. get_header-nth q.headers f 0 h.inv ∙ ap (λ k. nth_of k f 0) h.lists in
    let value = nth_of-value l hdr_session 0 in
    let (b, e, i, o) =
      copy_cseq-Has (nth_of l hdr_cseq 0) begun (nth_of-value l hdr_cseq 0)
        (record { inv = new_key_values-Inv; lists = refl }) in
    let longer = lt→ltb 1 (length text + 1) (omega arith) in
    elim (Copied-cases (nth_of l hdr_session 0)) [
      | inl (v, is, empty) ↦ inl (
        v,
        is,
        subst (UpTo 0 v) empty (c_string-UpTo v),
        rw (longer, found hdr_cseq, found hdr_session, e, copy_session_empty _ v b is empty),
      )
      | inr copied ↦
          let (c, e', i', o') =
            copy_session-Has (nth_of l hdr_session 0) b
              (answers hdr_cseq c_string (nth_of l hdr_cseq 0)) value copied i
              (answers_few (nth_of l hdr_cseq 0)) in
          inr (
            c,
            answers hdr_cseq c_string (nth_of l hdr_cseq 0),
            answers hdr_session session_text (nth_of l hdr_session 0),
            rw (longer, found hdr_cseq, found hdr_session, e, e'),
            o' ∙ o,
            answers-CopiesCseq _ (nth_of-value l hdr_cseq 0),
            answers-CopiesSession _ value copied,
            i',
          )
    ]

pub remove_header_absent :
    (m : RtspMsg) (a : KeyValues) (field : ℕ) (index : Option ℕ)
    → m.headers ≡ some a
    → place_from a.slots 0 a.sum field 0 index ≡ none
    → remove_header field index m ≡ ok (z3_rtsp_enotimpl, record m { headers = some a })
unfolding remove_header remove_in
remove_header_absent m a field index h e = rw (h, remove_from_absent a field index e)
