-- ===== src/Session/Sends.antt =====
-- What the requests of a session come to: with the error code 0 one more request was sent, which is
-- remembered; with any other, none was.
use mathlib.Core.List.{map-append}
use z3_engine.Base.{
  ℕ, ◌+◌, ◌≡◌, ◌≢◌, sym, ◌∙◌, ap, subst, true, false, ◌⊎◌, inl, inr, [], ◌∷◌, ◌++◌, Option, none,
  some, ◌==◌, if◌then◌else◌, Bytes, length, length-append, Outcome, ok, fault, >>=-eq-ok,
  ok-injective, Bool-cases, ==→eq, ltb, leb, ◌&&◌, arith,
}
use z3_engine.Media.{RtspMedia}
use z3_engine.Message.Msg.{
  RtspMsg, request, new_msg, version_1_0, init_request, add_header, get_method,
}
use z3_engine.Message.Msg.Fields.{init_request-obj, add_header-obj}
use z3_engine.Session.{
  World, Session, send_buf_size, write_text, write_msg, must_add, write_request, asserted,
  add_session, nul, hdr_session,
}
use z3_engine.Message.Print.{to_string}
use z3_engine.Ports.Control.{PortsCtl}
use z3_engine.Session.Phase.{
  methods, tracks_of, InTurn, Asks, setup_uri, setup_uris, setup_uris-snoc,
}
use z3_engine.Text.Version.{z3_eok}

-- One request more was sent.
pub record Sent (m c : ℕ) (k : Option (ℕ × ℕ)) (s t : Session) : Type 0 where
  pub method : t.method_previous ≡ m
  pub cseq : t.cseq_previous ≡ c
  pub sent : methods t.sent ≡ methods s.sent ++ (m ∷ [])
  pub one_more : length t.sent ≡ length s.sent + 1
  pub state : t.state ≡ s.state
  pub reading : t.reading ≡ s.reading
  pub tracks : tracks_of t.media ≡ k
  pub in_turn : InTurn s → InTurn t

abbrev pub Sends : ℕ → ℕ → Option (ℕ × ℕ) → Session → ℕ × Session → Type 0
Sends method cseq tracks s (e, t) =
    ((e ≡ 0) × Sent method cseq tracks s t) ⊎ ((e ≢ 0) × (t.reading ≡ s.reading))

==-false : (a b : ℕ) → (a == b) ≡ false → a ≢ b
==-false a b h e = ground arith

pub fault-ne-ok {ℓ} : {A : Type ℓ} {a : A} → fault ≡ ok a → ⊥
fault-ne-ok h = cc

-- A write gives 0 and is recorded, or changes nothing.
abbrev Writes : RtspMsg → Session → ℕ × Session → Type 0
Writes m s (e, t) = ((e ≡ 0) × (t ≡ record s { sent = s.sent ++ (m ∷ []) })) ⊎ ((e ≢ 0) × (t ≡ s))

abbrev pub reply : ℕ → Session → Outcome (ℕ × Session)
reply e s = ok (e, s)

-- The choice by the error code, as the code writes it.
pub chosen :
    (e : ℕ) (x y : Session) {r : ℕ × Session}
    → reply e (if e == 0 then x else y) ≡ ok r
    → ((e ≡ 0) × (r.0 ≡ 0) × (r.1 ≡ x)) ⊎ ((e ≢ 0) × (r.0 ≢ 0) × (r.1 ≡ y))
chosen e x y h = elim (Bool-cases (e == 0)) [
  | inl z ↦
      let q = ok-injective (rw z at h) in
      let e0 = ==→eq e 0 z in inl (e0, sym (ap (λ k. k.0) q) ∙ e0, sym (ap (λ k. k.1) q))
  | inr z ↦
      let q = ok-injective (rw z at h) in
      let n = ==-false e 0 z in inr (n, λ g. n (ap (λ k. k.0) q ∙ g), sym (ap (λ k. k.1) q))
]

write_text-Writes :
    (w : World) (m : RtspMsg) (s : Session) (text : Option Bytes) {e : ℕ} {t : Session}
    → write_text w m s text ≡ ok (e, t)
    → Writes m s (e, t)
unfolding write_text
write_text-Writes w m s none {e} {t} h =
    let q = ok-injective h in
    inr (λ g. absurd (omega (arith, ap (λ r. r.0) q, g)), sym (ap (λ r. r.1) q))
write_text-Writes w m s (some text) {e} {t} h =
    elim (Bool-cases (ltb 0 (length text) && leb (length text) send_buf_size)) [
      | inl f ↦
          elim (chosen (w.write (length s.sent) text) (record s { sent = s.sent ++ (m ∷ []) }) s
            {r = (e, t)} (rw f at h)) [ inl (_, z, q) ↦ inl (z, q) | inr (_, n, q) ↦ inr (n, q) ]
      | inr f ↦ absurd (fault-ne-ok (rw f at h))
    ]

write_msg-Writes :
    (w : World) (m : RtspMsg) (s : Session) {e : ℕ} {t : Session}
    → write_msg w m s ≡ ok (e, t)
    → Writes m s (e, t)
unfolding write_msg
write_msg-Writes w m s h =
    let (r, _, q) = >>=-eq-ok (to_string true w.date m) (λ (text, _). write_text w m s text) h in
    write_text-Writes w m s r.0 q

abbrev remember : ℕ → Session → Session
remember method k = record k { method_previous = method }

-- The request's method is remembered too.
write_request-Writes :
    (w : World) (method : ℕ) (m : RtspMsg) (s : Session) {e : ℕ} {t : Session}
    → write_request w method m s ≡ ok (e, t)
    → ((e ≡ 0) × (t ≡ record s { method_previous = method; sent = s.sent ++ (m ∷ []) }))
      ⊎ ((e ≢ 0) × (t ≡ s))
unfolding write_request
write_request-Writes w method m s {e} {t} h =
    let (r, e1, q) =
      >>=-eq-ok (write_msg w m s)
        (λ (e', s'). ok (e', if e' == 0 then record s' { method_previous = method } else s')) h in
    settle r (write_msg-Writes w m s e1) q
  where
    settle :
        (r : ℕ × Session)
        → Writes m s r
        → reply r.0 (if r.0 == 0 then record (r.1) { method_previous = method } else r.1)
          ≡ ok (e, t)
        → ((e ≡ 0) × (t ≡ record s { method_previous = method; sent = s.sent ++ (m ∷ []) }))
          ⊎ ((e ≢ 0) × (t ≡ s))
    settle r c q =
        elim (chosen r.0 (record (r.1) { method_previous = method }) r.1 {r = (e, t)} q) [
          | inl (z0, z, u) ↦ elim c [
            | inl (_, v) ↦ inl (z, u ∙ ap (remember method) v)
            | inr (n, _) ↦ absurd (n z0)
          ]
          | inr (n0, n, u) ↦ elim c [ inl (z, _) ↦ absurd (n0 z) | inr (_, v) ↦ inr (n, u ∙ v) ]
        ]

-- The session as the request is written: with the new CSeq, and what SETUP has made.
abbrev pub about_to : Session → ℕ → Option RtspMedia → PortsCtl → Session
about_to s c media ports = record s { cseq_previous = c; media = media; ports = ports }

pub write_request-Sends :
    (w : World) (method : ℕ) (m : RtspMsg) (s : Session) (c : ℕ) (media : Option RtspMedia)
    (ports : PortsCtl) {r : ℕ × Session}
    → get_method m ≡ method
    → (InTurn s → Asks media (setup_uris s.sent ++ setup_uri m.obj))
    → write_request w method m (about_to s c media ports) ≡ ok r
    → Sends method c (tracks_of media) s r
write_request-Sends w method m s c media ports {r} g turn h =
    elim (write_request-Writes w method m (about_to s c media ports) {e = r.0} {t = r.1} h) [
      | inl (z, t) ↦ inl (
        z,
        record {
          method = ap (λ k. k.method_previous) t;
          cseq = ap (λ k. k.cseq_previous) t;
          sent =
              ap (λ k. methods k.sent) t
              ∙ map-append get_method s.sent (m ∷ [])
              ∙ ap (λ x. methods s.sent ++ (x ∷ [])) g;
          one_more = ap (λ k. length k.sent) t ∙ length-append s.sent (m ∷ []);
          state = ap (λ k. k.state) t;
          reading = ap (λ k. k.reading) t;
          tracks = ap (λ k. tracks_of k.media) t;
          in_turn = λ i.
              subst InTurn (sym t) (subst (Asks media) (sym (setup_uris-snoc s.sent m)) (turn i));
        },
      )
      | inr (n, t) ↦ inr (n, ap (λ k. k.reading) t)
    ]

-- A message that asserted additions made of a request.
pub must_add-obj :
    (field : ℕ) (value : Bytes) (m : RtspMsg) {out : RtspMsg}
    → must_add field value m ≡ ok out
    → out.obj ≡ m.obj
unfolding must_add
must_add-obj field value m {out} h =
    let (r, e1, q) =
      >>=-eq-ok (add_header field value m) (λ (e, m'). if e == z3_eok then ok m' else fault) h in
    elim (Bool-cases (r.0 == z3_eok)) [
      | inl t ↦ ap (λ k. k.obj) (sym (ok-injective (rw t at q))) ∙ add_header-obj field value m e1
      | inr f ↦ absurd (fault-ne-ok (rw f at q))
    ]

pub add_session-obj :
    (id : Option Bytes) (m : RtspMsg) {out : RtspMsg} → add_session id m ≡ ok out → out.obj ≡ m.obj
unfolding add_session
add_session-obj none m h = ap (λ k. k.obj) (sym (ok-injective h))
add_session-obj (some id) m h =
    let (r, e1, q) = >>=-eq-ok (add_header hdr_session (id ++ nul) m) (λ (_, m'). ok m') h in
    ap (λ k. k.obj) (sym (ok-injective q)) ∙ add_header-obj hdr_session (id ++ nul) m e1

pub asserted-obj :
    (method : ℕ) (uri : Bytes) {out : RtspMsg}
    → asserted (init_request method uri new_msg) ≡ ok out
    → out.obj ≡ some (request method uri version_1_0)
unfolding asserted
asserted-obj method uri h = elim (Bool-cases ((init_request method uri new_msg).1 == z3_eok)) [
  | inl t ↦
      ap (λ k. k.obj) (sym (ok-injective (rw t at h)))
      ∙ init_request-obj method uri new_msg (==→eq _ z3_eok t)
  | inr f ↦ absurd (fault-ne-ok (rw f at h))
]
