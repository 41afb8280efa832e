-- ===== src/Session/Requests.antt =====
-- The four requests of z3_rtsp_client/z3_rtsp_session.cpp: what each send adds to the session.
use z3_engine.Base.{
  ℕ, ◌+◌, ◌≡◌, ◌≢◌, refl, sym, ◌∙◌, ap, subst, inl, inr, ◌++◌, Option, none, some, ◌==◌,
  if◌then◌else◌, Bytes, codes, length, Outcome, ok, fault, >>=-eq-ok, ok-injective, Bool-cases,
  ==→eq, arith,
}
use z3_engine.Message.Msg.{request, new_msg, version_1_0, init_request}
use z3_engine.Message.Msg.Fields.{init_request-obj, get_method-request}
use z3_engine.Session.{
  World, Session, z3_enomem, must_add, write_request, options_at, send_options, describe_at,
  send_describe, present, asserted, play_of, send_play, rtsp_describe, rtsp_options, rtsp_play,
  in_buffer, nul, hdr_session, hdr_cseq, hdr_range, hdr_accept, hdr_user_agent, describe_cseq,
  agent,
}
use z3_engine.Message.Print.{decimal}
use z3_engine.Session.Phase.{methods, tracks_of, InTurn, other-Asks, setup_uris}
use z3_engine.Text.Version.{z3_eok}
use z3_engine.Session.Sends.{
  Sends, write_request-Sends, must_add-obj, asserted-obj, fault-ne-ok, chosen, reply,
}

-- An error code that is not 0, with the reads as they were.
pub not_sent :
    (e : ℕ) (t : Session) (method c : ℕ) (k : Option (ℕ × ℕ)) (s : Session) {r : ℕ × Session}
    → e ≢ 0
    → t.reading ≡ s.reading
    → reply e t ≡ ok r
    → Sends method c k s r
not_sent e t method c k s n same h =
    let q = ok-injective h in
    inr (λ z. n (ap (λ x. x.0) q ∙ z), sym (ap (λ x. x.1.reading) q) ∙ same)

pub send_play-Sends :
    (w : World) (s : Session) {r : ℕ × Session}
    → send_play w s ≡ ok r
    → Sends rtsp_play (s.cseq_previous + 1) (tracks_of s.media) s r
unfolding send_play play_of
send_play-Sends w s {r} h =
    let (media, _, h1) = >>=-eq-ok (present s.media) _ h in
    let (base, _, h2) = >>=-eq-ok (present media.content_base) _ h1 in
    let (id, _, h3) = >>=-eq-ok (present s.session_id) _ h2 in
    let (url, _, h4) = >>=-eq-ok (in_buffer base) _ h3 in
    let (m, e, h5) = >>=-eq-ok (asserted (init_request rtsp_play url new_msg)) _ h4 in
    let (m1, e1, h6) =
      >>=-eq-ok (must_add hdr_cseq (decimal (s.cseq_previous + 1) ++ nul) m) _ h5 in
    let (m2, e2, h7) = >>=-eq-ok (must_add hdr_range (codes "npt=0.000-" ++ nul) m1) _ h6 in
    let (m3, e3, h8) = >>=-eq-ok (must_add hdr_session (id ++ nul) m2) _ h7 in
    let obj : m3.obj ≡ some (request rtsp_play url version_1_0) =
      must_add-obj _ _ m2 e3
      ∙ must_add-obj _ _ m1 e2
      ∙ must_add-obj _ _ m e1
      ∙ asserted-obj rtsp_play url e in
    write_request-Sends w rtsp_play m3 s (s.cseq_previous + 1) s.media s.ports
      (get_method-request m3 rtsp_play version_1_0 url obj)
      (other-Asks s.media (setup_uris s.sent) m3 rtsp_play version_1_0 url obj refl) h8

describe_at-Sends :
    (w : World) (s : Session) (url : Bytes) {r : ℕ × Session}
    → describe_at w s (init_request rtsp_describe url new_msg) ≡ ok r
    → Sends rtsp_describe (s.cseq_previous + 1) (tracks_of s.media) s r
unfolding describe_at
describe_at-Sends w s url {r} h =
    let made = init_request rtsp_describe url new_msg in
    elim (Bool-cases (made.1 == z3_eok)) [
      | inl t ↦
          let (m1, e1, h6) =
            >>=-eq-ok (must_add hdr_cseq (describe_cseq w.stack (s.cseq_previous + 1)) made.0) _
              (rw t at h) in
          let (m2, e2, h7) =
            >>=-eq-ok (must_add hdr_accept (codes "application/sdp" ++ nul) m1) _ h6 in
          let obj : m2.obj ≡ some (request rtsp_describe url version_1_0) =
            must_add-obj _ _ m1 e2
            ∙ must_add-obj _ _ made.0 e1
            ∙ init_request-obj rtsp_describe url new_msg (==→eq _ z3_eok t) in
          write_request-Sends w rtsp_describe m2 s (s.cseq_previous + 1) s.media s.ports
            (get_method-request m2 rtsp_describe version_1_0 url obj)
            (other-Asks s.media (setup_uris s.sent) m2 rtsp_describe version_1_0 url obj refl) h7
      | inr f ↦
          not_sent z3_enomem s rtsp_describe (s.cseq_previous + 1) (tracks_of s.media) s
            (λ z. omega (arith, z)) refl (rw f at h)
    ]

-- `m_pszUrl` is asserted.
url-cases :
    (url : Option Bytes) (f : Bytes → Outcome (ℕ × Session)) {r : ℕ × Session}
    → elim url [ none ↦ fault | some u ↦ f u ] ≡ ok r
    → (u : Bytes) × (f u ≡ ok r)
url-cases none f h = absurd (fault-ne-ok h)
url-cases (some u) f h = (u, h)

pub send_describe-Sends :
    (w : World) (s : Session) {r : ℕ × Session}
    → send_describe w s ≡ ok r
    → Sends rtsp_describe (s.cseq_previous + 1) (tracks_of s.media) s r
unfolding send_describe
send_describe-Sends w s h =
    let (url, h1) =
      url-cases s.url (λ u. describe_at w s (init_request rtsp_describe u new_msg)) h in
    describe_at-Sends w s url h1

-- The CSeq of OPTIONS is 0, which is remembered once it is written.
options_at-Sends :
    (w : World) (s : Session) (url : Bytes) {r : ℕ × Session}
    → options_at w s (init_request rtsp_options url new_msg) ≡ ok r
    → Sends rtsp_options 0 (tracks_of s.media) s r
unfolding options_at
options_at-Sends w s url {r} h =
    let made = init_request rtsp_options url new_msg in
    elim (Bool-cases (made.1 == z3_eok)) [
      | inl t ↦
          let (m1, e1, h6) =
            >>=-eq-ok (must_add hdr_cseq (codes "0" ++ nul) made.0) _ (rw t at h) in
          let (m2, e2, h7) = >>=-eq-ok (must_add hdr_user_agent agent m1) _ h6 in
          let (a, e3, h8) = >>=-eq-ok (write_request w rtsp_options m2 s) _ h7 in
          let obj : m2.obj ≡ some (request rtsp_options url version_1_0) =
            must_add-obj _ _ m1 e2
            ∙ must_add-obj _ _ made.0 e1
            ∙ init_request-obj rtsp_options url new_msg (==→eq _ z3_eok t) in
          reset a
            (write_request-Sends w rtsp_options m2 s s.cseq_previous s.media s.ports
              (get_method-request m2 rtsp_options version_1_0 url obj)
              (other-Asks s.media (setup_uris s.sent) m2 rtsp_options version_1_0 url obj refl) e3)
            h8
      | inr f ↦
          not_sent z3_enomem s rtsp_options 0 (tracks_of s.media) s (λ z. omega (arith, z)) refl
            (rw f at h)
    ]
  where
    reset :
        (a : ℕ × Session)
        → Sends rtsp_options s.cseq_previous (tracks_of s.media) s a
        → reply a.0 (if a.0 == 0 then record (a.1) { cseq_previous = 0 } else a.1) ≡ ok r
        → Sends rtsp_options 0 (tracks_of s.media) s r
    reset a c q = elim (chosen a.0 (record (a.1) { cseq_previous = 0 }) a.1 {r = r} q) [
      | inl (z0, z, u) ↦ elim c [
        | inl (_, v) ↦ inl (
          z,
          record {
            method = ap (λ k. k.method_previous) u ∙ v.method;
            cseq = ap (λ k. k.cseq_previous) u;
            sent = ap (λ k. methods k.sent) u ∙ v.sent;
            one_more = ap (λ k. length k.sent) u ∙ v.one_more;
            state = ap (λ k. k.state) u ∙ v.state;
            reading = ap (λ k. k.reading) u ∙ v.reading;
            tracks = ap (λ k. tracks_of k.media) u ∙ v.tracks;
            in_turn = λ i. subst InTurn (sym u) (v.in_turn i);
          },
        )
        | inr (n, _) ↦ absurd (n z0)
      ]
      | inr (n0, n, u) ↦ elim c [
        | inl (z, _) ↦ absurd (n0 z)
        | inr (_, v) ↦ inr (n, ap (λ k. k.reading) u ∙ v)
      ]
    ]

pub send_options-Sends :
    (w : World) (s : Session) {r : ℕ × Session}
    → send_options w s ≡ ok r
    → Sends rtsp_options 0 (tracks_of s.media) s r
unfolding send_options
send_options-Sends w s h =
    let (url, h1) = url-cases s.url (λ u. options_at w s (init_request rtsp_options u new_msg)) h in
    options_at-Sends w s url h1
