-- ===== src/Session/Setup.antt =====
-- SETUP of z3_rtsp_client/z3_rtsp_session.cpp: what it adds to the session.
use z3_engine.Base.{
  ℕ, ◌+◌, ◌≡◌, refl, sym, ◌∙◌, ap, inl, inr, [], ◌∷◌, ◌++◌, Option, none, some, Bytes, codes, ok,
  ◌>>=◌, >>=-eq-ok, Bool-cases, arith, subst, ok-injective, ltb, length,
}
use z3_engine.Media.{RtspMedia, MediaSession, create_media_session}
use z3_engine.Media.Pair.{create_media_session-tracks}
use z3_engine.Sdp.{get_media_count, get_sdp_media, get_attribute_value}
use z3_engine.Message.Msg.{RtspMsg, request, new_msg, version_1_0, init_request}
use z3_engine.Message.Msg.Fields.{get_method-request}
use z3_engine.Session.{
  World, Session, z3_rtsp_emediasession, must_add, present, asserted, add_session, setup_with,
  setup_made, setup_of, send_setup, rtsp_setup, in_buffer, buf_size, nul, hdr_cseq, hdr_transport,
  transport_text, ports_ok,
}
use z3_engine.Message.Print.{decimal}
use z3_engine.Ports.Control.{PortsCtl}
use z3_engine.Session.Phase.{tracks_of, InTurn, Asks, TrackUrls, a_track, setup_uri, setup_uris}
use z3_engine.Session.Requests.{not_sent}
use z3_engine.Session.Sends.{
  Sends, write_request-Sends, must_add-obj, add_session-obj, asserted-obj, fault-ne-ok,
}

-- With the session that was made, and the media and the ports as they are then.
setup_with-Sends :
    (w : World) (url : Bytes) (m : RtspMsg) (session : MediaSession) (s : Session)
    (media : Option RtspMedia) (p : PortsCtl) {r : ℕ × Session}
    → m.obj ≡ some (request rtsp_setup url version_1_0)
    → (InTurn s → Asks media (setup_uris s.sent ++ (url ∷ [])))
    → setup_with w url m session (record s { media = media; ports = p }) ≡ ok r
    → Sends rtsp_setup (s.cseq_previous + 1) (tracks_of media) s r
unfolding setup_with
setup_with-Sends w url m session s media p {r} o turn h =
    elim (Bool-cases (ports_ok session.rtp_port session.rtcp_port)) [
      | inl t ↦
          let (text, _, h1) = >>=-eq-ok (transport_text session url) _ (rw t at h) in
          let (m1, e1, h2) = >>=-eq-ok (must_add hdr_transport (text ++ nul) m) _ h1 in
          let (m2, e2, h3) = >>=-eq-ok (add_session s.session_id m1) _ h2 in
          let (m3, e3, h4) =
            >>=-eq-ok (must_add hdr_cseq (decimal (s.cseq_previous + 1) ++ nul) m2) _ h3 in
          let obj : m3.obj ≡ some (request rtsp_setup url version_1_0) =
            must_add-obj _ _ m2 e3
            ∙ add_session-obj s.session_id m1 e2
            ∙ must_add-obj _ _ m e1
            ∙ o in
          write_request-Sends w rtsp_setup m3 s (s.cseq_previous + 1) media p
            (get_method-request m3 rtsp_setup version_1_0 url obj)
            (λ i.
              subst (λ l. Asks media (setup_uris s.sent ++ l)) (sym (ap setup_uri obj)) (turn i))
            h4
      | inr f ↦ absurd (fault-ne-ok (rw f at h))
    ]

setup_made-Sends :
    (w : World) (url : Bytes) (m : RtspMsg) (s : Session)
    (made : Option MediaSession × RtspMedia × PortsCtl) {r : ℕ × Session}
    → m.obj ≡ some (request rtsp_setup url version_1_0)
    → (InTurn s → Asks (some made.1) (setup_uris s.sent ++ (url ∷ [])))
    → setup_made w url m s made ≡ ok r
    → Sends rtsp_setup (s.cseq_previous + 1) (some (made.1.track_count, made.1.request_track)) s r
unfolding setup_made
setup_made-Sends w url m s (none, media, p) o turn h =
    not_sent z3_rtsp_emediasession (record s { media = some media; ports = p }) rtsp_setup
      (s.cseq_previous + 1) (some (media.track_count, media.request_track)) s
      (λ z. omega (arith, z)) refl h
setup_made-Sends w url m s (some session, media, p) o turn h =
    setup_with-Sends w url m session s (some media) p o turn h

-- What fits the buffer is as it was.
in_buffer-same : (text : Bytes) {url : Bytes} → in_buffer text ≡ ok url → text ≡ url
unfolding in_buffer
in_buffer-same text h = elim (Bool-cases (ltb (length text) buf_size)) [
  | inl t ↦ ok-injective (rw t at h)
  | inr f ↦ absurd (fault-ne-ok (rw f at h))
]

-- `assert` of a pointer that is not NULL.
present-some {ℓ} : {A : Type ℓ} (o : Option A) {a : A} → present o ≡ ok a → o ≡ some a
unfolding present
present-some none h = absurd (fault-ne-ok h)
present-some (some b) h = ap some (ok-injective h)

setup_of-Sends :
    (w : World) (media : RtspMedia) (s : Session) {r : ℕ × Session}
    → s.media ≡ some media
    → setup_of w media s ≡ ok r
    → Sends rtsp_setup (s.cseq_previous + 1) (some (media.track_count, media.request_track + 1)) s r
unfolding setup_of
setup_of-Sends w media s {r} kept h =
    let (d, d1, h1) = >>=-eq-ok (get_sdp_media media.sdp media.request_track) _ h in
    let (control, c1, h2) = >>=-eq-ok (get_attribute_value d (codes "control") 0) _ h1 in
    let (value, v1, h3) = >>=-eq-ok (present control) _ h2 in
    let (base, b1, h4) = >>=-eq-ok (present media.content_base) _ h3 in
    let (url, u1, h5) = >>=-eq-ok (in_buffer (base ++ value)) _ h4 in
    let (m, e, h6) = >>=-eq-ok (asserted (init_request rtsp_setup url new_msg)) _ h5 in
    let asked : RtspMedia = record media { request_track = media.request_track + 1 } in
    let (made, e1, h7) = >>=-eq-ok (create_media_session w.rounds w.udp d asked s.ports) _ h6 in
    let (a, b, c, g) = create_media_session-tracks w.rounds w.udp d asked s.ports e1 in
    let urls = setup_uris s.sent in
    let named : base ++ value ≡ url = in_buffer-same (base ++ value) u1 in
    let asks : Asks (some media) urls
        → TrackUrls media.sdp media.content_base (media.request_track + 1) (urls ++ (url ∷ [])) =
      λ i.
        subst
          (λ u. TrackUrls media.sdp media.content_base (media.request_track + 1) (urls ++ (u ∷ [])))
          named
          (a_track media.request_track urls base value d i.0 d1
            (c1 ∙ ap ok (present-some control v1)) (present-some media.content_base b1)) in
    let turn : Asks s.media urls → Asks (some made.1) (urls ++ (url ∷ [])) = λ i.
      let i' : Asks (some media) urls = subst (λ o. Asks o urls) kept i in
      (
        subst (λ x. TrackUrls x made.1.content_base made.1.request_track (urls ++ (url ∷ [])))
            (sym c)
            (subst (λ x. TrackUrls media.sdp x made.1.request_track (urls ++ (url ∷ []))) (sym g)
              (subst (λ x. TrackUrls media.sdp media.content_base x (urls ++ (url ∷ []))) (sym b)
                (asks i'))),
        a ∙ i'.1 ∙ ap get_media_count (sym c),
      ) in
    subst (λ k. Sends rtsp_setup (s.cseq_previous + 1) (some k) s r) (λ i. (a i, b i))
      (setup_made-Sends w url m s made (asserted-obj rtsp_setup url e) turn h7)

abbrev pub pair_of : Option (ℕ × ℕ) → ℕ × ℕ
pair_of none = (0, 0)
pair_of (some p) = p

-- The media with its tracks.
pub media-cases :
    (media : Option RtspMedia) {n k : ℕ}
    → tracks_of media ≡ some (n, k)
    → (m : RtspMedia) × (media ≡ some m) × (m.track_count ≡ n) × (m.request_track ≡ k)
media-cases none h = cc
media-cases (some m) h = (m, refl, ap (λ o. (pair_of o).0) h, ap (λ o. (pair_of o).1) h)

pub send_setup-Sends :
    (w : World) (s : Session) (n k : ℕ) {r : ℕ × Session}
    → tracks_of s.media ≡ some (n, k)
    → send_setup w s ≡ ok r
    → Sends rtsp_setup (s.cseq_previous + 1) (some (n, k + 1)) s r
unfolding send_setup present
send_setup-Sends w s n k {r} t h =
    let (m, e, a, b) = media-cases s.media t in
    let h' : setup_of w m s ≡ ok r = ap (λ o. present o >>= λ x. setup_of w x s) (sym e) ∙ h in
    subst (λ j. Sends rtsp_setup (s.cseq_previous + 1) (some j) s r) (λ i. (a i, b i + 1))
      (setup_of-Sends w m s e h')
