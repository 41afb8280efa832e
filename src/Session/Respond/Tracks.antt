-- ===== src/Session/Respond/Tracks.antt =====
-- What the answers to SETUP lead to.
use z3_engine.Base.{
  ℕ, zero, suc, ◌+◌, ◌<◌, ◌≡◌, refl, sym, ◌∙◌, ap, subst, false, inl, inr, [], ◌∷◌, ◌++◌, Option,
  none, some, leb, ◌==◌, Bytes, length, ok, ◌>>=◌, >>=-eq-ok, ok-injective, Bool-cases, arith,
}
use z3_engine.Media.{RtspMedia}
use z3_engine.Message.Msg.{RtspMsg, get_header, c_string}
use z3_engine.Session.{
  World, Session, present, rtsp_describe, rtsp_options, rtsp_play, rtsp_setup, session_init,
  session_ready, hdr_session,
}
use z3_engine.Session.Phase.{
  asked_setup, asked_play, Follows, At, HasTracks, trace, methods, tracks_of, repeated, setup_more,
  play, InTurn, Asks, setup_uris,
}
use z3_engine.Session.Requests.{send_play-Sends}
use z3_engine.Session.Respond.{
  on_setup_respond, take_session, next_track, setup_session, z3_rtsp_enosessionid,
  z3_rtsp_esessionid, behind,
}
use z3_engine.Session.Sends.{fault-ne-ok}
use z3_engine.Session.Setup.{send_setup-Sends, media-cases}
use z3_engine.Text.Version.{z3_eok}
use z3_engine.Session.Respond.Advance.{Advances, sent-At, failed, ne}

repeated-snoc : (n x : ℕ) → repeated n x ++ (x ∷ []) ≡ repeated (n + 1) x
repeated-snoc zero x = refl
repeated-snoc (suc n) x =
    ap (λ l. x ∷ l) (repeated-snoc n x) ∙ sym (ap (λ k. repeated k x) (suc_add n))
  where
    suc_add : (n : ℕ) → suc n + 1 ≡ suc (n + 1)
    suc_add n = omega arith

module _ (w : World) (resp : RtspMsg) (s : Session) (idle : s.reading ≡ false) where
  next_track-Advances :
      (n k : ℕ) (t : Session) (m : RtspMedia) {r : ℕ × Session}
      → HasTracks (asked_setup n k) t.media
      → methods t.sent ≡ trace (asked_setup n k)
      → t.cseq_previous + 1 ≡ length t.sent
      → t.state ≡ session_init
      → t.reading ≡ false
      → m.track_count ≡ n
      → m.request_track ≡ k
      → (InTurn s → InTurn t)
      → next_track w t m ≡ ok r
      → Advances (asked_setup n k) s r
  unfolding next_track
  next_track-Advances n k t m {r} (tr, lo, hi) sent c st quiet e1 e2 turn h =
      elim (Bool-cases (leb m.track_count m.request_track)) [
        | inl all ↦
            let full : k ≡ n = ground (arith, e1, e2, all) in
            let h' = rw all at h in
            let ready : Session = record t { state = session_ready } in
            sent-At rtsp_play (t.cseq_previous + 1) (tracks_of t.media) (asked_setup n k)
              (asked_play n) s ready r (send_play-Sends w ready h') quiet
              (subst (λ j. Follows (asked_setup n j) (asked_play n)) (sym full) (play n)) sent c
              (ap (λ j. (rtsp_options ∷ rtsp_describe ∷ repeated j rtsp_setup) ++ (rtsp_play ∷ []))
                full)
              refl refl (λ m' e. e ∙ tr ∙ ap (λ j. some (n, j)) full) turn
        | inr more ↦
            let fewer : k < n = ground (arith, e1, e2, more) in
            sent-At rtsp_setup (t.cseq_previous + 1) (some (n, k + 1)) (asked_setup n k)
              (asked_setup n (k + 1)) s t r (send_setup-Sends w t n k tr (rw more at h)) quiet
              (setup_more n k fewer) sent c
              (ap (λ l. rtsp_options ∷ rtsp_describe ∷ l) (repeated-snoc k rtsp_setup)) refl st
              (λ m' e. (e, omega arith, omega (arith, fewer))) turn
      ]

  -- Taking the session's id leaves the rest of the session alone.
  abbrev Alike : Session → Type 0
  Alike t =
      (t.media ≡ s.media)
      × (t.sent ≡ s.sent)
      × (t.cseq_previous ≡ s.cseq_previous)
      × (t.state ≡ s.state)
      × (t.reading ≡ s.reading)

  take_session-Alike :
      (id : Option Bytes) (v : Bytes) {r : ℕ × Session} → take_session id v s ≡ ok r → Alike r.1
  unfolding take_session
  take_session-Alike none [] h = absurd (fault-ne-ok h)
  take_session-Alike none (c ∷ cs) h =
      subst (λ x. Alike x.1) (ok-injective h) (refl, refl, refl, refl, refl)
  take_session-Alike (some id) v {r} h = from (behind id v) h
    where
      from :
          (o : Option Bytes)
          → elim o [ none ↦ ok (z3_rtsp_esessionid, s) | some _ ↦ ok (z3_eok, s) ] ≡ ok r
          → Alike r.1
      from none h = subst (λ x. Alike x.1) (ok-injective h) (refl, refl, refl, refl, refl)
      from (some b) h = subst (λ x. Alike x.1) (ok-injective h) (refl, refl, refl, refl, refl)

  setup_session-Advances :
      (n k : ℕ) (m : RtspMedia) (v : Option (Option Bytes)) {r : ℕ × Session}
      → At (asked_setup n k) s
      → m.track_count ≡ n
      → m.request_track ≡ k
      → setup_session w m s v ≡ ok r
      → Advances (asked_setup n k) s r
  unfolding setup_session
  setup_session-Advances n k m none a e1 e2 h =
      failed (asked_setup n k) s z3_rtsp_enosessionid s (λ z. omega (arith, z)) idle h
  setup_session-Advances n k m (some none) a e1 e2 h = absurd (fault-ne-ok h)
  setup_session-Advances n k m (some (some v)) a e1 e2 h =
      let ((e, t), t1, h1) = >>=-eq-ok (take_session s.session_id (c_string v) s) _ h in
      let (x1, x2, x3, x4, x5) = take_session-Alike s.session_id (c_string v) t1 in
      elim (Bool-cases (e == z3_eok)) [
        | inl z ↦
            next_track-Advances n k t m (subst (HasTracks (asked_setup n k)) (sym x1) a.tracks)
              (ap methods x2 ∙ a.sent) (omega (arith, x3, a.cseq, ap (λ l. length l) x2))
              (x4 ∙ a.state) (x5 ∙ idle) e1 e2
              (λ i.
                subst (λ o. Asks o (setup_uris t.sent)) (sym x1)
                  (subst (λ l. Asks s.media (setup_uris l)) (sym x2) i))
              (rw z at h1)
        | inr f ↦ failed (asked_setup n k) s e t (ne f) (x5 ∙ idle) (rw f at h1)
      ]

  pub on_setup_respond-Advances :
      (n k : ℕ) {r : ℕ × Session}
      → At (asked_setup n k) s
      → on_setup_respond w resp s ≡ ok r
      → Advances (asked_setup n k) s r
  unfolding on_setup_respond present
  on_setup_respond-Advances n k {r} a h =
      let (m, e, e1, e2) = media-cases s.media (a.tracks.0) in
      let v = get_header resp hdr_session 0 in
      let h' : setup_session w m s v ≡ ok r =
        ap (λ o. present o >>= λ x. setup_session w x s v) (sym e) ∙ h in
      setup_session-Advances n k m v a e1 e2 h'
