-- ===== src/Session/Respond/Advance.antt =====
-- What the answers to OPTIONS and DESCRIBE lead to.
use z3_engine.Base.{
  ℕ, ◌+◌, ◌<◌, ◌≡◌, ◌≢◌, refl, sym, ◌∙◌, ap, Bool, true, false, ◌&&◌, ◌⊎◌, inl, inr, [], ◌∷◌, ◌++◌,
  Option, none, some, ltb, ◌==◌, if◌then◌else◌, Bytes, length, ok, >>=-eq-ok, ok-injective,
  Bool-cases, arith, subst, List, fault,
}
use z3_engine.Media.{RtspMedia, init_media}
use z3_engine.Message.Msg.{RtspMsg, get_header, c_string}
use z3_engine.Sdp.{SdpMessage, new_sdp, get_media_count, z3_strdup}
use z3_engine.Sdp.Document.{parse_string}
use z3_engine.Session.{
  World, Session, send_describe, send_setup, rtsp_describe, rtsp_setup, session_init, z3_einval,
  hdr_content_base,
}
use z3_engine.Session.Phase.{
  Phase, asked_options, asked_describe, asked_setup, Follows, At, HasTracks, trace, asked_last,
  state_in, methods, tracks_of, describe, setup_first, InTurn, Asks, TrackUrls, no_track,
  setup_uris,
}
use z3_engine.Session.Requests.{send_describe-Sends}
use z3_engine.Session.Respond.{
  on_options_respond, on_describe_respond, public_from, header_count, describe_body,
  describe_parsed, describe_media, absent, z3_rtsp_eunsupported, z3_rtsp_estreamcounts,
  z3_rtsp_enotimpl,
}
use z3_engine.Session.Sends.{Sends, fault-ne-ok, reply}
use z3_engine.Session.Setup.{send_setup-Sends, pair_of}

-- What a handler that is called in a session comes to: it failed, with no read pending, or the session
-- is in the phase that follows, and its SETUP requests are in turn if they were.
abbrev pub Advances : Phase → Session → ℕ × Session → Type 0
Advances p s (e, t) =
    ((e ≢ 0) × (t.reading ≡ false))
    ⊎ ((e ≡ 0) × ((q : Phase) × Follows p q × At q t × (InTurn s → InTurn t)))

-- A request sent by a session that is at a phase.
pub sent-At :
    (method c : ℕ) (k : Option (ℕ × ℕ)) (p q : Phase) (s0 s : Session) (r : ℕ × Session)
    → Sends method c k s r
    → s.reading ≡ false
    → Follows p q
    → methods s.sent ≡ trace p
    → c ≡ length s.sent
    → trace p ++ (method ∷ []) ≡ trace q
    → asked_last q ≡ method
    → s.state ≡ state_in q
    → ((m : Option RtspMedia) → tracks_of m ≡ k → HasTracks q m)
    → (InTurn s0 → InTurn s)
    → Advances p s0 r
sent-At method c k p q s0 s r sends idle f a b tr last st tracks turn = elim sends [
  | inl (z, v) ↦ inr (
    z,
    (
      q,
      f,
      record {
        method = v.method ∙ sym last;
        sent = v.sent ∙ ap (λ l. l ++ (method ∷ [])) a ∙ tr;
        cseq = omega (arith, v.cseq, b, v.one_more);
        state = v.state ∙ st;
        tracks = tracks r.1.media v.tracks;
      },
      λ i. v.in_turn (turn i),
    ),
  )
  | inr (n, same) ↦ inl (n, same ∙ idle)
]

pub failed :
    (p : Phase) (s0 : Session) (e : ℕ) (s : Session) {r : ℕ × Session}
    → e ≢ 0
    → s.reading ≡ false
    → reply e s ≡ ok r
    → Advances p s0 r
failed p s0 e s n idle h =
    let q = ok-injective h in
    inl ((λ z. n (ap (λ x. x.0) q ∙ z)), sym (ap (λ x. x.1.reading) q) ∙ idle)

abbrev sdp_of : Option RtspMedia → Option SdpMessage
sdp_of none = none
sdp_of (some m) = some m.sdp

init_media-tracks :
    (base : Bytes) (n k : ℕ) (sdp : SdpMessage)
    → (init_media base n k sdp ≡ none)
      ⊎ ((tracks_of (init_media base n k sdp) ≡ some (n, k))
          × (sdp_of (init_media base n k sdp) ≡ some sdp))
unfolding init_media z3_strdup
init_media-tracks [] n k sdp = inl refl
init_media-tracks (c ∷ cs) n k sdp = inr (refl, refl)

some-injective : {a b : SdpMessage} → some a ≡ some b → a ≡ b
some-injective h = cc

-- Before the first SETUP no track was asked for.
none_asked :
    (old : Option RtspMedia) (urls : List Bytes) (m : RtspMedia)
    → tracks_of old ≡ none
    → m.request_track ≡ 0
    → m.track_count ≡ get_media_count m.sdp
    → Asks old urls
    → Asks (some m) urls
none_asked (some o) urls m e z c i = cc
none_asked none urls m e z c i = (
  subst (λ l. TrackUrls m.sdp m.content_base m.request_track l) (sym i)
      (subst (λ k. TrackUrls m.sdp m.content_base k []) (sym z) no_track),
  c,
)

counted :
    (m : RtspMedia) {sdp : SdpMessage} {k : ℕ}
    → tracks_of (some m) ≡ some (get_media_count sdp, k)
    → sdp_of (some m) ≡ some sdp
    → m.track_count ≡ get_media_count m.sdp
counted m e same = ap (λ t. (pair_of t).0) e ∙ ap get_media_count (sym (some-injective same))

pub ne : {e : ℕ} → (e == 0) ≡ false → e ≢ 0
ne h z = ground arith

module _ (w : World) (resp : RtspMsg) (s : Session) (idle : s.reading ≡ false) where
  pub on_options_respond-Advances :
      {r : ℕ × Session}
      → At asked_options s
      → on_options_respond w resp s ≡ ok r
      → Advances asked_options s r
  unfolding on_options_respond
  on_options_respond-Advances {r} a h =
      let (found, _, h1) =
        >>=-eq-ok (public_from (header_count resp.headers + 1) resp 0)
          (λ found. if found then send_describe w s else ok (z3_rtsp_eunsupported, s)) h in
      from found h1
    where
      from :
          (found : Bool)
          → (if found then send_describe w s else ok (z3_rtsp_eunsupported, s)) ≡ ok r
          → Advances asked_options s r
      from true h1 =
          sent-At rtsp_describe (s.cseq_previous + 1) (tracks_of s.media) asked_options
            asked_describe s s r (send_describe-Sends w s h1) idle describe a.sent a.cseq refl refl
            a.state (λ m e. e ∙ a.tracks) (λ i. i)
      from false h1 = failed asked_options s z3_rtsp_eunsupported s (λ z. omega (arith, z)) idle h1

  -- A media section that names no track is refused before.
  describe_media-Advances :
      (sdp : SdpMessage) (base : Option (Option Bytes)) {r : ℕ × Session}
      → At asked_describe s
      → 0 < get_media_count sdp
      → describe_media w s sdp base ≡ ok r
      → Advances asked_describe s r
  unfolding describe_media
  describe_media-Advances sdp none a some_track h =
      failed asked_describe s z3_rtsp_enotimpl s (λ z. omega (arith, z)) idle h
  describe_media-Advances sdp (some none) a some_track h = absurd (fault-ne-ok h)
  describe_media-Advances sdp (some (some base)) {r} a some_track h =
      from (init_media (c_string base) (get_media_count sdp) 0 sdp)
        (init_media-tracks (c_string base) (get_media_count sdp) 0 sdp) h
    where
      from :
          (o : Option RtspMedia)
          → (o ≡ none) ⊎ ((tracks_of o ≡ some (get_media_count sdp, 0)) × (sdp_of o ≡ some sdp))
          → elim o [ none ↦ fault | some media ↦ send_setup w (record s { media = some media }) ]
            ≡ ok r
          → Advances asked_describe s r
      from none c h = absurd (fault-ne-ok h)
      from (some m) (inl e) h = cc
      from (some m) (inr (e, same)) h =
          sent-At rtsp_setup (s.cseq_previous + 1) (some (get_media_count sdp, 1)) asked_describe
            (asked_setup (get_media_count sdp) 1) s (record s { media = some m }) r
            (send_setup-Sends w (record s { media = some m }) (get_media_count sdp) 0 e h) idle
            (setup_first (get_media_count sdp) some_track) a.sent a.cseq refl refl a.state
            (λ m' e'. (e', omega arith, some_track))
            (λ i.
              none_asked s.media (setup_uris s.sent) m a.tracks (ap (λ t. (pair_of t).1) e)
                (counted m e same) i)

  describe_parsed-Advances :
      (p : ℕ × SdpMessage) {r : ℕ × Session}
      → At asked_describe s
      → describe_parsed w resp s p ≡ ok r
      → Advances asked_describe s r
  unfolding describe_parsed
  describe_parsed-Advances (e, sdp) a h = elim (Bool-cases (e == 0)) [
    | inl z ↦ elim (Bool-cases (ltb (get_media_count sdp) 1)) [
      | inl few ↦
          failed asked_describe s z3_rtsp_estreamcounts s (λ z. omega (arith, z)) idle
            (rw few at (rw z at h))
      | inr more ↦
          describe_media-Advances sdp (get_header resp hdr_content_base 0) a (ground arith)
            (rw more at (rw z at h))
    ]
    | inr n ↦ failed asked_describe s e s (λ z. ne n z) idle (rw n at h)
  ]

  describe_body-Advances :
      (body : Option Bytes) {r : ℕ × Session}
      → At asked_describe s
      → describe_body w resp s body ≡ ok r
      → Advances asked_describe s r
  unfolding describe_body
  describe_body-Advances none a h =
      failed asked_describe s z3_einval s (λ z. omega (arith, z)) idle h
  describe_body-Advances (some body) a h = elim (Bool-cases (resp.body_size == 0)) [
    | inl z ↦ failed asked_describe s z3_einval s (λ z. omega (arith, z)) idle (rw z at h)
    | inr n ↦
        let (p, _, h1) =
          >>=-eq-ok (parse_string (some (c_string body)) resp.body_size new_sdp)
            (λ p. describe_parsed w resp s p) (rw n at h) in
        describe_parsed-Advances p a h1
  ]

  pub on_describe_respond-Advances :
      {r : ℕ × Session}
      → At asked_describe s
      → on_describe_respond w resp s ≡ ok r
      → Advances asked_describe s r
  unfolding on_describe_respond
  on_describe_respond-Advances a h = elim (Bool-cases (s.state == session_init && absent s.media)) [
    | inl t ↦ describe_body-Advances resp.body a (rw t at h)
    | inr f ↦ absurd (fault-ne-ok (rw f at h))
  ]
