-- ===== src/Media/Pair.antt =====
-- What CreateMediaSession gives: a pair of ports that the media ports have handed out.
use z3_engine.Base.{
  ℕ, ◌+◌, ◌-◌, ◌%◌, ◌≢◌, ◌<◌, ◌≡◌, refl, subst, sym, ◌∙◌, ap, inl, inr, Option, none, some,
  Bool-cases, ==→eq, ◌==◌, Outcome, ok, ◌>>=◌, >>=-eq-ok, ok-injective, arith,
}
use z3_engine.Media.{
  MediaSession, RtspMedia, UdpSockets, rtp_over_udp, with_pair, type_of, init_session, keep_session,
  add_media_session, create_media_session,
}
use z3_engine.Ports.Bitmap.{Memory}
use z3_engine.Ports.Control.{PortsCtl, lock_on, lock_off}
use z3_engine.Ports.Control.Invariant.{Inv}
use z3_engine.Ports.Pairs.{PairReply, pair, no_pair, get_two, lock_and_get_two}
use z3_engine.Ports.Pairs.Sound.{Ends, hung, found, get_two-Ends}
use z3_engine.Sdp.{SdpMedia}

-- The tracks of the media and their description are as before, whatever comes of it.
keep_session-tracks :
    (m : RtspMedia) (made : ℕ × MediaSession × PortsCtl)
    → ((keep_session m made).1.track_count ≡ m.track_count)
      × ((keep_session m made).1.request_track ≡ m.request_track)
      × ((keep_session m made).1.sdp ≡ m.sdp)
      × ((keep_session m made).1.content_base ≡ m.content_base)
unfolding keep_session add_media_session
keep_session-tracks m (e, session, p) = elim (Bool-cases (e == 0)) [
  | inl t ↦ rw t (refl, refl, refl, refl)
  | inr f ↦ rw f (refl, refl, refl, refl)
]

pub create_media_session-tracks :
    (rounds : ℕ) (u : UdpSockets) (d : SdpMedia) (m : RtspMedia) (p : PortsCtl)
    {r : Option MediaSession × RtspMedia × PortsCtl}
    → create_media_session rounds u d m p ≡ ok r
    → (r.1.track_count ≡ m.track_count)
      × (r.1.request_track ≡ m.request_track)
      × (r.1.sdp ≡ m.sdp)
      × (r.1.content_base ≡ m.content_base)
unfolding create_media_session
create_media_session-tracks rounds u d m p {r} h =
    let (made, _, q) = >>=-eq-ok (init_session rounds u d p) (λ k. ok (keep_session m k)) h in
    let same = ok-injective q in
    let (a, b, c, d) = keep_session-tracks m made in
    (
      sym (ap (λ k. k.1.track_count) same) ∙ a,
      sym (ap (λ k. k.1.request_track) same) ∙ b,
      sym (ap (λ k. k.1.sdp) same) ∙ c,
      sym (ap (λ k. k.1.content_base) same) ∙ d,
    )

-- The lock is no part of the invariant.
relocked : (s : PortsCtl) (m : Memory) (n : ℕ) → Inv s m → Inv (record s { lock = n }) m
relocked s m n v = record {
  mapped = v.mapped;
  positive = v.positive;
  ordered = v.ordered;
  fits = v.fits;
  next_low = v.next_low;
  next_high = v.next_high;
  counted = v.counted;
}

-- Whatever GetPairPorts answers, the ports stay well formed, and a pair is an even port that is not
-- 0 and the one after it.
abbrev Answered : PairReply × PortsCtl → Type 0
Answered (no_pair e, t) = (e ≢ 0) × ((k : Memory) × Inv t k)
Answered (pair low high, t) =
    (0 < low) × (low % 2 ≡ 0) × (high ≡ low + 1) × ((k : Memory) × Inv t k)

Ends-Answered :
    (m : Memory) (s : PortsCtl) {o : Outcome (PairReply × PortsCtl)} {r : PairReply × PortsCtl}
    → Inv s m
    → Ends m s o
    → o ≡ ok r
    → Answered r
Ends-Answered m s v hung e = cc
Ends-Answered m s v (found low high t p) e =
    subst Answered (ok-injective e)
      (omega (arith, v.positive, p.low_free.low), p.even, p.adjacent, (_, p.inv))

unlocked-Answered : (r : PairReply × PortsCtl) → Answered r → Answered (r.0, lock_off r.1)
unfolding lock_off
unlocked-Answered (no_pair e, t) (n, (k, v)) = (n, (k, relocked t k (t.lock - 1) v))
unlocked-Answered (pair low high, t) (a, b, c, (k, v)) = (a, b, c, (k, relocked t k (t.lock - 1) v))

lock_and_get_two-Answered :
    (rounds : ℕ) (s : PortsCtl) (m : Memory) {r : PairReply × PortsCtl}
    → Inv s m
    → lock_and_get_two rounds s ≡ ok r
    → Answered r
unfolding lock_on
lock_and_get_two-Answered rounds s m {r} v h =
    let locked : PortsCtl = record s { lock = s.lock + 1 } in
    let (got, e, q) = >>=-eq-ok (get_two rounds (lock_on s)) (λ (a, t). ok (a, lock_off t)) h in
    let w : Inv locked m = relocked s m (s.lock + 1) v in
    let answered : Answered got = elim (get_two-Ends m locked rounds w) [
      | inl (_, g) ↦ subst Answered (ok-injective (sym g ∙ e)) ((λ z. omega (arith, z)), (m, w))
      | inr (_, g) ↦ Ends-Answered m locked w g e
    ] in
    subst Answered (ok-injective q) (unlocked-Answered got answered)

none-ne-some {ℓ} : {A : Type ℓ} {a : A} → none ≡ some a → ⊥
none-ne-some e = cc

-- The ports that a session must have for SETUP.
abbrev pub UsesPair : MediaSession → PortsCtl → Type 0
UsesPair session t =
    (0 < session.rtp_port)
    × (session.rtp_port % 2 ≡ 0)
    × (session.rtcp_port ≡ session.rtp_port + 1)
    × (session.transfer_mode ≡ rtp_over_udp)
    × ((k : Memory) × Inv t k)

abbrev HasPair : ℕ × MediaSession × PortsCtl → Type 0
HasPair (e, session, t) = e ≡ 0 → UsesPair session t

some-injective {ℓ} : {A : Type ℓ} {a b : A} → some a ≡ some b → a ≡ b
some-injective e = cc

with_pair-HasPair :
    (u : UdpSockets) (type : ℕ) (r : PairReply × PortsCtl)
    → Answered r
    → HasPair (with_pair u type r)
unfolding with_pair
with_pair-HasPair u type (no_pair e, t) (n, _) z = absurd (n z)
with_pair-HasPair u type (pair low high, t) (a, b, c, v) z = (a, b, c, refl, v)

-- A media session that `CreateMediaSession` gives, over well-formed media ports, has an RTP port
-- that is even and not 0, the next port for RTCP, and the transfer mode RTP over UDP, and the
-- media ports are well formed again.
pub create_media_session-pair :
    (rounds : ℕ) (u : UdpSockets) (d : SdpMedia) (m : RtspMedia) (p : PortsCtl) (k : Memory)
    {session : MediaSession} {m' : RtspMedia} {t : PortsCtl}
    → Inv p k
    → create_media_session rounds u d m p ≡ ok (some session, m', t)
    → UsesPair session t
unfolding create_media_session init_session keep_session
create_media_session-pair rounds u d m p k {session} {m'} {t} v h =
    let (made, e, q) = >>=-eq-ok (init_session rounds u d p) (λ x. ok (keep_session m x)) h in
    let (type, _, e1) =
      >>=-eq-ok (type_of d.media) (λ y. lock_and_get_two rounds p >>= λ a. ok (with_pair u y a))
        e in
    let (a, e2, e3) = >>=-eq-ok (lock_and_get_two rounds p) (λ x. ok (with_pair u type x)) e1 in
    let good : HasPair made =
      subst HasPair (ok-injective e3)
        (with_pair-HasPair u type a (lock_and_get_two-Answered rounds p k v e2)) in
    elim (Bool-cases (made.0 == 0)) [
      | inl z ↦
          let same = ok-injective (rw z at q) in
          let one : made.1 ≡ session = some-injective (ap (λ r. r.0) same) in
          let two : made.2 ≡ t = ap (λ r. r.2) same in
          subst (UsesPair session) two
            (subst (λ x. UsesPair x made.2) one (good (==→eq made.0 0 z)))
      | inr n ↦ absurd (none-ne-some (ap (λ r. r.0) (ok-injective (rw n at q))))
    ]
