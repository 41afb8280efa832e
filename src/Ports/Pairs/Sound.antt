-- ===== src/Ports/Pairs/Sound.antt =====
-- GetTwo of PortsCtl: what its loop can end with.
use z3_engine.Base.{
  ℕ, zero, suc, ◌+◌, ◌-◌, ◌%◌, ◌≤◌, ◌<◌, ◌≡◌, ◌⊎◌, refl, subst, inl, inr, Option, none, arith, ltb,
  Bool-cases, Outcome, ok, hangs,
}
use z3_engine.Ports.Bitmap.{Memory}
use z3_engine.Ports.Control.{PortsCtl, u16, z3_rtsp_eoutofports}
use z3_engine.Ports.Control.Invariant.{Inv, IsFree}
use z3_engine.Ports.Pairs.Rounds.{Paired, At, Goes, goes_on, returns, ports, pair_round-Goes, start}
use z3_engine.Ports.Pairs.{PairReply, pair, no_pair, Round, pair_loop, go_on, get_two}

module _ (m : Memory) (s0 : PortsCtl) where
  pub data Ends : Outcome (PairReply × PortsCtl) → Type 0 where
    hung : Ends hangs
    found : (low high : ℕ) (t : PortsCtl) → Paired m s0 low high t → Ends (ok (pair low high, t))

  Ends_hung :
      {o : Outcome (PairReply × PortsCtl)}
      → Ends o
      → ((low high : ℕ) (t : PortsCtl) → ¬ Paired m s0 low high t)
      → o ≡ hangs
  Ends_hung hung h = refl
  Ends_hung (found low high t p) h = absurd (h low high t p)

  go_on-Ends :
      (rest : Option ℕ → PortsCtl → Outcome (PairReply × PortsCtl)) {o : Outcome Round}
      → ((held : Option ℕ) (s : PortsCtl) → At m s0 held s → Ends (rest held s))
      → Goes m s0 o
      → Ends (go_on rest o)
  unfolding go_on
  go_on-Ends rest h (goes_on held s a) = h held s a
  go_on-Ends rest h (returns low high t p) = found low high t p

  pair_loop-Ends :
      (fuel : ℕ) (held : Option ℕ) (s : PortsCtl)
      → s0.used + s0.reserved + 2 ≤ ports m s0
      → At m s0 held s
      → Ends (pair_loop fuel held s)
  unfolding pair_loop
  pair_loop-Ends zero held s room a = hung
  pair_loop-Ends (suc fuel) held s room a =
      go_on-Ends (pair_loop fuel) (λ held' s' a'. pair_loop-Ends fuel held' s' room a')
        (pair_round-Goes m s0 held s a room)

  -- `GetTwo` over a well-formed state: where used and reserved ports are more than the ports less
  -- three it reports that the ports are used up and changes nothing; otherwise, whatever the
  -- number of rounds, it has found an even port and the next one, both free before and set now,
  -- with no other bit changed and two more ports used, or it is still looking. It never fails half
  -- way and never stops on an `assert`.
  pub get_two-Ends :
      (fuel : ℕ)
      → Inv s0 m
      → ((ports m s0 < s0.used + s0.reserved + 3)
          × (get_two fuel s0 ≡ ok (no_pair z3_rtsp_eoutofports, s0)))
        ⊎ ((s0.used + s0.reserved + 3 ≤ ports m s0) × Ends (get_two fuel s0))
  unfolding get_two
  get_two-Ends fuel v =
      elim (Bool-cases
        (ltb (u16 (s0.max_port + 65536 - s0.min_port)) (s0.used + s0.reserved + 2))) [
          | inl few ↦ inl (ground (arith, v.ordered, v.fits), rw few)
          | inr more ↦ inr (
            ground (arith, v.ordered, v.fits),
            rw more
                (pair_loop-Ends fuel none s0 (ground (arith, v.ordered, v.fits)) (start m s0 v)),
          )
        ]

  -- Over a well-formed state with at least three ports neither used nor reserved, but with no even
  -- free port whose next port is free, `GetTwo` returns after no number of rounds.
  pub get_two_no_pair :
      (fuel : ℕ)
      → Inv s0 m
      → s0.used + s0.reserved + 3 ≤ ports m s0
      → ((p : ℕ) → IsFree s0 m p → p % 2 ≡ 0 → ¬ IsFree s0 m (p + 1))
      → get_two fuel s0 ≡ hangs
  get_two_no_pair fuel v room none_free = elim (get_two-Ends fuel v) [
    | inl (few, _) ↦ absurd (omega (arith, few, room))
    | inr (_, e) ↦ Ends_hung e (λ low high t p.
        none_free low p.low_free p.even (subst (IsFree s0 m) p.adjacent p.high_free))
  ]
