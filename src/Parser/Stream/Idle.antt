-- ===== src/Parser/Stream/Idle.antt =====
-- Parse: what a call that returns Z3_EOK leaves for the next one.
use z3_engine.Base.{
  ℕ, ◌≡◌, refl, sym, ◌∙◌, ap, true, inl, inr, [], ◌∷◌, ◌++◌, some, ◌==◌, ◌+◌, Bytes, length, ok,
  >>=-eq-ok, ok-injective, Bool-cases, arith, fault,
}
use z3_engine.Message.Msg.{new_msg, unset}
use z3_engine.Parser.Stream.{
  RtspParser, new_parser, Leftover, rounds, first_run, finished, parse_received, reset, appended,
  parse_bytes, parse,
}
use z3_engine.Text.Version.{z3_eok}

pub reset-new : reset new_parser ≡ new_parser
unfolding reset new_parser
reset-new = refl

reset-completed : (q : RtspParser) → q.completed ≡ true → reset q ≡ new_parser
unfolding reset new_parser unset new_msg
reset-completed q c = rw c refl

fault-ne-ok : {r : ℕ × RtspParser} → fault ≡ ok r → ⊥
fault-ne-ok h = cc

parse_received-completed :
    (l : Leftover) (p : RtspParser) (received : Bytes) {r : ℕ × RtspParser}
    → parse_received l p received ≡ ok r
    → (r.0 == z3_eok) ≡ true
    → r.1.completed ≡ true
unfolding parse_received finished
parse_received-completed l p received {r} h z = elim (Bool-cases (p.offset == 0)) [
  | inl t ↦
      let (x, _, h1) =
        >>=-eq-ok (rounds (length (received ++ l.behind) + 3) l (first_run p received l.behind))
          (λ x. ok (finished received x)) (rw t at h) in
      let same = ok-injective h1 in
      sym (ap (λ k. k.1.completed) same) ∙ ap (λ k. k.0 == z3_eok) same ∙ z
  | inr f ↦ absurd (fault-ne-ok (rw f at h))
]

parse_bytes-completed :
    (l : Leftover) (buf : Bytes) (p : RtspParser) {r : ℕ × RtspParser}
    → parse_bytes l buf p ≡ ok r
    → (r.0 == z3_eok) ≡ true
    → r.1.completed ≡ true
unfolding parse_bytes
parse_bytes-completed l [] p {r} h z = absurd (ground (arith, ap (λ k. k.0) (ok-injective h), z))
parse_bytes-completed l (c ∷ cs) p h z =
    parse_received-completed l p (appended p.received (c ∷ cs)) h z

pub parse-idle :
    (l : Leftover) (buf : Bytes) (p : RtspParser) {r : ℕ × RtspParser}
    → parse l (some buf) p ≡ ok r
    → (r.0 == z3_eok) ≡ true
    → reset r.1 ≡ new_parser
unfolding parse
parse-idle l buf p {r} h z = reset-completed r.1 (parse_bytes-completed l buf (reset p) h z)
