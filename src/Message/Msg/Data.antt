-- ===== src/Message/Msg/Data.antt =====
-- InitData and SetBody, as the parser calls them for a data message.
use z3_engine.Base.{
  true, ℕ, suc, ◌+◌, ◌≡◌, refl, sym, ◌∙◌, ap, some, [], ◌∷◌, ◌++◌, arith, ltb, lt→ltb, Bytes,
  length, drop, ok,
}
use z3_engine.Message.Msg.{RtspMsg, unset, new_msg, init_data, zeros, set_body, write_body}
use z3_engine.Text.Version.{z3_eok}

drop-zeros : (buf : Bytes) → drop (length buf) (zeros (length buf + 1)) ≡ 0 ∷ []
unfolding zeros
drop-zeros [] = refl
drop-zeros (c ∷ buf) = rw (next (length buf)) (drop-zeros buf)
  where
    next : (n : ℕ) → suc n + 1 ≡ suc (n + 1)
    next n = omega arith

pub set_body-init_data :
    (channel size : ℕ) (buf : Bytes) (m : RtspMsg)
    → length buf + 1 ≡ size
    → set_body buf (init_data channel size m).0
      ≡ ok (record new_msg { body = some (buf ++ (0 ∷ [])); body_size = size }, z3_eok)
unfolding set_body write_body unset init_data
set_body-init_data channel size buf m e =
    let fits : ltb (length buf) size ≡ true = lt→ltb (length buf) size (omega (arith, e)) in
    let last : drop (length buf) (zeros size) ≡ 0 ∷ [] =
      ap (λ n. drop (length buf) (zeros n)) (sym e) ∙ drop-zeros buf in
    rw (fits, last)
