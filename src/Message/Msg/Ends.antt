-- ===== src/Message/Msg/Ends.antt =====
-- The calls of RtspMsg that the parser makes come to an end.
use z3_engine.Base.{
  ℕ, ◌+◌, ◌≡◌, refl, Option, none, some, ltb, ◌==◌, Bytes, length, Halts, if-Halts,
}
use z3_engine.Message.Msg.{
  RtspMsg, write_body, set_body, new_body, set_body_size, copy_headers, init_response, init_data,
}
use z3_engine.Text.Version.{z3_eok}

write_body-Halts : (old : Option Bytes) (buf : Bytes) (m : RtspMsg) → Halts (write_body old buf m)
unfolding write_body
write_body-Halts none buf m = λ e. cc
write_body-Halts (some old) buf m = if-Halts (ltb (length buf) m.body_size) _ _ (λ e. cc) (λ e. cc)

pub set_body-Halts : (buf : Bytes) (m : RtspMsg) → Halts (set_body buf m)
unfolding set_body
set_body-Halts buf m = write_body-Halts m.body buf m

new_body-Halts : (old : Option Bytes) (size : ℕ) (m : RtspMsg) → Halts (new_body old size m)
unfolding new_body
new_body-Halts (some old) size m = λ e. cc
new_body-Halts none size m = if-Halts (m.body_size == 0) _ _ (λ e. cc) (λ e. cc)

pub set_body_size-Halts : (size : ℕ) (m : RtspMsg) → Halts (set_body_size size m)
unfolding set_body_size
set_body_size-Halts size m = if-Halts (ltb 0 size) _ _ (new_body-Halts m.body size m) (λ e. cc)

pub init_response-Halts :
    (code : ℕ) (reason : Bytes) (m : RtspMsg) → Halts (init_response none code (some reason) m)
unfolding init_response copy_headers
init_response-Halts code reason m = if-Halts (ltb 1 (length reason + 1)) _ _ (λ e. cc) (λ e. cc)

pub init_data-eok : (channel size : ℕ) (m : RtspMsg) → (init_data channel size m).1 ≡ z3_eok
unfolding init_data
init_data-eok channel size m = refl

pub init_data-body_size :
    (channel size : ℕ) (m : RtspMsg) → (init_data channel size m).0.body_size ≡ size
unfolding init_data
init_data-body_size channel size m = refl
