-- ===== src/Message/Print/Data.antt =====
-- A data message, as the parser builds it, has no object to print.
use z3_engine.Base.{ℕ, ◌+◌, ◌≡◌, refl, true, some, [], ◌∷◌, ◌++◌, Bytes, length, ok, fault}
use z3_engine.Message.Msg.{RtspMsg, new_msg, init_data, set_body}
use z3_engine.Message.Msg.Data.{set_body-init_data}
use z3_engine.Message.Print.{to_string, to_string_of}
use z3_engine.Text.Version.{z3_eok}

-- After `InitData` with a size, `SetBody` with one byte fewer, which is what the parser gives it,
-- succeeds and leaves these bytes and a 0 as the body, so the last byte that was announced is not
-- taken; and `ToString` of the message then reads through its NULL object.
pub to_string-init_data :
    (date buf : Bytes) (channel size : ℕ) (m : RtspMsg)
    → length buf + 1 ≡ size
    → (d : RtspMsg) × (set_body buf (init_data channel size m).0 ≡ ok (d, z3_eok))
      × (d.body ≡ some (buf ++ (0 ∷ [])))
      × (to_string true date d ≡ fault)
unfolding to_string to_string_of new_msg
to_string-init_data date buf channel size m e = (
  record new_msg { body = some (buf ++ (0 ∷ [])); body_size = size },
  set_body-init_data channel size buf m e,
  refl,
  refl,
)
