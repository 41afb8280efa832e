-- ===== src/Message/Headers/Ends.antt =====
-- AddHeader comes to an end over any array.
use z3_engine.Base.{ℕ, Option, none, some, ◌==◌, Bytes, ok, Halts, >>=-Halts, if-Halts}
use z3_engine.Message.Headers.{
  KeyValues, fill_in, fill_key_value, add_key_value, added, grow_and_add, take_key_values_to_larger,
  top_max_key_value, def_max_key_value, add_to,
}

fill_in-Halts : (old : Option Bytes) (field : ℕ) (value : Bytes) → Halts (fill_in old field value)
unfolding fill_in
fill_in-Halts none field value = λ e. cc
fill_in-Halts (some old) field value = λ e. cc

added-Halts :
    (field : ℕ) (value : Bytes) (a : KeyValues) → Halts (added (add_key_value field value a))
unfolding added add_key_value fill_key_value
added-Halts field value a =
    >>=-Halts (add_key_value field value a) _
      (>>=-Halts (fill_key_value (a.slots a.sum) field value) _
        (fill_in-Halts (a.slots a.sum).value field value) (λ _ _. λ e. cc))
      (λ _ _. λ e. cc)

grow_and_add-Halts :
    (g : KeyValues × ℕ) (field : ℕ) (value : Bytes) → Halts (grow_and_add g field value)
unfolding grow_and_add
grow_and_add-Halts (a, e) field value =
    if-Halts (e == 0) (added (add_key_value field value a)) (ok (0x399B6001, a))
      (added-Halts field value a) (λ e. cc)

pub add_to-Halts : (field : ℕ) (value : Bytes) (a : KeyValues) → Halts (add_to field value a)
unfolding add_to
add_to-Halts field value a =
    if-Halts (a.size == def_max_key_value) _ _
      (if-Halts (a.sum == a.size) _ _
        (grow_and_add-Halts (take_key_values_to_larger top_max_key_value a) field value)
        (added-Halts field value a))
      (if-Halts (a.size == top_max_key_value) _ _
        (if-Halts (a.sum == a.size) _ _ (λ e. cc) (added-Halts field value a)) (λ e. cc))
