-- ===== src/Message/Headers.antt =====
-- RtspKeyValue and RtspKeyValueArray, and the loops of RtspMsg over them, in
-- z3_rtsp_client/z3_rtsp_msg.cpp. Memory is not short: `new` and `z3_calloc` succeed.
pub mod Add
pub mod Get
pub mod Remove
pub mod Ends
use z3_engine.Base.{
  ℕ, zero, suc, ◌+◌, ◌-◌, Bool, true, false, ◌&&◌, ◌||◌, not, Option, none, some, [], ltb, leb,
  ◌==◌, if◌then◌else◌, Bytes, length, update, Outcome, ok, fault, hangs, ◌>>=◌,
}

-- The value is NULL or the bytes that were copied, in `m_szInit` or on the heap.
pub record KeyValue : Type 0 where
  pub field : ℕ
  pub len : ℕ
  pub value : Option Bytes

abbrev pub blank : KeyValue
blank = record { field = 0; len = 0; value = none }

-- FillKeyValue asserts that the entry holds no value.
fill_in : Option Bytes → ℕ → Bytes → Outcome KeyValue
fill_in none field value = ok (record { field = field; len = length value; value = some value })
fill_in (some old) field value = fault

pub fill_key_value : KeyValue → ℕ → Bytes → Outcome KeyValue
unfolding fill_in
fill_key_value k field value = fill_in k.value field value

pub unset_key_value : KeyValue → KeyValue
unset_key_value k = blank

-- The bytes at a pointer; a copy of no bytes reads nothing through NULL.
abbrev pub bytes_of : Option Bytes → Bytes
bytes_of none = []
bytes_of (some v) = v

-- operator= into a new entry.
pub copy_of : KeyValue → KeyValue
copy_of k = record { field = k.field; len = k.len; value = some (bytes_of k.value) }

abbrev pub def_max_key_value : ℕ
def_max_key_value = 8

abbrev pub top_max_key_value : ℕ
top_max_key_value = 16

-- `slots` has `size` entries, `sum` of them in use.
pub record KeyValues : Type 0 where
  pub size : ℕ
  pub sum : ℕ
  pub slots : ℕ → KeyValue

unfoldable pub new_key_values : KeyValues
new_key_values = record { size = def_max_key_value; sum = 0; slots = λ i. blank }

copied : KeyValues → ℕ → KeyValue
copied a i = if ltb i a.sum then copy_of (a.slots i) else blank

abbrev pub z3_einval : ℕ
z3_einval = 0x399B6003

abbrev pub z3_rtsp_enotimpl : ℕ
z3_rtsp_enotimpl = 0x80001001

pub take_key_values_to_larger : ℕ → KeyValues → KeyValues × ℕ
unfolding copied copy_of
take_key_values_to_larger larger a =
    if leb larger a.size then (a, z3_einval) else (record a { size = larger; slots = copied a }, 0)

pub add_key_value : ℕ → Bytes → KeyValues → Outcome KeyValues
unfolding fill_key_value
add_key_value field value a = do
  k ← fill_key_value (a.slots a.sum) field value
  ok (record a { sum = a.sum + 1; slots = update a.slots a.sum k })

pub get_rtsp_key_value : KeyValues → ℕ → Option KeyValue
get_rtsp_key_value a index = if ltb index a.sum then some (a.slots index) else none

-- RtspMsg::AddHeader behind the test for NULL; the first number is the result.
added : Outcome KeyValues → Outcome (ℕ × KeyValues)
added m = do a ← m; ok (0, a)

grow_and_add : KeyValues × ℕ → ℕ → Bytes → Outcome (ℕ × KeyValues)
unfolding added add_key_value
grow_and_add (a, e) field value =
    if e == 0 then added (add_key_value field value a) else ok (0x399B6001, a)

unfoldable pub add_to : ℕ → Bytes → KeyValues → Outcome (ℕ × KeyValues)
unfolding added add_key_value grow_and_add take_key_values_to_larger
add_to field value a =
    if a.size == def_max_key_value
    then (if a.sum == a.size
        then grow_and_add (take_key_values_to_larger top_max_key_value a) field value
        else added (add_key_value field value a))
    else if a.size == top_max_key_value
    then (if a.sum == a.size then ok (0x399B6001, a) else added (add_key_value field value a))
    else ok (0x399B6001, a)

-- The loop of GetHeader over the entries from `i` on, with `left` of them to go and `cnt` of the
-- field seen.
pub get_from : (ℕ → KeyValue) → ℕ → ℕ → ℕ → ℕ → ℕ → Option KeyValue
get_from slots i zero field cnt index = none
get_from slots i (suc left) field cnt index =
    let here = (slots i).field == field in
    let rest = get_from slots (i + 1) left field (if here then cnt + 1 else cnt) index in
    if here && cnt == index then some (slots i) else rest

abbrev shown : Option KeyValue → Option (Option Bytes)
shown none = none
shown (some k) = some k.value

-- RtspMsg::GetHeader: the value, or Z3_RTSP_ENOTIMPL for `none`.
unfoldable pub get_header_in : Option KeyValues → ℕ → ℕ → Option (Option Bytes)
unfolding get_from
get_header_in none field index = none
get_header_in (some a) field index = shown (get_from a.slots 0 a.sum field 0 index)

-- The place of the entry that RemoveHeader takes out: the first of the field for an index of -1,
-- which is `none` here.
abbrev picks : Option ℕ → ℕ → Bool
picks none cnt = true
picks (some index) cnt = cnt == index

unfoldable pub place_from : (ℕ → KeyValue) → ℕ → ℕ → ℕ → ℕ → Option ℕ → Option ℕ
place_from slots i zero field cnt index = none
place_from slots i (suc left) field cnt index =
    let here = (slots i).field == field in
    let rest = place_from slots (i + 1) left field (if here then cnt + 1 else cnt) index in
    if here && picks index cnt then some i else rest

-- What RemoveHeader does at place `i`. Its `pLastKeyValue` is the entry at `i` once more, not the
-- last one, so the entry is filled from itself and unset again.
pub remove_at : ℕ → KeyValues → Outcome KeyValues
unfolding fill_key_value unset_key_value
remove_at i a =
    let k = unset_key_value (a.slots i) in
    let fewer = record a { sum = a.sum - 1; slots = update a.slots i k } in
    if ltb i (a.sum - 1)
    then (do
      k' ← fill_key_value k k.field (bytes_of k.value)
      ok (record a { sum = a.sum - 1; slots = update a.slots i (unset_key_value k') }))
    else ok fewer

pub remove_place : Option ℕ → KeyValues → Outcome (ℕ × KeyValues)
unfolding remove_at
remove_place none a = ok (z3_rtsp_enotimpl, a)
remove_place (some i) a = do a' ← remove_at i a; ok (0, a')

-- RtspMsg::RemoveHeader behind the test for NULL.
unfoldable pub remove_from : ℕ → Option ℕ → KeyValues → Outcome (ℕ × KeyValues)
unfolding place_from remove_place
remove_from field index a = remove_place (place_from a.slots 0 a.sum field 0 index) a
