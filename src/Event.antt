-- ===== src/Event.antt =====
-- Events of src/kernel/event.c: what `extract_event_from_lua_state` takes off a Lua stack, and what
-- `restore_event_to_lua_state` puts back on one. `none` is a Lua error, which unwinds the call.
pub mod Transfer
mod Examples
use leda.Prelude.{ℕ, ◌≡◌, Bool, Option, none, some, List, [], ◌∷◌, ◌++◌, length}
use leda.Prelude.Int.{ℤ}
use leda.Lua.{
  Value, nil, boolean, number, string, light_userdata, table, function, userdata, thread, Stack,
  Marshal,
}

infixl 5 ◌>>=◌
abbrev pub ◌>>=◌ {ℓ κ} : {A : Type ℓ} {B : Type κ} → Option A → (A → Option B) → Option B
none >>= f = none
some a >>= f = f a

-- The types that travel encoded.
pub data Tag : Type 0 where
  function_tag table_tag userdata_tag : Tag

-- `struct _element`: the type with the member of the union that it selects.
pub data Element : Type 0 where
  nil_element : Element
  boolean_element : Bool → Element
  number_element : ℤ → Element
  string_element : List ℕ → Element
  pointer_element : ℕ → Element
  encoded_element : Tag → List ℕ → Element

-- `struct event_data`: a packed event holds the bytes of one encoded table.
pub data EventData : Type 0 where
  unpacked : List Element → EventData
  packed : List ℕ → EventData

-- `event_new_packed_event`, where `malloc` succeeds.
unfoldable pub event_new_packed_event : List ℕ → EventData
event_new_packed_event bytes = packed bytes

module _ (m : Marshal) where
  open m use {encode, decode, decode_all}

  encoded : Tag → Option (List ℕ) → Option Element
  encoded t none = none
  encoded t (some bytes) = some (encoded_element t bytes)

  -- `copy_event_element`. A thread is of no supported type.
  unfoldable pub copy_event_element : Value → Option Element
  unfolding encoded
  copy_event_element nil = some nil_element
  copy_event_element (boolean b) = some (boolean_element b)
  copy_event_element (number n) = some (number_element n)
  copy_event_element (string s) = some (string_element s)
  copy_event_element (light_userdata p) = some (pointer_element p)
  copy_event_element (function f) = encoded function_tag (encode (function f))
  copy_event_element (table t) = encoded table_tag (encode (table t))
  copy_event_element (userdata u) = encoded userdata_tag (encode (userdata u))
  copy_event_element (thread t) = none

  -- The loop of `extract_event_from_lua_state` over the arguments.
  unfoldable pub copy_elements : List Value → Option (List Element)
  copy_elements [] = some []
  copy_elements (v ∷ vs) =
      let rest = copy_elements vs in copy_event_element v >>= λ e. rest >>= λ es. some (e ∷ es)

  -- `extract_event_from_lua_state`
  unfoldable pub extract_event : List Value → Option EventData
  extract_event vs = copy_elements vs >>= λ es. some (unpacked es)

  -- One element pushed back.
  unfoldable pub restore_element : Element → Option Value
  restore_element nil_element = some nil
  restore_element (boolean_element b) = some (boolean b)
  restore_element (number_element n) = some (number n)
  restore_element (string_element s) = some (string s)
  restore_element (pointer_element p) = some (light_userdata p)
  restore_element (encoded_element t bytes) = decode bytes

  unfoldable pub restore_elements : List Element → Option (List Value)
  restore_elements [] = some []
  restore_elements (e ∷ es) =
      let rest = restore_elements es in restore_element e >>= λ v. rest >>= λ vs. some (v ∷ vs)

  -- The values that `restore_event_to_lua_state` pushes.
  unfoldable pub restored_values : EventData → Option (List Value)
  restored_values (unpacked es) = restore_elements es
  restored_values (packed bytes) = decode_all bytes

  -- `restore_event_to_lua_state`: the stack with the payload on top, and the number of values pushed.
  unfoldable pub restore_event : Stack → EventData → Option (Stack × ℕ)
  restore_event stack e = restored_values e >>= λ vs. some (stack ++ vs, length vs)

  -- One value of `copy_values_directly`.
  unfoldable pub copy_value : Value → Option Value
  copy_value (function f) = encode (function f) >>= decode
  copy_value (table t) = encode (table t) >>= decode
  copy_value (userdata u) = encode (userdata u) >>= decode
  copy_value (thread t) = none
  copy_value nil = some nil
  copy_value (boolean b) = some (boolean b)
  copy_value (number n) = some (number n)
  copy_value (string s) = some (string s)
  copy_value (light_userdata p) = some (light_userdata p)

  unfoldable pub copy_each : List Value → Option (List Value)
  copy_each [] = some []
  copy_each (v ∷ vs) = let rest = copy_each vs in copy_value v >>= λ u. rest >>= λ us. some (u ∷ us)

  -- `copy_values_directly`: the stack of the destination.
  unfoldable pub copy_values_directly : Stack → List Value → Option Stack
  copy_values_directly dst vs = copy_each vs >>= λ us. some (dst ++ us)
