-- ===== src/Event/Examples.antt =====
-- The theorems on src/kernel/event.c for a marshalling that encodes tables by their number.
use leda.Prelude.{◌≡◌, refl, true, some, List, [], ◌∷◌, ◌++◌}
use leda.Prelude.Int.{pos}
use leda.Lua.{Value, boolean, number, Stack, table}
use leda.Lua.Samples.{by_number}
use leda.Event.{
  ◌>>=◌, unpacked, number_element, encoded_element, table_tag, encoded, extract_event,
  restored_values, restore_event, copy_values_directly, copy_event_element, copy_elements,
}
use leda.Event.Transfer.{queued-eq-direct, restore-extract}

abbrev payload : List Value
payload = number (pos 4) ∷ table 6 ∷ []

abbrev below_payload : Stack
below_payload = boolean true ∷ []

taken_off :
    extract_event by_number payload
    ≡ some (unpacked (number_element (pos 4) ∷ encoded_element table_tag (0 ∷ 6 ∷ []) ∷ []))
unfolding extract_event copy_elements copy_event_element encoded
taken_off = refl

restore-extract_example :
    restore_event by_number below_payload
      (unpacked (number_element (pos 4) ∷ encoded_element table_tag (0 ∷ 6 ∷ []) ∷ []))
    ≡ some (below_payload ++ payload, 2)
restore-extract_example = restore-extract by_number below_payload payload taken_off

queued-eq-direct_example :
    (extract_event by_number payload >>= restored_values by_number >>= λ us.
    some (below_payload ++ us))
    ≡ copy_values_directly by_number below_payload payload
queued-eq-direct_example = queued-eq-direct by_number below_payload payload
