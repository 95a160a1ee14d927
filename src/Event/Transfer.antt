-- ===== src/Event/Transfer.antt =====
-- An event that waits in a queue delivers what a direct call would have delivered.
use leda.Prelude.{
  ℕ, subst, ◌≡◌, refl, ap, ◌∙◌, Option, none, some, List, [], ◌∷◌, ◌++◌, length, inl, inr,
  Option-cases,
}
use leda.Lua.{
  Value, nil, boolean, number, string, light_userdata, table, function, userdata, thread, Stack,
  Marshal,
}
use leda.Event.{
  ◌>>=◌, Element, EventData, Tag, function_tag, table_tag, userdata_tag, encoded,
  copy_event_element, copy_elements, extract_event, restore_element, restore_elements,
  restored_values, restore_event, copy_value, copy_each, copy_values_directly,
}

module _ (m : Marshal) where
  encoded_lem :
      (t : Tag) (o : Option (List _)) → (encoded m t o >>= restore_element m) ≡ (o >>= m.decode)
  unfolding encoded restore_element
  encoded_lem t none = refl
  encoded_lem t (some bytes) = refl

  element_lem : (v : Value) → (copy_event_element m v >>= restore_element m) ≡ copy_value m v
  unfolding copy_event_element copy_value restore_element
  element_lem nil = refl
  element_lem (boolean b) = refl
  element_lem (number n) = refl
  element_lem (string s) = refl
  element_lem (light_userdata p) = refl
  element_lem (function f) = encoded_lem function_tag (m.encode (function f))
  element_lem (table t) = encoded_lem table_tag (m.encode (table t))
  element_lem (userdata u) = encoded_lem userdata_tag (m.encode (userdata u))
  element_lem (thread t) = refl

  -- Restoring element by element commutes with putting the elements in a list.
  join :
      (o : Option Element) (os : Option (List Element))
      → (o >>= (λ e. os >>= λ es. some (e ∷ es)) >>= restore_elements m)
        ≡ (o >>= restore_element m >>= λ v. os >>= restore_elements m >>= λ vs. some (v ∷ vs))
  unfolding restore_elements
  join none os = refl
  join (some e) none = elim (Option-cases (restore_element m e)) [
    | inl h ↦ rw h refl
    | inr (v, h) ↦ rw h refl
  ]
  join (some e) (some es) = refl

  elements_lem : (vs : List Value) → (copy_elements m vs >>= restore_elements m) ≡ copy_each m vs
  unfolding copy_elements copy_each restore_elements
  elements_lem [] = refl
  elements_lem (v ∷ vs) =
      join (copy_event_element m v) (copy_elements m vs) ∙ rw (element_lem v, elements_lem vs) refl

  -- An event taken off one stack and put on another leaves there what `copy_values_directly` would
  -- have put there, and fails exactly when that fails.
  pub queued-eq-direct :
      (dst : Stack) (vs : List Value)
      → (extract_event m vs >>= restored_values m >>= λ us. some (dst ++ us))
        ≡ copy_values_directly m dst vs
  unfolding extract_event restored_values copy_values_directly
  queued-eq-direct dst vs =
      ap (λ o. o >>= λ us. some (dst ++ us)) (bind_some (copy_elements m vs) ∙ elements_lem vs)
    where
      bind_some :
          (o : Option (List Element))
          → (o >>= (λ es. some (EventData.unpacked es)) >>= restored_values m)
            ≡ (o >>= restore_elements m)
      bind_some none = refl
      bind_some (some es) = refl

  encoded_kept :
      (v : Value) (t : Tag) (o : Option (List ℕ)) {e : Element}
      → m.encode v ≡ o
      → encoded m t o ≡ some e
      → restore_element m e ≡ some v
  unfolding encoded restore_element
  encoded_kept v t none enc h = cc
  encoded_kept v t (some bytes) enc h =
      subst (λ o. (o >>= restore_element m) ≡ some v) h (m.decode-encode v bytes enc)

  value_kept :
      (v : Value) {e : Element} → copy_event_element m v ≡ some e → restore_element m e ≡ some v
  unfolding copy_event_element restore_element
  value_kept nil h = subst (λ o. (o >>= restore_element m) ≡ some nil) h refl
  value_kept (boolean b) h = subst (λ o. (o >>= restore_element m) ≡ some (boolean b)) h refl
  value_kept (number n) h = subst (λ o. (o >>= restore_element m) ≡ some (number n)) h refl
  value_kept (string s) h = subst (λ o. (o >>= restore_element m) ≡ some (string s)) h refl
  value_kept (light_userdata p) h =
      subst (λ o. (o >>= restore_element m) ≡ some (light_userdata p)) h refl
  value_kept (function f) h = encoded_kept (function f) function_tag _ refl h
  value_kept (table t) h = encoded_kept (table t) table_tag _ refl h
  value_kept (userdata u) h = encoded_kept (userdata u) userdata_tag _ refl h
  value_kept (thread t) h = cc

  values_kept :
      (vs : List Value) {es : List Element}
      → copy_elements m vs ≡ some es
      → restore_elements m es ≡ some vs
  unfolding copy_elements restore_elements
  values_kept [] h = subst (λ o. (o >>= restore_elements m) ≡ some []) h refl
  values_kept (v ∷ vs) h = elim (Option-cases (copy_event_element m v)) [
    | inl e ↦ cc (rw e at h)
    | inr (x, e) ↦ elim (Option-cases (copy_elements m vs)) [
      | inl f ↦ cc (rw (e, f) at h)
      | inr (xs, f) ↦
          subst (λ o. (o >>= restore_elements m) ≡ some (v ∷ vs)) (rw (e, f) at h)
            (rw (value_kept v e, values_kept vs f) refl)
    ]
  ]

  pub extracted_values :
      (vs : List Value) {e : EventData}
      → extract_event m vs ≡ some e
      → restored_values m e ≡ some vs
  unfolding extract_event restored_values
  extracted_values vs h = elim (Option-cases (copy_elements m vs)) [
    | inl e ↦ cc (rw e at h)
    | inr (es, e) ↦ subst (λ o. (o >>= restored_values m) ≡ some vs) (rw e at h) (values_kept vs e)
  ]

  -- If taking the values off the sender's stack succeeds, restoring the event succeeds too: it
  -- puts the same values, in the same order, on top of the receiver's stack and returns their number.
  pub restore-extract :
      (stack : Stack) (vs : List Value) {e : EventData}
      → extract_event m vs ≡ some e
      → restore_event m stack e ≡ some (stack ++ vs, length vs)
  unfolding extract_event restore_event restored_values
  restore-extract stack vs h = elim (Option-cases (copy_elements m vs)) [
    | inl e ↦ cc (rw e at h)
    | inr (es, e) ↦
        subst (λ o. (o >>= restore_event m stack) ≡ some (stack ++ vs, length vs)) (rw e at h)
          (rw (values_kept vs e) refl)
  ]
