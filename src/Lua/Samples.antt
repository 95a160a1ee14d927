-- ===== src/Lua/Samples.antt =====
-- A marshalling library for tests: it encodes a table, function or userdata as its number.
use leda.Prelude.{
  ℕ, zero, suc, ◌≡◌, refl, ap, subst, Option, none, some, List, [], ◌∷◌, map, All, false,
  Option-cases, inl, inr,
}
use leda.Lua.{
  Value, nil, boolean, number, string, light_userdata, table, function, userdata, thread, is_nil,
  Marshal,
}

abbrev pub encode : Value → Option (List ℕ)
encode (table n) = some (0 ∷ n ∷ [])
encode (function n) = some (1 ∷ n ∷ [])
encode (userdata n) = some (2 ∷ n ∷ [])
encode _ = none

abbrev pub decode : List ℕ → Option Value
decode (zero ∷ n ∷ []) = some (table n)
decode (suc zero ∷ n ∷ []) = some (function n)
decode (suc (suc zero) ∷ n ∷ []) = some (userdata n)
decode _ = none

abbrev tables_of : Option (List ℕ) → ℕ → Option (List ℕ)
tables_of none n = none
tables_of (some ns) n = some (n ∷ ns)

abbrev pub encode_all : List Value → Option (List ℕ)
encode_all [] = some []
encode_all (table n ∷ vs) = tables_of (encode_all vs) n
encode_all (_ ∷ vs) = none

abbrev pub decode_all : List ℕ → Option (List Value)
decode_all ns = some (map table ns)

abbrev pub decoded : Option (List ℕ) → Option Value
decoded none = none
decoded (some bytes) = decode bytes

pub decode-encode : (v : Value) (bytes : List ℕ) → encode v ≡ some bytes → decode bytes ≡ some v
decode-encode (table n) bytes e = subst (λ o. decoded o ≡ some (table n)) e refl
decode-encode (function n) bytes e = subst (λ o. decoded o ≡ some (function n)) e refl
decode-encode (userdata n) bytes e = subst (λ o. decoded o ≡ some (userdata n)) e refl
decode-encode nil bytes e = cc
decode-encode (boolean b) bytes e = cc
decode-encode (number n) bytes e = cc
decode-encode (string s) bytes e = cc
decode-encode (light_userdata p) bytes e = cc
decode-encode (thread t) bytes e = cc

abbrev all_decoded : Option (List ℕ) → Option (List Value)
all_decoded none = none
all_decoded (some ns) = decode_all ns

tail_or_nil : Option (List Value) → List Value
tail_or_nil none = []
tail_or_nil (some vs) = vs

more :
    (n : ℕ) (ns : List ℕ) (vs : List Value)
    → decode_all ns ≡ some vs
    → decode_all (n ∷ ns) ≡ some (table n ∷ vs)
unfolding tail_or_nil
more n ns vs h = ap (λ o. some (table n ∷ tail_or_nil o)) h

pub decode_all-encode_all :
    (vs : List Value) (bytes : List ℕ)
    → All (λ v. is_nil v ≡ false) vs
    → encode_all vs ≡ some bytes
    → decode_all bytes ≡ some vs
decode_all-encode_all [] bytes some_all e = subst (λ o. all_decoded o ≡ some []) e refl
decode_all-encode_all (table n ∷ vs) bytes some_all e = elim (Option-cases (encode_all vs)) [
  | inl h ↦ cc (rw h at e)
  | inr (ns, h) ↦
      subst (λ o. all_decoded o ≡ some (table n ∷ vs)) (rw h at e)
        (more n ns vs (decode_all-encode_all vs ns some_all.1 h))
]
decode_all-encode_all (nil ∷ vs) bytes some_all e = cc
decode_all-encode_all (boolean b ∷ vs) bytes some_all e = cc
decode_all-encode_all (number n ∷ vs) bytes some_all e = cc
decode_all-encode_all (string s ∷ vs) bytes some_all e = cc
decode_all-encode_all (light_userdata p ∷ vs) bytes some_all e = cc
decode_all-encode_all (function n ∷ vs) bytes some_all e = cc
decode_all-encode_all (userdata n ∷ vs) bytes some_all e = cc
decode_all-encode_all (thread t ∷ vs) bytes some_all e = cc

abbrev pub by_number : Marshal
by_number = record {
  encode = encode;
  decode = decode;
  decode-encode = decode-encode;
  encode_all = encode_all;
  decode_all = decode_all;
  decode_all-encode_all = decode_all-encode_all;
}
