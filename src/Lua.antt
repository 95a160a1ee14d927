-- ===== src/Lua.antt =====
-- Lua values as the kernel's C code sees them, and the two functions of the marshalling library that
-- it calls. A number is an integer: the code only moves numbers, or uses them as ids and sizes. A string
-- is no numeral: Lua would convert a numeral where the code asks for a number.
pub mod Samples
use Prim.Native.Char.{code}
use Prim.Native.String.{String}
use leda.Prelude.{ℕ, zero, suc, ◌≡◌, Bool, true, false, Option, none, some, List, [], ◌∷◌, All}
use leda.Prelude.Int.{ℤ, pos}

-- One constructor for each type of `lua_type`. A table, function, userdata or thread is known by what
-- it holds, under a number.
pub data Value : Type 0 where
  nil : Value
  boolean : Bool → Value
  number : ℤ → Value
  string : List ℕ → Value
  light_userdata : ℕ → Value
  table : ℕ → Value
  function : ℕ → Value
  userdata : ℕ → Value
  thread : ℕ → Value

-- A Lua stack, bottom first.
abbrev pub Stack : Type 0
Stack = List Value

-- `lua_tointeger`, which is 0 for what is no number.
abbrev pub to_integer : Value → ℤ
to_integer (number n) = n
to_integer _ = pos 0

-- The value at an index from 1, nil if there is none.
abbrev pub arg : ℕ → Stack → Value
arg i [] = nil
arg zero (v ∷ vs) = nil
arg (suc zero) (v ∷ vs) = v
arg (suc (suc i)) (v ∷ vs) = arg (suc i) vs

-- The number, the string or the object of a value whose type is that one.
abbrev pub number_of : Value → Option ℤ
number_of (number n) = some n
number_of _ = none

abbrev pub string_of : Value → Option (List ℕ)
string_of (string s) = some s
string_of _ = none

abbrev pub userdata_of : Value → Option ℕ
userdata_of (userdata u) = some u
userdata_of _ = none

abbrev pub is_nil : Value → Bool
is_nil nil = true
is_nil _ = false

-- The code points of a message.
abbrev pub codes : String → List ℕ
codes String.[] = []
codes (String.◌∷◌ c s) = code c ∷ codes s

-- What the calls that fail return to Lua: nil and a message.
abbrev pub nil_and : String → List Value
nil_and message = nil ∷ string (codes message) ∷ []

-- `mar_encode` and `mar_decode` of lmarshal.c, a library that the kernel calls; `none` is a Lua
-- error. `encode_all` encodes the table of some values without wrapping, and `decode_all` unpacks
-- it: `unpack` stops at a nil, so it gives the values back if none is nil.
pub record Marshal : Type 0 where
  pub encode : Value → Option (List ℕ)
  pub decode : List ℕ → Option Value
  pub decode-encode : (v : Value) (bytes : List ℕ) → encode v ≡ some bytes → decode bytes ≡ some v
  pub encode_all : List Value → Option (List ℕ)
  pub decode_all : List ℕ → Option (List Value)
  pub decode_all-encode_all :
      (vs : List Value) (bytes : List ℕ)
      → All (λ v. is_nil v ≡ false) vs
      → encode_all vs ≡ some bytes
      → decode_all bytes ≡ some vs
