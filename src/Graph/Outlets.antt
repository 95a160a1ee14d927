-- ===== src/Graph/Outlets.antt =====
-- The table `__output` that `instance_aquire` of src/kernel/instance.c gives the Lua state of a new instance:
-- what the stage's handler sends events with.
pub mod Wiring
use leda.Prelude.{ℕ, zero, suc, Option, none, some, List, [], ◌∷◌, ltb, if◌then◌else◌}
use leda.Prelude.Int.{ℤ, pos, negsuc}
use leda.Graph.{OutputKey, other_key, Output, Stage, Connector, Graph, Built, built, fault, ◌>>=◌}

-- `__output[key]`: `__sendf`, `__id` and `__consumer`.
pub record Outlet : Type 0 where
  pub key : OutputKey
  pub sendf : List ℕ
  pub id : ℤ
  pub consumer : ℤ

-- `CONNECTOR(c)`
abbrev pub connector_at : Graph → ℤ → Option Connector
connector_at g (negsuc i) = none
connector_at g (pos i) = if ltb i g.n_c then g.c i else none

-- One round of the loop. There is nothing to read through a NULL connector; an entry that was not written
-- has no key, and Lua has no entry for that.
abbrev pub outlet_to : Output → Option Connector → Built Outlet
outlet_to o none = fault
outlet_to o (some c) = built (record { key = o.key; sendf = c.send; id = o.value; consumer = c.c })

unfoldable pub outlet : Graph → Option Output → Built Outlet
outlet g none = fault
outlet g (some o) = outlet_to o (connector_at g o.value)

-- The rounds from entry `j` on.
unfoldable pub outlets_from : Graph → (ℕ → Option Output) → ℕ → ℕ → Built (List Outlet)
outlets_from g output zero j = built []
outlets_from g output (suc n) j =
    outlet g (output j) >>= λ y. outlets_from g output n (suc j) >>= λ ys. built (y ∷ ys)

abbrev pub outlets_of : Graph → Option Stage → Built (List Outlet)
outlets_of g none = fault
outlets_of g (some s) = outlets_from g s.output s.n_out 0

-- The entries of the table for a new instance of a stage.
unfoldable pub output_table : Graph → ℕ → Built (List Outlet)
output_table g s = if ltb s g.n_s then outlets_of g (g.s s) else fault
