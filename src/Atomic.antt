-- ===== src/Atomic.antt =====
-- The locked counters of src/kernel/atomic.c. Each call is one stay under the counter's mutex, so it
-- is one step: it takes the value and returns the old value with the new one.
pub mod Sum
use leda.Prelude.{Bool, List, [], ◌∷◌, if◌then◌else◌}
use leda.Prelude.Int.{ℤ, pos, ◌+ℤ◌, ◌-ℤ◌, eqb_ℤ}

-- `struct atomicInt`, without its lock.
pub record Atomic : Type 0 where
  pub i : ℤ

-- `atomic_new`
unfoldable pub atomic_new : ℤ → Atomic
atomic_new x = record { i = x }

-- `atomic_value`, the macro READ.
unfoldable pub atomic_value : Atomic → ℤ
atomic_value a = a.i

-- `atomic_fetch_and_store`, the macro STORE.
unfoldable pub atomic_fetch_and_store : Atomic → ℤ → ℤ × Atomic
atomic_fetch_and_store a y = (a.i, record a { i = y })

-- `atomic_fetch_and_add`, the macro ADD; the macro SUB adds the negated amount.
unfoldable pub atomic_fetch_and_add : Atomic → ℤ → ℤ × Atomic
atomic_fetch_and_add a y = (a.i, record a { i = a.i +ℤ y })

-- `atomic_compare_and_swap`, the macro SWAP: it stores `y` if the value is `z`.
unfoldable pub atomic_compare_and_swap : Atomic → ℤ → ℤ → ℤ × Atomic
atomic_compare_and_swap a y z = if eqb_ℤ a.i z then (a.i, record a { i = y }) else (a.i, a)

-- A counter after ADD, SUB and STORE.
abbrev pub add_to : Atomic → ℤ → Atomic
add_to a y = (atomic_fetch_and_add a y).1

abbrev pub sub_from : Atomic → ℤ → Atomic
sub_from a y = (atomic_fetch_and_add a (pos 0 -ℤ y)).1

abbrev pub store_in : Atomic → ℤ → Atomic
store_in a y = (atomic_fetch_and_store a y).1
