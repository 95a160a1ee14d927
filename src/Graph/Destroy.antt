-- ===== src/Graph/Destroy.antt =====
-- `graph_destroy` of src/kernel/graph.c: which blocks of memory it gives back. A block that is not live any
-- more cannot be freed again. The stages and what they hold are not freed.
use leda.Prelude.{
  ℕ, zero, suc, ◌+◌, ◌≤◌, ◌<◌, ◌≡◌, refl, ◌∙◌, Bool, true, false, Bool-cases, inl, inr, ◌==◌, subst,
  Option, some, none, List, [], ◌∷◌, update, update_ne, if◌then◌else◌, arith,
}
use leda.Graph.{Graph, Built, built, fault, ◌>>=◌}
use leda.Graph.Sound.{Sound}

-- For each of the blocks that an entry of an array owns (its strings, its list, itself), whether that of
-- entry `i` is live.
abbrev pub Blocks : Type 0
Blocks = List (ℕ → Bool)

-- The arrays and the blocks of their entries.
pub record Live : Type 0 where
  pub s : Bool
  pub c : Bool
  pub cl : Bool
  pub d : Bool
  pub connectors : Blocks
  pub clusters : Blocks
  pub processes : Blocks

-- `NULL_SAFE_FREE` of each block of one entry.
unfoldable pub free_blocks : ℕ → Blocks → Built Blocks
free_blocks i [] = built []
free_blocks i (live ∷ more) =
    let rest = free_blocks i more >>= λ left. built (update live i false ∷ left) in
    if live i then rest else fault

-- A NULL entry is read through.
abbrev pub free_entry : {A : Type 0} → ℕ → Option A → Blocks → Built Blocks
free_entry i none blocks = fault
free_entry i (some a) blocks = free_blocks i blocks

-- A loop over the entries of an array, from entry `i` on.
unfoldable pub free_entries : {A : Type 0} → (ℕ → Option A) → ℕ → ℕ → Blocks → Built Blocks
free_entries entries zero i blocks = built blocks
free_entries entries (suc n) i blocks =
    free_entry i (entries i) blocks >>= free_entries entries n (suc i)

abbrev pub free_array : Bool → Built Bool
free_array true = built false
free_array false = fault

-- `graph_destroy`
unfoldable pub graph_destroy : Graph → Live → Built Live
graph_destroy g live = free_array live.s >>= λ s.
    free_entries g.c g.n_c 0 live.connectors >>= λ connectors. free_array live.c >>= λ c.
    free_entries g.cl g.n_cl 0 live.clusters >>= λ clusters. free_array live.cl >>= λ cl.
    free_entries g.d g.n_d 0 live.processes >>= λ processes. free_array live.d >>= λ d.
    built (record {
      s = s;
      c = c;
      cl = cl;
      d = d;
      connectors = connectors;
      clusters = clusters;
      processes = processes;
    })

-- After a graph was built: a connector has a name, a method and itself, a cluster a name, a list of
-- processes and itself, a process a host and itself.
abbrev pub all_live : Live
all_live = record {
  s = true;
  c = true;
  cl = true;
  d = true;
  connectors = (λ i. true) ∷ (λ i. true) ∷ (λ i. true) ∷ [];
  clusters = (λ i. true) ∷ (λ i. true) ∷ (λ i. true) ∷ [];
  processes = (λ i. true) ∷ (λ i. true) ∷ [];
}

-- The blocks of the entries from `i` to `n` are live.
abbrev pub LiveFrom : ℕ → ℕ → Blocks → Type 0
LiveFrom i n [] = Unit
LiveFrom i n (live ∷ more) = ((j : ℕ) → i ≤ j → j < n → live j ≡ true) × LiveFrom i n more

-- Those of the entries below `n` are freed.
abbrev pub Freed : ℕ → Blocks → Type 0
Freed n [] = Unit
Freed n (live ∷ more) = ((j : ℕ) → j < n → live j ≡ false) × Freed n more

freed_below :
    (live : ℕ → Bool) (i : ℕ)
    → ((j : ℕ) → j < i → live j ≡ false)
    → (j : ℕ) → j < suc i
    → update live i false j ≡ false
freed_below live i before j lt = elim (Bool-cases (i == j)) [
  | inl e ↦ rw e refl
  | inr e ↦ let below : j < i = ground arith in rw e (before j below)
]

free_blocks-Freed :
    (i n : ℕ) (blocks : Blocks)
    → i < n
    → LiveFrom i n blocks
    → Freed i blocks
    → (left : Blocks) × (free_blocks i blocks ≡ built left)
      × LiveFrom (suc i) n left
      × Freed (suc i) left
unfolding free_blocks
free_blocks-Freed i n [] lt is_live freed = ([], refl, tt, tt)
free_blocks-Freed i n (live ∷ more) lt (here, is_live) (before, freed) =
    let (left, done, live_left, freed_left) = free_blocks-Freed i n more lt is_live freed in
    (
      update live i false ∷ left,
      rw (here i (omega arith) lt, done) refl,
      (
        (λ j le below.
            update_ne live false (λ e. absurd (omega arith)) ∙ here j (omega arith) below),
        live_left,
      ),
      (freed_below live i before, freed_left),
    )

free_entries-Freed :
    {A : Type 0} (entries : ℕ → Option A) (left i n : ℕ) (blocks : Blocks)
    → i + left ≡ n
    → ((j : ℕ) → j < n → (a : A) × (entries j ≡ some a))
    → LiveFrom i n blocks
    → Freed i blocks
    → (freed : Blocks) × (free_entries entries left i blocks ≡ built freed) × Freed n freed
unfolding free_entries
free_entries-Freed entries zero i n blocks e full is_live freed =
    (blocks, refl, subst (λ m. Freed m blocks) (the_end e) freed)
  where
    the_end : i + 0 ≡ n → i ≡ n
    the_end e = omega arith
free_entries-Freed entries (suc left) i n blocks e full is_live freed =
    let (a, here) = full i (omega arith) in
    let (now, done, live_now, freed_now) =
      free_blocks-Freed i n blocks (omega arith) is_live freed in
    let (after, rest, all_freed) =
      free_entries-Freed entries left (suc i) n now (omega arith) full live_now freed_now in
    (after, rw (here, done) rest, all_freed)

-- The array itself, and the blocks of its entries.
abbrev pub AllFreed : Graph → Live → Type 0
AllFreed g live =
    (live.s ≡ false)
    × (live.c ≡ false)
    × (live.cl ≡ false)
    × (live.d ≡ false)
    × Freed g.n_c live.connectors
    × Freed g.n_cl live.clusters
    × Freed g.n_d live.processes

-- `graph_destroy` of a graph whose arrays are full, as `graph_build` leaves them, reads through no NULL entry and frees no block twice, and then the four arrays and every block of a connector, a cluster or a process are freed.
pub graph_destroy-AllFreed :
    (g : Graph)
    → Sound g
    → (live : Live) × (graph_destroy g all_live ≡ built live) × AllFreed g live
unfolding graph_destroy
graph_destroy-AllFreed g sound =
    let (cs, c_done, c_freed) =
      free_entries-Freed g.c g.n_c 0 g.n_c all_live.connectors (omega arith)
        (λ j lt. let (x, e, p, c) = sound.connectors j lt in (x, e)) (every, (every, (every, tt)))
        (none_yet, (none_yet, (none_yet, tt))) in
    let (cls, cl_done, cl_freed) =
      free_entries-Freed g.cl g.n_cl 0 g.n_cl all_live.clusters (omega arith)
        (λ j lt. let (x, e, ps) = sound.clusters j lt in (x, e)) (every, (every, (every, tt)))
        (none_yet, (none_yet, (none_yet, tt))) in
    let (ds, d_done, d_freed) =
      free_entries-Freed g.d g.n_d 0 g.n_d all_live.processes (omega arith) sound.processes
        (every, (every, tt)) (none_yet, (none_yet, tt)) in
    (
      record {
        s = false;
        c = false;
        cl = false;
        d = false;
        connectors = cs;
        clusters = cls;
        processes = ds;
      },
      rw (c_done, cl_done, d_done) refl,
      (refl, refl, refl, refl, c_freed, cl_freed, d_freed),
    )
  where
    every : {n : ℕ} → (j : ℕ) → 0 ≤ j → j < n → true ≡ true
    every j le lt = refl

    none_yet : (j : ℕ) → j < 0 → true ≡ false
    none_yet j lt = absurd (omega arith)
