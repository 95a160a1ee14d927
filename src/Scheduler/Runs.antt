-- ===== src/Scheduler/Runs.antt =====
-- A whole turn of a thread: it unpacks the instance's event, runs its handler with the events that this
-- sends, and does what the handler yields.
use leda.Prelude.{◌<◌, ◌≡◌, ◌≢◌, true, Option, none, some, List, [], ◌∷◌, ◌++◌, length}
use leda.Prelude.Int.{ℤ}
use leda.Lua.{Value, to_integer}
use leda.Event.{EventData, copy_each, extract_event, restored_values}
use leda.Kernel.{Instance, Kernel, ok}
use leda.Instance.{load_error, as_size}
use leda.Instance.Places.{Pool}
use leda.Instance.Places.Frame.{SameGraph}
use leda.Scheduler.{Platform, Status, pcall_error}
use leda.Scheduler.Sends.{Connects}
use leda.Scheduler.Turn.{Script, raises, returns, emits, Handler, run_script, status_in}
use leda.Scheduler.Turns.{Acts}
use leda.Scheduler.Settled.{Settled}

-- A call of `emmit` that is for a local stage of the graph, whose chunk loads, with a connector of the
-- graph and values that can be copied and encoded.
abbrev pub Emits : Platform → Kernel → List Value → Type 0
Emits p k [] = ⊥
Emits p k (dst ∷ []) = ⊥
Emits p k (dst ∷ con ∷ values) =
    (as_size (to_integer dst) < k.n_s)
    × Connects (to_integer con) k.n_c
    × ((k.slots (as_size (to_integer dst))).local ≡ true)
    × ((n : ℤ) → p.boot (as_size (to_integer dst)) n ≢ load_error)
    × (copy_each p.marshal values ≢ none)
    × (extract_event p.marshal values ≢ none)

-- What a handler does is in order, whatever its sends return: each send is, and so is what it yields.
abbrev pub Behaves : Platform → Instance → Script → Kernel → Type 0
Behaves p i raises k = Unit
Behaves p i (returns vs) k = Acts p k (record i { stack = vs }) (status_in vs)
Behaves p i (emits vs next) k =
    Emits p k vs
    × ((r : Option (List Value)) (k' : Kernel) → SameGraph p.marshal k k' → Behaves p i (next r) k')

-- When a handler has run, its instance is still held, and what it yields is in order.
abbrev pub Ended : Platform → Instance → List Instance → Option (List Value) → Kernel → Type 0
Ended p i held none k = (i.stage < k.n_s) × Pool k (i ∷ held)
Ended p i held (some vs) k =
    (i.stage < k.n_s) × Pool k (i ∷ held) × Acts p k (record i { stack = vs }) (status_in vs)

-- The status that ends a turn, and the instance with its results: an error is `pcall_error`.
abbrev pub status_given : Option (List Value) → Status
status_given none = pcall_error
status_given (some vs) = status_in vs

abbrev pub yielded : Instance → Option (List Value) → Instance
yielded i none = i
yielded i (some vs) = record i { stack = vs }

-- An instance with a packed event has the event's values after its handler.
abbrev pub IsUnpacked : Platform → Instance → Option EventData → Instance → Type 0
IsUnpacked p i none j = j ≡ i
IsUnpacked p i (some e) j =
    (vs : List Value) × (restored_values p.marshal e ≡ some vs)
    × (j ≡ record i {
      stack = (i.stack ++ i.handler ∷ []) ++ vs;
      args = length vs;
      packed_event = none;
    })

-- The handler of the unpacked instance has run, its sends included, and what it yielded, or its error,
-- is settled.
abbrev pub Turned :
    Platform → Handler → List Instance → Kernel → Instance → Option Instance → Kernel → Type 0
Turned p h held k i r k' =
    (j : Instance) × (o : Option (List Value)) × (ran : Kernel) × IsUnpacked p i i.packed_event j
    × (run_script p (h k j) k ≡ ok o ran)
    × Settled p held ran (yielded j o) (status_given o) r k'

-- One that comes from the network can be unpacked.
abbrev pub Unpackable : Platform → Option EventData → Type 0
Unpackable p none = Unit
Unpackable p (some e) = restored_values p.marshal e ≢ none
