-- ===== src/Startup/Examples.antt =====
-- A run of the sample graph, with two events that wait for the second stage.
use leda.Prelude.{◌≡◌, some, All, refl, [], ◌∷◌, List, arith}
use leda.Prelude.Int.{negsuc}
use leda.Lua.Samples.{by_number}
use leda.Instance.Places.{Ensures}
use leda.Instance.Places.Pool.{Never}
use leda.Instance.Samples.{idle, boots_load}
use leda.Scheduler.Samples.{platform, message, message_copies, message_extracts}
use leda.Graph.{built}
use leda.Graph.Build.{Representation, graph_build}
use leda.Graph.Samples.{sample, sample-Regular, second, only}
use leda.Startup.Described.{Described, leda_run-Described}
use leda.Startup.Samples.{quiet}
use leda.Startup.{Pending, leda_run, set_up}
use leda.Startup.Started.{AllPlaced}

abbrev waiting_events : List Pending
waiting_events = record { object = 31; events = some (message ∷ message ∷ []) } ∷ []

described : All (Described platform sample) waiting_events
described = (
  (
    message ∷ message ∷ [],
    refl,
    (
      1,
      0,
      second,
      only,
      refl,
      refl,
      refl,
      refl,
      refl,
      boots_load,
      ((message_copies, message_extracts), ((message_copies, message_extracts), tt)),
    ),
  ),
  tt,
)

leda_run-Described_example :
    (r : Representation) × (graph_build sample ≡ built r)
    × Ensures
        (AllPlaced by_number (set_up r.graph (negsuc 0) idle))
        Never
        (leda_run platform r.graph r.stagesid quiet (negsuc 0) waiting_events idle)
leda_run-Described_example =
    leda_run-Described platform sample quiet (negsuc 0) waiting_events idle refl sample-Regular
      (omega arith) refl refl described
