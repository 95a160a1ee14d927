-- ===== src/Dispatch/Examples.antt =====
-- A handler quits with a table after an error was raised and before an event is told.
use leda.Prelude.{◌≡◌, refl, ◌+◌, true, false, some, List, [], ◌∷◌}
use leda.Prelude.Int.{pos, ◌+ℤ◌}
use leda.Lua.{Value, table, number}
use leda.Lua.Samples.{by_number}
use leda.Stats.{error_event, event_event}
use leda.Event.{EventData, event_new_packed_event}
use leda.Scheduler.{ended_code, destroy}
use leda.Scheduler.Turn.{status_in}
use leda.Dispatch.{
  Callbacks, raised, yielded, Main, kernel_error_event, run_active, dispatch, finish_run,
  leda_raise_yield_event,
}
use leda.Dispatch.Quit.{quit-results}

abbrev attentive : Callbacks
attentive = record {
  on_error = true;
  on_event = true;
  on_release = false;
  on_timer = false;
  finish = true;
  comes_back = λ name args. true;
}

abbrev begun : Main
begun = record { stack = []; main_args = 0; exits = false; calls = [] }

abbrev told : Main
told = record begun { calls = ("on_error", number (pos 2) ∷ []) ∷ [] }

abbrev quit_event : EventData
quit_event = event_new_packed_event (5 ∷ [])

abbrev yields : List Value
yields = number (pos (ended_code + 7)) ∷ table 5 ∷ []

error_told : dispatch by_number attentive (raised (error_event 1) ∷ []) begun ≡ some told
unfolding dispatch run_active kernel_error_event ◌+ℤ◌
error_told = refl

quits : leda_raise_yield_event by_number (table 5 ∷ []) ≡ some (quit_event, yields)
unfolding leda_raise_yield_event
quits = refl

quit-results_example :
    (finish_run by_number attentive
        (raised (error_event 1)
          ∷ yielded quit_event
          ∷ raised (event_event 0 (pos 1) 0 (pos 1) (pos 9))
          ∷ [])
        begun
      ≡ some (table 5 ∷ []))
    × (status_in yields ≡ destroy)
quit-results_example =
    quit-results by_number attentive (table 5 ∷ []) yields quit_event (raised (error_event 1) ∷ [])
      (raised (event_event 0 (pos 1) 0 (pos 1) (pos 9)) ∷ []) begun told (refl, tt) quits
      (λ name args. refl) error_told (tt, tt)
