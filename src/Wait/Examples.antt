-- ===== src/Wait/Examples.antt =====
-- The theorems on the calls that wait in the event loop, for the sample graph.
use leda.Prelude.{true, false, some, [], ◌∷◌}
use leda.Prelude.Int.{pos}
use leda.Lua.{number, userdata}
use leda.Kernel.{Instance, socket}
use leda.Instance.Places.{Ensures}
use leda.Instance.Samples.{runner, running}
use leda.Wait.{event_wait_io}
use leda.Wait.Handed.{Full, Handed, event_wait_io-Handed}

-- It asks to write to the descriptor 5.
abbrev writer : Instance
writer = record runner { stack = number (pos 5) ∷ number (pos 2) ∷ [] }

event_wait_io-Handed_example :
    Ensures
      (λ _ k'. Handed (some (socket (pos 5) false true)) writer running k')
      Full
      (event_wait_io true writer running)
event_wait_io-Handed_example = event_wait_io-Handed running writer

abbrev sleeper : Instance
sleeper = record runner { stack = number (pos 9) ∷ [] }

-- It asks to read 16 bytes of a file.
abbrev reader : Instance
reader = record runner { stack = userdata 4 ∷ number (pos 1) ∷ number (pos 16) ∷ [] }
