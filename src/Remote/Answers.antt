-- ===== src/Remote/Answers.antt =====
-- What the answer of another process does to the instance that waits for it and to the socket:
-- `do_read_ack` of src/kernel/event.c.
use leda.Prelude.{◌≡◌, ◌≢◌, ◌⊎◌, true, [], ◌∷◌, ◌++◌, update}
use Prim.Native.String.{String}
use leda.Prelude.Int.{ℤ}
use leda.Lua.{boolean}
use leda.Queue.Fifo
use leda.Queue.Fifo.{Fifo}
use leda.Kernel.{Instance, Kernel}
use leda.Wait.{reply}
use leda.Wait.Handed.{Readied}
use leda.Remote.Wire.{Read, received}
use leda.Remote.Connection.{false_and}

-- The socket is closed.
abbrev pub Closed : ℤ → Kernel → Kernel → Type 0
Closed fd k k' = k'.net ≡ record (k.net) { closed = k.net.closed ++ fd ∷ [] }

-- The socket is the last one that is kept for the process, or is closed if there is no room for it.
abbrev pub KeptOrClosed : Instance → ℤ → Kernel → Kernel → Type 0
KeptOrClosed i fd k k' =
    let sockets = k.net.sockets i.last_proc in
    ((Fifo.at_capacity sockets ≡ true) × Closed fd k k')
    ⊎ ((q : Fifo ℤ) × (q.items ≡ sockets.items ++ fd ∷ [])
        × (k'.net ≡ record (k.net) { sockets = update (k.net.sockets) i.last_proc q }))

-- Only the one byte 1 is a yes.
abbrev pub Answered : Instance → ℤ → Read → Kernel → Kernel → Type 0
Answered i fd r k k' =
    ((r ≡ received (1 ∷ [])) × Readied (reply i (boolean true ∷ [])) k k' × KeptOrClosed i fd k k')
    ⊎ ((r ≢ received (1 ∷ []))
        × ((message : String) × Readied (reply i (false_and message)) k k')
        × Closed fd k k')
