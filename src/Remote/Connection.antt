-- ===== src/Remote/Connection.antt =====
-- Sending an event to another process: `event_get_process_sock`, `send_async_event`,
-- `send_sync_event` and `do_read_ack` of src/kernel/event.c. Messages leave out hosts and ports.
use leda.Prelude.{
  ℕ, Bool, true, false, Option, none, some, List, [], ◌∷◌, ◌++◌, length, get_elem?, update, ◌==◌,
  if◌then◌else◌,
}
use leda.Prelude.Int.{ℤ, pos, negsuc, ◌-ℤ◌}
use leda.Lua.{Value, boolean, string, Stack, codes}
use Prim.Native.String.{String}
use leda.Queue.Fifo
use leda.Queue.Fifo.{Fifo}
use leda.Stats.{stats_update_events}
use leda.Kernel.{
  Instance, acknowledgement, blocked, fault, M, pure, ◌>>=◌, ◌>>◌, expect, now_secs, change_stats,
  change_net,
}
use leda.Instance.{as_size, slot_at}
use leda.Wait.{park, resume_with}
use leda.Remote.{next_destination}
use leda.Remote.Wire.{
  frame, Put, Wrote, wrote_all, wrote_error, writing, write_loop, Read, received, read_again,
  read_failed,
}

-- What an attempt to connect to a process comes to.
pub data Connect : Type 0 where
  bad_address no_socket no_connection : Connect
  connected : ℤ → Connect

-- The network from this side: connections, the calls of `write`, whether an
-- event can be added for the answer, and the one read of it.
pub record Link : Type 0 where
  pub connect : ℕ → Connect
  pub puts : List Put
  pub added : Bool
  pub reply : Read

abbrev pub false_and : String → List Value
false_and message = boolean false ∷ string (codes message) ∷ []

-- The processes of a cluster in turn; a cluster of none is a division by zero.
abbrev pub pick : ℕ → List ℕ → M ℕ
pick cluster [] k = fault
pick cluster (p ∷ ps) k =
    let (d, cur) = next_destination (length (p ∷ ps)) (k.net.cur_process cluster) in
    expect (get_elem? (p ∷ ps) (as_size d))
      (record k { net = record (k.net) { cur_process = update (k.net.cur_process) cluster cur } })

unfoldable pub choose_process : ℕ → M ℕ
choose_process s k = pick (k.net.cluster s) (k.net.processes (k.net.cluster s)) k

abbrev pub set_sockets : ℕ → Fifo ℤ → M (Unit {0})
set_sockets dst q = change_net (λ n. record n { sockets = update (n.sockets) dst q })

abbrev pub close : ℤ → M (Unit {0})
close fd = change_net (λ n. record n { closed = n.closed ++ fd ∷ [] })

-- `if(!TRY_PUSH(sockets[dst_id],fd)) close(fd)`
abbrev pub keep_or_close : ℤ → ℕ → Option (Fifo ℤ) → M (Unit {0})
keep_or_close fd dst none = close fd
keep_or_close fd dst (some q) = set_sockets dst q

unfoldable pub recycle_socket : ℕ → ℤ → M (Unit {0})
recycle_socket dst fd k = keep_or_close fd dst (Fifo.try_push (k.net.sockets dst) fd) k

-- A kept socket, or a new connection.
abbrev pub socket_or_connect : Link → ℕ → Option (ℤ × Fifo ℤ) → M Connect
socket_or_connect l dst none = pure (l.connect dst)
socket_or_connect l dst (some (fd, q)) = set_sockets dst q >> pure (connected fd)

unfoldable pub get_socket : Link → ℕ → M Connect
get_socket l dst k = socket_or_connect l dst (Fifo.try_pop (k.net.sockets dst)) k

-- The message of a failed connection.
abbrev pub failure : Connect → List Value
failure bad_address = false_and "Bad address"
failure no_socket = false_and "Could not create socket"
failure no_connection = false_and "Could not establish connection"
failure (connected fd) = []

-- `lua_pop(L,1)`
abbrev pub pop_value : Stack → Stack
pop_value [] = []
pop_value (v ∷ []) = []
pop_value (v ∷ w ∷ vs) = v ∷ pop_value (w ∷ vs)

-- The descriptor that a failed connection returns is 2, the number of values it pushed.
abbrev pub or_two : Instance → Connect → ℤ × Instance
or_two i (connected fd) = (fd, i)
or_two i c = (pos 2, record i { stack = pop_value i.stack ++ failure c })

-- `event_get_process_sock`
unfoldable pub event_get_process_sock : Link → Instance → ℕ → M (ℤ × Instance)
event_get_process_sock l i dst = get_socket l dst >>= λ c. pure (or_two i c)

-- After the write loop: whether the frame is out. On an error the socket is closed.
abbrev pub after_write : ℤ → Wrote → M Bool
after_write fd (wrote_all out) =
    change_net (λ n. record n { written = n.written ++ (fd, out) ∷ [] }) >> pure true
after_write fd (wrote_error out) =
    change_net (λ n. record n { written = n.written ++ (fd, out) ∷ [] }) >> close fd >> pure false
after_write fd (writing out) = λ k. blocked none k

unfoldable pub write_frame : Link → ℤ → List ℕ → M Bool
write_frame l fd buffer = after_write fd (write_loop l.puts [] buffer)

-- The instance waits for the answer, or nothing looks at it any more: after a write error, or if
-- `event_add` fails, which the source does not look at.
abbrev pub await_ack : Bool → ℤ → Instance → Bool → M ℤ
await_ack true fd i true = park i (acknowledgement fd) >> pure (pos 0)
await_ack false fd i true = pure (pos 0)
await_ack added fd i false = pure (negsuc 0)

abbrev pub sent_by : Instance → ℕ → ℤ → ℤ → Instance
sent_by i dst con start = record i { last_proc = dst; con_id = con; communication_time = start }

-- `send_async_event`
unfoldable pub send_async_event : Link → Instance → ℤ → ℤ → ℤ → List ℕ → M ℤ
send_async_event l i s_id con start payload = do
  slot_at (as_size s_id)
  dst ← choose_process (as_size s_id)
  (fd, j) ← event_get_process_sock l i dst
  done ← write_frame l fd (frame s_id payload)
  await_ack l.added fd (sent_by j dst con start) done

-- The answer of one byte to a synchronous send.
abbrev pub sync_reply : ℕ → ℤ → Read → M (List Value)
sync_reply dst fd (received (b ∷ bs)) =
    if b == 1
    then recycle_socket dst fd >> pure (boolean true ∷ [])
    else pure (false_and "Error sending event to process")
sync_reply dst fd _ = close fd >> pure (false_and "Error sending event to process")

-- A negative number of results is no return from a function that Lua called.
abbrev pub sync_written : Link → ℕ → ℤ → Bool → M (List Value)
sync_written l dst fd true = sync_reply dst fd l.reply
sync_written l dst fd false = λ k. fault

abbrev pub sync_send : Link → ℕ → ℤ → List ℕ → Connect → M (List Value)
sync_send l dst s_id payload (connected fd) =
    write_frame l fd (frame s_id payload) >>= sync_written l dst fd
sync_send l dst s_id payload c = pure (failure c)

-- `send_sync_event`
unfoldable pub send_sync_event : Link → ℤ → List ℕ → M (List Value)
send_sync_event l s_id payload = do
  slot_at (as_size s_id)
  dst ← choose_process (as_size s_id)
  c ← get_socket l dst
  sync_send l dst s_id payload c

-- `if(i->con_id>=0)`, from the acknowledgement.
abbrev pub count_acknowledged : Instance → ℤ → M (Unit {0})
count_acknowledged i (negsuc c) = pure tt
count_acknowledged i (pos c) = do
  now ← now_secs
  change_stats (stats_update_events i.stage (pos 1) c (now -ℤ i.communication_time))

abbrev pub refused_with : Instance → ℤ → String → M (Unit {0})
refused_with i fd message = close fd >> resume_with i (false_and message)

abbrev pub accepted : Instance → ℤ → M (Unit {0})
accepted i fd = do
  recycle_socket i.last_proc fd
  count_acknowledged i i.con_id
  resume_with i (boolean true ∷ [])

-- `do_read_ack`: the size is a `size_t`, so a failed read is taken for an answer that is not 1.
unfoldable pub do_read_ack : Instance → ℤ → Read → M (Unit {0})
do_read_ack i fd (received []) =
    refused_with i fd "Error sending event to process: the process closed the connection"
do_read_ack i fd (received (b ∷ [])) =
    if b == 1
    then accepted i fd
    else refused_with i fd "Error sending event to process: Event queue is full"
do_read_ack i fd (received (b ∷ c ∷ bs)) =
    refused_with i fd "Error sending event to process: Event queue is full"
do_read_ack i fd read_again =
    refused_with i fd "Error sending event to process: Event queue is full"
do_read_ack i fd read_failed =
    refused_with i fd "Error sending event to process: Event queue is full"
