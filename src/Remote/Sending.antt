-- ===== src/Remote/Sending.antt =====
-- A send to another process: whom it goes to, what goes out and where the instance is afterwards, in
-- `send_async_event` and `do_read_ack` of src/kernel/event.c.
use native.Mathlib.Nat.{mod-lt}
use leda.Prelude.{
  ℕ, suc, ◌%◌, ◌≤◌, ◌<◌, ◌≡◌, refl, sym, ap, subst, ◌∙◌, true, Option, none, some, List, [], ◌∷◌,
  ◌++◌, get_elem?, length, index-within, update, update_self, lt→ltb, ◌==◌, Bool-cases, inl, inr,
  arith,
}
use leda.Prelude.Int.{ℤ, pos, negsuc}
use leda.Queue.Fifo
use leda.Queue.Fifo.{Fifo}
use leda.Atomic.{atomic_fetch_and_store}
use leda.Kernel.{Instance, acknowledgement, Net, Kernel, pure, ◌>>=◌, ◌>>◌}
use leda.Instance.{as_size, slot_at}
use leda.Instance.Places.{Pool, Ensures}
use leda.Instance.Places.Pool.{Never}
use leda.Instance.Places.Release.{Sleeps}
use leda.Wait.Held.{Given, resume-Pool}
use leda.Wait.Held.{park-Pool}
use leda.Lua.{Value}
use leda.Wait.{resume_with}
use leda.Remote.{next_destination}
use leda.Remote.RoundRobin.{next-counter}
use leda.Remote.Wire.{frame, Read, received, read_again, read_failed}
use leda.Remote.Wire.Transfer.{room, write_loop_lem}
use leda.Remote.Connection.{
  Connect, bad_address, no_socket, no_connection, connected, Link, pick, choose_process,
  socket_or_connect, get_socket, recycle_socket, keep_or_close, or_two, event_get_process_sock,
  write_frame, await_ack, sent_by, send_async_event, do_read_ack, count_acknowledged,
}

-- The counter of a cluster is an index of its processes.
abbrev pub InTurn : Net → ℕ → Type 0
InTurn net c = (d : ℕ) × ((net.cur_process c).i ≡ pos d) × (d < length (net.processes c))

-- Neither the sent frames, nor the event loop, nor the ready queue have changed.
abbrev Untouched : Kernel → Kernel → Type 0
Untouched k k' =
    (k'.net.written ≡ k.net.written) × (k'.waiting ≡ k.waiting) × (k'.ready_queue ≡ k.ready_queue)

-- An instance of the same stage and handler.
abbrev Same : Instance → Instance → Type 0
Same i j = (j.stage ≡ i.stage) × (j.handler ≡ i.handler)

-- The process whose turn it is in a cluster.
abbrev InLine : Net → ℕ → ℕ → Type 0
InLine net c dst = get_elem? (net.processes c) (as_size (net.cur_process c).i) ≡ some dst

-- Just this frame went out, on a socket where the instance now waits for the answer of the process
-- whose turn it was; the ready queue is as before, and the cluster's counter is one of its processes.
abbrev pub Out : Kernel → List Instance → Instance → ℕ → List ℕ → ℤ → ℤ → ℤ → Kernel → Type 0
Out k held i c buffer con start r k' =
    (r ≡ pos 0)
    × Pool k' held
    × InTurn k'.net c
    × ((fd : ℤ) × (j : Instance) × (k'.net.written ≡ k.net.written ++ (fd, buffer) ∷ [])
        × (k'.waiting ≡ k.waiting ++ (j, acknowledgement fd) ∷ [])
        × (k'.ready_queue ≡ k.ready_queue)
        × Same i j
        × InLine k.net c j.last_proc
        × (j.con_id ≡ con)
        × (j.communication_time ≡ start))

module _ (l : Link) (added : l.added ≡ true) (held : List Instance) (c : ℕ) (k₀ : Kernel)
    (i₀ : Instance) where
  write-Out :
      (k : Kernel) (i : Instance) (dst : ℕ) (con start fd : ℤ) (buffer : List ℕ)
      → length buffer ≤ room l.puts
      → Untouched k₀ k
      → Same i₀ i
      → InLine k₀.net c dst
      → InTurn k.net c
      → Pool k (i ∷ held)
      → Ensures
          (Out k₀ held i₀ c buffer con start)
          Never
          ((write_frame l fd buffer >>= await_ack l.added fd (sent_by i dst con start)) k)
  unfolding write_frame
  write-Out k i dst con start fd buffer enough (same, waits, ready) kept line turn p =
      rw ((write_loop_lem l.puts buffer enough).0, added)
        (
          refl,
          park-Pool sent held (sent_by i dst con start) (acknowledgement fd) p,
          turn,
          (
            fd,
            sent_by i dst con start,
            ap (λ w. w ++ (fd, buffer) ∷ []) same,
            ap (λ w. w ++ (sent_by i dst con start, acknowledgement fd) ∷ []) waits,
            ready,
            kept,
            line,
            refl,
            refl,
          ),
        )
    where
      sent : Kernel
      sent = record k { net = record (k.net) { written = k.net.written ++ (fd, buffer) ∷ [] } }

  to_process :
      (k : Kernel) (i : Instance) (dst : ℕ) (con start : ℤ) (buffer : List ℕ)
      (o : Option (ℤ × Fifo ℤ))
      → length buffer ≤ room l.puts
      → Untouched k₀ k
      → Same i₀ i
      → InLine k₀.net c dst
      → InTurn k.net c
      → Pool k (i ∷ held)
      → Ensures (Out k₀ held i₀ c buffer con start) Never (
          ((socket_or_connect l dst o >>= λ f. pure (or_two i f)) >>= λ (fd, j).
          write_frame l fd buffer >>= await_ack l.added fd (sent_by j dst con start))
            k)
  to_process k i dst con start buffer (some (fd, q)) enough same kept line turn p =
      write-Out _ i dst con start fd buffer enough same kept line turn p
  to_process k i dst con start buffer none enough same kept line turn p = fresh (l.connect dst)
    where
      fresh :
          (f : Connect)
          → Ensures (Out k₀ held i₀ c buffer con start) Never (
              (pure (or_two i f) >>= λ (fd, j).
              write_frame l fd buffer >>= await_ack l.added fd (sent_by j dst con start))
                k)
      fresh (connected fd) = write-Out k i dst con start fd buffer enough same kept line turn p
      fresh bad_address =
          write-Out k (or_two i bad_address).1 dst con start (pos 2) buffer enough same kept line
            turn p
      fresh no_socket =
          write-Out k (or_two i no_socket).1 dst con start (pos 2) buffer enough same kept line turn
            p
      fresh no_connection =
          write-Out k (or_two i no_connection).1 dst con start (pos 2) buffer enough same kept line
            turn p

pub send_async_event-Pool :
    (l : Link) (k : Kernel) (held : List Instance) (i : Instance) (s_id con start : ℤ)
    (payload : List ℕ)
    → as_size s_id < k.n_s
    → InTurn k.net (k.net.cluster (as_size s_id))
    → length (frame s_id payload) ≤ room l.puts
    → l.added ≡ true
    → Pool k (i ∷ held)
    → Ensures
        (Out k held i (k.net.cluster (as_size s_id)) (frame s_id payload) con start)
        Never
        (send_async_event l i s_id con start payload k)
unfolding send_async_event slot_at choose_process get_socket event_get_process_sock next_destination
    atomic_fetch_and_store
send_async_event-Pool l k held i s_id con start payload lt turn enough added p =
    rw (lt→ltb _ _ lt) (chosen (k.net.processes c) refl)
  where
    c : ℕ
    c = k.net.cluster (as_size s_id)

    d : ℕ
    d = turn.0

    moved_on : List ℕ → Kernel
    moved_on ps = record k {
      net = record (k.net) {
        cur_process =
            update (k.net.cur_process) c (next_destination (length ps) (k.net.cur_process c)).1;
      };
    }

    goal : List ℕ → Type 0
    goal ps = Ensures (Out k held i c (frame s_id payload) con start) Never (
        (pick c ps >>= λ dst. event_get_process_sock l i dst >>= λ (fd, j).
        write_frame l fd (frame s_id payload) >>= await_ack l.added fd (sent_by j dst con start))
          k)

    chosen : (ps : List ℕ) → k.net.processes c ≡ ps → goal ps
    chosen [] e = absurd (omega (arith, turn.2, ap length e))
    chosen (q ∷ qs) e =
        let (dst, found) = index-within (q ∷ qs) d (omega (arith, turn.2, ap length e)) in
        rw (ap as_size turn.1, found)
          (to_process l added held c k i (moved_on (q ∷ qs)) i dst con start (frame s_id payload)
            (Fifo.try_pop (k.net.sockets dst)) enough (refl, refl, refl) (refl, refl)
            (rw (e, turn.1) found)
            (
              suc d % length (q ∷ qs),
              ap (λ a. a.i)
                    (update_self (k.net.cur_process) c
                      (next_destination (length (q ∷ qs)) (k.net.cur_process c)).1)
                  ∙ next-counter (length (q ∷ qs)) d (k.net.cur_process c) turn.1,
              subst (λ ps. suc d % length (q ∷ qs) < length ps) (sym e)
                  (mod-lt (suc d) (omega arith)),
            )
            p)

resumed :
    (k : Kernel) (held : List Instance) (i : Instance) (c : ℤ) (vs : List Value)
    → Pool k (i ∷ held)
    → Ensures (Given held) (Sleeps held i.stage) ((count_acknowledged i c >> resume_with i vs) k)
resumed k held i (negsuc c) vs p = resume-Pool k held i vs p
resumed k held i (pos c) vs p = resume-Pool _ held i vs p

recycled :
    (k : Kernel) (held : List Instance) (i : Instance) (fd : ℤ) (o : Option (Fifo ℤ))
    (vs : List Value)
    → Pool k (i ∷ held)
    → Ensures
        (Given held)
        (Sleeps held i.stage)
        ((keep_or_close fd i.last_proc o >> (count_acknowledged i i.con_id >> resume_with i vs)) k)
recycled k held i fd none vs p = resumed _ held i i.con_id vs p
recycled k held i fd (some q) vs p = resumed _ held i i.con_id vs p

-- Whatever the socket brings to an instance that waits for the answer of another process (an answer, its end, nothing or an error), the instance goes to the ready queue, once, and every stage's tables keep fitting.
pub do_read_ack-Pool :
    (k : Kernel) (held : List Instance) (i : Instance) (fd : ℤ) (r : Read)
    → Pool k (i ∷ held)
    → Ensures (Given held) (Sleeps held i.stage) (do_read_ack i fd r k)
unfolding do_read_ack recycle_socket
do_read_ack-Pool k held i fd (received []) p = resume-Pool _ held i _ p
do_read_ack-Pool k held i fd (received (b ∷ [])) p = elim (Bool-cases (b == 1)) [
  | inl e ↦ rw e (recycled k held i fd (Fifo.try_push (k.net.sockets i.last_proc) fd) _ p)
  | inr e ↦ rw e (resume-Pool _ held i _ p)
]
do_read_ack-Pool k held i fd (received (b ∷ c ∷ bs)) p = resume-Pool _ held i _ p
do_read_ack-Pool k held i fd read_again p = resume-Pool _ held i _ p
do_read_ack-Pool k held i fd read_failed p = resume-Pool _ held i _ p
