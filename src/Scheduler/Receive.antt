-- ===== src/Scheduler/Receive.antt =====
-- `read_event`, `do_read` and `do_accept` of src/kernel/event.c: an event that another process sent. The header is
-- read by one call; where that brings fewer bytes, what the stack held before stands in their place.
-- `acked` tells whether the answer could be written.
use leda.Prelude.{
  ℕ, suc, ◌%◌, ◌^◌, Bool, true, false, List, [], ◌∷◌, ◌++◌, length, take, drop, ◌==◌, if◌then◌else◌,
}
use leda.Prelude.Int.{ℤ, pos, negsuc, ltb_ℤ, leb_ℤ, eqb_ℤ}
use leda.Kernel.{M, pure, ◌>>=◌}
use leda.Instance.{as_size}
use leda.Scheduler.{Platform, emmit_packed_event}
use leda.Remote.Wire.{
  event_type, init_type, header_size, of_le, signed32, Got, Read, received, read_again, read_failed,
  read, Body, complete, closed_early, body_error, read_body,
}

-- The result of `read_event`, and the bytes that it wrote back.
abbrev pub Answer : Type 0
Answer = ℤ × List ℕ

abbrev pub answer : Bool → ℕ → ℤ → ℤ → Answer
answer true byte written unwritten = (written, byte ∷ [])
answer false byte written unwritten = (unwritten, [])

-- After `emmit_packed_event`.
abbrev pub acknowledge : Bool → ℤ → Answer
acknowledge acked res = answer acked (if eqb_ℤ res (pos 0) then 1 else 2) (pos 0) (pos 1)

abbrev pub deliver_body : Platform → Bool → ℤ → Body → M Answer
deliver_body p acked s_id (complete buf rest) =
    emmit_packed_event p (as_size s_id) buf >>= λ res. pure (acknowledge acked res)
deliver_body p acked s_id closed_early = pure (pos 1, [])
deliver_body p acked s_id body_error = pure (negsuc 0, [])

-- From the length on. The test is on `(int)len`.
unfoldable pub receive_body : Platform → Bool → ℤ → ℕ → List Got → M Answer
receive_body p acked s_id len s =
    if leb_ℤ (signed32 (len % 2 ^ 32)) (pos 0)
    then pure (negsuc 0, [])
    else deliver_body p acked s_id (read_body len [] s)

abbrev pub first_byte : List ℕ → ℕ
first_byte [] = 0
first_byte (b ∷ bs) = b

-- From the type of the message on.
unfoldable pub receive_message : Platform → Bool → List ℕ → List Got → M Answer
receive_message p acked h s =
    if first_byte h == init_type
    then pure (answer acked 4 (negsuc 0) (pos 1))
    else if first_byte h == event_type
    then receive_body p acked (signed32 (of_le (take 4 (drop 1 h)))) (of_le (take 8 (drop 5 h))) s
    else pure (answer acked 3 (negsuc 0) (negsuc 1))

abbrev pub receive_header : Platform → Bool → List ℕ → Read × List Got → M Answer
receive_header p acked garbage (received [], s) = pure (negsuc 0, [])
receive_header p acked garbage (received (b ∷ bs), s) =
    receive_message p acked (take header_size (b ∷ bs ++ drop (suc (length bs)) garbage)) s
receive_header p acked garbage (read_again, s) = pure (negsuc 0, [])
receive_header p acked garbage (read_failed, s) = pure (negsuc 0, [])

-- `read_event`
unfoldable pub read_event : Platform → Bool → List ℕ → List Got → M Answer
read_event p acked garbage s = receive_header p acked garbage (read header_size s)

-- `do_read`: whether the socket is closed, and the bytes that went back.
unfoldable pub do_read : Platform → Bool → List ℕ → List Got → M (Bool × List ℕ)
do_read p acked garbage s =
    read_event p acked garbage s >>= λ a. pure ((if eqb_ℤ a.0 (pos 0) then false else true), a.1)

-- What becomes of a connection: there is none, it is closed, or `do_read` is called when it has bytes.
pub data Accepted : Type 0 where
  refused : Accepted
  closed_again : ℤ → Accepted
  watched : ℤ → Accepted

-- `do_accept`, for what `accept` returns and the system's FD_SETSIZE.
unfoldable pub do_accept : ℤ → ℤ → Accepted
do_accept fd_setsize fd =
    if ltb_ℤ fd (pos 0)
    then refused
    else if ltb_ℤ fd_setsize fd
    then closed_again fd
    else watched fd
