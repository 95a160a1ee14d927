-- ===== src/Remote/Wire.antt =====
-- Events on a socket: the framing of `send_async_event` and `send_sync_event` of src/kernel/event.c, and
-- the loops that write a frame and read its payload. A byte is a number below 256; both ends keep
-- numbers with the low byte first. What the calls of `read` and `write` on a socket come to is a list,
-- one entry for each time that something arrives or leaves.
pub mod Bytes
pub mod Transfer
use leda.Prelude.{
  ℕ, zero, suc, ◌+◌, ◌-◌, ◌*◌, ◌/◌, ◌%◌, ◌^◌, Bool, true, false, List, [], ◌∷◌, ◌++◌, length, take,
  drop, ltb, leb, if◌then◌else◌,
}
use leda.Prelude.Int.{ℤ, pos, negsuc}

-- A number in `w` bytes, and back.
unfoldable pub le_bytes : ℕ → ℕ → List ℕ
le_bytes zero n = []
le_bytes (suc w) n = n % 256 ∷ le_bytes w (n / 256)

unfoldable pub of_le : List ℕ → ℕ
of_le [] = 0
of_le (b ∷ bs) = b + 256 * of_le bs

-- An `int` as 32 bits, and 32 bits as an `int`.
unfoldable pub int_bits : ℤ → ℕ
int_bits (pos n) = n % 2 ^ 32
int_bits (negsuc n) = (2 ^ 32 - suc n % 2 ^ 32) % 2 ^ 32

unfoldable pub signed32 : ℕ → ℤ
signed32 n = if ltb n (2 ^ 31) then pos n else negsuc (2 ^ 32 - n - 1)

abbrev pub event_type : ℕ
event_type = 28

abbrev pub init_type : ℕ
init_type = 27

-- `sizeof(stage_id)+sizeof(size_t)+1`
abbrev pub header_size : ℕ
header_size = 13

-- The header: the type, the stage id and the length of the payload.
unfoldable pub header : ℤ → ℕ → List ℕ
header s_id len = event_type ∷ (le_bytes 4 (int_bits s_id) ++ le_bytes 8 (len % 2 ^ 64))

-- The buffer that a sender fills.
unfoldable pub frame : ℤ → List ℕ → List ℕ
frame s_id payload = header s_id (length payload) ++ payload

-- What `write` comes to: it takes some bytes, it says EAGAIN, or it fails.
pub data Put : Type 0 where
  took : ℕ → Put
  put_again put_failed : Put

-- How a write loop ends, with the bytes that the socket took; `writing` if the list ends before.
pub data Wrote : Type 0 where
  wrote_all : List ℕ → Wrote
  wrote_error : List ℕ → Wrote
  writing : List ℕ → Wrote

-- `while(offset<len+h_offset)`, from a state in which `out` is written and `buffer` is left.
pub write_loop : List Put → List ℕ → List ℕ → Wrote
write_loop puts out [] = wrote_all out
write_loop [] out (b ∷ bs) = writing out
write_loop (took n ∷ puts) out (b ∷ bs) = write_loop puts (out ++ take n (b ∷ bs)) (drop n (b ∷ bs))
write_loop (put_again ∷ puts) out (b ∷ bs) = write_loop puts out (b ∷ bs)
write_loop (put_failed ∷ puts) out (b ∷ bs) = wrote_error out

-- What `read` finds: bytes, at least one, nothing yet (EAGAIN), or an error. The end of the list is
-- the end of the stream.
pub data Got : Type 0 where
  got : ℕ → List ℕ → Got
  got_again got_failed : Got

pub data Read : Type 0 where
  received : List ℕ → Read
  read_again read_failed : Read

-- The bytes that a call leaves stay in front.
abbrev pub put_back : List ℕ → List Got → List Got
put_back [] s = s
put_back (b ∷ bs) s = got b bs ∷ s

-- One call of `read` for at most `n` bytes.
unfoldable pub read : ℕ → List Got → Read × List Got
read n [] = (received [], [])
read n (got b bs ∷ s) = (received (take n (b ∷ bs)), put_back (drop n (b ∷ bs)) s)
read n (got_again ∷ s) = (read_again, s)
read n (got_failed ∷ s) = (read_failed, s)

-- How the loop that reads a payload ends: with all of it, at the end of the stream, or with an error.
pub data Body : Type 0 where
  complete : List ℕ → List Got → Body
  closed_early body_error : Body

-- `while(readed<len)`: `n` bytes are left to read, `buf` holds those before. More than `n` bytes at
-- once end the loop, so each round takes an entry of the list.
pub read_body : ℕ → List ℕ → List Got → Body
read_body zero buf s = complete buf s
read_body (suc n) buf [] = closed_early
read_body (suc n) buf (got_again ∷ s) = read_body (suc n) buf s
read_body (suc n) buf (got_failed ∷ s) = body_error
read_body (suc n) buf (got b bs ∷ s) =
    let more = read_body (n - length bs) (buf ++ b ∷ bs) s in
    if leb (length bs) n
    then more
    else complete (buf ++ take (suc n) (b ∷ bs)) (put_back (drop (suc n) (b ∷ bs)) s)
