-- ===== src/Files.antt =====
-- Files that instances read and write: src/kernel/extra/leda-io.c, and the part of `event_aio_op_ready` of
-- src/kernel/event.c that moves a file's position. What a request delivers is an argument.
pub mod Reads
pub mod Handles
mod Examples
use leda.Prelude.{
  ℕ, ◌+◌, Bool, true, false, Option, none, some, List, [], ◌∷◌, length, update, ◌==◌, suc,
  if◌then◌else◌,
}
use leda.Prelude.Int.{ℤ, pos, negsuc, ltb_ℤ}
use leda.Lua.{Value, userdata, light_userdata}
use leda.Kernel.{Instance}
use leda.Wait.{Completion, read_done, write_done}

-- A descriptor's file, with the position that `lseek` tells and moves.
pub record OpenFile : Type 0 where
  pub bytes : List ℕ
  pub position : ℕ

pub data Opcode : Type 0 where
  pread pwrite : Opcode

-- `struct iocb`, without the fields that are the same for every request. The buffer of a read has its
-- bytes when it is done.
pub record Iocb : Type 0 where
  pub aio_data : Instance
  pub aio_fildes : ℕ
  pub aio_lio_opcode : Opcode
  pub aio_buf : List ℕ
  pub aio_nbytes : ℕ
  pub aio_offset : ℕ

-- `asyio_prep_pread`
unfoldable pub asyio_prep_pread : ℕ → ℕ → ℕ → Instance → Iocb
asyio_prep_pread fd nr_segs offset data_ = record {
  aio_data = data_;
  aio_fildes = fd;
  aio_lio_opcode = pread;
  aio_buf = [];
  aio_nbytes = nr_segs;
  aio_offset = offset;
}

-- `asyio_prep_pwrite`
unfoldable pub asyio_prep_pwrite : ℕ → List ℕ → ℕ → ℕ → Instance → Iocb
asyio_prep_pwrite fd buf nr_segs offset data_ = record {
  aio_data = data_;
  aio_fildes = fd;
  aio_lio_opcode = pwrite;
  aio_buf = buf;
  aio_nbytes = nr_segs;
  aio_offset = offset;
}

-- `aio_submit_read`, where `malloc` succeeds: the request, or -1 if `io_submit` does not take it.
unfoldable pub aio_submit_read : Bool → (ℕ → OpenFile) → ℕ → ℕ → Instance → Option Iocb
aio_submit_read taken files fd size data_ =
    if taken then some (asyio_prep_pread fd size (files fd).position data_) else none

-- `aio_submit_write`
unfoldable pub aio_submit_write : Bool → (ℕ → OpenFile) → ℕ → List ℕ → Instance → Option Iocb
aio_submit_write taken files fd buf data_ =
    if taken then some (asyio_prep_pwrite fd buf (length buf) (files fd).position data_) else none

-- `lseek(fd,res,SEEK_CUR)`
abbrev pub seek : ℕ → ℕ → (ℕ → OpenFile) → ℕ → OpenFile
seek fd n files = update files fd (record (files fd) { position = (files fd).position + n })

abbrev pub read_result : Iocb → ℤ → List ℕ → (ℕ → OpenFile) → (ℕ → OpenFile) × Completion
read_result cb (pos (suc n)) bytes files =
    (seek cb.aio_fildes (suc n) files, read_done (pos (suc n)) bytes)
read_result cb res bytes files = (files, read_done res [])

abbrev pub write_result : Iocb → ℤ → (ℕ → OpenFile) → (ℕ → OpenFile) × Completion
write_result cb (pos (suc n)) files = (seek cb.aio_fildes (suc n) files, write_done (pos (suc n)))
write_result cb res files = (files, write_done res)

-- One round of the loop in `event_aio_op_ready`: the result of the request, and the bytes that a read put
-- into the buffer.
unfoldable pub finish_aio : Iocb → ℤ → List ℕ → (ℕ → OpenFile) → (ℕ → OpenFile) × Completion
finish_aio cb res bytes files = elim (cb.aio_lio_opcode) [
  | pread ↦ read_result cb res bytes files
  | pwrite ↦ write_result cb res files
]

-- The `FILE *` in each file handle of Lua, 0 for NULL, and the next handle.
pub record FileHandles : Type 0 where
  pub file : ℕ → ℕ
  pub next : ℕ

-- `leda_wrap_io`
unfoldable pub leda_wrap_io : ℕ → FileHandles → Value × FileHandles
leda_wrap_io h s = (light_userdata (s.file h), record s { file = update (s.file) h 0 })

-- `leda_unwrap_io`: with NULL it says that it returns nothing.
unfoldable pub leda_unwrap_io : Value → FileHandles → Option (List Value × FileHandles)
leda_unwrap_io (light_userdata f) s = some (
  if f == 0 then [] else userdata s.next ∷ [],
  record s { file = update (s.file) (s.next) f; next = suc (s.next) },
)
leda_unwrap_io _ s = none
