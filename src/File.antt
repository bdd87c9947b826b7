-- ===== src/File.antt =====
-- source/file.c and header/file.h: a stored file, and the operations on one.
-- `cont` is the block that the pointer reaches: none if the pointer was never set or is dangling.
use file_storage_server.Prelude.{
  ℕ, ◌≡◌, List, [], Option, none, some, ◌==◌, leb, if◌then◌else◌, length, take,
}
use file_storage_server.Run.{Run, ok, fault, ◌>>=◌}
use file_storage_server.Text.{Text}

-- `struct fil`, without its mutex
pub record File : Type 0 where
  pub isopen : ℕ
  pub path_name : Text
  pub cont : Option (List ℕ)
  pub dim : ℕ
  pub fd : ℕ
  pub lock : ℕ

-- reading `n` bytes behind a pointer: past the end of the block it is a fault
unfoldable pub read_block : Option (List ℕ) → ℕ → Run (List ℕ)
read_block none n = if n == 0 then ok [] else fault
read_block (some b) n = if leb n (length b) then ok (take n b) else fault

-- `free` of a pointer: one that was never set, or was freed before, is a fault
unfoldable pub free_block : Option (List ℕ) → Run (Unit {0})
free_block none = fault
free_block (some b) = ok tt

-- a file whose contents pointer was set
abbrev pub IsWritten : File → Type 0
IsWritten f = (b : List ℕ) × (f.cont ≡ some b)

-- `raw` is what the memory held that `malloc` gives: `dim` stays what it was in it, and `cont` is a
-- pointer that was never set
unfoldable pub filecreate : File → Text → ℕ → File
filecreate raw path fd = record raw { fd = fd; isopen = 0; lock = 0; path_name = path; cont = none }

unfoldable pub open_file : File → File
open_file f = record f { isopen = 1 }

unfoldable pub lock_file : File → File
lock_file f = record f { lock = 1 }

unfoldable pub unlock_file : File → File
unlock_file f = record f { lock = 0 }

unfoldable pub close_file : File → File
close_file f = record f { isopen = 0 }

unfoldable pub append_file : File → Option (List ℕ) → ℕ → Run File
append_file f cont dim =
    read_block cont dim >>= λ copy. ok (record f { dim = dim; cont = some copy })
