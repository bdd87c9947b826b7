-- ===== src/Api/Opening.antt =====
-- source/api.c: `openFile`. The file of that name on the client's disk has to open for reading, which
-- is a parameter.
use file_storage_server.Prelude.{
  ℕ, Bool, not, ◌&&◌, List, [], ltb, ◌==◌, if◌then◌else◌, ℤ, pos, negsuc,
}
use file_storage_server.Run.{Run, ok, fault, ◌>>=◌}
use file_storage_server.Text.{Text}
use file_storage_server.Protcol
use file_storage_server.Protcol.{Request, has_flag}
use file_storage_server.Api.{ebadf, einval, enoent, Result, returns, fails, read_int, make_request}
use file_storage_server.Api.Backup.{read_parts}

-- the request that carries the flags
abbrev pub open_request : Text → ℤ → Request
unfolding make_request
open_request path flags = record (make_request path Protcol.open_file) { flags = flags }

-- What the calls return behind O_CREATE and O_CRLK. A full server sends a file, which is dropped; its
-- name goes into 130 bytes.
unfoldable pub create_answer : List ℕ → Run (Result × List ℕ)
unfolding read_int read_parts
create_answer stream = do
  (result, rest) ← read_int stream
  if result == Protcol.success
      then ok (returns (pos 1), rest)
      else if result == Protcol.yes_contain
      then ok (returns (negsuc 0), rest)
      else if result == Protcol.too_much_file
      then (do
        ((len, namefile, cont), rest') ← read_parts rest
        if ltb len 130 then ok (returns (pos 1), rest') else fault)
      else ok (returns (negsuc 0), rest)

-- and behind O_LOCK and O_OPEN
unfoldable pub present_answer : List ℕ → Run (Result × List ℕ)
unfolding read_int
present_answer stream = do
  (result, rest) ← read_int stream
  ok (returns (if result == Protcol.success then pos 1 else negsuc 0), rest)

module _ (realpath : Text → Text) (readable : Text → Bool) (fd_skt : ℤ)
    (answer : Request → List ℕ) where
  -- `switch (flags)`, with the answer to the request
  unfoldable pub switch_flags : Text → ℤ → Run (Result × List ℕ)
  unfolding create_answer present_answer has_flag
  switch_flags pathname flags =
      let stream = answer (open_request (realpath pathname) flags) in
      if has_flag flags Protcol.o_create
      then create_answer stream
      else if has_flag flags Protcol.o_crlk
      then create_answer stream
      else if has_flag flags Protcol.o_lock
      then present_answer stream
      else if has_flag flags Protcol.o_open
      then present_answer stream
      else ok (returns (negsuc 0), [])

  -- `openFile`: what it returns, and what is left to read on the socket
  unfoldable pub open_file : Text → ℤ → Run (Result × List ℕ)
  unfolding switch_flags
  open_file pathname flags = elim fd_skt [
    | negsuc n ↦ ok (fails ebadf, [])
    | pos n ↦
        if not (has_flag flags Protcol.o_open)
          && (not (has_flag flags Protcol.o_create) && not (has_flag flags Protcol.o_lock))
        then ok (fails einval, [])
        else if not (readable pathname)
        then ok (fails enoent, [])
        else switch_flags pathname flags
  ]
