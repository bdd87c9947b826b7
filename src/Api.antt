-- ===== src/Api.antt =====
-- source/api.c: the client's calls that carry one path name and wait for one answer. The other calls
-- are in Api/Connect, Api/Opening, Api/Sending and Api/Receiving, over the files of Api/Backup.
-- The socket is a parameter: `answer r` is what comes back when the request `r` is sent. So is
-- `realpath` of the C library. Prints are left out.
pub mod Delivery
pub mod Backup
pub mod Opening
pub mod Parts
pub mod Sending
pub mod Receiving
pub mod Connect
pub mod Creation
pub mod Surplus
pub mod Returned
pub mod Attempts
use file_storage_server.Prelude.{
  ℕ, ◌+◌, ◌<◌, Bool, true, false, List, [], ◌∷◌, ◌++◌, Option, none, some, ◌==◌, if◌then◌else◌, leb,
  length, take, drop, ℤ, pos, negsuc,
}
use file_storage_server.Run.{Run, ok, fault, ◌>>=◌, deref}
use file_storage_server.Text.{Text}
use file_storage_server.Protcol
use file_storage_server.Protcol.{Request, bytes_int}

-- the values of `errno` that the calls set
pub data Errno : Type 0 where
  no_error ebadf enotconn einval enoent : Errno

-- what a call returns, and `errno` behind it
pub record Result : Type 0 where
  pub value : ℤ
  pub errno : Errno

abbrev pub returns : ℤ → Result
returns v = record { value = v; errno = no_error }

abbrev pub fails : Errno → Result
fails e = record { value = negsuc 0; errno = e }

-- What `readn` of Protcol.Buffers comes to for `n` bytes of a connection that does not fail, into a
-- variable that is not set before: at the end of the stream the variable is read uninitialised
unfoldable pub readn : ℕ → List ℕ → Run (List ℕ × List ℕ)
readn n stream = if leb n (length stream) then ok (take n stream, drop n stream) else fault

-- `readn(fd_skt, &result, sizeof(int))`
unfoldable pub read_int : List ℕ → Run (ℕ × List ℕ)
unfolding readn bytes_int
read_int stream = readn 4 stream >>= λ b. deref (bytes_int b.0) >>= λ n. ok (n, b.1)

-- a request with no payload
unfoldable pub make_request : Text → ℕ → Request
make_request path op = record {
  pathname = path;
  size = 0;
  flags = pos 0;
  fd = 0;
  op = op;
  contenuto = none;
}

module _ (realpath : Text → Text) (fd_skt : ℤ) (answer : Request → List ℕ) where
  -- the answers to LOCKS: every code but SUCCESS is -1
  unfoldable pub lock_file : Text → Run Result
  unfolding read_int make_request
  lock_file pathname = elim fd_skt [
    | negsuc n ↦ ok (fails ebadf)
    | pos n ↦ do
      (result, rest) ← read_int (answer (make_request (realpath pathname) Protcol.locks))
      ok (returns (if result == Protcol.success then pos 1 else negsuc 0))
  ]

  unfoldable pub unlock_file : Text → Run Result
  unfolding read_int make_request
  unlock_file pathname = elim fd_skt [
    | negsuc n ↦ ok (fails ebadf)
    | pos n ↦ do
      (result, rest) ← read_int (answer (make_request (realpath pathname) Protcol.unlocks))
      ok (returns (if result == Protcol.success then pos 1 else negsuc 0))
  ]

  unfoldable pub close_file : Text → Run Result
  unfolding read_int make_request
  close_file pathname = elim fd_skt [
    | negsuc n ↦ ok (fails ebadf)
    | pos n ↦ do
      (result, rest) ← read_int (answer (make_request (realpath pathname) Protcol.close_file))
      ok (returns (if result == Protcol.success then pos 1 else negsuc 0))
  ]

  unfoldable pub remove_file : Text → Run Result
  unfolding read_int make_request
  remove_file pathname = elim fd_skt [
    | negsuc n ↦ ok (fails ebadf)
    | pos n ↦ do
      (result, rest) ← read_int (answer (make_request (realpath pathname) Protcol.remove_file))
      ok (returns (if result == Protcol.success then pos 1 else negsuc 0))
  ]

  -- `readFile`, with what it leaves in `*buf` and `*size`
  unfoldable pub read_file : Text → Run (Result × Option (List ℕ × ℕ))
  unfolding read_int readn make_request
  read_file pathname = elim fd_skt [
    | negsuc n ↦ ok (fails ebadf, none)
    | pos n ↦ do
      (result, rest) ← read_int (answer (make_request (realpath pathname) Protcol.read_file))
      if result == Protcol.success
          then (do
            (dim, rest') ← read_int rest
            (cont, rest'') ← readn dim rest'
            ok (returns (pos 1), some (cont, dim)))
          else ok (returns (negsuc 0), none)
  ]
