-- ===== src/Api/Sending.antt =====
-- source/api.c: `writeFile` and `appendToFile`, which send contents behind the request and may get
-- files back.
use file_storage_server.Prelude.{
  ℕ, zero, suc, Bool, true, false, List, [], Option, none, some, ◌==◌, if◌then◌else◌, length, ℤ,
  pos, negsuc,
}
use file_storage_server.Run.{Run, ok, ◌>>=◌}
use file_storage_server.Text.{Text}
use file_storage_server.Protcol
use file_storage_server.Protcol.{Request}
use file_storage_server.Api.{ebadf, einval, enoent, Result, returns, fails, read_int, make_request}
use file_storage_server.Api.Backup.{Disk, Saved, left, kept, no_directory, no_file, receive, save}

-- a request with contents behind it
abbrev pub content_request : Text → ℕ → List ℕ → Request
unfolding make_request
content_request path op bytes = record (make_request path op) {
  size = length bytes;
  contenuto = some bytes;
}

-- The loop over the `n` files that come back: whether it went through, the writes of files, and what is
-- left on the socket.
unfoldable pub receive_all : Disk → Option Text → ℕ → Saved → List ℕ → Run (Bool × Saved × List ℕ)
unfolding receive
receive_all disk dirname zero saved stream = ok (true, saved, stream)
receive_all disk dirname (suc n) saved stream = receive disk dirname stream >>= λ r. elim r.0 [
  | left ↦ receive_all disk dirname n saved r.1
  | kept name cont ↦ receive_all disk dirname n (save (kept name cont) saved) r.1
  | no_directory ↦ ok (false, saved, r.1)
  | no_file ↦ ok (false, saved, r.1)
]

module _ (realpath : Text → Text) (disk : Disk) (contents_of : Text → Option (List ℕ)) (fd_skt : ℤ)
    (answer : Request → List ℕ) where
  -- behind SERVERFULL: `value` if all the files were read
  unfoldable pub full_answer : ℤ → Option Text → List ℕ → Run (Result × Saved × List ℕ)
  unfolding receive_all read_int
  full_answer value dirname stream = do
    (n, rest) ← read_int stream
    (through, saved, rest') ← receive_all disk dirname n [] rest
    ok ((if through then returns value else fails ebadf), saved, rest')

  -- `writeFile`; the name is NULL or a file that the client can read, whose contents go to the server
  unfoldable pub write_file : Option Text → Option Text → Run (Result × Saved × List ℕ)
  unfolding full_answer
  write_file pathname dirname = elim fd_skt [
    | negsuc n ↦ ok (fails ebadf, [], [])
    | pos n ↦ elim pathname [
      | none ↦ ok (fails einval, [], [])
      | some path ↦ elim (contents_of path) [
        | none ↦ ok (fails enoent, [], [])
        | some bytes ↦
            read_int (answer (content_request (realpath path) Protcol.write_file bytes)) >>= λ r.
            if r.0 == Protcol.success
            then ok (returns (pos 1), [], r.1)
            else if r.0 == Protcol.server_full
            then full_answer (pos 1) dirname r.1
            else ok (returns (negsuc 0), [], r.1)
      ]
    ]
  ]

  -- `appendToFile`
  unfoldable pub append_to_file : Text → List ℕ → Option Text → Run (Result × Saved × List ℕ)
  unfolding full_answer
  append_to_file pathname buf dirname = elim fd_skt [
    | negsuc n ↦ ok (fails ebadf, [], [])
    | pos n ↦
        read_int (answer (content_request (realpath pathname) Protcol.append_file buf)) >>= λ r.
        if r.0 == Protcol.success
        then ok (returns (pos 1), [], r.1)
        else if r.0 == Protcol.server_full
        then full_answer (negsuc 0) dirname r.1
        else ok (returns (negsuc 0), [], r.1)
  ]
