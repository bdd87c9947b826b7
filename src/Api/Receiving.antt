-- ===== src/Api/Receiving.antt =====
-- source/api.c: `readNFiles`.
use file_storage_server.Prelude.{
  ℕ, zero, suc, List, [], ◌∷◌, Option, none, some, ◌==◌, if◌then◌else◌, ℤ, pos, negsuc,
}
use file_storage_server.Run.{Run, ok, fault, ◌>>=◌}
use file_storage_server.Text.{Text}
use file_storage_server.Protcol
use file_storage_server.Protcol.{Request}
use file_storage_server.Api.{ebadf, Result, returns, fails, read_int, make_request}
use file_storage_server.Api.Backup.{
  Disk, Saved, left, kept, no_directory, no_file, lettura_file, save,
}

-- `while (number > 0) letturafile(...)`; where a file cannot be made the process exits (`none`)
unfoldable pub read_all : Disk → Option Text → ℕ → Saved → List ℕ → Run (Option (Saved × List ℕ))
unfolding lettura_file
read_all disk dirname zero saved stream = ok (some (saved, stream))
read_all disk dirname (suc n) saved stream = lettura_file disk dirname stream >>= λ r. elim r.0 [
  | left ↦ read_all disk dirname n saved r.1
  | kept name cont ↦ read_all disk dirname n (save (kept name cont) saved) r.1
  | no_directory ↦ fault
  | no_file ↦ ok none
]

-- the request, with the path name "readN"
unfoldable pub read_n_request : ℤ → Request
unfolding make_request
read_n_request n = record (make_request (114 ∷ 101 ∷ 97 ∷ 100 ∷ 78 ∷ []) Protcol.read_n) {
  flags = n;
}

-- what the call returns, the writes of files, and what is left on the socket; none if it exits
unfoldable pub read_n_files :
    Disk → ℤ → (Request → List ℕ) → ℤ → Option Text → Run (Option (Result × Saved × List ℕ))
unfolding read_all read_int
read_n_files disk fd_skt answer n dirname = elim fd_skt [
  | negsuc _ ↦ ok (some (fails ebadf, [], []))
  | pos _ ↦ read_int (answer (read_n_request n)) >>= λ r.
      if r.0 == Protcol.success
      then (read_int r.1 >>= λ m. read_all disk dirname m.0 [] m.1 >>= λ got. elim got [
        | none ↦ ok none
        | some g ↦ ok (some (returns (pos 1), g.0, g.1))
      ])
      else ok (some (returns (negsuc 0), [], r.1))
]
