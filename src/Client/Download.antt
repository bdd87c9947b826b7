-- ===== src/Client/Download.antt =====
-- source/client.c: `letturaFiles`, which reads files from the server, for the download folder if there is
-- one. Whether `malloc` leaves room for one byte more than it is asked for is a parameter, since the
-- copy of the name needs it.
pub mod Saves
use file_storage_server.Prelude.{
  ℕ, Bool, true, false, List, [], ◌∷◌, ◌++◌, Option, none, some, ℤ, pos, negsuc, ◌==◌,
  if◌then◌else◌, length,
}
use file_storage_server.Run
use file_storage_server.Run.{Run, ok, fault}
use file_storage_server.Text.{Text}
use file_storage_server.Protcol
use file_storage_server.Api.Backup.{Disk, Saved, Kept, left, kept, no_directory, no_file, store_in}
use file_storage_server.Client.{Do, ◌>>=◌, ◌>>◌, return, Calls, Options, pause}
use file_storage_server.Client.Files.{is_one}

-- `result2`, `buf` with `size` (none before the first read and once it is freed), and the writes of files
pub record Reader : Type 0 where
  pub result2 : ℤ
  pub buf : Option (List ℕ × ℕ)
  pub saved : Saved

-- whether the function goes on, or returns -1
pub data Next : Type 0 where
  next : Reader → Next
  stopped : Saved → Next

module _ {C : Type 0} (calls : Calls C) (o : Options) (disk : Disk) (roomy : ℕ → Bool) where
  -- the block for `fwrite`, which writes nothing of size 0 and then counts as failed
  abbrev pub write_out : Text → Text → Reader → Do C Next
  write_out path filename r c = elim r.buf [
    | none ↦ fault
    | some b ↦
        (if b.1 == 0 then return (stopped (r.saved ++ (filename, []) ∷ [])) else (do
          pause calls o o.seconds
          calls.close_file path
          return (next (record r { buf = none; saved = r.saved ++ (filename, b.0) ∷ [] }))))
          c
  ]

  -- what is done with the contents if there is a download folder
  unfoldable pub download : Text → Reader → Do C Next
  unfolding store_in
  download path r c = elim o.download_folder [
    | none ↦ fault
    | some folder ↦ elim (disk.is_dir folder) [
      | none ↦ ok (stopped r.saved, c)
      | some b ↦ elim b [
        | false ↦ ok (next r, c)
        | true ↦
            if roomy (length path)
            then (Run.◌>>=◌ (store_in disk folder path []) λ k. elim k [
              | left ↦ fault
              | kept filename cont ↦ write_out path filename r c
              | no_directory ↦ fault
              | no_file ↦ ok (stopped r.saved, c)
            ])
            else fault
      ]
    ]
  ]

  -- one file; `result2` keeps its value where the file does not open
  unfoldable pub read_one : Text → Reader → Do C Next
  unfolding download
  read_one path r = do
    result1 ← calls.open_file path (pos Protcol.o_open)
    pause calls o o.seconds
    r' ←
        (if is_one result1
          then (do
            (result2, got) ← calls.read_file path
            return
                (record r { result2 = result2; buf = elim got [ none ↦ r.buf | some b ↦ some b ] }))
          else return r)
    (if is_one r'.result2
        then (if o.download
            then download path r'
            else (do pause calls o o.seconds; calls.close_file path; return (next r')))
        else return (next r'))

  -- the loop, with what it returns and the writes of files
  unfoldable pub read_rest : List Text → Reader → Do C (ℤ × Saved)
  unfolding read_one
  read_rest [] r = return (pos 1, r.saved)
  read_rest (path ∷ ric) r = read_one path r >>= λ u. go_on u (λ r'. read_rest ric r')
    where
      go_on : Next → (Reader → Do C (ℤ × Saved)) → Do C (ℤ × Saved)
      go_on (next r') k = k r'
      go_on (stopped saved) k = return (negsuc 0, saved)

  -- `letturaFiles`
  unfoldable pub lettura_files : List Text → Do C (ℤ × Saved)
  unfolding read_rest
  lettura_files ric = read_rest ric (record { result2 = pos 0; buf = none; saved = [] })
