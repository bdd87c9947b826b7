-- ===== src/Client/Download/Saves.antt =====
-- What `letturaFiles` leaves in the download folder.
use file_storage_server.Prelude.{
  ℕ, ◌≡◌, refl, sym, ◌∙◌, Bool, true, false, List, [], ◌∷◌, ◌++◌, none, some, ℤ, pos, length, arith,
  ◌==◌, append_assoc, append-nil, ap, Option, if◌then◌else◌,
}
use file_storage_server.Run.{ok, fault}
use file_storage_server.Text.{Text, str_eq}
use file_storage_server.Protcol
use file_storage_server.Api.Backup.{Disk, Saved, kept, store_in, on_disk}
use file_storage_server.Client.{Calls, Options, pause}
use file_storage_server.Client.Files.{is_one}
use file_storage_server.Client.Download.{Reader, next, download, read_one, read_rest, lettura_files}

-- a file: its path, the name that it gets in the folder, and its contents, which are not empty
pub record Wanted : Type 0 where
  pub path : Text
  pub filename : Text
  pub first : ℕ
  pub more : List ℕ

abbrev pub bytes_of : Wanted → List ℕ
bytes_of x = x.first ∷ x.more

abbrev pub paths_of : List Wanted → List Text
paths_of [] = []
paths_of (x ∷ xs) = x.path ∷ paths_of xs

abbrev pub saved_of : List Wanted → Saved
saved_of [] = []
saved_of (x ∷ xs) = (x.filename, bytes_of x) ∷ saved_of xs

-- the contents that the first of the files with this name in the folder has
unfoldable pub wanted : List Wanted → Text → Option (List ℕ)
wanted [] k = none
wanted (x ∷ xs) k =
    let rest = wanted xs k in if str_eq x.filename k then some (bytes_of x) else rest

-- the files, the last one first
abbrev pub backwards : List Wanted → List Wanted
backwards [] = []
backwards (x ∷ xs) = backwards xs ++ x ∷ []

wanted-append :
    (xs : List Wanted) (x : Wanted) (k : Text)
    → wanted (xs ++ x ∷ []) k ≡ (elim (wanted xs k) [
      | some b ↦ some b
      | none ↦ if str_eq x.filename k then some (bytes_of x) else none
    ])
unfolding wanted
wanted-append [] x k = refl
wanted-append (y ∷ ys) x k = let later = wanted-append ys x k in ground (arith, later)

on_disk-saved_of : (xs : List Wanted) (k : Text) → on_disk (saved_of xs) k ≡ wanted (backwards xs) k
unfolding on_disk wanted
on_disk-saved_of [] k = refl
on_disk-saved_of (x ∷ xs) k =
    let later = on_disk-saved_of xs k in rw later (sym (wanted-append (backwards xs) x k))

-- the reader behind a file that was downloaded
abbrev pub behind : Saved → Reader
behind saved = record { result2 = pos 1; buf = none; saved = saved }

module _ {C : Type 0} (calls : Calls C) (o : Options) (disk : Disk) (roomy : ℕ → Bool)
    (folder : Text) where
  -- The file opens and can be read, has room in the folder, and is closed.
  pub record Reads (x : Wanted) (c c' : C) : Type 0 where
    pub at_open : C
    pub at_read : C
    pub at_write : C
    pub at_close : C
    pub closed : ℤ
    pub opens : calls.open_file x.path (pos Protcol.o_open) c ≡ ok (pos 1, at_open)
    pub pauses : pause calls o o.seconds at_open ≡ ok (tt, at_read)
    pub reads :
        calls.read_file x.path at_read
        ≡ ok ((pos 1, some (bytes_of x, length (bytes_of x))), at_write)
    pub waits : pause calls o o.seconds at_write ≡ ok (tt, at_close)
    pub closes : calls.close_file x.path at_close ≡ ok (closed, c')
    pub room : roomy (length x.path) ≡ true
    pub stored : store_in disk folder x.path [] ≡ ok (kept x.filename [])

  -- one after the other
  abbrev pub AreRead : C → List Wanted → C → Type 0
  AreRead c [] c' = c ≡ c'
  AreRead c (x ∷ xs) c' = (c₁ : C) × (Reads x c c₁ × AreRead c₁ xs c')

  -- -d names a folder
  pub record HasFolder : Type 0 where
    pub download : o.download ≡ true
    pub download_folder : o.download_folder ≡ some folder
    pub is_dir : disk.is_dir folder ≡ some true

  read_one-saved :
      (x : Wanted) (r : Reader) (c c' : C)
      → HasFolder
      → Reads x c c'
      → read_one calls o disk roomy x.path r c
        ≡ ok (next (behind (r.saved ++ (x.filename, bytes_of x) ∷ [])), c')
  unfolding read_one download
  read_one-saved x r c c' h k =
      let opens = k.opens in
      let pauses = k.pauses in
      let reads = k.reads in
      let d = h.download in
      let f = h.download_folder in
      let s = h.is_dir in
      let room = k.room in
      let stored = k.stored in
      let waits = k.waits in
      let closes = k.closes in
      let some_bytes : (length (bytes_of x) == 0) ≡ false = ground arith in
      rw (opens, pauses, reads, d, f, s, room, stored, some_bytes, waits, closes) refl

  -- A file that does not open behind one that was downloaded: `buf` is used once more.
  read_one-stale :
      (path filename : Text) (saved : Saved) (c c₁ c₂ : C) (v : ℤ)
      → HasFolder
      → calls.open_file path (pos Protcol.o_open) c ≡ ok (v, c₁)
      → is_one v ≡ false
      → pause calls o o.seconds c₁ ≡ ok (tt, c₂)
      → roomy (length path) ≡ true
      → store_in disk folder path [] ≡ ok (kept filename [])
      → read_one calls o disk roomy path (behind saved) c ≡ fault
  unfolding read_one download
  read_one-stale path filename saved c c₁ c₂ v h opens no_file pauses room stored =
      let d = h.download in
      let f = h.download_folder in
      let s = h.is_dir in rw (opens, pauses, no_file, d, f, s, room, stored) refl

  read_rest-one :
      (x : Wanted) (rest : List Text) (r : Reader) (c c' : C)
      → HasFolder
      → Reads x c c'
      → read_rest calls o disk roomy (x.path ∷ rest) r c
        ≡ read_rest calls o disk roomy rest (behind (r.saved ++ (x.filename, bytes_of x) ∷ [])) c'
  unfolding read_rest
  read_rest-one x rest r c c' h k = let one = read_one-saved x r c c' h k in rw one refl

  read_rest-saved :
      (xs : List Wanted) (rest : List Text) (saved : Saved) (c c' : C)
      → HasFolder
      → AreRead c xs c'
      → read_rest calls o disk roomy (paths_of xs ++ rest) (behind saved) c
        ≡ read_rest calls o disk roomy rest (behind (saved ++ saved_of xs)) c'
  read_rest-saved [] rest saved c c' h k =
      ap (read_rest calls o disk roomy rest (behind saved)) k
      ∙ ap (λ w. read_rest calls o disk roomy rest (behind w) c') (sym (append-nil saved))
  read_rest-saved (x ∷ xs) rest saved c c' h (c₁, (one, k)) =
      read_rest-one x (paths_of xs ++ rest) (behind saved) c c₁ h one
      ∙ read_rest-saved xs rest (saved ++ (x.filename, bytes_of x) ∷ []) c₁ c' h k
      ∙ ap (λ w. read_rest calls o disk roomy rest (behind w) c')
          (append_assoc saved ((x.filename, bytes_of x) ∷ []) (saved_of xs))

  lettura_files-writes :
      (xs : List Wanted) (c c' : C)
      → HasFolder
      → AreRead c xs c'
      → lettura_files calls o disk roomy (paths_of xs) c ≡ ok ((pos 1, saved_of xs), c')
  unfolding lettura_files read_rest
  lettura_files-writes [] c c' h k = ap (λ (x : C). ok ((pos 1, []), x)) k
  lettura_files-writes (x ∷ xs) c c' h (c₁, (one, k)) =
      read_rest-one x (paths_of xs) (record { result2 = pos 0; buf = none; saved = [] }) c c₁ h one
      ∙ ap (λ w. read_rest calls o disk roomy w (behind ((x.filename, bytes_of x) ∷ [])) c₁)
          (sym (append-nil (paths_of xs)))
      ∙ read_rest-saved xs [] ((x.filename, bytes_of x) ∷ []) c₁ c' h k

  -- `letturaFiles` with a download folder, where each file opens, can be read and is not empty, and
  -- its name has room: the function returns 1, and of its writes the folder has under each name the
  -- contents of the last of the files that get this name there, and nothing under a name that none
  -- of them gets.
  pub lettura_files-saved :
      (xs : List Wanted) (c c' : C)
      → HasFolder
      → AreRead c xs c'
      → (saved : Saved) × (lettura_files calls o disk roomy (paths_of xs) c
          ≡ ok ((pos 1, saved), c'))
        × ((k : Text) → on_disk saved k ≡ wanted (backwards xs) k)
  lettura_files-saved xs c c' h k =
      (saved_of xs, lettura_files-writes xs c c' h k, λ k. on_disk-saved_of xs k)

  -- `letturaFiles` with a download folder, where files were read and saved and a file behind them
  -- does not open: the answer to the read before is taken for this file's, and the buffer that was
  -- freed is used.
  pub lettura_files-stale :
      (x : Wanted) (xs : List Wanted) (path filename : Text) (rest : List Text) (c c' c₁ c₂ : C)
      (v : ℤ)
      → HasFolder
      → AreRead c (x ∷ xs) c'
      → calls.open_file path (pos Protcol.o_open) c' ≡ ok (v, c₁)
      → is_one v ≡ false
      → pause calls o o.seconds c₁ ≡ ok (tt, c₂)
      → roomy (length path) ≡ true
      → store_in disk folder path [] ≡ ok (kept filename [])
      → lettura_files calls o disk roomy (paths_of (x ∷ xs) ++ path ∷ rest) c ≡ fault
  unfolding lettura_files read_rest
  lettura_files-stale x xs path filename rest c c' c₁ c₂ v h (c₀, (one, k)) opens no_file pauses
        room stored =
      let bad =
        read_one-stale path filename (saved_of (x ∷ xs)) c' c₁ c₂ v h opens no_file pauses room
          stored in
      read_rest-one x (paths_of xs ++ path ∷ rest)
        (record { result2 = pos 0; buf = none; saved = [] }) c c₀ h one
      ∙ read_rest-saved xs (path ∷ rest) ((x.filename, bytes_of x) ∷ []) c₀ c' h k
      ∙ rw bad refl
