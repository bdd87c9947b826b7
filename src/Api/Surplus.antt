-- ===== src/Api/Surplus.antt =====
-- `readNFiles` against the server's answer to READN: which files the client takes, and what it
-- leaves on the socket.
use file_storage_server.Prelude.{
  ℕ, zero, suc, ◌+◌, ◌≤◌, ◌<◌, ◌≡◌, ◌≢◌, refl, ◌∙◌, ap, false, List, [], ◌∷◌, ◌++◌, Option, none,
  some, arith, ◌==◌, length, length-append, drop, append_assoc, append-nil, ℤ, pos, ◌^◌,
}
use file_storage_server.Run.{ok}
use file_storage_server.Lis.Seg.{Cell}
use file_storage_server.File.{File}
use file_storage_server.Protcol.{Request, int_bytes, success}
use file_storage_server.Server.State.{Server, sent}
use file_storage_server.Server.Walk.{files_asked, serve_read_n}
use file_storage_server.Server.Invariant.{Rows, IsServer}
use file_storage_server.Server.Spec.{reply}
use file_storage_server.Server.Release.{all_cells}
use file_storage_server.Server.Sent.{
  contents, file_events, events_at, events, Readable, extended, sent_cells, read_files-events,
}
use file_storage_server.Api.{returns, make_request}
use file_storage_server.Api.Backup.{Disk, Saved, read_parts, lettura_file}
use file_storage_server.Api.Receiving.{read_all, read_n_request, read_n_files}
use file_storage_server.Api.Delivery.{
  bytes_to, bytes_to-log_line, bytes_to-sent, bytes_to-nil, read_int-int_bytes,
}
use file_storage_server.Api.Parts.{bytes_to-append, part_bytes, read_parts-part_bytes}
use file_storage_server.Api.Creation.{arrived, delivered, delivered-events}

-- the bytes of one file, and of the files behind some cells
abbrev pub file_bytes : File → List ℕ
file_bytes f =
    part_bytes f.dim (length f.path_name + 1) (f.path_name ++ 0 ∷ []) (contents f.cont f.dim)

abbrev pub bytes_at : Option File → List ℕ
bytes_at none = []
bytes_at (some f) = file_bytes f

abbrev pub cell_bytes : (ℕ → Option File) → List (Cell ℕ) → List ℕ
cell_bytes files [] = []
cell_bytes files (c ∷ cs) = bytes_at (files c.cont) ++ cell_bytes files cs

-- The sizes, and the lengths of the names with their NUL, fit into an `int`.
abbrev pub Fitting : (ℕ → Option File) → List (Cell ℕ) → Type 0
Fitting files [] = Unit {0}
Fitting files (c ∷ cs) =
    ((f : File) × (files c.cont ≡ some f)
      × (f.dim < 2 ^ 32)
      × (length f.path_name + 1 < 2 ^ 32)
      × (length (contents f.cont f.dim) ≡ f.dim))
    × Fitting files cs

bytes_to-file_events : (fd : ℕ) (f : File) → bytes_to fd (file_events fd f) ≡ file_bytes f
bytes_to-file_events fd f =
    simp (bytes_to-sent, bytes_to-log_line, bytes_to-nil, append-nil, append_assoc)

bytes_to-events :
    (fd : ℕ) (files : ℕ → Option File) (cs : List (Cell ℕ))
    → bytes_to fd (events fd files cs) ≡ cell_bytes files cs
bytes_to-events fd files [] = bytes_to-nil fd
bytes_to-events fd files (c ∷ cs) =
    bytes_to-append fd (events_at fd (files c.cont)) (events fd files cs)
    ∙ (λ i. one (files c.cont) i ++ bytes_to-events fd files cs i)
  where
    one : (o : Option File) → bytes_to fd (events_at fd o) ≡ bytes_at o
    one none = bytes_to-nil fd
    one (some f) = bytes_to-file_events fd f

-- One file is read off the front of the stream.
read_parts-file_bytes :
    (f : File) (rest : List ℕ)
    → f.dim < 2 ^ 32
    → length f.path_name + 1 < 2 ^ 32
    → length (contents f.cont f.dim) ≡ f.dim
    → read_parts (file_bytes f ++ rest)
      ≡ ok ((length f.path_name + 1, f.path_name ++ 0 ∷ [], contents f.cont f.dim), rest)
read_parts-file_bytes f rest small short whole =
    read_parts-part_bytes f.dim (length f.path_name + 1) (f.path_name ++ 0 ∷ [])
      (contents f.cont f.dim) rest small short (length-append f.path_name (0 ∷ [])) whole

-- The client reads as many files as it was told, and the others stay on the socket.
read_all-cell_bytes :
    (disk : Disk) (n : ℕ) (saved : Saved) (files : ℕ → Option File) (cs : List (Cell ℕ))
    → n ≤ length cs
    → Fitting files cs
    → read_all disk none n saved (cell_bytes files cs)
      ≡ ok (some (saved, cell_bytes files (drop n cs)))
unfolding read_all lettura_file
read_all-cell_bytes disk zero saved files cs few fit = refl
read_all-cell_bytes disk (suc n) saved files [] few fit = absurd (omega arith)
read_all-cell_bytes disk (suc n) saved files (c ∷ cs) few fit =
    let (f, at, small, short, whole) = fit.0 in
    let one = read_parts-file_bytes f (cell_bytes files cs) small short whole in
    let more = read_all-cell_bytes disk n saved files cs (omega arith) fit.1 in
    rw at (ground (arith, one, more))

-- the bytes that the client is sent
answer_bytes :
    (r : Request) (number : ℕ) (files : ℕ → Option File) (cs : List (Cell ℕ))
    → bytes_to r.fd (reply r success ∷ sent r.fd (int_bytes number) ∷ events r.fd files cs)
      ≡ int_bytes success ++ (int_bytes number ++ cell_bytes files cs)
answer_bytes r number files cs = simp (bytes_to-sent, bytes_to-events)

module _ (disk : Disk) (n client : ℕ) (answer : Request → List ℕ) (asked : ℤ) (s t : Server)
    (rows : Rows) (w : IsServer s rows) where
  -- how many files the server announces, and those that it sends
  abbrev pub announced : ℕ
  announced = files_asked asked s.table.nelem

  abbrev pub sent_files : List (Cell ℕ)
  sent_files = sent_cells announced rows

  -- `readNFiles` without a directory against the server: if the server in order, with at least one
  -- file, all of them readable and with sizes and names that fit into an `int`, serves READN, and
  -- the bytes that come back are those that it sends, then the call returns 1 and leaves on the
  -- socket exactly the bytes of the files that the server sent beyond the number it announced.
  pub read_n_files-serve_read_n :
      s.table.nelem ≢ 0
      → Readable s.files (all_cells rows)
      → Fitting s.files sent_files
      → announced < 2 ^ 32
      → serve_read_n (arrived (read_n_request asked) client) s ≡ ok (tt, t)
      → answer (read_n_request asked) ≡ delivered client s t
      → read_n_files disk (pos n) answer asked none
        ≡ ok (some (returns (pos 1), [], cell_bytes s.files (drop announced sent_files)))
  unfolding read_n_files serve_read_n read_n_request make_request
  read_n_files-serve_read_n some_file readable fit small run stream =
      let r = arrived (read_n_request asked) client in
      let s₁ = extended s (reply r success ∷ []) in
      let (sends, enough) =
        read_files-events client asked s₁ rows
          (record { table = w.table; stored = w.stored; below = w.below }) readable in
      let es = sent client (int_bytes announced) ∷ events client s.files sent_files in
      let nonzero : (s.table.nelem == 0) ≡ false = ground arith in
      let full : serve_read_n r s ≡ ok (tt, extended s₁ es) = rw nonzero sends in
      let same : t ≡ extended s₁ es = cc in
      let got =
        stream
        ∙ ap (λ (u : Server). delivered client s u) same
        ∙ delivered-events client s (extended s₁ es) (reply r success ∷ es)
            (append_assoc s.trace (reply r success ∷ []) es)
        ∙ answer_bytes r announced s.files sent_files in
      let e₁ =
        read_int-int_bytes success (int_bytes announced ++ cell_bytes s.files sent_files)
          (omega arith) in
      let e₂ = read_int-int_bytes announced (cell_bytes s.files sent_files) small in
      let e₃ = read_all-cell_bytes disk announced [] s.files sent_files enough fit in
      ground (arith, got, e₁, e₂, e₃)
