-- ===== src/Api/Returned.antt =====
-- `writeFile` against a server that goes over its bound: the files that it throws out come back.
pub mod Unread
use file_storage_server.Prelude.{
  [], ℕ, ◌+◌, ◌<◌, ◌≡◌, refl, sym, ◌∙◌, ap, subst, true, false, List, ◌∷◌, ◌++◌, Option, none, some,
  arith, length, append_assoc, append-nil, take-length, ℤ, pos, ◌+ℤ◌, ltb_ℤ, ◌^◌, if◌then◌else◌,
}
use file_storage_server.Run.{ok}
use file_storage_server.Text.{Text, str_eq}
use file_storage_server.Lis.Seg.{Cell, Holds}
use file_storage_server.File.{File, IsWritten, read_block}
use file_storage_server.Protcol
use file_storage_server.Protcol.{Request, int_bytes, server_full}
use file_storage_server.Server.State.{Server, ServerConf}
use file_storage_server.Server.Worker.{serve}
use file_storage_server.Server.Invariant.{Rows, view, IsServer, Found}
use file_storage_server.Server.Spec.{may_use}
use file_storage_server.Server.Sent.{contents}
use file_storage_server.Server.Evict.{items, AllLive}
use file_storage_server.Server.Expelled.{
  Item, is_named, CanLeave, AreLegible, expel_one, expel_events,
}
use file_storage_server.Server.Full.{length-items, gone, bytes_left}
use file_storage_server.Server.Full.Written.{full_events, overfull, serve_write_full}
use file_storage_server.Server.Stored.{read_block-length, written}
use file_storage_server.Api.{returns, make_request}
use file_storage_server.Api.Backup.{Disk, Saved, kept, store_in, receive}
use file_storage_server.Api.Sending.{content_request, receive_all, full_answer, write_file}
use file_storage_server.Api.Delivery.{
  bytes_to, bytes_to-log_line, bytes_to-sent, bytes_to-nil, read_int-int_bytes,
}
use file_storage_server.Api.Parts.{bytes_to-append, part_bytes, HasNoNul, receive-part_bytes}
use file_storage_server.Api.Creation.{arrived, delivered, delivered-events, serve-serve_write}

-- the bytes of the files that are thrown out
abbrev pub bytes_one : Option File → List ℕ
bytes_one none = []
bytes_one (some f) = part_bytes f.dim (length f.path_name) f.path_name (contents f.cont f.dim)

abbrev pub bytes_out : (Text → Option File) → List Item → List ℕ
bytes_out m [] = []
bytes_out m (x ∷ xs) = bytes_one (m x.0) ++ bytes_out m xs

bytes_to-expel_one : (fd : ℕ) (f : Option File) → bytes_to fd (expel_one fd f) ≡ bytes_one f
bytes_to-expel_one fd none = bytes_to-nil fd
bytes_to-expel_one fd (some f) = simp (bytes_to-sent, bytes_to-log_line, bytes_to-nil, append-nil)

pub bytes_to-expel_events :
    (fd : ℕ) (m : Text → Option File) (xs : List Item)
    → bytes_to fd (expel_events fd m xs) ≡ bytes_out m xs
bytes_to-expel_events fd m [] = bytes_to-nil fd
bytes_to-expel_events fd m (x ∷ xs) =
    bytes_to-append fd (expel_one fd (m x.0)) (expel_events fd m xs)
    ∙ (λ i. bytes_to-expel_one fd (m x.0) i ++ bytes_to-expel_events fd m xs i)

-- the whole answer
bytes_to-full_events :
    (r : Request) (m : Text → Option File) (out : List (Cell ℕ)) (total : ℤ)
    → bytes_to r.fd (full_events r m out total)
      ≡ int_bytes server_full ++ (int_bytes (length out) ++ (bytes_out m (items out) ++ []))
bytes_to-full_events r m out total =
    let e = bytes_to-expel_events r.fd m (items out) in
    simp (bytes_to-sent, bytes_to-log_line, bytes_to-nil, bytes_to-append, e)

module _ (disk : Disk) (d : Text) (m : Text → Option File) where
  -- The file `x` fits into the messages, its name into the client's buffer, and the folder has a
  -- place for it.
  pub record IsKept (x : Item) (y : Text × List ℕ) : Type 0 where
    pub f : File
    pub at : m x.0 ≡ some f
    pub small : f.dim < 2 ^ 32
    pub short : length f.path_name < 130
    pub clean : HasNoNul f.path_name
    pub written : IsWritten f
    pub readable : read_block f.cont f.dim ≡ ok y.1
    pub block : contents f.cont f.dim ≡ y.1
    pub stored : store_in disk d f.path_name y.1 ≡ ok (kept y.0 y.1)

  abbrev pub AreKept : List Item → Saved → Type 0
  AreKept [] [] = Unit {0}
  AreKept [] (y ∷ ys) = ⊥
  AreKept (x ∷ xs) [] = ⊥
  AreKept (x ∷ xs) (y ∷ ys) = IsKept x y × ((is_named x.0 xs ≡ false) × AreKept xs ys)

  pub AreKept-AreLegible : (xs : List Item) (ys : Saved) → AreKept xs ys → AreLegible m xs
  AreKept-AreLegible [] ys h = tt
  AreKept-AreLegible (x ∷ xs) [] h = absurd h
  AreKept-AreLegible (x ∷ xs) (y ∷ ys) (one, (once, h)) = (
    (one.f, one.at, one.written, one.readable ∙ ap ok (sym one.block)),
    (once, AreKept-AreLegible xs ys h),
  )

  module _ (folder : disk.is_dir d ≡ some true) where
    receive-bytes_one :
        (x : Item) (y : Text × List ℕ) (rest : List ℕ)
        → IsKept x y
        → receive disk (some d) (bytes_one (m x.0) ++ rest) ≡ ok (kept y.0 y.1, rest)
    receive-bytes_one x y rest k =
        let f = k.f in
        let whole = ap length k.block ∙ read_block-length f.cont f.dim y.1 k.readable in
        let stored : store_in disk d f.path_name (contents f.cont f.dim)
            ≡ ok (kept y.0 (contents f.cont f.dim)) =
          rw k.block k.stored in
        let got =
          receive-part_bytes disk d f.dim f.path_name y.0 (contents f.cont f.dim) rest folder
            k.small k.short k.clean whole stored in
        ap (λ (o : Option File). receive disk (some d) (bytes_one o ++ rest)) k.at
        ∙ got
        ∙ ap (λ (b : List ℕ). ok (kept y.0 b, rest)) k.block

    receive_all-bytes_out :
        (xs : List Item) (ys saved : Saved) (rest : List ℕ)
        → AreKept xs ys
        → receive_all disk (some d) (length xs) saved (bytes_out m xs ++ rest)
          ≡ ok (true, saved ++ ys, rest)
    unfolding receive_all
    receive_all-bytes_out [] [] saved rest h =
        ap (λ (z : Saved). ok (true, z, rest)) (sym (append-nil saved))
    receive_all-bytes_out [] (y ∷ ys) saved rest h = absurd h
    receive_all-bytes_out (x ∷ xs) [] saved rest h = absurd h
    receive_all-bytes_out (x ∷ xs) (y ∷ ys) saved rest (one, (once, h)) =
        let e₁ = receive-bytes_one x y (bytes_out m xs ++ rest) one in
        let e₂ = receive_all-bytes_out xs ys (saved ++ y ∷ []) rest h in
        let split = append_assoc (bytes_one (m x.0)) (bytes_out m xs) rest in
        let order = append_assoc saved (y ∷ []) ys in
        rw (split, e₁) (e₂ ∙ ap (λ (z : Saved). ok (true, z, rest)) order)

    -- behind SERVERFULL
    pub full_answer-bytes_out :
        (realpath : Text → Text) (contents_of : Text → Option (List ℕ)) (fd_skt : ℤ)
        (answer : Request → List ℕ) (value : ℤ) (xs : List Item) (ys : Saved) (rest : List ℕ)
        → length xs < 2 ^ 32
        → AreKept xs ys
        → full_answer realpath disk contents_of fd_skt answer value
            (some d)
            (int_bytes (length xs) ++ (bytes_out m xs ++ rest))
          ≡ ok (returns value, ys, rest)
    unfolding full_answer
    full_answer-bytes_out realpath contents_of fd_skt answer value xs ys rest few h =
        let e₁ = read_int-int_bytes (length xs) (bytes_out m xs ++ rest) few in
        let e₂ = receive_all-bytes_out xs ys [] rest h in ground (arith, e₁, e₂)

module _ (realpath : Text → Text) (n client : ℕ) (answer : Request → List ℕ) (pathname : Text)
    (sc : ServerConf) (raw : File) (s t : Server) (rows : Rows) (w : IsServer s rows) (f : File)
    (bytes : List ℕ) (present : view s rows (realpath pathname) ≡ some f) (opened : f.isopen ≡ 1)
    (p : ℕ) (o : Found s rows (realpath pathname) p f) (queued : List (Cell ℕ)) where
  -- the request as the server has it
  abbrev pub request : Request
  request = arrived (content_request (realpath pathname) Protcol.write_file bytes) client

  block : read_block request.contenuto request.size ≡ ok bytes
  unfolding read_block make_request
  block = ground (arith, take-length bytes)

  -- the server with the contents in place, and what it throws out
  abbrev pub filled : Server
  filled = overfull s request p (written f bytes (length bytes))

  abbrev pub out : List Item
  out = items (gone sc filled queued)

  -- `writeFile` with a directory against the server that the write takes to its bound or past it:
  -- if the server serves the request of the call, for an open file that the client may use, at a
  -- server in order whose FIFO queue holds live files, where throwing out the oldest is enough,
  -- each of those has an entry in the table whose removal leaves its bucket's tail pointer right,
  -- they have different names without NUL, of fewer than 130 bytes, sizes and a number that fit
  -- into an `int`, contents that were set and are readable, and a place in the directory, and the
  -- file itself is not among them, and the bytes that come back are those that the server sends,
  -- then the call returns 1 with nothing left on the socket, and its writes to the directory are
  -- exactly the files that the server threw out, with their contents and in their order; the server
  -- is in order, has the contents of the client's under the path name, none of those files, and
  -- every other as before.
  pub write_file-serve_full :
      (disk : Disk) (contents_of : Text → Option (List ℕ)) (d : Text) (saved : Saved)
      → disk.is_dir d ≡ some true
      → contents_of pathname ≡ some bytes
      → may_use f request ≡ true
      → ltb_ℤ (s.actual_size +ℤ pos (length bytes)) (pos sc.space) ≡ false
      → Holds s.fifo queued
      → AllLive filled.files queued
      → ltb_ℤ (pos sc.space) (bytes_left sc filled queued) ≡ false
      → CanLeave rows out
      → AreKept disk d (view filled rows) out saved
      → length out < 2 ^ 32
      → is_named (realpath pathname) out ≡ false
      → serve sc raw request s ≡ ok (tt, t)
      → answer (content_request (realpath pathname) Protcol.write_file bytes) ≡ delivered client s t
      → (write_file realpath disk contents_of (pos n) answer (some pathname) (some d)
          ≡ ok (returns (pos 1), saved, []))
        × ((rows' : Rows) × IsServer t rows'
            × ((q : Text)
                → view t rows' q ≡ (
                    if is_named q out
                    then none
                    else (if str_eq q (realpath pathname)
                        then some (written f bytes (length bytes))
                        else view s rows q))))
  unfolding write_file make_request
  write_file-serve_full disk contents_of d saved folder has mine over held live enough leave keeps
        few spared run stream =
      let legible = AreKept-AreLegible disk d (view filled rows) out saved keeps in
      let x =
        serve_write_full sc s rows request f bytes w present opened block p o queued mine over held
          live enough leave legible spared in
      let e = serve-serve_write sc raw request s refl in
      let same : t ≡ x.after = ground (arith, run, x.runs, e) in
      let number = length-items (gone sc filled queued) in
      let got =
        stream
        ∙ ap (λ (u : Server). delivered client s u) same
        ∙ delivered-events client s x.after
            (full_events request (view filled rows) (gone sc filled queued)
              (bytes_left sc filled queued))
            x.traced
        ∙ bytes_to-full_events request (view filled rows) (gone sc filled queued)
            (bytes_left sc filled queued)
        ∙ ap
            (λ (k : ℕ).
              int_bytes server_full ++ (int_bytes k ++ (bytes_out (view filled rows) out ++ [])))
            (sym number) in
      let e₁ =
        read_int-int_bytes server_full
          (int_bytes (length out) ++ (bytes_out (view filled rows) out ++ [])) (omega arith) in
      let e₂ =
        full_answer-bytes_out disk d (view filled rows) folder realpath contents_of (pos n) answer
          (pos 1) out saved [] few keeps in
      (
        ground (arith, has, got, e₁, e₂),
        (
          x.rows',
          subst (λ (u : Server). IsServer u x.rows') (sym same) x.sound,
          λ q. ap (λ (u : Server). view u x.rows' q) same ∙ x.reads q,
        ),
      )
