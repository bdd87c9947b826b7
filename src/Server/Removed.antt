-- ===== src/Server/Removed.antt =====
-- REMOVE by the client that holds the file: it leaves the table, the FIFO queue and the heap.
use file_storage_server.Prelude.{
  ℕ, ◌+◌, ◌≡◌, ◌≢◌, refl, ◌∙◌, ap, subst, true, false, List, [], ◌∷◌, ◌++◌, Option, none, some,
  arith, update, update_ne, get_or, length, ◌==◌, if◌then◌else◌, Bool-cases, inl, inr, ℤ, pos, ◌-ℤ◌,
}
use file_storage_server.Run.{Run, ok, fault}
use file_storage_server.Text.{Text, str_eq, str_eq_iff}
use file_storage_server.Lis.{delete}
use file_storage_server.Lis.Seg.{Cell, Holds, Settled}
use file_storage_server.Lis.Delete.{KeepsTail, remove, has, delete-Settled, delete-nil}
use file_storage_server.Hash
use file_storage_server.Hash.{Hash}
use file_storage_server.Hash.Table.{home, lookup}
use file_storage_server.Hash.Change.{Updates}
use file_storage_server.Hash.Removal.{h_delete-Updates}
use file_storage_server.File.{File, IsWritten}
use file_storage_server.Protcol.{Request, success, not_present, not_locked, not_permission}
use file_storage_server.Server.State.{Server, Event}
use file_storage_server.Server.Write.{remove_found, serve_remove}
use file_storage_server.Server.Invariant.{
  Rows, at_pointer, view, IsServer, Found, found, missing, same_pointer,
}
use file_storage_server.Server.Spec.{reply}

-- The server has no file under the name `k`, `queued` are the cells of its FIFO queue, and it is
-- otherwise as it was.
pub record Removed (s : Server) (rows : Rows) (k : Text) (total : ℤ) (queued : List (Cell ℕ))
    (events : List Event) (result : Run (Unit {0} × Server)) : Type 0 where
  pub after : Server
  pub rows' : Rows
  pub runs : result ≡ ok (tt, after)
  pub sound : IsServer after rows'
  pub reads : (q : Text) → view after rows' q ≡ (if str_eq q k then none else view s rows q)
  pub nelem : after.table.nelem + 1 ≡ s.table.nelem
  pub counted : after.actual_size ≡ total
  pub queue : Settled after.fifo queued
  pub traced : after.trace ≡ s.trace ++ events
  pub queueric : after.queueric ≡ s.queueric

-- the row of cells in which a path name stands
abbrev pub row_of : Rows → Text → List (Cell ℕ)
row_of rows k = get_or rows (home k (length rows)) []

module _ (s : Server) (rows : Rows) (k : Text) (p : ℕ) (f : File) (w : IsServer s rows)
    (o : Found s rows k p f) (table : Hash ℕ) (rows' : Rows)
    (u : Updates s.table rows k none table rows') where
  -- the server with the file out of the heap and the table
  abbrev pub shrunk : Server
  shrunk = record s { files = update s.files p none; table = table }

  -- Another path name has another file.
  other_pointer : (q : Text) (p' : ℕ) → lookup rows q ≡ some p' → str_eq q k ≡ false → p' ≢ p
  other_pointer q p' e other same =
      let one : q ≡ k = same_pointer w k q p o.looked (e ∙ ap some same) in
      let yes : str_eq q k ≡ true = (str_eq_iff q k).1 one in cc

  pub shrunk-view : (q : Text) → view shrunk rows' q ≡ (if str_eq q k then none else view s rows q)
  shrunk-view q = rw (u.reads q) (go (lookup rows q) refl)
    where
      go :
          (a : Option ℕ)
          → lookup rows q ≡ a
          → at_pointer (update s.files p none) (if str_eq q k then none else lookup rows q)
            ≡ (if str_eq q k then none else at_pointer s.files (lookup rows q))
      go none e = rw e (ground arith)
      go (some p') e = rw e (elim (Bool-cases (str_eq q k)) [
        | inl same ↦ rw same
        | inr other ↦ rw other (update_ne s.files p p' none (other_pointer q p' e other))
      ])

  pub shrunk-IsServer : IsServer shrunk rows'
  shrunk-IsServer = record {
    table = u.table;
    stored = λ q p' e. elim (Bool-cases (str_eq q k)) [
      | inl same ↦ absurd (let gone : lookup rows' q ≡ none = u.reads q ∙ rw same in cc)
      | inr other ↦
          let old : lookup rows q ≡ some p' = ground (arith, e, u.reads q, other) in
          let (g, live, name) = w.stored q p' old in
          (g, update_ne s.files p p' none (other_pointer q p' old other) ∙ live, name)
    ];
    below = λ q p' e. elim (Bool-cases (str_eq q k)) [
      | inl same ↦ absurd (let gone : lookup rows' q ≡ none = u.reads q ∙ rw same in cc)
      | inr other ↦ w.below q p' (ground (arith, e, u.reads q, other))
    ];
  }

-- the code of the refusal of a removal, if it is refused
abbrev pub remove_refusal : Request → Option File → Option ℕ
remove_refusal r none = some not_present
remove_refusal r (some f) =
    if f.lock == 0 then some not_locked else (if f.fd == r.fd then none else some not_permission)

-- At a server in order, a REMOVE that is refused answers NOTPRESENT where the path name has no
-- file, NOTLOCKED where its file is not locked, NOTPERMISSION where another client holds it, and
-- changes nothing else.
pub serve_remove_refused :
    (s : Server) (rows : Rows) (r : Request) (code : ℕ)
    → IsServer s rows
    → remove_refusal r (view s rows r.pathname) ≡ some code
    → serve_remove r s ≡ ok (tt, record s { trace = s.trace ++ reply r code ∷ [] })
unfolding serve_remove
serve_remove_refused s rows r code w refused = go (view s rows r.pathname) refl
  where
    go :
        (a : Option File)
        → view s rows r.pathname ≡ a
        → serve_remove r s ≡ ok (tt, record s { trace = s.trace ++ reply r code ∷ [] })
    go none e =
        let (gone, none') = missing s rows r.pathname w e in ground (arith, none', e, refused)
    go (some f) e =
        let (p, o) = found s rows r.pathname f w e in
        let told : remove_refusal r (some f) ≡ some code =
          subst (λ a. remove_refusal r a ≡ some code) e refused in
        elim (Bool-cases (f.lock == 0)) [
          | inl free ↦ ground (arith, o.contained, o.got, o.live, free, told)
          | inr held ↦ elim (Bool-cases (f.fd == r.fd)) [
            | inl mine ↦ absurd (ground (arith, told, held, mine))
            | inr other ↦ ground (arith, o.contained, o.got, o.live, held, other, told)
          ]
        ]

module _ (s : Server) (rows : Rows) (r : Request) (f : File) (w : IsServer s rows)
    (present : view s rows r.pathname ≡ some f) (locked : f.lock ≢ 0) (mine : f.fd ≡ r.fd)
    (keep : KeepsTail r.pathname (row_of rows r.pathname)) where
  -- REMOVE by the client that holds the lock of a file whose contents were set, at a server in
  -- order with a FIFO queue that is not empty, where the tail pointers of the bucket and of the
  -- queue still reach their last cells once the cells under the name are gone: no file has that
  -- name any more, every other name is as before, the size is taken off the count of bytes, the
  -- cell is gone from the queue, SUCCESS is sent, and the server stays in order.
  pub serve_remove-Removed :
      (c : Cell ℕ) (queued : List (Cell ℕ))
      → IsWritten f
      → Settled s.fifo (c ∷ queued)
      → KeepsTail r.pathname (c ∷ queued)
      → Removed s rows r.pathname
          (s.actual_size -ℤ pos f.dim)
          (remove r.pathname (c ∷ queued))
          (reply r success ∷ [])
          (serve_remove r s)
  unfolding serve_remove remove_found
  serve_remove-Removed c queued (b, written) held keep' =
      let (p, o) = found s rows r.pathname f w present in
      let (t, rows', run, u, n) =
        h_delete-Updates s.table rows r.pathname p w.table o.looked keep in
      let (q, del, settled) = delete-Settled s.fifo r.pathname c queued held keep' in
      let run' : Hash.h_delete s.table f.path_name ≡ ok (true, t) = rw o.named run in
      let del' : delete s.fifo f.path_name ≡ ok (has r.pathname (c ∷ queued), q) = rw o.named del in
      let sound = shrunk-IsServer s rows r.pathname p f w o t rows' u in
      record {
        after = record (shrunk s rows r.pathname p f w o t rows' u) {
          fifo = q;
          actual_size = s.actual_size -ℤ pos f.dim;
          trace = s.trace ++ reply r success ∷ [];
        };
        rows' = rows';
        runs = ground (arith, o.contained, o.got, o.live, locked, mine, run', del', written);
        sound = record { table = sound.table; stored = sound.stored; below = sound.below };
        reads = shrunk-view s rows r.pathname p f w o t rows' u;
        nelem = n;
        counted = refl;
        queue = settled;
        traced = refl;
        queueric = refl;
      }

  -- The same REMOVE of a file that was never written frees a pointer that was never set.
  pub serve_remove_unwritten :
      (c : Cell ℕ) (queued : List (Cell ℕ))
      → f.cont ≡ none
      → Settled s.fifo (c ∷ queued)
      → KeepsTail r.pathname (c ∷ queued)
      → serve_remove r s ≡ fault
  unfolding serve_remove remove_found
  serve_remove_unwritten c queued unset held keep' =
      let (p, o) = found s rows r.pathname f w present in
      let (t, rows', run, u, n) =
        h_delete-Updates s.table rows r.pathname p w.table o.looked keep in
      let (q, del, settled) = delete-Settled s.fifo r.pathname c queued held keep' in
      let run' : Hash.h_delete s.table f.path_name ≡ ok (true, t) = rw o.named run in
      let del' : delete s.fifo f.path_name ≡ ok (has r.pathname (c ∷ queued), q) = rw o.named del in
      ground (arith, o.contained, o.got, o.live, locked, mine, run', del', unset)

  -- REMOVE by the client that holds the lock of a file, at a server in order, where the tail
  -- pointer of the bucket survives, while no file is in the FIFO queue, reads through a null
  -- pointer.
  pub serve_remove_unqueued : Holds s.fifo [] → serve_remove r s ≡ fault
  unfolding serve_remove remove_found
  serve_remove_unqueued held =
      let (p, o) = found s rows r.pathname f w present in
      let (t, rows', run, u, n) =
        h_delete-Updates s.table rows r.pathname p w.table o.looked keep in
      let run' : Hash.h_delete s.table f.path_name ≡ ok (true, t) = rw o.named run in
      let dry = delete-nil s.fifo f.path_name held.head in
      ground (arith, o.contained, o.got, o.live, locked, mine, run', dry)
