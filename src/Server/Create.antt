-- ===== src/Server/Create.antt =====
-- OPEN with O_CREATE and with O_CREATE|O_LOCK where the table has room for one more file.
use file_storage_server.Prelude.{
  ℕ, ◌+◌, ◌≤◌, ◌≡◌, refl, sym, subst, ◌∙◌, List, [], ◌∷◌, ◌++◌, Option, none, some, if◌then◌else◌,
  pos, arith, append_assoc, Bool-cases, inl, inr, update, update_self, update_ne,
}
use file_storage_server.Run.{Run, ok}
use file_storage_server.Text.{Text, str_eq, str_eq_iff}
use file_storage_server.Hash
use file_storage_server.Hash.{Hash}
use file_storage_server.Hash.Table.{lookup}
use file_storage_server.Hash.Update.{hashins-Updates}
use file_storage_server.Hash.Change.{Updates}
use file_storage_server.File.{File, filecreate, open_file, lock_file}
use file_storage_server.Protcol.{Request, success, yes_contain}
use file_storage_server.Server.State.{Server, ServerConf, Event, log_line}
use file_storage_server.Server.Open.{insert_new, open_create, open_crlk}
use file_storage_server.Server.Invariant.{Rows, at_pointer, view, IsServer, found, missing}
use file_storage_server.Server.Spec.{reply}

-- The server has one more file, `f` under the name `k`, and is otherwise as it was.
pub record Created (s : Server) (rows : Rows) (k : Text) (f : File) (events : List Event)
    (result : Run (Unit {0} × Server)) : Type 0 where
  pub after : Server
  pub rows' : Rows
  pub runs : result ≡ ok (tt, after)
  pub sound : IsServer after rows'
  pub reads : (q : Text) → view after rows' q ≡ (if str_eq q k then some f else view s rows q)
  pub nelem : after.table.nelem ≡ s.table.nelem + 1
  pub size : after.table.size ≡ s.table.size
  pub traced : after.trace ≡ s.trace ++ events
  pub fifo : after.fifo ≡ s.fifo
  pub queueric : after.queueric ≡ s.queueric
  pub actual_size : after.actual_size ≡ s.actual_size

module _ (s : Server) (rows : Rows) (k : Text) (f : File) (w : IsServer s rows)
    (named : f.path_name ≡ k) (table : Hash ℕ) (rows' : Rows)
    (u : Updates s.table rows k (some s.next_file) table rows') where
  -- the server with the new file in the heap and in the table
  abbrev pub grown : Server
  grown = record s {
    files = update s.files s.next_file (some f);
    next_file = s.next_file + 1;
    table = table;
  }

  pub grown-view : (q : Text) → view grown rows' q ≡ (if str_eq q k then some f else view s rows q)
  grown-view q = rw (u.reads q) (go (lookup rows q) refl)
    where
      go :
          (o : Option ℕ)
          → lookup rows q ≡ o
          → at_pointer
              (update s.files s.next_file (some f))
              (if str_eq q k then some s.next_file else lookup rows q)
            ≡ (if str_eq q k then some f else at_pointer s.files (lookup rows q))
      go none e = rw e (ground (arith, update_self s.files s.next_file (some f)))
      go (some p) e = rw e (
          ground (
            arith,
            update_self s.files s.next_file (some f),
            update_ne s.files s.next_file p (some f),
            w.below q p e,
          ))

  pub grown-IsServer : IsServer grown rows'
  grown-IsServer = record {
    table = u.table;
    stored = λ q p e. elim (Bool-cases (str_eq q k)) [
      | inl same ↦
          let at : p ≡ s.next_file = ground (arith, e, u.reads q, same) in
          (
            f,
            subst (λ x. update s.files s.next_file (some f) x ≡ some f) (sym at)
                (update_self s.files s.next_file (some f)),
            named ∙ sym ((str_eq_iff q k).0 same),
          )
      | inr other ↦
          let old : lookup rows q ≡ some p = ground (arith, e, u.reads q, other) in
          let (g, live, name) = w.stored q p old in
          let low = w.below q p old in
          (g, update_ne s.files s.next_file p (some f) (omega arith) ∙ live, name)
    ];
    below = λ q p e. elim (Bool-cases (str_eq q k)) [
      | inl same ↦ ground (arith, e, u.reads q, same)
      | inr other ↦
          let old : lookup rows q ≡ some p = ground (arith, e, u.reads q, other) in
          let low = w.below q p old in omega arith
    ];
  }

-- the events of a creation
abbrev pub creation_events : Request → ℕ → List Event
creation_events r n =
    reply r success ∷ log_line "Numero file presenti:" (pos 0) ∷ log_line "NF " (pos n) ∷ []

insert_new-Created :
    (s : Server) (rows : Rows) (r : Request) (f : File)
    → IsServer s rows
    → f.path_name ≡ r.pathname
    → lookup rows r.pathname ≡ none
    → Created s rows r.pathname f (creation_events r (s.table.nelem + 1)) (insert_new r f s)
unfolding insert_new
insert_new-Created s rows r f w named absent =
    let (t, rows', run, u, n) =
      hashins-Updates s.table rows r.pathname s.next_file w.table absent in
    let g = grown s rows r.pathname f w named t rows' u in
    let sound = grown-IsServer s rows r.pathname f w named t rows' u in
    let run' : Hash.hashins s.table f.path_name s.next_file ≡ ok t = rw named run in
    let e₁ =
      append_assoc s.trace (reply r success ∷ []) (log_line "Numero file presenti:" (pos 0) ∷ []) in
    let e₂ =
      append_assoc s.trace (reply r success ∷ log_line "Numero file presenti:" (pos 0) ∷ [])
        (log_line "NF " (pos (s.table.nelem + 1)) ∷ []) in
    record {
      after = record g { trace = s.trace ++ creation_events r (s.table.nelem + 1) };
      rows' = rows';
      runs = ground (arith, run', n, e₁, e₂);
      sound = record { table = sound.table; stored = sound.stored; below = sound.below };
      reads = grown-view s rows r.pathname f w named t rows' u;
      nelem = n;
      size = u.size;
      traced = refl;
      fifo = refl;
      queueric = refl;
      actual_size = refl;
    }

module _ (sc : ServerConf) (raw : File) (s : Server) (rows : Rows) (r : Request)
    (w : IsServer s rows) where
  -- OPEN with O_CREATE for a path name that has no file, at a server in order whose table has room:
  -- the server afterwards is in order, has one file more, the new open unlocked one under that
  -- name, every other name as before, the queues and the count of bytes as they were, and SUCCESS
  -- is sent and the new number of files logged.
  pub open_create-Created :
      view s rows r.pathname ≡ none
      → s.table.nelem + 1 ≤ sc.maxf
      → Created s rows r.pathname
          (open_file (filecreate raw r.pathname r.fd))
          (creation_events r (s.table.nelem + 1))
          (open_create sc raw r s)
  unfolding open_create
  open_create-Created absent room =
      let (gone, none') = missing s rows r.pathname w absent in
      subst (Created s rows r.pathname _ (creation_events r (s.table.nelem + 1)))
        (ground (arith, none'))
        (insert_new-Created s rows r (open_file (filecreate raw r.pathname r.fd)) w refl gone)

  -- OPEN with O_CREATE and O_LOCK does the same with the file locked by its creator.
  pub open_crlk-Created :
      view s rows r.pathname ≡ none
      → s.table.nelem + 1 ≤ sc.maxf
      → Created s rows r.pathname
          (lock_file (open_file (filecreate raw r.pathname r.fd)))
          (creation_events r (s.table.nelem + 1))
          (open_crlk sc raw r s)
  unfolding open_crlk
  open_crlk-Created absent room =
      let (gone, none') = missing s rows r.pathname w absent in
      subst (Created s rows r.pathname _ (creation_events r (s.table.nelem + 1)))
        (ground (arith, none'))
        (insert_new-Created s rows r (lock_file (open_file (filecreate raw r.pathname r.fd))) w refl
          gone)

  -- At a server in order, both kinds of creation answer YESCONTAIN and change nothing else if the
  -- path name has a file.
  pub open_create_taken :
      (f : File)
      → view s rows r.pathname ≡ some f
      → (open_create sc raw r s ≡ ok (tt, record s { trace = s.trace ++ reply r yes_contain ∷ [] }))
        × (open_crlk sc raw r s ≡ ok (tt, record s { trace = s.trace ++ reply r yes_contain ∷ [] }))
  unfolding open_create open_crlk
  open_create_taken f present =
      let (p, o) = found s rows r.pathname f w present in
      (ground (arith, o.contained), ground (arith, o.contained))
