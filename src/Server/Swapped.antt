-- ===== src/Server/Swapped.antt =====
-- OPEN with O_CREATE at a full table: the oldest file of the queue leaves the table for the new one.
use file_storage_server.Prelude.{
  ℕ, ◌+◌, ◌<◌, ◌≡◌, ◌≢◌, refl, sym, ◌∙◌, ap, subst, true, false, inl, inr, Bool, Bool-cases, List,
  [], ◌∷◌, ◌++◌, Option, none, some, arith, append_assoc, if◌then◌else◌, pos, length, get_or-set_ne,
  length-set, update_ne,
}
use file_storage_server.Run.{Run, ok}
use file_storage_server.Text.{Text, str_eq, str_eq_iff}
use file_storage_server.Lis.{free_node}
use file_storage_server.Lis.Seg.{Cell, Holds}
use file_storage_server.Lis.Delete.{KeepsTail}
use file_storage_server.Hash
use file_storage_server.Hash.{Hash}
use file_storage_server.Hash.Table.{home, lookup}
use file_storage_server.Hash.Change.{Updates}
use file_storage_server.Hash.Update.{added, hashins-added}
use file_storage_server.Hash.Removal.{dropped, h_delete-dropped}
use file_storage_server.File.{File, filecreate, open_file, read_block}
use file_storage_server.Protcol.{Request, int_bytes, too_much_file}
use file_storage_server.Server.State.{Server, ServerConf, Event, sent, log_line}
use file_storage_server.Server.Open.{swap_out, open_create}
use file_storage_server.Server.Spec.{reply}
use file_storage_server.Server.Invariant.{Rows, at_pointer, view, IsServer, missing}
use file_storage_server.Server.Create.{grown, grown-view, grown-IsServer}
use file_storage_server.Server.Evict.{take_fifo-Holds}
use file_storage_server.Server.Removed.{row_of}
use file_storage_server.Server.Sent.{contents, send_named-events}

-- what is sent and logged, with the file `g` that leaves and `n` files
abbrev pub swap_events : Request → File → ℕ → List Event
swap_events r g n =
    reply r too_much_file
    ∷ sent r.fd (int_bytes g.dim)
    ∷ sent r.fd (int_bytes (length g.path_name))
    ∷ sent r.fd g.path_name
    ∷ sent r.fd (contents g.cont g.dim)
    ∷ log_line "Numero file presenti:" (pos 0)
    ∷ log_line "NF " (pos n)
    ∷ []

-- The new file `f` has the place of `g` in the table; `g` is still in memory, and still counted.
pub record Swapped (s : Server) (rows : Rows) (k : Text) (f : File) (c : Cell ℕ) (g : File)
    (cs : List (Cell ℕ)) (events : List Event) (result : Run (Unit {0} × Server)) : Type 0 where
  pub after : Server
  pub rows' : Rows
  pub runs : result ≡ ok (tt, after)
  pub sound : IsServer after rows'
  pub reads :
      (q : Text)
      → view after rows' q
        ≡ (if str_eq q c.key then none else (if str_eq q k then some f else view s rows q))
  pub nelem : after.table.nelem ≡ s.table.nelem
  pub fifo : Holds after.fifo cs
  pub unfreed : after.files c.cont ≡ some g
  pub actual_size : after.actual_size ≡ s.actual_size
  pub traced : after.trace ≡ s.trace ++ events
  pub queueric : after.queueric ≡ s.queueric

-- A key leaves the table, and its file stays in memory.
module _ (s : Server) (rows rows' : Rows) (k : Text) (table : Hash ℕ) (w : IsServer s rows)
    (u : Updates s.table rows k none table rows') where
  listed_before : (q : Text) (p : ℕ) → lookup rows' q ≡ some p → lookup rows q ≡ some p
  listed_before q p e = elim (Bool-cases (str_eq q k)) [
    | inl same ↦ absurd (ground (arith, e, u.reads q, same))
    | inr other ↦ ground (arith, e, u.reads q, other)
  ]

  unlisted-IsServer : IsServer (record s { table = table }) rows'
  unlisted-IsServer = record {
    table = u.table;
    stored = λ q p e. w.stored q p (listed_before q p e);
    below = λ q p e. w.below q p (listed_before q p e);
  }

  unlisted-view :
      (q : Text)
      → view (record s { table = table }) rows' q ≡ (if str_eq q k then none else view s rows q)
  unlisted-view q = ap (at_pointer s.files) (u.reads q) ∙ pointer_if (str_eq q k) (lookup rows q)
    where
      pointer_if :
          (b : Bool) (o : Option ℕ)
          → at_pointer s.files (if b then none else o) ≡ (if b then none else at_pointer s.files o)
      pointer_if false o = refl
      pointer_if true o = refl

-- A cell in one bucket is nothing to the row of another.
row_of-added :
    (rows : Rows) (k q : Text) (c : Cell ℕ)
    → home k (length rows) ≢ home q (length rows)
    → row_of (added rows k c) q ≡ row_of rows q
row_of-added rows k q c apart =
    rw (length-set rows (home k (length rows)) (c ∷ row_of rows k)) (
      get_or-set_ne rows (home k (length rows)) (home q (length rows)) (c ∷ row_of rows k) [] apart)

module _ (s : Server) (rows : Rows) (r : Request) (f : File) (w : IsServer s rows)
    (named : f.path_name ≡ r.pathname) (absent : lookup rows r.pathname ≡ none) (c : Cell ℕ)
    (cs : List (Cell ℕ)) (g : File) (held : Holds s.fifo (c ∷ cs))
    (looked : lookup rows c.key ≡ some c.cont) (oldest : s.files c.cont ≡ some g) where
  oldest_apart :
      home r.pathname (length rows) ≢ home c.key (length rows) → str_eq c.key r.pathname ≡ false
  oldest_apart apart = elim (Bool-cases (str_eq c.key r.pathname)) [
    | inl same ↦
        absurd (apart (ap (λ k. home k (length rows)) (sym ((str_eq_iff c.key r.pathname).0 same))))
    | inr other ↦ other
  ]

  swap_out-Swapped :
      home r.pathname (length rows) ≢ home c.key (length rows)
      → KeepsTail c.key (row_of rows c.key)
      → read_block g.cont g.dim ≡ ok (contents g.cont g.dim)
      → Swapped s rows r.pathname f c g cs (swap_events r g s.table.nelem) (swap_out r f s)
  unfolding swap_out
  swap_out-Swapped apart keep readable =
      let k = r.pathname in
      let (t, cell, run, u, n) = hashins-added s.table rows k s.next_file w.table absent in
      let rows₁ = added rows k cell in
      let other = oldest_apart apart in
      let looked₁ : lookup rows₁ c.key ≡ some c.cont = u.reads c.key ∙ rw other looked in
      let keep₁ : KeepsTail c.key (row_of rows₁ c.key) =
        subst (KeepsTail c.key) (sym (row_of-added rows k c.key cell apart)) keep in
      let (t₂, deleted, u₂, n₂) = h_delete-dropped t rows₁ c.key c.cont u.table looked₁ keep₁ in
      let s₁ = grown s rows k f w named t rows₁ u in
      let w₁ : IsServer s₁ rows₁ = grown-IsServer s rows k f w named t rows₁ u in
      let (q, taken, left) = take_fifo-Holds s₁ c cs held in
      let low = w.below c.key c.cont looked in
      let live : s₁.files c.cont ≡ some g =
        update_ne s.files s.next_file c.cont (some f) (omega arith) ∙ oldest in
      let (g', at, key) = w.stored c.key c.cont looked in
      let key' : g.path_name ≡ c.key =
        let same : g' ≡ g = ground (arith, at, oldest) in
        subst (λ (x : File). x.path_name ≡ c.key) same key in
      let w₂ = unlisted-IsServer s₁ rows₁ (dropped rows₁ c.key) c.key t₂ w₁ u₂ in
      let run₁ : Hash.hashins s.table f.path_name s.next_file ≡ ok t = rw named run in
      let deleted₁ : Hash.h_delete t g.path_name ≡ ok (true, t₂) = rw key' deleted in
      let number : t₂.nelem ≡ s.table.nelem = omega (arith, n, n₂) in
      let s₂ : Server = record s₁ { fifo = q; trace = s.trace ++ reply r too_much_file ∷ [] } in
      let one = send_named-events r.fd g (length g.path_name) g.path_name s₂ readable in
      let a = reply r too_much_file in
      let file : List Event =
        sent r.fd (int_bytes g.dim)
        ∷ sent r.fd (int_bytes (length g.path_name))
        ∷ sent r.fd g.path_name
        ∷ sent r.fd (contents g.cont g.dim)
        ∷ [] in
      let b = log_line "Numero file presenti:" (pos 0) in
      let e₁ = append_assoc s.trace (a ∷ []) file in
      let e₂ = append_assoc s.trace (a ∷ file) (b ∷ []) in
      let e₃ =
        append_assoc s.trace (a ∷ file ++ b ∷ []) (log_line "NF " (pos s.table.nelem) ∷ []) in
      record {
        after = record s₁ {
          table = t₂;
          fifo = free_node q c.addr;
          trace = s.trace ++ swap_events r g s.table.nelem;
        };
        rows' = dropped rows₁ c.key;
        runs = ground (arith, run₁, taken, live, one, deleted₁, number, e₁, e₂, e₃);
        sound = record { table = w₂.table; stored = w₂.stored; below = w₂.below };
        reads = λ q.
            unlisted-view s₁ rows₁ (dropped rows₁ c.key) c.key t₂ w₁ u₂ q
            ∙ ap (λ (v : Option File). if str_eq q c.key then none else v)
                (grown-view s rows k f w named t rows₁ u q);
        nelem = number;
        fifo = left;
        unfreed = live;
        actual_size = refl;
        traced = refl;
        queueric = refl;
      }

module _ (sc : ServerConf) (raw : File) (s : Server) (rows : Rows) (r : Request)
    (w : IsServer s rows) where
  -- OPEN with O_CREATE of a path name that has no file, at a server in order whose table is full
  -- and whose FIFO queue is not empty, where the oldest file of the queue stands in the table under
  -- its name, in another bucket than the new one and so that the tail pointer stays right when it
  -- leaves, and has readable contents: TOMUCHFILE and the oldest file are sent; the new file, open,
  -- has its place in the table and every other name is as before, the number of files too; the
  -- queue is the rest; and the file that left is still in memory and still counted in
  -- `actual_size`.
  pub open_create-Swapped :
      (c : Cell ℕ) (cs : List (Cell ℕ)) (g : File)
      → view s rows r.pathname ≡ none
      → sc.maxf < s.table.nelem + 1
      → Holds s.fifo (c ∷ cs)
      → lookup rows c.key ≡ some c.cont
      → s.files c.cont ≡ some g
      → home r.pathname (length rows) ≢ home c.key (length rows)
      → KeepsTail c.key (row_of rows c.key)
      → read_block g.cont g.dim ≡ ok (contents g.cont g.dim)
      → Swapped s rows r.pathname
          (open_file (filecreate raw r.pathname r.fd))
          c
          g
          cs
          (swap_events r g s.table.nelem)
          (open_create sc raw r s)
  unfolding open_create
  open_create-Swapped c cs g absent full held looked oldest apart keep readable =
      let (gone, none') = missing s rows r.pathname w absent in
      let f = open_file (filecreate raw r.pathname r.fd) in
      let same : open_create sc raw r s ≡ swap_out r f s = ground (arith, none', full) in
      subst (Swapped s rows r.pathname f c g cs (swap_events r g s.table.nelem)) (sym same)
        (swap_out-Swapped s rows r f w refl gone c cs g held looked oldest apart keep readable)
