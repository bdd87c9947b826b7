-- ===== src/Server/Expelled.antt =====
-- `Handlercapacity`: what becomes of the files that it throws out.
pub mod Rounds
use file_storage_server.Prelude.{
  [], ℕ, suc, ◌+◌, ◌≡◌, ◌∙◌, ap, true, false, Bool, List, ◌∷◌, ◌++◌, Option, none, some, arith,
  length, append_assoc, if◌then◌else◌, pos,
}
use file_storage_server.Run.{Run, ok}
use file_storage_server.Text.{Text, str_eq}
use file_storage_server.Lis.{Lis, load, free_node}
use file_storage_server.Lis.Seg.{Cell, Holds}
use file_storage_server.Lis.Remove.{take_head-Holds, free_node-Holds}
use file_storage_server.Lis.Delete.{KeepsTail}
use file_storage_server.Hash
use file_storage_server.Hash.Table.{lookup, contain-lookup, getvalue-lookup, is_some}
use file_storage_server.Hash.{Hash}
use file_storage_server.Hash.Change.{Updates}
use file_storage_server.Hash.Removal.{dropped, h_delete-dropped}
use file_storage_server.File.{File, IsWritten, read_block}
use file_storage_server.Protcol.{int_bytes}
use file_storage_server.Server.State.{Server, Event, sent, log, log_line}
use file_storage_server.Server.Capacity.{send_out}
use file_storage_server.Server.Invariant.{Rows, view, IsServer, Found}
use file_storage_server.Server.Removed.{row_of, shrunk}
use file_storage_server.Server.Sent.{contents, extended, send_named-events}

-- a path name and the pointer to its file
abbrev pub Item : Type 0
Item = Text × ℕ

unfoldable pub is_named : Text → List Item → Bool
unfolding str_eq
is_named q [] = false
is_named q (x ∷ xs) = if str_eq q x.0 then true else is_named q xs

-- the table's rows without the names
abbrev pub drop_all : Rows → List Item → Rows
drop_all rows [] = rows
drop_all rows (x ∷ xs) = drop_all (dropped rows x.0) xs

-- One after the other the names stand in the table, and the tail pointers of their buckets survive.
abbrev pub CanLeave : Rows → List Item → Type 0
CanLeave rows [] = Unit {0}
CanLeave rows (x ∷ xs) =
    (lookup rows x.0 ≡ some x.1)
    × (KeepsTail x.0 (row_of rows x.0) × CanLeave (dropped rows x.0) xs)

-- The names differ, and their files' contents were set and are as long as they say.
abbrev pub AreLegible : (Text → Option File) → List Item → Type 0
AreLegible m [] = Unit {0}
AreLegible m (x ∷ xs) =
    ((f : File) × (m x.0 ≡ some f)
      × IsWritten f
      × (read_block f.cont f.dim ≡ ok (contents f.cont f.dim)))
    × ((is_named x.0 xs ≡ false) × AreLegible m xs)

-- what is sent and logged for one file, and for all of them
abbrev pub expel_one : ℕ → Option File → List Event
expel_one fd none = []
expel_one fd (some f) =
    sent fd (int_bytes f.dim)
    ∷ sent fd (int_bytes (length f.path_name))
    ∷ sent fd f.path_name
    ∷ sent fd (contents f.cont f.dim)
    ∷ log_line "RD" (pos f.dim)
    ∷ []

abbrev pub expel_events : ℕ → (Text → Option File) → List Item → List Event
expel_events fd m [] = []
expel_events fd m (x ∷ xs) = expel_one fd (m x.0) ++ expel_events fd m xs

-- The files of these names are gone, and it is otherwise as it was.
pub record Expelled (s : Server) (rows : Rows) (xs : List Item) (events : List Event)
    (result : Run (Unit {0} × Server)) : Type 0 where
  pub after : Server
  pub runs : result ≡ ok (tt, after)
  pub sound : IsServer after (drop_all rows xs)
  pub reads :
      (q : Text) → view after (drop_all rows xs) q ≡ (if is_named q xs then none else view s rows q)
  pub looks :
      (q : Text) → lookup (drop_all rows xs) q ≡ (if is_named q xs then none else lookup rows q)
  pub nelem : after.table.nelem + length xs ≡ s.table.nelem
  pub traced : after.trace ≡ s.trace ++ events
  pub fifo : after.fifo ≡ s.fifo
  pub queueric : after.queueric ≡ s.queueric
  pub actual_size : after.actual_size ≡ s.actual_size

-- the file behind a name of the table
pub found_at :
    (s : Server) (rows : Rows) (k : Text) (p : ℕ)
    → IsServer s rows
    → lookup rows k ≡ some p
    → (f : File) × Found s rows k p f
found_at s rows k p w e =
    let (f, live, named) = w.stored k p e in
    (
      f,
      record {
        looked = e;
        contained = contain-lookup s.table rows k w.table ∙ ap (λ o. ok (is_some o)) e;
        got = getvalue-lookup s.table rows k w.table ∙ ap ok e;
        live = live;
        named = named;
      },
    )

module _ (fd : ℕ) (l : Lis ℕ) (c : Cell ℕ) (cs : List (Cell ℕ)) (s : Server) (rows : Rows)
    (f : File) (h : Holds l (c ∷ cs)) (w : IsServer s rows) (o : Found s rows c.key c.cont f)
    (keep : KeepsTail c.key (row_of rows c.key)) (written : IsWritten f)
    (readable : read_block f.cont f.dim ≡ ok (contents f.cont f.dim)) where
  -- the server behind one round
  abbrev pub one_less :
      (table : Hash ℕ) → Updates s.table rows c.key none table (dropped rows c.key) → Server
  one_less table u =
      extended (shrunk s rows c.key c.cont f w o table (dropped rows c.key) u)
        (expel_one fd (some f))

  pub send_out_round :
      (i : ℕ)
      → (rest : Lis ℕ) × (table : Hash ℕ) × (u : Updates s.table rows c.key none table
          (dropped rows c.key))
        × (send_out (suc i) fd l s ≡ send_out i fd rest (one_less table u))
        × Holds rest cs
        × (table.nelem + 1 ≡ s.table.nelem)
  unfolding send_out load log
  send_out_round i =
      let (rest, run, at, holds) = take_head-Holds l c cs h in
      let (table, deleted, u, n) =
        h_delete-dropped s.table rows c.key c.cont w.table o.looked keep in
      let deleted' : Hash.h_delete s.table f.path_name ≡ ok (true, table) = rw o.named deleted in
      let one = send_named-events fd f (length f.path_name) f.path_name s readable in
      let named : List Event =
        sent fd (int_bytes f.dim)
        ∷ sent fd (int_bytes (length f.path_name))
        ∷ sent fd f.path_name
        ∷ sent fd (contents f.cont f.dim)
        ∷ [] in
      let e = append_assoc s.trace named (log_line "RD" (pos f.dim) ∷ []) in
      let live = o.live in
      (
        free_node rest c.addr,
        table,
        u,
        ground (arith, run, at, live, written.1, one, deleted', e),
        free_node-Holds rest cs c.addr h.distinct.0 holds,
        n,
      )
