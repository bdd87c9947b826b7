-- ===== src/Tests/Removals.antt =====
-- REMOVE, READN, the end of a connection and of the server at a server whose one bucket has one file, locked by client 5.
use file_storage_server.Prelude.{
  ℕ, ◌%◌, ◌≡◌, refl, [], ◌∷◌, none, some, arith, inl, inr, pos, ◌-ℤ◌, if◌then◌else◌, Bool-cases,
  ◌==◌,
}
use file_storage_server.Run.{ok, fault}
use file_storage_server.Text.{Text, str_eq, str_eq_iff}
use file_storage_server.Lis.Seg.{Holds-Settled}
use file_storage_server.Lis.Insert.{create-Holds}
use file_storage_server.Lis.Search.{find}
use file_storage_server.Lis.Delete.{KeepsTail, remove}
use file_storage_server.Hash.{djb2}
use file_storage_server.Hash.Table.{home, lookup}
use file_storage_server.File.{File, IsWritten}
use file_storage_server.Protcol
use file_storage_server.Protcol.{Request}
use file_storage_server.Server.State.{Server}
use file_storage_server.Server.Write.{serve_remove}
use file_storage_server.Server.Invariant.{IsServer, view}
use file_storage_server.Server.Spec.{reply}
use file_storage_server.Server.Removed.{
  Removed, row_of, serve_remove-Removed, serve_remove_unqueued,
}
use file_storage_server.Server.Walk.{relaselock}
use file_storage_server.Server.Sent.{Readable}
use file_storage_server.Server.Release.{all_cells}
use file_storage_server.Prelude.{Option}
use file_storage_server.File.{read_block}
use file_storage_server.Protcol.{int_bytes}
use file_storage_server.Server.Shutdown.{log_left, free_buckets}
use file_storage_server.Server.Shutdown.Freed.{keys, IsFreed}
use file_storage_server.Server.Shutdown.Cleared.{free_buckets-Cleared}
use file_storage_server.Server.Ended.{Ended, relaselock-Ended}
use file_storage_server.Tests.Session.{start, ask}
use file_storage_server.Tests.Lists.{
  key_a, cell_a, one_row, one_bucket, one_bucket-IsTable, one_bucket-lookup, list_a,
}

abbrev pub held_file : File
held_file = record {
  isopen = 1;
  path_name = key_a;
  cont = some (1 ∷ 2 ∷ 3 ∷ []);
  dim = 3;
  fd = 5;
  lock = 1;
}

abbrev unqueued : Server
unqueued = record start {
  table = one_bucket;
  files = λ p. if p == 10 then some held_file else none;
  next_file = 11;
  actual_size = pos 3;
}

abbrev pub queued : Server
queued = record unqueued { fifo = list_a.0 }

pub one_row-lookup : (k : Text) → lookup one_row k ≡ (if str_eq key_a k then some 10 else none)
unfolding lookup home find
one_row-lookup k = let first : djb2 5381 k % 1 ≡ 0 = omega arith in rw first (ground arith)

one_key : (k : Text) (p : ℕ) → lookup one_row k ≡ some p → (p ≡ 10) × (key_a ≡ k)
one_key k p e = elim (Bool-cases (str_eq key_a k)) [
  | inl same ↦ (ground (arith, one_row-lookup k, e, same), (str_eq_iff key_a k).0 same)
  | inr other ↦ absurd (ground (arith, one_row-lookup k, e, other))
]

unqueued-IsServer : IsServer unqueued one_row
unqueued-IsServer = record {
  table = one_bucket-IsTable;
  stored = λ k p e. let (at, same) = one_key k p e in (held_file, rw at refl, same);
  below = λ k p e. let (at, same) = one_key k p e in omega arith;
}

pub queued-IsServer : IsServer queued one_row
queued-IsServer = record {
  table = unqueued-IsServer.table;
  stored = unqueued-IsServer.stored;
  below = unqueued-IsServer.below;
}

unqueued-view : view unqueued one_row key_a ≡ some held_file
unqueued-view = rw one_bucket-lookup refl

removal_leaves_none : KeepsTail key_a (row_of one_row key_a)
unfolding home djb2 remove str_eq
removal_leaves_none = inl refl

queue_leaves_none : KeepsTail key_a (cell_a ∷ [])
unfolding remove str_eq
queue_leaves_none = inl refl

-- clients 5 and 6 remove the file
abbrev by_holder : Request
by_holder = ask Protcol.remove_file 5 0 key_a [] 0

abbrev pub by_other : Request
by_other = ask Protcol.remove_file 6 0 key_a [] 0

serve_remove-Removed_example :
    Removed queued one_row key_a
      (pos 3 -ℤ pos 3)
      (remove key_a (cell_a ∷ []))
      (reply by_holder Protcol.success ∷ [])
      (serve_remove by_holder queued)
serve_remove-Removed_example =
    serve_remove-Removed queued one_row by_holder held_file queued-IsServer unqueued-view
      (omega arith) refl removal_leaves_none cell_a [] (1 ∷ 2 ∷ 3 ∷ [], refl)
      (Holds-Settled list_a.2) queue_leaves_none

serve_remove_unqueued_example : serve_remove by_holder unqueued ≡ fault
serve_remove_unqueued_example =
    serve_remove_unqueued unqueued one_row by_holder held_file unqueued-IsServer unqueued-view
      (omega arith) refl removal_leaves_none create-Holds

relaselock-Ended_example : Ended 5 queued one_row (relaselock 5 queued)
relaselock-Ended_example = relaselock-Ended 5 queued one_row queued-IsServer

pub queued-Readable : Readable queued.files (all_cells one_row)
unfolding read_block
queued-Readable = ((held_file, refl, refl), tt)

queued_is_written :
    (k : Text) (p : ℕ)
    → lookup one_row k ≡ some p
    → (f : File) × (queued.files p ≡ some f) × IsWritten f
queued_is_written k p e =
    let (at, same) = one_key k p e in (held_file, rw at refl, (1 ∷ 2 ∷ 3 ∷ [], refl))

free_buckets-Cleared_example :
    (log_left queued.table.buckets ≡ ok (keys (all_cells one_row)))
    × ((files : ℕ → Option File) × (free_buckets queued.table.buckets queued.files ≡ ok files)
        × IsFreed (all_cells one_row) queued.files files
        × ((k : Text) (p : ℕ) → lookup one_row k ≡ some p → files p ≡ none))
free_buckets-Cleared_example = free_buckets-Cleared queued one_row queued-IsServer queued_is_written
