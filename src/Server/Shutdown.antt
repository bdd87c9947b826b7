-- ===== src/Server/Shutdown.antt =====
-- source/server.c: what is done with the files at the end, by `signalHandler` (their names go to the
-- log) and `freeStruct`. The heap of files is that of Server.State; the list's own nodes are freed
-- with it.
pub mod Freed
pub mod Cleared
use file_storage_server.Prelude.{
  ℕ, zero, suc, ◌+◌, List, [], ◌∷◌, ◌++◌, Option, none, some, ltb, if◌then◌else◌, update, true,
  false,
}
use file_storage_server.Run.{Run, ok, fault, spin, ◌>>=◌, deref}
use file_storage_server.Text.{Text}
use file_storage_server.Lis.{Lis, load, free_node}
use file_storage_server.File.{File, free_block}
use file_storage_server.Server.State.{Server}

-- the names that `LOG_file` writes for one bucket
unfoldable pub log_bucket : ℕ → Lis ℕ → Option ℕ → Run (List Text)
unfolding load
log_bucket zero l cur = spin
log_bucket (suc f) l none = ok []
log_bucket (suc f) l (some a) = do
  n ← load l (some a)
  rest ← log_bucket f l n.next
  ok (n.key ∷ rest)

-- and for all of them
unfoldable pub log_left : List (Option (Lis ℕ)) → Run (List Text)
unfolding log_bucket
log_left [] = ok []
log_left (none ∷ bs) = log_left bs
log_left (some l ∷ bs) = do
  here ← if ltb 0 l.length then log_bucket (l.length + 1) l l.header else ok []
  rest ← log_left bs
  ok (here ++ rest)

-- `freeStruct` in one bucket: the file's contents, the file and the node, where the next node has
-- been read before
unfoldable pub free_bucket : ℕ → Lis ℕ → Option ℕ → (ℕ → Option File) → Run (ℕ → Option File)
unfolding load free_node free_block
free_bucket zero l cur files = spin
free_bucket (suc f) l none files = ok files
free_bucket (suc f) l (some a) files = do
  n ← load l (some a)
  x ← deref (files n.cont)
  _ ← free_block x.cont
  free_bucket f (free_node l a) n.next (update files n.cont none)

unfoldable pub free_buckets : List (Option (Lis ℕ)) → (ℕ → Option File) → Run (ℕ → Option File)
unfolding free_bucket
free_buckets [] files = ok files
free_buckets (none ∷ bs) files = free_buckets bs files
free_buckets (some l ∷ bs) files = do
  files' ← if ltb 0 l.length then free_bucket (l.length + 1) l l.header files else ok files
  free_buckets bs files'
