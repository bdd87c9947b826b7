-- ===== src/Server/Handled.antt =====
-- Each request on one path name, answered whether or not there is such a file; and a request for a
-- lock that another client holds, which waits in the queue.
use file_storage_server.Prelude.{◌≡◌, refl, false, List, [], ◌∷◌, ◌++◌, Option, none, some, arith}
use file_storage_server.Run.{Run, ok}
use file_storage_server.Lis.{Lis}
use file_storage_server.Lis.Seg.{Cell, Holds}
use file_storage_server.Lis.Insert.{new_cell, insert_t-Holds}
use file_storage_server.File.{File}
use file_storage_server.Protcol.{Request, not_present}
use file_storage_server.Server.State.{Server, signal_request}
use file_storage_server.Server.Open.{open_lock, open_only}
use file_storage_server.Server.Access.{serve_locks, serve_unlocks, serve_close}
use file_storage_server.Server.Invariant.{Rows, view, IsServer, found, missing}
use file_storage_server.Server.Refine.{
  open_only-Serves, open_lock-Serves, serve_close-Serves, serve_unlocks-Serves,
}
use file_storage_server.Server.Spec.{
  Outcome, reply, may_use, spec_open, spec_open_lock, spec_unlock, spec_close, Serves, Handled,
}

module _ (s : Server) (rows : Rows) (r : Request) (w : IsServer s rows) where
  -- a handler is handled as it handles a present file and a missing one
  pub both :
      (spec : Request → File → Outcome) (result : Run (Unit {0} × Server))
      → ((f : File) → view s rows r.pathname ≡ some f → Serves s rows r.pathname (spec r f) result)
      → (view s rows r.pathname ≡ none
          → result ≡ ok (tt, record s { trace = s.trace ++ reply r not_present ∷ [] }))
      → Handled s rows r spec result (view s rows r.pathname)
  both spec result present absent = go (view s rows r.pathname) refl
    where
      go :
          (o : Option File)
          → view s rows r.pathname ≡ o
          → Handled s rows r spec result (view s rows r.pathname)
      go none e = rw e (absent e)
      go (some f) e = rw e (present f e)

  -- OPEN with O_OPEN at a server in order: NOTPRESENT for a path name with no file, and else the
  -- file is open and SUCCESS is sent; nothing else changes.
  pub open_only-Handled : Handled s rows r spec_open (open_only r s) (view s rows r.pathname)
  unfolding open_only
  open_only-Handled =
      both spec_open (open_only r s) (λ f e. open_only-Serves s rows r f w e)
        (λ e. let (a, b) = missing s rows r.pathname w e in ground (arith, b))

  -- OPEN with O_LOCK at a server in order: NOTPRESENT for a path name with no file, and else the
  -- file is open and the lock and the ownership are the client's, even if another client held them;
  -- nothing else changes.
  pub open_lock-Handled : Handled s rows r spec_open_lock (open_lock r s) (view s rows r.pathname)
  unfolding open_lock
  open_lock-Handled =
      both spec_open_lock (open_lock r s) (λ f e. open_lock-Serves s rows r f w e)
        (λ e. let (a, b) = missing s rows r.pathname w e in ground (arith, b))

  -- UNLOCKS at a server in order: NOTPRESENT for a path name with no file, NOTPERMISSION for a
  -- client that is not the file's, and else the lock is off and SUCCESS is sent; nothing else
  -- changes.
  pub serve_unlocks-Handled :
      Handled s rows r spec_unlock (serve_unlocks r s) (view s rows r.pathname)
  unfolding serve_unlocks
  serve_unlocks-Handled =
      both spec_unlock (serve_unlocks r s) (λ f e. serve_unlocks-Serves s rows r f w e)
        (λ e. let (a, b) = missing s rows r.pathname w e in ground (arith, b))

  -- CLOSE at a server in order: NOTPRESENT for a path name with no file, and else the file is
  -- closed, whoever asks, and SUCCESS is sent; nothing else changes.
  pub serve_close-Handled : Handled s rows r spec_close (serve_close r s) (view s rows r.pathname)
  unfolding serve_close
  serve_close-Handled =
      both spec_close (serve_close r s) (λ f e. serve_close-Serves s rows r f w e)
        (λ e. let (a, b) = missing s rows r.pathname w e in ground (arith, b))

  -- LOCKS for an open file that another client holds, at a server in order: no answer is sent and
  -- no file changes; the request goes without its payload to the tail of the request queue, and the
  -- waiting workers are signalled.
  pub serve_locks_waits :
      (f : File) (waiting : List (Cell Request))
      → view s rows r.pathname ≡ some f
      → f.isopen ≡ 1
      → may_use f r ≡ false
      → Holds s.queueric waiting
      → (queue : Lis Request) × (serve_locks r s
          ≡ ok (tt, record s { queueric = queue; trace = s.trace ++ signal_request ∷ [] }))
        × Holds queue
            (waiting ++ new_cell s.queueric (record r { contenuto = none }) r.pathname ∷ [])
  unfolding serve_locks
  serve_locks_waits f waiting present opened held queued =
      let (p, o) = found s rows r.pathname f w present in
      let (queue, run, holds) =
        insert_t-Holds s.queueric waiting (record r { contenuto = none }) r.pathname queued in
      (queue, ground (arith, o.contained, o.got, o.live, opened, held, run), holds)
