-- ===== src/Server/Access.antt =====
-- source/server.c: the worker's answers to LOCKS, UNLOCKS, READ and CLOSE.
use file_storage_server.Prelude.{ℕ, Option, none, some, pos, ◌==◌, if◌then◌else◌}
use file_storage_server.Lis.{insert_t}
use file_storage_server.File.{File, lock_file, unlock_file, close_file}
use file_storage_server.Protcol.{Request, success, not_present, not_open, not_permission}
use file_storage_server.Server.State.{
  Act, ◌>>=◌, ◌>>◌, modify, run, emit, signal_request, send_message, send_file, log, load_file,
  store_file, contain, getvalue,
}

-- The request goes back to the tail of the queue, without its contents.
unfoldable pub requeue : Request → Act (Unit {0})
unfolding insert_t
requeue r = do
  queue ← run λ s. insert_t s.queueric (record r { contenuto = none }) r.pathname
  modify λ s. record s { queueric = queue }
  emit signal_request

-- what LOCKS does with the file of the request
unfoldable pub lock_found : Request → Option ℕ → File → Act (Unit {0})
unfolding requeue lock_file send_message log
lock_found r p f =
    if f.isopen == 1
    then (if f.lock == 1
        then (if f.fd == r.fd
            then (do
              store_file p (some (lock_file f))
              send_message r.fd success
              log "LCK" (pos 0))
            else requeue r)
        else (do
          store_file p (some (record (lock_file f) { fd = r.fd }))
          send_message r.fd success
          log "LCK" (pos 0)))
    else send_message r.fd not_open

unfoldable pub serve_locks : Request → Act (Unit {0})
unfolding lock_found send_message
serve_locks r = do
  present ← contain r.pathname
  (if present
      then (do p ← getvalue r.pathname; f ← load_file p; lock_found r p f)
      else send_message r.fd not_present)

unfoldable pub serve_unlocks : Request → Act (Unit {0})
unfolding unlock_file send_message log
serve_unlocks r = do
  present ← contain r.pathname
  (if present
      then (do
        p ← getvalue r.pathname
        f ← load_file p
        (if f.fd == r.fd
            then (do
              store_file p (some (unlock_file f))
              send_message r.fd success
              log "ULK" (pos 0))
            else send_message r.fd not_permission))
      else send_message r.fd not_present)

-- the answer to READ that carries the file
unfoldable pub send_contents : Request → File → Act (Unit {0})
unfolding send_message send_file log
send_contents r f = do send_message r.fd success; send_file r.fd f.cont f.dim; log "RD" (pos f.dim)

unfoldable pub serve_read : Request → Act (Unit {0})
unfolding send_contents send_message
serve_read r = do
  present ← contain r.pathname
  (if present
      then (do
        p ← getvalue r.pathname
        f ← load_file p
        (if f.isopen == 1
            then (if f.lock == 1
                then (if f.fd == r.fd then send_contents r f else send_message r.fd not_permission)
                else send_contents r f)
            else send_message r.fd not_open))
      else send_message r.fd not_present)

unfoldable pub serve_close : Request → Act (Unit {0})
unfolding close_file send_message log
serve_close r = do
  present ← contain r.pathname
  (if present
      then (do
        p ← getvalue r.pathname
        f ← load_file p
        store_file p (some (close_file f))
        send_message r.fd success
        log "CL" (pos 0))
      else send_message r.fd not_present)
