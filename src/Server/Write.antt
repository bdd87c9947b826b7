-- ===== src/Server/Write.antt =====
-- source/server.c: the worker's answers to WRITE, APPEND and REMOVE.
use file_storage_server.Prelude.{
  ℕ, ◌+◌, List, ◌++◌, Option, none, some, ◌==◌, if◌then◌else◌, pos, ◌+ℤ◌, ◌-ℤ◌, ltb_ℤ,
}
use file_storage_server.Lis.{delete}
use file_storage_server.File.{File, append_file, read_block, free_block}
use file_storage_server.Protcol.{
  Request, success, not_present, not_open, not_permission, not_locked, server_full,
}
use file_storage_server.Server.State.{
  ServerConf, Act, ◌>>=◌, ◌>>◌, return, get, modify, run, send_message, log, load_file, store_file,
  contain, getvalue, h_delete,
}
use file_storage_server.Server.Capacity.{handler_capacity, enqueue_fifo}

-- `LOG` of the number of bytes
unfoldable pub log_bytes : Act (Unit {0})
unfolding log
log_bytes = do log "byte presenti:" (pos 0); n ← get λ s. s.actual_size; log "NB " n

-- The write itself: the new contents, the count of bytes, room for them, and the queue.
unfoldable pub write_found : ServerConf → Request → Option ℕ → File → Act (Unit {0})
unfolding append_file handler_capacity enqueue_fifo send_message log log_bytes
write_found sc r p f = do
  f' ← run λ s. append_file f r.contenuto r.size
  store_file p (some f')
  modify λ s. record s { actual_size = s.actual_size +ℤ pos r.size }
  fits ← get λ s. ltb_ℤ s.actual_size (pos sc.space)
  (if fits
      then (do send_message r.fd success; log "WR" (pos f'.dim))
      else (do log "AR" (pos 0); send_message r.fd server_full; handler_capacity sc r.fd))
  enqueue_fifo p
  log_bytes

unfoldable pub serve_write : ServerConf → Request → Act (Unit {0})
unfolding write_found send_message
serve_write sc r = do
  present ← contain r.pathname
  (if present
      then (do
        p ← getvalue r.pathname
        f ← load_file p
        (if f.isopen == 1
            then (if f.lock == 1
                then (if f.fd == r.fd
                    then write_found sc r p f
                    else send_message r.fd not_permission)
                else write_found sc r p f)
            else send_message r.fd not_open))
      else send_message r.fd not_present)

-- the file with `size` more bytes behind the `dim` that it has, in a new block; the old one is freed
unfoldable pub extend_file : File → Option (List ℕ) → ℕ → Act File
unfolding free_block
extend_file f contenuto size = do
  old ← run λ s. read_block f.cont f.dim
  more ← run λ s. read_block contenuto size
  run λ s. free_block f.cont
  return (record f { dim = f.dim + size; cont = some (old ++ more) })

-- The file is read again after `Handlercapacity`, which may have freed it.
unfoldable pub append_found : ServerConf → Request → Option ℕ → Act (Unit {0})
unfolding extend_file handler_capacity send_message log log_bytes
append_found sc r p = do
  over ← get λ s. ltb_ℤ (pos sc.space) s.actual_size
  (if over
      then (do send_message r.fd server_full; log "AR" (pos 0); handler_capacity sc r.fd)
      else return tt)
  f ← load_file p
  f' ← extend_file f r.contenuto r.size
  store_file p (some f')
  log_bytes
  send_message r.fd success

unfoldable pub serve_append : ServerConf → Request → Act (Unit {0})
unfolding append_found send_message
serve_append sc r = do
  present ← contain r.pathname
  (if present
      then (do
        p ← getvalue r.pathname
        modify λ s. record s { actual_size = s.actual_size +ℤ pos r.size }
        f ← load_file p
        (if f.isopen == 1 then append_found sc r p else send_message r.fd not_open))
      else send_message r.fd not_present)

-- The file leaves the table and the queue; its contents are freed, and then the file.
unfoldable pub remove_found : Request → Option ℕ → File → Act (Unit {0})
unfolding delete free_block send_message
remove_found r p f = do
  modify λ s. record s { actual_size = s.actual_size -ℤ pos f.dim }
  _ ← h_delete f.path_name
  d ← run λ s. delete s.fifo f.path_name
  modify λ s. record s { fifo = d.1 }
  run λ s. free_block f.cont
  store_file p none
  send_message r.fd success

unfoldable pub serve_remove : Request → Act (Unit {0})
unfolding remove_found send_message
serve_remove r = do
  present ← contain r.pathname
  (if present
      then (do
        p ← getvalue r.pathname
        f ← load_file p
        (if f.lock == 0
            then send_message r.fd not_locked
            else (if f.fd == r.fd then remove_found r p f else send_message r.fd not_permission)))
      else send_message r.fd not_present)
