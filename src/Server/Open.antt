-- ===== src/Server/Open.antt =====
-- source/server.c: the worker's answer to OPEN, a branch for each value of `flags`.
-- `raw` is what the memory held in which the new file is made.
use file_storage_server.Prelude.{◌+◌, some, pos, leb, if◌then◌else◌, length}
use file_storage_server.File.{File, filecreate, open_file, lock_file}
use file_storage_server.Protcol.{
  Request, has_flag, o_create, o_lock, o_crlk, o_open, success, not_present, yes_contain,
  too_much_file,
}
use file_storage_server.Server.State.{
  ServerConf, Act, ◌>>=◌, ◌>>◌, return, get, send_message, log, load_file, store_file, new_file,
  contain, getvalue, hashins, h_delete,
}
use file_storage_server.Server.Capacity.{take_fifo, free_fifo, send_named}

-- `LOG` of the number of files
unfoldable pub log_nelem : Act (Unit {0})
unfolding log
log_nelem = do log "Numero file presenti:" (pos 0); n ← get λ s. s.table.nelem; log "NF " (pos n)

-- The new file goes into the table; the oldest file in the queue goes to the client and out of the
-- table.
unfoldable pub swap_out : Request → File → Act (Unit {0})
unfolding take_fifo free_fifo send_named send_message log_nelem
swap_out r f = do
  p ← new_file f
  hashins f.path_name p
  (ftosend, q, key) ← take_fifo
  send_message r.fd too_much_file
  fdel ← load_file (some q)
  send_named r.fd fdel (length fdel.path_name) fdel.path_name
  free_fifo ftosend
  h_delete fdel.path_name >>= λ _. log_nelem

unfoldable pub insert_new : Request → File → Act (Unit {0})
unfolding send_message log_nelem
insert_new r f = do p ← new_file f; hashins f.path_name p; send_message r.fd success; log_nelem

unfoldable pub open_create : ServerConf → File → Request → Act (Unit {0})
unfolding swap_out insert_new filecreate open_file send_message
open_create sc raw r = do
  present ← contain r.pathname
  n ← get λ s. s.table.nelem
  let f = open_file (filecreate raw r.pathname r.fd)
  (if present
      then send_message r.fd yes_contain
      else (if leb (n + 1) sc.maxf then insert_new r f else swap_out r f))

unfoldable pub open_lock : Request → Act (Unit {0})
unfolding lock_file open_file send_message log
open_lock r = do
  present ← contain r.pathname
  (if present
      then (do
        p ← getvalue r.pathname
        f ← load_file p
        store_file p (some (open_file (record (lock_file f) { fd = r.fd })))
        send_message r.fd success
        log "LCK" (pos 0))
      else send_message r.fd not_present)

unfoldable pub open_crlk : ServerConf → File → Request → Act (Unit {0})
unfolding swap_out insert_new filecreate open_file lock_file send_message
open_crlk sc raw r = do
  present ← contain r.pathname
  n ← get λ s. s.table.nelem
  let f = lock_file (open_file (filecreate raw r.pathname r.fd))
  (if present
      then send_message r.fd yes_contain
      else (if leb (n + 1) sc.maxf then insert_new r f else swap_out r f))

unfoldable pub open_only : Request → Act (Unit {0})
unfolding open_file send_message
open_only r = do
  present ← contain r.pathname
  (if present
      then (do
        p ← getvalue r.pathname
        f ← load_file p
        store_file p (some (open_file f))
        send_message r.fd success)
      else send_message r.fd not_present)

-- the four tests of `flags`, one after the other
unfoldable pub serve_open : ServerConf → File → Request → Act (Unit {0})
unfolding open_create open_lock open_crlk open_only has_flag
serve_open sc raw r = do
  if has_flag r.flags o_create then open_create sc raw r else return tt
  if has_flag r.flags o_lock then open_lock r else return tt
  if has_flag r.flags o_crlk then open_crlk sc raw r else return tt
  if has_flag r.flags o_open then open_only r else return tt
