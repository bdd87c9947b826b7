-- ===== src/Server/Walk.antt =====
-- source/server.c: the loops over all the files of the table, for READN (`readFiles`) and at the end
-- of a connection (`relaselock`). The buckets are as many as `Hash->size`.
use file_storage_server.Prelude.{
  ℕ, zero, suc, ◌+◌, ◌-◌, true, false, ◌&&◌, List, [], ◌∷◌, ◌++◌, Option, none, some, ltb, ◌==◌,
  if◌then◌else◌, ℤ, pos, negsuc, ◌-ℤ◌, length,
}
use file_storage_server.Run.{spin}
use file_storage_server.Lis.{Lis, load}
use file_storage_server.File.{unlock_file}
use file_storage_server.Protcol.{Request, success, empty, int_bytes}
use file_storage_server.Server.State.{
  Act, ◌>>=◌, ◌>>◌, return, get, modify, run, emit, closed, signal_con, send, send_message, log,
  load_file, store_file,
}
use file_storage_server.Server.Capacity.{send_named}

-- `while (cur != NULL)` over the nodes of one bucket, sending each file; the count goes down with
-- each (below zero in the source, where it is at zero here: both end the outer loop)
unfoldable pub send_bucket : ℕ → Lis ℕ → Option ℕ → ℕ → ℕ → Act ℕ
unfolding load send_named log
send_bucket zero l p fd number s = spin
send_bucket (suc f) l none fd number s = return number s
send_bucket (suc f) l (some a) fd number s =
    (do
      n ← run λ s. load l (some a)
      file ← load_file (some n.cont)
      send_named fd file (length file.path_name + 1) (file.path_name ++ 0 ∷ [])
      log "RD" (pos file.dim)
      send_bucket f l n.next fd (number - 1))
      s

-- `while (number > 0 && i < Hash->size)`
unfoldable pub send_buckets : List (Option (Lis ℕ)) → ℕ → ℕ → Act (Unit {0})
unfolding send_bucket
send_buckets [] fd number s = return tt s
send_buckets (b ∷ bs) fd number s = elim (ltb 0 number) [
  | false ↦ return tt s
  | true ↦
      ((elim b [
        | none ↦ return number
        | some l ↦
            if ltb 0 l.length
            then send_bucket (l.length + 1) l l.header fd number
            else return number
      ])
          >>= send_buckets bs fd)
        s
]

-- how many files `readFiles` announces
unfoldable pub files_asked : ℤ → ℕ → ℕ
files_asked (pos zero) nelem = nelem
files_asked (pos (suc n)) nelem = if ltb nelem (suc n) then nelem else suc n
files_asked (negsuc n) nelem = nelem

unfoldable pub read_files : ℕ → ℤ → Act (Unit {0})
unfolding send_buckets files_asked
read_files fd n = do
  nelem ← get λ s. s.table.nelem
  let number = files_asked n nelem
  send fd (int_bytes number)
  bs ← get λ s. s.table.buckets
  send_buckets bs fd number

unfoldable pub serve_read_n : Request → Act (Unit {0})
unfolding read_files send_message
serve_read_n r = do
  nelem ← get λ s. s.table.nelem
  (if nelem == 0
      then send_message r.fd empty
      else (do send_message r.fd success; read_files r.fd r.flags))

-- the inner loop of `relaselock`
unfoldable pub unlock_bucket : ℕ → Lis ℕ → Option ℕ → ℕ → Act (Unit {0})
unfolding load unlock_file log
unlock_bucket zero l p fd s = spin
unlock_bucket (suc f) l none fd s = return tt s
unlock_bucket (suc f) l (some a) fd s =
    (do
      n ← run λ s. load l (some a)
      file ← load_file (some n.cont)
      (if file.fd == fd && file.lock == 1
          then (do store_file (some n.cont) (some (unlock_file file)); log "ULK" (pos 0))
          else return tt)
      unlock_bucket f l n.next fd)
      s

unfoldable pub unlock_buckets : List (Option (Lis ℕ)) → ℕ → Act (Unit {0})
unfolding unlock_bucket
unlock_buckets [] fd = return tt
unlock_buckets (b ∷ bs) fd = do
  elim b [
    | none ↦ return tt
    | some l ↦ if ltb 0 l.length then unlock_bucket (l.length + 1) l l.header fd else return tt
  ]
  unlock_buckets bs fd

unfoldable pub relaselock : ℕ → Act (Unit {0})
unfolding unlock_buckets
relaselock fd = do bs ← get λ s. s.table.buckets; unlock_buckets bs fd

-- the answer to CLOSECONNECTION
unfoldable pub serve_close_connection : Request → Act (Unit {0})
unfolding relaselock send_message
serve_close_connection r = do
  modify λ s. record s {
    set = λ q. if q == r.fd then false else s.set q;
    activecon = s.activecon -ℤ pos 1;
  }
  last ← get λ s. s.activecon
  sighup ← get λ s. s.closesighup
  elim last [
    | pos zero ↦ if sighup then return tt else emit signal_con
    | pos (suc n) ↦ return tt
    | negsuc n ↦ return tt
  ]
  send_message r.fd success
  relaselock r.fd
  emit (closed r.fd)
