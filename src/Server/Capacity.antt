-- ===== src/Server/Capacity.antt =====
-- source/server.c: `Handlercapacity`, which sends the oldest files back and drops them until the
-- stored bytes fit, and what the handlers of OPEN share with it.
use file_storage_server.Prelude.{
  ℕ, zero, suc, ◌+◌, true, false, Option, none, some, pos, ◌-ℤ◌, ltb_ℤ, length,
}
use file_storage_server.Run
use file_storage_server.Run.{Run, ok, fault, spin, deref}
use file_storage_server.Text.{Text}
use file_storage_server.Lis.{Lis, create, insert_t, take_head, free_node, load}
use file_storage_server.Protcol.{int_bytes}
use file_storage_server.File.{File, read_block, free_block}
use file_storage_server.Server.State.{
  ServerConf, Act, ◌>>=◌, ◌>>◌, return, get, modify, run, send, log, load_file, store_file,
  h_delete,
}

-- `takeHead(fifo)`, and reading `cont` and `key` of the node that it returns
unfoldable pub take_fifo : Act (Option ℕ × ℕ × Text)
unfolding take_head load
take_fifo s =
    Run.◌>>=◌ (take_head s.fifo)
      λ r. Run.◌>>=◌ (load r.1 r.0) λ n. ok ((r.0, n.cont, n.key), record s { fifo = r.1 })

-- `free` of a node of the queue
unfoldable pub free_fifo : Option ℕ → Act (Unit {0})
unfolding free_node
free_fifo none = modify λ s. s
free_fifo (some a) = modify λ s. record s { fifo = free_node s.fifo a }

-- `insertT(fifo, f, f->path_name)`
unfoldable pub enqueue_fifo : Option ℕ → Act (Unit {0})
unfolding insert_t
enqueue_fifo p = do
  f ← load_file p
  a ← run λ s. deref p
  fifo ← run λ s. insert_t s.fifo a f.path_name
  modify λ s. record s { fifo = fifo }

-- The answer that carries a file: its size, the length of its name, the name, the contents.
unfoldable pub send_named : ℕ → File → ℕ → Text → Act (Unit {0})
send_named fd f len name = do
  send fd (int_bytes f.dim)
  send fd (int_bytes len)
  send fd name
  bytes ← run λ s. read_block f.cont f.dim
  send fd bytes

-- The first loop of `Handlercapacity`: it takes files off the queue while the bytes do not fit.
unfoldable pub take_out : ℕ → ServerConf → Lis ℕ → ℕ → Act (Lis ℕ × ℕ)
unfolding take_fifo free_fifo insert_t
take_out zero sc ftosend number s = spin
take_out (suc fuel) sc ftosend number s = elim (ltb_ℤ (pos sc.space) s.actual_size) [
  | false ↦ ok ((ftosend, number), s)
  | true ↦
      (do
        (ft, p, key) ← take_fifo
        f ← load_file (some p)
        modify λ s. record s { actual_size = s.actual_size -ℤ pos f.dim }
        ftosend' ← run λ s. insert_t ftosend p key
        free_fifo ft
        take_out fuel sc ftosend' (number + 1))
        s
]

-- The second loop: it sends each of them and frees its contents and it.
unfoldable pub send_out : ℕ → ℕ → Lis ℕ → Act (Unit {0})
unfolding send_named take_head load free_node free_block
send_out zero fd ftosend = return tt
send_out (suc i) fd ftosend = do
  (t, rest) ← run λ s. take_head ftosend
  n ← run λ s. load rest t
  f ← load_file (some n.cont)
  send_named fd f (length f.path_name) f.path_name
  log "RD" (pos f.dim)
  h_delete f.path_name >>= λ _. (run λ s. free_block f.cont) >> store_file (some n.cont) none
  send_out i fd (elim t [ none ↦ rest | some a ↦ free_node rest a ])

-- The queue has one node fewer after each round, so its length bounds the rounds.
unfoldable pub handler_capacity : ServerConf → ℕ → Act (Unit {0})
unfolding create take_out send_out
handler_capacity sc fd = do
  n ← get λ s. s.fifo.length
  (ftosend, number) ← take_out (n + 1) sc create 0
  send fd (int_bytes number)
  send_out number fd ftosend
