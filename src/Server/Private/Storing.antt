-- ===== src/Server/Private/Storing.antt =====
-- WRITE, APPEND and REMOVE, with the loops of `Handlercapacity`, by the rules of their steps.
use file_storage_server.Prelude.{
  ℕ, zero, suc, refl, if◌then◌else◌, Bool, true, false, Option, none, some, ◌==◌, pos, ◌+◌, ◌-ℤ◌,
  ◌+ℤ◌, ltb_ℤ, length, List, ◌++◌, [], ◌∷◌,
}
use file_storage_server.Run
use file_storage_server.Run.{Run, ok, fault, spin, deref}
use file_storage_server.Lis.{Lis, create, take_head, load, insert_t, delete}
use file_storage_server.File.{File, append_file, read_block, free_block}
use file_storage_server.Protcol.{Request, success, server_full}
use file_storage_server.Server.State.{
  Server, ServerConf, ◌>>=◌, ◌>>◌, modify, run, return, send_message, log, log_line, load_file,
  store_file, contain, getvalue, h_delete,
}
use file_storage_server.Server.Capacity.{
  take_fifo, free_fifo, enqueue_fifo, send_named, take_out, send_out, handler_capacity,
}
use file_storage_server.Server.Write.{
  log_bytes, write_found, serve_write, extend_file, append_found, serve_append, remove_found,
  serve_remove,
}
use file_storage_server.Server.Private.{
  Touches, Ends, done, Ends-spin, after, either, run-Ends, contain-Ends, getvalue-Ends, load-Ends,
  store-Ends, changed, h_delete-Ends, emitted, log_lined,
}
use file_storage_server.Server.Private.Opening.{take_fifo-Ends, free_fifo-Ends, send_named-Ends}

module _ {fd : ℕ} {s : Server} where
  pub log_bytes-Ends : (t : Server) → Touches fd s t → Ends fd s (log_bytes t)
  unfolding log_bytes log
  log_bytes-Ends t h = done tt _ (log_lined _ _ (log_lined _ _ h))

  enqueue_fifo-Ends : (p : Option ℕ) (t : Server) → Touches fd s t → Ends fd s (enqueue_fifo p t)
  unfolding enqueue_fifo
  enqueue_fifo-Ends p t h = after (load_file p t) _ (load-Ends p t h) λ f t h.
      after (run (λ x. deref p) t) _ (run-Ends (deref p) t h) λ a t h.
        after (run (λ x. insert_t t.fifo a f.path_name) t) _
          (run-Ends (insert_t t.fifo a f.path_name) t h)
          λ q t h. done tt _ (changed _ refl refl refl h)

  take_out-Ends :
      (fuel : ℕ) (sc : ServerConf) (ftosend : Lis ℕ) (number : ℕ) (t : Server)
      → Touches fd s t
      → Ends fd s (take_out fuel sc ftosend number t)
  unfolding take_out
  take_out-Ends zero sc ftosend number t h = Ends-spin
  take_out-Ends (suc fuel) sc ftosend number t h =
      go (λ q u k. take_out-Ends fuel sc q (number + 1) u k) (ltb_ℤ (pos sc.space) t.actual_size)
    where
      go :
          ((q : Lis ℕ) (u : Server)
            → Touches fd s u
            → Ends fd s (take_out fuel sc q (number + 1) u))
          → (b : Bool)
          → Ends {A = Lis ℕ × ℕ} fd s (elim b [
            | false ↦ ok ((ftosend, number), t)
            | true ↦
                (do
                  (ft, p, key) ← take_fifo
                  f ← load_file (some p)
                  modify λ s. record s { actual_size = s.actual_size -ℤ pos f.dim }
                  ftosend' ← run λ s. insert_t ftosend p key
                  free_fifo ft
                  take_out fuel sc ftosend' (number + 1))
                  t
          ])
      go again false = done _ t h
      go again true = after (take_fifo t) _ (take_fifo-Ends t h) λ o t h.
          after (load_file (some o.1) t) _ (load-Ends (some o.1) t h) λ f t h.
            after
              (run (λ x. insert_t ftosend o.1 o.2)
                (record t { actual_size = t.actual_size -ℤ pos f.dim }))
              _ (run-Ends (insert_t ftosend o.1 o.2) _ (changed _ refl refl refl h))
              λ q t h. after (free_fifo o.0 t) _ (free_fifo-Ends o.0 t h) λ x t h. again q t h

  send_out-Ends :
      (i : ℕ) (ftosend : Lis ℕ) (t : Server) → Touches fd s t → Ends fd s (send_out i fd ftosend t)
  unfolding send_out log
  send_out-Ends zero ftosend t h = done tt t h
  send_out-Ends (suc i) ftosend t h =
      after (run (λ x. take_head ftosend) t) _ (run-Ends (take_head ftosend) t h) λ r t h.
        after (run (λ x. load r.1 r.0) t) _ (run-Ends (load r.1 r.0) t h) λ n t h.
          after (load_file (some n.cont) t) _ (load-Ends (some n.cont) t h) λ f t h.
            after (send_named fd f (length f.path_name) f.path_name t) _
              (send_named-Ends f (length f.path_name) f.path_name t h)
              λ x t h.
                after
                  (Run.◌>>=◌
                    (h_delete f.path_name
                      (record t { trace = t.trace ++ log_line "RD" (pos f.dim) ∷ [] }))
                    (λ x. ◌>>◌ (run (λ s. free_block f.cont)) (store_file (some n.cont) none) x.1))
                  _
                  (after (h_delete f.path_name _) _ (h_delete-Ends f.path_name _ (log_lined _ _ h))
                    λ x t h.
                      after (run (λ s. free_block f.cont) t) _ (run-Ends (free_block f.cont) t h)
                        λ x t h. store-Ends (some n.cont) none t h)
                  λ x t h. send_out-Ends i _ t h

  pub handler_capacity-Ends :
      (sc : ServerConf) (t : Server) → Touches fd s t → Ends fd s (handler_capacity sc fd t)
  unfolding handler_capacity
  handler_capacity-Ends sc t h =
      after (take_out (t.fifo.length + 1) sc create 0 t) _
        (take_out-Ends (t.fifo.length + 1) sc create 0 t h)
        λ r t h. send_out-Ends r.1 r.0 _ (emitted _ refl h)

  pub extend_file-Ends :
      (f : File) (contenuto : Option (List ℕ)) (size : ℕ) (t : Server)
      → Touches fd s t
      → Ends fd s (extend_file f contenuto size t)
  unfolding extend_file
  extend_file-Ends f contenuto size t h =
      after (run (λ x. read_block f.cont f.dim) t) _ (run-Ends (read_block f.cont f.dim) t h)
        λ a t h.
          after (run (λ x. read_block contenuto size) t) _
            (run-Ends (read_block contenuto size) t h)
            λ b t h.
              after (run (λ s. free_block f.cont) t) _ (run-Ends (free_block f.cont) t h)
                λ x t h. done _ t h

module _ {s : Server} (r : Request) where
  write_found-Ends :
      (sc : ServerConf) (p : Option ℕ) (f : File) (t : Server)
      → Touches r.fd s t
      → Ends r.fd s (write_found sc r p f t)
  unfolding write_found send_message log
  write_found-Ends sc p f t h =
      after (run (λ x. append_file f r.contenuto r.size) t) _
        (run-Ends (append_file f r.contenuto r.size) t h)
        λ g t h. after (store_file p (some g) t) _ (store-Ends p (some g) t h) λ x t h.
          after
            ((if ltb_ℤ (t.actual_size +ℤ pos r.size) (pos sc.space)
                then (do send_message r.fd success; log "WR" (pos g.dim))
                else (do log "AR" (pos 0); send_message r.fd server_full; handler_capacity sc r.fd))
              (record t { actual_size = t.actual_size +ℤ pos r.size }))
            _
            (either (ltb_ℤ (t.actual_size +ℤ pos r.size) (pos sc.space)) _ _ _
              (done tt _ (log_lined _ _ (emitted _ refl (changed _ refl refl refl h))))
              (handler_capacity-Ends sc _
                (emitted _ refl (log_lined _ _ (changed _ refl refl refl h)))))
            λ x t h.
              after (enqueue_fifo p t) _ (enqueue_fifo-Ends p t h) λ x t h. log_bytes-Ends t h

  pub serve_write-Ends :
      (sc : ServerConf) (t : Server) → Touches r.fd s t → Ends r.fd s (serve_write sc r t)
  unfolding serve_write send_message
  serve_write-Ends sc t h =
      after (contain r.pathname t) _ (contain-Ends r.pathname t h) λ present t h.
        either present _ _ t
          (after (getvalue r.pathname t) _ (getvalue-Ends r.pathname t h) λ p t h.
            after (load_file p t) _ (load-Ends p t h) λ f t h.
              either (f.isopen == 1) _ _ t
                (either (f.lock == 1) _ _ t
                  (either (f.fd == r.fd) _ _ t (write_found-Ends sc p f t h)
                    (done tt _ (emitted _ refl h)))
                  (write_found-Ends sc p f t h))
                (done tt _ (emitted _ refl h)))
          (done tt _ (emitted _ refl h))

  append_found-Ends :
      (sc : ServerConf) (p : Option ℕ) (t : Server)
      → Touches r.fd s t
      → Ends r.fd s (append_found sc r p t)
  unfolding append_found send_message log log_bytes
  append_found-Ends sc p t h =
      after
        ((if ltb_ℤ (pos sc.space) t.actual_size
            then (do send_message r.fd server_full; log "AR" (pos 0); handler_capacity sc r.fd)
            else return tt)
          t)
        _
        (either (ltb_ℤ (pos sc.space) t.actual_size) _ _ t
          (handler_capacity-Ends sc _ (log_lined _ _ (emitted _ refl h))) (done tt t h))
        λ x t h. after (load_file p t) _ (load-Ends p t h) λ f t h.
          after (extend_file f r.contenuto r.size t) _ (extend_file-Ends f r.contenuto r.size t h)
            λ g t h.
              after (store_file p (some g) t) _ (store-Ends p (some g) t h)
                λ x t h. done tt _ (emitted _ refl (log_lined _ _ (log_lined _ _ h)))

  pub serve_append-Ends :
      (sc : ServerConf) (t : Server) → Touches r.fd s t → Ends r.fd s (serve_append sc r t)
  unfolding serve_append send_message
  serve_append-Ends sc t h =
      after (contain r.pathname t) _ (contain-Ends r.pathname t h) λ present t h.
        either present _ _ t
          (after (getvalue r.pathname t) _ (getvalue-Ends r.pathname t h) λ p t h.
            after (load_file p (record t { actual_size = t.actual_size +ℤ pos r.size })) _
              (load-Ends p _ (changed _ refl refl refl h))
              λ f t h.
                either (f.isopen == 1) _ _ t (append_found-Ends sc p t h)
                  (done tt _ (emitted _ refl h)))
          (done tt _ (emitted _ refl h))

  remove_found-Ends :
      (p : Option ℕ) (f : File) (t : Server) → Touches r.fd s t → Ends r.fd s (remove_found r p f t)
  unfolding remove_found send_message
  remove_found-Ends p f t h =
      after (h_delete f.path_name (record t { actual_size = t.actual_size -ℤ pos f.dim })) _
        (h_delete-Ends f.path_name _ (changed _ refl refl refl h))
        λ x t h.
          after (run (λ x. delete t.fifo f.path_name) t) _
            (run-Ends (delete t.fifo f.path_name) t h)
            λ d t h.
              after (run (λ s. free_block f.cont) (record t { fifo = d.1 })) _
                (run-Ends (free_block f.cont) _ (changed _ refl refl refl h))
                λ x t h.
                  after (store_file p none t) _ (store-Ends p none t h)
                    λ x t h. done tt _ (emitted _ refl h)

  pub serve_remove-Ends : (t : Server) → Touches r.fd s t → Ends r.fd s (serve_remove r t)
  unfolding serve_remove send_message
  serve_remove-Ends t h =
      after (contain r.pathname t) _ (contain-Ends r.pathname t h) λ present t h.
        either present _ _ t
          (after (getvalue r.pathname t) _ (getvalue-Ends r.pathname t h) λ p t h.
            after (load_file p t) _ (load-Ends p t h) λ f t h.
              either (f.lock == 0) _ _ t (done tt _ (emitted _ refl h)) (
                either (f.fd == r.fd) _ _ t (remove_found-Ends p f t h)
                  (done tt _ (emitted _ refl h))))
          (done tt _ (emitted _ refl h))
