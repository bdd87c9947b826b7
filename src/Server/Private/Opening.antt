-- ===== src/Server/Private/Opening.antt =====
-- OPEN, by the rules of its steps.
use file_storage_server.Prelude.{
  ℕ, refl, if◌then◌else◌, update, Option, none, some, leb, ◌+◌, length, ◌++◌, [], ◌∷◌,
}
use file_storage_server.Run
use file_storage_server.Run.{Run, ok, fault, spin}
use file_storage_server.Lis
use file_storage_server.Lis.{Lis, take_head, load}
use file_storage_server.Text.{Text}
use file_storage_server.File.{File, read_block}
use file_storage_server.Protcol.{
  Request, has_flag, o_create, o_lock, o_crlk, o_open, int_bytes, too_much_file,
}
use file_storage_server.Server.State.{
  Server, ServerConf, sent, run, send_message, log, load_file, store_file, contain, getvalue,
  hashins, h_delete, return,
}
use file_storage_server.Server.Capacity.{take_fifo, free_fifo, send_named}
use file_storage_server.Server.Open.{
  log_nelem, swap_out, insert_new, open_create, open_lock, open_crlk, open_only, serve_open,
}
use file_storage_server.Server.Private.{
  Touches, Ends, done, Ends-fault, Ends-spin, after, either, run-Ends, contain-Ends, getvalue-Ends,
  load-Ends, store-Ends, changed, hashins-Ends, h_delete-Ends, emitted, log_lined,
}

module _ {fd : ℕ} {s : Server} where
  pub log_nelem-Ends : (t : Server) → Touches fd s t → Ends fd s (log_nelem t)
  unfolding log_nelem log
  log_nelem-Ends t h = done tt _ (log_lined _ _ (log_lined _ _ h))

  pub take_fifo-Ends : (t : Server) → Touches fd s t → Ends fd s (take_fifo t)
  unfolding take_fifo
  take_fifo-Ends t h = go (take_head t.fifo)
    where
      found :
          (r : Option ℕ × Lis ℕ) (m : Run (Lis.Node ℕ))
          → Ends {A = Option ℕ × ℕ × Text} fd s
              (Run.◌>>=◌ m λ n. ok ((r.0, n.cont, n.key), record t { fifo = r.1 }))
      found r (ok n) = done _ _ (changed _ refl refl refl h)
      found r fault = Ends-fault
      found r spin = Ends-spin

      go :
          (m : Run (Option ℕ × Lis ℕ))
          → Ends {A = Option ℕ × ℕ × Text} fd s (
              Run.◌>>=◌ m λ r.
                Run.◌>>=◌ (load r.1 r.0) λ n. ok ((r.0, n.cont, n.key), record t { fifo = r.1 }))
      go (ok r) = found r (load r.1 r.0)
      go fault = Ends-fault
      go spin = Ends-spin

  pub free_fifo-Ends : (p : Option ℕ) (t : Server) → Touches fd s t → Ends fd s (free_fifo p t)
  unfolding free_fifo
  free_fifo-Ends none t h = done tt t h
  free_fifo-Ends (some a) t h = done tt _ (changed _ refl refl refl h)

  pub send_named-Ends :
      (f : File) (len : ℕ) (name : Text) (t : Server)
      → Touches fd s t
      → Ends fd s (send_named fd f len name t)
  unfolding send_named
  send_named-Ends f len name t h =
      after (run (λ x. read_block f.cont f.dim) _) _
        (run-Ends (read_block f.cont f.dim) _ (emitted _ refl (emitted _ refl (emitted _ refl h))))
        λ bytes t h. done tt _ (emitted _ refl h)

module _ {s : Server} (r : Request) where
  new_file-Touches :
      (f : File) (t : Server)
      → Touches r.fd s t
      → Touches r.fd s
          (record t { files = update t.files t.next_file (some f); next_file = t.next_file + 1 })
  new_file-Touches f t h = changed _ refl refl refl h

  swap_out-Ends : (f : File) (t : Server) → Touches r.fd s t → Ends r.fd s (swap_out r f t)
  unfolding swap_out send_message
  swap_out-Ends f t h =
      after (hashins f.path_name (some t.next_file) _) _
        (hashins-Ends f.path_name (some t.next_file) _ (new_file-Touches f t h))
        λ x t h. after (take_fifo t) _ (take_fifo-Ends t h) λ o t h.
          after
            (load_file (some o.1)
              (record t { trace = t.trace ++ sent r.fd (int_bytes too_much_file) ∷ [] }))
            _ (load-Ends (some o.1) _ (emitted _ refl h))
            λ old t h.
              after (send_named r.fd old (length old.path_name) old.path_name t) _
                (send_named-Ends old (length old.path_name) old.path_name t h)
                λ x t h. after (free_fifo o.0 t) _ (free_fifo-Ends o.0 t h) λ x t h.
                  after (h_delete old.path_name t) _ (h_delete-Ends old.path_name t h)
                    λ x t h. log_nelem-Ends t h

  insert_new-Ends : (f : File) (t : Server) → Touches r.fd s t → Ends r.fd s (insert_new r f t)
  unfolding insert_new send_message
  insert_new-Ends f t h =
      after (hashins f.path_name (some t.next_file) _) _
        (hashins-Ends f.path_name (some t.next_file) _ (new_file-Touches f t h))
        λ x t h. log_nelem-Ends _ (emitted _ refl h)

  open_create-Ends :
      (sc : ServerConf) (raw : File) (t : Server)
      → Touches r.fd s t
      → Ends r.fd s (open_create sc raw r t)
  unfolding open_create send_message
  open_create-Ends sc raw t h =
      after (contain r.pathname t) _ (contain-Ends r.pathname t h) λ present t h.
        either present _ _ t (done tt _ (emitted _ refl h)) (
          either (leb (t.table.nelem + 1) sc.maxf) _ _ t (insert_new-Ends _ t h)
            (swap_out-Ends _ t h))

  open_crlk-Ends :
      (sc : ServerConf) (raw : File) (t : Server)
      → Touches r.fd s t
      → Ends r.fd s (open_crlk sc raw r t)
  unfolding open_crlk send_message
  open_crlk-Ends sc raw t h =
      after (contain r.pathname t) _ (contain-Ends r.pathname t h) λ present t h.
        either present _ _ t (done tt _ (emitted _ refl h)) (
          either (leb (t.table.nelem + 1) sc.maxf) _ _ t (insert_new-Ends _ t h)
            (swap_out-Ends _ t h))

  open_lock-Ends : (t : Server) → Touches r.fd s t → Ends r.fd s (open_lock r t)
  unfolding open_lock send_message log
  open_lock-Ends t h = after (contain r.pathname t) _ (contain-Ends r.pathname t h) λ present t h.
      either present _ _ t
        (after (getvalue r.pathname t) _ (getvalue-Ends r.pathname t h) λ p t h.
          after (load_file p t) _ (load-Ends p t h) λ f t h.
            after (store_file p _ t) _ (store-Ends p _ t h)
              λ x t h. done tt _ (log_lined _ _ (emitted _ refl h)))
        (done tt _ (emitted _ refl h))

  open_only-Ends : (t : Server) → Touches r.fd s t → Ends r.fd s (open_only r t)
  unfolding open_only send_message
  open_only-Ends t h = after (contain r.pathname t) _ (contain-Ends r.pathname t h) λ present t h.
      either present _ _ t
        (after (getvalue r.pathname t) _ (getvalue-Ends r.pathname t h) λ p t h.
          after (load_file p t) _ (load-Ends p t h) λ f t h.
            after (store_file p _ t) _ (store-Ends p _ t h) λ x t h. done tt _ (emitted _ refl h))
        (done tt _ (emitted _ refl h))

  pub serve_open-Ends :
      (sc : ServerConf) (raw : File) (t : Server)
      → Touches r.fd s t
      → Ends r.fd s (serve_open sc raw r t)
  unfolding serve_open
  serve_open-Ends sc raw t h =
      after ((if has_flag r.flags o_create then open_create sc raw r else return tt) t) _
        (either (has_flag r.flags o_create) _ _ t (open_create-Ends sc raw t h) (done tt t h))
        λ x t h.
          after ((if has_flag r.flags o_lock then open_lock r else return tt) t) _
            (either (has_flag r.flags o_lock) _ _ t (open_lock-Ends t h) (done tt t h))
            λ x t h.
              after ((if has_flag r.flags o_crlk then open_crlk sc raw r else return tt) t) _
                (either (has_flag r.flags o_crlk) _ _ t (open_crlk-Ends sc raw t h) (done tt t h))
                λ x t h. either (has_flag r.flags o_open) _ _ t (open_only-Ends t h) (done tt t h)
