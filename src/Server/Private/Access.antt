-- ===== src/Server/Private/Access.antt =====
-- OPEN, LOCKS, UNLOCKS, READ and CLOSE, by the rules of their steps.
use file_storage_server.Prelude.{ℕ, ◌≡◌, refl, subst, Option, none, some, ◌==◌, ◌++◌, [], ◌∷◌}
use file_storage_server.Run
use file_storage_server.Run.{Run, ok, fault, spin}
use file_storage_server.Lis.{Lis, insert_t}
use file_storage_server.Lis.Seg.{Holds}
use file_storage_server.Lis.Insert.{new_cell, insert_t-Holds}
use file_storage_server.File.{File, unlock_file, close_file}
use file_storage_server.Protcol.{Request}
use file_storage_server.Server.State.{
  Server, signal_request, send_message, send_file, log, load_file, store_file, contain, getvalue,
}
use file_storage_server.Server.Access.{
  requeue, lock_found, serve_locks, serve_unlocks, send_contents, serve_read, serve_close,
}
use file_storage_server.Server.Private.{
  Touches, Touches-trans, Ends, done, Ends-fault, Ends-spin, after, either, contain-Ends,
  getvalue-Ends, load-Ends, send_file-Ends, store-Ends, emitted, log_lined,
}

module _ {s : Server} (r : Request) where
  requeue-Ends : (t : Server) → Touches r.fd s t → Ends r.fd s (requeue r t)
  unfolding requeue
  requeue-Ends t h = go (insert_t t.queueric req r.pathname) refl
    where
      req : Request
      req = record r { contenuto = none }

      lined :
          (q : Lis Request)
          → insert_t t.queueric req r.pathname ≡ ok q
          → Touches r.fd t (record t { queueric = q; trace = t.trace ++ signal_request ∷ [] })
      lined q e = record {
        events = signal_request ∷ [];
        traced = refl;
        own = (tt, tt);
        queue = λ cells held.
            let (q', e', holds) = insert_t-Holds t.queueric cells req r.pathname held in
            let same : q' ≡ q = cc in
            (
              new_cell t.queueric req r.pathname ∷ [],
              subst (λ l. Holds l (cells ++ new_cell t.queueric req r.pathname ∷ [])) same holds,
              (refl, tt),
            );
        others = λ q ne. refl;
        watches = λ q e. e;
      }

      go :
          (m : Run (Lis Request))
          → insert_t t.queueric req r.pathname ≡ m
          → Ends r.fd s (
              Run.◌>>=◌ {A = Lis Request × Server} (Run.◌>>=◌ m λ q. ok (q, t)) λ x.
                ok
                  (tt {0}, record x.1 { queueric = x.0; trace = x.1.trace ++ signal_request ∷ [] }))
      go (ok q) e = done tt _ (Touches-trans r.fd s t _ h (lined q e))
      go fault e = Ends-fault
      go spin e = Ends-spin

  lock_found-Ends :
      (p : Option ℕ) (f : File) (t : Server) → Touches r.fd s t → Ends r.fd s (lock_found r p f t)
  unfolding lock_found send_message log
  lock_found-Ends p f t h =
      either (f.isopen == 1) _ _ t
        (either (f.lock == 1) _ _ t
          (either (f.fd == r.fd) _ _ t
            (after (store_file p _ t) _ (store-Ends p _ t h)
              λ x t h. done tt _ (log_lined _ _ (emitted _ refl h)))
            (requeue-Ends t h))
          (after (store_file p _ t) _ (store-Ends p _ t h)
            λ x t h. done tt _ (log_lined _ _ (emitted _ refl h))))
        (done tt _ (emitted _ refl h))

  pub serve_locks-Ends : (t : Server) → Touches r.fd s t → Ends r.fd s (serve_locks r t)
  unfolding serve_locks send_message
  serve_locks-Ends t h = after (contain r.pathname t) _ (contain-Ends r.pathname t h) λ present t h.
      either present _ _ t
        (after (getvalue r.pathname t) _ (getvalue-Ends r.pathname t h)
          λ p t h. after (load_file p t) _ (load-Ends p t h) λ f t h. lock_found-Ends p f t h)
        (done tt _ (emitted _ refl h))

  pub serve_unlocks-Ends : (t : Server) → Touches r.fd s t → Ends r.fd s (serve_unlocks r t)
  unfolding serve_unlocks send_message log
  serve_unlocks-Ends t h =
      after (contain r.pathname t) _ (contain-Ends r.pathname t h) λ present t h.
        either present _ _ t
          (after (getvalue r.pathname t) _ (getvalue-Ends r.pathname t h) λ p t h.
            after (load_file p t) _ (load-Ends p t h) λ f t h.
              either (f.fd == r.fd) _ _ t
                (after (store_file p (some (unlock_file f)) t) _ (store-Ends p _ t h)
                  λ x t h. done tt _ (log_lined _ _ (emitted _ refl h)))
                (done tt _ (emitted _ refl h)))
          (done tt _ (emitted _ refl h))

  pub serve_close-Ends : (t : Server) → Touches r.fd s t → Ends r.fd s (serve_close r t)
  unfolding serve_close send_message log
  serve_close-Ends t h = after (contain r.pathname t) _ (contain-Ends r.pathname t h) λ present t h.
      either present _ _ t
        (after (getvalue r.pathname t) _ (getvalue-Ends r.pathname t h) λ p t h.
          after (load_file p t) _ (load-Ends p t h) λ f t h.
            after (store_file p (some (close_file f)) t) _ (store-Ends p _ t h)
              λ x t h. done tt _ (log_lined _ _ (emitted _ refl h)))
        (done tt _ (emitted _ refl h))

  send_contents-Ends :
      (f : File) (t : Server) → Touches r.fd s t → Ends r.fd s (send_contents r f t)
  unfolding send_contents send_message log
  send_contents-Ends f t h =
      after (send_file r.fd f.cont f.dim _) _
        (send_file-Ends r.fd f.cont f.dim _ refl (emitted _ refl h))
        λ x t h. done tt _ (log_lined _ _ h)

  pub serve_read-Ends : (t : Server) → Touches r.fd s t → Ends r.fd s (serve_read r t)
  unfolding serve_read send_message
  serve_read-Ends t h = after (contain r.pathname t) _ (contain-Ends r.pathname t h) λ present t h.
      either present _ _ t
        (after (getvalue r.pathname t) _ (getvalue-Ends r.pathname t h) λ p t h.
          after (load_file p t) _ (load-Ends p t h) λ f t h.
            either (f.isopen == 1) _ _ t
              (either (f.lock == 1) _ _ t
                (either (f.fd == r.fd) _ _ t (send_contents-Ends f t h)
                  (done tt _ (emitted _ refl h)))
                (send_contents-Ends f t h))
              (done tt _ (emitted _ refl h)))
        (done tt _ (emitted _ refl h))
