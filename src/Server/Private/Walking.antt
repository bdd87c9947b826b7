-- ===== src/Server/Private/Walking.antt =====
-- READN and the end of a connection, by the rules of their steps.
use file_storage_server.Prelude.{
  ℕ, zero, suc, refl, if◌then◌else◌, Bool, Bool-cases, inl, inr, arith, true, false, ◌&&◌, Option,
  none, some, ◌==◌, pos, negsuc, ltb, ◌+◌, ◌-◌, ◌-ℤ◌, ℤ, sym, append-nil, length, List, ◌++◌, [],
  ◌∷◌,
}
use file_storage_server.Lis.{Lis, load}
use file_storage_server.File.{unlock_file}
use file_storage_server.Protcol.{Request, int_bytes, success}
use file_storage_server.Server.State.{
  Server, ◌>>=◌, ◌>>◌, sent, closed, signal_con, emit, run, return, send_message, log, load_file,
  store_file,
}
use file_storage_server.Server.Capacity.{send_named}
use file_storage_server.Server.Walk.{
  send_bucket, send_buckets, files_asked, read_files, serve_read_n, unlock_bucket, unlock_buckets,
  relaselock, serve_close_connection,
}
use file_storage_server.Server.Private.{
  Touches, Touches-trans, Grows-refl, Ends, done, Ends-spin, after, either, run-Ends, load-Ends,
  changed, emitted, log_lined,
}
use file_storage_server.Server.Private.Opening.{send_named-Ends}

module _ {fd : ℕ} {s : Server} where
  send_bucket-Ends :
      (fuel : ℕ) (l : Lis ℕ) (p : Option ℕ) (number : ℕ) (t : Server)
      → Touches fd s t
      → Ends fd s (send_bucket fuel l p fd number t)
  unfolding send_bucket log
  send_bucket-Ends zero l p number t h = Ends-spin
  send_bucket-Ends (suc fuel) l none number t h = done number t h
  send_bucket-Ends (suc fuel) l (some a) number t h =
      after (run (λ x. load l (some a)) t) _ (run-Ends (load l (some a)) t h) λ n t h.
        after (load_file (some n.cont) t) _ (load-Ends (some n.cont) t h) λ f t h.
          after (send_named fd f (length f.path_name + 1) (f.path_name ++ 0 ∷ []) t) _
            (send_named-Ends f (length f.path_name + 1) (f.path_name ++ 0 ∷ []) t h)
            λ x t h. send_bucket-Ends fuel l n.next (number - 1) _ (log_lined _ _ h)

  send_buckets-Ends :
      (bs : List (Option (Lis ℕ))) (number : ℕ) (t : Server)
      → Touches fd s t
      → Ends fd s (send_buckets bs fd number t)
  unfolding send_buckets
  send_buckets-Ends [] number t h = done tt t h
  send_buckets-Ends (b ∷ bs) number t h = go (ltb 0 number) b (λ n u k. send_buckets-Ends bs n u k)
    where
      go :
          (c : Bool) (b : Option (Lis ℕ))
          → ((n : ℕ) (u : Server) → Touches fd s u → Ends fd s (send_buckets bs fd n u))
          → Ends {A = Unit {0}} fd s (elim c [
            | false ↦ return tt t
            | true ↦
                ((elim b [
                  | none ↦ return number
                  | some l ↦
                      if ltb 0 l.length
                      then send_bucket (l.length + 1) l l.header fd number
                      else return number
                ])
                    >>= send_buckets bs fd)
                  t
          ])
      go false b more = done tt t h
      go true none more = more number t h
      go true (some l) more =
          after
            ((if ltb 0 l.length
                then send_bucket (l.length + 1) l l.header fd number
                else return number)
              t)
            _
            (either (ltb 0 l.length) _ _ t (send_bucket-Ends (l.length + 1) l l.header number t h)
              (done number t h))
            more

  read_files-Ends : (n : ℤ) (t : Server) → Touches fd s t → Ends fd s (read_files fd n t)
  unfolding read_files
  read_files-Ends n t h =
      send_buckets-Ends t.table.buckets (files_asked n t.table.nelem) _ (emitted _ refl h)

  unlock_bucket-Ends :
      (fuel : ℕ) (l : Lis ℕ) (p : Option ℕ) (t : Server)
      → Touches fd s t
      → Ends fd s (unlock_bucket fuel l p fd t)
  unfolding unlock_bucket log
  unlock_bucket-Ends zero l p t h = Ends-spin
  unlock_bucket-Ends (suc fuel) l none t h = done tt t h
  unlock_bucket-Ends (suc fuel) l (some a) t h =
      after (run (λ x. load l (some a)) t) _ (run-Ends (load l (some a)) t h) λ n t h.
        after (load_file (some n.cont) t) _ (load-Ends (some n.cont) t h) λ f t h.
          after
            ((if f.fd == fd && f.lock == 1
                then (do store_file (some n.cont) (some (unlock_file f)); log "ULK" (pos 0))
                else return tt)
              t)
            _
            (either (f.fd == fd && f.lock == 1) _ _ t
              (done tt _ (log_lined _ _ (changed _ refl refl refl h))) (done tt t h))
            λ x t h. unlock_bucket-Ends fuel l n.next t h

  unlock_buckets-Ends :
      (bs : List (Option (Lis ℕ))) (t : Server)
      → Touches fd s t
      → Ends fd s (unlock_buckets bs fd t)
  unfolding unlock_buckets
  unlock_buckets-Ends [] t h = done tt t h
  unlock_buckets-Ends (none ∷ bs) t h = unlock_buckets-Ends bs t h
  unlock_buckets-Ends (some l ∷ bs) t h =
      after ((if ltb 0 l.length then unlock_bucket (l.length + 1) l l.header fd else return tt) t) _
        (either (ltb 0 l.length) _ _ t (unlock_bucket-Ends (l.length + 1) l l.header t h)
          (done tt t h))
        λ x t h. unlock_buckets-Ends bs t h

  -- the descriptor is taken out of the set
  left_set :
      (t : Server) (n : ℤ)
      → Touches fd s t
      → Touches fd s (record t { set = λ q. if q == fd then false else t.set q; activecon = n })
  left_set t n h = Touches-trans fd s t _ h (record {
    events = [];
    traced = sym (append-nil t.trace);
    own = tt;
    queue = Grows-refl fd t;
    others = λ q ne. ground arith;
    watches = λ q e. elim (Bool-cases (q == fd)) [
      | inl same ↦ absurd (ground (arith, same, e))
      | inr other ↦ ground (arith, other, e)
    ];
  })

module _ {s : Server} (r : Request) where
  pub serve_read_n-Ends : (t : Server) → Touches r.fd s t → Ends r.fd s (serve_read_n r t)
  unfolding serve_read_n send_message
  serve_read_n-Ends t h =
      either (t.table.nelem == 0) _ _ t (done tt _ (emitted _ refl h))
        (read_files-Ends r.flags _ (emitted _ refl h))

  pub serve_close_connection-Ends :
      (t : Server) → Touches r.fd s t → Ends r.fd s (serve_close_connection r t)
  unfolding serve_close_connection send_message relaselock
  serve_close_connection-Ends t h = go (t.activecon -ℤ pos 1) (left_set t _ h)
    where
      gone : ℤ → Server
      gone n = record t { set = λ q. if q == r.fd then false else t.set q; activecon = n }

      rest :
          (u : Server)
          → Touches r.fd s u
          → Ends r.fd s ((send_message r.fd success >> (relaselock r.fd >> emit (closed r.fd))) u)
      rest u k =
          after
            (relaselock r.fd (record u { trace = u.trace ++ sent r.fd (int_bytes success) ∷ [] })) _
            (unlock_buckets-Ends u.table.buckets _ (emitted _ refl k))
            λ x u k. done tt _ (emitted _ refl k)

      go :
          (n : ℤ)
          → Touches r.fd s (gone n)
          → Ends r.fd s (
              ((elim n [
                | pos zero ↦ if t.closesighup then return tt else emit signal_con
                | pos (suc n) ↦ return tt
                | negsuc n ↦ return tt
              ])
                  >> (send_message r.fd success >> (relaselock r.fd >> emit (closed r.fd))))
                (gone n))
      go (pos zero) k =
          after ((if t.closesighup then return tt else emit signal_con) (gone (pos zero))) _
            (either t.closesighup _ _ _ (done tt _ k) (done tt _ (emitted signal_con tt k)))
            λ x u k. rest u k
      go (pos (suc n)) k = rest _ k
      go (negsuc n) k = rest _ k
