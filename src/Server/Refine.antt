-- ===== src/Server/Refine.antt =====
-- The handlers of OPEN without creation, LOCKS, UNLOCKS, READ and CLOSE keep the specification.
use file_storage_server.Prelude.{
  ℕ, ◌≡◌, refl, sym, subst, inl, inr, true, List, [], ◌∷◌, ◌++◌, some, ◌==◌, pos, arith,
  append_assoc, Bool-cases,
}
use file_storage_server.Run.{Run, ok}
use file_storage_server.Text.{Text, str_eq, str_eq_iff}
use file_storage_server.File.{File, read_block}
use file_storage_server.Protcol.{Request, int_bytes, success}
use file_storage_server.Server.State.{Server, Event, sent, log_line}
use file_storage_server.Server.Open.{open_lock, open_only}
use file_storage_server.Server.Access.{serve_locks, serve_unlocks, serve_read, serve_close}
use file_storage_server.Server.Invariant.{
  Rows, view, IsServer, Found, found, with_file, with_file-IsServer, with_file-view,
}
use file_storage_server.Server.Spec.{
  Outcome, reply, may_use, spec_open, spec_open_lock, spec_lock, spec_unlock, spec_close, spec_read,
  Serves,
}

-- A handler that writes one file back serves the request.
with_file-Serves :
    (s : Server) (rows : Rows) (k : Text) (p : ℕ) (f f' : File) (events : List Event)
    (result : Run (Unit {0} × Server))
    → IsServer s rows
    → Found s rows k p f
    → f'.path_name ≡ f.path_name
    → result ≡ ok (tt, record (with_file s p f') { trace = s.trace ++ events })
    → Serves s rows k (f', events) result
with_file-Serves s rows k p f f' events result w o same run =
    let t = with_file-IsServer s rows k p f f' w o same in
    record {
      after = record (with_file s p f') { trace = s.trace ++ events };
      runs = run;
      sound = record { table = t.table; stored = t.stored; below = t.below };
      reads = λ q. with_file-view s rows k q p f f' w o;
      traced = refl;
      table = refl;
      fifo = refl;
      queueric = refl;
      actual_size = refl;
    }

-- So does one that only answers.
answer-Serves :
    (s : Server) (rows : Rows) (k : Text) (f : File) (events : List Event)
    (result : Run (Unit {0} × Server))
    → IsServer s rows
    → view s rows k ≡ some f
    → result ≡ ok (tt, record s { trace = s.trace ++ events })
    → Serves s rows k (f, events) result
answer-Serves s rows k f events result w h run = record {
  after = record s { trace = s.trace ++ events };
  runs = run;
  sound = record { table = w.table; stored = w.stored; below = w.below };
  reads = λ q. elim (Bool-cases (str_eq q k)) [
    | inl same ↦ rw same (subst (λ x. view s rows x ≡ some f) (sym ((str_eq_iff q k).0 same)) h)
    | inr other ↦ rw other
  ];
  traced = refl;
  table = refl;
  fifo = refl;
  queueric = refl;
  actual_size = refl;
}

-- The same where the outcome is a computed one that leaves the file as it was.
answer-Serves' :
    (s : Server) (rows : Rows) (k : Text) (f : File) (o : Outcome)
    (result : Run (Unit {0} × Server))
    → IsServer s rows
    → view s rows k ≡ some f
    → o.0 ≡ f
    → result ≡ ok (tt, record s { trace = s.trace ++ o.1 })
    → Serves s rows k o result
answer-Serves' s rows k f o result w h same run =
    answer-Serves s rows k o.0 o.1 result w (rw same h) run

module _ (s : Server) (rows : Rows) (r : Request) (f : File) (w : IsServer s rows)
    (present : view s rows r.pathname ≡ some f) where
  pub open_only-Serves : Serves s rows r.pathname (spec_open r f) (open_only r s)
  unfolding open_only
  open_only-Serves =
      let (p, o) = found s rows r.pathname f w present in
      with_file-Serves s rows r.pathname p f _ _ _ w o refl
        (ground (arith, o.contained, o.got, o.live))

  pub open_lock-Serves : Serves s rows r.pathname (spec_open_lock r f) (open_lock r s)
  unfolding open_lock
  open_lock-Serves =
      let (p, o) = found s rows r.pathname f w present in
      with_file-Serves s rows r.pathname p f _ _ _ w o refl (
        ground (
          arith,
          o.contained,
          o.got,
          o.live,
          append_assoc s.trace (reply r success ∷ []) (log_line "LCK" (pos 0) ∷ []),
        ))

  pub serve_close-Serves : Serves s rows r.pathname (spec_close r f) (serve_close r s)
  unfolding serve_close
  serve_close-Serves =
      let (p, o) = found s rows r.pathname f w present in
      with_file-Serves s rows r.pathname p f _ _ _ w o refl (
        ground (
          arith,
          o.contained,
          o.got,
          o.live,
          append_assoc s.trace (reply r success ∷ []) (log_line "CL" (pos 0) ∷ []),
        ))

  pub serve_unlocks-Serves : Serves s rows r.pathname (spec_unlock r f) (serve_unlocks r s)
  unfolding serve_unlocks
  serve_unlocks-Serves =
      let (p, o) = found s rows r.pathname f w present in
      elim (Bool-cases (f.fd == r.fd)) [
        | inl mine ↦ rw mine (
            with_file-Serves s rows r.pathname p f _ _ _ w o refl (
              ground (
                arith,
                o.contained,
                o.got,
                o.live,
                mine,
                append_assoc s.trace (reply r success ∷ []) (log_line "ULK" (pos 0) ∷ []),
              )))
        | inr other ↦ rw other (
            answer-Serves s rows r.pathname f _ _ w present
              (ground (arith, o.contained, o.got, o.live, other)))
      ]

  -- a lock on an open file that no other client holds, or on a file that is not open
  lock_free :
      (p : ℕ)
      → Found s rows r.pathname p f
      → (f.isopen == 1) ≡ true
      → may_use f r ≡ true
      → Serves s rows r.pathname (spec_lock r f) (serve_locks r s)
  unfolding serve_locks
  lock_free p o opened free =
      let both = append_assoc s.trace (reply r success ∷ []) (log_line "LCK" (pos 0) ∷ []) in
      rw opened (
        with_file-Serves s rows r.pathname p f (record f { lock = 1; fd = r.fd }) _ _ w o refl
          (ground (arith, o.contained, o.got, o.live, opened, free, both)))

  -- LOCKS for a file that no other client holds, at a server in order: the client gets the lock and
  -- SUCCESS if the file is open, and NOTOPEN if not; nothing else changes.
  pub serve_locks-Serves :
      may_use f r ≡ true → Serves s rows r.pathname (spec_lock r f) (serve_locks r s)
  unfolding serve_locks
  serve_locks-Serves free =
      let (p, o) = found s rows r.pathname f w present in
      elim (Bool-cases (f.isopen == 1)) [
        | inl opened ↦ lock_free p o opened free
        | inr shut ↦ rw shut (
            answer-Serves s rows r.pathname f _ _ w present
              (ground (arith, o.contained, o.got, o.live, shut)))
      ]

  -- READ keeps the specification of a single file at a server in order, if the contents can be read
  -- up to the file's size: NOTOPEN for a file that is not open, NOTPERMISSION for one that another
  -- client holds, else SUCCESS, the size and the contents; nothing changes but the trace.
  pub serve_read-Serves :
      (bytes : List ℕ)
      → read_block f.cont f.dim ≡ ok bytes
      → Serves s rows r.pathname (spec_read bytes r f) (serve_read r s)
  unfolding serve_read
  serve_read-Serves bytes readable =
      let (p, o) = found s rows r.pathname f w present in
      let a = reply r success in
      let b = sent r.fd (int_bytes f.dim) in
      let c = sent r.fd bytes in
      let d = log_line "RD" (pos f.dim) in
      let e₁ = append_assoc s.trace (a ∷ []) (b ∷ []) in
      let e₂ = append_assoc s.trace (a ∷ b ∷ []) (c ∷ []) in
      let e₃ = append_assoc s.trace (a ∷ b ∷ c ∷ []) (d ∷ []) in
      answer-Serves' s rows r.pathname f _ _ w present (ground arith)
        (ground (arith, o.contained, o.got, o.live, readable, e₁, e₂, e₃))
