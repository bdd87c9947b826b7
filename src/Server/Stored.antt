-- ===== src/Server/Stored.antt =====
-- WRITE and APPEND where the bytes fit, and READ behind them.
use file_storage_server.Prelude.{
  ℕ, ◌≡◌, refl, sym, ap, subst, ◌∙◌, true, List, [], ◌∷◌, ◌++◌, Option, none, some, ◌==◌,
  if◌then◌else◌, pos, arith, append_assoc, update_self, length, take, take-length, ℤ, ◌+ℤ◌, ltb_ℤ,
  length-take,
}
use file_storage_server.Run.{Run, ok}
use file_storage_server.Text.{Text, str_eq, str_eq_refl}
use file_storage_server.Lis.{Lis, insert_t}
use file_storage_server.Lis.Seg.{Cell, Holds}
use file_storage_server.Lis.Insert.{new_cell, insert_t-Holds}
use file_storage_server.File.{File, read_block}
use file_storage_server.Protcol.{Request, int_bytes, success}
use file_storage_server.Server.State.{Server, ServerConf, Event, sent, log_line}
use file_storage_server.Server.Write.{write_found, serve_write}
use file_storage_server.Server.Invariant.{
  Rows, view, IsServer, Found, found, with_file, with_file-IsServer, with_file-view,
}
use file_storage_server.Server.Access.{serve_read}
use file_storage_server.Server.Refine.{serve_read-Serves}
use file_storage_server.Server.Spec.{reply, may_use}

-- A block that was read once is read again, and is as long as was asked.
pub read_block-length :
    (c : Option (List ℕ)) (n : ℕ) (b : List ℕ) → read_block c n ≡ ok b → length b ≡ n
unfolding read_block
read_block-length none n b h = ground arith
read_block-length (some c) n b h = ground (arith, length-take n c)

pub reread :
    (c : Option (List ℕ)) (n : ℕ) (b : List ℕ)
    → read_block c n ≡ ok b
    → read_block (some b) n ≡ ok b
unfolding read_block
reread c n b h =
    let e = read_block-length c n b h in ground (arith, e, take-length b, ap (λ m. take m b) e)

-- The server holds `f'` under the name `k`, the count of bytes is `total`, and is otherwise as it was
-- but for the FIFO queue.
pub record Stored (s : Server) (rows : Rows) (k : Text) (f' : File) (total : ℤ)
    (queued : List (Cell ℕ)) (events : List Event) (result : Run (Unit {0} × Server)) : Type 0 where
  pub after : Server
  pub runs : result ≡ ok (tt, after)
  pub sound : IsServer after rows
  pub reads : (q : Text) → view after rows q ≡ (if str_eq q k then some f' else view s rows q)
  pub counted : after.actual_size ≡ total
  pub queue : Holds after.fifo queued
  pub traced : after.trace ≡ s.trace ++ events
  pub table : after.table ≡ s.table
  pub queueric : after.queueric ≡ s.queueric

-- the file after a write of `bytes`
abbrev pub written : File → List ℕ → ℕ → File
written f bytes n = record f { dim = n; cont = some bytes }

abbrev pub write_events : Request → ℤ → List Event
write_events r total =
    reply r success
    ∷ log_line "WR" (pos r.size)
    ∷ log_line "byte presenti:" (pos 0)
    ∷ log_line "NB " total
    ∷ []

module _ (sc : ServerConf) (s : Server) (rows : Rows) (r : Request) (f : File) (bytes : List ℕ)
    (w : IsServer s rows) (present : view s rows r.pathname ≡ some f) (opened : f.isopen ≡ 1)
    (payload : read_block r.contenuto r.size ≡ ok bytes) where
  write_found_fits :
      (p : ℕ) (q : Lis ℕ)
      → insert_t s.fifo p f.path_name ≡ ok q
      → ltb_ℤ (s.actual_size +ℤ pos r.size) (pos sc.space) ≡ true
      → write_found sc r (some p) f s
        ≡ ok (
          tt,
          record (with_file s p (written f bytes r.size)) {
            actual_size = s.actual_size +ℤ pos r.size;
            fifo = q;
            trace = s.trace ++ write_events r (s.actual_size +ℤ pos r.size);
          },
        )
  unfolding write_found
  write_found_fits p q run fits =
      let total = s.actual_size +ℤ pos r.size in
      let a = reply r success in
      let b = log_line "WR" (pos r.size) in
      let c = log_line "byte presenti:" (pos 0) in
      let d = log_line "NB " total in
      let e₁ = append_assoc s.trace (a ∷ []) (b ∷ []) in
      let e₂ = append_assoc s.trace (a ∷ b ∷ []) (c ∷ []) in
      let e₃ = append_assoc s.trace (a ∷ b ∷ c ∷ []) (d ∷ []) in
      ground (
        arith,
        payload,
        fits,
        run,
        update_self s.files p (some (written f bytes r.size)),
        e₁,
        e₂,
        e₃,
      )

  -- A write, by a client that may use it, to an open file of a server in order, with the total
  -- below the bound: the file has the new size and contents, no other path name changes, the size
  -- is added to the count of bytes, the file goes to the tail of the FIFO queue, the answer is
  -- SUCCESS and the log lines follow, and the server stays in order.
  pub serve_write_fits :
      (p : ℕ) (queued : List (Cell ℕ))
      → Found s rows r.pathname p f
      → may_use f r ≡ true
      → Holds s.fifo queued
      → ltb_ℤ (s.actual_size +ℤ pos r.size) (pos sc.space) ≡ true
      → Stored s rows r.pathname
          (written f bytes r.size)
          (s.actual_size +ℤ pos r.size)
          (queued ++ new_cell s.fifo p r.pathname ∷ [])
          (write_events r (s.actual_size +ℤ pos r.size))
          (serve_write sc r s)
  unfolding serve_write
  serve_write_fits p queued o mine held fits =
      let total = s.actual_size +ℤ pos r.size in
      let f' = written f bytes r.size in
      let (q, run, holds) = insert_t-Holds s.fifo queued p r.pathname held in
      let t = with_file-IsServer s rows r.pathname p f f' w o refl in
      let run' : insert_t s.fifo p f.path_name ≡ ok q =
        subst (λ k. insert_t s.fifo p k ≡ ok q) (sym o.named) run in
      let wrote = write_found_fits p q run' fits in
      record {
        after = record (with_file s p f') {
          actual_size = total;
          fifo = q;
          trace = s.trace ++ write_events r total;
        };
        runs = ground (arith, o.contained, o.got, o.live, opened, mine, wrote);
        sound = record { table = t.table; stored = t.stored; below = t.below };
        reads = λ k. with_file-view s rows r.pathname k p f f' w o;
        counted = refl;
        queue = holds;
        traced = refl;
        table = refl;
        queueric = refl;
      }

-- What a write stores is what a read sends: to every client if the file is not locked, and to its
-- holder if it is.
module _ (sc : ServerConf) (s : Server) (rows : Rows) (r r' : Request) (f : File) (bytes : List ℕ)
    (w : IsServer s rows) (present : view s rows r.pathname ≡ some f) (opened : f.isopen ≡ 1)
    (payload : read_block r.contenuto r.size ≡ ok bytes) where
  -- A write of `bytes`, the payload of the request, by a client that may use the open file, with
  -- the total below the server's bound, succeeds; and a read of that path name which follows it by
  -- any client that may use the file succeeds, and sends SUCCESS, the size and those very bytes.
  -- What may be used is a file that is not locked, or whose holder the client is; the server is in
  -- order and the FIFO queue a list of known cells.
  pub read-write :
      (queued : List (Cell ℕ))
      → may_use f r ≡ true
      → Holds s.fifo queued
      → ltb_ℤ (s.actual_size +ℤ pos r.size) (pos sc.space) ≡ true
      → r'.pathname ≡ r.pathname
      → may_use f r' ≡ true
      → (t u : Server) × (serve_write sc r s ≡ ok (tt, t))
        × (serve_read r' t ≡ ok (tt, u))
        × (u.trace
            ≡ t.trace
              ++ reply r' success
                ∷ sent r'.fd (int_bytes r.size)
                ∷ sent r'.fd bytes
                ∷ log_line "RD" (pos r.size)
                ∷ [])
  read-write queued mine held fits same mine' =
      let (p, o) = found s rows r.pathname f w present in
      let x =
        serve_write_fits sc s rows r f bytes w present opened payload p queued o mine held fits in
      let f' = written f bytes r.size in
      let at : view x.after rows r'.pathname ≡ some f' =
        x.reads r'.pathname ∙ rw same (rw (str_eq_refl r.pathname)) in
      let y =
        serve_read-Serves x.after rows r' f' x.sound at bytes
          (reread r.contenuto r.size bytes payload) in
      let open' : (f.isopen == 1) ≡ true = ground arith in
      (
        x.after,
        y.after,
        x.runs,
        y.runs,
        y.traced ∙ ap (λ (o : List Event). x.after.trace ++ o) (rw (open', mine') refl),
      )
