-- ===== src/Server/Full/Written.antt =====
-- WRITE that goes over the bound: the oldest files make room for the new contents.
use file_storage_server.Prelude.{
  ℕ, ◌≡◌, refl, sym, ◌∙◌, ap, subst, true, false, List, [], ◌∷◌, ◌++◌, Option, none, some, arith,
  append_assoc, if◌then◌else◌, ℤ, pos, ◌+ℤ◌, ltb_ℤ,
}
use file_storage_server.Run
use file_storage_server.Run.{Run, ok}
use file_storage_server.Text.{Text, str_eq, str_eq_refl}
use file_storage_server.Lis.{Lis, insert_t}
use file_storage_server.Lis.Seg.{Cell, Holds}
use file_storage_server.Lis.Insert.{new_cell, insert_t-Holds}
use file_storage_server.Hash.Table.{lookup}
use file_storage_server.File.{File, read_block}
use file_storage_server.Protcol.{Request, server_full}
use file_storage_server.Server.State.{Server, ServerConf, Event, log_line}
use file_storage_server.Server.Capacity.{handler_capacity, enqueue_fifo}
use file_storage_server.Server.Write.{write_found, serve_write, log_bytes}
use file_storage_server.Server.Spec.{may_use, reply}
use file_storage_server.Server.Invariant.{
  Rows, at_pointer, view, IsServer, Found, with_file, with_file-IsServer, with_file-view,
}
use file_storage_server.Server.Evict.{items, items-append, AllLive}
use file_storage_server.Server.Expelled.{is_named, drop_all, CanLeave, AreLegible}
use file_storage_server.Server.Full.{
  capacity_events, gone, stay, bytes_left, Replaced, handler_capacity-Relieved,
}
use file_storage_server.Server.Stored.{written}

-- what a write over the bound sends and logs, with `total` bytes left
abbrev pub full_events : Request → (Text → Option File) → List (Cell ℕ) → ℤ → List Event
full_events r m gone total =
    (log_line "AR" (pos 0) ∷ reply r server_full ∷ [])
    ++ (capacity_events r.fd m gone
        ++ (log_line "byte presenti:" (pos 0) ∷ log_line "NB " total ∷ []))

-- the server before `Handlercapacity`, with the new contents in place
abbrev pub overfull : Server → Request → ℕ → File → Server
overfull s r p f' = record (with_file s p f') {
  actual_size = s.actual_size +ℤ pos r.size;
  trace = s.trace ++ log_line "AR" (pos 0) ∷ reply r server_full ∷ [];
}

module _ (sc : ServerConf) (s : Server) (rows : Rows) (r : Request) (f : File) (bytes : List ℕ)
    (w : IsServer s rows) (present : view s rows r.pathname ≡ some f) (opened : f.isopen ≡ 1)
    (payload : read_block r.contenuto r.size ≡ ok bytes) (p : ℕ)
    (o : Found s rows r.pathname p f) where
  abbrev f' : File
  f' = written f bytes r.size

  abbrev s₁ : Server
  s₁ = overfull s r p f'

  write_found_over :
      ltb_ℤ (s.actual_size +ℤ pos r.size) (pos sc.space) ≡ false
      → write_found sc r (some p) f s
        ≡ Run.◌>>=◌
            (handler_capacity sc r.fd s₁)
            (λ u. Run.◌>>=◌ (enqueue_fifo (some p) u.1) (λ v. log_bytes v.1))
  unfolding write_found
  write_found_over over =
      let e = append_assoc s.trace (log_line "AR" (pos 0) ∷ []) (reply r server_full ∷ []) in
      ground (arith, payload, over, e)

  overfull-IsServer : IsServer s₁ rows
  overfull-IsServer =
      let t = with_file-IsServer s rows r.pathname p f f' w o refl in
      record { table = t.table; stored = t.stored; below = t.below }

  overfull-view :
      (q : Text) → view s₁ rows q ≡ (if str_eq q r.pathname then some f' else view s rows q)
  overfull-view q = with_file-view s rows r.pathname q p f f' w o

  -- the queue and the log lines behind it
  enqueued :
      (t : Server) (rows' : Rows) (q : Lis ℕ) (total : ℤ)
      → t.files p ≡ some f'
      → t.actual_size ≡ total
      → insert_t t.fifo p f'.path_name ≡ ok q
      → Run.◌>>=◌ (enqueue_fifo (some p) t) (λ v. log_bytes v.1)
        ≡ ok (
          tt,
          record t {
            fifo = q;
            trace = t.trace ++ log_line "byte presenti:" (pos 0) ∷ log_line "NB " total ∷ [];
          },
        )
  unfolding enqueue_fifo log_bytes
  enqueued t rows' q total live size ins =
      let e =
        append_assoc t.trace (log_line "byte presenti:" (pos 0) ∷ []) (log_line "NB " total ∷ []) in
      ground (arith, live, size, ins, e)

  module _ (queued : List (Cell ℕ)) (mine : may_use f r ≡ true)
      (over : ltb_ℤ (s.actual_size +ℤ pos r.size) (pos sc.space) ≡ false)
      (held : Holds s.fifo queued) where
    -- WRITE that brings the bytes to the bound or past it, to an open file that the client may use,
    -- at a server in order whose FIFO queue holds live files, where throwing out the oldest is
    -- enough, each of those has an entry in the table whose removal leaves its bucket's tail
    -- pointer right, they have different names, and contents that were set and are readable, and
    -- the file itself is not among them: the shortest run from the front of the queue that brings
    -- the bytes within the bound leaves the server; the file has the new contents and every other
    -- name is as before; the table has as many files less, the queue is the rest with the file
    -- behind it, and the count of bytes is what is left; SERVERFULL, the number of the files and
    -- the files are sent; and the server stays in order.
    pub serve_write_full :
        AllLive s₁.files queued
        → ltb_ℤ (pos sc.space) (bytes_left sc s₁ queued) ≡ false
        → CanLeave rows (items (gone sc s₁ queued))
        → AreLegible (view s₁ rows) (items (gone sc s₁ queued))
        → is_named r.pathname (items (gone sc s₁ queued)) ≡ false
        → Replaced s rows r.pathname f'
            (gone sc s₁ queued)
            (items (stay sc s₁ queued) ++ (r.pathname, p) ∷ [])
            (bytes_left sc s₁ queued)
            (full_events r (view s₁ rows) (gone sc s₁ queued) (bytes_left sc s₁ queued))
            (serve_write sc r s)
    unfolding serve_write
    serve_write_full live enough leave legible kept =
        let out = gone sc s₁ queued in
        let rest = stay sc s₁ queued in
        let total = bytes_left sc s₁ queued in
        let rows₁ = drop_all rows (items out) in
        let x =
          handler_capacity-Relieved sc r.fd s₁ rows queued overfull-IsServer held live enough leave
            legible in
        let k = r.pathname in
        let look : lookup rows₁ k ≡ some p = x.looks k ∙ rw kept o.looked in
        let (g, at, named) = x.sound.stored k p look in
        let seen : view x.after rows₁ k ≡ some f' =
          x.reads k ∙ rw kept (overfull-view k ∙ rw (str_eq_refl k) refl) in
        let at' : view x.after rows₁ k ≡ some g = ap (at_pointer x.after.files) look ∙ at in
        let live' : x.after.files p ≡ some f' = at ∙ sym at' ∙ seen in
        let (q, ins, holds) = insert_t-Holds x.after.fifo rest p k x.queue in
        let ins' : insert_t x.after.fifo p f'.path_name ≡ ok q =
          subst (λ (n : Text). insert_t x.after.fifo p n ≡ ok q) (sym o.named) ins in
        let end = enqueued x.after rows₁ q total live' x.counted ins' in
        let runs = x.runs in
        let before = write_found_over over in
        let last : List Event = log_line "byte presenti:" (pos 0) ∷ log_line "NB " total ∷ [] in
        let done : Server = record x.after { fifo = q; trace = x.after.trace ++ last } in
        let wrote : write_found sc r (some p) f s ≡ ok (tt, done) = before ∙ rw runs end in
        let evicted = capacity_events r.fd (view s₁ rows) out in
        record {
          after = done;
          rows' = rows₁;
          runs = ground (arith, o.contained, o.got, o.live, opened, mine, wrote);
          sound = record { table = x.sound.table; stored = x.sound.stored; below = x.sound.below };
          reads = λ q.
              x.reads q
              ∙ ap (λ (v : Option File). if is_named q (items out) then none else v)
                  (overfull-view q);
          nelem = x.nelem;
          counted = x.counted;
          queued = rest ++ new_cell x.after.fifo p k ∷ [];
          queue = holds;
          order = items-append rest (new_cell x.after.fifo p k ∷ []);
          traced =
              ap (λ (es : List Event). es ++ last) x.traced
              ∙ append_assoc s₁.trace evicted last
              ∙ append_assoc s.trace (log_line "AR" (pos 0) ∷ reply r server_full ∷ [])
                  (evicted ++ last);
          queueric = x.queueric;
        }
