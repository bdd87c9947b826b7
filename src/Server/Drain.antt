-- ===== src/Server/Drain.antt =====
-- A queue of requests that never wait is worked off: as many rounds as there are requests answer
-- each of them, in the order of the queue.
use file_storage_server.Prelude.{
  ℕ, ◌≡◌, refl, sym, ◌∙◌, ap, subst, false, List, [], ◌∷◌, ◌++◌, arith, ◌==◌, pos, append_assoc,
  append-nil, length, fun_ext,
}
use file_storage_server.Run.{Run, ok}
use file_storage_server.Lis.Seg.{Cell, Holds}
use file_storage_server.File.{File}
use file_storage_server.Protcol
use file_storage_server.Protcol.{Request}
use file_storage_server.Server.State.{Server, ServerConf, Event, log_line, handed_back}
use file_storage_server.Server.Worker.{work}
use file_storage_server.Server.Invariant.{Rows, view, IsServer}
use file_storage_server.Server.Plain.{
  Kind, opening, lock_opening, unlocking, closing, reading, IsKind, IsLegible,
}
use file_storage_server.Server.Rounds.{
  Files, answer, step_files, step_files-IsLegible, round_events, Plain, after_all, all_events,
  rounds, IsLined, serve-Follows, take_request-Holds,
}

-- A worker has answered the requests of the list: the server as a map is `m`, the queue of requests
-- is empty, the trace has those events more, and the FIFO queue, the table and the count of bytes are
-- as they were.
pub record Drained (s : Server) (rows : Rows) (m : Files) (waiting : List (Cell Request))
    (events : List Event) (result : Run (Unit {0} × Server)) : Type 0 where
  pub after : Server
  pub runs : result ≡ ok (tt, after)
  pub sound : IsServer after rows
  pub reads : view after rows ≡ m
  pub queueric : Holds after.queueric waiting
  pub traced : after.trace ≡ s.trace ++ events
  pub fifo : after.fifo ≡ s.fifo
  pub table : after.table ≡ s.table
  pub actual_size : after.actual_size ≡ s.actual_size

-- A request of one of these kinds does not close the connection.
kind_stays : (k : Kind) (r : Request) → IsKind k r → (r.op == Protcol.close_connection) ≡ false
kind_stays opening r is = rw is.0 refl
kind_stays lock_opening r is = rw is.0 refl
kind_stays unlocking r is = rw is refl
kind_stays closing r is = rw is refl
kind_stays reading r is = rw is refl

pub work-Drained :
    (sc : ServerConf) (raw : File) (thread : ℕ) (s : Server) (rows : Rows) (k : Kind)
    (c : Cell Request) (cs : List (Cell Request))
    → IsServer s rows
    → IsKind k c.cont
    → IsLegible (view s rows)
    → Holds s.queueric (c ∷ cs)
    → Drained s rows
        (step_files k c.cont (view s rows))
        cs
        (round_events thread k c.cont (view s rows))
        (work sc raw thread s)
unfolding work
work-Drained sc raw thread s rows k c cs w is legible queued =
    let (q, taken, held) = take_request-Holds s c cs queued in
    let a = log_line "Richiesta servita dal thread" (pos 0) in
    let b = log_line "TH " (pos thread) in
    let s₁ : Server = record s { queueric = q; trace = (s.trace ++ a ∷ []) ++ b ∷ [] } in
    let (t, run, (sound, reads, traced, queueric, fifo, table, size)) =
      serve-Follows sc raw s₁ rows k c.cont
        (record { table = w.table; stored = w.stored; below = w.below }) is legible in
    let stays = kind_stays k c.cont is in
    let h : Event = handed_back c.cont.fd in
    record {
      after = record t { trace = t.trace ++ h ∷ [] };
      runs = ground (arith, taken, run, stays);
      sound = record { table = sound.table; stored = sound.stored; below = sound.below };
      reads = fun_ext reads;
      queueric = subst (λ l. Holds l cs) (sym queueric) held;
      traced =
          ap (λ (x : List Event). x ++ h ∷ []) traced
          ∙ append_assoc s₁.trace (answer k c.cont (view s rows c.cont.pathname)) (h ∷ [])
          ∙ append_assoc (s.trace ++ a ∷ []) (b ∷ [])
              (answer k c.cont (view s rows c.cont.pathname) ++ h ∷ [])
          ∙ append_assoc s.trace (a ∷ [])
              (b ∷ (answer k c.cont (view s rows c.cont.pathname) ++ h ∷ []));
      fifo = fifo;
      table = table;
      actual_size = size;
    }

-- At a server in order whose files' contents are as long as their sizes, a queue of requests of the
-- kinds OPEN with O_OPEN or O_LOCK, UNLOCKS, CLOSE and READ is worked off: as many rounds of a
-- worker as there are requests end, the queue is empty, the server as a map is what the
-- specification of one file makes of the requests in the order of the queue, and the trace has the
-- answers, log lines and descriptors handed back in that order; the FIFO queue, the table and the
-- count of bytes are as before.
pub rounds-Drained :
    (sc : ServerConf) (raw : File) (thread : ℕ) (s : Server) (rows : Rows)
    (waiting : List (Cell Request)) (requests : List Plain)
    → IsServer s rows
    → IsLegible (view s rows)
    → Holds s.queueric waiting
    → IsLined waiting requests
    → Drained s rows
        (after_all requests (view s rows))
        []
        (all_events thread requests (view s rows))
        (rounds (length waiting) sc raw thread s)
unfolding rounds
rounds-Drained sc raw thread s rows [] [] w legible queued lined = record {
  after = s;
  runs = refl;
  sound = w;
  reads = refl;
  queueric = queued;
  traced = sym (append-nil s.trace);
  fifo = refl;
  table = refl;
  actual_size = refl;
}
rounds-Drained sc raw thread s rows [] (p ∷ ps) w legible queued lined = absurd lined
rounds-Drained sc raw thread s rows (c ∷ cs) [] w legible queued lined = absurd lined
rounds-Drained sc raw thread s rows (c ∷ cs) ((k, r, is) ∷ ps) w legible queued (same, lined) =
    let m = view s rows in
    let x : Drained s rows (step_files k r m) cs (round_events thread k r m)
        (work sc raw thread s) =
      subst
        (λ x.
          Drained s rows (step_files k x m) cs (round_events thread k x m) (work sc raw thread s))
        same
        (work-Drained sc raw thread s rows k c cs w (subst (IsKind k) (sym same) is) legible
          queued) in
    let m' = step_files k r m in
    let y : Drained x.after rows (after_all ps m') [] (all_events thread ps m')
        (rounds (length cs) sc raw thread x.after) =
      subst
        (λ n.
          Drained x.after rows (after_all ps n) [] (all_events thread ps n)
            (rounds (length cs) sc raw thread x.after))
        x.reads
        (rounds-Drained sc raw thread x.after rows cs ps x.sound
          (subst IsLegible (sym x.reads) (step_files-IsLegible k r m legible)) x.queueric lined) in
    record {
      after = y.after;
      runs = ground (arith, x.runs, y.runs);
      sound = y.sound;
      reads = y.reads;
      queueric = y.queueric;
      traced =
          y.traced
          ∙ ap (λ (e : List Event). e ++ all_events thread ps m') x.traced
          ∙ append_assoc s.trace (round_events thread k r m) (all_events thread ps m');
      fifo = y.fifo ∙ x.fifo;
      table = y.table ∙ x.table;
      actual_size = y.actual_size ∙ x.actual_size;
    }
