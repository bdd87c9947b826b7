-- ===== src/Server/Dispatch/Answered.antt =====
-- From the socket to the answer: the dispatcher takes a request in, and a worker comes to it behind
-- the requests that wait.
use file_storage_server.Prelude.{
  ℕ, ◌+◌, ◌≡◌, refl, sym, ◌∙◌, ap, subst, List, [], ◌∷◌, ◌++◌, Option, some, length, length-append,
}
use file_storage_server.Run.{ok}
use file_storage_server.Lis.Seg.{Cell, Holds}
use file_storage_server.Lis.Insert.{new_cell, insert_t-Holds}
use file_storage_server.File.{File}
use file_storage_server.Protcol.{Request}
use file_storage_server.Server.State.{ServerConf, signal_request}
use file_storage_server.Server.Invariant.{Rows, view, IsServer}
use file_storage_server.Server.Plain.{
  Kind, opening, lock_opening, unlocking, closing, reading, IsKind, IsLegible,
}
use file_storage_server.Server.Rounds.{Plain, after_all, all_events, rounds, IsLined}
use file_storage_server.Server.Drain.{Drained, rounds-Drained}
use file_storage_server.Server.Message.{read_message, wire, IsSized, read_message-wire}
use file_storage_server.Server.Dispatch.{Machine, Round, unwatch, enqueue, take_in}

IsLined-append :
    (cs ds : List (Cell Request)) (ps qs : List Plain)
    → IsLined cs ps
    → IsLined ds qs
    → IsLined (cs ++ ds) (ps ++ qs)
IsLined-append [] ds [] qs h k = k
IsLined-append [] ds (p ∷ ps) qs h k = absurd h
IsLined-append (c ∷ cs) ds [] qs h k = absurd h
IsLined-append (c ∷ cs) ds ((kind, r, is) ∷ ps) qs h k = (h.0, IsLined-append cs ds ps qs h.1 k)

-- The descriptor has no part in the kind.
pub arrived-IsKind : (k : Kind) (r : Request) (c : ℕ) → IsKind k r → IsKind k (record r { fd = c })
arrived-IsKind opening r c is = is
arrived-IsKind lock_opening r c is = is
arrived-IsKind unlocking r c is = is
arrived-IsKind closing r c is = is
arrived-IsKind reading r c is = is

module _ (w : Round) (c : ℕ) (m : Machine) (cells : List (Cell Request)) (r : Request)
    (pointer : Option (List ℕ)) (rows : Rows) where
  -- the machine with the request at the tail of its queue
  abbrev pub Queued : Type 0
  Queued =
      (m' : Machine) × (take_in w c m ≡ ok m')
      × Holds m'.server.queueric
          (cells ++ new_cell m.server.queueric (record r { fd = c }) r.pathname ∷ [])
      × IsServer m'.server rows
      × (view m'.server rows ≡ view m.server rows)

  take_in-Queued :
      Holds m.server.queueric cells
      → IsServer m.server rows
      → w.socket c ≡ wire r pointer
      → IsSized r
      → Queued
  unfolding take_in enqueue
  take_in-Queued queued s came sized =
      let x : Request = record r { fd = c } in
      let (q, run, held) = insert_t-Holds m.server.queueric cells x r.pathname queued in
      let read : read_message w.raw w.raw_cont c (w.socket c) ≡ some x =
        ap (read_message w.raw w.raw_cont c) came
        ∙ read_message-wire w.raw w.raw_cont c r pointer sized in
      (
        record m {
          server = record m.server {
            set = unwatch c m.server.set;
            queueric = q;
            trace = m.server.trace ++ signal_request ∷ [];
          };
        },
        rw (read, run) refl,
        held,
        record { table = s.table; stored = s.stored; below = s.below },
        refl,
      )

  -- the requests that wait, and this one behind them
  abbrev pub with_last : List Plain → (k : Kind) → IsKind k r → List Plain
  with_last requests k is = requests ++ (k, record r { fd = c }, arrived-IsKind k r c is) ∷ []

  -- From the socket to the answer: when a client has written a request of the kinds OPEN with
  -- O_OPEN or O_LOCK, UNLOCKS, CLOSE and READ, whose size tells of its contents, and only such
  -- requests wait in the queue of a server in order whose files' contents are as long as their
  -- sizes, the dispatcher takes the request in, and as many rounds of a worker as there were
  -- requests in the queue and one more answer them all, this one last and as the request of that
  -- client, as the specification of one file says.
  pub take_in-Drained :
      (sc : ServerConf) (raw : File) (thread : ℕ) (requests : List Plain) (k : Kind)
      (is : IsKind k r)
      → Holds m.server.queueric cells
      → IsLined cells requests
      → IsServer m.server rows
      → IsLegible (view m.server rows)
      → w.socket c ≡ wire r pointer
      → IsSized r
      → (m' : Machine) × (take_in w c m ≡ ok m')
        × Drained m'.server rows
            (after_all (with_last requests k is) (view m.server rows))
            []
            (all_events thread (with_last requests k is) (view m.server rows))
            (rounds (length cells + 1) sc raw thread m'.server)
  take_in-Drained sc raw thread requests k is queued lined s legible came sized =
      let (m', run, held, s', same) = take_in-Queued queued s came sized in
      let new = new_cell m.server.queueric (record r { fd = c }) r.pathname in
      let lined_up = with_last requests k is in
      let drained =
        rounds-Drained sc raw thread m'.server rows (cells ++ new ∷ []) lined_up s'
          (subst IsLegible (sym same) legible) held
          (IsLined-append cells (new ∷ []) requests
            ((k, record r { fd = c }, arrived-IsKind k r c is) ∷ []) lined (refl, tt)) in
      (
        m',
        run,
        subst
            (λ n.
              Drained m'.server rows (after_all lined_up (view m.server rows)) []
                (all_events thread lined_up (view m.server rows))
                (rounds n sc raw thread m'.server))
            (length-append cells (new ∷ []))
            (subst
              (λ v.
                Drained m'.server rows (after_all lined_up v) [] (all_events thread lined_up v)
                  (rounds (length (cells ++ new ∷ [])) sc raw thread m'.server))
              same drained),
      )
