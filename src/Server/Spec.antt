-- ===== src/Server/Spec.antt =====
-- What the server promises of a single file: the answer to a request and what becomes of the file,
-- with no table, no pointer and no list in it. The refinements say that the handlers keep it.
use file_storage_server.Prelude.{
  ℕ, ◌≡◌, Bool, not, ◌||◌, List, [], ◌∷◌, ◌++◌, Option, none, some, ◌==◌, if◌then◌else◌, pos,
}
use file_storage_server.Run.{Run, ok}
use file_storage_server.Text.{Text, str_eq}
use file_storage_server.File.{File}
use file_storage_server.Protcol.{Request, int_bytes, success, not_present, not_open, not_permission}
use file_storage_server.Server.State.{Server, Event, sent, log_line}
use file_storage_server.Server.Invariant.{Rows, view, IsServer}

-- the answer of one code to the client of a request
abbrev pub reply : Request → ℕ → Event
reply r code = sent r.fd (int_bytes code)

-- A locked file is its holder's alone.
abbrev pub may_use : File → Request → Bool
may_use f r = not (f.lock == 1) || f.fd == r.fd

-- the file afterwards and the answer
abbrev pub Outcome : Type 0
Outcome = File × List Event

abbrev pub refused : File → Request → ℕ → Outcome
refused f r code = (f, reply r code ∷ [])

-- opening with O_OPEN
abbrev pub spec_open : Request → File → Outcome
spec_open r f = (record f { isopen = 1 }, reply r success ∷ [])

-- opening with O_LOCK: the lock and the ownership go to the client, whoever had them
abbrev pub spec_open_lock : Request → File → Outcome
spec_open_lock r f =
    (record f { isopen = 1; lock = 1; fd = r.fd }, reply r success ∷ log_line "LCK" (pos 0) ∷ [])

-- a lock on a file that nobody else holds
abbrev pub spec_lock : Request → File → Outcome
spec_lock r f =
    if f.isopen == 1
    then (record f { lock = 1; fd = r.fd }, reply r success ∷ log_line "LCK" (pos 0) ∷ [])
    else refused f r not_open

abbrev pub spec_unlock : Request → File → Outcome
spec_unlock r f =
    if f.fd == r.fd
    then (record f { lock = 0 }, reply r success ∷ log_line "ULK" (pos 0) ∷ [])
    else refused f r not_permission

abbrev pub spec_close : Request → File → Outcome
spec_close r f = (record f { isopen = 0 }, reply r success ∷ log_line "CL" (pos 0) ∷ [])

-- a read of a file whose contents are `bytes`
abbrev pub spec_read : List ℕ → Request → File → Outcome
spec_read bytes r f =
    if f.isopen == 1
    then (if may_use f r
        then (
          f,
          reply r success
              ∷ sent r.fd (int_bytes f.dim)
              ∷ sent r.fd bytes
              ∷ log_line "RD" (pos f.dim)
              ∷ [],
        )
        else refused f r not_permission)
    else refused f r not_open

-- The handler does to the file of the request what the outcome says, and nothing else: no other
-- file, nor the table, the queues and the count of bytes, and it sends and logs those events only.
pub record Serves (s : Server) (rows : Rows) (k : Text) (o : Outcome)
    (result : Run (Unit {0} × Server)) : Type 0 where
  pub after : Server
  pub runs : result ≡ ok (tt, after)
  pub sound : IsServer after rows
  pub reads : (q : Text) → view after rows q ≡ (if str_eq q k then some o.0 else view s rows q)
  pub traced : after.trace ≡ s.trace ++ o.1
  pub table : after.table ≡ s.table
  pub fifo : after.fifo ≡ s.fifo
  pub queueric : after.queueric ≡ s.queueric
  pub actual_size : after.actual_size ≡ s.actual_size

-- The whole answer to a request on one path name: the refusal where there is no such file, and the
-- outcome where there is one.
abbrev pub Handled :
    Server
    → Rows
    → Request
    → (Request → File → Outcome)
    → Run (Unit {0} × Server)
    → Option File
    → Type 0
Handled s rows r spec result none =
    result ≡ ok (tt, record s { trace = s.trace ++ reply r not_present ∷ [] })
Handled s rows r spec result (some f) = Serves s rows r.pathname (spec r f) result
