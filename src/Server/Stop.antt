-- ===== src/Server/Stop.antt =====
-- source/server.c: how the threads stop. A step of one thread at a time: a worker between its waits,
-- and `signalHandler` on its two ways, SIGINT or SIGQUIT, and SIGHUP. What is done at once under the
-- lock of the connections, or by a thread that takes the lock of the requests and leaves it, is one
-- step. A wait may end at any time, as POSIX allows, and so where it is signalled. Which thread holds
-- the lock of the requests is `lock`; `dispatching` says that the dispatcher has not ended; `piped` says that `pipedisp` was written; `queued` counts the
-- requests, `activecon` the connections.
pub mod Woken
pub mod Unblocked
use file_storage_server.Prelude.{
  ℕ, suc, ◌+◌, ◌≡◌, Bool, true, false, Option, none, some, ◌==◌, if◌then◌else◌, ◌&&◌, not, ltb,
}

-- Where a worker is: at the test of its loop, before the lock (at first or behind a wait), with it at
-- the test of the inner loop, before the wait, waiting, behind the inner loop, with a request, at its end.
pub data WorkerAt : Type 0 where
  looping locking testing to_wait waiting inside serving ended : WorkerAt

-- Where the signal handler is: before the signal; on SIGINT and SIGQUIT, with the pipe written; on SIGHUP,
-- before the test of the connections, waiting for them, behind them, and with `terminate` at 0; then on
-- both ways, before the join of the dispatcher, behind it, with the lock, behind the broadcast, and
-- joining the workers.
pub data HandlerAt : Type 0 where
  asleep told con_ready con_waiting con_done con_stopped stopped joined locked woke joining :
      HandlerAt

pub data Who : Type 0 where
  worker : ℕ → Who
  handler : Who

pub record Threads : Type 0 where
  pub terminate : Bool
  pub closesighup : Bool
  pub gestore : Bool
  pub dispatching : Bool
  pub piped : Bool
  pub lock : Option Who
  pub queued : ℕ
  pub activecon : ℕ
  pub workers : ℕ → WorkerAt
  pub handler_at : HandlerAt

-- one worker goes elsewhere
abbrev pub moved : (ℕ → WorkerAt) → ℕ → WorkerAt → ℕ → WorkerAt
moved ws i to j = if j == i then to else ws j

-- `BCAST`: nobody waits any more
abbrev pub roused : WorkerAt → WorkerAt
roused waiting = locking
roused other = other

abbrev pub rouse : (ℕ → WorkerAt) → ℕ → WorkerAt
rouse ws j = roused (ws j)

-- the test of the inner loop
abbrev pub inner : Threads → Bool
inner t = (t.queued == 0) && t.terminate

-- a step of worker `i`
pub data Work (i : ℕ) (t : Threads) : Threads → Type 0 where
  enters :
      t.workers i ≡ looping
      → t.terminate ≡ true
      → Work i t (record t { workers = moved t.workers i locking })
  ends :
      t.workers i ≡ looping
      → t.terminate ≡ false
      → Work i t (record t { workers = moved t.workers i ended })
  stays :
      t.workers i ≡ testing
      → inner t ≡ true
      → Work i t (record t { workers = moved t.workers i to_wait })
  goes_in :
      t.workers i ≡ testing
      → inner t ≡ false
      → Work i t (record t { workers = moved t.workers i inside })
  waits :
      t.workers i ≡ to_wait
      → Work i t (record t { workers = moved t.workers i waiting; lock = none })
  wakes : t.workers i ≡ waiting → Work i t (record t { workers = moved t.workers i locking })
  gets_lock :
      t.workers i ≡ locking
      → t.lock ≡ none
      → Work i t (record t { workers = moved t.workers i testing; lock = some (worker i) })
  takes :
      (n : ℕ)
      → t.workers i ≡ inside
      → t.terminate ≡ true
      → t.queued ≡ suc n
      → Work i t (record t { workers = moved t.workers i serving; lock = none; queued = n })
  leaves :
      t.workers i ≡ inside
      → t.terminate ≡ false
      → Work i t (record t { workers = moved t.workers i looping; lock = none })
  puts_back : t.workers i ≡ serving → t.lock ≡ none → Work i t (record t { queued = t.queued + 1 })
  served : t.workers i ≡ serving → Work i t (record t { workers = moved t.workers i looping })

-- CLOSECONNECTION with `n` connections left: the handler is signalled where there are none
abbrev pub signalled : HandlerAt → HandlerAt
signalled con_waiting = con_ready
signalled other = other

abbrev pub left_with : Threads → ℕ → HandlerAt
left_with t n = if (n == 0) && not t.closesighup then signalled t.handler_at else t.handler_at

pub data Step (t : Threads) : Threads → Type 0 where
  works : {t' : Threads} (i : ℕ) → Work i t t' → Step t t'
  closes :
      (i n : ℕ)
      → t.workers i ≡ serving
      → t.activecon ≡ suc n
      → Step t (record t { activecon = n; handler_at = left_with t n })
  -- the dispatcher: a request, a connection, the pipe, and its end; behind the pipe it goes on with the
  -- descriptors of that round
  inserts : t.dispatching ≡ true → t.lock ≡ none → Step t (record t { queued = t.queued + 1 })
  accepts : t.dispatching ≡ true → Step t (record t { activecon = t.activecon + 1 })
  reads_pipe : t.gestore ≡ true → t.piped ≡ true → Step t (record t { gestore = false })
  leaves_loop : t.gestore ≡ false → Step t (record t { dispatching = false })
  -- the signal handler
  interrupted : t.handler_at ≡ asleep → Step t (record t { handler_at = told; piped = true })
  halts : t.handler_at ≡ told → Step t (record t { handler_at = stopped; terminate = false })
  hung_up :
      t.handler_at ≡ asleep → Step t (record t { handler_at = con_ready; closesighup = false })
  tests :
      t.handler_at ≡ con_ready
      → Step t (record t { handler_at = if t.activecon == 0 then con_done else con_waiting })
  con_wakes : t.handler_at ≡ con_waiting → Step t (record t { handler_at = con_ready })
  con_halts :
      t.handler_at ≡ con_done → Step t (record t { handler_at = con_stopped; terminate = false })
  tells : t.handler_at ≡ con_stopped → Step t (record t { handler_at = stopped; piped = true })
  joins : t.handler_at ≡ stopped → t.dispatching ≡ false → Step t (record t { handler_at = joined })
  locks :
      t.handler_at ≡ joined
      → t.lock ≡ none
      → Step t (record t { handler_at = locked; lock = some handler })
  broadcasts :
      t.handler_at ≡ locked → Step t (record t { handler_at = woke; workers = rouse t.workers })
  unlocks : t.handler_at ≡ woke → Step t (record t { handler_at = joining; lock = none })

-- `main` makes the threads, with `nwork` workers
abbrev pub started : ℕ → Threads
started nwork = record {
  terminate = true;
  closesighup = true;
  gestore = true;
  dispatching = true;
  piped = false;
  lock = none;
  queued = 0;
  activecon = 0;
  workers = λ i. if ltb i nwork then looping else ended;
  handler_at = asleep;
}

-- any number of steps
pub data Runs (s : Threads) : Threads → Type 0 where
  begins : Runs s s
  goes_on : {t t' : Threads} → Runs s t → Step t t' → Runs s t'

-- the steps with which a wait ends that nobody signalled
abbrev pub wakes_itself : {i : ℕ} {t t' : Threads} → Work i t t' → Bool
wakes_itself (wakes at) = true
wakes_itself other = false

abbrev pub by_itself : {t t' : Threads} → Step t t' → Bool
by_itself (works i s) = wakes_itself s
by_itself (con_wakes at) = true
by_itself other = false

-- any number of steps without such ones
pub data Prompt (s : Threads) : Threads → Type 0 where
  from_here : Prompt s s
  promptly :
      {t t' : Threads} → Prompt s t → (step : Step t t') → by_itself step ≡ false → Prompt s t'

pub Prompt-Runs : {s t : Threads} → Prompt s t → Runs s t
Prompt-Runs from_here = begins
Prompt-Runs (promptly runs step signalled) = goes_on (Prompt-Runs runs) step
