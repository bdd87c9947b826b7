-- ===== src/Server/Stop/Woken.antt =====
-- What holds of the threads between their steps.
use file_storage_server.Prelude.{ℕ, ◌≡◌, Bool, true, false, some, ◌==◌, arith}
use file_storage_server.Server.Stop.{
  WorkerAt, testing, to_wait, waiting, inside, HandlerAt, con_ready, con_waiting, con_stopped,
  stopped, joined, locked, woke, joining, worker, handler, Threads, inner, Work, enters, ends,
  stays, goes_in, waits, wakes, gets_lock, takes, leaves, puts_back, served, Step, works, closes,
  inserts, accepts, reads_pipe, leaves_loop, interrupted, halts, hung_up, tests, con_wakes,
  con_halts, tells, joins, locks, broadcasts, unlocks, started, Runs, begins, goes_on,
}

-- A worker has the lock, is behind the inner loop, waits or is about to.
abbrev pub has_lock : WorkerAt → Bool
has_lock testing = true
has_lock to_wait = true
has_lock inside = true
has_lock other = false

abbrev pub is_inside : WorkerAt → Bool
is_inside inside = true
is_inside other = false

abbrev pub may_wait : WorkerAt → Bool
may_wait to_wait = true
may_wait waiting = true
may_wait other = false

-- The handler has the lock, is behind `terminate = 0`, is behind the broadcast, waits for connections.
abbrev pub handler_locks : HandlerAt → Bool
handler_locks locked = true
handler_locks woke = true
handler_locks other = false

abbrev pub is_stopped : HandlerAt → Bool
is_stopped con_stopped = true
is_stopped stopped = true
is_stopped joined = true
is_stopped locked = true
is_stopped woke = true
is_stopped joining = true
is_stopped other = false

abbrev pub is_past : HandlerAt → Bool
is_past woke = true
is_past joining = true
is_past other = false

abbrev pub awaits : HandlerAt → Bool
awaits con_waiting = true
awaits other = false

abbrev pub of_hup : HandlerAt → Bool
of_hup con_ready = true
of_hup con_waiting = true
of_hup other = false

-- For worker `i`: it has the lock where it goes on as if, the handler has it where it does; behind
-- `terminate = 0` it is 0; the worker behind its inner loop has a request, or it is 0; behind the
-- broadcast the worker does not wait; and the handler waits on SIGHUP, only for connections.
abbrev pub InOrder : Threads → ℕ → Type 0
InOrder t i =
    (has_lock (t.workers i) ≡ true → t.lock ≡ some (worker i))
    × (t.lock ≡ some (worker i) → has_lock (t.workers i) ≡ true)
    × (t.lock ≡ some handler → handler_locks t.handler_at ≡ true)
    × (handler_locks t.handler_at ≡ true → t.lock ≡ some handler)
    × (is_stopped t.handler_at ≡ true → t.terminate ≡ false)
    × (is_inside (t.workers i) ≡ true → inner t ≡ false)
    × (is_past t.handler_at ≡ true → may_wait (t.workers i) ≡ false)
    × (of_hup t.handler_at ≡ true → t.closesighup ≡ false)
    × (awaits t.handler_at ≡ true → (t.activecon == 0) ≡ false)

Work-InOrder :
    (i : ℕ) (t t' : Threads) → Work i t t' → ((j : ℕ) → InOrder t j) → (j : ℕ) → InOrder t' j
Work-InOrder i t _ (enters at on) w j = let own = w i in let here = w j in ground arith
Work-InOrder i t _ (ends at off) w j = let own = w i in let here = w j in ground arith
Work-InOrder i t _ (stays at more) w j = let own = w i in let here = w j in ground arith
Work-InOrder i t _ (goes_in at no_more) w j = let own = w i in let here = w j in ground arith
Work-InOrder i t _ (waits at) w j = let own = w i in let here = w j in ground arith
Work-InOrder i t _ (wakes at) w j = let own = w i in let here = w j in ground arith
Work-InOrder i t _ (gets_lock at free) w j = let own = w i in let here = w j in ground arith
Work-InOrder i t _ (takes n at on full) w j = let own = w i in let here = w j in ground arith
Work-InOrder i t _ (leaves at off) w j = let own = w i in let here = w j in ground arith
Work-InOrder i t _ (puts_back at free) w j = let own = w i in let here = w j in ground arith
Work-InOrder i t _ (served at) w j = let own = w i in let here = w j in ground arith

Step-InOrder : (t t' : Threads) → Step t t' → ((j : ℕ) → InOrder t j) → (j : ℕ) → InOrder t' j
Step-InOrder t t' (works i s) w j = Work-InOrder i t t' s w j
Step-InOrder t _ (closes i n at some_left) w j = let here = w j in ground arith
Step-InOrder t _ (inserts on free) w j = let here = w j in ground arith
Step-InOrder t _ (accepts on) w j = let here = w j in ground arith
Step-InOrder t _ (reads_pipe on written) w j = let here = w j in ground arith
Step-InOrder t _ (leaves_loop off) w j = let here = w j in ground arith
Step-InOrder t _ (interrupted at) w j = let here = w j in ground arith
Step-InOrder t _ (halts at) w j = let here = w j in ground arith
Step-InOrder t _ (hung_up at) w j = let here = w j in ground arith
Step-InOrder t _ (tests at) w j = let here = w j in ground arith
Step-InOrder t _ (con_wakes at) w j = let here = w j in ground arith
Step-InOrder t _ (con_halts at) w j = let here = w j in ground arith
Step-InOrder t _ (tells at) w j = let here = w j in ground arith
Step-InOrder t _ (joins at off) w j = let here = w j in ground arith
Step-InOrder t _ (locks at free) w j = let here = w j in ground arith
Step-InOrder t _ (broadcasts at) w j = let here = w j in ground arith
Step-InOrder t _ (unlocks at) w j = let here = w j in ground arith

pub Runs-kept : (s t : Threads) → ((j : ℕ) → InOrder s j) → Runs s t → (j : ℕ) → InOrder t j
Runs-kept s t w begins j = w j
Runs-kept s t' w (goes_on {t = t} runs step) j = Step-InOrder t t' step (Runs-kept s t w runs) j

-- Along every run of the workers, the dispatcher and the signal handler, for each worker: it is
-- between taking the lock of the requests and leaving it just when it has it, and so is the
-- handler; behind `terminate = 0` it stays 0; where it has left the inner loop there is a request,
-- or `terminate` is 0; behind the broadcast it does not wait and is not about to; and on SIGHUP the
-- handler waits only while connections are active.
pub Runs-InOrder : (nwork : ℕ) (t : Threads) → Runs (started nwork) t → (i : ℕ) → InOrder t i
Runs-InOrder nwork t runs i = Runs-kept (started nwork) t (λ j. ground arith) runs i
