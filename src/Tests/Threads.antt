-- ===== src/Tests/Threads.antt =====
-- The theorems about the queue of pointers and about the end of the threads, at runs of theirs.
use file_storage_server.Prelude.{ℕ, ◌≡◌, refl, List, [], ◌∷◌, arith}
use file_storage_server.Run.{ok}
use file_storage_server.Queue.{queue_create}
use file_storage_server.Queue.Fifo.{
  Op, enqueue, dequeue, size, empty, run_list, run_queue, run_queue-run_list,
}
use file_storage_server.Server.Stop.{
  Threads, started, Runs, begins, goes_on, works, enters, gets_lock, stays, waits, interrupted,
  halts, reads_pipe, leaves_loop, joins, locks, broadcasts, unlocks, joining,
}
use file_storage_server.Server.Stop.Woken.{InOrder, Runs-InOrder}
use file_storage_server.Server.Stop.Unblocked.{CanEnd, Runs-CanEnd}

-- two elements in, one out, and two calls that only look
abbrev calls : List (Op ℕ)
calls = enqueue 7 ∷ enqueue 8 ∷ dequeue ∷ size ∷ empty ∷ dequeue ∷ dequeue ∷ []

run_queue-run_list_example : run_queue queue_create calls ≡ ok (run_list [] calls)
run_queue-run_list_example = run_queue-run_list calls (omega arith)

-- One worker waits when SIGINT comes, and the handler gets to the joins of the workers.
stopped_run : (t : Threads) × Runs (started 1) t × (t.handler_at ≡ joining)
stopped_run =
    let r₁ : Runs (started 1) _ = goes_on begins (works 0 (enters refl refl)) in
    let r₀ : Runs (started 1) _ = goes_on r₁ (works 0 (gets_lock refl refl)) in
    let r₂ : Runs (started 1) _ = goes_on r₀ (works 0 (stays refl refl)) in
    let r₃ : Runs (started 1) _ = goes_on r₂ (works 0 (waits refl)) in
    let r₄ : Runs (started 1) _ = goes_on r₃ (interrupted refl) in
    let r₅ : Runs (started 1) _ = goes_on r₄ (reads_pipe refl refl) in
    let r₆ : Runs (started 1) _ = goes_on (goes_on r₅ (leaves_loop refl)) (halts refl) in
    let r₇ : Runs (started 1) _ = goes_on r₆ (joins refl refl) in
    let r₈ : Runs (started 1) _ = goes_on r₇ (locks refl refl) in
    let r₉ : Runs (started 1) _ = goes_on r₈ (broadcasts refl) in
    let r : Runs (started 1) _ = goes_on r₉ (unlocks refl) in (_, r, refl)

Runs-InOrder_example : InOrder stopped_run.0 0
Runs-InOrder_example = Runs-InOrder 1 stopped_run.0 stopped_run.1 0

Runs-CanEnd_example : CanEnd stopped_run.0 0
Runs-CanEnd_example = Runs-CanEnd 1 stopped_run.0 0 stopped_run.1 stopped_run.2
