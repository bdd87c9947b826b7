-- ===== src/Server/Stop/Unblocked.antt =====
-- The workers behind the broadcast: each of them can get to its end.
use file_storage_server.Prelude.{ℕ, ◌≡◌, refl, true, false, Option, none, some, arith}
use file_storage_server.Server.Stop.{
  WorkerAt, looping, testing, to_wait, waiting, locking, inside, serving, ended, joining, Who,
  worker, handler, Threads, moved, inner, ends, goes_in, gets_lock, leaves, served, works, Runs,
  Prompt, from_here, promptly, Prompt-Runs, started,
}
use file_storage_server.Server.Stop.Woken.{InOrder, has_lock, Runs-kept, Runs-InOrder}

-- a run from here on, in which no wait ends by itself, after which the worker has ended
abbrev pub CanEnd : Threads → ℕ → Type 0
CanEnd s i = (t : Threads) × Prompt s t × (t.handler_at ≡ joining) × (t.workers i ≡ ended)

-- a run after which the lock is free and the worker is where it was
abbrev Frees : Threads → ℕ → WorkerAt → Type 0
Frees s i at =
    (t : Threads) × Prompt s t × (t.handler_at ≡ joining) × (t.workers i ≡ at) × (t.lock ≡ none)

module _ (s : Threads) (w : (j : ℕ) → InOrder s j) where
  halts : (t : Threads) → Prompt s t → t.handler_at ≡ joining → t.terminate ≡ false
  halts t runs past = let h = Runs-kept s t w (Prompt-Runs runs) 0 in ground arith

  moved_at : (ws : ℕ → WorkerAt) (i : ℕ) (to : WorkerAt) → moved ws i to i ≡ to
  moved_at ws i to = ground arith

  end_looping :
      (t : Threads) (i : ℕ)
      → Prompt s t
      → t.handler_at ≡ joining
      → t.workers i ≡ looping
      → CanEnd s i
  end_looping t i runs past at = (
    _,
    promptly runs (works i (ends at (halts t runs past))) refl,
    past,
    moved_at t.workers i ended,
  )

  end_inside :
      (t : Threads) (i : ℕ)
      → Prompt s t
      → t.handler_at ≡ joining
      → t.workers i ≡ inside
      → CanEnd s i
  end_inside t i runs past at =
      end_looping _ i (promptly runs (works i (leaves at (halts t runs past))) refl) past
        (moved_at t.workers i looping)

  -- the inner loop is over
  over : (t : Threads) → Prompt s t → t.handler_at ≡ joining → inner t ≡ false
  over t runs past = let off = halts t runs past in ground arith

  end_testing :
      (t : Threads) (i : ℕ)
      → Prompt s t
      → t.handler_at ≡ joining
      → t.workers i ≡ testing
      → CanEnd s i
  end_testing t i runs past at =
      end_inside _ i (promptly runs (works i (goes_in at (over t runs past))) refl) past
        (moved_at t.workers i inside)

  -- The worker that has the lock leaves it.
  leave :
      (t : Threads) (i j : ℕ)
      → Prompt s t
      → t.handler_at ≡ joining
      → t.workers i ≡ locking
      → t.workers j ≡ inside
      → Frees s i locking
  leave t i j runs past at there =
      (_, promptly runs (works j (leaves there (halts t runs past))) refl, past, ground arith, refl)

  free :
      (t : Threads) (i j : ℕ) (at_j : WorkerAt)
      → Prompt s t
      → t.handler_at ≡ joining
      → t.workers i ≡ locking
      → t.workers j ≡ at_j
      → has_lock at_j ≡ true
      → Frees s i locking
  free t i j testing runs past at there has =
      leave _ i j (promptly runs (works j (goes_in there (over t runs past))) refl) past
        (ground arith) (moved_at t.workers j inside)
  free t i j inside runs past at there has = leave t i j runs past at there
  free t i j to_wait runs past at there has =
      let h = Runs-kept s t w (Prompt-Runs runs) j in ground arith
  free t i j looping runs past at there has = ground arith
  free t i j waiting runs past at there has = ground arith
  free t i j locking runs past at there has = ground arith
  free t i j serving runs past at there has = ground arith
  free t i j ended runs past at there has = ground arith

  end_locking :
      (t : Threads) (i : ℕ)
      → Prompt s t
      → t.handler_at ≡ joining
      → t.workers i ≡ locking
      → CanEnd s i
  end_locking t i runs past at =
      let (u, run, still, here, none_has) = go t.lock refl in
      end_testing _ i (promptly run (works i (gets_lock here none_has)) refl) still
        (moved_at u.workers i testing)
    where
      go : (l : Option Who) → t.lock ≡ l → Frees s i locking
      go none e = (t, runs, past, at, e)
      go (some (worker j)) e =
          free t i j (t.workers j) runs past at refl
            (let h = Runs-kept s t w (Prompt-Runs runs) j in ground arith)
      go (some handler) e = let h = Runs-kept s t w (Prompt-Runs runs) i in ground arith

  end_from :
      (t : Threads) (i : ℕ) (at_i : WorkerAt)
      → Prompt s t
      → t.handler_at ≡ joining
      → t.workers i ≡ at_i
      → CanEnd s i
  end_from t i looping runs past at = end_looping t i runs past at
  end_from t i locking runs past at = end_locking t i runs past at
  end_from t i testing runs past at = end_testing t i runs past at
  end_from t i to_wait runs past at = let h = Runs-kept s t w (Prompt-Runs runs) i in ground arith
  end_from t i waiting runs past at = let h = Runs-kept s t w (Prompt-Runs runs) i in ground arith
  end_from t i inside runs past at = end_inside t i runs past at
  end_from t i serving runs past at =
      end_looping _ i (promptly runs (works i (served at)) refl) past (moved_at t.workers i looping)
  end_from t i ended runs past at = (t, runs, past, at)

-- From every state that the threads reach in which the signal handler has come to the joins of the
-- workers, and for each worker, a run goes on in which no wait ends without a signal, and after
-- which that worker has ended, with the handler still at the joins.
pub Runs-CanEnd :
    (nwork : ℕ) (t : Threads) (i : ℕ) → Runs (started nwork) t → t.handler_at ≡ joining → CanEnd t i
Runs-CanEnd nwork t i runs past =
    end_from t (Runs-InOrder nwork t runs) t i (t.workers i) from_here past refl
