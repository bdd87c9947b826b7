-- ===== src/Queue/Fifo.antt =====
-- The calls of a queue, one after the other, beside a list from which the oldest element is taken.
use file_storage_server.Prelude.{
  ℕ, suc, ◌+◌, ◌<◌, ◌≡◌, refl, ap, List, [], ◌∷◌, ◌++◌, Bool, true, false, none, some, arith,
  length, ℤ, pos, length-append,
}
use file_storage_server.Run.{Run, ok, ◌>>=◌}
use file_storage_server.Queue.{
  Queue, queue_create, list_create, queue_enqueue, queue_dequeue, queue_length, queue_isempty,
  to_int,
}
use file_storage_server.Queue.Row.{Cell, Has, elements}
use file_storage_server.Queue.Moves.{queue_enqueue-Has, queue_dequeue-Has}

-- a call, and what comes of it; an `assert` that fails is the last reply
pub data Op (A : Type 0) : Type 0 where
  enqueue : A → Op A
  dequeue size empty : Op A

pub data Reply (A : Type 0) : Type 0 where
  done stopped : Reply A
  element : A → Reply A
  number : ℤ → Reply A
  answer : Bool → Reply A

to_int_small : (n m : ℕ) → n ≡ m → m < 2147483648 → to_int n ≡ pos m
to_int_small n m e small = ground arith

module _ {A : Type 0} where
  abbrev is_nil : List A → Bool
  is_nil [] = true
  is_nil (x ∷ xs) = false

  -- the list
  unfoldable pub run_list : List A → List (Op A) → List (Reply A)
  run_list xs [] = []
  run_list xs (enqueue x ∷ ops) = done ∷ run_list (xs ++ x ∷ []) ops
  run_list [] (dequeue ∷ ops) = stopped ∷ []
  run_list (x ∷ xs) (dequeue ∷ ops) = element x ∷ run_list xs ops
  run_list xs (size ∷ ops) = number (pos (length xs)) ∷ run_list xs ops
  run_list xs (empty ∷ ops) = answer (is_nil xs) ∷ run_list xs ops

  -- the queue
  unfoldable pub run_queue : Queue A → List (Op A) → Run (List (Reply A))
  run_queue q [] = ok []
  run_queue q (enqueue x ∷ ops) =
      queue_enqueue q x >>= λ q'. run_queue q' ops >>= λ rest. ok (done ∷ rest)
  run_queue q (dequeue ∷ ops) = queue_dequeue q >>= λ u. elim u [
    | none ↦ ok (stopped ∷ [])
    | some r ↦ run_queue r.1 ops >>= λ rest. ok (element r.0 ∷ rest)
  ]
  run_queue q (size ∷ ops) = run_queue q ops >>= λ rest. ok (number (queue_length q) ∷ rest)
  run_queue q (empty ∷ ops) = run_queue q ops >>= λ rest. ok (answer (queue_isempty q) ∷ rest)

  length-elements : (cells : List (Cell A)) → length (elements cells) ≡ length cells
  length-elements [] = refl
  length-elements (c ∷ cs) = ap suc (length-elements cs)

  elements-append : (cs ds : List (Cell A)) → elements (cs ++ ds) ≡ elements cs ++ elements ds
  elements-append [] ds = refl
  elements-append (c ∷ cs) ds = ap (◌∷◌ c.1) (elements-append cs ds)

  tells_empty :
      (q : Queue A) (cells : List (Cell A))
      → Has q cells
      → length cells < 2147483648
      → queue_isempty q ≡ is_nil (elements cells)
  unfolding queue_isempty
  tells_empty q [] has small = let n = has.count in ground (arith, n)
  tells_empty q (c ∷ cells) has small = let n = has.count in ground (arith, n, small)

  stops : (q : Queue A) → Has q [] → queue_dequeue q ≡ ok none
  unfolding queue_dequeue
  stops q has = let n = has.count in ground (arith, n)

  runs_like :
      (ops : List (Op A)) (q : Queue A) (cells : List (Cell A))
      → Has q cells
      → length cells + length ops < 2147483648
      → run_queue q ops ≡ ok (run_list (elements cells) ops)
  unfolding run_queue run_list
  runs_like [] q cells has small = refl
  runs_like (enqueue x ∷ ops) q cells has small =
      let (q', run, has') = queue_enqueue-Has q cells x has (omega (arith, small)) in
      let grown = length-append cells ((q.fresh, x) ∷ []) in
      let rest = runs_like ops q' (cells ++ (q.fresh, x) ∷ []) has' (omega (arith, small, grown)) in
      rw (run, rest)
        (ap (λ xs. ok (done ∷ run_list xs ops)) (elements-append cells ((q.fresh, x) ∷ [])))
  runs_like (dequeue ∷ ops) q [] has small = let run = stops q has in rw run refl
  runs_like (dequeue ∷ ops) q (c ∷ cells) has small =
      let (q', run, has') = queue_dequeue-Has q c.0 c.1 cells has (omega (arith, small)) in
      let rest = runs_like ops q' cells has' (omega (arith, small)) in rw (run, rest) refl
  runs_like (size ∷ ops) q cells has small =
      let n = has.count in
      let rest = runs_like ops q cells has (omega (arith, small)) in
      let l = length-elements cells in
      let e : queue_length q ≡ pos (length (elements cells)) =
        to_int_small q.length (length (elements cells)) (omega (arith, n, l))
          (omega (arith, l, small)) in
      rw rest (ap (λ z. ok (number z ∷ run_list (elements cells) ops)) e)
  runs_like (empty ∷ ops) q cells has small =
      let rest = runs_like ops q cells has (omega (arith, small)) in
      rw rest (
        ap (λ b. ok (answer b ∷ run_list (elements cells) ops))
          (tells_empty q cells has (omega (arith, small))))

  -- Any calls of the pointer queue, fewer than 2 ^ 31, from `Queue_create` on give what a list
  -- gives from whose head the oldest element is taken: the same elements, lengths and tests, and a
  -- stop at a `Queue_dequeue` of nothing; no pointer is null or dangling.
  pub run_queue-run_list :
      (ops : List (Op A))
      → length ops < 2147483648
      → run_queue queue_create ops ≡ ok (run_list [] ops)
  unfolding list_create
  run_queue-run_list ops small =
      runs_like ops queue_create [] (record { row = (refl, (refl, omega arith)); count = refl })
        (omega (arith, small))
