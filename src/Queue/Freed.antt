-- ===== src/Queue/Freed.antt =====
-- `Queue_delete` and `List_print`, which go through all the nodes of a queue.
use file_storage_server.Prelude.{
  ℕ, zero, suc, ◌≤◌, ◌<◌, ◌≡◌, refl, List, [], ◌∷◌, Bool, true, false, Option, none, some, arith,
  length, ◌==◌, if◌then◌else◌, Bool-cases, inl, inr,
}
use file_storage_server.Run.{ok}
use file_storage_server.Queue.{Queue, node_free, free_nodes, queue_delete, print_from, same_pointer}
use file_storage_server.Queue.Row.{Cell, IsRow, Has}

module _ {A : Type 0} where
  -- whether one of the cells is at an address
  unfoldable pub is_at : ℕ → List (Cell A) → Bool
  is_at a [] = false
  is_at a (c ∷ cs) = if a == c.0 then true else is_at a cs

  free_nodes-frees :
      (fuel : ℕ) (q : Queue A) (low : ℕ) (prev : Option ℕ) (cells : List (Cell A))
      (head tail : Option ℕ)
      → length cells ≤ fuel
      → IsRow q.store q.fresh low prev cells head tail
      → (q' : Queue A) × (free_nodes fuel q head ≡ ok q')
        × ((a : ℕ) → q'.store a ≡ (if is_at a cells then none else q.store a))
  unfolding free_nodes is_at node_free
  free_nodes-frees zero q low prev [] head tail enough (h, (t, b)) =
      (q, ground (arith, h), λ a. refl)
  free_nodes-frees (suc fuel) q low prev [] head tail enough (h, (t, b)) =
      (q, ground (arith, h), λ a. refl)
  free_nodes-frees zero q low prev (c ∷ cs) head tail enough row = absurd (omega (arith, enough))
  free_nodes-frees (suc fuel) q low prev (c ∷ cs) head tail enough (h, (b, (n, (at, row)))) =
      let (q', run, frees) =
        free_nodes-frees fuel q (suc c.0) (some c.0) cs n tail (omega (arith, enough)) row in
      (
        node_free q' c.0,
        rw (h, at, run) refl,
        λ a. elim (Bool-cases (a == c.0)) [ inl e ↦ rw e refl | inr e ↦ let f = frees a in rw e f ],
      )

  -- `Queue_delete` of a queue of known cells, with fuel for each: it ends, without a read of a
  -- freed node, and the nodes of these cells are freed and no others.
  pub queue_delete-frees :
      (fuel : ℕ) (q : Queue A) (cells : List (Cell A))
      → Has q cells
      → length cells ≤ fuel
      → (q' : Queue A) × (queue_delete fuel q ≡ ok q')
        × ((a : ℕ) → q'.store a ≡ (if is_at a cells then none else q.store a))
  unfolding queue_delete
  queue_delete-frees fuel q cells has enough =
      free_nodes-frees fuel q 0 none cells q.head q.tail enough has.row

  print_from-ends :
      (fuel : ℕ) (q : Queue A) (low : ℕ) (prev : Option ℕ) (c : Cell A) (cells : List (Cell A))
      (head : Option ℕ)
      → length cells < fuel
      → IsRow q.store q.fresh low prev (c ∷ cells) head q.tail
      → print_from fuel q head ≡ ok tt
  unfolding print_from
  print_from-ends zero q low prev c cells head enough row = absurd (omega (arith, enough))
  print_from-ends (suc fuel) q low prev c [] head enough (h, (b, (n, (at, (e, (t, u)))))) =
      ground (arith, h, t)
  print_from-ends (suc fuel) q low prev c (d ∷ ds) head enough (h, (b, (n, (at, row)))) =
      let rest = print_from-ends fuel q (suc c.0) (some c.0) d ds n (omega (arith, enough)) row in
      elim (Bool-cases (same_pointer head q.tail)) [
        | inl e ↦ rw e refl
        | inr e ↦ rw e (rw (h, at, rest) refl)
      ]

  -- The walk of `List_print` ends.
  print_from-head :
      (q : Queue A) (cells : List (Cell A))
      → Has q cells
      → print_from (suc (length cells)) q q.head ≡ ok tt
  unfolding print_from
  print_from-head q [] has = let (h, (t, b)) = has.row in ground (arith, h, t)
  print_from-head q (c ∷ cells) has =
      print_from-ends (suc (suc (length cells))) q 0 none c cells q.head (omega arith) has.row
