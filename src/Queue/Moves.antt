-- ===== src/Queue/Moves.antt =====
-- `Queue_enqueue` and `Queue_dequeue` on the cells of a queue.
use file_storage_server.Prelude.{
  ℕ, suc, ◌+◌, ◌<◌, ◌≡◌, ◌≢◌, refl, sym, ◌∙◌, ap, List, [], ◌∷◌, ◌++◌, Option, none, some, arith,
  length, update, update_self, update_ne, ◌==◌, true, false, length-append,
}
use file_storage_server.Run.{ok}
use file_storage_server.Queue.{
  Node, Queue, node_create, node_free, list_insert_tail, list_delete_head, queue_enqueue,
  queue_dequeue, get_node, queue_length, is_positive, to_int, list_get_node_by_index, size_up,
  size_down,
}
use file_storage_server.Queue.Row.{
  Cell, Has, IsRow-below, last_of, row-tail, IsRow-append, row-last,
}

counts : (n : ℕ) → 0 < n → n < 2147483648 → is_positive (to_int n) ≡ true
counts n some_there small = ground arith

module _ {A : Type 0} where
  -- the queue behind `Queue_enqueue`: the first element, and one behind a tail at `a`
  abbrev first : Queue A → A → Option ℕ → Queue A
  unfolding node_create
  first q element prev = record (node_create q element none prev) {
    head = some q.fresh;
    tail = some q.fresh;
    length = size_up q.length;
  }

  abbrev behind : Queue A → A → ℕ → A → Option ℕ → Option ℕ → Queue A
  behind q element a y p prev = record q {
    store =
        update
          (update q.store q.fresh (some (record { element = element; next = none; prev = prev }))) a
          (some (record { element = y; next = some q.fresh; prev = p }));
    fresh = q.fresh + 1;
    tail = some q.fresh;
    length = size_up q.length;
  }

  -- Behind `Queue_enqueue` there is one cell more, at the end.
  pub queue_enqueue-Has :
      (q : Queue A) (cells : List (Cell A)) (element : A)
      → Has q cells
      → length cells < 9223372036854775808
      → (q' : Queue A) × (queue_enqueue q element ≡ ok q')
        × Has q' (cells ++ (q.fresh, element) ∷ [])
  unfolding list_insert_tail node_create
  queue_enqueue-Has q [] element has small =
      let (h, (t, b)) = has.row in
      let size : size_up q.length ≡ 1 = let n = has.count in omega (arith, n) in
      (
        first q element none,
        rw t (ap (λ p. ok (first q element p)) t),
        record {
          row = (
            refl,
            (omega arith, (none, (update_self q.store q.fresh _, (refl, (refl, omega arith))))),
          );
          count = size;
        },
      )
  queue_enqueue-Has q ((a, x) ∷ cells) element has small =
      let (h, (b, (n, (at, row)))) = has.row in
      let l = last_of a cells in
      let (t, lo, hi) = row-tail q.store q.fresh a cells n q.tail row in
      let (y, p, there) = row-last q.store q.fresh 0 a none x cells q.head q.tail has.row in
      let far : l ≢ q.fresh = λ e. omega (arith, e, hi) in
      let node : Node A = record { element = element; next = none; prev = some l } in
      let made = update q.store q.fresh (some node) in
      let tail : Node A = record { element = y; next = some q.fresh; prev = p } in
      let kept = update_ne q.store q.fresh l (some (record node { prev = q.tail })) far ∙ there in
      let set_next : Option (Node A) → Option (Node A) =
        λ v. elim v [ none ↦ none | some w ↦ some (record w { next = some q.fresh }) ] in
      (
        behind q element l y p (some l),
        rw (t, kept) (ap (λ m. ok (behind q element l y p m)) t),
        record {
          row =
              IsRow-append q.store (behind q element l y p (some l)).store q.fresh 0 a none x cells
                element q.head q.tail n has.row
                (λ i e.
                  update_ne made l i (some tail) (λ s. omega (arith, s, e))
                  ∙ update_ne q.store q.fresh i (some node) (λ s. omega (arith, s, e, hi)))
                (λ z u m e. update_self made l (some tail) ∙ ap set_next (sym there ∙ e))
                (update_ne made l q.fresh (some tail) (λ s. far (sym s))
                  ∙ update_self q.store q.fresh (some node));
          count =
              let c = has.count in
              let s = length-append ((a, x) ∷ cells) ((q.fresh, element) ∷ []) in
              omega (arith, c, s, small);
        },
      )

  -- the queue behind `Queue_dequeue`: nothing, and another head
  abbrev emptied : Queue A → ℕ → Queue A
  emptied q a = record q {
    head = none;
    tail = none;
    length = size_down q.length;
    store = update q.store a none;
  }

  abbrev next_up : Queue A → ℕ → ℕ → Node A → Queue A
  next_up q a h m = record q {
    head = some h;
    length = size_down q.length;
    store = update (update q.store h (some (record m { prev = none }))) a none;
  }

  pub queue_dequeue-Has :
      (q : Queue A) (a : ℕ) (x : A) (cells : List (Cell A))
      → Has q ((a, x) ∷ cells)
      → length ((a, x) ∷ cells) < 2147483648
      → (q' : Queue A) × (queue_dequeue q ≡ ok (some (x, q'))) × Has q' cells
  unfolding queue_dequeue list_delete_head node_free list_get_node_by_index get_node
  queue_dequeue-Has q a x [] has small =
      let (h, (b, (n, (at, (e, (t, u)))))) = has.row in
      let c = has.count in
      let one : (q.length == 1) ≡ true = ground (arith, c) in
      let positive : is_positive (queue_length q) ≡ true =
        counts q.length (omega (arith, c)) (omega (arith, c, small)) in
      (
        emptied q a,
        ground (arith, positive, h, at, one, e),
        record { row = (refl, (refl, omega arith)); count = omega (arith, c) },
      )
  queue_dequeue-Has q a x (d ∷ ds) has small =
      let (h, (b, (n, (at, (e, (lo, (m, (at', row)))))))) = has.row in
      let c = has.count in
      let two : (q.length == 1) ≡ false = ground (arith, c) in
      let positive : is_positive (queue_length q) ≡ true =
        counts q.length (omega (arith, c)) (omega (arith, c, small)) in
      let second : Node A = record { element = d.1; next = m; prev = some a } in
      let first : Node A = record { element = d.1; next = m; prev = none } in
      let far : d.0 ≢ a = λ s. omega (arith, s, lo) in
      (
        next_up q a d.0 second,
        ground (arith, positive, h, at, two, e, at'),
        record {
          row = (
            refl,
            (
              omega arith,
              (
                m,
                (
                  update_ne (update q.store d.0 (some first)) a d.0 none far
                      ∙ update_self q.store d.0 (some first),
                  IsRow-below (update q.store d.0 (some first)) q.fresh (suc d.0) (some d.0) ds m
                      q.tail a none (omega (arith, lo))
                      (IsRow-below q.store q.fresh (suc d.0) (some d.0) ds m q.tail d.0 (some first)
                        (omega arith) row),
                ),
              ),
            ),
          );
          count = omega (arith, c, small);
        },
      )
