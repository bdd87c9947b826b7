-- ===== src/Queue.antt =====
-- source/queue.c and header/queue.h: a queue over a doubly linked list with a head and a tail. A pointer
-- is an address or NULL (`none`); the nodes live in a store of their own, `malloc` does not fail and
-- hands out addresses that were not used before, and a freed address holds nothing. An `assert` that
-- fails stops the program: `none`. `size_t` has 64 bits and `int` 32.
pub mod Row
pub mod Moves
pub mod Fifo
pub mod Freed
use file_storage_server.Prelude.{
  ℕ, zero, suc, ◌+◌, ◌-◌, ◌%◌, Bool, true, false, Option, none, some, ◌==◌, if◌then◌else◌, update,
  ltb, ℤ, pos, negsuc,
}
use file_storage_server.Run.{Run, ok, fault, spin, ◌>>=◌, deref}

-- `struct Node`
pub record Node (A : Type 0) : Type 0 where
  pub element : A
  pub next : Option ℕ
  pub prev : Option ℕ

-- `struct ListEntity`, with the store and the next address that `malloc` gives
pub record Queue (A : Type 0) : Type 0 where
  pub head : Option ℕ
  pub tail : Option ℕ
  pub length : ℕ
  pub store : ℕ → Option (Node A)
  pub fresh : ℕ

-- `++` and `--` on `size_t`
abbrev pub size_up : ℕ → ℕ
size_up n = (n + 1) % 18446744073709551616

abbrev pub size_down : ℕ → ℕ
size_down n = (n + 18446744073709551615) % 18446744073709551616

-- a `size_t` as an `int`
abbrev pub to_int : ℕ → ℤ
to_int n = let m = n % 4294967296 in if ltb m 2147483648 then pos m else negsuc (4294967295 - m)

-- `> 0`, `== 0`, and `==` on pointers
abbrev pub is_positive : ℤ → Bool
is_positive (pos n) = ltb 0 n
is_positive (negsuc n) = false

abbrev pub is_zero : ℤ → Bool
is_zero (pos n) = n == 0
is_zero (negsuc n) = false

abbrev pub same_pointer : Option ℕ → Option ℕ → Bool
same_pointer none none = true
same_pointer (some a) (some b) = a == b
same_pointer _ _ = false

module _ {A : Type 0} where
  -- reading and writing `*p`
  abbrev pub load : Queue A → Option ℕ → Run (Node A)
  load l none = fault
  load l (some a) = deref (l.store a)

  abbrev pub put : Queue A → Option ℕ → Node A → Queue A
  put l none n = l
  put l (some a) n = record l { store = update l.store a (some n) }

  -- `Node_create`: the list with the new node in its store, at the address `fresh` of before
  unfoldable pub node_create : Queue A → A → Option ℕ → Option ℕ → Queue A
  node_create l element next prev = record l {
    store = update l.store l.fresh (some (record { element = element; next = next; prev = prev }));
    fresh = l.fresh + 1;
  }

  -- `Node_free`
  unfoldable pub node_free : Queue A → ℕ → Queue A
  node_free l a = record l { store = update l.store a none }

  -- `List_create`
  unfoldable pub list_create : Queue A
  list_create = record { head = none; tail = none; length = 0; store = λ a. none; fresh = 0 }

  -- `List_insertTail`
  unfoldable pub list_insert_tail : Queue A → A → Run (Queue A)
  unfolding node_create
  list_insert_tail l element =
      let new_node = some l.fresh in
      let made = node_create l element none l.tail in
      elim l.tail [
        | none ↦ ok (record made { head = new_node })
        | some t ↦ load made (some t) >>= λ n. ok (put made (some t) (record n { next = new_node }))
      ]
      >>= λ linked. ok (record linked { tail = new_node; length = size_up linked.length })

  -- `List_length`
  abbrev pub list_length : Queue A → ℕ
  list_length l = l.length

  -- `List_deleteHead`
  unfoldable pub list_delete_head : Queue A → Run (Queue A)
  unfolding node_free
  list_delete_head l = elim l.head [
    | none ↦ ok l
    | some node_to_remove ↦
        let l₁ = if list_length l == 1 then record l { tail = none } else l in
        load l₁ (some node_to_remove) >>= λ n.
        (let l₂ = record l₁ { head = n.next } in
          elim n.next [
            | none ↦ ok l₂
            | some h ↦ load l₂ (some h) >>= λ m. ok (put l₂ (some h) (record m { prev = none }))
          ])
        >>= λ l₃.
            (let l₄ = node_free l₃ node_to_remove in
              ok (record l₄ { length = size_down l₄.length }))
  ]

  -- `List__getNodeByIndex`, with the nodes that are left until `counter` reaches `index`
  unfoldable pub get_node : Queue A → Option ℕ → ℕ → Run (Option ℕ)
  get_node l none left = ok none
  get_node l (some a) zero = ok (some a)
  get_node l (some a) (suc left) = load l (some a) >>= λ n. get_node l n.next left

  -- `List_getNodeByIndex`
  unfoldable pub list_get_node_by_index : Queue A → ℤ → Run (Option ℕ)
  unfolding get_node
  list_get_node_by_index l (negsuc n) = ok none
  list_get_node_by_index l (pos index) = get_node l l.head index

  -- `List__free`, on fuel: the nodes behind this one are freed first
  unfoldable pub free_nodes : ℕ → Queue A → Option ℕ → Run (Queue A)
  unfolding node_free
  free_nodes zero l p = elim p [ none ↦ ok l | some a ↦ spin ]
  free_nodes (suc fuel) l p = elim p [
    | none ↦ ok l
    | some a ↦ load l (some a) >>= λ n. free_nodes fuel l n.next >>= λ l'. ok (node_free l' a)
  ]

  -- the walk of `List_print`, on fuel, which prints nothing
  unfoldable pub print_from : ℕ → Queue A → Option ℕ → Run (Unit {0})
  print_from zero l p = spin
  print_from (suc fuel) l p =
      if same_pointer p l.tail then ok tt else (load l p >>= λ n. print_from fuel l n.next)

  -- `Queue_create`, `Queue_enqueue` and `Queue_length`
  abbrev pub queue_create : Queue A
  queue_create = list_create

  abbrev pub queue_enqueue : Queue A → A → Run (Queue A)
  queue_enqueue q element = list_insert_tail q element

  abbrev pub queue_length : Queue A → ℤ
  queue_length q = to_int (list_length q)

  -- `Queue_dequeue`
  unfoldable pub queue_dequeue : Queue A → Run (Option (A × Queue A))
  unfolding list_get_node_by_index list_delete_head
  queue_dequeue q =
      if is_positive (queue_length q)
      then (list_get_node_by_index q (pos 0) >>= λ node.
          load q node >>= λ n. list_delete_head q >>= λ q'. ok (some (n.element, q')))
      else ok none

  -- `Queue_isempty`
  unfoldable pub queue_isempty : Queue A → Bool
  queue_isempty q = is_zero (queue_length q)

  -- `Queue_delete`: what is left in the store
  unfoldable pub queue_delete : ℕ → Queue A → Run (Queue A)
  unfolding free_nodes
  queue_delete fuel q = free_nodes fuel q q.head
