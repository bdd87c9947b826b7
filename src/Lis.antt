-- ===== src/Lis.antt =====
-- source/list.c and header/list.h: the doubly linked list that holds the table's buckets, the FIFO
-- queue and the request queue. A pointer is an address or NULL (`none`).
-- The nodes of one list live in a store of their own: no node is ever in two lists, so this is the
-- heap seen from one list. `malloc` hands out addresses that were not used before, and a freed
-- address holds nothing: an access through it is a fault, as undefined behaviour.
pub mod Seg
pub mod Insert
pub mod Search
pub mod Remove
pub mod Delete
pub mod Unlink
use file_storage_server.Prelude.{
  ℕ, zero, suc, ◌+◌, ◌-◌, Bool, true, false, Option, none, some, ◌==◌, if◌then◌else◌, update,
}
use file_storage_server.Run.{Run, ok, fault, spin, ◌>>=◌, deref}
use file_storage_server.Text.{Text, str_eq}

-- `struct nod_e`
pub record Node {ℓ} (A : Type ℓ) : Type ℓ where
  pub key : Text
  pub cont : A
  pub next : Option ℕ
  pub prev : Option ℕ

-- `struct list`, with the store of its nodes and the next address that `malloc` gives
pub record Lis {ℓ} (A : Type ℓ) : Type ℓ where
  pub length : ℕ
  pub header : Option ℕ
  pub tailer : Option ℕ
  pub store : ℕ → Option (Node A)
  pub fresh : ℕ

module _ {ℓ} {A : Type ℓ} where
  unfoldable pub create : Lis A
  create = record { length = 0; header = none; tailer = none; store = λ _. none; fresh = 0 }

  -- reading `*p`
  unfoldable pub load : Lis A → Option ℕ → Run (Node A)
  load l none = fault
  load l (some a) = deref (l.store a)

  -- writing `*p`
  unfoldable pub store_node : Lis A → Option ℕ → Node A → Lis A
  store_node l none n = l
  store_node l (some a) n = record l { store = update l.store a (some n) }

  unfoldable pub set_next : Lis A → Option ℕ → Option ℕ → Run (Lis A)
  unfolding load store_node
  set_next l p q = load l p >>= λ n. ok (store_node l p (record n { next = q }))

  unfoldable pub set_prev : Lis A → Option ℕ → Option ℕ → Run (Lis A)
  unfolding load store_node
  set_prev l p q = load l p >>= λ n. ok (store_node l p (record n { prev = q }))

  unfoldable pub set_cont : Lis A → Option ℕ → A → Run (Lis A)
  unfolding load store_node
  set_cont l p v = load l p >>= λ n. ok (store_node l p (record n { cont = v }))

  -- `free(n)`
  unfoldable pub free_node : Lis A → ℕ → Lis A
  free_node l a = record l { store = update l.store a none }

  unfoldable pub createnode : Lis A → A → Text → Option ℕ → Option ℕ → Lis A
  createnode l value key next prev = record l {
    store =
        update l.store l.fresh
          (some (record { key = key; cont = value; next = next; prev = prev }));
    fresh = l.fresh + 1;
  }

  unfoldable pub insert_h : Lis A → A → Text → Run (Lis A)
  unfolding createnode set_prev
  insert_h l cont k =
      let new = some l.fresh in
      let made = createnode l cont k l.header none in
      (if made.length == 0
        then ok (record made { tailer = new })
        else set_prev made made.header new)
      >>= λ linked. ok (record linked { header = new; length = linked.length + 1 })

  unfoldable pub insert_t : Lis A → A → Text → Run (Lis A)
  unfolding createnode set_next
  insert_t l cont k =
      let new = some l.fresh in
      let made = createnode l cont k none l.tailer in
      elim made.tailer [
        | none ↦ ok (record made { header = new })
        | some t ↦ set_next made (some t) new
      ]
      >>= λ linked. ok (record linked { tailer = new; length = linked.length + 1 })

  -- `while (head != NULL && strcmp(head->key, k) != 0) head = head->next;`
  unfoldable pub scan : ℕ → Lis A → Text → Option ℕ → Run (Option ℕ)
  unfolding load
  scan zero l k p = spin
  scan (suc f) l k none = ok none
  scan (suc f) l k (some a) = load l (some a) >>= λ n. elim (str_eq n.key k) [
    | true ↦ ok (some a)
    | false ↦ scan f l k n.next
  ]

  unfoldable pub search : Lis A → Text → Run (Option ℕ)
  unfolding load scan
  search l k = elim l.header [
    | none ↦ ok none
    | some h ↦ load l (some h) >>= λ first.
        if str_eq first.key k
        then ok (some h)
        else (load l l.tailer >>= λ last.
            if str_eq last.key k then ok l.tailer else scan (l.length + 1) l k (some h))
  ]

  -- the node that `search` and `UpdateNode` find is the same: head, then tail, then the scan
  unfoldable pub update_node : Lis A → Text → A → Run (Bool × Lis A)
  unfolding search set_cont
  update_node l k cont = search l k >>= λ found. elim found [
    | none ↦ ok (false, l)
    | some a ↦ set_cont l (some a) cont >>= λ done. ok (true, done)
  ]

  -- the body of the loop of `delete` at the node `n` that is found, at address `a`
  unfoldable pub unlink : Lis A → ℕ → Node A → Run (Lis A)
  unfolding load set_next set_prev free_node
  unlink l a n = do
    l₁ ← set_next l n.prev n.next
    l₂ ← elim n.next [ none ↦ ok l₁ | some b ↦ set_prev l₁ (some b) n.prev ]
    let l₃ = free_node l₂ a
    ok (record l₃ { length = l₃.length - 1 })

  -- the loop of `delete`
  unfoldable pub delete_from : ℕ → Lis A → Text → Option ℕ → Run (Bool × Lis A)
  unfolding load
  delete_from zero l k p = spin
  delete_from (suc f) l k none = ok (false, l)
  delete_from (suc f) l k (some a) = load l (some a) >>= λ n. elim (str_eq n.key k) [
    | true ↦ unlink l a n >>= λ r. ok (true, r)
    | false ↦ delete_from f l k n.next
  ]

  -- `true` stands for a result other than NULL: the node that it points to is freed
  unfoldable pub delete : Lis A → Text → Run (Bool × Lis A)
  unfolding load set_prev free_node delete_from unlink
  delete l k = load l l.header >>= λ first.
      if str_eq first.key k
      then (do
        let l₁ = record l { header = first.next }
        l₂ ← elim first.next [ none ↦ ok l₁ | some b ↦ set_prev l₁ (some b) none ]
        let l₃ = record l₂ { length = l₂.length - 1 }
        ok (true, elim l.header [ none ↦ l₃ | some h ↦ free_node l₃ h ]))
      else delete_from (l.length + 1) l k l.header

  -- the node that is returned is unlinked, not freed
  unfoldable pub take_head : Lis A → Run (Option ℕ × Lis A)
  unfolding load set_prev
  take_head l = do
    first ← load l l.header
    let l₁ = record l { header = first.next }
    l₂ ← elim first.next [ none ↦ ok l₁ | some b ↦ set_prev l₁ (some b) none ]
    let l₃ = record l₂ { length = l₂.length - 1 }
    ok (l.header, if l₃.length == 0 then record l₃ { header = none; tailer = none } else l₃)

  unfoldable pub is_empty : Lis A → Bool
  is_empty l = l.length == 0
