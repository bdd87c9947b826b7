-- ===== src/Lis/Remove.antt =====
-- `takeHead` and `delete` of source/list.c on a list whose cells are known.
use file_storage_server.Prelude.{
  ℕ, ◌-◌, ◌≡◌, refl, sym, List, [], ◌∷◌, Option, none, some, arith, update, update_self, update_ne,
  ◌∙◌,
}
use file_storage_server.Run.{ok, fault}
use file_storage_server.Lis.{Node, Lis, take_head, free_node}
use file_storage_server.Lis.Seg.{Cell, first_or, Apart, Distinct, node_of, Seg, Holds, Seg-frame}

module _ {ℓ} {A : Type ℓ} where
  -- the second cell becomes the first
  pub Seg-behead :
      (s : ℕ → Option (Node A)) (c d : Cell A) (ds : List (Cell A))
      → Distinct (c ∷ d ∷ ds)
      → Seg s none (c ∷ d ∷ ds) none
      → Seg (update s d.addr (some (node_of none d (first_or none ds)))) none (d ∷ ds) none
  Seg-behead s c d ds dis g =
      (update_self s d.addr _, Seg-frame s d.addr _ (some d.addr) ds none dis.1.0 g.1.1)

  -- `takeHead` on an empty list reads through a null header.
  pub take_head-nil : (l : Lis A) → l.header ≡ none → take_head l ≡ fault
  unfolding take_head
  take_head-nil l h = ground (arith, h)

  -- `takeHead` on a list with a right tail pointer and at least one cell returns the pointer to the
  -- first cell, whose node is untouched, and leaves such a list of the other cells.
  pub take_head-Holds :
      (l : Lis A) (c : Cell A) (cs : List (Cell A))
      → Holds l (c ∷ cs)
      → (r : Lis A) × (take_head l ≡ ok (some c.addr, r))
        × (r.store c.addr ≡ some (node_of none c (first_or none cs)))
        × Holds r cs
  unfolding take_head
  take_head-Holds l c [] h = (
    record l { header = none; tailer = none; length = 0 },
    ground (arith, h.head, h.linked.0, h.count),
    h.linked.0,
    record {
      shape = record { count = refl; head = refl; linked = tt; distinct = tt; below = tt };
      last = refl;
    },
  )
  take_head-Holds l c (d ∷ ds) h =
      let m : Node A = node_of none d (first_or none ds) in
      (
        record l {
          header = some d.addr;
          length = l.length - 1;
          store = update l.store d.addr (some m);
        },
        ground (arith, h.head, h.linked.0, h.linked.1.0, h.count),
        update_ne l.store d.addr c.addr (some m) (λ e. h.distinct.0.0 (sym e)) ∙ h.linked.0,
        record {
          shape = record {
            count = omega (arith, h.count);
            head = refl;
            linked = Seg-behead l.store c d ds h.distinct h.linked;
            distinct = h.distinct.1;
            below = h.below.1;
          };
          last = h.last;
        },
      )

  -- Freeing a node that is no longer linked leaves the list as it is.
  pub free_node-Holds :
      (l : Lis A) (cs : List (Cell A)) (a : ℕ) → Apart a cs → Holds l cs → Holds (free_node l a) cs
  unfolding free_node
  free_node-Holds l cs a far h = record {
    shape = record {
      count = h.count;
      head = h.head;
      linked = Seg-frame l.store a none none cs none far h.linked;
      distinct = h.distinct;
      below = h.below;
    };
    last = h.last;
  }
