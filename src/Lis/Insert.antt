-- ===== src/Lis/Insert.antt =====
-- `create`, `insertH` and `insertT` of source/list.c on a list whose cells are known.
use file_storage_server.Prelude.{
  ℕ, ◌+◌, ◌≡◌, refl, sym, ◌≢◌, inl, inr, List, [], ◌∷◌, ◌++◌, Option, none, some, arith,
  length-append, update, update_self, update_ne, ◌∙◌, append_assoc, subst,
}
use file_storage_server.Run.{ok}
use file_storage_server.Text.{Text}
use file_storage_server.Lis.{Node, Lis, create, insert_h, insert_t}
use file_storage_server.Lis.Seg.{
  Cell, first_or, last_or, Apart, Distinct, node_of, Seg, Holds, Settled, Apart-fresh, Below-suc,
  Below-append, Apart-split, Distinct-snoc, Distinct-remove, Seg-frame, Seg-split, Seg-join,
  Snoc-cases, last_or-append,
}

module _ {ℓ} {A : Type ℓ} where
  pub create-Holds : Holds {A = A} create []
  unfolding create
  create-Holds = record {
    shape = record { count = refl; head = refl; linked = tt; distinct = tt; below = tt };
    last = refl;
  }

  -- the cell that the next insertion makes
  abbrev pub new_cell : Lis A → A → Text → Cell A
  new_cell l v k = record { addr = l.fresh; key = k; cont = v }

  -- the list that `insertH` leaves
  abbrev pushed : Lis A → A → Text → Option ℕ → (ℕ → Option (Node A)) → Lis A
  pushed l v k tail store = record {
    length = l.length + 1;
    header = some l.fresh;
    tailer = tail;
    store = store;
    fresh = l.fresh + 1;
  }

  -- `insertH` on a list that is in order, its tail pointer right or the list empty, returns a list
  -- with a right tail pointer and one cell more, a new one with the given key and value before the
  -- others.
  pub insert_h-Holds :
      (l : Lis A) (cells : List (Cell A)) (v : A) (k : Text)
      → Settled l cells
      → (r : Lis A) × (insert_h l v k ≡ ok r) × Holds r (new_cell l v k ∷ cells)
  unfolding insert_h
  insert_h-Holds l [] v k w =
      let n : Node A = node_of none (new_cell l v k) none in
      (
        pushed l v k (some l.fresh) (update l.store l.fresh (some n)),
        ground arith,
        record {
          shape = record {
            count = ground arith;
            head = refl;
            linked = (update_self l.store l.fresh (some n), tt);
            distinct = (tt, tt);
            below = (omega arith, tt);
          };
          last = refl;
        },
      )
  insert_h-Holds l (c ∷ cs) v k w =
      let new : Cell A = new_cell l v k in
      let n : Node A = node_of none new (some c.addr) in
      let s = update l.store l.fresh (some n) in
      let m : Node A = node_of (some l.fresh) c (first_or none cs) in
      let far : c.addr ≢ l.fresh = omega (arith, w.below.0) in
      (
        pushed l v k l.tailer (update s c.addr (some m)),
        ground (arith, w.linked.0, w.count, w.head),
        record {
          shape = record {
            count = ground (arith, w.count);
            head = refl;
            linked = (
              rw (update_ne s c.addr l.fresh (some m) (λ e. far (sym e)))
                  (update_self l.store l.fresh (some n)),
              (
                update_self s c.addr (some m),
                Seg-frame s c.addr (some m) (some c.addr) cs none w.distinct.0 (
                    Seg-frame l.store l.fresh (some n) (some c.addr) cs none
                      (Apart-fresh l.fresh cs w.below.1) w.linked.1),
              ),
            );
            distinct = (Apart-fresh l.fresh (c ∷ cs) w.below, w.distinct);
            below = (omega arith, Below-suc l.fresh (c ∷ cs) w.below);
          };
          last = ground (arith, w.last);
        },
      )

  -- The links after a cell is hung behind the last one.
  Seg-hang :
      (s : ℕ → Option (Node A)) (ys : List (Cell A)) (c new : Cell A)
      → Distinct (ys ++ c ∷ [])
      → Apart new.addr (ys ++ c ∷ [])
      → Seg s none (ys ++ c ∷ []) none
      → Seg
          (update
            (update s new.addr (some (node_of (some c.addr) new none)))
            c.addr
            (some (node_of (last_or none ys) c (some new.addr))))
          none
          (ys ++ c ∷ new ∷ [])
          none
  Seg-hang s ys c new d f g =
      let parts = Seg-split s none ys (c ∷ []) none g in
      let apart = Distinct-remove ys [] c d in
      let far = Apart-split new.addr ys (c ∷ []) f in
      Seg-join _ none ys (c ∷ new ∷ []) none
        (Seg-frame _ c.addr _ none ys _ (Apart-split c.addr ys [] apart.0).0
          (Seg-frame s new.addr _ none ys _ far.0 parts.0))
        (
          update_self (update s new.addr (some (node_of (some c.addr) new none))) c.addr
              (some (node_of (last_or none ys) c (some new.addr))),
          (
            update_ne (update s new.addr (some (node_of (some c.addr) new none))) c.addr new.addr
                  (some (node_of (last_or none ys) c (some new.addr))) (λ e. far.1.0 (sym e))
                ∙ update_self s new.addr (some (node_of (some c.addr) new none)),
            tt,
          ),
        )

  -- the node that the tail pointer reaches
  pub load_last :
      (s : ℕ → Option (Node A)) (ys : List (Cell A)) (c : Cell A)
      → Seg s none (ys ++ c ∷ []) none
      → s c.addr ≡ some (node_of (last_or none ys) c none)
  load_last s ys c g = (Seg-split s none ys (c ∷ []) none g).1.0

  first_or-hang :
      (ys : List (Cell A)) (c : Cell A) (zs : List (Cell A))
      → first_or none (ys ++ c ∷ []) ≡ first_or none ((ys ++ c ∷ []) ++ zs)
  first_or-hang [] c zs = refl
  first_or-hang (y ∷ ys) c zs = refl

  insert_t-snoc :
      (l : Lis A) (ys : List (Cell A)) (c : Cell A) (v : A) (k : Text)
      → Holds l (ys ++ c ∷ [])
      → (r : Lis A) × (insert_t l v k ≡ ok r) × Holds r ((ys ++ c ∷ []) ++ new_cell l v k ∷ [])
  unfolding insert_t
  insert_t-snoc l ys c v k h =
      let new : Cell A = new_cell l v k in
      let n : Node A = node_of (some c.addr) new none in
      let s = update l.store l.fresh (some n) in
      let m : Node A = node_of (last_or none ys) c (some l.fresh) in
      let tail : l.tailer ≡ some c.addr = h.last ∙ last_or-append none ys (c ∷ []) in
      let fresh = Apart-fresh l.fresh (ys ++ c ∷ []) h.below in
      let far : c.addr ≢ l.fresh = (Apart-split l.fresh ys (c ∷ []) fresh).1.0 in
      let old = load_last l.store ys c h.linked in
      (
        record {
          length = l.length + 1;
          header = l.header;
          tailer = some l.fresh;
          store = update s c.addr (some m);
          fresh = l.fresh + 1;
        },
        ground (arith, tail, old, far),
        record {
          shape = record {
            count = omega (arith, h.count, length-append (ys ++ c ∷ []) (new ∷ []));
            head = h.head ∙ first_or-hang ys c (new ∷ []);
            linked = rw (append_assoc ys) (Seg-hang l.store ys c new h.distinct fresh h.linked);
            distinct = Distinct-snoc (ys ++ c ∷ []) new fresh h.distinct;
            below =
                Below-append (l.fresh + 1) (ys ++ c ∷ []) (new ∷ [])
                  (Below-suc l.fresh (ys ++ c ∷ []) h.below) (omega arith, tt);
          };
          last = sym (last_or-append none (ys ++ c ∷ []) (new ∷ []));
        },
      )

  insert_t-nil :
      (l : Lis A) (v : A) (k : Text)
      → Holds l []
      → (r : Lis A) × (insert_t l v k ≡ ok r) × Holds r (new_cell l v k ∷ [])
  unfolding insert_t
  insert_t-nil l v k h =
      let n : Node A = node_of none (new_cell l v k) none in
      (
        pushed l v k (some l.fresh) (update l.store l.fresh (some n)),
        ground (arith, h.last),
        record {
          shape = record {
            count = ground (arith, h.count);
            head = refl;
            linked = (update_self l.store l.fresh (some n), tt);
            distinct = (tt, tt);
            below = (omega arith, tt);
          };
          last = refl;
        },
      )

  -- `insertT` on a list with a right tail pointer returns such a list with one cell more, a new one
  -- with the given key and value behind the others.
  pub insert_t-Holds :
      (l : Lis A) (cells : List (Cell A)) (v : A) (k : Text)
      → Holds l cells
      → (r : Lis A) × (insert_t l v k ≡ ok r) × Holds r (cells ++ new_cell l v k ∷ [])
  insert_t-Holds l cells v k h = elim (Snoc-cases cells) [
    | inl e ↦ rw e (insert_t-nil l v k (subst (Holds l) e h))
    | inr (ys, c, e) ↦ rw e (insert_t-snoc l ys c v k (subst (Holds l) e h))
  ]
