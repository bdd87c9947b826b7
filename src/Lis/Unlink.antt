-- ===== src/Lis/Unlink.antt =====
-- The step of `delete` of source/list.c that takes a cell out from between its neighbours.
use file_storage_server.Prelude.{
  ℕ, suc, ◌-◌, ◌≡◌, refl, sym, ◌≢◌, List, [], ◌∷◌, ◌++◌, Option, none, some, arith, length,
  length-append, update, update_self, ◌∙◌, subst, append_assoc, append-nil,
}
use file_storage_server.Run.{ok}
use file_storage_server.Lis.{Node, Lis, unlink}
use file_storage_server.Lis.Seg.{
  Cell, first_or, last_or, Apart, Distinct, Below, node_of, Seg, Linked, Seg-frame, Seg-split,
  Seg-join, Apart-split, Distinct-remove, last_or-append, Below-split, Below-append,
}

module _ {ℓ} {A : Type ℓ} where
  -- the last cell gets another pointer to what follows
  pub Seg-relink :
      (s : ℕ → Option (Node A)) (zs : List (Cell A)) (z : Cell A) (e e' : Option ℕ)
      → Distinct (zs ++ z ∷ [])
      → Seg s none (zs ++ z ∷ []) e
      → Seg (update s z.addr (some (node_of (last_or none zs) z e'))) none (zs ++ z ∷ []) e'
  Seg-relink s zs z e e' d g =
      let parts = Seg-split s none zs (z ∷ []) e g in
      let apart = Distinct-remove zs [] z d in
      Seg-join (update s z.addr (some (node_of (last_or none zs) z e'))) none zs (z ∷ []) e'
        (Seg-frame s z.addr _ none zs _ (Apart-split z.addr zs [] apart.0).0 parts.0)
        (update_self s z.addr (some (node_of (last_or none zs) z e')), tt)

  -- the first cell gets another pointer to what stands before
  Seg-reprev :
      (s : ℕ → Option (Node A)) (p p' : Option ℕ) (w : Cell A) (ws : List (Cell A))
      → Distinct (w ∷ ws)
      → Seg s p (w ∷ ws) none
      → Seg (update s w.addr (some (node_of p' w (first_or none ws)))) p' (w ∷ ws) none
  Seg-reprev s p p' w ws d g = (
    update_self s w.addr (some (node_of p' w (first_or none ws))),
    Seg-frame s w.addr _ (some w.addr) ws none d.0 g.1,
  )

  pub Distinct-split : (xs ys : List (Cell A)) → Distinct (xs ++ ys) → Distinct xs × Distinct ys
  Distinct-split [] ys d = (tt, d)
  Distinct-split (x ∷ xs) ys d =
      let r = Distinct-split xs ys d.1 in (((Apart-split x.addr xs ys d.0).0, r.0), r.1)

  -- Each of the first cells is apart from the later ones.
  Distinct-cross : (xs ys : List (Cell A)) (y : Cell A) → Distinct (xs ++ y ∷ ys) → Apart y.addr xs
  Distinct-cross xs ys y d = (Apart-split y.addr xs ys (Distinct-remove xs ys y d).0).0

  first_or-snoc :
      (zs : List (Cell A)) (z : Cell A) (ys ys' : List (Cell A))
      → first_or none ((zs ++ z ∷ []) ++ ys) ≡ first_or none ((zs ++ z ∷ []) ++ ys')
  first_or-snoc [] z ys ys' = refl
  first_or-snoc (x ∷ zs) z ys ys' = refl

  -- What is known round a cell `y` behind `zs` and `z`, and before `ys`.
  pub record Around (l : Lis A) (zs : List (Cell A)) (z y : Cell A) (ys : List (Cell A))
      : Type ℓ where
    pub front : Seg l.store none (zs ++ z ∷ []) (some y.addr)
    pub back : Seg l.store (some y.addr) ys none
    pub at_z : l.store z.addr ≡ some (node_of (last_or none zs) z (some y.addr))
    pub at_y : l.store y.addr ≡ some (node_of (some z.addr) y (first_or none ys))
    pub end_z : last_or none (zs ++ z ∷ []) ≡ some z.addr
    pub y_apart : Apart y.addr ((zs ++ z ∷ []) ++ ys)
    pub z_apart : Apart z.addr ys
    pub z-ne-y : z.addr ≢ y.addr
    pub dis_front : Distinct (zs ++ z ∷ [])
    pub dis_rest : Distinct ((zs ++ z ∷ []) ++ ys)
    pub dis_back : Distinct ys
    pub count' : l.length ≡ suc (length ((zs ++ z ∷ []) ++ ys))
    pub head' : l.header ≡ first_or none ((zs ++ z ∷ []) ++ ys)
    pub below' : Below l.fresh ((zs ++ z ∷ []) ++ ys)

  pub around :
      (l : Lis A) (zs : List (Cell A)) (z y : Cell A) (ys : List (Cell A))
      → Linked l ((zs ++ z ∷ []) ++ y ∷ ys)
      → Around l zs z y ys
  around l zs z y ys h =
      let xs = zs ++ z ∷ [] in
      let end = last_or-append none zs (z ∷ []) in
      let parts = Seg-split l.store none xs (y ∷ ys) none h.linked in
      let removed = Distinct-remove xs ys y h.distinct in
      let halves = Distinct-split xs (y ∷ ys) h.distinct in
      let low = Below-split l.fresh xs (y ∷ ys) h.below in
      let apart = Apart-split y.addr xs ys removed.0 in
      record {
        front = parts.0;
        back = parts.1.1;
        at_z = (Seg-split l.store none zs (z ∷ []) (some y.addr) parts.0).1.0;
        at_y = subst (λ p. l.store y.addr ≡ some (node_of p y (first_or none ys))) end parts.1.0;
        end_z = end;
        y_apart = removed.0;
        z_apart =
            (Apart-split z.addr zs ys
              (Distinct-remove zs ys z
                (subst Distinct (append_assoc zs (z ∷ []) ys) removed.1)).0).1;
        z-ne-y = (Apart-split y.addr zs (z ∷ []) apart.0).1.0;
        dis_front = halves.0;
        dis_rest = removed.1;
        dis_back = halves.1.1;
        count' = omega (arith, h.count, length-append xs (y ∷ ys), length-append xs ys);
        head' = h.head ∙ first_or-snoc zs z (y ∷ ys) ys;
        below' = Below-append l.fresh xs ys low.0 low.1.1;
      }

  -- The cell goes, its neighbours are tied together, and the tail pointer stays what it was.
  pub unlink-Linked :
      (l : Lis A) (zs : List (Cell A)) (z y : Cell A) (ys : List (Cell A)) (n : Node A)
      → Around l zs z y ys
      → l.store y.addr ≡ some n
      → (r : Lis A) × (unlink l y.addr n ≡ ok r)
        × Linked r ((zs ++ z ∷ []) ++ ys)
        × (r.tailer ≡ l.tailer)
        × (r.store y.addr ≡ none)
  unfolding unlink
  unlink-Linked l zs z y [] n a at =
      let m : Node A = node_of (last_or none zs) z none in
      let s = update l.store z.addr (some m) in
      (
        record l { length = l.length - 1; store = update s y.addr none },
        ground (arith, a.at_y, a.at_z, at),
        record {
          count = omega (arith, a.count');
          head = a.head';
          linked = Seg-frame s y.addr none none ((zs ++ z ∷ []) ++ []) none a.y_apart (
              subst (λ xs. Seg s none xs none) (sym (append-nil (zs ++ z ∷ [])))
                (Seg-relink l.store zs z (some y.addr) none a.dis_front a.front));
          distinct = a.dis_rest;
          below = a.below';
        },
        refl,
        update_self s y.addr none,
      )
  unlink-Linked l zs z y (w ∷ ws) n a at =
      let xs = zs ++ z ∷ [] in
      let m : Node A = node_of (last_or none zs) z (some w.addr) in
      let s = update l.store z.addr (some m) in
      let v : Node A = node_of (some z.addr) w (first_or none ws) in
      let t = update s w.addr (some v) in
      (
        record l { length = l.length - 1; store = update t y.addr none },
        ground (arith, a.at_y, a.at_z, a.back.0, at, a.z_apart.0),
        record {
          count = omega (arith, a.count');
          head = a.head';
          linked = Seg-frame t y.addr none none (xs ++ w ∷ ws) none a.y_apart (
              Seg-join t none xs (w ∷ ws) none
                (Seg-frame s w.addr (some v) none xs (some w.addr)
                  (Distinct-cross xs ws w a.dis_rest)
                  (Seg-relink l.store zs z (some y.addr) (some w.addr) a.dis_front a.front))
                (subst (λ p. Seg t p (w ∷ ws) none) (sym a.end_z)
                  (Seg-reprev s (some y.addr) (some z.addr) w ws a.dis_back (
                    Seg-frame l.store z.addr (some m) (some y.addr) (w ∷ ws) none a.z_apart
                      a.back))));
          distinct = a.dis_rest;
          below = a.below';
        },
        refl,
        update_self t y.addr none,
      )
