-- ===== src/Lis/Delete.antt =====
-- `delete` of source/list.c: which cells stay, and what becomes of the tail pointer.
use file_storage_server.Prelude.{
  ℕ, zero, suc, ◌-◌, ◌<◌, ◌≡◌, refl, sym, ◌≢◌, ◌⊎◌, inl, inr, List, [], ◌∷◌, ◌++◌, none, some, Bool,
  true, false, arith, length, update, update_self, if◌then◌else◌, ◌∙◌, Bool-cases, subst,
  append_assoc, append-nil,
}
use file_storage_server.Run.{Run, ok, fault}
use file_storage_server.Text.{Text, str_eq, str_eq_refl, str_eq_iff}
use file_storage_server.Lis.{Node, Lis, load, search, delete, delete_from}
use file_storage_server.Lis.Seg.{
  Cell, first_or, last_or, node_of, Linked, Settled, Seg-frame, last_or-append,
}
use file_storage_server.Lis.Search.{find}
use file_storage_server.Lis.Unlink.{around, unlink-Linked}
use file_storage_server.Lis.Remove.{Seg-behead}

module _ {ℓ} {A : Type ℓ} where
  -- the cells without the first one under the key
  unfoldable pub remove : Text → List (Cell A) → List (Cell A)
  remove k [] = []
  remove k (c ∷ cs) = if str_eq c.key k then cs else c ∷ remove k cs

  unfoldable pub has : Text → List (Cell A) → Bool
  has k [] = false
  has k (c ∷ cs) = if str_eq c.key k then true else has k cs

  -- What `delete` leaves: the other cells linked, and the tail pointer as it was.
  abbrev pub Deletes : Lis A → Text → List (Cell A) → List (Cell A) → Run (Bool × Lis A) → Type ℓ
  Deletes l k xs ys result =
      (r : Lis A) × (result ≡ ok (has k ys, r))
      × Linked r (xs ++ remove k ys)
      × (r.tailer ≡ l.tailer)
      × ((c : Cell A) → find k ys ≡ some c → r.store c.addr ≡ none)

  -- the loop, with `xs` behind it and `ys` to go
  delete_from-Linked :
      (f : ℕ) (l : Lis A) (k : Text) (zs : List (Cell A)) (z : Cell A) (ys : List (Cell A))
      → length ys < f
      → Linked l ((zs ++ z ∷ []) ++ ys)
      → Deletes l k (zs ++ z ∷ []) ys (delete_from f l k (first_or none ys))
  unfolding delete_from load has remove find
  delete_from-Linked zero l k zs z ys lt h = absurd (omega arith)
  delete_from-Linked (suc f) l k zs z [] lt h = (l, refl, h, refl, λ c e. absurd (cc))
  delete_from-Linked (suc f) l k zs z (y ∷ ys) lt h =
      let a = around l zs z y ys h in
      elim (Bool-cases (str_eq y.key k)) [
        | inl same ↦
            let (r, run, linked, tail, gone) = unlink-Linked l zs z y ys _ a a.at_y in
            (
              r,
              ground (arith, a.at_y, same, run),
              rw same linked,
              tail,
              λ c e. let e' : y ≡ c = ground arith in subst (λ x. r.store x.addr ≡ none) e' gone,
            )
        | inr other ↦
            let (r, run, linked, tail, gone) =
              delete_from-Linked f l k (zs ++ z ∷ []) y ys (omega arith)
                (subst (Linked l) (sym (append_assoc (zs ++ z ∷ []) (y ∷ []) ys)) h) in
            (
              r,
              ground (arith, a.at_y, other, run),
              rw other
                  (subst (Linked r) (append_assoc (zs ++ z ∷ []) (y ∷ []) (remove k ys)) linked),
              tail,
              λ c e. gone c (ground arith),
            )
      ]

  delete-head :
      (l : Lis A) (k : Text) (c : Cell A) (cs : List (Cell A))
      → Linked l (c ∷ cs)
      → str_eq c.key k ≡ true
      → Deletes l k [] (c ∷ cs) (delete l k)
  unfolding delete has remove find
  delete-head l k c [] h same = (
    record l { header = none; length = l.length - 1; store = update l.store c.addr none },
    ground (arith, h.head, h.linked.0, same),
    rw same (record {
      count = omega (arith, h.count);
      head = refl;
      linked = tt;
      distinct = tt;
      below = tt;
    }),
    refl,
    λ x e.
        let e' : c ≡ x = ground arith in
        subst (λ y. update l.store c.addr none y.addr ≡ none) e' (update_self l.store c.addr none),
  )
  delete-head l k c (d ∷ ds) h same =
      let m : Node A = node_of none d (first_or none ds) in
      let s = update l.store d.addr (some m) in
      (
        record l { header = some d.addr; length = l.length - 1; store = update s c.addr none },
        ground (arith, h.head, h.linked.0, h.linked.1.0, same),
        rw same (record {
          count = omega (arith, h.count);
          head = refl;
          linked =
              Seg-frame s c.addr none none (d ∷ ds) none h.distinct.0
                (Seg-behead l.store c d ds h.distinct h.linked);
          distinct = h.distinct.1;
          below = h.below.1;
        }),
        refl,
        λ x e.
            let e' : c ≡ x = ground arith in
            subst (λ y. update s c.addr none y.addr ≡ none) e' (update_self s c.addr none),
      )

  pub delete-Linked :
      (l : Lis A) (k : Text) (c : Cell A) (cs : List (Cell A))
      → Linked l (c ∷ cs)
      → Deletes l k [] (c ∷ cs) (delete l k)
  unfolding delete delete_from has remove find
  delete-Linked l k c cs h = elim (Bool-cases (str_eq c.key k)) [
    | inl same ↦ delete-head l k c cs h same
    | inr other ↦
        let (r, run, linked, tail, gone) =
          delete_from-Linked l.length l k [] c cs (omega (arith, h.count)) h in
        (
          r,
          ground (arith, h.head, h.linked.0, other, run),
          rw other linked,
          tail,
          λ x e. gone x (ground arith),
        )
  ]

  -- `delete` on a list with no cells reads through a null header.
  pub delete-nil : (l : Lis A) (k : Text) → l.header ≡ none → delete l k ≡ fault
  unfolding delete
  delete-nil l k h = ground (arith, h)

  -- The tail pointer still reaches the last cell once the cell under the key is gone.
  abbrev pub KeepsTail : Text → List (Cell A) → Type ℓ
  KeepsTail k cells = (remove k cells ≡ []) ⊎ (last_or none (remove k cells) ≡ last_or none cells)

  -- `delete` on a list in order with at least one cell, where the tail pointer still reaches the
  -- last cell once the first cell under the key is gone: it reports whether the key was there and
  -- returns a list in order without that cell.
  pub delete-Settled :
      (l : Lis A) (k : Text) (c : Cell A) (cs : List (Cell A))
      → Settled l (c ∷ cs)
      → KeepsTail k (c ∷ cs)
      → (r : Lis A) × (delete l k ≡ ok (has k (c ∷ cs), r)) × Settled r (remove k (c ∷ cs))
  delete-Settled l k c cs w keep =
      let (r, run, linked, tail, gone) = delete-Linked l k c cs w.shape in
      (
        r,
        run,
        record {
          shape = linked;
          last = elim w.last [
            | inl e ↦ absurd (cc)
            | inr at ↦ elim keep [ inl e ↦ inl e | inr same ↦ inr (tail ∙ at ∙ sym same) ]
          ];
        },
      )

  has-append : (k : Text) (xs ys : List (Cell A)) → has k xs ≡ false → has k (xs ++ ys) ≡ has k ys
  unfolding has
  has-append k [] ys h = refl
  has-append k (x ∷ xs) ys h = ground (arith, has-append k xs ys)

  find-append :
      (k : Text) (xs ys : List (Cell A)) → has k xs ≡ false → find k (xs ++ ys) ≡ find k ys
  unfolding has find
  find-append k [] ys h = refl
  find-append k (x ∷ xs) ys h = ground (arith, find-append k xs ys)

  remove-append :
      (k : Text) (xs ys : List (Cell A))
      → has k xs ≡ false
      → remove k (xs ++ ys) ≡ xs ++ remove k ys
  unfolding has remove
  remove-append k [] ys h = refl
  remove-append k (x ∷ xs) ys h = ground (arith, remove-append k xs ys)

  -- `delete` of the last of several cells, whose key no other one has, from a list in order: the
  -- other cells stay linked, but the tail pointer reaches a freed node, and a search for any key
  -- but the first cell's reads through it.
  pub delete_tail_dangles :
      (l : Lis A) (c : Cell A) (zs : List (Cell A)) (y : Cell A)
      → Settled l ((c ∷ zs) ++ y ∷ [])
      → has y.key (c ∷ zs) ≡ false
      → (r : Lis A) × (delete l y.key ≡ ok (true, r))
        × Linked r (c ∷ zs)
        × (load r r.tailer ≡ fault)
        × ((q : Text) → q ≢ c.key → search r q ≡ fault)
  unfolding load search
  delete_tail_dangles l c zs y w only =
      let one = str_eq_refl y.key in
      let (r, run, linked, tail, gone) = delete-Linked l y.key c (zs ++ y ∷ []) w.shape in
      let freed : r.store y.addr ≡ none =
        gone y (find-append y.key (c ∷ zs) (y ∷ []) only ∙ unfold find in (rw one)) in
      let at : r.tailer ≡ some y.addr = elim w.last [
        | inl e ↦ absurd (cc)
        | inr t ↦ tail ∙ t ∙ last_or-append none (c ∷ zs) (y ∷ [])
      ] in
      let found : has y.key ((c ∷ zs) ++ y ∷ []) ≡ true =
        has-append y.key (c ∷ zs) (y ∷ []) only ∙ unfold has in (rw one) in
      let cells : remove y.key ((c ∷ zs) ++ y ∷ []) ≡ c ∷ zs =
        remove-append y.key (c ∷ zs) (y ∷ []) only
        ∙ unfold remove in (rw one (append-nil (c ∷ zs))) in
      let shape : Linked r (c ∷ zs) = subst (Linked r) cells linked in
      (
        r,
        ground (arith, run, found),
        shape,
        ground (arith, at, freed),
        λ q ne. ground (arith, at, freed, shape.head, shape.linked.0, str_eq_iff c.key q),
      )
