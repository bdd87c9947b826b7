-- ===== src/Lis/Seg.antt =====
-- The shape of a list in its store: which cells it runs through, and how the links tie them.
use file_storage_server.Prelude.{
  ℕ, ◌+◌, ◌<◌, ◌≡◌, refl, sym, ap, ◌≢◌, ◌⊎◌, inl, inr, List, [], ◌∷◌, ◌++◌, Option, none, some,
  arith, length, update, update_ne,
}
use file_storage_server.Text.{Text}
use file_storage_server.Lis.{Node, Lis}

pub record Cell {ℓ} (A : Type ℓ) : Type ℓ where
  pub addr : ℕ
  pub key : Text
  pub cont : A

module _ {ℓ} {A : Type ℓ} where
  -- the pointer to the first of the cells, or `e` if there are none
  abbrev pub first_or : Option ℕ → List (Cell A) → Option ℕ
  first_or e [] = e
  first_or e (c ∷ cs) = some c.addr

  -- the pointer to the last of the cells, or `p` if there are none
  abbrev pub last_or : Option ℕ → List (Cell A) → Option ℕ
  last_or p [] = p
  last_or p (c ∷ cs) = last_or (some c.addr) cs

  abbrev pub Apart : ℕ → List (Cell A) → Type 0
  Apart a [] = Unit {0}
  Apart a (c ∷ cs) = (c.addr ≢ a) × Apart a cs

  abbrev pub Distinct : List (Cell A) → Type 0
  Distinct [] = Unit {0}
  Distinct (c ∷ cs) = Apart c.addr cs × Distinct cs

  abbrev pub Below : ℕ → List (Cell A) → Type 0
  Below n [] = Unit {0}
  Below n (c ∷ cs) = (c.addr < n) × Below n cs

  abbrev pub node_of : Option ℕ → Cell A → Option ℕ → Node A
  node_of p c e = record { key = c.key; cont = c.cont; next = e; prev = p }

  -- The store links the cells both ways: `p` stands before the first and `e` behind the last.
  abbrev pub Seg : (ℕ → Option (Node A)) → Option ℕ → List (Cell A) → Option ℕ → Type ℓ
  Seg s p [] e = Unit {ℓ}
  Seg s p (c ∷ cs) e = (s c.addr ≡ some (node_of p c (first_or e cs))) × Seg s (some c.addr) cs e

  pub first_or-append :
      (e : Option ℕ) (xs ys : List (Cell A)) → first_or e (xs ++ ys) ≡ first_or (first_or e ys) xs
  first_or-append e [] ys = refl
  first_or-append e (x ∷ xs) ys = refl

  pub last_or-append :
      (p : Option ℕ) (xs ys : List (Cell A)) → last_or p (xs ++ ys) ≡ last_or (last_or p xs) ys
  last_or-append p [] ys = refl
  last_or-append p (x ∷ xs) ys = last_or-append (some x.addr) xs ys

  pub Apart-append : (a : ℕ) (xs ys : List (Cell A)) → Apart a xs → Apart a ys → Apart a (xs ++ ys)
  Apart-append a [] ys h k = k
  Apart-append a (x ∷ xs) ys h k = (h.0, Apart-append a xs ys h.1 k)

  pub Apart-split : (a : ℕ) (xs ys : List (Cell A)) → Apart a (xs ++ ys) → Apart a xs × Apart a ys
  Apart-split a [] ys h = (tt, h)
  Apart-split a (x ∷ xs) ys h = let r = Apart-split a xs ys h.1 in ((h.0, r.0), r.1)

  pub Apart-fresh : (n : ℕ) (xs : List (Cell A)) → Below n xs → Apart n xs
  Apart-fresh n [] b = tt
  Apart-fresh n (x ∷ xs) b = (omega arith, Apart-fresh n xs b.1)

  pub Below-suc : (n : ℕ) (xs : List (Cell A)) → Below n xs → Below (n + 1) xs
  Below-suc n [] b = tt
  Below-suc n (x ∷ xs) b = (omega arith, Below-suc n xs b.1)

  pub Below-append : (n : ℕ) (xs ys : List (Cell A)) → Below n xs → Below n ys → Below n (xs ++ ys)
  Below-append n [] ys h k = k
  Below-append n (x ∷ xs) ys h k = (h.0, Below-append n xs ys h.1 k)

  pub Below-split : (n : ℕ) (xs ys : List (Cell A)) → Below n (xs ++ ys) → Below n xs × Below n ys
  Below-split n [] ys h = (tt, h)
  Below-split n (x ∷ xs) ys h = let r = Below-split n xs ys h.1 in ((h.0, r.0), r.1)

  pub Distinct-snoc :
      (xs : List (Cell A)) (c : Cell A) → Apart c.addr xs → Distinct xs → Distinct (xs ++ c ∷ [])
  Distinct-snoc [] c h d = (tt, tt)
  Distinct-snoc (x ∷ xs) c h d =
      (Apart-append x.addr xs (c ∷ []) d.0 (λ e. h.0 (sym e), tt), Distinct-snoc xs c h.1 d.1)

  -- `x` and what stands round it: `x` is apart from the rest, and the rest is distinct
  pub Distinct-remove :
      (xs ys : List (Cell A)) (x : Cell A)
      → Distinct (xs ++ x ∷ ys)
      → Apart x.addr (xs ++ ys) × Distinct (xs ++ ys)
  Distinct-remove [] ys x d = d
  Distinct-remove (y ∷ xs) ys x d =
      let r = Distinct-remove xs ys x d.1 in
      let s = Apart-split y.addr xs (x ∷ ys) d.0 in
      ((λ e. s.1.0 (sym e), r.0), (Apart-append y.addr xs ys s.0 s.1.1, r.1))

  -- A write at an address outside the segment does not touch it.
  pub Seg-frame :
      (s : ℕ → Option (Node A)) (a : ℕ) (v : Option (Node A)) (p : Option ℕ) (xs : List (Cell A))
      (e : Option ℕ)
      → Apart a xs
      → Seg s p xs e
      → Seg (update s a v) p xs e
  Seg-frame s a v p [] e h g = tt
  Seg-frame s a v p (x ∷ xs) e h g =
      (rw (update_ne s a x.addr v h.0) g.0, Seg-frame s a v (some x.addr) xs e h.1 g.1)

  pub Seg-split :
      (s : ℕ → Option (Node A)) (p : Option ℕ) (xs ys : List (Cell A)) (e : Option ℕ)
      → Seg s p (xs ++ ys) e
      → Seg s p xs (first_or e ys) × Seg s (last_or p xs) ys e
  Seg-split s p [] ys e g = (tt, g)
  Seg-split s p (x ∷ xs) ys e g =
      let r = Seg-split s (some x.addr) xs ys e g.1 in
      ((rw (← first_or-append e xs ys) g.0, r.0), r.1)

  pub Seg-join :
      (s : ℕ → Option (Node A)) (p : Option ℕ) (xs ys : List (Cell A)) (e : Option ℕ)
      → Seg s p xs (first_or e ys)
      → Seg s (last_or p xs) ys e
      → Seg s p (xs ++ ys) e
  Seg-join s p [] ys e g h = h
  Seg-join s p (x ∷ xs) ys e g h =
      (rw (first_or-append e xs ys) g.0, Seg-join s (some x.addr) xs ys e g.1 h)

  -- a list of cells is empty or ends in a last one
  pub Snoc-cases :
      (xs : List (Cell A)) → (xs ≡ []) ⊎ ((ys : List (Cell A)) × (c : Cell A) × (xs ≡ ys ++ c ∷ []))
  Snoc-cases [] = inl refl
  Snoc-cases (x ∷ xs) = elim (Snoc-cases xs) [
    | inl e ↦ inr ([], x, ap (◌∷◌ x) e)
    | inr (ys, c, e) ↦ inr (x ∷ ys, c, ap (◌∷◌ x) e)
  ]

  -- The cells of a list from head to tail, linked both ways and counted; nothing of the tail pointer.
  pub record Linked (l : Lis A) (cells : List (Cell A)) : Type ℓ where
    pub count : l.length ≡ length cells
    pub head : l.header ≡ first_or none cells
    pub linked : Seg l.store none cells none
    pub distinct : Distinct cells
    pub below : Below l.fresh cells

  -- a list with a tail pointer that is right
  pub record Holds (l : Lis A) (cells : List (Cell A)) : Type ℓ where
    pub shape : Linked l cells
    pub open shape use *
    pub last : l.tailer ≡ last_or none cells

  -- a list with a tail pointer that is right, or with no cells
  pub record Settled (l : Lis A) (cells : List (Cell A)) : Type ℓ where
    pub shape : Linked l cells
    pub open shape use *
    pub last : (cells ≡ []) ⊎ (l.tailer ≡ last_or none cells)

  pub Holds-Settled : {l : Lis A} {cells : List (Cell A)} → Holds l cells → Settled l cells
  Holds-Settled h = record { shape = h.shape; last = inr h.last }
