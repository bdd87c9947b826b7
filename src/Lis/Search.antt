-- ===== src/Lis/Search.antt =====
-- `search` and `UpdateNode` of source/list.c: the first cell under a key.
use file_storage_server.Prelude.{
  ℕ, zero, suc, ◌+◌, ◌≤◌, ◌<◌, ◌≡◌, refl, ap, inl, inr, List, [], ◌∷◌, Option, none, some, true,
  arith, length, if◌then◌else◌, Bool-cases, subst,
}
use file_storage_server.Run.{Run, ok, ◌>>=◌}
use file_storage_server.Text.{Text, str_eq, str_eq→≡}
use file_storage_server.Lis.{Node, Lis, load, scan, search}
use file_storage_server.Lis.Seg.{Cell, first_or, last_or, node_of, Seg, Settled}

module _ {ℓ} {A : Type ℓ} where
  -- the first cell under the key
  unfoldable pub find : Text → List (Cell A) → Option (Cell A)
  find k [] = none
  find k (c ∷ cs) = if str_eq c.key k then some c else find k cs

  abbrev pub addr? : Option (Cell A) → Option ℕ
  addr? none = none
  addr? (some c) = some c.addr

  -- how many cells stand under the key
  unfoldable pub count : Text → List (Cell A) → ℕ
  count k [] = 0
  count k (c ∷ cs) = if str_eq c.key k then suc (count k cs) else count k cs

  pub find-eq-none : (k : Text) (cs : List (Cell A)) → count k cs ≡ 0 → find k cs ≡ none
  unfolding find count
  find-eq-none k [] h = refl
  find-eq-none k (c ∷ cs) h = ground (arith, find-eq-none k cs)

  scan-find :
      (f : ℕ) (l : Lis A) (k : Text) (p : Option ℕ) (cs : List (Cell A))
      → length cs < f
      → Seg l.store p cs none
      → scan f l k (first_or none cs) ≡ ok (addr? (find k cs))
  unfolding scan find
  scan-find zero l k p cs h g = absurd (omega arith)
  scan-find (suc f) l k p [] h g = refl
  scan-find (suc f) l k p (c ∷ cs) h g = ground (arith, g.0, scan-find f l k (some c.addr) cs)

  -- The cell that the tail pointer reaches is the last one.
  last_key :
      (s : ℕ → Option (Node A)) (p : Option ℕ) (c : Cell A) (cs : List (Cell A))
      → Seg s p (c ∷ cs) none
      → (d : Cell A) × (n : Node A) × (last_or p (c ∷ cs) ≡ some d.addr)
        × (s d.addr ≡ some n)
        × (n.key ≡ d.key)
        × ((k : Text) → count k (c ∷ cs) ≤ 1 → str_eq d.key k ≡ true → find k (c ∷ cs) ≡ some d)
  unfolding find count
  last_key s p c [] g = (c, node_of p c none, refl, g.0, refl, λ k few same. rw same refl)
  last_key s p c (d ∷ cs) g =
      let (x, n, e, at, named, sole) = last_key s (some c.addr) d cs g.1 in
      (x, n, e, at, named, λ k few same. ground (arith, sole k, find-eq-none k (d ∷ cs), same, few))

  -- the step of `search` at the tail `t`, with `rest` for the scan behind it
  search_tail :
      (l : Lis A) (t : Option ℕ) (c : Cell A) (cs : List (Cell A)) (k : Text)
      (rest : Run (Option ℕ))
      → t ≡ last_or none (c ∷ cs)
      → Seg l.store none (c ∷ cs) none
      → count k (c ∷ cs) ≤ 1
      → rest ≡ ok (addr? (find k (c ∷ cs)))
      → (load l t >>= λ last. if str_eq last.key k then ok t else rest)
        ≡ ok (addr? (find k (c ∷ cs)))
  unfolding load
  search_tail l t c cs k rest tail g few scanned =
      let (x, n, e, at, named, sole) = last_key l.store none c cs g in
      elim (Bool-cases (str_eq x.key k)) [
        | inl same ↦ ground (arith, tail, e, at, named, same, sole k)
        | inr other ↦ ground (arith, tail, e, at, named, other)
      ]

  -- `search` on a list in order in which the key stands at most once returns the pointer to its
  -- cell, and NULL if there is none, though it looks at the last cell first.
  pub search-find :
      (l : Lis A) (cells : List (Cell A)) (k : Text)
      → Settled l cells
      → count k cells ≤ 1
      → search l k ≡ ok (addr? (find k cells))
  unfolding search find
  search-find l [] k w few = ground (arith, w.head)
  search-find l (c ∷ cs) k w few = elim w.last [
    | inl e ↦ absurd (cc)
    | inr tail ↦
        let scanned =
          scan-find (l.length + 1) l k none (c ∷ cs) (omega (arith, w.count)) w.linked in
        let rest = search_tail l l.tailer c cs k _ tail w.linked few scanned in
        ground (arith, w.head, w.linked.0, rest)
  ]

  -- the node of the cell that is found
  pub find-load :
      (s : ℕ → Option (Node A)) (p : Option ℕ) (cs : List (Cell A)) (e : Option ℕ) (k : Text)
      (c : Cell A)
      → Seg s p cs e
      → find k cs ≡ some c
      → (n : Node A) × (s c.addr ≡ some n) × (n.cont ≡ c.cont) × (n.key ≡ k)
  unfolding find
  find-load s p [] e k c g h = absurd (cc)
  find-load s p (x ∷ xs) e k c g h = elim (Bool-cases (str_eq x.key k)) [
    | inl same ↦
        let found : x ≡ c = ground arith in
        (
          node_of p x (first_or e xs),
          subst (λ y. s y.addr ≡ some (node_of p x (first_or e xs))) found g.0,
          ap (λ y. y.cont) found,
          str_eq→≡ x.key k same,
        )
    | inr other ↦ find-load s (some x.addr) xs e k c g.1 (ground arith)
  ]
