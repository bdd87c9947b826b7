-- ===== src/Queue/Row.antt =====
-- The nodes of a pointer queue in a row from its head to its tail.
use file_storage_server.Prelude.{
  ℕ, suc, ◌+◌, ◌≤◌, ◌<◌, ◌≡◌, refl, ◌∙◌, ap, List, [], ◌∷◌, ◌++◌, Option, none, some, arith, length,
  update, update_ne,
}
use file_storage_server.Queue.{Node, Queue}

-- a node's address and its element
abbrev pub Cell : Type 0 → Type 0
Cell A = ℕ × A

module _ {A : Type 0} where
  -- The cells are linked both ways, at addresses from `low` on that rise and are below `fresh`.
  abbrev pub IsRow :
      (ℕ → Option (Node A)) → ℕ → ℕ → Option ℕ → List (Cell A) → Option ℕ → Option ℕ → Type 0
  IsRow st fresh low prev [] head tail = (head ≡ none) × ((tail ≡ prev) × (low ≤ fresh))
  IsRow st fresh low prev (c ∷ cs) head tail =
      (head ≡ some c.0)
      × ((low ≤ c.0)
          × ((n : Option ℕ) × ((st c.0 ≡ some (record { element = c.1; next = n; prev = prev }))
                × IsRow st fresh (suc c.0) (some c.0) cs n tail)))

  -- the queue has these cells
  pub record Has (q : Queue A) (cells : List (Cell A)) : Type 0 where
    pub row : IsRow q.store q.fresh 0 none cells q.head q.tail
    pub count : q.length ≡ length cells

  abbrev pub elements : List (Cell A) → List A
  elements [] = []
  elements (c ∷ cs) = c.1 ∷ elements cs

  -- A change below the row leaves it.
  pub IsRow-below :
      (st : ℕ → Option (Node A)) (fresh low : ℕ) (prev : Option ℕ) (cells : List (Cell A))
      (head tail : Option ℕ) (a : ℕ) (v : Option (Node A))
      → a < low
      → IsRow st fresh low prev cells head tail
      → IsRow (update st a v) fresh low prev cells head tail
  IsRow-below st fresh low prev [] head tail a v far row = row
  IsRow-below st fresh low prev (c ∷ cs) head tail a v far (h, (b, (n, (at, row)))) = (
    h,
    (
      b,
      (
        n,
        (
          update_ne st a c.0 v (λ e. omega (arith, e, far, b)) ∙ at,
          IsRow-below st fresh (suc c.0) (some c.0) cs n tail a v (omega (arith, far, b)) row,
        ),
      ),
    ),
  )

  -- the address of the tail
  abbrev pub last_of : ℕ → List (Cell A) → ℕ
  last_of a [] = a
  last_of a (c ∷ cs) = last_of c.0 cs

  pub row-tail :
      (st : ℕ → Option (Node A)) (fresh a : ℕ) (cells : List (Cell A)) (head tail : Option ℕ)
      → IsRow st fresh (suc a) (some a) cells head tail
      → (tail ≡ some (last_of a cells)) × (a ≤ last_of a cells) × (last_of a cells < fresh)
  row-tail st fresh a [] head tail (h, (t, b)) = (t, omega arith, omega (arith, b))
  row-tail st fresh a (c ∷ cs) head tail (h, (b, (n, (at, row)))) =
      let (t, l, u) = row-tail st fresh c.0 cs n tail row in (t, omega (arith, l, b), u)

  -- A new cell behind the tail: its node is at `fresh`, and the node of the tail points to it.
  pub IsRow-append :
      (st st' : ℕ → Option (Node A)) (fresh low a : ℕ) (prev : Option ℕ) (x : A)
      (cells : List (Cell A)) (element : A) (head tail : Option ℕ) (n : Option ℕ)
      → IsRow st fresh low prev ((a, x) ∷ cells) head tail
      → ((q : ℕ) → q < last_of a cells → st' q ≡ st q)
      → ((y : A) (p m : Option ℕ)
          → st (last_of a cells) ≡ some (record { element = y; next = m; prev = p })
          → st' (last_of a cells) ≡ some (record { element = y; next = some fresh; prev = p }))
      → st' fresh ≡ some (record { element = element; next = none; prev = some (last_of a cells) })
      → IsRow st' (fresh + 1) low prev ((a, x) ∷ cells ++ (fresh, element) ∷ []) head (some fresh)
  IsRow-append st st' fresh low a prev x [] element head tail m (h, (b, (n, (at, (e, (t, u))))))
        before last new =
      (
        h,
        (
          b,
          (some fresh, (last x prev n at, (refl, (u, (none, (new, (refl, (refl, omega arith)))))))),
        ),
      )
  IsRow-append st st' fresh low a prev x (c ∷ cs) element head tail m (h, (b, (n, (at, row))))
        before last new =
      let (h', (b', (n', (at', row')))) = row in
      let (t, l, u) = row-tail st fresh c.0 cs n' tail row' in
      (
        h,
        (
          b,
          (
            n,
            (
              before a (omega (arith, l, b')) ∙ at,
              IsRow-append st st' fresh (suc a) c.0 (some a) c.1 cs element n tail m row before last
                  new,
            ),
          ),
        ),
      )

  -- the node of the tail
  pub row-last :
      (st : ℕ → Option (Node A)) (fresh low a : ℕ) (prev : Option ℕ) (x : A) (cells : List (Cell A))
      (head tail : Option ℕ)
      → IsRow st fresh low prev ((a, x) ∷ cells) head tail
      → (y : A) × (p : Option ℕ) × (st (last_of a cells)
          ≡ some (record { element = y; next = none; prev = p }))
  row-last st fresh low a prev x [] head tail (h, (b, (n, (at, (e, (t, u)))))) =
      (x, prev, at ∙ ap (λ (m : Option ℕ). some (record { element = x; next = m; prev = prev })) e)
  row-last st fresh low a prev x (c ∷ cs) head tail (h, (b, (n, (at, row)))) =
      row-last st fresh (suc a) c.0 (some a) c.1 cs n tail row
