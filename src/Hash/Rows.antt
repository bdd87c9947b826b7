-- ===== src/Hash/Rows.antt =====
-- The buckets of source/hash.c as rows of cells, one row for each bucket.
use file_storage_server.Prelude.{
  ℕ, zero, suc, ◌+◌, ◌<◌, ◌≡◌, refl, List, [], ◌∷◌, Option, none, some, arith, length, get_elem?,
  get_or, set, replicate,
}
use file_storage_server.Lis.{Lis}
use file_storage_server.Lis.Seg.{Cell, Settled}

module _ {ℓ} {A : Type ℓ} where
  abbrev pub IsBucket : Option (Lis A) → List (Cell A) → Type ℓ
  IsBucket none row = row ≡ []
  IsBucket (some l) row = Settled l row

  -- each bucket with its row; the two lists are as long as one another elsewhere
  abbrev pub IsRows : List (Option (Lis A)) → List (List (Cell A)) → Type ℓ
  IsRows [] rs = Unit {ℓ}
  IsRows (b ∷ bs) [] = Unit {ℓ}
  IsRows (b ∷ bs) (r ∷ rs) = IsBucket b r × IsRows bs rs

  -- how many cells there are
  unfoldable pub total : List (List (Cell A)) → ℕ
  total [] = 0
  total (r ∷ rs) = length r + total rs

  pub IsRows-at :
      (bs : List (Option (Lis A))) (rs : List (List (Cell A))) (i : ℕ)
      → IsRows bs rs
      → i < length bs
      → i < length rs
      → (b : Option (Lis A)) × (get_elem? bs i ≡ some b) × IsBucket b (get_or rs i [])
  IsRows-at [] rs i h lt lt' = elim lt [ ]
  IsRows-at (b ∷ bs) [] i h lt lt' = elim lt' [ ]
  IsRows-at (b ∷ bs) (r ∷ rs) zero h lt lt' = (b, refl, h.0)
  IsRows-at (b ∷ bs) (r ∷ rs) (suc i) h lt lt' = IsRows-at bs rs i h.1 (omega arith) (omega arith)

  pub IsRows-set :
      (bs : List (Option (Lis A))) (rs : List (List (Cell A))) (i : ℕ) (b : Option (Lis A))
      (r : List (Cell A))
      → IsRows bs rs
      → IsBucket b r
      → IsRows (set bs i b) (set rs i r)
  IsRows-set [] rs i b r h k = tt
  IsRows-set (x ∷ bs) [] zero b r h k = tt
  IsRows-set (x ∷ bs) [] (suc i) b r h k = tt
  IsRows-set (x ∷ bs) (y ∷ rs) zero b r h k = (k, h.1)
  IsRows-set (x ∷ bs) (y ∷ rs) (suc i) b r h k = (h.0, IsRows-set bs rs i b r h.1 k)

  pub total-set :
      (rs : List (List (Cell A))) (i : ℕ) (r : List (Cell A))
      → i < length rs
      → total (set rs i r) + length (get_or rs i []) ≡ total rs + length r
  unfolding total
  total-set [] i r lt = elim lt [ ]
  total-set (x ∷ rs) zero r lt = omega arith
  total-set (x ∷ rs) (suc i) r lt = omega (arith, total-set rs i r (omega arith))

pub IsRows-replicate {ℓ} : (A : Type ℓ) (n : ℕ) → IsRows {A = A} (replicate n none) (replicate n [])
IsRows-replicate A zero = tt
IsRows-replicate A (suc n) = (refl, IsRows-replicate A n)

pub total-replicate {ℓ} : (A : Type ℓ) (n : ℕ) → total {A = A} (replicate n []) ≡ 0
unfolding total
total-replicate A zero = refl
total-replicate A (suc n) = omega (arith, total-replicate A n)
