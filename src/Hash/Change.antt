-- ===== src/Hash/Change.antt =====
-- What one new row does to the map that a table of source/hash.c stands for.
use file_storage_server.Prelude.{
  ℕ, ◌≤◌, ◌<◌, ◌≡◌, sym, ap, ◌≢◌, inl, inr, List, [], Option, length, get_or, set, length-set,
  get_or-set_self, get_or-set_ne, Bool-cases, if◌then◌else◌,
}
use native.Mathlib.Decide.{ℕ_discrete}
use file_storage_server.Text.{Text, str_eq, str_eq_iff}
use file_storage_server.Lis.Seg.{Cell}
use file_storage_server.Lis.Search.{find, count}
use file_storage_server.Hash.Table.{home, home-lt, value, lookup, IsPlaced, IsTable}
use file_storage_server.Hash.{Hash}

module _ {ℓ} {A : Type ℓ} where
  -- A new row in the home bucket of `k` changes the map as it changes the row.
  pub lookup-set :
      (rows : List (List (Cell A))) (k q : Text) (row : List (Cell A)) (v : Option A)
      → 0 < length rows
      → value (find q row)
        ≡ (if str_eq q k then v else value (find q (get_or rows (home k (length rows)) [])))
      → lookup (set rows (home k (length rows)) row) q ≡ (if str_eq q k then v else lookup rows q)
  unfolding lookup
  lookup-set rows k q row v pos h =
      rw (length-set rows (home k (length rows)) row)
        (elim (ℕ_discrete (home q (length rows)) (home k (length rows))) [
          | yes e ↦ rw (e, get_or-set_self rows _ row [] (home-lt k (length rows) pos)) h
          | no n ↦ elim (Bool-cases (str_eq q k)) [
            | inl same ↦ absurd (n (ap (λ t. home t (length rows)) ((str_eq_iff q k).0 same)))
            | inr other ↦ rw (other, get_or-set_ne rows _ _ row [] (λ e. n (sym e)))
          ]
        ])

  pub IsPlaced-set :
      (rows : List (List (Cell A))) (p : ℕ) (row : List (Cell A))
      → IsPlaced rows
      → p < length rows
      → ((q : Text) → (count q row ≤ 1) × (home q (length rows) ≢ p → count q row ≡ 0))
      → IsPlaced (set rows p row)
  IsPlaced-set rows p row old lt h q i = rw (length-set rows p row) (elim (ℕ_discrete p i) [
    | yes e ↦ rw (← e, get_or-set_self rows p row [] lt) (h q)
    | no n ↦ rw (get_or-set_ne rows p i row [] n) (old q i)
  ])

  -- What a change of one key does: the table stays in order, and the map changes there only.
  pub record Updates (h : Hash A) (rows : List (List (Cell A))) (k : Text) (v : Option A)
      (r : Hash A) (rows' : List (List (Cell A))) : Type ℓ where
    pub table : IsTable r rows'
    pub size : r.size ≡ h.size
    pub reads : (q : Text) → lookup rows' q ≡ (if str_eq q k then v else lookup rows q)
