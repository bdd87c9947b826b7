-- ===== src/Hash/Table.antt =====
-- What the table of source/hash.c holds: a value for each key, whichever bucket it hashes to.
use file_storage_server.Prelude.{
  ℕ, zero, suc, ◌%◌, ◌≤◌, ◌<◌, ◌≡◌, refl, sym, ap, ◌∙◌, ◌≢◌, inl, inr, List, [], Option, none, some,
  Bool, true, false, arith, length, get_elem?, get_or, Option-cases,
}
use file_storage_server.Run.{ok}
use file_storage_server.Text.{Text}
use file_storage_server.Lis.{Lis, load}
use file_storage_server.Lis.Seg.{Cell}
use file_storage_server.Lis.Search.{find, count, search-find, find-load}
use file_storage_server.Hash.Rows.{IsBucket, IsRows, total, IsRows-at}
use file_storage_server.Hash.{Hash, djb2, funchash, contain, getvalue}

-- the bucket of a key among `n`
unfoldable pub home : Text → ℕ → ℕ
home k n = djb2 5381 k % n

pub home-lt : (k : Text) (n : ℕ) → 0 < n → home k n < n
unfolding home
home-lt k n h = omega arith

pub funchash-home : (k : Text) (n : ℕ) → 0 < n → funchash k n ≡ ok (home k n)
unfolding funchash home
funchash-home k zero h = elim h [ ]
funchash-home k (suc n) h = refl

abbrev pub is_some {ℓ} : {A : Type ℓ} → Option A → Bool
is_some none = false
is_some (some a) = true

module _ {ℓ} {A : Type ℓ} where
  -- the cell under a key
  unfoldable pub cell_at : List (List (Cell A)) → Text → Option (Cell A)
  unfolding find
  cell_at rows k = find k (get_or rows (home k (length rows)) [])

  abbrev pub value : Option (Cell A) → Option A
  value none = none
  value (some c) = some c.cont

  is_some-value : (c : Option (Cell A)) → is_some (value c) ≡ is_some c
  is_some-value none = refl
  is_some-value (some c) = refl

  -- the map that the table stands for
  unfoldable pub lookup : List (List (Cell A)) → Text → Option A
  unfolding cell_at
  lookup rows k = value (cell_at rows k)

  -- A key stands in its home bucket only, and once at most.
  abbrev pub IsPlaced : List (List (Cell A)) → Type 0
  IsPlaced rows =
      (k : Text) (i : ℕ)
      → (count k (get_or rows i []) ≤ 1)
        × (home k (length rows) ≢ i → count k (get_or rows i []) ≡ 0)

  pub record IsTable (h : Hash A) (rows : List (List (Cell A))) : Type ℓ where
    pub width : length rows ≡ h.size
    pub nonempty : 0 < h.size
    pub wide : length h.buckets ≡ h.size
    pub buckets : IsRows h.buckets rows
    pub placed : IsPlaced rows
    pub counted : h.nelem ≡ total rows

  -- the bucket of a key, with the row that it stands for
  pub home-IsBucket :
      (h : Hash A) (rows : List (List (Cell A))) (k : Text)
      → IsTable h rows
      → (b : Option (Lis A)) × (funchash k h.size ≡ ok (home k (length rows)))
        × (get_elem? h.buckets (home k (length rows)) ≡ some b)
        × IsBucket b (get_or rows (home k (length rows)) [])
  home-IsBucket h rows k t =
      let pos : 0 < length rows = omega (arith, t.nonempty, t.width) in
      let lt = home-lt k (length rows) pos in
      let (b, at, is) =
        IsRows-at h.buckets rows (home k (length rows)) t.buckets (omega (arith, t.wide, t.width))
          lt in
      (b, rw (← t.width) (funchash-home k (length rows) pos), at, is)

  module _ (h : Hash A) (k : Text) (pos : ℕ) (hashed : funchash k h.size ≡ ok pos) where
    contain_at :
        (b : Option (Lis A)) (row : List (Cell A))
        → get_elem? h.buckets pos ≡ some b
        → IsBucket b row
        → count k row ≤ 1
        → contain h k ≡ ok (is_some (find k row))
    unfolding contain find
    contain_at none row at is few = ground (arith, hashed, at, is)
    contain_at (some l) row at is few = ground (arith, hashed, at, search-find l row k is few)

    getvalue_at :
        (b : Option (Lis A)) (row : List (Cell A))
        → get_elem? h.buckets pos ≡ some b
        → IsBucket b row
        → count k row ≤ 1
        → getvalue h k ≡ ok (value (find k row))
    unfolding getvalue find load
    getvalue_at none row at is few = ground (arith, hashed, at, is)
    getvalue_at (some l) row at is few = elim (Option-cases (find k row)) [
      | inl absent ↦ ground (arith, hashed, at, absent, search-find l row k is few)
      | inr (c, found) ↦
          let (n, stored, cont, key) = find-load l.store none row none k c is.linked found in
          ground (arith, hashed, at, found, stored, cont, search-find l row k is few)
    ]

  -- `contain` on a table in order answers whether the map that the table stands for has the key.
  pub contain-lookup :
      (h : Hash A) (rows : List (List (Cell A))) (k : Text)
      → IsTable h rows
      → contain h k ≡ ok (is_some (lookup rows k))
  unfolding lookup
  contain-lookup h rows k t =
      let (b, hashed, at, is) = home-IsBucket h rows k t in
      contain_at h k _ hashed b _ at is (t.placed k _).0
      ∙ sym (ap ok (is_some-value (cell_at rows k)))

  -- `getvalue` on a table in order returns what the map has under the key, and NULL if it has
  -- nothing.
  pub getvalue-lookup :
      (h : Hash A) (rows : List (List (Cell A))) (k : Text)
      → IsTable h rows
      → getvalue h k ≡ ok (lookup rows k)
  unfolding lookup
  getvalue-lookup h rows k t =
      let (b, hashed, at, is) = home-IsBucket h rows k t in
      getvalue_at h k _ hashed b _ at is (t.placed k _).0
