-- ===== src/Hash/Removal.antt =====
-- `h_delete` of source/hash.c: how it changes the map that the table stands for.
use file_storage_server.Prelude.{
  ◌+◌, ◌-◌, ◌≤◌, ◌<◌, ◌≡◌, refl, ap, subst, ◌∙◌, List, [], ◌∷◌, Option, none, some, true, arith,
  length, get_or, set, length-set, if◌then◌else◌,
}
use file_storage_server.Run.{ok}
use file_storage_server.Text.{Text, str_eq, str_eq_iff}
use file_storage_server.Lis.{Lis, delete}
use file_storage_server.Lis.Seg.{Cell, Settled}
use file_storage_server.Lis.Search.{find, count, find-eq-none}
use file_storage_server.Lis.Delete.{remove, has, KeepsTail, delete-Settled}
use file_storage_server.Hash.Rows.{IsBucket, IsRows-set, total-set}
use file_storage_server.Hash.Table.{home, home-lt, value, lookup, IsTable, home-IsBucket}
use file_storage_server.Hash.{Hash, h_delete}
use file_storage_server.Hash.Change.{lookup-set, IsPlaced-set, Updates}

module _ {ℓ} {A : Type ℓ} where
  count-remove-le : (q k : Text) (cs : List (Cell A)) → count q (remove k cs) ≤ count q cs
  unfolding count remove
  count-remove-le q k [] = omega arith
  count-remove-le q k (c ∷ cs) = ground (arith, count-remove-le q k cs)

  length-remove :
      (k : Text) (cs : List (Cell A)) → has k cs ≡ true → length (remove k cs) + 1 ≡ length cs
  unfolding has remove
  length-remove k [] h = cc
  length-remove k (c ∷ cs) h = ground (arith, length-remove k cs)

  find-remove :
      (q k : Text) (cs : List (Cell A))
      → count q cs ≤ 1
      → find q (remove k cs) ≡ (if str_eq q k then none else find q cs)
  unfolding find remove count
  find-remove q k [] h = ground arith
  find-remove q k (c ∷ cs) h = ground (
    arith,
    find-remove q k cs,
    find-eq-none q cs,
    str_eq_iff q k,
    str_eq_iff c.key k,
    str_eq_iff c.key q,
  )

  value-remove :
      (q k : Text) (cs : List (Cell A))
      → count q cs ≤ 1
      → value (find q (remove k cs)) ≡ (if str_eq q k then none else value (find q cs))
  value-remove q k cs few = rw (find-remove q k cs few) (ground arith)

  has-find : (k : Text) (cs : List (Cell A)) (v : A) → value (find k cs) ≡ some v → has k cs ≡ true
  unfolding has find
  has-find k [] v e = absurd (cc)
  has-find k (c ∷ cs) v e = ground (arith, has-find k cs v)

  h_delete_at :
      (b : Option (Lis A)) (row : List (Cell A)) (k : Text)
      → IsBucket b row
      → has k row ≡ true
      → KeepsTail k row
      → (l₀ : Lis A) × (l : Lis A) × (b ≡ some l₀)
        × (delete l₀ k ≡ ok (true, l))
        × Settled l (remove k row)
  unfolding has
  h_delete_at none row k is found keep =
      absurd (let e : has {A = A} k [] ≡ true = subst (λ r. has k r ≡ true) is found in cc)
  h_delete_at (some l₀) [] k is found keep = absurd (cc)
  h_delete_at (some l₀) (c ∷ cs) k is found keep =
      let (l, run, settled) = delete-Settled l₀ k c cs is keep in
      (l₀, l, refl, run ∙ ap (λ f. ok (f, l)) found, settled)

  -- the rows without a key
  abbrev pub dropped : List (List (Cell A)) → Text → List (List (Cell A))
  dropped rows k =
      set rows (home k (length rows)) (remove k (get_or rows (home k (length rows)) []))

  -- `h_delete` with the rows that it leaves
  pub h_delete-dropped :
      (h : Hash A) (rows : List (List (Cell A))) (k : Text) (v : A)
      → IsTable h rows
      → lookup rows k ≡ some v
      → KeepsTail k (get_or rows (home k (length rows)) [])
      → (r : Hash A) × (h_delete h k ≡ ok (true, r))
        × Updates h rows k none r (dropped rows k)
        × (r.nelem + 1 ≡ h.nelem)
  unfolding h_delete lookup
  h_delete-dropped h rows k v t present keep =
      let p = home k (length rows) in
      let pos : 0 < length rows = omega (arith, t.nonempty, t.width) in
      let lt = home-lt k (length rows) pos in
      let (b, hashed, at, is) = home-IsBucket h rows k t in
      let found = has-find k (get_or rows p []) v present in
      let (l₀, l, made, run, settled) = h_delete_at b (get_or rows p []) k is found keep in
      let row = remove k (get_or rows p []) in
      let shorter = length-remove k (get_or rows p []) found in
      let sum = total-set rows p row lt in
      (
        record { size = h.size; nelem = h.nelem - 1; buckets = set h.buckets p (some l) },
        ground (arith, hashed, at, made, run),
        record {
          table = record {
            width = length-set rows p row ∙ t.width;
            nonempty = t.nonempty;
            wide = length-set h.buckets p (some l) ∙ t.wide;
            buckets = IsRows-set h.buckets rows p (some l) row t.buckets settled;
            placed = IsPlaced-set rows p row t.placed lt (λ q.
                let old = t.placed q p in
                let less = count-remove-le q k (get_or rows p []) in
                (omega arith, λ ne. let z = old.1 ne in omega arith));
            counted = omega (arith, t.counted, sum, shorter);
          };
          size = refl;
          reads = λ q.
              lookup-set rows k q row none pos
                (value-remove q k (get_or rows p []) (t.placed q p).0);
        },
        omega (arith, t.counted, sum, shorter),
      )

  -- `h_delete` of a key that a table in order has, where the tail pointer of its bucket still
  -- reaches the last cell once the key is gone: it reports success and returns a table in order
  -- that lacks the key and has every other key as before, with one element fewer.
  pub h_delete-Updates :
      (h : Hash A) (rows : List (List (Cell A))) (k : Text) (v : A)
      → IsTable h rows
      → lookup rows k ≡ some v
      → KeepsTail k (get_or rows (home k (length rows)) [])
      → (r : Hash A) × (rows' : List (List (Cell A))) × (h_delete h k ≡ ok (true, r))
        × Updates h rows k none r rows'
        × (r.nelem + 1 ≡ h.nelem)
  h_delete-Updates h rows k v t present keep =
      let (r, run, u, n) = h_delete-dropped h rows k v t present keep in
      (r, dropped rows k, run, u, n)
