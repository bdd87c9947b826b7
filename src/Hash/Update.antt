-- ===== src/Hash/Update.antt =====
-- `hashins` and `h_create` of source/hash.c: how they change the map that the table stands for.
use file_storage_server.Prelude.{
  ℕ, ◌+◌, ◌≤◌, ◌<◌, ◌≡◌, refl, sym, ap, subst, ◌∙◌, ◌≢◌, inl, inr, List, [], ◌∷◌, Option, none,
  some, arith, length, get_or, set, replicate, length-set, length-replicate, get_or-replicate,
  Bool-cases, if◌then◌else◌,
}
use mathlib.Core.Option
use file_storage_server.Run.{ok}
use file_storage_server.Text.{Text, str_eq, str_eq_iff}
use file_storage_server.Lis.{Lis, create, insert_h}
use file_storage_server.Lis.Seg.{Cell, Settled, Holds-Settled}
use file_storage_server.Lis.Insert.{create-Holds, new_cell, insert_h-Holds}
use file_storage_server.Lis.Search.{find, count}
use file_storage_server.Hash.Rows.{
  IsBucket, IsRows-set, IsRows-replicate, total-set, total-replicate,
}
use file_storage_server.Hash.Table.{home, home-lt, value, lookup, IsTable, home-IsBucket}
use file_storage_server.Hash.{Hash, h_create, hashins}
use file_storage_server.Hash.Change.{lookup-set, IsPlaced-set, Updates}

module _ {ℓ} {A : Type ℓ} where
  count-eq-zero : (k : Text) (cs : List (Cell A)) → find k cs ≡ none → count k cs ≡ 0
  unfolding find count
  count-eq-zero k [] h = refl
  count-eq-zero k (c ∷ cs) h = ground (arith, count-eq-zero k cs)

  value-eq-none : (o : Option (Cell A)) → value o ≡ none → o ≡ none
  value-eq-none none e = refl
  value-eq-none (some c) e = absurd (cc)

  find-cons :
      (c : Cell A) (row : List (Cell A)) (k q : Text) (v : A)
      → c.key ≡ k
      → c.cont ≡ v
      → value (find q (c ∷ row)) ≡ (if str_eq q k then some v else value (find q row))
  unfolding find
  find-cons c row k q v key cont = ground (arith, str_eq_iff c.key q, str_eq_iff q k)

  -- a row with a new first cell, whose key it lacked
  count-cons :
      (c : Cell A) (row : List (Cell A)) (k q : Text) (n : ℕ)
      → c.key ≡ k
      → count k row ≡ 0
      → (count q row ≤ 1) × (home q n ≢ home k n → count q row ≡ 0)
      → (count q (c ∷ row) ≤ 1) × (home q n ≢ home k n → count q (c ∷ row) ≡ 0)
  unfolding count
  count-cons c row k q n key gone old = elim (Bool-cases (str_eq c.key q)) [
    | inl same ↦
        let e : k ≡ q = sym key ∙ (str_eq_iff c.key q).0 same in
        let none_q : count q row ≡ 0 = subst (λ t. count t row ≡ 0) e gone in
        (rw (same, none_q) (omega arith), λ ne. absurd (ne (ap (λ t. home t n) (sym e))))
    | inr other ↦ rw other old
  ]

  hashins_at :
      (h : Hash A) (rows : List (List (Cell A))) (k : Text) (v : A) (b : Option (Lis A))
      → IsBucket b (get_or rows (home k (length rows)) [])
      → (l : Lis A) × (c : Cell A) × (insert_h (Option.get_or b create) v k ≡ ok l)
        × (c.key ≡ k)
        × (c.cont ≡ v)
        × Settled l (c ∷ get_or rows (home k (length rows)) [])
  hashins_at h rows k v none is =
      let (l, run, holds) = insert_h-Holds create [] v k (Holds-Settled create-Holds) in
      (l, new_cell create v k, run, refl, refl, rw is (Holds-Settled holds))
  hashins_at h rows k v (some l₀) is =
      let (l, run, holds) = insert_h-Holds l₀ _ v k is in
      (l, new_cell l₀ v k, run, refl, refl, Holds-Settled holds)

  -- the rows with one more cell in front of the home bucket of a key
  abbrev pub added : List (List (Cell A)) → Text → Cell A → List (List (Cell A))
  added rows k c = set rows (home k (length rows)) (c ∷ get_or rows (home k (length rows)) [])

  -- `hashins` with the rows that it leaves
  pub hashins-added :
      (h : Hash A) (rows : List (List (Cell A))) (k : Text) (v : A)
      → IsTable h rows
      → lookup rows k ≡ none
      → (r : Hash A) × (c : Cell A) × (hashins h k v ≡ ok r)
        × Updates h rows k (some v) r (added rows k c)
        × (r.nelem ≡ h.nelem + 1)
  unfolding hashins lookup
  hashins-added h rows k v t absent =
      let p = home k (length rows) in
      let pos : 0 < length rows = omega (arith, t.nonempty, t.width) in
      let lt = home-lt k (length rows) pos in
      let (b, hashed, at, is) = home-IsBucket h rows k t in
      let (l, c, run, key, cont, settled) = hashins_at h rows k v b is in
      let row = c ∷ get_or rows p [] in
      let gone : count k (get_or rows p []) ≡ 0 = count-eq-zero k _ (value-eq-none _ absent) in
      (
        record { size = h.size; nelem = h.nelem + 1; buckets = set h.buckets p (some l) },
        c,
        ground (arith, hashed, at, run),
        record {
          table = record {
            width = length-set rows p row ∙ t.width;
            nonempty = t.nonempty;
            wide = length-set h.buckets p (some l) ∙ t.wide;
            buckets = IsRows-set h.buckets rows p (some l) row t.buckets settled;
            placed =
                IsPlaced-set rows p row t.placed lt
                  (λ q. count-cons c _ k q (length rows) key gone (t.placed q p));
            counted = omega (arith, t.counted, total-set rows p row lt);
          };
          size = refl;
          reads = λ q. lookup-set rows k q row (some v) pos (find-cons c _ k q v key cont);
        },
        refl,
      )

  -- `hashins` under a key that a table in order lacks: it returns a table in order that maps the
  -- key to the value and every other key as before, with one element more.
  pub hashins-Updates :
      (h : Hash A) (rows : List (List (Cell A))) (k : Text) (v : A)
      → IsTable h rows
      → lookup rows k ≡ none
      → (r : Hash A) × (rows' : List (List (Cell A))) × (hashins h k v ≡ ok r)
        × Updates h rows k (some v) r rows'
        × (r.nelem ≡ h.nelem + 1)
  hashins-Updates h rows k v t absent =
      let (r, c, run, u, n) = hashins-added h rows k v t absent in (r, added rows k c, run, u, n)

-- `h_create` of at least one bucket makes a table in order, and its map has no key.
pub h_create-IsTable {ℓ} :
    (A : Type ℓ) (size : ℕ)
    → 0 < size
    → IsTable {A = A} (h_create size) (replicate size [])
      × ((k : Text) → lookup {A = A} (replicate size []) k ≡ none)
unfolding h_create lookup count find
h_create-IsTable A size pos = (
  record {
    width = length-replicate size [];
    nonempty = pos;
    wide = length-replicate size none;
    buckets = IsRows-replicate A size;
    placed = λ k i. rw (get_or-replicate {A = List (Cell A)} size i []) (omega arith, λ _. refl);
    counted = sym (total-replicate A size);
  },
  λ k. rw (
      get_or-replicate {A = List (Cell A)} size
        (home k (length {A = List (Cell A)} (replicate size []))) []),
)
