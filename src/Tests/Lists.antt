-- ===== src/Tests/Lists.antt =====
-- The theorems about source/list.c and source/hash.c on lists and tables of one and two cells.
use file_storage_server.Prelude.{
  ℕ, ◌≡◌, ◌≢◌, refl, true, false, List, [], ◌∷◌, some, arith, ◌≤◌, get_or, suc, zero,
}
use file_storage_server.Run.{ok, fault}
use file_storage_server.Text.{Text, str_eq}
use file_storage_server.Lis.{Lis, create, insert_t, search, delete, load}
use file_storage_server.Lis.Seg.{Cell, Linked, Holds, Holds-Settled}
use file_storage_server.Lis.Insert.{create-Holds, new_cell, insert_t-Holds}
use file_storage_server.Lis.Search.{find, count}
use file_storage_server.Lis.Delete.{has, delete_tail_dangles}
use file_storage_server.Hash.{Hash, djb2}
use file_storage_server.Hash.Rows.{total}
use file_storage_server.Hash.Table.{home, lookup, IsTable}

abbrev pub key_a : Text
key_a = 97 ∷ []

abbrev key_b : Text
key_b = 98 ∷ []

-- the cells of a list that two insertions made
abbrev pub cell_a : Cell ℕ
cell_a = record { addr = 0; key = key_a; cont = 10 }

abbrev cell_b : Cell ℕ
cell_b = record { addr = 1; key = key_b; cont = 20 }

pub list_a : (r : Lis ℕ) × (insert_t create 10 key_a ≡ ok r) × Holds r (cell_a ∷ [])
unfolding create
list_a = insert_t-Holds create [] 10 key_a create-Holds

list_ab :
    (r : Lis ℕ) × (insert_t list_a.0 20 key_b ≡ ok r)
    × Holds r (cell_a ∷ new_cell list_a.0 20 key_b ∷ [])
list_ab = insert_t-Holds list_a.0 (cell_a ∷ []) 20 key_b list_a.2

abbrev cells_ab : List (Cell ℕ)
cells_ab = cell_a ∷ new_cell list_a.0 20 key_b ∷ []

lacks_b : has key_b (cell_a ∷ []) ≡ false
unfolding has str_eq
lacks_b = refl

delete_tail_dangles_example :
    (r : Lis ℕ) × (delete list_ab.0 key_b ≡ ok (true, r))
    × Linked r (cell_a ∷ [])
    × (load r r.tailer ≡ fault)
    × ((q : Text) → q ≢ key_a → search r q ≡ fault)
delete_tail_dangles_example =
    delete_tail_dangles list_ab.0 cell_a [] (new_cell list_a.0 20 key_b) (Holds-Settled list_ab.2)
      lacks_b

-- a table of one bucket, which has the key `a` alone
abbrev pub one_row : List (List (Cell ℕ))
one_row = (cell_a ∷ []) ∷ []

abbrev pub one_bucket : Hash ℕ
one_bucket = record { size = 1; nelem = 1; buckets = some list_a.0 ∷ [] }

pub one_bucket-IsTable : IsTable one_bucket one_row
unfolding count home total
one_bucket-IsTable = record {
  width = refl;
  nonempty = omega arith;
  wide = refl;
  buckets = (Holds-Settled list_a.2, tt);
  placed = one_place;
  counted = refl;
}
  where
    one_place :
        (k : Text) (i : ℕ)
        → (count k (get_or one_row i []) ≤ 1) × (home k 1 ≢ i → count k (get_or one_row i []) ≡ 0)
    one_place k zero = (ground arith, λ ne. absurd (ne (omega arith)))
    one_place k (suc i) = (omega arith, λ ne. refl)

pub one_bucket-lookup : lookup one_row key_a ≡ some 10
unfolding lookup home find str_eq djb2
one_bucket-lookup = refl
