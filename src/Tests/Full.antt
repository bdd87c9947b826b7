-- ===== src/Tests/Full.antt =====
-- WRITE over the bound at a server with two files: the one with contents has to go.
use file_storage_server.Prelude.{
  ℕ, ◌≤◌, ◌≢◌, suc, zero, ◌≡◌, refl, sym, true, List, [], ◌∷◌, none, some, arith, inl, inr, ◌⊎◌,
  pos, ◌+ℤ◌, ◌-ℤ◌, if◌then◌else◌, Bool-cases, ◌==◌, get_or, replicate, ap,
}
use file_storage_server.Run.{ok}
use file_storage_server.Text.{Text, str_eq, str_eq_iff}
use file_storage_server.Lis.{Lis, create, insert_t}
use file_storage_server.Lis.Seg.{Cell, Holds, Holds-Settled}
use file_storage_server.Lis.Insert.{create-Holds, insert_t-Holds, new_cell}
use file_storage_server.Lis.Search.{find, count}
use file_storage_server.Lis.Delete.{remove}
use file_storage_server.Hash.{Hash, djb2}
use file_storage_server.Hash.Rows.{total}
use file_storage_server.Hash.Table.{home, home-lt, lookup, IsTable, contain-lookup, getvalue-lookup}
use file_storage_server.File.{File, read_block}
use file_storage_server.Protcol
use file_storage_server.Protcol.{Request}
use file_storage_server.Server.State.{Server}
use file_storage_server.Server.Write.{serve_write}
use file_storage_server.Server.Invariant.{IsServer, view, Found, Rows}
use file_storage_server.Server.Evict.{leaving, staying, left_bytes}
use file_storage_server.Server.Expelled.{is_named}
use file_storage_server.Server.Stored.{written}
use file_storage_server.Server.Full.{Replaced}
use file_storage_server.Server.Full.Written.{full_events, overfull, serve_write_full}
use file_storage_server.Tests.Session.{conf, start, ask}
use file_storage_server.Tests.Lists.{key_a, cell_a, list_a}
use file_storage_server.Tests.Removals.{held_file}

abbrev pub key_b : Text
key_b = 98 ∷ []

abbrev cell_b : Cell ℕ
cell_b = new_cell (create {A = ℕ}) 20 key_b

pub list_b : (r : Lis ℕ) × (insert_t create 20 key_b ≡ ok r) × Holds r (cell_b ∷ [])
list_b = insert_t-Holds create [] 20 key_b create-Holds

abbrev pub two_rows : Rows
two_rows = (cell_a ∷ []) ∷ (cell_b ∷ []) ∷ []

abbrev two_buckets : Hash ℕ
two_buckets = record { size = 2; nelem = 2; buckets = some list_a.0 ∷ some list_b.0 ∷ [] }

-- client 5 has created the file 98, and written nothing to it
abbrev pub fresh_file : File
fresh_file = record { isopen = 1; path_name = key_b; cont = some []; dim = 0; fd = 5; lock = 0 }

abbrev pub two_files : Server
two_files = record start {
  table = two_buckets;
  fifo = list_a.0;
  files = λ p. if p == 10 then some held_file else (if p == 20 then some fresh_file else none);
  next_file = 21;
  actual_size = pos 3;
}

home_a : (k : Text) → str_eq key_a k ≡ true → home k 2 ≡ 0
unfolding home djb2
home_a k e = ap (λ k. home k 2) (sym ((str_eq_iff key_a k).0 e))

home_b : (k : Text) → str_eq key_b k ≡ true → home k 2 ≡ 1
unfolding home djb2
home_b k e = ap (λ k. home k 2) (sym ((str_eq_iff key_b k).0 e))

two_place :
    (k : Text) (i : ℕ)
    → (count k (get_or two_rows i []) ≤ 1) × (home k 2 ≢ i → count k (get_or two_rows i []) ≡ 0)
unfolding count
two_place k zero = (
  ground arith,
  λ far. elim (Bool-cases (str_eq key_a k)) [
    | inl same ↦ absurd (far (home_a k same))
    | inr other ↦ rw other refl
  ],
)
two_place k (suc zero) = (
  ground arith,
  λ far. elim (Bool-cases (str_eq key_b k)) [
    | inl same ↦ absurd (far (home_b k same))
    | inr other ↦ rw other refl
  ],
)
two_place k (suc (suc i)) = (omega arith, λ far. refl)

two_buckets-IsTable : IsTable two_buckets two_rows
unfolding total
two_buckets-IsTable = record {
  width = refl;
  nonempty = omega arith;
  wide = refl;
  buckets = (Holds-Settled list_a.2, (Holds-Settled list_b.2, tt));
  placed = two_place;
  counted = refl;
}

-- a key's row gives what the map has under it
two_keys_at :
    (k : Text) (p i : ℕ)
    → home k 2 ≡ i
    → lookup two_rows k ≡ some p
    → ((p ≡ 10) × (key_a ≡ k)) ⊎ ((p ≡ 20) × (key_b ≡ k))
unfolding lookup find
two_keys_at k p zero at e = elim (Bool-cases (str_eq key_a k)) [
  | inl same ↦ inl (ground (arith, e, at, same), (str_eq_iff key_a k).0 same)
  | inr other ↦ absurd (ground (arith, e, at, other))
]
two_keys_at k p (suc zero) at e = elim (Bool-cases (str_eq key_b k)) [
  | inl same ↦ inr (ground (arith, e, at, same), (str_eq_iff key_b k).0 same)
  | inr other ↦ absurd (ground (arith, e, at, other))
]
two_keys_at k p (suc (suc i)) at e =
    absurd (let lt = home-lt k 2 (omega arith) in omega (arith, lt, at))

two_keys :
    (k : Text) (p : ℕ)
    → lookup two_rows k ≡ some p
    → ((p ≡ 10) × (key_a ≡ k)) ⊎ ((p ≡ 20) × (key_b ≡ k))
two_keys k p e = two_keys_at k p (home k 2) refl e

pub two_files-IsServer : IsServer two_files two_rows
two_files-IsServer = record {
  table = two_buckets-IsTable;
  stored = λ k p e. elim (two_keys k p e) [
    | inl (at, same) ↦ (held_file, rw at refl, same)
    | inr (at, same) ↦ (fresh_file, rw at refl, same)
  ];
  below = λ k p e. elim (two_keys k p e) [
    | inl (at, same) ↦ omega (arith, at)
    | inr (at, same) ↦ omega (arith, at)
  ];
}

pub two_files-view : view two_files two_rows key_b ≡ some fresh_file
unfolding lookup home find str_eq djb2
two_files-view = refl

pub two_files-Found : Found two_files two_rows key_b 20 fresh_file
unfolding lookup home find str_eq djb2
two_files-Found = record {
  looked = refl;
  contained = contain-lookup two_buckets two_rows key_b two_buckets-IsTable;
  got = getvalue-lookup two_buckets two_rows key_b two_buckets-IsTable;
  live = refl;
  named = refl;
}

-- eight bytes for the file 98, with three in the file 97 and room for ten
abbrev pub eight : List ℕ
eight = replicate 8 7

abbrev pub large : Request
large = ask Protcol.write_file 5 0 key_b eight 8

large_payload : read_block large.contenuto 8 ≡ ok eight
unfolding read_block
large_payload = refl

abbrev pub room_made : Server
room_made = overfull two_files large 20 (written fresh_file eight 8)

abbrev pub Full : Type 0
Full =
    Replaced two_files two_rows key_b (written fresh_file eight 8) (cell_a ∷ []) ((key_b, 20) ∷ [])
      (pos 8) (full_events large (view room_made two_rows) (cell_a ∷ []) (pos 8))
      (serve_write conf large two_files)

serve_write_full_example : Full
unfolding leaving staying left_bytes ◌+ℤ◌ ◌-ℤ◌ is_named lookup home find str_eq djb2 remove
    read_block
serve_write_full_example =
    serve_write_full conf two_files two_rows large fresh_file eight two_files-IsServer
      two_files-view refl large_payload 20 two_files-Found (cell_a ∷ []) refl refl list_a.2
      ((held_file, refl), tt) refl (refl, (inl refl, tt))
      ((held_file, refl, (1 ∷ 2 ∷ 3 ∷ [], refl), refl), (refl, tt)) refl

-- the server behind it
pub full : Full
unfolding leaving staying left_bytes ◌+ℤ◌ ◌-ℤ◌ is_named lookup home find str_eq djb2 remove
    read_block
full =
    serve_write_full conf two_files two_rows large fresh_file eight two_files-IsServer
      two_files-view refl large_payload 20 two_files-Found (cell_a ∷ []) refl refl list_a.2
      ((held_file, refl), tt) refl (refl, (inl refl, tt))
      ((held_file, refl, (1 ∷ 2 ∷ 3 ∷ [], refl), refl), (refl, tt)) refl
