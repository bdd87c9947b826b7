-- ===== src/Hash.antt =====
-- source/hash.c and header/hash.h: the chained hash table from path names to values, over the lists
-- of source/list.c. `buckets[i]` is NULL (`none`) until the first insertion into it.
-- The field `collision` is never read or written, and is left out.
pub mod Rows
pub mod Table
pub mod Change
pub mod Update
pub mod Removal
use file_storage_server.Prelude.{
  ℕ, zero, suc, ◌+◌, ◌-◌, ◌*◌, ◌%◌, ◌^◌, Bool, true, false, List, [], ◌∷◌, Option, none, some, ltb,
  ◌==◌, if◌then◌else◌, get_elem?, set, length, replicate,
}
use mathlib.Core.Option.{get_or}
use file_storage_server.Run.{Run, ok, fault, ◌>>=◌, deref}
use file_storage_server.Text.{Text}
use file_storage_server.Lis.{Lis, create, insert_h, search, update_node, delete, load}

-- `struct hash_t`
pub record Hash {ℓ} (A : Type ℓ) : Type ℓ where
  pub size : ℕ
  pub nelem : ℕ
  pub buckets : List (Option (Lis A))

-- a `char` (signed) converted to `unsigned long`
abbrev pub sign_extend : ℕ → ℕ
sign_extend c = if ltb c 128 then c else 2 ^ 64 + c - 256

-- the loop of `funchash`: `hash = ((hash << 5) + hash) + c` in 64 bits
unfoldable pub djb2 : ℕ → Text → ℕ
djb2 h [] = h
djb2 h (c ∷ key) = djb2 ((h * 2 ^ 5 % 2 ^ 64 + h + sign_extend c) % 2 ^ 64) key

-- a remainder by zero is a fault
unfoldable pub funchash : Text → ℕ → Run ℕ
unfolding djb2
funchash key zero = fault
funchash key (suc n) = ok (djb2 5381 key % suc n)

module _ {ℓ} {A : Type ℓ} where
  unfoldable pub h_create : ℕ → Hash A
  h_create size = record { size = size; nelem = 0; buckets = replicate size none }

  -- `(*hash)->buckets[pos]`
  unfoldable pub bucket : Hash A → ℕ → Run (Option (Lis A))
  bucket h pos = deref (get_elem? h.buckets pos)

  unfoldable pub hashins : Hash A → Text → A → Run (Hash A)
  unfolding bucket create
  hashins h key value = do
    k ← funchash key h.size
    b ← bucket h k
    l' ← insert_h (get_or b create) value key
    ok (record h { nelem = h.nelem + 1; buckets = set h.buckets k (some l') })

  unfoldable pub contain : Hash A → Text → Run Bool
  unfolding bucket
  contain h key = do
    pos ← funchash key h.size
    b ← bucket h pos
    elim b [
      | none ↦ ok false
      | some l ↦ search l key >>= λ f. ok (elim f [ none ↦ false | some a ↦ true ])
    ]

  unfoldable pub getvalue : Hash A → Text → Run (Option A)
  unfolding bucket
  getvalue h key = do
    pos ← funchash key h.size
    b ← bucket h pos
    elim b [
      | none ↦ ok none
      | some l ↦ search l key >>= λ f. elim f [
        | none ↦ ok none
        | some a ↦ load l (some a) >>= λ n. ok (some n.cont)
      ]
    ]

  -- `delete` and `UpdateNode` read their list's header, also when the bucket is NULL
  unfoldable pub h_delete : Hash A → Text → Run (Bool × Hash A)
  unfolding bucket
  h_delete h key = do
    pos ← funchash key h.size
    b ← bucket h pos
    l ← deref b
    (found, l') ← delete l key
    let h' = record h { buckets = set h.buckets pos (some l') }
    ok (if found then (true, record h' { nelem = h'.nelem - 1 }) else (false, h'))

  unfoldable pub h_update : Hash A → Text → A → Run (Bool × Hash A)
  unfolding bucket
  h_update h key newvalue = do
    pos ← funchash key h.size
    b ← bucket h pos
    l ← deref b
    (found, l') ← update_node l key newvalue
    ok (found, record h { buckets = set h.buckets pos (some l') })
