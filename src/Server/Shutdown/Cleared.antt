-- ===== src/Server/Shutdown/Cleared.antt =====
-- The end of a server in order, seen from the path names.
use file_storage_server.Prelude.{
  ℕ, zero, suc, ◌+◌, ◌≤◌, ◌≡◌, ◌≢◌, refl, sym, ◌∙◌, ap, subst, List, [], ◌∷◌, ◌++◌, Option, none,
  some, arith, length, get_or,
}
use native.Mathlib.Decide.{ℕ_discrete}
use file_storage_server.Run.{ok}
use file_storage_server.Text.{Text, str_eq_refl}
use file_storage_server.Lis.Seg.{Cell}
use file_storage_server.Lis.Search.{count, find-eq-none}
use file_storage_server.Hash.Table.{home, cell_at, value, lookup}
use file_storage_server.File.{File, IsWritten}
use file_storage_server.Server.State.{Server}
use file_storage_server.Server.Invariant.{Rows, IsServer}
use file_storage_server.Server.Release.{all_cells}
use file_storage_server.Server.Ended.{Own, Own-self, among-find, among-rows}
use file_storage_server.Server.Shutdown.{log_left, free_buckets}
use file_storage_server.Server.Shutdown.Freed.{
  Named, Unrepeated, keys, IsFreed, free_buckets-IsFreed, log_left-keys,
}

Named-append :
    (files : ℕ → Option File) (xs ys : List (Cell ℕ))
    → Named files xs
    → Named files ys
    → Named files (xs ++ ys)
Named-append files [] ys h k = k
Named-append files (x ∷ xs) ys h k = (h.0, Named-append files xs ys h.1 k)

Named-rows :
    (files : ℕ → Option File) (rows : Rows)
    → ((i : ℕ) → Named files (get_or rows i []))
    → Named files (all_cells rows)
Named-rows files [] named = tt
Named-rows files (r ∷ rs) named =
    Named-append files r (all_cells rs) (named 0) (Named-rows files rs (λ i. named (suc i)))

count-append : (k : Text) (xs ys : List (Cell ℕ)) → count k (xs ++ ys) ≡ count k xs + count k ys
unfolding count
count-append k [] ys = ground arith
count-append k (x ∷ xs) ys = let rest = count-append k xs ys in ground (arith, rest)

count-none :
    (k : Text) (rows : Rows)
    → ((i : ℕ) → count k (get_or rows i []) ≡ 0)
    → count k (all_cells rows) ≡ 0
unfolding count
count-none k [] h = refl
count-none k (r ∷ rs) h =
    let here = h 0 in
    let there = count-none k rs (λ i. h (suc i)) in
    count-append k r (all_cells rs) ∙ omega (arith, here, there)

-- A key that stands once at most in the row `at`, and in no other, stands once at most.
count-one :
    (k : Text) (rows : Rows) (at : ℕ)
    → ((i : ℕ) → count k (get_or rows i []) ≤ 1)
    → ((i : ℕ) → at ≢ i → count k (get_or rows i []) ≡ 0)
    → count k (all_cells rows) ≤ 1
unfolding count
count-one k [] at few h = omega arith
count-one k (r ∷ rs) zero few h =
    let here = few 0 in
    let there = count-none k rs (λ i. h (suc i) (omega arith)) in
    let whole = count-append k r (all_cells rs) in omega (arith, here, there, whole)
count-one k (r ∷ rs) (suc at) few h =
    let here = h 0 (omega arith) in
    let there =
      count-one k rs at (λ i. few (suc i)) (λ i ne. h (suc i) (λ e. ne (omega (arith, e)))) in
    let whole = count-append k r (all_cells rs) in omega (arith, here, there, whole)

count-Unrepeated : (cs : List (Cell ℕ)) → ((k : Text) → count k cs ≤ 1) → Unrepeated cs
unfolding count
count-Unrepeated [] few = tt
count-Unrepeated (c ∷ cs) few =
    (ground (arith, few c.key, str_eq_refl c.key), count-Unrepeated cs (λ k. ground (arith, few k)))

module _ (s : Server) (rows : Rows) (w : IsServer s rows)
    (written : (k : Text) (p : ℕ)
      → lookup rows k ≡ some p
      → (f : File) × (s.files p ≡ some f) × IsWritten f) where
  Own-Named : (i : ℕ) (cs : List (Cell ℕ)) → Own (get_or rows i []) cs → Named s.files cs
  unfolding lookup cell_at
  Own-Named i [] own = tt
  Own-Named i (c ∷ cs) own =
      let few = w.table.placed c.key i in
      let at : home c.key (length rows) ≡ i = elim (ℕ_discrete (home c.key (length rows)) i) [
        | yes e ↦ e
        | no n ↦ absurd (let lost = find-eq-none c.key (get_or rows i []) (few.1 n) in cc (own.0))
      ] in
      let looked : lookup rows c.key ≡ some c.cont = rw at (ap value own.0) in
      let (f, at, name) = w.stored c.key c.cont looked in
      let (g, at', given) = written c.key c.cont looked in
      let same : g ≡ f = ground (arith, at, at') in
      ((f, at, name, subst IsWritten same given), Own-Named i cs own.1)

  server-Named : Named s.files (all_cells rows)
  server-Named = Named-rows s.files rows (λ i.
      Own-Named i (get_or rows i []) (Own-self (get_or rows i []) (λ k. (w.table.placed k i).0)))

  server-Unrepeated : Unrepeated (all_cells rows)
  server-Unrepeated = count-Unrepeated (all_cells rows) (λ k.
      count-one k rows (home k (length rows)) (λ i. (w.table.placed k i).0)
        (λ i. (w.table.placed k i).1))

  -- The end of a server in order in which the contents of every file in the table were set: the
  -- names that go to the log are the keys of all the table's cells, in the table's order; and
  -- `freeStruct` goes through the table without a read of a freed file and without the free of a
  -- pointer that was never set, after which the files behind the table's cells are freed and no
  -- others, so that no path name's file is left.
  pub free_buckets-Cleared :
      (log_left s.table.buckets ≡ ok (keys (all_cells rows)))
      × ((files : ℕ → Option File) × (free_buckets s.table.buckets s.files ≡ ok files)
          × IsFreed (all_cells rows) s.files files
          × ((k : Text) (p : ℕ) → lookup rows k ≡ some p → files p ≡ none))
  unfolding lookup cell_at
  free_buckets-Cleared =
      let wide = w.table.wide ∙ sym w.table.width in
      let (files, run, freed) =
        free_buckets-IsFreed s.table.buckets rows s.files wide w.table.buckets server-Named
          server-Unrepeated in
      (
        log_left-keys s.table.buckets rows wide w.table.buckets,
        (
          files,
          run,
          freed,
          λ k p e.
              let stands =
                among-rows rows (home k (length rows)) p
                  (among-find (get_or rows (home k (length rows)) []) k p e) in
              freed p ∙ rw stands refl,
        ),
      )
