-- ===== src/Server/Shutdown/Freed.antt =====
-- The end of the server: which names are logged, and that every file is freed, once.
use file_storage_server.Prelude.{
  ℕ, zero, suc, ◌+◌, ◌<◌, ◌≡◌, ◌≢◌, refl, sym, ◌∙◌, ap, true, false, List, [], ◌∷◌, ◌++◌, Option,
  none, some, arith, if◌then◌else◌, update, update_self, update_ne, length,
}
use file_storage_server.Run.{ok}
use file_storage_server.Text.{Text, str_eq, str_eq_iff}
use file_storage_server.Lis.{Lis, free_node}
use file_storage_server.Lis.Seg.{Cell, Seg, Seg-frame, Distinct, first_or}
use file_storage_server.Lis.Search.{count}
use file_storage_server.Hash.Rows.{IsBucket, IsRows}
use file_storage_server.File.{File, IsWritten}
use file_storage_server.Server.Invariant.{Rows}
use file_storage_server.Server.Release.{among, among-append, all_cells}
use file_storage_server.Server.Shutdown.{log_bucket, log_left, free_bucket, free_buckets}

-- Each cell's pointer reaches a file with the cell's key for a name, whose contents were set.
abbrev pub Named : (ℕ → Option File) → List (Cell ℕ) → Type 0
Named files [] = Unit {0}
Named files (c ∷ cs) =
    ((f : File) × (files c.cont ≡ some f) × (f.path_name ≡ c.key) × IsWritten f) × Named files cs

-- no key stands twice
abbrev pub Unrepeated : List (Cell ℕ) → Type 0
Unrepeated [] = Unit {0}
Unrepeated (c ∷ cs) = (count c.key cs ≡ 0) × Unrepeated cs

abbrev pub keys : List (Cell ℕ) → List Text
keys [] = []
keys (c ∷ cs) = c.key ∷ keys cs

-- the heap once the files behind the cells are freed
abbrev pub IsFreed : List (Cell ℕ) → (ℕ → Option File) → (ℕ → Option File) → Type 0
IsFreed cells files files' = (p : ℕ) → files' p ≡ (if among p cells then none else files p)

Named-frame :
    (files : ℕ → Option File) (c : Cell ℕ) (f : File) (cs : List (Cell ℕ))
    → files c.cont ≡ some f
    → f.path_name ≡ c.key
    → count c.key cs ≡ 0
    → Named files cs
    → Named (update files c.cont none) cs
unfolding count
Named-frame files c f [] at name once h = tt
Named-frame files c f (d ∷ ds) at name once h =
    let (g, at', name', written) = h.0 in
    let other : str_eq d.key c.key ≡ false = ground (arith, once) in
    let apart : d.cont ≢ c.cont = λ e.
      let same : g ≡ f = let both : some g ≡ some f = sym at' ∙ ap files e ∙ at in cc in
      let key : d.key ≡ c.key = sym name' ∙ ap (λ (x : File). x.path_name) same ∙ name in
      let bad : str_eq d.key c.key ≡ true = (str_eq_iff d.key c.key).1 key in
      absurd (ground (arith, other, bad)) in
    (
      (g, update_ne files c.cont d.cont none apart ∙ at', name', written),
      Named-frame files c f ds at name (ground (arith, once, other)) h.1,
    )

IsFreed-cons :
    (c : Cell ℕ) (cs : List (Cell ℕ)) (files files' : ℕ → Option File)
    → IsFreed cs (update files c.cont none) files'
    → IsFreed (c ∷ cs) files files'
IsFreed-cons c cs files files' h p =
    h p ∙ ground (arith, update_self files c.cont none, update_ne files c.cont p none)

-- One bucket is freed, and the files behind the cells that come later are still there.
free_bucket-IsFreed :
    (fuel : ℕ) (l : Lis ℕ) (prev : Option ℕ) (cs more : List (Cell ℕ)) (files : ℕ → Option File)
    → length cs < fuel
    → Seg l.store prev cs none
    → Distinct cs
    → Named files (cs ++ more)
    → Unrepeated (cs ++ more)
    → (files' : ℕ → Option File) × (free_bucket fuel l (first_or none cs) files ≡ ok files')
      × IsFreed cs files files'
      × Named files' more
unfolding free_bucket free_node
free_bucket-IsFreed zero l prev cs more files lt seg far named once = absurd (omega arith)
free_bucket-IsFreed (suc fuel) l prev [] more files lt seg far named once =
    (files, refl, λ p. refl, named)
free_bucket-IsFreed (suc fuel) l prev (c ∷ cs) more files lt seg far named once =
    let (f, at, name, given) = named.0 in
    let written = given.1 in
    let (files', run, freed, later) =
      free_bucket-IsFreed fuel (free_node l c.addr) (some c.addr) cs more (update files c.cont none)
        (omega arith) (Seg-frame l.store c.addr none (some c.addr) cs none far.0 seg.1) far.1
        (Named-frame files c f (cs ++ more) at name once.0 named.1) once.1 in
    (files', ground (arith, seg.0, at, written, run), IsFreed-cons c cs files files' freed, later)

IsFreed-append :
    (xs ys : List (Cell ℕ)) (f g h : ℕ → Option File)
    → IsFreed xs f g
    → IsFreed ys g h
    → IsFreed (xs ++ ys) f h
IsFreed-append xs ys f g h a b p = ground (arith, a p, b p, among-append p xs ys)

Unrepeated-behind : (xs ys : List (Cell ℕ)) → Unrepeated (xs ++ ys) → Unrepeated ys
Unrepeated-behind [] ys h = h
Unrepeated-behind (x ∷ xs) ys h = Unrepeated-behind xs ys h.1

free_buckets-nil : (files : ℕ → Option File) → free_buckets [] files ≡ ok files
unfolding free_buckets
free_buckets-nil files = refl

free_buckets-none :
    (bs : List (Option (Lis ℕ))) (files : ℕ → Option File)
    → free_buckets (none ∷ bs) files ≡ free_buckets bs files
unfolding free_buckets
free_buckets-none bs files = refl

free_buckets-some :
    (l : Lis ℕ) (bs : List (Option (Lis ℕ))) (cs more : List (Cell ℕ)) (files : ℕ → Option File)
    → IsBucket (some l) cs
    → Named files (cs ++ more)
    → Unrepeated (cs ++ more)
    → (files' : ℕ → Option File) × (free_buckets (some l ∷ bs) files ≡ free_buckets bs files')
      × IsFreed cs files files'
      × Named files' more
unfolding free_buckets
free_buckets-some l bs [] more files is named once =
    (files, ground (arith, is.count), λ p. refl, named)
free_buckets-some l bs (c ∷ cs) more files is named once =
    let (files', run, freed, later) =
      free_bucket-IsFreed (l.length + 1) l none (c ∷ cs) more files (omega (arith, is.count))
        is.linked is.distinct named once in
    (files', ground (arith, is.count, is.head, run), freed, later)

pub free_buckets-IsFreed :
    (bs : List (Option (Lis ℕ))) (rows : Rows) (files : ℕ → Option File)
    → length bs ≡ length rows
    → IsRows bs rows
    → Named files (all_cells rows)
    → Unrepeated (all_cells rows)
    → (files' : ℕ → Option File) × (free_buckets bs files ≡ ok files')
      × IsFreed (all_cells rows) files files'
free_buckets-IsFreed [] [] files same is named once = (files, free_buckets-nil files, λ p. refl)
free_buckets-IsFreed [] (r ∷ rs) files same is named once = absurd (omega arith)
free_buckets-IsFreed (b ∷ bs) [] files same is named once = absurd (omega arith)
free_buckets-IsFreed (none ∷ bs) ([] ∷ rs) files same is named once =
    let (files', run, freed) = free_buckets-IsFreed bs rs files (omega arith) is.1 named once in
    (files', free_buckets-none bs files ∙ run, freed)
free_buckets-IsFreed (none ∷ bs) ((c ∷ cs) ∷ rs) files same is named once =
    absurd (let bad : c ∷ cs ≡ [] = is.0 in cc)
free_buckets-IsFreed (some l ∷ bs) (r ∷ rs) files same is named once =
    let (files₁, run, freed, later) =
      free_buckets-some l bs r (all_cells rs) files is.0 named once in
    let (files', run', freed') =
      free_buckets-IsFreed bs rs files₁ (omega arith) is.1 later
        (Unrepeated-behind r (all_cells rs) once) in
    (files', run ∙ run', IsFreed-append r (all_cells rs) files files₁ files' freed freed')

log_bucket-keys :
    (fuel : ℕ) (l : Lis ℕ) (prev : Option ℕ) (cs : List (Cell ℕ))
    → length cs < fuel
    → Seg l.store prev cs none
    → log_bucket fuel l (first_or none cs) ≡ ok (keys cs)
unfolding log_bucket
log_bucket-keys zero l prev cs lt seg = absurd (omega arith)
log_bucket-keys (suc fuel) l prev [] lt seg = refl
log_bucket-keys (suc fuel) l prev (c ∷ cs) lt seg =
    let run = log_bucket-keys fuel l (some c.addr) cs (omega arith) seg.1 in
    ground (arith, seg.0, run)

keys-append : (xs ys : List (Cell ℕ)) → keys (xs ++ ys) ≡ keys xs ++ keys ys
keys-append [] ys = refl
keys-append (x ∷ xs) ys = ap (◌∷◌ x.key) (keys-append xs ys)

pub log_left-keys :
    (bs : List (Option (Lis ℕ))) (rows : Rows)
    → length bs ≡ length rows
    → IsRows bs rows
    → log_left bs ≡ ok (keys (all_cells rows))
unfolding log_left
log_left-keys [] [] same is = refl
log_left-keys [] (r ∷ rs) same is = absurd (omega arith)
log_left-keys (b ∷ bs) [] same is = absurd (omega arith)
log_left-keys (none ∷ bs) ([] ∷ rs) same is = log_left-keys bs rs (omega arith) is.1
log_left-keys (none ∷ bs) ((c ∷ cs) ∷ rs) same is = absurd (let bad : c ∷ cs ≡ [] = is.0 in cc)
log_left-keys (some l ∷ bs) ([] ∷ rs) same is =
    let more = log_left-keys bs rs (omega arith) is.1 in ground (arith, is.0.count, more)
log_left-keys (some l ∷ bs) ((c ∷ cs) ∷ rs) same is =
    let more = log_left-keys bs rs (omega arith) is.1 in
    let here =
      log_bucket-keys (l.length + 1) l none (c ∷ cs) (omega (arith, is.0.count)) is.0.linked in
    ground (arith, is.0.count, is.0.head, here, more, keys-append (c ∷ cs) (all_cells rs))
