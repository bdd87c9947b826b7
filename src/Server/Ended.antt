-- ===== src/Server/Ended.antt =====
-- The end of a connection at a server in order: which locks are off afterwards.
use file_storage_server.Prelude.{
  ℕ, zero, suc, ◌≤◌, ◌<◌, ◌≡◌, refl, sym, ◌∙◌, ap, subst, true, ◌&&◌, List, [], ◌∷◌, ◌++◌, Option,
  none, some, arith, ◌==◌, Bool-cases, inl, inr, get_or, length,
}
use native.Mathlib.Decide.{ℕ_discrete}
use file_storage_server.Run.{Run, ok}
use file_storage_server.Text.{Text, str_eq_refl}
use file_storage_server.Lis.Seg.{Cell}
use file_storage_server.Lis.Search.{find, count, find-eq-none}
use file_storage_server.Hash.Table.{home, cell_at, value, lookup, IsTable}
use file_storage_server.File.{File}
use file_storage_server.Server.State.{Server}
use file_storage_server.Server.Walk.{relaselock}
use file_storage_server.Server.Invariant.{Rows, at_pointer, view, IsServer}
use file_storage_server.Server.Evict.{AllLive}
use file_storage_server.Server.Release.{
  released, released?, among, among-append, all_cells, Releases, unlock_buckets-Releases,
}

-- each of the cells is the one that its key finds in the row
abbrev pub Own : List (Cell ℕ) → List (Cell ℕ) → Type 0
Own row [] = Unit {0}
Own row (c ∷ cs) = (find c.key row ≡ some c) × Own row cs

Own-cons :
    (c : Cell ℕ) (row ds : List (Cell ℕ))
    → ((k : Text) → count k (c ∷ row) ≤ 1)
    → Own row ds
    → Own (c ∷ row) ds
unfolding find count
Own-cons c row [] few own = tt
Own-cons c row (d ∷ ds) few own =
    (ground (arith, own.0, few d.key, find-eq-none d.key row), Own-cons c row ds few own.1)

pub Own-self : (row : List (Cell ℕ)) → ((k : Text) → count k row ≤ 1) → Own row row
unfolding find count
Own-self [] few = tt
Own-self (c ∷ cs) few =
    (rw (str_eq_refl c.key) refl, Own-cons c cs cs few (Own-self cs (λ k. ground (arith, few k))))

module _ (s : Server) (rows : Rows) (w : IsServer s rows) where
  Own-AllLive : (i : ℕ) (cs : List (Cell ℕ)) → Own (get_or rows i []) cs → AllLive s.files cs
  unfolding lookup cell_at
  Own-AllLive i [] own = tt
  Own-AllLive i (c ∷ cs) own =
      let few = w.table.placed c.key i in
      let at : home c.key (length rows) ≡ i = elim (ℕ_discrete (home c.key (length rows)) i) [
        | yes e ↦ e
        | no n ↦ absurd (let lost = find-eq-none c.key (get_or rows i []) (few.1 n) in cc (own.0))
      ] in
      let looked : lookup rows c.key ≡ some c.cont = rw at (ap value own.0) in
      let (f, live, name) = w.stored c.key c.cont looked in ((f, live), Own-AllLive i cs own.1)

  row-AllLive : (i : ℕ) → AllLive s.files (get_or rows i [])
  row-AllLive i =
      Own-AllLive i (get_or rows i []) (Own-self (get_or rows i []) (λ k. (w.table.placed k i).0))

AllLive-append :
    (files : ℕ → Option File) (xs ys : List (Cell ℕ))
    → AllLive files xs
    → AllLive files ys
    → AllLive files (xs ++ ys)
AllLive-append files [] ys h k = k
AllLive-append files (x ∷ xs) ys h k = (h.0, AllLive-append files xs ys h.1 k)

AllLive-rows :
    (files : ℕ → Option File) (rows : Rows)
    → ((i : ℕ) → AllLive files (get_or rows i []))
    → AllLive files (all_cells rows)
AllLive-rows files [] live = tt
AllLive-rows files (r ∷ rs) live =
    AllLive-append files r (all_cells rs) (live 0) (AllLive-rows files rs (λ i. live (suc i)))

pub among-find :
    (row : List (Cell ℕ)) (k : Text) (p : ℕ) → value (find k row) ≡ some p → among p row ≡ true
unfolding find
among-find [] k p e = absurd (cc)
among-find (c ∷ cs) k p e = ground (arith, among-find cs k p)

pub among-rows :
    (rows : Rows) (i p : ℕ) → among p (get_or rows i []) ≡ true → among p (all_cells rows) ≡ true
among-rows [] i p e = absurd (cc)
among-rows (r ∷ rs) zero p e = rw (among-append p r (all_cells rs), e) refl
among-rows (r ∷ rs) (suc i) p e =
    rw (among-append p r (all_cells rs)) (ground (arith, among-rows rs i p e))

-- The locks of the client `fd` are off, and the log may have lines more; no other file and nothing else
-- of the server has changed.
pub record Ended (fd : ℕ) (s : Server) (rows : Rows) (result : Run (Unit {0} × Server))
    : Type 0 where
  pub after : Server
  pub runs : result ≡ ok (tt, after)
  pub sound : IsServer after rows
  pub reads : (q : Text) → view after rows q ≡ released? fd (view s rows q)
  pub walked : Releases fd (all_cells rows) s after

released-path_name : (fd : ℕ) (f : File) → (released fd f).path_name ≡ f.path_name
released-path_name fd f = elim (Bool-cases (f.fd == fd && f.lock == 1)) [
  | inl e ↦ rw e refl
  | inr e ↦ rw e refl
]

at_pointer-released :
    (fd : ℕ) (old new : ℕ → Option File) (o : Option ℕ)
    → ((p : ℕ) → o ≡ some p → new p ≡ released? fd (old p))
    → at_pointer new o ≡ released? fd (at_pointer old o)
at_pointer-released fd old new none h = refl
at_pointer-released fd old new (some p) h = h p refl

-- `relaselock` at a server in order ends, and leaves a server in order in which, for every path
-- name, the file is as before but that it is no longer locked if the client held its lock; only
-- files and the trace change, the trace by lines ULK.
pub relaselock-Ended :
    (fd : ℕ) (s : Server) (rows : Rows) → IsServer s rows → Ended fd s rows (relaselock fd s)
unfolding relaselock lookup cell_at
relaselock-Ended fd s rows w =
    let live = AllLive-rows s.files rows (row-AllLive s rows w) in
    let (t, run, r) =
      unlock_buckets-Releases s.table.buckets rows fd s (w.table.wide ∙ sym w.table.width)
        w.table.buckets live in
    let same : (q : Text) (p : ℕ) → lookup rows q ≡ some p → t.files p ≡ released? fd (s.files p) =
      λ q p e. r.files p ∙ rw (among-rows rows (home q (length rows)) p (among-find _ q p e)) in
    record {
      after = t;
      runs = run;
      sound = record {
        table = subst (λ h. IsTable h rows) (sym (ap (λ (x : Server). x.table) r.rest)) w.table;
        stored = λ q p e.
            let (f, at, name) = w.stored q p e in
            (released fd f, same q p e ∙ ap (released? fd) at, released-path_name fd f ∙ name);
        below = λ q p e.
            subst (λ n. p < n) (sym (ap (λ (x : Server). x.next_file) r.rest)) (w.below q p e);
      };
      reads = λ q. at_pointer-released fd s.files t.files (lookup rows q) (same q);
      walked = r;
    }
