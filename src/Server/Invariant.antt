-- ===== src/Server/Invariant.antt =====
-- What holds of the server between requests: the table is in order, and each of its entries reaches
-- a live file of that name. Seen through it, the server is a map from path names to files.
use file_storage_server.Prelude.{
  ℕ, ◌<◌, ◌≡◌, refl, sym, ap, subst, ◌∙◌, ◌≢◌, inl, inr, List, Option, none, some, true, false,
  arith, update, update_self, update_ne, Bool-cases, if◌then◌else◌,
}
use native.Mathlib.Decide.{ℕ_discrete}
use file_storage_server.Run.{ok}
use file_storage_server.Text.{Text, str_eq, str_eq_iff}
use file_storage_server.Lis.Seg.{Cell}
use file_storage_server.Hash
use file_storage_server.Hash.Table.{lookup, IsTable, contain-lookup, getvalue-lookup, is_some}
use file_storage_server.File.{File}
use file_storage_server.Server.State.{Server}

abbrev pub Rows : Type 0
Rows = List (List (Cell ℕ))

abbrev pub at_pointer : (ℕ → Option File) → Option ℕ → Option File
at_pointer files none = none
at_pointer files (some p) = files p

-- the file of a path name
abbrev pub view : Server → Rows → Text → Option File
view s rows k = at_pointer s.files (lookup rows k)

pub record IsServer (s : Server) (rows : Rows) : Type 0 where
  pub table : IsTable s.table rows
  pub stored :
      (k : Text) (p : ℕ)
      → lookup rows k ≡ some p
      → (f : File) × (s.files p ≡ some f) × (f.path_name ≡ k)
  pub below : (k : Text) (p : ℕ) → lookup rows k ≡ some p → p < s.next_file

-- the file that a request finds
pub record Found (s : Server) (rows : Rows) (k : Text) (p : ℕ) (f : File) : Type 0 where
  pub looked : lookup rows k ≡ some p
  pub contained : Hash.contain s.table k ≡ ok true
  pub got : Hash.getvalue s.table k ≡ ok (some p)
  pub live : s.files p ≡ some f
  pub named : f.path_name ≡ k

pub found :
    (s : Server) (rows : Rows) (k : Text) (f : File)
    → IsServer s rows
    → view s rows k ≡ some f
    → (p : ℕ) × Found s rows k p f
found s rows k f w h = go (lookup rows k) refl
  where
    go : (o : Option ℕ) → lookup rows k ≡ o → (p : ℕ) × Found s rows k p f
    go none e = absurd (
        let bad : at_pointer s.files none ≡ some f =
          subst (λ o. at_pointer s.files o ≡ some f) e h in
        cc)
    go (some p) e =
        let live : s.files p ≡ some f = subst (λ o. at_pointer s.files o ≡ some f) e h in
        let (g, at, named) = w.stored k p e in
        (
          p,
          record {
            looked = e;
            contained = contain-lookup s.table rows k w.table ∙ ap (λ o. ok (is_some o)) e;
            got = getvalue-lookup s.table rows k w.table ∙ ap ok e;
            live = live;
            named =
                let same : g ≡ f = ground (arith, at, live) in
                subst (λ x. x.path_name ≡ k) same named;
          },
        )

-- A request for a path name that has no file is told so by `contain`.
pub missing :
    (s : Server) (rows : Rows) (k : Text)
    → IsServer s rows
    → view s rows k ≡ none
    → (lookup rows k ≡ none) × (Hash.contain s.table k ≡ ok false)
missing s rows k w h = go (lookup rows k) refl
  where
    go :
        (o : Option ℕ)
        → lookup rows k ≡ o
        → (lookup rows k ≡ none) × (Hash.contain s.table k ≡ ok false)
    go none e = (e, contain-lookup s.table rows k w.table ∙ ap (λ o. ok (is_some o)) e)
    go (some p) e =
        let (g, at, named) = w.stored k p e in
        absurd (let dead : s.files p ≡ none = subst (λ o. at_pointer s.files o ≡ none) e h in cc)

-- Two path names with one file are one path name.
pub same_pointer :
    {s : Server} {rows : Rows} (w : IsServer s rows) (k q : Text) (p : ℕ)
    → lookup rows k ≡ some p
    → lookup rows q ≡ some p
    → q ≡ k
same_pointer w k q p h e =
    let (f, at, named) = w.stored k p h in
    let (g, at', named') = w.stored q p e in
    let same : f ≡ g = ground (arith, at, at') in
    sym named' ∙ sym (ap (λ (x : File). x.path_name) same) ∙ named

-- The server with another file of the same name behind the pointer that a request found.
abbrev pub with_file : Server → ℕ → File → Server
with_file s p f = record s { files = update s.files p (some f) }

pub with_file-IsServer :
    (s : Server) (rows : Rows) (k : Text) (p : ℕ) (f f' : File)
    → IsServer s rows
    → Found s rows k p f
    → f'.path_name ≡ f.path_name
    → IsServer (with_file s p f') rows
with_file-IsServer s rows k p f f' w o same = record {
  table = w.table;
  stored = λ q p' e. elim (ℕ_discrete p' p) [
    | yes at ↦ (
      f',
      subst (λ x. update s.files p (some f') x ≡ some f') (sym at)
          (update_self s.files p (some f')),
      same ∙ o.named ∙ sym (same_pointer w k q p o.looked (e ∙ ap some at)),
    )
    | no far ↦
        let (g, live, named) = w.stored q p' e in
        (g, update_ne s.files p p' (some f') far ∙ live, named)
  ];
  below = w.below;
}

pub with_file-view :
    (s : Server) (rows : Rows) (k q : Text) (p : ℕ) (f f' : File)
    → IsServer s rows
    → Found s rows k p f
    → view (with_file s p f') rows q ≡ (if str_eq q k then some f' else view s rows q)
with_file-view s rows k q p f f' w o = go (lookup rows q) refl
  where
    go :
        (l : Option ℕ)
        → lookup rows q ≡ l
        → at_pointer (update s.files p (some f')) (lookup rows q)
          ≡ (if str_eq q k then some f' else at_pointer s.files (lookup rows q))
    go none e = rw e (elim (Bool-cases (str_eq q k)) [
      | inl same ↦ absurd (
          let l : lookup rows k ≡ none =
            subst (λ x. lookup rows x ≡ none) ((str_eq_iff q k).0 same) e in
          cc (o.looked))
      | inr other ↦ rw other
    ])
    go (some p') e = rw e (elim (Bool-cases (str_eq q k)) [
      | inl same ↦
          let at : lookup rows k ≡ some p' =
            subst (λ x. lookup rows x ≡ some p') ((str_eq_iff q k).0 same) e in
          let here : p' ≡ p = ground (arith, at, o.looked) in
          rw (same, here, update_self s.files p (some f'))
      | inr other ↦
          let far : p' ≢ p = λ at.
            absurd (
              let e' = (str_eq_iff q k).1 (same_pointer w k q p o.looked (e ∙ ap some at)) in cc) in
          rw (other, update_ne s.files p p' (some f') far)
    ])
