-- ===== src/Server/Expelled/Rounds.antt =====
-- The second loop of `Handlercapacity`, one round after the other.
use file_storage_server.Prelude.{
  [], ℕ, ◌≡◌, refl, sym, ◌∙◌, ap, subst, true, false, Bool, List, ◌∷◌, ◌++◌, Option, none, some,
  arith, length, append_assoc, append-nil, if◌then◌else◌,
}
use file_storage_server.Run.{ok}
use file_storage_server.Text.{Text, str_eq, str_eq_symm}
use file_storage_server.Lis.{Lis}
use file_storage_server.Lis.Seg.{Cell, Holds}
use file_storage_server.Hash.Table.{lookup}
use file_storage_server.Hash.Removal.{dropped}
use file_storage_server.File.{File, IsWritten, read_block}
use file_storage_server.Server.State.{Server, Event}
use file_storage_server.Server.Capacity.{send_out}
use file_storage_server.Server.Invariant.{Rows, at_pointer, view, IsServer}
use file_storage_server.Server.Evict.{items}
use file_storage_server.Server.Removed.{shrunk-IsServer, shrunk-view}
use file_storage_server.Server.Sent.{contents}
use file_storage_server.Server.Expelled.{
  Item, is_named, CanLeave, AreLegible, expel_one, expel_events, Expelled, found_at, one_less,
  send_out_round,
}

-- What a name that is none of them changes is nothing to them.
module _ (m m' : Text → Option File) (k : Text)
    (changed : (q : Text) → m' q ≡ (if str_eq q k then none else m q)) where
  apart :
      (x : Item) (xs : List Item)
      → is_named k (x ∷ xs) ≡ false
      → (m' x.0 ≡ m x.0) × (is_named k xs ≡ false)
  unfolding is_named
  apart x xs far =
      let other : str_eq k x.0 ≡ false = ground (arith, far) in
      let other' : str_eq x.0 k ≡ false = str_eq_symm x.0 k ∙ other in
      (changed x.0 ∙ rw other' refl, ground (arith, far, other))

  AreLegible-apart : (xs : List Item) → is_named k xs ≡ false → AreLegible m xs → AreLegible m' xs
  AreLegible-apart [] far h = tt
  AreLegible-apart (x ∷ xs) far ((f, at, written, readable), (once, h)) =
      let (same, far') = apart x xs far in
      ((f, same ∙ at, written, readable), (once, AreLegible-apart xs far' h))

  expel_events-apart :
      (fd : ℕ) (xs : List Item)
      → is_named k xs ≡ false
      → expel_events fd m' xs ≡ expel_events fd m xs
  expel_events-apart fd [] far = refl
  expel_events-apart fd (x ∷ xs) far =
      let (same, far') = apart x xs far in
      ap (λ (f : Option File). expel_one fd f ++ expel_events fd m' xs) same
      ∙ ap (λ (es : List Event). expel_one fd (m x.0) ++ es) (expel_events-apart fd xs far')

-- gone with the first one, or with the others
gone_twice :
    {A : Type 0} (a b : Bool) (x y : A)
    → (if b then x else (if a then x else y)) ≡ (if (if a then true else b) then x else y)
gone_twice false b x y = refl
gone_twice true false x y = refl
gone_twice true true x y = refl

pub send_out-Expelled :
    (fd : ℕ) (cells : List (Cell ℕ)) (l : Lis ℕ) (s : Server) (rows : Rows)
    → Holds l cells
    → IsServer s rows
    → CanLeave rows (items cells)
    → AreLegible (view s rows) (items cells)
    → Expelled s rows
        (items cells)
        (expel_events fd (view s rows) (items cells))
        (send_out (length cells) fd l s)
unfolding send_out is_named
send_out-Expelled fd [] l s rows h w leave legible = record {
  after = s;
  runs = refl;
  sound = w;
  reads = λ q. refl;
  looks = λ q. refl;
  nelem = omega arith;
  traced = sym (append-nil s.trace);
  fifo = refl;
  queueric = refl;
  actual_size = refl;
}
send_out-Expelled fd (c ∷ cs) l s rows h w (looked, (keep, leave))
      ((g, seen, written', readable'), (once, legible)) =
    let (f, o) = found_at s rows c.key c.cont w looked in
    let seen' : view s rows c.key ≡ some f = ap (at_pointer s.files) looked ∙ o.live in
    let same : g ≡ f = ground (arith, seen, seen') in
    let written : IsWritten f = subst IsWritten same written' in
    let readable =
      subst (λ (x : File). read_block x.cont x.dim ≡ ok (contents x.cont x.dim)) same readable' in
    let (rest, table, u, run, holds, n) =
      send_out_round fd l c cs s rows f h w o keep written readable (length cs) in
    let rows' = dropped rows c.key in
    let s' = one_less fd l c cs s rows f h w o keep written readable table u in
    let sound = shrunk-IsServer s rows c.key c.cont f w o table rows' u in
    let w' : IsServer s' rows' = record {
      table = sound.table;
      stored = sound.stored;
      below = sound.below;
    } in
    let m' : Text → Option File = view s' rows' in
    let changed : (q : Text) → m' q ≡ (if str_eq q c.key then none else view s rows q) =
      shrunk-view s rows c.key c.cont f w o table rows' u in
    let x =
      send_out-Expelled fd cs rest s' rows' holds w' leave
        (AreLegible-apart (view s rows) m' c.key changed (items cs) once legible) in
    let es = expel_events fd (view s rows) (items cs) in
    record {
      after = x.after;
      runs = run ∙ x.runs;
      sound = x.sound;
      reads = λ q.
          x.reads q
          ∙ ap (λ (v : Option File). if is_named q (items cs) then none else v) (changed q)
          ∙ gone_twice (str_eq q c.key) (is_named q (items cs)) none (view s rows q);
      looks = λ q.
          x.looks q
          ∙ ap (λ (v : Option ℕ). if is_named q (items cs) then none else v) (u.reads q)
          ∙ gone_twice (str_eq q c.key) (is_named q (items cs)) none (lookup rows q);
      nelem = let k = x.nelem in omega (arith, k, n);
      traced =
          x.traced
          ∙ ap (λ (es : List Event). (s.trace ++ expel_one fd (some f)) ++ es)
              (expel_events-apart (view s rows) m' c.key changed fd (items cs) once)
          ∙ append_assoc s.trace (expel_one fd (some f)) es
          ∙ ap (λ (v : Option File). s.trace ++ (expel_one fd v ++ es)) (sym seen');
      fifo = x.fifo;
      queueric = x.queueric;
      actual_size = x.actual_size;
    }
