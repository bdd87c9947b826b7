-- ===== src/Server/Release.antt =====
-- `relaselock`: the walk over the buckets that takes off the locks of a client whose connection ends.
use file_storage_server.Prelude.{
  ℕ, zero, suc, ◌+◌, ◌<◌, ◌≡◌, refl, sym, ◌∙◌, ap, subst, Bool, false, ◌&&◌, ◌||◌, List, [], ◌∷◌,
  ◌++◌, Option, none, some, arith, update, update_self, update_ne, ◌==◌, if◌then◌else◌, Bool-cases,
  inl, inr, pos, length, replicate, append_assoc, append-nil, ltb,
}
use file_storage_server.Run
use file_storage_server.Run.{Run, ok}
use file_storage_server.Lis.{Lis}
use file_storage_server.Lis.Seg.{Cell, Seg, first_or}
use file_storage_server.Hash.Rows.{IsBucket, IsRows}
use file_storage_server.File.{File, unlock_file}
use file_storage_server.Server.State.{Server, Event, Act, return, log_line}
use file_storage_server.Server.Walk.{unlock_bucket, unlock_buckets}
use file_storage_server.Server.Invariant.{Rows}
use file_storage_server.Server.Evict.{AllLive}

-- a file once the locks of the client `fd` are off
abbrev pub released : ℕ → File → File
released fd f = if f.fd == fd && f.lock == 1 then record f { lock = 0 } else f

abbrev pub released? : ℕ → Option File → Option File
released? fd none = none
released? fd (some f) = some (released fd f)

released_twice : (fd : ℕ) (o : Option File) → released? fd (released? fd o) ≡ released? fd o
released_twice fd none = refl
released_twice fd (some f) = elim (Bool-cases (f.fd == fd && f.lock == 1)) [
  | inl e ↦ ground (arith, e)
  | inr e ↦ ground (arith, e)
]

-- whether a cell holds the pointer
abbrev pub among : ℕ → List (Cell ℕ) → Bool
among p [] = false
among p (c ∷ cs) = c.cont == p || among p cs

pub among-append : (p : ℕ) (xs ys : List (Cell ℕ)) → among p (xs ++ ys) ≡ (among p xs || among p ys)
among-append p [] ys = refl
among-append p (x ∷ xs) ys = rw (among-append p xs ys) (ground arith)

-- The files behind the cells are released, with a line in the log for some, and that is all.
pub record Releases (fd : ℕ) (cells : List (Cell ℕ)) (s after : Server) : Type 0 where
  pub files :
      (p : ℕ) → after.files p ≡ (if among p cells then released? fd (s.files p) else s.files p)
  pub lines : ℕ
  pub traced : after.trace ≡ s.trace ++ replicate lines (log_line "ULK" (pos 0))
  pub rest : after ≡ record s { files = after.files; trace = after.trace }

replicate-append : (m n : ℕ) (e : Event) → replicate m e ++ replicate n e ≡ replicate (m + n) e
replicate-append zero n e = ground arith
replicate-append (suc m) n e =
    let sum : suc (m + n) ≡ suc m + n = omega arith in
    ap (◌∷◌ e) (replicate-append m n e) ∙ ap (λ k. replicate k e) sum

Releases-append :
    (fd : ℕ) (xs ys : List (Cell ℕ)) (s t u : Server)
    → Releases fd xs s t
    → Releases fd ys t u
    → Releases fd (xs ++ ys) s u
Releases-append fd xs ys s t u a b = record {
  files = λ p.
      b.files p
      ∙ rw (a.files p, among-append p xs ys)
          (elim (Bool-cases (among p xs)) [
            | inl e ↦ elim (Bool-cases (among p ys)) [
              | inl e' ↦ rw (e, e') (released_twice fd (s.files p))
              | inr e' ↦ rw (e, e') refl
            ]
            | inr e ↦ rw e refl
          ]);
  lines = a.lines + b.lines;
  traced =
      b.traced
      ∙ ap (λ (x : List Event). x ++ replicate b.lines (log_line "ULK" (pos 0))) a.traced
      ∙ append_assoc s.trace (replicate a.lines (log_line "ULK" (pos 0)))
          (replicate b.lines (log_line "ULK" (pos 0)))
      ∙ ap (λ (x : List Event). s.trace ++ x)
          (replicate-append a.lines b.lines (log_line "ULK" (pos 0)));
  rest = b.rest ∙ ap (λ (x : Server). record x { files = u.files; trace = u.trace }) a.rest;
}

Releases-nil : (fd : ℕ) (s : Server) → Releases fd [] s s
Releases-nil fd s = record {
  files = λ p. refl;
  lines = 0;
  traced = sym (append-nil s.trace);
  rest = refl;
}

-- the server once the file behind `p` is released, or left
abbrev touched : ℕ → ℕ → File → Server → Server
touched fd p f s =
    if f.fd == fd && f.lock == 1
    then record s {
      files = update s.files p (some (unlock_file f));
      trace = s.trace ++ log_line "ULK" (pos 0) ∷ [];
    }
    else s

touched-Releases :
    (fd : ℕ) (c : Cell ℕ) (f : File) (s : Server)
    → s.files c.cont ≡ some f
    → Releases fd (c ∷ []) s (touched fd c.cont f s)
unfolding unlock_file
touched-Releases fd c f s live = elim (Bool-cases (f.fd == fd && f.lock == 1)) [
  | inl e ↦ rw e (record {
    files = λ p. ground (
      arith,
      live,
      e,
      update_self s.files c.cont (some (record f { lock = 0 })),
      update_ne s.files c.cont p (some (record f { lock = 0 })),
    );
    lines = 1;
    traced = refl;
    rest = refl;
  })
  | inr e ↦ rw e (record {
    files = λ p. ground (arith, live, e);
    lines = 0;
    traced = sym (append-nil s.trace);
    rest = refl;
  })
]

-- Live pointers stay live.
AllLive-Releases :
    (fd : ℕ) (cs ds : List (Cell ℕ)) (s t : Server)
    → Releases fd cs s t
    → AllLive s.files ds
    → AllLive t.files ds
AllLive-Releases fd cs [] s t r live = tt
AllLive-Releases fd cs (d ∷ ds) s t r live =
    let (f, at) = live.0 in
    (
      elim (Bool-cases (among d.cont cs)) [
        | inl e ↦ (released fd f, r.files d.cont ∙ rw (e, at))
        | inr e ↦ (f, r.files d.cont ∙ rw (e, at))
      ],
      AllLive-Releases fd cs ds s t r live.1,
    )

unlock_bucket-Releases :
    (fuel : ℕ) (l : Lis ℕ) (prev : Option ℕ) (cs : List (Cell ℕ)) (fd : ℕ) (s : Server)
    → length cs < fuel
    → Seg l.store prev cs none
    → AllLive s.files cs
    → (t : Server) × (unlock_bucket fuel l (first_or none cs) fd s ≡ ok (tt, t))
      × Releases fd cs s t
unfolding unlock_bucket
unlock_bucket-Releases zero l prev cs fd s lt seg live = absurd (omega arith)
unlock_bucket-Releases (suc fuel) l prev [] fd s lt seg live = (s, refl, Releases-nil fd s)
unlock_bucket-Releases (suc fuel) l prev (c ∷ cs) fd s lt seg live =
    let (f, at) = live.0 in
    let one = touched-Releases fd c f s at in
    let (t, run, r) =
      unlock_bucket-Releases fuel l (some c.addr) cs fd (touched fd c.cont f s) (omega arith) seg.1
        (AllLive-Releases fd (c ∷ []) cs s (touched fd c.cont f s) one live.1) in
    (t, ground (arith, seg.0, at, run), Releases-append fd (c ∷ []) cs s _ t one r)

-- the cells of all the rows
abbrev pub all_cells : Rows → List (Cell ℕ)
all_cells [] = []
all_cells (r ∷ rs) = r ++ all_cells rs

AllLive-split :
    (files : ℕ → Option File) (xs ys : List (Cell ℕ))
    → AllLive files (xs ++ ys)
    → AllLive files xs × AllLive files ys
AllLive-split files [] ys h = (tt, h)
AllLive-split files (x ∷ xs) ys h = let (a, b) = AllLive-split files xs ys h.1 in ((h.0, a), b)

-- the part of the loop that looks at one bucket
abbrev bucket_walk : Option (Lis ℕ) → ℕ → Act (Unit {0})
unfolding unlock_bucket
bucket_walk b fd = elim b [
  | none ↦ return tt
  | some l ↦ if ltb 0 l.length then unlock_bucket (l.length + 1) l l.header fd else return tt
]

-- one bucket, whether or not it was made
bucket-Releases :
    (b : Option (Lis ℕ)) (row : List (Cell ℕ)) (fd : ℕ) (s : Server)
    → IsBucket b row
    → AllLive s.files row
    → (t : Server) × (bucket_walk b fd s ≡ ok (tt, t)) × Releases fd row s t
unfolding bucket_walk
bucket-Releases none row fd s is live =
    (s, refl, subst (λ r. Releases fd r s s) (sym is) (Releases-nil fd s))
bucket-Releases (some l) [] fd s is live = (s, ground (arith, is.count), Releases-nil fd s)
bucket-Releases (some l) (c ∷ cs) fd s is live =
    let (t, run, r) =
      unlock_bucket-Releases (l.length + 1) l none (c ∷ cs) fd s (omega (arith, is.count)) is.linked
        live in
    (t, ground (arith, is.count, is.head, run), r)

pub unlock_buckets-Releases :
    (bs : List (Option (Lis ℕ))) (rows : Rows) (fd : ℕ) (s : Server)
    → length bs ≡ length rows
    → IsRows bs rows
    → AllLive s.files (all_cells rows)
    → (t : Server) × (unlock_buckets bs fd s ≡ ok (tt, t)) × Releases fd (all_cells rows) s t
unfolding unlock_buckets bucket_walk
unlock_buckets-Releases [] [] fd s same is live = (s, refl, Releases-nil fd s)
unlock_buckets-Releases [] (r ∷ rs) fd s same is live = absurd (omega arith)
unlock_buckets-Releases (b ∷ bs) [] fd s same is live = absurd (omega arith)
unlock_buckets-Releases (b ∷ bs) (r ∷ rs) fd s same is live =
    let (here, there) = AllLive-split s.files r (all_cells rs) live in
    let (t, run, x) = bucket-Releases b r fd s is.0 here in
    let (u, run', y) =
      unlock_buckets-Releases bs rs fd t (omega arith) is.1
        (AllLive-Releases fd r (all_cells rs) s t x there) in
    (
      u,
      ap (λ m. Run.◌>>=◌ m (λ x. unlock_buckets bs fd x.1)) run ∙ run',
      Releases-append fd r (all_cells rs) s t u x y,
    )
