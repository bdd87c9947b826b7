-- ===== src/Client/Visit/Written.antt =====
-- What `visitaDir` writes: the files that the directory holds, as far as `nvisit` allows.
use file_storage_server.Prelude.{
  zero, suc, ◌+◌, ◌-◌, ◌≡◌, refl, sym, ap, ◌∙◌, fun_ext, Bool-cases, true, false, List, [], ◌∷◌,
  ◌++◌, Option, none, some, ℤ, pos, negsuc, ◌-ℤ◌, length, take, arith, inl, inr,
}
use file_storage_server.Run
use file_storage_server.Run.{Run, ok, bind_assoc}
use file_storage_server.Text.{Text}
use file_storage_server.Client.{Do, ◌>>◌, return, Calls, Options}
use file_storage_server.Client.Files.{write_f}
use file_storage_server.Client.Visit.{
  Entries, end, file, missing, shut, folder, entry_path, is_dot, fits_name, goes_on, then_visit,
  visit_entries, visita_dir,
}
use file_storage_server.Client.Visit.Listed.{
  listed, AllFit, chosen, left_over, chosen-append, left_over-append, one_less, one_more,
  listed_dot, listed_folder,
}

module _ {C : Type 0} (calls : Calls C) (o : Options) where
  abbrev pub write_all : List Text → Do C (Unit {0})
  write_all [] = return tt
  write_all (path ∷ paths) = write_f calls o path >> write_all paths

  same_after :
      {A B : Type 0} (m : Run A) (f g : A → Run B)
      → ((a : A) → f a ≡ g a)
      → Run.◌>>=◌ m f ≡ Run.◌>>=◌ m g
  same_after m f g h = ap (Run.◌>>=◌ m) (fun_ext h)

  write_all-append :
      (xs ys : List Text) (c : C)
      → write_all (xs ++ ys) c ≡ Run.◌>>=◌ (write_all xs c) (λ r. write_all ys r.1)
  write_all-append [] ys c = refl
  write_all-append (x ∷ xs) ys c =
      same_after (write_f calls o x c) _ _ (λ r. write_all-append xs ys r.1)
      ∙ sym (bind_assoc (write_f calls o x c) (λ r. write_all xs r.1) (λ r. write_all ys r.1))

  -- the files are written, and `nvisit` counted down
  abbrev pub writes : ℤ → List Text → C → Run (Option ℤ × C)
  writes n paths c =
      Run.◌>>=◌ (write_all (chosen n paths) c) (λ r. ok (some (left_over n paths), r.1))

  writes-append :
      (n : ℤ) (xs ys : List Text) (c : C)
      → writes n (xs ++ ys) c
        ≡ Run.◌>>=◌ (writes n xs c) (λ r. then_visit r.0 (λ m. writes m ys) r.1)
  writes-append n xs ys c =
      ap
        (λ (zs : List Text).
          Run.◌>>=◌ (write_all zs c) (λ r. ok (some (left_over n (xs ++ ys)), r.1)))
        (chosen-append n xs ys)
      ∙ ap
          (λ (m : ℤ).
            Run.◌>>=◌ (write_all (chosen n xs ++ chosen (left_over n xs) ys) c)
              (λ r. ok (some m, r.1)))
          (left_over-append n xs ys)
      ∙ ap (λ m. Run.◌>>=◌ m (λ r. ok (some (left_over (left_over n xs) ys), r.1)))
          (write_all-append (chosen n xs) (chosen (left_over n xs) ys) c)
      ∙ bind_assoc (write_all (chosen n xs) c) (λ r. write_all (chosen (left_over n xs) ys) r.1)
          (λ r. ok (some (left_over (left_over n xs) ys), r.1))
      ∙ sym (
          bind_assoc (write_all (chosen n xs) c) (λ r. ok (some (left_over n xs), r.1))
            (λ r. then_visit r.0 (λ m. writes m ys) r.1))

  writes_none : (n : ℤ) (c : C) → writes n [] c ≡ ok (some n, c)
  writes_none (pos zero) c = refl
  writes_none (pos (suc n)) c = let e : suc n - 0 ≡ suc n = omega arith in rw e refl
  writes_none (negsuc n) c = let e : n + 0 ≡ n = omega arith in rw e refl

  visit_end :
      (nomedir : Text) (n : ℤ) (c : C) → visit_entries calls o nomedir end n c ≡ writes n [] c
  unfolding visit_entries
  visit_end nomedir n c = sym (writes_none n c)

  no_visits :
      (nomedir : Text) (es : Entries) (c : C)
      → visit_entries calls o nomedir es (pos 0) c ≡ ok (some (pos 0), c)
  unfolding visit_entries
  no_visits nomedir end c = refl
  no_visits nomedir (file name es) c = refl
  no_visits nomedir (missing name es) c = refl
  no_visits nomedir (shut name es) c = refl
  no_visits nomedir (folder name below es) c = refl

  no_writes : (paths : List Text) (c : C) → writes (pos 0) paths c ≡ ok (some (pos 0), c)
  no_writes [] c = refl
  no_writes (path ∷ paths) c = let e : 0 - length (path ∷ paths) ≡ 0 = omega arith in rw e refl

  -- a number of visits that is not zero
  abbrev More : ℤ → Type 0
  More n = goes_on n ≡ true

  visit_file :
      (nomedir name : Text) (es : Entries) (n : ℤ) (c : C)
      → More n
      → fits_name nomedir name ≡ true
      → visit_entries calls o nomedir (file name es) n c
        ≡ Run.◌>>=◌
            (write_f calls o (entry_path nomedir name) c)
            (λ r. visit_entries calls o nomedir es (n -ℤ pos 1) r.1)
  unfolding visit_entries
  visit_file nomedir name es n c more fits = rw (more, fits) refl

  visit_missing :
      (nomedir name : Text) (es : Entries) (n : ℤ) (c : C)
      → More n
      → fits_name nomedir name ≡ true
      → visit_entries calls o nomedir (missing name es) n c ≡ ok (some n, c)
  unfolding visit_entries
  visit_missing nomedir name es n c more fits = rw (more, fits) refl

  visit_shut :
      (nomedir name : Text) (es : Entries) (n : ℤ) (c : C)
      → More n
      → fits_name nomedir name ≡ true
      → visit_entries calls o nomedir (shut name es) n c ≡ visit_entries calls o nomedir es n c
  unfolding visit_entries
  visit_shut nomedir name es n c more fits = rw (more, fits) refl

  visit_dot :
      (nomedir name : Text) (below es : Entries) (n : ℤ) (c : C)
      → More n
      → fits_name nomedir name ≡ true
      → is_dot (entry_path nomedir name) ≡ true
      → visit_entries calls o nomedir (folder name below es) n c
        ≡ visit_entries calls o nomedir es n c
  unfolding visit_entries
  visit_dot nomedir name below es n c more fits dot = rw (more, fits, dot) refl

  visit_folder :
      (nomedir name : Text) (below es : Entries) (n : ℤ) (c : C)
      → More n
      → fits_name nomedir name ≡ true
      → is_dot (entry_path nomedir name) ≡ false
      → visit_entries calls o nomedir (folder name below es) n c
        ≡ Run.◌>>=◌
            (visit_entries calls o (entry_path nomedir name) below n c)
            (λ r. then_visit r.0 (λ m. visit_entries calls o nomedir es m) r.1)
  unfolding visit_entries
  visit_folder nomedir name below es n c more fits dot = rw (more, fits, dot) refl

  -- one file more, and then the others
  writes-file :
      (path : Text) (paths : List Text) (n : ℤ) (c : C)
      → More n
      → writes n (path ∷ paths) c
        ≡ Run.◌>>=◌ (write_f calls o path c) (λ r. writes (n -ℤ pos 1) paths r.1)
  writes-file path paths (pos zero) c more = absurd (let bad : false ≡ true = more in cc)
  writes-file path paths (pos (suc n)) c more =
      let e : suc n - length (path ∷ paths) ≡ n - length paths = omega arith in
      rw (one_less n, e)
        (bind_assoc (write_f calls o path c) (λ r. write_all (take n paths) r.1)
          (λ r. ok (some (pos (n - length paths)), r.1)))
  writes-file path paths (negsuc n) c more =
      let e : n + length (path ∷ paths) ≡ suc n + length paths = omega arith in
      rw (one_more n, e)
        (bind_assoc (write_f calls o path c) (λ r. write_all paths r.1)
          (λ r. ok (some (negsuc (suc n + length paths)), r.1)))

  then_same :
      (u : Option ℤ) (f g : ℤ → Do C (Option ℤ)) (c : C)
      → ((m : ℤ) (d : C) → f m d ≡ g m d)
      → then_visit u f c ≡ then_visit u g c
  then_same none f g c h = refl
  then_same (some m) f g c h = h m c

  -- at the first visit of an entry, or with none left
  visit_cases :
      (nomedir : Text) (es : Entries) (n : ℤ) (c : C)
      → (More n → visit_entries calls o nomedir es n c ≡ writes n (listed nomedir es) c)
      → visit_entries calls o nomedir es n c ≡ writes n (listed nomedir es) c
  visit_cases nomedir es (pos zero) c h =
      no_visits nomedir es c ∙ sym (no_writes (listed nomedir es) c)
  visit_cases nomedir es (pos (suc n)) c h = h refl
  visit_cases nomedir es (negsuc n) c h = h refl

  visit_entries-writes :
      (nomedir : Text) (es : Entries) (n : ℤ) (c : C)
      → AllFit nomedir es
      → visit_entries calls o nomedir es n c ≡ writes n (listed nomedir es) c
  unfolding listed
  visit_entries-writes nomedir end n c fits = visit_end nomedir n c
  visit_entries-writes nomedir (file name es) n c fits =
      visit_cases nomedir (file name es) n c λ more.
        visit_file nomedir name es n c more fits.0
        ∙ same_after (write_f calls o (entry_path nomedir name) c) _ _
            (λ r. visit_entries-writes nomedir es (n -ℤ pos 1) r.1 fits.1)
        ∙ sym (writes-file (entry_path nomedir name) (listed nomedir es) n c more)
  visit_entries-writes nomedir (missing name es) n c fits =
      visit_cases nomedir (missing name es) n c
        λ more. visit_missing nomedir name es n c more fits.0 ∙ sym (writes_none n c)
  visit_entries-writes nomedir (shut name es) n c fits =
      visit_cases nomedir (shut name es) n c λ more.
        visit_shut nomedir name es n c more fits.0 ∙ visit_entries-writes nomedir es n c fits.1
  visit_entries-writes nomedir (folder name below es) n c fits =
      visit_cases nomedir (folder name below es) n c λ more.
        let path = entry_path nomedir name in
        let inside = visit_entries-writes path below n c fits.1.0 in
        let rest : (m : ℤ) (d : C)
            → visit_entries calls o nomedir es m d ≡ writes m (listed nomedir es) d =
          λ m d. visit_entries-writes nomedir es m d fits.1.1 in
        elim (Bool-cases (is_dot path)) [
          | inl dot ↦
              visit_dot nomedir name below es n c more fits.0 dot
              ∙ rest n c
              ∙ ap (λ (ps : List Text). writes n ps c) (sym (listed_dot nomedir name below es dot))
          | inr plain ↦
              visit_folder nomedir name below es n c more fits.0 plain
              ∙ ap
                  (λ m.
                    Run.◌>>=◌ m (λ r. then_visit r.0 (λ m. visit_entries calls o nomedir es m) r.1))
                  inside
              ∙ same_after (writes n (listed path below) c) _ _ (λ r.
                then_same r.0 (λ m. visit_entries calls o nomedir es m)
                  (λ m. writes m (listed nomedir es)) r.1 rest)
              ∙ sym (writes-append n (listed path below) (listed nomedir es) c)
              ∙ ap (λ (ps : List Text). writes n ps c)
                  (sym (listed_folder nomedir name below es plain))
        ]

  -- `visitaDir` of a directory in which all paths fit into the array does what writing the listed
  -- files one after the other does: the files of the directory and of those below it that it does
  -- not pass over, in the order of `readdir` up to a name without `stat`, as many of them as
  -- `nvisit` allows, all if it is negative; `nvisit` is less by their number.
  pub visita_dir-writes :
      (nomedir : Text) (es : Entries) (n : ℤ) (c : C)
      → AllFit nomedir es
      → visita_dir calls o nomedir (some es) n c ≡ writes n (listed nomedir es) c
  unfolding visita_dir
  visita_dir-writes nomedir es n c fits = visit_entries-writes nomedir es n c fits
