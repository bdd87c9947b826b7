-- ===== src/Client/Visit/Listed.antt =====
-- The files that a directory holds, and those that `nvisit` allows.
use file_storage_server.Prelude.{
  ℕ, zero, suc, ◌+◌, ◌-◌, ◌≡◌, refl, ap, true, false, List, [], ◌∷◌, ◌++◌, ℤ, pos, negsuc, ◌-ℤ◌,
  if◌then◌else◌, length, length-append, take, arith,
}
use file_storage_server.Text.{Text}
use file_storage_server.Client.Visit.{
  Entries, end, file, missing, shut, folder, entry_path, is_dot, fits_name,
}

-- the files of a directory and of those below it, in the order of `readdir`, up to a name without `stat`
unfoldable pub listed : Text → Entries → List Text
unfolding is_dot
listed nomedir end = []
listed nomedir (file name es) = entry_path nomedir name ∷ listed nomedir es
listed nomedir (missing name es) = []
listed nomedir (shut name es) = listed nomedir es
listed nomedir (folder name below es) =
    if is_dot (entry_path nomedir name)
    then listed nomedir es
    else listed (entry_path nomedir name) below ++ listed nomedir es

-- All paths fit into the array.
abbrev pub AllFit : Text → Entries → Type 0
AllFit nomedir end = Unit {0}
AllFit nomedir (file name es) = (fits_name nomedir name ≡ true) × AllFit nomedir es
AllFit nomedir (missing name es) = (fits_name nomedir name ≡ true) × AllFit nomedir es
AllFit nomedir (shut name es) = (fits_name nomedir name ≡ true) × AllFit nomedir es
AllFit nomedir (folder name below es) =
    (fits_name nomedir name ≡ true) × (AllFit (entry_path nomedir name) below × AllFit nomedir es)

-- those of the files that `nvisit` allows, and what is left of it
abbrev pub chosen : ℤ → List Text → List Text
chosen (pos n) paths = take n paths
chosen (negsuc n) paths = paths

abbrev pub left_over : ℤ → List Text → ℤ
left_over (pos n) paths = pos (n - length paths)
left_over (negsuc n) paths = negsuc (n + length paths)

pub listed_dot :
    (nomedir name : Text) (below es : Entries)
    → is_dot (entry_path nomedir name) ≡ true
    → listed nomedir (folder name below es) ≡ listed nomedir es
unfolding listed
listed_dot nomedir name below es e = rw e refl

pub listed_folder :
    (nomedir name : Text) (below es : Entries)
    → is_dot (entry_path nomedir name) ≡ false
    → listed nomedir (folder name below es)
      ≡ listed (entry_path nomedir name) below ++ listed nomedir es
unfolding listed
listed_folder nomedir name below es e = rw e refl

pub take-split :
    (n : ℕ) (xs ys : List Text) → take n (xs ++ ys) ≡ take n xs ++ take (n - length xs) ys
take-split zero [] ys = refl
take-split zero (x ∷ xs) ys = let e : 0 - length (x ∷ xs) ≡ 0 = omega arith in rw e refl
take-split (suc n) [] ys = let e : suc n - 0 ≡ suc n = omega arith in rw e refl
take-split (suc n) (x ∷ xs) ys =
    let e : suc n - length (x ∷ xs) ≡ n - length xs = omega arith in
    rw e (ap (◌∷◌ x) (take-split n xs ys))

pub chosen-append :
    (n : ℤ) (xs ys : List Text) → chosen n (xs ++ ys) ≡ chosen n xs ++ chosen (left_over n xs) ys
chosen-append (pos n) xs ys = take-split n xs ys
chosen-append (negsuc n) xs ys = refl

pub left_over-append :
    (n : ℤ) (xs ys : List Text) → left_over n (xs ++ ys) ≡ left_over (left_over n xs) ys
left_over-append (pos n) xs ys = ap pos (let e = length-append xs ys in omega (arith, e))
left_over-append (negsuc n) xs ys = ap negsuc (let e = length-append xs ys in omega (arith, e))

pub one_less : (n : ℕ) → pos (suc n) -ℤ pos 1 ≡ pos n
unfolding ◌-ℤ◌
one_less n = ground arith

pub one_more : (n : ℕ) → negsuc n -ℤ pos 1 ≡ negsuc (suc n)
unfolding ◌-ℤ◌
one_more n = ground arith
