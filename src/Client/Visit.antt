-- ===== src/Client/Visit.antt =====
-- source/client.c: `visitaDir`, which writes the files of a directory and of those below it. What
-- `opendir`, `readdir` and `stat` give is a directory tree.
pub mod Listed
pub mod Written
use file_storage_server.Prelude.{
  ℕ, zero, suc, ◌+◌, Bool, true, false, ◌&&◌, List, [], ◌∷◌, ◌++◌, Option, none, some, ℤ, pos,
  negsuc, ltb, ◌==◌, ◌-ℤ◌, if◌then◌else◌, length,
}
use file_storage_server.Text.{Text}
use file_storage_server.Client.{Do, ◌>>=◌, ◌>>◌, return, Calls, Options}
use file_storage_server.Client.Files.{write_f}

-- The entries of a directory, in the order of `readdir`: a file, a name for which `stat` fails, a
-- directory that does not open, and a directory with its entries.
pub data Entries : Type 0 where
  end : Entries
  file : Text → Entries → Entries
  missing : Text → Entries → Entries
  shut : Text → Entries → Entries
  folder : Text → Entries → Entries → Entries

-- the path of an entry
abbrev pub entry_path : Text → Text → Text
entry_path nomedir name = nomedir ++ 47 ∷ name

-- `isdot`: whether the path ends in a dot
unfoldable pub is_dot : Text → Bool
is_dot [] = false
is_dot (c ∷ []) = c == 46
is_dot (c ∷ d ∷ cs) = is_dot (d ∷ cs)

-- whether the path fits into the array of `n` bytes
abbrev pub fits_name : Text → Text → Bool
fits_name nomedir name = ltb (length nomedir + length name + 1) 100

-- `nvisit != 0`
abbrev pub goes_on : ℤ → Bool
goes_on (pos zero) = false
goes_on (pos (suc n)) = true
goes_on (negsuc n) = true

-- what follows a part that may end the process
abbrev pub then_visit : {C : Type 0} → Option ℤ → (ℤ → Do C (Option ℤ)) → Do C (Option ℤ)
then_visit none k = return none
then_visit (some n) k = k n

module _ {C : Type 0} (calls : Calls C) (o : Options) where
  -- The loop over the entries of `nomedir`, with `nvisit`; none where the process exits. A directory
  -- whose path ends in a dot is passed over, and a name without `stat` ends the loop.
  unfoldable pub visit_entries : Text → Entries → ℤ → Do C (Option ℤ)
  unfolding is_dot write_f ◌-ℤ◌
  visit_entries nomedir end nvisit = return (some nvisit)
  visit_entries nomedir (file name es) nvisit =
      let rest = visit_entries nomedir es (nvisit -ℤ pos 1) in
      if goes_on nvisit
      then (if fits_name nomedir name
          then write_f calls o (entry_path nomedir name) >> rest
          else return none)
      else return (some nvisit)
  visit_entries nomedir (missing name es) nvisit =
      if goes_on nvisit
      then (if fits_name nomedir name then return (some nvisit) else return none)
      else return (some nvisit)
  visit_entries nomedir (shut name es) nvisit =
      let rest = visit_entries nomedir es nvisit in
      if goes_on nvisit
      then (if fits_name nomedir name then rest else return none)
      else return (some nvisit)
  visit_entries nomedir (folder name below es) nvisit =
      let rest : ℤ → Do C (Option ℤ) = λ n. visit_entries nomedir es n in
      let inside = visit_entries (entry_path nomedir name) below nvisit in
      if goes_on nvisit
      then (if fits_name nomedir name
          then (if is_dot (entry_path nomedir name)
              then rest nvisit
              else inside >>= λ u. then_visit u rest)
          else return none)
      else return (some nvisit)

  -- `visitaDir` on a name: none where `stat` fails or it is not a directory, and the process exits
  unfoldable pub visita_dir : Text → Option Entries → ℤ → Do C (Option ℤ)
  unfolding visit_entries
  visita_dir nomedir none nvisit = return none
  visita_dir nomedir (some es) nvisit = visit_entries nomedir es nvisit
