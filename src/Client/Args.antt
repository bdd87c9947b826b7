-- ===== src/Client/Args.antt =====
-- source/client.c: `controlFirstStr`, which looks at the arguments before `getopt` does. `strtol` is a
-- parameter.
use file_storage_server.Prelude.{
  true, not, ◌&&◌, List, [], ◌∷◌, Option, none, some, ℤ, if◌then◌else◌,
}
use file_storage_server.Run.{Run, ok, fault, ◌>>=◌}
use file_storage_server.Text.{Text, str_eq}
use file_storage_server.Client.{Options, no_options}

-- -f, -p, -h, -d, -D, -W, -w, -r, -R and -t
abbrev pub arg_f : Text
arg_f = 45 ∷ 102 ∷ []

abbrev pub arg_p : Text
arg_p = 45 ∷ 112 ∷ []

abbrev pub arg_h : Text
arg_h = 45 ∷ 104 ∷ []

abbrev pub arg_download : Text
arg_download = 45 ∷ 100 ∷ []

abbrev pub arg_backup : Text
arg_backup = 45 ∷ 68 ∷ []

abbrev pub arg_big_w : Text
arg_big_w = 45 ∷ 87 ∷ []

abbrev pub arg_w : Text
arg_w = 45 ∷ 119 ∷ []

abbrev pub arg_r : Text
arg_r = 45 ∷ 114 ∷ []

abbrev pub arg_big_r : Text
arg_big_r = 45 ∷ 82 ∷ []

abbrev pub arg_t : Text
arg_t = 45 ∷ 116 ∷ []

-- `argv[i + 1]`, which is NULL behind the last argument
abbrev pub next_arg : List Text → Option Text
next_arg [] = none
next_arg (a ∷ rest) = some a

-- the checks behind the loop
abbrev pub check_options : Options → Option Options
check_options o =
    if not o.f
    then none
    else if o.backup && (not o.big_w && not o.w)
    then none
    else if o.download && (not o.r && not o.big_r)
    then none
    else some o

module _ (strtol : Text → ℤ) where
  -- one argument, with those behind it; none where the process exits
  unfoldable pub take_arg : Text → List Text → Options → Run (Option Options)
  unfolding str_eq
  take_arg a rest o =
      if str_eq a arg_f
      then ok (if o.f then none else some (record o { f = true }))
      else if str_eq a arg_p
      then ok (if o.p then none else some (record o { p = true }))
      else if str_eq a arg_h
      then ok (if o.h then none else some (record o { h = true }))
      else if str_eq a arg_download
      then elim (next_arg rest) [
        | none ↦ fault
        | some v ↦ ok (some (record o { download = true; download_folder = some v }))
      ]
      else if str_eq a arg_backup
      then elim (next_arg rest) [
        | none ↦ fault
        | some v ↦ ok (some (record o { backup = true; backup_folder = some v }))
      ]
      else if str_eq a arg_big_w
      then ok (some (record o { big_w = true }))
      else if str_eq a arg_w
      then ok (some (record o { w = true }))
      else if str_eq a arg_r
      then ok (some (record o { r = true }))
      else if str_eq a arg_big_r
      then ok (some (record o { big_r = true }))
      else if str_eq a arg_t
      then elim (next_arg rest) [
        | none ↦ fault
        | some v ↦ ok (some (record o { t = true; seconds = strtol v }))
      ]
      else ok (some o)

  -- the loop, which also looks at what stands behind -d, -D and -t as an argument of its own
  unfoldable pub take_args : List Text → Options → Run (Option Options)
  unfolding take_arg
  take_args [] o = ok (some o)
  take_args (a ∷ rest) o =
      take_arg a rest o >>= λ u. elim u [ none ↦ ok none | some o' ↦ take_args rest o' ]

  -- the arguments behind the program's name
  unfoldable pub control_first_str : List Text → Run (Option Options)
  unfolding take_args
  control_first_str args =
      take_args args no_options >>= λ u. elim u [ none ↦ ok none | some o ↦ ok (check_options o) ]
