-- ===== src/Client/Commands.antt =====
-- source/client.c: `main`. What `getopt` makes of the arguments is a parameter: a list of options with
-- their arguments. `strtol`, the contents of files and the client's disk are parameters too.
use file_storage_server.Prelude.{
  ℕ, zero, suc, Bool, true, false, List, [], ◌∷◌, Option, none, some, ℤ, pos, negsuc, if◌then◌else◌,
}
use file_storage_server.Run
use file_storage_server.Run.{Run, ok, fault}
use file_storage_server.Text.{Text}
use file_storage_server.StringUtil.{tokens, tokens_from, parse_str}
use file_storage_server.Protcol
use file_storage_server.Api.Backup.{Disk}
use file_storage_server.Client.{Do, ◌>>=◌, ◌>>◌, return, Calls, Options, pause}
use file_storage_server.Client.Args.{control_first_str}
use file_storage_server.Client.Files.{is_one, create_write, append, lettura_random}
use file_storage_server.Client.Visit.{Entries, visita_dir}
use file_storage_server.Client.Download.{lettura_files}

-- the options that the switch handles: -f -p -w -W -r -R -a -l -u -c, and the others
pub data Opt : Type 0 where
  opt_f opt_w opt_big_w opt_r opt_big_r opt_a opt_l opt_u opt_c : Text → Opt
  opt_p opt_other : Opt

-- what the client finds around it
pub record Around : Type 0 where
  pub strtol : Text → ℤ
  pub contents_of : Text → Option (List ℕ)
  pub directory : Text → Option Entries
  pub disk : Disk
  pub roomy : ℕ → Bool

-- the word behind the '=' of a text, which has to be there
unfoldable pub after_equals : Text → Run Text
unfolding tokens_from
after_equals s = elim (tokens (61 ∷ []) s) [
  | [] ↦ fault
  | w ∷ ws ↦ elim ws [ [] ↦ fault | v ∷ vs ↦ ok v ]
]

-- `nvisit` for a number
abbrev pub visits : ℤ → ℤ
visits (pos zero) = negsuc 0
visits n = n

module _ {C : Type 0} (calls : Calls C) (o : Options) (a : Around) where
  -- a computation without calls
  abbrev pub pure : {A : Type 0} → Run A → Do C A
  pure m c = Run.◌>>=◌ m (λ x. ok (x, c))

  -- one file of -l and of -u
  unfoldable pub lock_one : Text → Do C (Unit {0})
  lock_one path = do
    result ← calls.open_file path (pos Protcol.o_open)
    pause calls o o.seconds
    result' ← (if is_one result then calls.lock_file path else return result)
    pause calls o o.seconds
    (if is_one result' then (calls.close_file path >>= λ _. return tt) else return tt)

  unfoldable pub unlock_one : Text → Do C (Unit {0})
  unlock_one path = do
    result ← calls.open_file path (pos Protcol.o_open)
    pause calls o o.seconds
    result' ← (if is_one result then calls.unlock_file path else return result)
    pause calls o o.seconds
    (if is_one result' then (calls.close_file path >>= λ _. return tt) else return tt)

  abbrev pub for_each : (Text → Do C (Unit {0})) → List Text → Do C (Unit {0})
  for_each act [] = return tt
  for_each act (path ∷ ric) = act path >> for_each act ric

  -- -w: a directory, and a number behind '='
  unfoldable pub visit_option : List Text → Do C (Option ℤ)
  unfolding visita_dir after_equals
  visit_option [] = return (some (pos 0))
  visit_option (dirname ∷ []) = visita_dir calls o dirname (a.directory dirname) (negsuc 0)
  visit_option (dirname ∷ number ∷ []) = pure (after_equals number) >>= λ v.
      visita_dir calls o dirname (a.directory dirname) (visits (a.strtol v))
  visit_option (_ ∷ _ ∷ _ ∷ _) = return (some (pos 0))

  -- -a: with one word the second name is what the memory held
  unfoldable pub append_option : List Text → Do C (Unit {0})
  unfolding append
  append_option (namefile ∷ contentfile ∷ []) c =
      (append calls o a.contents_of namefile contentfile >>= λ _. return tt) c
  append_option (_ ∷ _ ∷ _ ∷ _) c = return tt c
  append_option _ c = fault

  -- The switch: whether the process goes on. It stops where -f cannot connect and -p is on.
  unfoldable pub option : Opt → Do C Bool
  unfolding parse_str visit_option append_option create_write lettura_files lettura_random
      after_equals lock_one unlock_one
  option (opt_f sock) = do
    result ← calls.open_connection sock
    return (elim result [
      | pos n ↦ true
      | negsuc zero ↦ (if o.p then false else true)
      | negsuc (suc n) ↦ true
    ])
  option opt_p = return true
  option (opt_w arg) = do
    ric ← pure (parse_str arg (44 ∷ []))
    u ← visit_option ric
    return (elim u [ none ↦ false | some n ↦ true ])
  option (opt_big_w arg) = do
    ric ← pure (parse_str arg (44 ∷ []))
    create_write calls o ric
    return true
  option (opt_r arg) = do
    ric ← pure (parse_str arg (44 ∷ []))
    lettura_files calls o a.disk a.roomy ric
    return true
  option (opt_big_r arg) = do
    v ← pure (after_equals arg)
    lettura_random calls o (a.strtol v)
    return true
  option (opt_a arg) = do ric ← pure (parse_str arg (44 ∷ [])); append_option ric; return true
  option (opt_l arg) = do ric ← pure (parse_str arg (44 ∷ [])); for_each lock_one ric; return true
  option (opt_u arg) = do ric ← pure (parse_str arg (44 ∷ [])); for_each unlock_one ric; return true
  option (opt_c arg) = do
    ric ← pure (parse_str arg (44 ∷ []))
    for_each (λ path. calls.remove_file path >>= λ _. return tt) ric
    return true
  option opt_other = return true

  -- whether -f gave `namesock` a value
  abbrev pub names_socket : Opt → Bool → Bool
  names_socket (opt_f sock) b = true
  names_socket _ b = b

  -- the loop over the options; at its end the connection is closed, and `namesock` is freed
  unfoldable pub options : List Opt → Bool → Do C Bool
  unfolding option
  options [] named c =
      Run.◌>>=◌ (calls.close_connection c) λ r. if named then ok (true, r.1) else fault
  options (x ∷ xs) named c =
      (option x >>= λ b. (if b then options xs (names_socket x named) else return false)) c

-- `main`: whether it came to its end, or exited
unfoldable pub main : {C : Type 0} → Calls C → Around → List Text → List Opt → Do C Bool
unfolding control_first_str options
main calls a args opts c =
    Run.◌>>=◌ (control_first_str a.strtol args)
      λ u. elim u [ none ↦ ok (false, c) | some o ↦ options calls o a opts false c ]
