-- ===== src/Client/Files.antt =====
-- source/client.c: `CreateWrite`, `writeF`, `append` and `letturaRandom`.
use file_storage_server.Prelude.{
  ℕ, List, [], ◌∷◌, Option, none, some, ℤ, pos, negsuc, ◌==◌, if◌then◌else◌, Bool, false,
}
use file_storage_server.Text.{Text}
use file_storage_server.Protcol
use file_storage_server.Client.{Do, ◌>>=◌, ◌>>◌, return, Calls, Options, pause, write_with}

-- `result == 1`
abbrev pub is_one : ℤ → Bool
is_one (pos n) = n == 1
is_one (negsuc n) = false

module _ {C : Type 0} (calls : Calls C) (o : Options) where
  -- one file of `CreateWrite`
  unfoldable pub create_one : Text → Do C (Unit {0})
  create_one path = do
    result ← calls.open_file path (pos Protcol.o_create)
    (if is_one result
        then (do
          pause calls o o.seconds
          write_with calls o path >>= λ _. pause calls o o.seconds
          calls.close_file path >>= λ _. return tt)
        else return tt)
    pause calls o o.seconds

  -- `CreateWrite`
  unfoldable pub create_write : List Text → Do C ℤ
  unfolding create_one
  create_write [] = return (pos 1)
  create_write (path ∷ ric) = create_one path >> create_write ric

  -- `writeF`, whose first pause is for `t`, that is 1
  unfoldable pub write_f : Text → Do C (Unit {0})
  write_f path = do
    result ← calls.open_file path (pos Protcol.o_create)
    (if is_one result
        then (do
          pause calls o (pos 1)
          write_with calls o path >>= λ _. pause calls o o.seconds
          calls.close_file path >>= λ _. pause calls o o.seconds)
        else return tt)

  -- `append`; the contents are those that `open`, `stat` and `read` give for the second name, if they do
  unfoldable pub append : (Text → Option (List ℕ)) → Text → Text → Do C ℤ
  append contents_of namefile contentfile = elim (contents_of contentfile) [
    | none ↦ return (negsuc 0)
    | some buffer ↦ do
      result ← calls.open_file namefile (pos Protcol.o_open)
      (if is_one result
          then (calls.append_to_file namefile buffer none >>= λ _. return tt)
          else return tt)
      calls.close_file namefile >>= λ _. return (pos 1)
  ]

  -- `letturaRandom`
  unfoldable pub lettura_random : ℤ → Do C (Unit {0})
  lettura_random n =
      calls.read_n_files n (if o.download then o.download_folder else none) >>= λ _. return tt
