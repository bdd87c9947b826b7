-- ===== src/Api/Backup.antt =====
-- source/api.c: the files that the server sends, as a call reads them and stores them in a directory.
-- `stat` and `fopen` of a directory's files are parameters; what is written to disk is a list.
use file_storage_server.Prelude.{
  ℕ, Bool, true, false, List, [], ◌∷◌, ◌++◌, Option, none, some, ltb, ◌==◌, if◌then◌else◌,
}
use file_storage_server.Run.{Run, ok, fault, ◌>>=◌}
use file_storage_server.Text.{Text, str_eq}
use file_storage_server.StringUtil.{parse_str, strc, last_word}
use file_storage_server.Api.{readn, read_int}

-- the directories, and the files that can be made: `is_dir d` is none where `stat` fails
pub record Disk : Type 0 where
  pub is_dir : Text → Option Bool
  pub can_write : Text → Bool

-- the writes of files, each with its name, the first one first
abbrev pub Saved : Type 0
Saved = List (Text × List ℕ)

-- what becomes of one file: nothing, a file on disk, or a failure
pub data Kept : Type 0 where
  left : Kept
  kept : Text → List ℕ → Kept
  no_directory : Kept
  no_file : Kept

-- the string in a buffer, which has to end in it
unfoldable pub c_string : List ℕ → Run Text
c_string [] = fault
c_string (c ∷ cs) = let rest = c_string cs in if c == 0 then ok [] else (rest >>= λ r. ok (c ∷ r))

-- `newdir/`, and in it the last word of the file's path
unfoldable pub store_in : Disk → Text → Text → List ℕ → Run Kept
unfolding strc parse_str last_word
store_in disk dirname name cont = do
  let newdir = strc dirname (47 ∷ [])
  temp ← parse_str name (47 ∷ [])
  last ← last_word temp
  let filename = strc newdir last
  ok (if disk.can_write filename then kept filename cont else no_file)

-- the size, the length of the name, the name and the contents of one file
unfoldable pub read_parts : List ℕ → Run ((ℕ × List ℕ × List ℕ) × List ℕ)
unfolding read_int readn
read_parts stream = do
  (dim, s₁) ← read_int stream
  (len, s₂) ← read_int s₁
  (namefile, s₃) ← readn len s₂
  (cont, s₄) ← readn dim s₃
  ok ((len, namefile, cont), s₄)

-- One file of those that the server throws out: the name goes into 130 bytes, and it is stored if
-- there is a directory for it.
unfoldable pub receive : Disk → Option Text → List ℕ → Run (Kept × List ℕ)
unfolding read_parts store_in c_string
receive disk dirname stream = do
  ((len, namefile, cont), rest) ← read_parts stream
  if ltb len 130
      then elim dirname [
        | none ↦ ok (left, rest)
        | some d ↦ elim (disk.is_dir d) [
          | none ↦ ok (no_directory, rest)
          | some b ↦ elim b [
            | false ↦ ok (left, rest)
            | true ↦ (do
              name ← c_string (namefile ++ 0 ∷ [])
              k ← store_in disk d name cont
              ok (k, rest))
          ]
        ]
      ]
      else fault

-- `letturafile`: one file of those that READN asked for. Where `stat` fails, the call goes on with a
-- result that was not set.
unfoldable pub lettura_file : Disk → Option Text → List ℕ → Run (Kept × List ℕ)
unfolding read_parts store_in c_string
lettura_file disk dirname stream = do
  ((len, namefile, cont), rest) ← read_parts stream
  elim dirname [
    | none ↦ ok (left, rest)
    | some d ↦ elim (disk.is_dir d) [
      | none ↦ fault
      | some b ↦ elim b [
        | false ↦ ok (left, rest)
        | true ↦ (do name ← c_string namefile; k ← store_in disk d name cont; ok (k, rest))
      ]
    ]
  ]

-- What is on disk under a name behind the writes: `fopen` with "wb" empties the file that was there.
unfoldable pub on_disk : Saved → Text → Option (List ℕ)
on_disk [] k = none
on_disk (y ∷ ys) k = elim (on_disk ys k) [
  | some b ↦ some b
  | none ↦ if str_eq y.0 k then some y.1 else none
]

-- the writes with one more
abbrev pub save : Kept → Saved → Saved
save (kept name cont) saved = saved ++ (name, cont) ∷ []
save _ saved = saved
