-- ===== src/Server/Config.antt =====
-- source/server.c: `configura`, which reads the configuration file line by line. `strtol`, and whether
-- the log file opens, are parameters. The file is its bytes, with no NUL among them.
use file_storage_server.Prelude.{
  ℕ, ◌<◌, ◌-◌, ◌%◌, ltb, leb, ◌||◌, length, length-append, sym, pos, negsuc, ◌≡◌, ◌≢◌, refl, ◌∙◌,
  ap, Bool, true, false, List, [], ◌∷◌, ◌++◌, Option, none, some, ◌==◌, if◌then◌else◌, ℤ, arith,
  append_assoc,
}
use file_storage_server.Run
use file_storage_server.Run.{Run, ok, fault, deref}
use file_storage_server.Text.{Text, str_eq}
use file_storage_server.StringUtil.{tokens_from, tokens}

-- `struct serverconf`; the names are NULL until they are set
pub record Config : Type 0 where
  pub nwork : ℤ
  pub space : ℤ
  pub maxf : ℤ
  pub socketname : Option Text
  pub filelog : Option Text

-- THREADS, SIZE, NFILE, NAME and LOGFILE
abbrev pub threads : Text
threads = 84 ∷ 72 ∷ 82 ∷ 69 ∷ 65 ∷ 68 ∷ 83 ∷ []

abbrev pub size : Text
size = 83 ∷ 73 ∷ 90 ∷ 69 ∷ []

abbrev pub nfile : Text
nfile = 78 ∷ 70 ∷ 73 ∷ 76 ∷ 69 ∷ []

abbrev pub name : Text
name = 78 ∷ 65 ∷ 77 ∷ 69 ∷ []

abbrev pub logfile : Text
logfile = 76 ∷ 79 ∷ 71 ∷ 70 ∷ 73 ∷ 76 ∷ 69 ∷ []

-- `socketname[strlen(socketname) - 1] = '\0'`
unfoldable pub but_last : Text → Text
but_last [] = []
but_last (c ∷ []) = []
but_last (c ∷ d ∷ cs) = c ∷ but_last (d ∷ cs)

abbrev pub first : List Text → Option Text
first [] = none
first (w ∷ ws) = some w

-- a `long` stored in an `int`
abbrev signed : ℕ → ℤ
signed m = if ltb m 2147483648 then pos m else negsuc (4294967295 - m)

abbrev pub int_of_long : ℤ → ℤ
int_of_long (pos n) = signed (n % 4294967296)
int_of_long (negsuc n) = signed (4294967295 - n % 4294967296)

-- what is left at the end of the file
abbrev last_piece : Text → List Text
last_piece [] = []
last_piece (c ∷ cs) = (c ∷ cs) ∷ []

-- One `fgets` after the other: a piece ends behind a newline or with `room` bytes, and `left` more bytes
-- go into the one that has `word`.
unfoldable pub fgets_from : ℕ → ℕ → Text → Text → List Text
fgets_from room left word [] = last_piece word
fgets_from room left word (c ∷ cs) = elim ((c == 10) || leb left 1) [
  | true ↦ (word ++ c ∷ []) ∷ fgets_from room room [] cs
  | false ↦ fgets_from room (left - 1) (word ++ c ∷ []) cs
]

module _ (strtol : Text → ℤ) (opens : Text → Bool) where
  -- The comparisons of `campo`, of which one holds at most; none where the process exits since the log
  -- file does not open.
  unfoldable pub set_field : Text → Option Text → Config → Run (Option Config)
  unfolding str_eq but_last
  set_field campo valore c =
      if str_eq campo threads
      then (Run.◌>>=◌ (deref valore) λ v. ok (some (record c { nwork = int_of_long (strtol v) })))
      else if str_eq campo size
      then (Run.◌>>=◌ (deref valore) λ v. ok (some (record c { space = int_of_long (strtol v) })))
      else if str_eq campo nfile
      then (Run.◌>>=◌ (deref valore) λ v. ok (some (record c { maxf = int_of_long (strtol v) })))
      else if str_eq campo name
      then (Run.◌>>=◌ (deref valore) λ v. ok (some (record c { socketname = some (but_last v) })))
      else if str_eq campo logfile
      then (Run.◌>>=◌ (deref valore)
          λ v. ok (if opens v then some (record c { filelog = some v }) else none))
      else ok (some c)

  -- One line, split at ':'. A line of colons only gives `strcmp` a null pointer.
  unfoldable pub read_line : Text → Config → Run (Option Config)
  unfolding set_field tokens_from
  read_line line c = elim (tokens (58 ∷ []) line) [
    | [] ↦ fault
    | campo ∷ rest ↦ set_field campo (first rest) c
  ]

  unfoldable pub read_lines : List Text → Config → Run (Option Config)
  unfolding read_line
  read_lines [] c = ok (some c)
  read_lines (l ∷ ls) c =
      Run.◌>>=◌ (read_line l c) λ o. elim o [ none ↦ ok none | some c' ↦ read_lines ls c' ]

  -- Where the file does not open, the code says so and reads from the null pointer.
  unfoldable pub configura : Option Text → Config → Run (Option Config)
  unfolding read_lines fgets_from
  configura none c = fault
  configura (some bytes) c = read_lines (fgets_from 299 299 [] bytes) c

-- a line with a field and its value
abbrev pub line_of : Text → Text → Text
line_of campo valore = campo ++ 58 ∷ (valore ++ 10 ∷ [])

-- a value with no ':', newline or NUL in it
abbrev pub IsPlain : Text → Type 0
IsPlain [] = Unit {0}
IsPlain (c ∷ cs) = (c ≢ 58) × ((c ≢ 10) × ((c ≢ 0) × IsPlain cs))

last_token :
    (word v : Text)
    → IsPlain v
    → tokens_from (58 ∷ []) word (v ++ 10 ∷ []) ≡ (word ++ (v ++ 10 ∷ [])) ∷ []
unfolding tokens_from
last_token [] [] h = refl
last_token (c ∷ word) [] h = refl
last_token word (c ∷ v) (no_colon, (no_newline, (no_nul, h))) =
    let other : (c == 58) ≡ false = ground arith in
    rw other (
      last_token (word ++ c ∷ []) v h
      ∙ ap (λ (x : Text). x ∷ []) (append_assoc word (c ∷ []) (v ++ 10 ∷ [])))

but_last-newline : (v : Text) → but_last (v ++ 10 ∷ []) ≡ v
unfolding but_last
but_last-newline [] = refl
but_last-newline (c ∷ []) = refl
but_last-newline (c ∷ d ∷ v) = ap (λ x. c ∷ x) (but_last-newline (d ∷ v))

-- no newline
abbrev IsOneLine : Text → Type 0
IsOneLine [] = Unit {0}
IsOneLine (c ∷ cs) = ((c == 10) ≡ false) × IsOneLine cs

IsPlain-IsOneLine : (v : Text) → IsPlain v → IsOneLine v
IsPlain-IsOneLine [] h = tt
IsPlain-IsOneLine (c ∷ v) (no_colon, (no_newline, (no_nul, h))) =
    (ground arith, IsPlain-IsOneLine v h)

IsOneLine-append : (xs ys : Text) → IsOneLine xs → IsOneLine ys → IsOneLine (xs ++ ys)
IsOneLine-append [] ys h k = k
IsOneLine-append (x ∷ xs) ys (other, h) k = (other, IsOneLine-append xs ys h k)

fgets_from-more :
    (room left : ℕ) (word : Text) (c : ℕ) (cs : Text)
    → ((c == 10) || leb left 1) ≡ false
    → fgets_from room left word (c ∷ cs) ≡ fgets_from room (left - 1) (word ++ c ∷ []) cs
unfolding fgets_from
fgets_from-more room left word c cs on = pick ((c == 10) || leb left 1) on
  where
    pick :
        (b : Bool)
        → b ≡ false
        → (elim b [
          | true ↦ (word ++ c ∷ []) ∷ fgets_from room room [] cs
          | false ↦ fgets_from room (left - 1) (word ++ c ∷ []) cs
        ])
          ≡ fgets_from room (left - 1) (word ++ c ∷ []) cs
    pick false e = refl
    pick true e = absurd (cc)

-- A line that fits is one piece.
fgets_from-newline :
    (room left : ℕ) (word v rest : Text)
    → IsOneLine v
    → length v < left
    → fgets_from room left word (v ++ 10 ∷ rest)
      ≡ (word ++ (v ++ 10 ∷ [])) ∷ fgets_from room room [] rest
unfolding fgets_from
fgets_from-newline room left word [] rest h fits = refl
fgets_from-newline room left word (c ∷ v) rest (other, h) fits =
    let more : leb left 1 ≡ false = ground arith in
    let on : ((c == 10) || leb left 1) ≡ false = rw (other, more) refl in
    fgets_from-more room left word c (v ++ 10 ∷ rest) on
    ∙ fgets_from-newline room (left - 1) (word ++ c ∷ []) v rest h (omega arith)
    ∙ ap (λ (x : Text). x ∷ fgets_from room room [] rest)
        (append_assoc word (c ∷ []) (v ++ 10 ∷ []))

fgets_from-line_of :
    (campo v rest : Text)
    → IsOneLine campo
    → IsPlain v
    → length (line_of campo v) < 300
    → fgets_from 299 299 [] (line_of campo v ++ rest) ≡ line_of campo v ∷ fgets_from 299 299 [] rest
fgets_from-line_of campo v rest h plain fits =
    let line : line_of campo v ≡ (campo ++ 58 ∷ v) ++ 10 ∷ [] =
      sym (append_assoc campo (58 ∷ v) (10 ∷ [])) in
    let short : length (campo ++ 58 ∷ v) < 299 =
      omega (arith, fits, ap length line, length-append (campo ++ 58 ∷ v) (10 ∷ [])) in
    ap (λ (x : Text). fgets_from 299 299 [] (x ++ rest)) line
    ∙ ap (fgets_from 299 299 []) (append_assoc (campo ++ 58 ∷ v) (10 ∷ []) rest)
    ∙ fgets_from-newline 299 299 [] (campo ++ 58 ∷ v) rest
        (IsOneLine-append campo (58 ∷ v) h (refl, IsPlain-IsOneLine v plain)) short
    ∙ ap (λ (x : Text). x ∷ fgets_from 299 299 [] rest) (sym line)

module _ (strtol : Text → ℤ) (opens : Text → Bool) (c : Config) (n s f socket log : Text) where
  -- `configura` of a file of five lines, each a field, a colon and a value without colon, newline
  -- and NUL, and each shorter than 300 bytes with its newline, where the log file opens: the
  -- numbers are what an `int` keeps of `strtol` of the values with their newline, the socket's name
  -- is its value, and the log file's name is its value with the newline.
  pub configura-lines :
      IsPlain n
      → IsPlain s
      → IsPlain f
      → IsPlain socket
      → IsPlain log
      → length (line_of threads n) < 300
      → length (line_of size s) < 300
      → length (line_of nfile f) < 300
      → length (line_of name socket) < 300
      → length (line_of logfile log) < 300
      → opens (log ++ 10 ∷ []) ≡ true
      → configura strtol opens
          (some (
            line_of threads n
            ++ (line_of size s
                ++ (line_of nfile f ++ (line_of name socket ++ (line_of logfile log ++ []))))))
          c
        ≡ ok (
            some (record {
              nwork = int_of_long (strtol (n ++ 10 ∷ []));
              space = int_of_long (strtol (s ++ 10 ∷ []));
              maxf = int_of_long (strtol (f ++ 10 ∷ []));
              socketname = some socket;
              filelog = some (log ++ 10 ∷ []);
            }))
  unfolding configura str_eq tokens_from
  configura-lines hn hs hf hsocket hlog ln ls lf lsocket llog opened =
      let fields_plain : IsOneLine threads
          × IsOneLine size
          × IsOneLine nfile
          × IsOneLine name
          × IsOneLine logfile =
        (
          (refl, (refl, (refl, (refl, (refl, (refl, (refl, tt))))))),
          (refl, (refl, (refl, (refl, tt)))),
          (refl, (refl, (refl, (refl, (refl, tt))))),
          (refl, (refl, (refl, (refl, tt)))),
          (refl, (refl, (refl, (refl, (refl, (refl, (refl, tt))))))),
        ) in
      let (p₁, p₂, p₃, p₄, p₅) = fields_plain in
      let split =
        fgets_from-line_of threads n _ p₁ hn ln
        ∙ ap (◌∷◌ (line_of threads n)) (
            fgets_from-line_of size s _ p₂ hs ls
            ∙ ap (◌∷◌ (line_of size s)) (
                fgets_from-line_of nfile f _ p₃ hf lf
                ∙ ap (◌∷◌ (line_of nfile f)) (
                    fgets_from-line_of name socket _ p₄ hsocket lsocket
                    ∙ ap (◌∷◌ (line_of name socket))
                        (fgets_from-line_of logfile log [] p₅ hlog llog)))) in
      ap (λ (x : List Text). read_lines strtol opens x c) split
      ∙ rw
          (
            last_token [] n hn,
            last_token [] s hs,
            last_token [] f hf,
            last_token [] socket hsocket,
            last_token [] log hlog,
            but_last-newline socket,
            opened,
          )
          refl
