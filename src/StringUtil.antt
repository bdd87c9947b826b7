-- ===== src/StringUtil.antt =====
-- source/stringutil.c: splitting a string into words, and joining strings.
use file_storage_server.Prelude.{
  ℕ, Bool, false, ◌||◌, List, [], ◌∷◌, ◌++◌, ◌==◌, if◌then◌else◌, ltb, length,
}
use file_storage_server.Run.{Run, ok, fault}
use file_storage_server.Text.{Text}

-- whether the byte is in `delim`
abbrev pub is_delim : Text → ℕ → Bool
is_delim [] c = false
is_delim (d ∷ delim) c = c == d || is_delim delim c

-- `strtok_r` from the start of a string to its end: the words between the delimiters, none empty;
-- `word` is what has been read of the word at hand
unfoldable pub tokens_from : Text → Text → Text → List Text
tokens_from delim word [] = elim word [ [] ↦ [] | c ∷ cs ↦ (c ∷ cs) ∷ [] ]
tokens_from delim word (c ∷ cs) =
    if is_delim delim c
    then elim word [ [] ↦ tokens_from delim [] cs | d ∷ ds ↦ (d ∷ ds) ∷ tokens_from delim [] cs ]
    else tokens_from delim (word ++ c ∷ []) cs

abbrev pub tokens : Text → Text → List Text
tokens delim ric = tokens_from delim [] ric

-- `parse_str`: the words. With the thirtieth word the array is given up to `realloc`, whose result
-- goes into the parameter, and the caller's pointer dangles.
unfoldable pub parse_str : Text → Text → Run (List Text)
unfolding tokens_from
parse_str ric delim =
    let words = tokens delim ric in if ltb (length words) 30 then ok words else fault

-- `strc`: the two strings one after the other
unfoldable pub strc : Text → Text → Text
strc s₁ s₂ = s₁ ++ s₂

-- `concat`: the first string, then each of the others up to the NULL. With no other string the result
-- is never set.
unfoldable pub concat : Text → List Text → Run Text
unfolding strc
concat str [] = fault
concat str (s ∷ []) = ok (strc str s)
concat str (s ∷ t ∷ ss) = concat (strc str s) (t ∷ ss)

-- `temp[result - 1]` of the words that `parse_str` made
unfoldable pub last_word : List Text → Run Text
last_word [] = fault
last_word (w ∷ []) = ok w
last_word (w ∷ v ∷ ws) = last_word (v ∷ ws)
