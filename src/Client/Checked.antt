-- ===== src/Client/Checked.antt =====
-- source/client.c, `controlFirstStr`: each step tells of its argument, and so does the loop.
use file_storage_server.Prelude.{
  ◌≡◌, refl, sym, ◌∙◌, Bool-cases, true, List, [], ◌∷◌, Option, none, some, ℤ, arith, inl, inr,
}
use file_storage_server.Run
use file_storage_server.Run.{Run, ok, fault}
use file_storage_server.Text.{Text, str_eq}
use file_storage_server.Client.{Options}
use file_storage_server.Client.Args.{
  arg_f, arg_p, arg_h, arg_download, arg_backup, arg_big_w, arg_w, arg_r, arg_big_r, arg_t,
  take_arg, take_args,
}
use file_storage_server.Client.Told.{times, given, Tells, one_and_rest, same, or_false}
use file_storage_server.Client.Told.Words.{
  steady, told_f, told_p, told_h, told_backup, told_download, told_w, told_big_w, told_r,
  told_big_r, told_t,
}
use file_storage_server.Text.{str_eq→≡}
use file_storage_server.Prelude.{subst}

-- the same options
shown :
    (o u o' : Options) (args : List Text)
    → Tells o args u
    → ok (some u) ≡ ok (some o')
    → Tells o args o'
shown o u o' args t e = let same : u ≡ o' = cc in subst (Tells o args) same t

-- a word that is known, by what its test says
at_word : (a k : Text) (P : Text → Type 0) → str_eq a k ≡ true → P k → P a
at_word a k P e p = subst P (sym (str_eq→≡ a k e)) p

-- no arguments
none_at : (o : Options) → Tells o [] o
unfolding times given
none_at o = record {
  f = same o.f;
  p = same o.p;
  h = same o.h;
  backup = or_false o.backup;
  download = or_false o.download;
  w = or_false o.w;
  big_w = or_false o.big_w;
  r = or_false o.r;
  big_r = or_false o.big_r;
}

module _ (strtol : Text → ℤ) (rest : List Text) (o o' : Options) where
  Step : Text → Type 0
  Step a = take_arg strtol a rest o ≡ ok (some o') → Tells o (a ∷ []) o'

  word_f : Step arg_f
  unfolding Step take_arg str_eq
  word_f e = elim (Bool-cases o.f) [
    | inl b ↦ ground (arith, e, b)
    | inr b ↦ shown o _ o' (arg_f ∷ []) (told_f o b) (ground (arith, e, b))
  ]

  word_p : Step arg_p
  unfolding Step take_arg str_eq
  word_p e = elim (Bool-cases o.p) [
    | inl b ↦ ground (arith, e, b)
    | inr b ↦ shown o _ o' (arg_p ∷ []) (told_p o b) (ground (arith, e, b))
  ]

  word_h : Step arg_h
  unfolding Step take_arg str_eq
  word_h e = elim (Bool-cases o.h) [
    | inl b ↦ ground (arith, e, b)
    | inr b ↦ shown o _ o' (arg_h ∷ []) (told_h o b) (ground (arith, e, b))
  ]

  word_download : Step arg_download
  unfolding Step take_arg str_eq
  word_download = go rest
    where
      go :
          (behind : List Text)
          → take_arg strtol arg_download behind o ≡ ok (some o')
          → Tells o (arg_download ∷ []) o'
      go [] e = ground (arith, e)
      go (v ∷ vs) e = shown o _ o' (arg_download ∷ []) (told_download o v) e

  word_backup : Step arg_backup
  unfolding Step take_arg str_eq
  word_backup = go rest
    where
      go :
          (behind : List Text)
          → take_arg strtol arg_backup behind o ≡ ok (some o')
          → Tells o (arg_backup ∷ []) o'
      go [] e = ground (arith, e)
      go (v ∷ vs) e = shown o _ o' (arg_backup ∷ []) (told_backup o v) e

  word_t : Step arg_t
  unfolding Step take_arg str_eq
  word_t = go rest
    where
      go :
          (behind : List Text)
          → take_arg strtol arg_t behind o ≡ ok (some o')
          → Tells o (arg_t ∷ []) o'
      go [] e = ground (arith, e)
      go (v ∷ vs) e = shown o _ o' (arg_t ∷ []) (told_t o (strtol v)) e

  word_big_w : Step arg_big_w
  unfolding Step take_arg str_eq
  word_big_w e = shown o _ o' (arg_big_w ∷ []) (told_big_w o) e

  word_w : Step arg_w
  unfolding Step take_arg str_eq
  word_w e = shown o _ o' (arg_w ∷ []) (told_w o) e

  word_r : Step arg_r
  unfolding Step take_arg str_eq
  word_r e = shown o _ o' (arg_r ∷ []) (told_r o) e

  word_big_r : Step arg_big_r
  unfolding Step take_arg str_eq
  word_big_r e = shown o _ o' (arg_big_r ∷ []) (told_big_r o) e

  take_arg-Tells : (a : Text) → Step a
  unfolding Step take_arg
  take_arg-Tells a e = elim (Bool-cases (str_eq a arg_f)) [
    | inl x ↦ at_word a arg_f Step x word_f e
    | inr no_f ↦ elim (Bool-cases (str_eq a arg_p)) [
      | inl x ↦ at_word a arg_p Step x word_p e
      | inr no_p ↦ elim (Bool-cases (str_eq a arg_h)) [
        | inl x ↦ at_word a arg_h Step x word_h e
        | inr no_h ↦ elim (Bool-cases (str_eq a arg_download)) [
          | inl x ↦ at_word a arg_download Step x word_download e
          | inr no_download ↦ elim (Bool-cases (str_eq a arg_backup)) [
            | inl x ↦ at_word a arg_backup Step x word_backup e
            | inr no_backup ↦ elim (Bool-cases (str_eq a arg_big_w)) [
              | inl x ↦ at_word a arg_big_w Step x word_big_w e
              | inr no_big_w ↦ elim (Bool-cases (str_eq a arg_w)) [
                | inl x ↦ at_word a arg_w Step x word_w e
                | inr no_w ↦ elim (Bool-cases (str_eq a arg_r)) [
                  | inl x ↦ at_word a arg_r Step x word_r e
                  | inr no_r ↦ elim (Bool-cases (str_eq a arg_big_r)) [
                    | inl x ↦ at_word a arg_big_r Step x word_big_r e
                    | inr no_big_r ↦ elim (Bool-cases (str_eq a arg_t)) [
                      | inl x ↦ at_word a arg_t Step x word_t e
                      | inr no_t ↦
                          shown o o o' (a ∷ [])
                            (steady a o no_f no_p no_h no_backup no_download no_w no_big_w no_r
                              no_big_r)
                            (sym (
                                rw
                                  (
                                    no_f, no_p, no_h, no_download, no_backup, no_big_w, no_w, no_r,
                                    no_big_r, no_t,
                                  )
                                  refl)
                              ∙ e)
                    ]
                  ]
                ]
              ]
            ]
          ]
        ]
      ]
    ]
  ]

module _ (strtol : Text → ℤ) where
  pub take_args-Tells :
      (args : List Text) (o o' : Options) → take_args strtol args o ≡ ok (some o') → Tells o args o'
  unfolding take_args Step
  take_args-Tells [] o o' e = shown o o o' [] (none_at o) e
  take_args-Tells (a ∷ rest) o o' e =
      go (λ o1. take_args-Tells rest o1 o') (take_arg strtol a rest o) refl e
    where
      go :
          ((o1 : Options) → take_args strtol rest o1 ≡ ok (some o') → Tells o1 rest o')
          → (u : Run (Option Options)) → take_arg strtol a rest o ≡ u
          → Run.◌>>=◌ u (λ v. elim v [ none ↦ ok none | some o1 ↦ take_args strtol rest o1 ])
            ≡ ok (some o')
          → Tells o (a ∷ rest) o'
      go later fault n e = ground (arith, e)
      go later Run.spin n e = ground (arith, e)
      go later (ok none) n e = ground (arith, e)
      go later (ok (some o1)) n e =
          one_and_rest a rest o o1 o' (take_arg-Tells strtol rest o o1 a n) (later o1 e)
