-- ===== src/Client/Told.antt =====
-- source/client.c, `controlFirstStr`: the options tell which arguments there were.
pub mod Words
use file_storage_server.Prelude.{
  ℕ, zero, suc, ◌+◌, ◌≤◌, ◌≡◌, refl, sym, ◌∙◌, ap, Bool, Bool-cases, true, false, not, ◌&&◌, ◌||◌,
  List, [], ◌∷◌, Option, none, some, ℤ, if◌then◌else◌, arith, inl, inr,
}
use file_storage_server.Run
use file_storage_server.Run.{Run, ok, fault}
use file_storage_server.Text.{Text, str_eq}
use file_storage_server.Client.{Options, no_options}
use file_storage_server.Client.Args.{
  arg_f, arg_p, arg_h, arg_download, arg_backup, arg_big_w, arg_w, arg_r, arg_big_r, arg_t,
  next_arg, take_arg, take_args, check_options, control_first_str,
}

-- how often the arguments have a word, and whether they have it
unfoldable pub times : Text → List Text → ℕ
unfolding str_eq
times k [] = 0
times k (a ∷ rest) = if str_eq a k then suc (times k rest) else times k rest

unfoldable pub given : Text → List Text → Bool
unfolding str_eq
given k [] = false
given k (a ∷ rest) = str_eq a k || given k rest

-- one if the flag is up
abbrev pub up : Bool → ℕ
up true = 1
up false = 0

-- the options tell which of the arguments there were, up to what there was before
pub record Tells (o : Options) (args : List Text) (o' : Options) : Type 0 where
  pub f : up o'.f ≡ up o.f + times arg_f args
  pub p : up o'.p ≡ up o.p + times arg_p args
  pub h : up o'.h ≡ up o.h + times arg_h args
  pub backup : o'.backup ≡ (o.backup || given arg_backup args)
  pub download : o'.download ≡ (o.download || given arg_download args)
  pub w : o'.w ≡ (o.w || given arg_w args)
  pub big_w : o'.big_w ≡ (o.big_w || given arg_big_w args)
  pub r : o'.r ≡ (o.r || given arg_r args)
  pub big_r : o'.big_r ≡ (o.big_r || given arg_big_r args)

pub or_false : (b : Bool) → b ≡ (b || false)
or_false false = refl
or_false true = refl

pub or_true : (b : Bool) → true ≡ (b || true)
or_true false = refl
or_true true = refl

or_more : (b c d : Bool) → ((b || c) || d) ≡ (b || (c || d))
or_more false c d = refl
or_more true c d = refl

pub one_up : (b : Bool) → b ≡ false → 1 ≡ up b + 1
one_up false e = refl
one_up true e = ground (arith, e)

pub same : (b : Bool) → up b ≡ up b + 0
same b = omega arith

-- one argument, and the rest
times-append :
    (k a : Text) (rest : List Text) → times k (a ∷ rest) ≡ times k (a ∷ []) + times k rest
unfolding times
times-append k a rest = ground (arith, Bool-cases (str_eq a k))

given-append :
    (k a : Text) (rest : List Text) → given k (a ∷ rest) ≡ (given k (a ∷ []) || given k rest)
unfolding given
given-append k a rest = elim (Bool-cases (str_eq a k)) [ inl e ↦ rw e refl | inr e ↦ rw e refl ]

pub one_and_rest :
    (a : Text) (rest : List Text) (o o1 o2 : Options)
    → Tells o (a ∷ []) o1
    → Tells o1 rest o2
    → Tells o (a ∷ rest) o2
one_and_rest a rest o o1 o2 s t = record {
  f = counted _ _ _ arg_f s.f t.f;
  p = counted _ _ _ arg_p s.p t.p;
  h = counted _ _ _ arg_h s.h t.h;
  backup = kept _ _ _ arg_backup s.backup t.backup;
  download = kept _ _ _ arg_download s.download t.download;
  w = kept _ _ _ arg_w s.w t.w;
  big_w = kept _ _ _ arg_big_w s.big_w t.big_w;
  r = kept _ _ _ arg_r s.r t.r;
  big_r = kept _ _ _ arg_big_r s.big_r t.big_r;
}
  where
    counted :
        (x y z : ℕ) (k : Text)
        → y ≡ x + times k (a ∷ [])
        → z ≡ y + times k rest
        → z ≡ x + times k (a ∷ rest)
    counted x y z k s t = let e = times-append k a rest in omega (arith, s, t, e)

    kept :
        (x y z : Bool) (k : Text)
        → y ≡ (x || given k (a ∷ []))
        → z ≡ (y || given k rest)
        → z ≡ (x || given k (a ∷ rest))
    kept x y z k s t =
        t
        ∙ (ap (λ b. b || given k rest) s
            ∙ (or_more x (given k (a ∷ [])) (given k rest)
                ∙ sym (ap (◌||◌ x) (given-append k a rest))))
