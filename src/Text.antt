-- ===== src/Text.antt =====
-- C strings: the bytes before the terminating NUL. `strcmp(a, b) == 0` is `str_eq`.
use file_storage_server.Prelude.{
  ℕ, ◌≡◌, refl, ◌↔◌, Bool, true, false, ◌&&◌, List, [], ◌∷◌, arith, ◌==◌,
}

abbrev pub Text : Type 0
Text = List ℕ

unfoldable pub str_eq : Text → Text → Bool
str_eq [] [] = true
str_eq [] (c ∷ b) = false
str_eq (c ∷ a) [] = false
str_eq (c ∷ a) (d ∷ b) = c == d && str_eq a b

pub str_eq→≡ : (a b : Text) → str_eq a b ≡ true → a ≡ b
unfolding str_eq
str_eq→≡ [] [] h = refl
str_eq→≡ [] (d ∷ b) h = ground arith
str_eq→≡ (c ∷ a) [] h = ground arith
str_eq→≡ (c ∷ a) (d ∷ b) h = ground (arith, str_eq→≡ a b)

pub str_eq_refl : (a : Text) → str_eq a a ≡ true
unfolding str_eq
str_eq_refl [] = refl
str_eq_refl (c ∷ a) = ground (arith, str_eq_refl a)

pub str_eq_iff : (a b : Text) → (str_eq a b ≡ true) ↔ (a ≡ b)
str_eq_iff a b = (str_eq→≡ a b, λ e. ground (arith, str_eq_refl a, e))

pub str_eq_symm : (a b : Text) → str_eq a b ≡ str_eq b a
str_eq_symm a b = ground (arith, str_eq_iff a b, str_eq_iff b a)
