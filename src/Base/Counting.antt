-- ===== src/Base/Counting.antt =====
-- Counting the rows of a table that a condition holds of.
use Prim.Native.Nat.{suc, ◌≤◌}
use mathlib.Core.Path.{◌≡◌, refl}
use mathlib.Core.Bool.{Bool, true, false, ◌&&◌}
use mathlib.Core.List.{List, [], ◌∷◌, ◌++◌}
use native.Mathlib.Omega.{arith}
use qq_guardian.Base.Table.{any, select, count_where, update_where, length}

module _ {ℓ} {A : Type ℓ} where
  pub count_where-update_le :
      (p q u : A → Bool) (f : A → A) (xs : List A)
      → ((x : A) → u x ≡ true → p (f x) ≡ false)
      → ((x : A) → u x ≡ false → p x ≡ true → q x ≡ true)
      → count_where p (update_where u f xs) ≤ count_where q xs
  count_where-update_le p q u f [] touched left = omega arith
  count_where-update_le p q u f (x ∷ xs) touched left =
      ground (arith, count_where-update_le p q u f xs touched left, touched x, left x)

  pub any-update_back :
      (p u : A → Bool) (f : A → A) (xs : List A)
      → ((x : A) → u x ≡ true → p (f x) ≡ false)
      → any p (update_where u f xs) ≡ true
      → any p xs ≡ true
  any-update_back p u f [] touched h = h
  any-update_back p u f (x ∷ xs) touched h =
      ground (arith, any-update_back p u f xs touched, touched x)

  pub count_where-select :
      (p g : A → Bool) (xs : List A)
      → count_where (λ x. p x && g x) xs ≡ count_where g (select p xs)
  count_where-select p g [] = refl
  count_where-select p g (x ∷ xs) = ground (arith, count_where-select p g xs)

  pub count_where-ext :
      (p q : A → Bool) (xs : List A) → ((x : A) → p x ≡ q x) → count_where p xs ≡ count_where q xs
  count_where-ext p q [] e = refl
  count_where-ext p q (x ∷ xs) e = ground (arith, count_where-ext p q xs e, e x)

  pub length-count_where : (xs : List A) → count_where (λ x. true) xs ≡ length xs
  length-count_where [] = refl
  length-count_where (x ∷ xs) = ground (arith, length-count_where xs)

  pub length-add : (xs : List A) (x : A) → length (xs ++ x ∷ []) ≡ suc (length xs)
  length-add [] x = refl
  length-add (y ∷ xs) x = ground (arith, length-add xs x)

  pub count_where-none : (p : A → Bool) (xs : List A) → any p xs ≡ false → count_where p xs ≡ 0
  count_where-none p [] h = refl
  count_where-none p (x ∷ xs) h = ground (arith, count_where-none p xs)
