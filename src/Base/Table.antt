-- ===== src/Base/Table.antt =====
-- SQL tables as lists of rows, with the statements that the repositories issue. The order of the list
-- is the order of insertion.
use Prim.Native.Nat.{ℕ, suc, ◌+◌, ◌<◌}
use mathlib.Core.Path.{◌≡◌, refl}
use mathlib.Core.Logic.{inl, inr}
use mathlib.Core.Bool.{Bool, true, false, ◌&&◌, ◌||◌, not}
use mathlib.Core.List.{List, [], ◌∷◌, ◌++◌}
use mathlib.Core.Option.{Option, none, some}
use native.Mathlib.Omega.{arith}
use qq_guardian.Base.Tests.{if◌then◌else◌, Bool-cases}

module _ {ℓ} {A : Type ℓ} where
  abbrev pub length : List A → ℕ
  length [] = 0
  length (x ∷ xs) = suc (length xs)

  -- SELECT … WHERE p
  abbrev pub select : (A → Bool) → List A → List A
  select p [] = []
  select p (x ∷ xs) = let rest = select p xs in if p x then x ∷ rest else rest

  -- SELECT … WHERE p LIMIT 1, and `Array.prototype.find`.
  abbrev pub find : (A → Bool) → List A → Option A
  find p [] = none
  find p (x ∷ xs) = let rest = find p xs in if p x then some x else rest

  -- `Array.prototype.some`
  abbrev pub any : (A → Bool) → List A → Bool
  any p [] = false
  any p (x ∷ xs) = p x || any p xs

  -- SELECT COUNT(*) … WHERE p, and the number of rows that a statement changes.
  abbrev pub count_where : (A → Bool) → List A → ℕ
  count_where p [] = 0
  count_where p (x ∷ xs) = let rest = count_where p xs in if p x then suc rest else rest

  -- UPDATE … SET f WHERE p
  abbrev pub update_where : (A → Bool) → (A → A) → List A → List A
  update_where p f [] = []
  update_where p f (x ∷ xs) = (if p x then f x else x) ∷ update_where p f xs

  -- DELETE … WHERE p
  abbrev pub delete_where : (A → Bool) → List A → List A
  delete_where p [] = []
  delete_where p (x ∷ xs) = let rest = delete_where p xs in if p x then rest else x ∷ rest

module _ {ℓ κ} {A : Type ℓ} (P : A → Type κ) where
  -- Every row satisfies P.
  abbrev pub All : List A → Type κ
  All [] = Unit
  All (x ∷ xs) = P x × All xs

  pub All-append : (xs ys : List A) → All xs → All ys → All (xs ++ ys)
  All-append [] ys h k = k
  All-append (x ∷ xs) ys (p, h) k = (p, All-append xs ys h k)

  pub All-update :
      (p : A → Bool) (f : A → A) (xs : List A)
      → ((x : A) → p x ≡ true → P x → P (f x))
      → All xs
      → All (update_where p f xs)
  All-update p f [] keep h = tt
  All-update p f (x ∷ xs) keep (px, h) = elim (Bool-cases (p x)) [
    | inl hit ↦ rw hit (keep x hit px, All-update p f xs keep h)
    | inr miss ↦ rw miss (px, All-update p f xs keep h)
  ]

  pub All-delete : (p : A → Bool) (xs : List A) → All xs → All (delete_where p xs)
  All-delete p [] h = tt
  All-delete p (x ∷ xs) (px, h) = elim (Bool-cases (p x)) [
    | inl hit ↦ rw hit (All-delete p xs h)
    | inr miss ↦ rw miss (px, All-delete p xs h)
  ]

  pub All-find :
      (p : A → Bool) (xs : List A) {x : A} → All xs → find p xs ≡ some x → P x × (p x ≡ true)
  All-find p [] h e = cc
  All-find p (y ∷ xs) (py, h) e = elim (Bool-cases (p y)) [
    | inl hit ↦ ground arith
    | inr miss ↦ All-find p xs h (ground arith)
  ]

module _ {ℓ} {A : Type ℓ} where
  pub any-append : (q : A → Bool) (xs ys : List A) → any q (xs ++ ys) ≡ (any q xs || any q ys)
  any-append q [] ys = refl
  any-append q (x ∷ xs) ys = ground (arith, any-append q xs ys)

  -- An update that keeps q on the rows that it touches keeps a row with q.
  pub any-update :
      (q p : A → Bool) (f : A → A) (xs : List A)
      → ((x : A) → p x ≡ true → q x ≡ true → q (f x) ≡ true)
      → any q xs ≡ true
      → any q (update_where p f xs) ≡ true
  any-update q p f [] keep h = h
  any-update q p f (x ∷ xs) keep h = ground (arith, keep x, any-update q p f xs keep)

  -- An update keeps a row with q that it does not touch.
  pub any-update_other :
      (q p : A → Bool) (f : A → A) (xs : List A)
      → any (λ x. not (p x) && q x) xs ≡ true
      → any q (update_where p f xs) ≡ true
  any-update_other q p f [] h = h
  any-update_other q p f (x ∷ xs) h = ground (arith, any-update_other q p f xs)

  pub any-delete :
      (q p : A → Bool) (xs : List A)
      → any (λ x. not (p x) && q x) xs ≡ true
      → any q (delete_where p xs) ≡ true
  any-delete q p [] h = h
  any-delete q p (x ∷ xs) h = ground (arith, any-delete q p xs)

  pub any_of_count : (q : A → Bool) (xs : List A) → 0 < count_where q xs → any q xs ≡ true
  any_of_count q [] h = absurd (omega arith)
  any_of_count q (x ∷ xs) h = ground (arith, any_of_count q xs)

  pub count_of_any : (q : A → Bool) (xs : List A) → any q xs ≡ true → 0 < count_where q xs
  count_of_any q [] h = cc
  count_of_any q (x ∷ xs) h = ground (arith, count_of_any q xs)

  pub any_of_find : (q : A → Bool) (xs : List A) (x : A) → find q xs ≡ some x → any q xs ≡ true
  any_of_find q [] x h = cc
  any_of_find q (y ∷ xs) x h = ground (arith, any_of_find q xs x)

  pub find_of_any : (q : A → Bool) (xs : List A) → any q xs ≡ true → (x : A) × (find q xs ≡ some x)
  find_of_any q [] h = cc
  find_of_any q (y ∷ xs) h = elim (Bool-cases (q y)) [
    | inl hit ↦ (y, rw hit)
    | inr miss ↦ let (x, e) = find_of_any q xs (rw miss at h) in (x, rw miss e)
  ]

  -- After `UPDATE … WHERE p` or `DELETE … WHERE p` no row with q is left, if q rows have p and lose q.
  pub any-update_clear :
      (q p : A → Bool) (f : A → A) (xs : List A)
      → ((x : A) → q x ≡ true → p x ≡ true)
      → ((x : A) → q (f x) ≡ false)
      → any q (update_where p f xs) ≡ false
  any-update_clear q p f [] covers clears = refl
  any-update_clear q p f (x ∷ xs) covers clears =
      ground (arith, covers x, clears x, any-update_clear q p f xs covers clears)

  pub any-delete_clear :
      (q p : A → Bool) (xs : List A)
      → ((x : A) → q x ≡ true → p x ≡ true)
      → any q (delete_where p xs) ≡ false
  any-delete_clear q p [] covers = refl
  any-delete_clear q p (x ∷ xs) covers = ground (arith, covers x, any-delete_clear q p xs covers)

  pub any_ext : (p q : A → Bool) (xs : List A) → ((x : A) → p x ≡ q x) → any p xs ≡ any q xs
  any_ext p q [] e = refl
  any_ext p q (x ∷ xs) e = ground (arith, e x, any_ext p q xs e)

  pub count_where-append :
      (p : A → Bool) (xs ys : List A)
      → count_where p (xs ++ ys) ≡ count_where p xs + count_where p ys
  count_where-append p [] ys = omega arith
  count_where-append p (x ∷ xs) ys = ground (arith, count_where-append p xs ys)
