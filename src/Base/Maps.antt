-- ===== src/Base/Maps.antt =====
-- Maps with numbers as keys, in the order of insertion: JavaScript's `Map`.
use Prim.Native.Nat.{ℕ}
use mathlib.Core.Path.{◌≡◌, refl, subst, ap}
use mathlib.Core.Logic.{◌≢◌, inl, inr}
use mathlib.Core.Bool.{Bool}
use mathlib.Core.Option.{Option, none, some}
use mathlib.Core.List.{List, [], ◌∷◌}
use native.Mathlib.Omega.{arith}
use qq_guardian.Base.Tests.{◌==◌, ==_iff, if◌then◌else◌, if_cases, Bool-cases}
use qq_guardian.Base.Table.{All, delete_where}
use qq_guardian.Base.Keys.{DistinctKeys}

module _ {ℓ} {A : Type ℓ} where
  abbrev pub lookup : List (ℕ × A) → ℕ → Option A
  lookup [] k = none
  lookup ((j, a) ∷ m) k = let rest = lookup m k in if j == k then some a else rest

  -- `set`
  abbrev pub put : List (ℕ × A) → ℕ → A → List (ℕ × A)
  put [] k a = (k, a) ∷ []
  put ((j, b) ∷ m) k a = let rest = put m k a in if j == k then (j, a) ∷ m else (j, b) ∷ rest

  pub lookup-put :
      (m : List (ℕ × A)) (k : ℕ) (a : A) (i : ℕ)
      → lookup (put m k a) i ≡ (if k == i then some a else lookup m i)
  lookup-put [] k a i = refl
  lookup-put ((j, b) ∷ m) k a i =
      ground (arith, lookup-put m k a i, ==_iff j k, ==_iff k i, ==_iff j i)

  -- `put` and the deletion of entries keep the keys of a map distinct.
  pub DistinctKeys-put :
      (m : List (ℕ × A)) (k : ℕ) (a : A)
      → DistinctKeys (λ (p : ℕ × A). p.0) m
      → DistinctKeys (λ (p : ℕ × A). p.0) (put m k a)
  DistinctKeys-put [] k a d = (tt, tt)
  DistinctKeys-put ((j, b) ∷ m) k a (fresh, d) =
      if_cases (DistinctKeys (λ (p : ℕ × A). p.0)) (j == k) (λ here. (fresh, d))
        (λ other.
          (still m fresh (λ e. absurd (ground (arith, ==_iff j k))), DistinctKeys-put m k a d))
    where
      still :
          (xs : List (ℕ × A))
          → All (λ (p : ℕ × A). p.0 ≢ j) xs
          → k ≢ j
          → All (λ (p : ℕ × A). p.0 ≢ j) (put xs k a)
      still [] h n = (n, tt)
      still ((i, c) ∷ xs) (o, h) n =
          if_cases (All (λ (p : ℕ × A). p.0 ≢ j)) (i == k) (λ _. (o, h)) (λ _. (o, still xs h n))

  lookup-absent :
      (p : ℕ × A → Bool) (m : List (ℕ × A)) (i : ℕ)
      → All (λ (q : ℕ × A). q.0 ≢ i) m
      → lookup (delete_where p m) i ≡ none
  lookup-absent p [] i h = refl
  lookup-absent p ((j, b) ∷ m) i (n, h) =
      if_cases (λ xs. lookup xs i ≡ none) (p (j, b)) (λ _. lookup-absent p m i h)
        (λ _. ground (arith, lookup-absent p m i h, ==_iff j i))

  pub lookup-delete :
      (p : ℕ × A → Bool) (m : List (ℕ × A)) (i : ℕ)
      → DistinctKeys (λ (p : ℕ × A). p.0) m
      → lookup (delete_where p m) i
        ≡ elim (lookup m i) [ none ↦ none | some a ↦ if p (i, a) then none else some a ]
  lookup-delete p [] i d = refl
  lookup-delete p ((j, b) ∷ m) i (fresh, d) = elim (Bool-cases (j == i)) [
    | inl here ↦
        let same : j ≡ i = (==_iff j i).0 here in
        let gone = lookup-absent p m i (subst (λ k. All (λ (q : ℕ × A). q.0 ≢ k) m) same fresh) in
        let alike : p (j, b) ≡ p (i, b) = ap (λ k. p (k, b)) same in
        elim (Bool-cases (p (j, b))) [ inl hit ↦ ground arith | inr miss ↦ ground arith ]
    | inr other ↦
        let rest = lookup-delete p m i d in
        elim (Bool-cases (p (j, b))) [
          | inl hit ↦ rw (hit, other) rest
          | inr miss ↦ rw (miss, other) rest
        ]
  ]
