-- ===== src/Base/Keys.antt =====
-- Tables with a numeric primary key: at most one row has a given key.
use Prim.Native.Nat.{ℕ, ◌<◌}
use mathlib.Core.Path.{◌≡◌, refl}
use mathlib.Core.Logic.{◌≢◌, inl, inr}
use mathlib.Core.Bool.{Bool, true, false, ◌&&◌, not}
use mathlib.Core.List.{List, [], ◌∷◌, ◌++◌}
use mathlib.Core.Option.{some}
use native.Mathlib.Omega.{arith}
use qq_guardian.Base.Tests.{◌==◌, ==_iff, if◌then◌else◌, Bool-cases}
use qq_guardian.Base.Table.{find, any, update_where, delete_where, All, All-find}

module _ {ℓ} {A : Type ℓ} where
  -- Weakening a property of all rows, with the rows' membership read off another one.
  pub All-map {κ μ} :
      {P : A → Type κ} {Q : A → Type μ} (xs : List A) → ((x : A) → P x → Q x) → All P xs → All Q xs
  All-map [] f h = tt
  All-map (x ∷ xs) f (p, h) = (f x p, All-map xs f h)

  pub All-trivial {κ} : {P : A → Type κ} (xs : List A) → ((x : A) → P x) → All P xs
  All-trivial [] f = tt
  All-trivial (x ∷ xs) f = (f x, All-trivial xs f)

  -- An update that keeps q on the rows of the table that it touches keeps a row with q.
  pub any-update_All :
      (q p : A → Bool) (f : A → A) (xs : List A)
      → All (λ x. p x ≡ true → q x ≡ true → q (f x) ≡ true) xs
      → any q xs ≡ true
      → any q (update_where p f xs) ≡ true
  any-update_All q p f [] keep h = h
  any-update_All q p f (x ∷ xs) (k, keep) h = ground (arith, any-update_All q p f xs keep)

  -- If no row of p has q, a row with q is one outside p.
  pub any_outside :
      (q p : A → Bool) (xs : List A)
      → All (λ x. p x ≡ true → q x ≡ false) xs
      → any q xs ≡ true
      → any (λ x. not (p x) && q x) xs ≡ true
  any_outside q p [] none_of h = h
  any_outside q p (x ∷ xs) (k, none_of) h = ground (arith, any_outside q p xs none_of)

  pub any_weaken :
      (q r : A → Bool) (xs : List A)
      → All (λ x. q x ≡ true → r x ≡ true) xs
      → any q xs ≡ true
      → any r xs ≡ true
  any_weaken q r [] k h = h
  any_weaken q r (x ∷ xs) (kx, k) h = ground (arith, any_weaken q r xs k)

module _ {ℓ} {A : Type ℓ} (key : A → ℕ) where
  abbrev pub has_key : ℕ → A → Bool
  has_key k x = key x == k

  abbrev pub DistinctKeys : List A → Type 0
  DistinctKeys [] = Unit
  DistinctKeys (x ∷ xs) = All (λ y. key y ≢ key x) xs × DistinctKeys xs

  none_else :
      (x : A) (xs : List A)
      → All (λ y. key y ≢ key x) xs
      → All (λ y. has_key (key x) y ≡ true → y ≡ x) xs
  none_else x xs h = All-map xs (λ y n e. absurd (n ((==_iff (key y) (key x)).0 e))) h

  -- The row that a search by key finds is the only one with that key.
  pub find_unique :
      (k : ℕ) (xs : List A) (c : A)
      → DistinctKeys xs
      → find (has_key k) xs ≡ some c
      → All (λ x. has_key k x ≡ true → x ≡ c) xs
  find_unique k [] c d e = tt
  find_unique k (x ∷ xs) c (fresh, d) e = elim (Bool-cases (has_key k x)) [
    | inl hit ↦
        let same : x ≡ c = ground arith in
        let at : key x ≡ k = (==_iff (key x) k).0 hit in
        ((λ _. same), All-map xs (λ y n g. absurd (n (ground (arith, ==_iff (key y) k)))) fresh)
    | inr miss ↦ ((λ g. cc), find_unique k xs c d (rw miss at e))
  ]

  pub DistinctKeys-update :
      (p : A → Bool) (f : A → A) (xs : List A)
      → ((x : A) → key (f x) ≡ key x)
      → DistinctKeys xs
      → DistinctKeys (update_where p f xs)
  DistinctKeys-update p f [] same d = tt
  DistinctKeys-update p f (x ∷ xs) same (fresh, d) =
      (others x xs fresh, DistinctKeys-update p f xs same d)
    where
      kept : (y : A) → key (if p y then f y else y) ≡ key y
      kept y = elim (Bool-cases (p y)) [ inl e ↦ rw e (same y) | inr e ↦ rw e refl ]

      others :
          (z : A) (ys : List A)
          → All (λ y. key y ≢ key z) ys
          → All (λ y. key y ≢ key (if p z then f z else z)) (update_where p f ys)
      others z [] h = tt
      others z (y ∷ ys) (n, h) = ((λ e. n (rw (kept y, kept z) at e)), others z ys h)

  pub DistinctKeys-delete :
      (p : A → Bool) (xs : List A) → DistinctKeys xs → DistinctKeys (delete_where p xs)
  DistinctKeys-delete p [] d = tt
  DistinctKeys-delete p (x ∷ xs) (fresh, d) = elim (Bool-cases (p x)) [
    | inl hit ↦ rw hit (DistinctKeys-delete p xs d)
    | inr miss ↦ rw miss (still xs fresh, DistinctKeys-delete p xs d)
  ]
    where
      still :
          (ys : List A) → All (λ y. key y ≢ key x) ys → All (λ y. key y ≢ key x) (delete_where p ys)
      still [] h = tt
      still (y ∷ ys) (n, h) = elim (Bool-cases (p y)) [
        | inl e ↦ rw e (still ys h)
        | inr e ↦ rw e (n, still ys h)
      ]

  -- A row whose key is above all others keeps the keys distinct.
  pub DistinctKeys-append :
      (xs : List A) (x : A) (k : ℕ)
      → key x ≡ k
      → All (λ y. key y < k) xs
      → DistinctKeys xs
      → DistinctKeys (xs ++ x ∷ [])
  DistinctKeys-append [] x k e h d = (tt, tt)
  DistinctKeys-append (y ∷ ys) x k e (lt, h) (fresh, d) =
      (ends ys fresh, DistinctKeys-append ys x k e h d)
    where
      ends : (zs : List A) → All (λ z. key z ≢ key y) zs → All (λ z. key z ≢ key y) (zs ++ x ∷ [])
      ends [] g = ((omega arith), tt)
      ends (z ∷ zs) (n, g) = (n, ends zs g)

  -- So does a row whose key no other has.
  pub DistinctKeys-add :
      (xs : List A) (x : A)
      → any (has_key (key x)) xs ≡ false
      → DistinctKeys xs
      → DistinctKeys (xs ++ x ∷ [])
  DistinctKeys-add [] x free d = (tt, tt)
  DistinctKeys-add (y ∷ ys) x free (fresh, d) =
      (ends ys fresh, DistinctKeys-add ys x (ground arith) d)
    where
      other : key x ≢ key y
      other e = absurd (ground (arith, ==_iff (key y) (key x)))

      ends : (zs : List A) → All (λ z. key z ≢ key y) zs → All (λ z. key z ≢ key y) (zs ++ x ∷ [])
      ends [] g = (other, tt)
      ends (z ∷ zs) (n, g) = (n, ends zs g)

  -- A search by a key above all others finds nothing but a row appended with it.
  pub find-append :
      (xs : List A) (x : A) (k : ℕ)
      → key x ≡ k
      → All (λ y. key y < k) xs
      → find (has_key k) (xs ++ x ∷ []) ≡ some x
  find-append [] x k e h = ground arith
  find-append (y ∷ ys) x k e (lt, h) = ground (arith, find-append ys x k e h)

  pub find-key : (k : ℕ) (xs : List A) (c : A) → find (has_key k) xs ≡ some c → key c ≡ k
  find-key k [] c e = cc
  find-key k (x ∷ xs) c e = elim (Bool-cases (has_key k x)) [
    | inl hit ↦ let same : x ≡ c = ground arith in rw (← same) ((==_iff (key x) k).0 hit)
    | inr miss ↦ find-key k xs c (rw miss at e)
  ]

  -- A search by key sees an update of the row that it finds.
  pub find-update :
      (k : ℕ) (f : A → A) (xs : List A) (c : A)
      → ((x : A) → key (f x) ≡ key x)
      → find (has_key k) xs ≡ some c
      → find (has_key k) (update_where (has_key k) f xs) ≡ some (f c)
  find-update k f [] c same e = cc
  find-update k f (x ∷ xs) c same e = elim (Bool-cases (has_key k x)) [
    | inl hit ↦
        let here : x ≡ c = ground arith in
        let still : has_key k (f x) ≡ true =
          ground (arith, same x, ==_iff (key x) k, ==_iff (key (f x)) k) in
        rw (hit, still) (ap_some here)
    | inr miss ↦ rw (miss, miss) (find-update k f xs c same (rw miss at e))
  ]
    where
      ap_some : {a b : A} → a ≡ b → some (f a) ≡ some (f b)
      ap_some p = cc

  -- A row that any search finds is found again by its key.
  pub find-again :
      (p : A → Bool) (xs : List A) (c : A)
      → DistinctKeys xs
      → find p xs ≡ some c
      → find (has_key (key c)) xs ≡ some c
  find-again p [] c d e = cc
  find-again p (x ∷ xs) c (fresh, d) e = elim (Bool-cases (p x)) [
    | inl hit ↦
        let same : x ≡ c = ground arith in
        let here : has_key (key c) x ≡ true = rw same ((==_iff (key c) (key c)).1 refl) in
        ground arith
    | inr miss ↦
        let later = rw miss at e in
        let other = (All-find (λ y. key y ≢ key x) p xs fresh later).0 in
        ground (arith, find-again p xs c d later, ==_iff (key x) (key c))
  ]

module _ {ℓ} {A : Type ℓ} where
  -- If an update makes no row have q, a row with q after it is one that it did not touch.
  pub any_untouched :
      (q p : A → Bool) (f : A → A) (xs : List A)
      → All (λ x. p x ≡ true → q (f x) ≡ false) xs
      → any q (update_where p f xs) ≡ true
      → any (λ x. not (p x) && q x) xs ≡ true
  any_untouched q p f [] k h = h
  any_untouched q p f (x ∷ xs) (kx, k) h = ground (arith, any_untouched q p f xs k)

  pub any_undeleted :
      (q p : A → Bool) (xs : List A)
      → any q (delete_where p xs) ≡ true
      → any (λ x. not (p x) && q x) xs ≡ true
  any_undeleted q p [] h = h
  any_undeleted q p (x ∷ xs) h = ground (arith, any_undeleted q p xs)

  -- A row that a search finds and that has q.
  pub any_found :
      (q p : A → Bool) (xs : List A) (c : A) → find p xs ≡ some c → q c ≡ true → any q xs ≡ true
  any_found q p [] c e h = cc
  any_found q p (x ∷ xs) c e h = ground (arith, any_found q p xs c)

  -- A search sees an update of the row that it finds, if the update keeps what it looks for.
  pub find-updated :
      (key : A → ℕ) (p : A → Bool) (f : A → A) (xs : List A) (c : A)
      → ((x : A) → p (f x) ≡ p x)
      → find p xs ≡ some c
      → find p (update_where (λ x. key x == key c) f xs) ≡ some (f c)
  find-updated key p f [] c same e = cc
  find-updated key p f (x ∷ xs) c same e = elim (Bool-cases (p x)) [
    | inl hit ↦
        let here : x ≡ c = ground arith in
        let touched : (key x == key c) ≡ true = rw here ((==_iff (key c) (key c)).1 refl) in
        rw (touched, same x, hit) (let g : some (f x) ≡ some (f c) = cc in g)
    | inr miss ↦ let ih = find-updated key p f xs c same (rw miss at e) in ground (arith, same x)
  ]
