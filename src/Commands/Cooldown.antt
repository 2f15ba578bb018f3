-- ===== src/Commands/Cooldown.antt =====
-- The cooldown of the chat commands in src/modules/commands/index.ts.
use qq_guardian.Base.{
  ℕ, ◌+◌, ◌-◌, ◌≤◌, ◌≡◌, refl, Bool, true, false, List, [], ◌∷◌, some, ltb, ◌==◌, ==_iff,
  delete_where, length, lookup, put, lookup-put, or_else, if◌then◌else◌, arith, Bool-cases, ◌⊎◌,
  inl, inr, if_cases, sym, subst, ◌∙◌, All, All-map, DistinctKeys, DistinctKeys-put,
  DistinctKeys-delete, lookup-delete,
}

abbrev pub cooldown_ms : ℕ
cooldown_ms = 2000

-- `_lastCommandAt`, with one number for the group and the user as key.
abbrev pub LastCommands : Type 0
LastCommands = List (ℕ × ℕ)

abbrev pub is_past : (now : ℕ) → ℕ × ℕ → Bool
is_past now (key, at) = ltb cooldown_ms (now - at)

-- The entry of a command, and the sweep of a large map.
abbrev pub noted : LastCommands → (key now : ℕ) → LastCommands
noted m key now =
    let m' = put m key now in if ltb 5000 (length m') then delete_where (is_past now) m' else m'

-- `false` beside the map is a command that is dropped.
unfoldable pub pass_cooldown : LastCommands → (key now : ℕ) → LastCommands × Bool
pass_cooldown m key now =
    if ltb (now - or_else (lookup m key) 0) cooldown_ms then (m, false) else (noted m key now, true)

pub record Attempt : Type 0 where
  pub key : ℕ
  pub at : ℕ

abbrev pub IsTimely : (since : ℕ) → List Attempt → Type 0
IsTimely t [] = Unit
IsTimely t (a ∷ log) = (t ≤ a.at) × IsTimely a.at log

-- The attempts of a log that pass.
abbrev pub accepted : LastCommands → List Attempt → List Attempt
accepted m [] = []
accepted m (a ∷ log) =
    let (m', passed) = pass_cooldown m a.key a.at in
    let rest = accepted m' log in if passed then a ∷ rest else rest

-- No attempt comes within the cooldown after an earlier one with its key.
abbrev pub IsSpaced : List Attempt → Type 0
IsSpaced [] = Unit
IsSpaced (a ∷ log) =
    All (λ (b : Attempt). b.key ≡ a.key → a.at + cooldown_ms ≤ b.at) log × IsSpaced log

-- A command at the time `v` is noted, or its cooldown is over by the time `t`.
abbrev IsHeld : LastCommands → (k v t : ℕ) → Type 0
IsHeld m k v t = (lookup m k ≡ some v) ⊎ (v + cooldown_ms ≤ t)

abbrev pub IsMap : LastCommands → Type 0
IsMap m = DistinctKeys (λ (p : ℕ × ℕ). p.0) m

noted-IsMap : (m : LastCommands) (key now : ℕ) → IsMap m → IsMap (noted m key now)
noted-IsMap m key now d =
    let d' = DistinctKeys-put m key now d in
    if_cases IsMap (ltb 5000 (length (put m key now)))
      (λ _. DistinctKeys-delete (λ (p : ℕ × ℕ). p.0) (is_past now) (put m key now) d') (λ _. d')

pass-IsMap : (m : LastCommands) (key now : ℕ) → IsMap m → IsMap (pass_cooldown m key now).0
unfolding pass_cooldown
pass-IsMap m key now d =
    if_cases (λ (r : LastCommands × Bool). IsMap r.0)
      (ltb (now - or_else (lookup m key) 0) cooldown_ms) (λ _. d) (λ _. noted-IsMap m key now d)

-- A sweep deletes only what is over.
swept-IsHeld :
    (m : LastCommands) (k v now : ℕ)
    → IsMap m
    → lookup m k ≡ some v
    → IsHeld (delete_where (is_past now) m) k v now
swept-IsHeld m k v now d e =
    let after = rw e at (lookup-delete (is_past now) m k d) in
    elim (Bool-cases (is_past now (k, v))) [
      | inl past ↦ inr (ground arith)
      | inr recent ↦ inl (after ∙ rw recent refl)
    ]

noted-IsHeld :
    (m : LastCommands) (key k v now : ℕ)
    → IsMap m
    → lookup (put m key now) k ≡ some v
    → IsHeld (noted m key now) k v now
noted-IsHeld m key k v now d e =
    if_cases (λ m'. IsHeld m' k v now) (ltb 5000 (length (put m key now)))
      (λ _. swept-IsHeld (put m key now) k v now (DistinctKeys-put m key now d) e) (λ _. inl e)

accepted-late :
    (t w : ℕ) (m : LastCommands) (log : List Attempt)
    → w ≤ t
    → IsTimely t log
    → All (λ (b : Attempt). w ≤ b.at) (accepted m log)
unfolding pass_cooldown
accepted-late t w m [] le timely = tt
accepted-late t w m (a ∷ log) le (first, timely) =
    if_cases
      (λ (r : LastCommands × Bool).
        All (λ (b : Attempt). w ≤ b.at) (if r.1 then a ∷ accepted r.0 log else accepted r.0 log))
      (ltb (a.at - or_else (lookup m a.key) 0) cooldown_ms)
      (λ _. accepted-late a.at w m log (omega arith) timely)
      (λ _. ((omega arith), accepted-late a.at w (noted m a.key a.at) log (omega arith) timely))

-- After a command is noted the next ones with its key come later.
held-later :
    (m : LastCommands) (k v t : ℕ) (log : List Attempt)
    → IsMap m
    → IsHeld m k v t
    → IsTimely t log
    → All (λ (b : Attempt). b.key ≡ k → v + cooldown_ms ≤ b.at) (accepted m log)
unfolding pass_cooldown
held-later m k v t [] d h timely = tt
held-later m k v t (a ∷ log) d (inr over) timely =
    All-map (accepted m (a ∷ log)) (λ b after _. after)
      (accepted-late t (v + cooldown_ms) m (a ∷ log) over timely)
held-later m k v t (a ∷ log) d (inl e) (first, timely) =
    if_cases
      (λ (r : LastCommands × Bool).
        All (λ (b : Attempt). b.key ≡ k → v + cooldown_ms ≤ b.at)
          (if r.1 then a ∷ accepted r.0 log else accepted r.0 log))
      (ltb (a.at - or_else (lookup m a.key) 0) cooldown_ms)
      (λ _. held-later m k v a.at log d (inl e) timely)
      (λ passed.
        let spaced : a.key ≡ k → v + cooldown_ms ≤ a.at = λ same.
          (let found : lookup m a.key ≡ some v = subst (λ j. lookup m j ≡ some v) (sym same) e in
            let free = rw found at passed in ground arith) in
        (
          spaced,
          elim (Bool-cases (a.key == k)) [
            | inl here ↦
                All-map (accepted (noted m a.key a.at) log) (λ b after _. after)
                  (accepted-late a.at (v + cooldown_ms) (noted m a.key a.at) log
                    (spaced ((==_iff a.key k).0 here)) timely)
            | inr other ↦
                held-later (noted m a.key a.at) k v a.at log (noted-IsMap m a.key a.at d)
                  (noted-IsHeld m a.key k v a.at d (lookup-put m a.key a.at k ∙ rw other e)) timely
          ],
        ))

-- Of the commands in the order of time, those of one administrator in one group that are not dropped are at
-- least the cooldown apart, also after sweeps of the map.
pub accepted-IsSpaced :
    (m : LastCommands) (log : List Attempt) (t : ℕ)
    → IsMap m
    → IsTimely t log
    → IsSpaced (accepted m log)
unfolding pass_cooldown
accepted-IsSpaced m [] t d timely = tt
accepted-IsSpaced m (a ∷ log) t d (first, timely) =
    if_cases
      (λ (r : LastCommands × Bool).
        IsSpaced (if r.1 then a ∷ accepted r.0 log else accepted r.0 log))
      (ltb (a.at - or_else (lookup m a.key) 0) cooldown_ms)
      (λ _. accepted-IsSpaced m log a.at d timely)
      (λ passed. (
        held-later (noted m a.key a.at) a.key a.at a.at log (noted-IsMap m a.key a.at d)
            (noted-IsHeld m a.key a.key a.at a.at d
              (lookup-put m a.key a.at a.key ∙ ground (arith, ==_iff a.key a.key)))
            timely,
        accepted-IsSpaced (noted m a.key a.at) log a.at (noted-IsMap m a.key a.at d) timely,
      ))
