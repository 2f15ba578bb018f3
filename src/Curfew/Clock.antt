-- ===== src/Curfew/Clock.antt =====
-- The times HH:MM of a curfew, read and written.
use Prim.Native.Char.{code}
use qq_guardian.Base.{
  ℕ, ◌+◌, ◌%◌, ◌/◌, ◌<◌, ◌≡◌, ◌↔◌, List, [], ◌∷◌, Option, none, some, String, arith, ap, ◌∙◌,
}
use qq_guardian.Curfew.Window.{minutes_of, parse_hhmm}

-- The code points of a text.
unfoldable pub codes : String → List ℕ
codes String.[] = []
codes (String.◌∷◌ c s) = code c ∷ codes s

-- A time of the day as HH:MM.
unfoldable pub print_hhmm : ℕ → List ℕ
print_hhmm m =
    (48 + m / 600) ∷ (48 + m / 60 % 10) ∷ 58 ∷ (48 + m % 60 / 10) ∷ (48 + m % 60 % 10) ∷ []

minutes_of-read :
    (a b c d e m : ℕ)
    → minutes_of a b c d e ≡ some m
    → (m < 1440) × (a ∷ b ∷ c ∷ d ∷ e ∷ [] ≡ print_hhmm m)
unfolding print_hhmm
minutes_of-read a b c d e m h = ground arith

minutes_of-printed :
    (m : ℕ)
    → m < 1440
    → minutes_of (48 + m / 600) (48 + m / 60 % 10) 58 (48 + m % 60 / 10) (48 + m % 60 % 10) ≡ some m
minutes_of-printed m h = ground arith

of_five : List ℕ → Option ℕ
of_five (a ∷ b ∷ c ∷ d ∷ e ∷ []) = minutes_of a b c d e
of_five _ = none

-- A text is read as the minute m if and only if m is a minute of the day and the text is m, as HH:MM. So
-- each minute is read back from its text, and no other text is read.
pub parse_hhmm_iff :
    (s : String) (m : ℕ) → (parse_hhmm s ≡ some m) ↔ ((m < 1440) × (codes s ≡ print_hhmm m))
unfolding parse_hhmm codes print_hhmm of_five
parse_hhmm_iff String.[] m = ((λ h. absurd (cc)), (λ h. absurd (let e = h.1 in cc)))
parse_hhmm_iff (String.◌∷◌ a String.[]) m = ((λ h. absurd (cc)), (λ h. absurd (let e = h.1 in cc)))
parse_hhmm_iff (String.◌∷◌ a (String.◌∷◌ b String.[])) m =
    ((λ h. absurd (cc)), (λ h. absurd (let e = h.1 in cc)))
parse_hhmm_iff (String.◌∷◌ a (String.◌∷◌ b (String.◌∷◌ c String.[]))) m =
    ((λ h. absurd (cc)), (λ h. absurd (let e = h.1 in cc)))
parse_hhmm_iff (String.◌∷◌ a (String.◌∷◌ b (String.◌∷◌ c (String.◌∷◌ d String.[])))) m =
    ((λ h. absurd (cc)), (λ h. absurd (let e = h.1 in cc)))
parse_hhmm_iff (String.◌∷◌ a (String.◌∷◌ b (String.◌∷◌ c (String.◌∷◌ d (String.◌∷◌ e String.[])))))
      m =
    (
      (λ h. minutes_of-read (code a) (code b) (code c) (code d) (code e) m h),
      (λ h. ap of_five h.1 ∙ minutes_of-printed m h.0),
    )
parse_hhmm_iff
      (String.◌∷◌ a (String.◌∷◌ b (String.◌∷◌ c (String.◌∷◌ d (String.◌∷◌ e (String.◌∷◌ f s))))))
      m =
    ((λ h. absurd (cc)), (λ h. absurd (let e = h.1 in cc)))
