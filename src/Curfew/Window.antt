-- ===== src/Curfew/Window.antt =====
-- parseHHMM and isInCurfewWindow of src/modules/curfew/index.ts.
use Prim.Native.Char.{code}
use qq_guardian.Base.{
  ℕ, ◌+◌, ◌-◌, ◌*◌, ◌%◌, ◌<◌, ◌≡◌, ◌↔◌, Bool, true, false, ◌&&◌, ◌||◌, Option, none, some, String,
  ltb, leb, ◌==◌, arith, if◌then◌else◌,
}

abbrev pub is_digit_in : (least most : ℕ) → ℕ → Bool
is_digit_in least most c = leb least c && leb c most

-- `[01]\d` or `2[0-3]`
abbrev pub is_hour : (tens units : ℕ) → Bool
is_hour a b = (is_digit_in 48 49 a && is_digit_in 48 57 b) || (a == 50 && is_digit_in 48 51 b)

-- The test of five characters against `^([01]\d|2[0-3]):([0-5]\d)$`, and the minutes since midnight.
abbrev pub minutes_of : (a b c d e : ℕ) → Option ℕ
minutes_of a b c d e =
    if is_hour a b && (c == 58 && (is_digit_in 48 53 d && is_digit_in 48 57 e))
    then some (((a - 48) * 10 + (b - 48)) * 60 + ((d - 48) * 10 + (e - 48)))
    else none

unfoldable pub parse_hhmm : String → Option ℕ
parse_hhmm (String.◌∷◌ a (String.◌∷◌ b (String.◌∷◌ c (String.◌∷◌ d (String.◌∷◌ e String.[]))))) =
    minutes_of (code a) (code b) (code c) (code d) (code e)
parse_hhmm _ = none

-- The window [start, end): empty if both are one time, across midnight if the start is later.
unfoldable pub is_in_curfew_window : (now_minutes start_minutes end_minutes : ℕ) → Bool
is_in_curfew_window now start end =
    if start == end
    then false
    else if ltb start end
    then leb start now && ltb now end
    else leb start now || ltb now end

-- The time is in the window if and only if, going round the clock from the start, it comes before the end.
pub is_in_curfew_window_iff :
    (now start end : ℕ)
    → now < 1440
    → start < 1440
    → end < 1440
    → (is_in_curfew_window now start end ≡ true)
      ↔ ((now + (1440 - start)) % 1440 < (end + (1440 - start)) % 1440)
unfolding is_in_curfew_window
is_in_curfew_window_iff now start end n s e = ground arith
