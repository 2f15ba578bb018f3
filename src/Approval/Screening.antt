-- ===== src/Approval/Screening.antt =====
-- The screening of a join request's comment: matchApproveComment and _matchReject of
-- src/modules/approval/index.ts.
use Prim.Native.Char.{code}
use qq_guardian.Base.{
  ℕ, Bool, true, false, ◌&&◌, ◌||◌, List, Option, none, some, String, ◌==◌, any, if◌then◌else◌,
}
use qq_guardian.Approval.Group.{
  RoutingAction, auto_approve, auto_reject, manual, captcha, ResolvedGroupConfig, PluginConfig,
}

pub data AutomaticApprovalReason : Type 0 where
  custom_keyword_matched custom_pattern_matched builtin_referral_heuristic policy_auto_approve :
      AutomaticApprovalReason

-- `text.startsWith(word)`
unfoldable pub starts_with : String → String → Bool
starts_with text String.[] = true
starts_with String.[] (String.◌∷◌ d word) = false
starts_with (String.◌∷◌ c text) (String.◌∷◌ d word) = (code c == code d) && starts_with text word

-- `text.includes(word)`
unfoldable pub includes : String → String → Bool
includes String.[] word = starts_with String.[] word
includes (String.◌∷◌ c text) word = starts_with (String.◌∷◌ c text) word || includes text word

abbrev pub is_manual : RoutingAction → Bool
is_manual manual = true
is_manual auto_approve = false
is_manual auto_reject = false
is_manual captcha = false

-- What a decision reads of the intelligence feed: `getRedFlag(user)` with its `enforced`, and the
-- tests of the patterns of `getEnforcedRejectPatterns()`.
pub record Feed : Type 0 where
  pub red_flag : ℕ → Option Bool
  pub enforced_reject_patterns : List (String → Bool)

-- `test pattern comment` is `new RegExp(pattern).test(comment)`, with `none` for a pattern that does
-- not compile; the two lists are the tests of the built-in patterns.
module _ (test : String → String → Option Bool)
    (builtin_reject_patterns builtin_approve_patterns : List (String → Bool)) where
  -- A pattern that does not compile matches nothing.
  abbrev pub pattern_matches : String → String → Bool
  pattern_matches comment pattern = elim (test pattern comment) [ none ↦ false | some b ↦ b ]

  unfoldable pub match_approve_comment :
      String → ResolvedGroupConfig → Bool → Option AutomaticApprovalReason
  match_approve_comment comment cfg use_builtin_approve_keywords =
      if any (includes comment) cfg.approve_keywords
      then some custom_keyword_matched
      else if any (pattern_matches comment) cfg.approve_patterns
      then some custom_pattern_matched
      else if is_manual cfg.action
          && use_builtin_approve_keywords
          && any (λ p. p comment) builtin_approve_patterns
      then some builtin_referral_heuristic
      else none

  unfoldable pub match_reject : String → ResolvedGroupConfig → PluginConfig → Feed → Option String
  match_reject comment cfg plugin feed =
      if any (includes comment) cfg.reject_keywords
        || any (pattern_matches comment) cfg.reject_patterns
        || plugin.use_builtin_reject_keywords && any (λ p. p comment) builtin_reject_patterns
        || any (λ p. p comment) feed.enforced_reject_patterns
      then some cfg.reject_reason
      else none
