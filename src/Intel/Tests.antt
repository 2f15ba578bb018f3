-- ===== src/Intel/Tests.antt =====
-- Two feeds, one of them pinned, and a test of the feeds of src/modules/intel/index.ts.
use qq_guardian.Base.{◌≡◌, refl, ℕ, true, List, [], ◌∷◌, none, some}
use qq_guardian.Intel.{
  RedFlagAction, IntelRedFlag, Feed, IntelConfig, IntelService, IntelRedFlagMatch, get_red_flag,
  normalize_intel_feed_urls, read_intel_policy, reconcile_configured_sources,
  reconcile_intel_source_feeds, activate_configured_feeds,
}
use qq_guardian.Intel.Trust.{IsBacked, get_red_flag-IsBacked}

abbrev flag : ℕ → RedFlagAction → IntelRedFlag
flag u action = record { user_id = u; action = action; reason = "spam" }

abbrev feed_of : List IntelRedFlag → Feed
feed_of flags = record { red_flags = flags; risk_keywords = []; reject_patterns = [] }

-- The feed at `c` is not configured, and the digest of that at `b` is not its pin.
abbrev settings : IntelConfig
settings = record {
  enabled = true;
  enforces = true;
  feed_urls = "a" ∷ "b" ∷ "a" ∷ "e" ∷ [];
  feed_pins = ("a", "d1") ∷ ("b", "d2") ∷ ("e", "d5") ∷ [];
}

abbrev fetched : IntelService
fetched = record {
  red_flags = [];
  risk_keywords = [];
  reject_patterns = [];
  source_feeds =
      ("c", feed_of (flag 3 RedFlagAction.kick ∷ []))
      ∷ ("b", feed_of (flag 2 RedFlagAction.kick ∷ []))
      ∷ ("a", feed_of (flag 1 RedFlagAction.reject ∷ flag 4 RedFlagAction.kick ∷ []))
      ∷ ("e", feed_of (flag 1 RedFlagAction.kick ∷ flag 4 RedFlagAction.reject ∷ []))
      ∷ [];
  source_digests = ("a", "d1") ∷ ("b", "d7") ∷ ("c", "d3") ∷ ("e", "d5") ∷ [];
}

abbrev kicked : IntelRedFlagMatch
kicked = record { action = RedFlagAction.kick; reason = "spam"; enforced = true }

-- The more severe action counts, and of data that is revoked nothing.
the_flags_given :
    let after = reconcile_configured_sources fetched (read_intel_policy some settings) in
    (get_red_flag settings after 1 ≡ some kicked)
    × (get_red_flag settings after 2 ≡ none)
    × (get_red_flag settings after 3 ≡ none)
    × (get_red_flag settings after 4 ≡ some kicked)
unfolding get_red_flag reconcile_configured_sources read_intel_policy normalize_intel_feed_urls
    activate_configured_feeds reconcile_intel_source_feeds
the_flags_given = (refl, refl, refl, refl)

get_red_flag-IsBacked_example :
    IsBacked (read_intel_policy some settings) fetched 1 RedFlagAction.kick "spam"
    × (true ≡ (read_intel_policy some settings).enforces)
get_red_flag-IsBacked_example =
    get_red_flag-IsBacked some settings fetched 1 kicked the_flags_given.0
