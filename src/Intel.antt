-- ===== src/Intel.antt =====
-- The intelligence feeds that the service holds and the red flags that it takes from them:
-- src/modules/intel/index.ts and src/core/config/intel.ts.
mod Trust
mod Tests
use qq_guardian.Base.{
  ℕ, Bool, true, false, not, ◌&&◌, ◌||◌, String, str_eq, List, [], ◌∷◌, ◌++◌, Option, none, some,
  any, lookup, put, delete_where, is_none, is_some, if◌then◌else◌,
}
use qq_guardian.Risk.Detection.{Keyword}

pub data RedFlagAction : Type 0 where
  reject kick : RedFlagAction

pub record IntelRedFlag : Type 0 where
  pub user_id : ℕ
  pub action : RedFlagAction
  pub reason : String

-- ParsedFeed. A pattern is its test.
pub record Feed : Type 0 where
  pub red_flags : List IntelRedFlag
  pub risk_keywords : List Keyword
  pub reject_patterns : List (String → Bool)

-- The fields of IntelConfig that the policy reads. `enforces` is the enforcement mode `enforce`.
pub record IntelConfig : Type 0 where
  pub enabled : Bool
  pub enforces : Bool
  pub feed_urls : List String
  pub feed_pins : List (String × String)

pub record IntelPolicy : Type 0 where
  pub enabled : Bool
  pub enforces : Bool
  pub urls : List String
  pub pins : List (String × String)

-- The red flags have the users as keys, the feeds and the digests their URLs. Left out: the log of failures,
-- the status of the sources and what the refresh keeps for itself.
pub record IntelService : Type 0 where
  pub red_flags : List (ℕ × (RedFlagAction × String))
  pub risk_keywords : List Keyword
  pub reject_patterns : List (String → Bool)
  pub source_feeds : List (String × Feed)
  pub source_digests : List (String × String)

pub record IntelRedFlagMatch : Type 0 where
  pub action : RedFlagAction
  pub reason : String
  pub enforced : Bool

-- `get` of a map with texts as keys.
abbrev pub get {ℓ} : {A : Type ℓ} → List (String × A) → String → Option A
get [] url = none
get ((key, a) ∷ m) url = let rest = get m url in if str_eq key url then some a else rest

abbrev pub has : List String → String → Bool
has urls url = any (λ u. str_eq u url) urls

-- `canonical` trims and parses a URL and prints it without its hash, or gives `none` where parsing throws.
abbrev normalized_from :
    (canonical : String → Option String) → (normalized values : List String) → List String
normalized_from canonical normalized [] = normalized
normalized_from canonical normalized (value ∷ values) = elim (canonical value) [
  | none ↦ normalized_from canonical normalized values
  | some url ↦
      normalized_from canonical (if has normalized url then normalized else normalized ++ url ∷ [])
        values
]

unfoldable pub normalize_intel_feed_urls :
    (canonical : String → Option String) → List String → List String
normalize_intel_feed_urls canonical values = normalized_from canonical [] values

abbrev pub is_intel_enforcement_active : IntelConfig → Bool
is_intel_enforcement_active config = config.enabled && config.enforces

-- A pin that is the empty text counts as none.
abbrev pub pins_of : List (String × String) → List String → List (String × String)
pins_of feed_pins [] = []
pins_of feed_pins (url ∷ urls) =
    let rest = pins_of feed_pins urls in
    elim (get feed_pins url) [
      | none ↦ rest
      | some pin ↦ if str_eq pin "" then rest else (url, pin) ∷ rest
    ]

unfoldable pub read_intel_policy : (canonical : String → Option String) → IntelConfig → IntelPolicy
read_intel_policy canonical config =
    let urls =
      if config.enabled then normalize_intel_feed_urls canonical config.feed_urls else [] in
    record {
      enabled = config.enabled;
      enforces = config.enforces;
      urls = urls;
      pins = pins_of config.feed_pins urls;
    }

abbrev pub merged : List (String × Feed) → List String → Feed
merged feeds [] = record { red_flags = []; risk_keywords = []; reject_patterns = [] }
merged feeds (url ∷ urls) =
    let rest = merged feeds urls in
    elim (get feeds url) [
      | none ↦ rest
      | some feed ↦ record {
        red_flags = feed.red_flags ++ rest.red_flags;
        risk_keywords = feed.risk_keywords ++ rest.risk_keywords;
        reject_patterns = feed.reject_patterns ++ rest.reject_patterns;
      }
    ]

unfoldable pub reconcile_intel_source_feeds :
    List String → List (String × Feed) → List (String × Feed) × Feed
reconcile_intel_source_feeds urls source_feeds =
    let feeds = delete_where (λ (e : String × Feed). not (has urls e.0)) source_feeds in
    (feeds, merged feeds urls)

abbrev pub replaces : (prior : RedFlagAction) (action : RedFlagAction) → Bool
replaces reject kick = true
replaces reject reject = false
replaces kick action = false

abbrev pub flagged :
    List (ℕ × (RedFlagAction × String)) → IntelRedFlag → List (ℕ × (RedFlagAction × String))
flagged m f = elim (lookup m f.user_id) [
  | none ↦ put m f.user_id (f.action, f.reason)
  | some prior ↦ if replaces prior.0 f.action then put m f.user_id (f.action, f.reason) else m
]

abbrev pub flag_table :
    List (ℕ × (RedFlagAction × String)) → List IntelRedFlag → List (ℕ × (RedFlagAction × String))
flag_table m [] = m
flag_table m (f ∷ flags) = flag_table (flagged m f) flags

unfoldable pub activate_configured_feeds : IntelService → List String → IntelService
activate_configured_feeds s urls =
    let (feeds, all) = reconcile_intel_source_feeds urls s.source_feeds in
    record {
      red_flags = flag_table [] all.red_flags;
      risk_keywords = all.risk_keywords;
      reject_patterns = all.reject_patterns;
      source_feeds = feeds;
      source_digests =
          delete_where (λ (d : String × String). is_none (get feeds d.0)) s.source_digests;
    }

-- `digest !== pin`
abbrev pub is_other : (digest : Option String) (pin : String) → Bool
is_other none pin = true
is_other (some digest) pin = not (str_eq digest pin)

abbrev pub is_revoked : IntelPolicy → (digests : List (String × String)) → (url : String) → Bool
is_revoked policy digests url = not (has policy.urls url) || (elim (get policy.pins url) [
  | none ↦ policy.enforces
  | some pin ↦ is_other (get digests url) pin
])

unfoldable pub reconcile_configured_sources : IntelService → IntelPolicy → IntelService
reconcile_configured_sources s policy =
    let revoked = is_revoked policy s.source_digests in
    activate_configured_feeds
      (record s {
        source_feeds = delete_where (λ (e : String × Feed). revoked e.0) s.source_feeds;
        source_digests =
            delete_where (λ (d : String × String). revoked d.0 && is_some (get s.source_feeds d.0))
              s.source_digests;
      })
      policy.urls

unfoldable pub get_red_flag : IntelConfig → IntelService → (user_id : ℕ) → Option IntelRedFlagMatch
get_red_flag config s user_id =
    if not config.enabled then none else elim (lookup s.red_flags user_id) [
      | none ↦ none
      | some match ↦ some (record {
        action = match.0;
        reason = match.1;
        enforced = is_intel_enforcement_active config;
      })
    ]
