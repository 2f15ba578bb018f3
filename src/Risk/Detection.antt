-- ===== src/Risk/Detection.antt =====
-- _detect of RiskService in src/modules/risk/index.ts.
use qq_guardian.Base.{
  join_text, ℕ, ◌-◌, Bool, false, List, [], ◌∷◌, ◌++◌, Option, none, some, String, ltb, leb, any,
  length, lookup, put, or_else, if◌then◌else◌,
}
use qq_guardian.Risk.History.{History, is_flood}
use qq_guardian.Risk.Severity.{RiskAction, normalize_rule_action}

pub record Hit : Type 0 where
  pub name : String
  pub action : RiskAction

-- The tests of the built-in patterns of a detector.
pub record Detector : Type 0 where
  pub name : String
  pub patterns : List (String → Bool)

-- A row of risk_rules that is enabled, with the test of its pattern.
pub record Rule : Type 0 where
  pub name : String
  pub test : String → Bool
  pub action : String

-- A keyword that the intelligence feed enforces.
pub record Keyword : Type 0 where
  pub name : String
  pub test : String → Bool
  pub action : RiskAction

-- `detector_actions` has `none` for a detector that is not configured, and `some none` for `off`.
pub record RiskConfig : Type 0 where
  pub detector_actions : String → Option (Option RiskAction)
  pub mute_duration_seconds : ℕ
  pub ai_min_score : ℕ
  pub recall_message : Bool

-- What the detection reads besides the history.
pub record Sources : Type 0 where
  pub builtin : List Detector
  pub rules : List Rule
  pub keywords : List Keyword

-- `detectorActions[name] ?? 'off'`
abbrev pub action_of : RiskConfig → String → Option RiskAction
action_of cfg name = or_else (cfg.detector_actions name) none

abbrev pub hit_if : Bool → String → Option RiskAction → List Hit
hit_if matches name none = []
hit_if matches name (some action) =
    if matches then record { name = name; action = action } ∷ [] else []

abbrev pub builtin_hits : RiskConfig → List Detector → String → List Hit
builtin_hits cfg [] text = []
builtin_hits cfg (d ∷ ds) text =
    hit_if (any (λ re. re text) d.patterns) d.name (action_of cfg d.name)
    ++ builtin_hits cfg ds text

abbrev pub rule_hits : List Rule → String → List Hit
rule_hits [] text = []
rule_hits (r ∷ rs) text =
    hit_if (r.test text) (join_text "rule:" r.name) (normalize_rule_action r.action)
    ++ rule_hits rs text

abbrev pub keyword_hits : List Keyword → String → List Hit
keyword_hits [] text = []
keyword_hits (k ∷ ks) text =
    hit_if (k.test text) (join_text "cloud:" k.name) (some k.action) ++ keyword_hits ks text

unfoldable pub cheap_hits :
    RiskConfig → Sources → History → (text : String) → (key now : ℕ) → List Hit
cheap_hits cfg from h text key now =
    builtin_hits cfg from.builtin text
    ++ (hit_if (is_flood h key now) "duplicateMessages" (action_of cfg "duplicateMessages")
        ++ (rule_hits from.rules text ++ keyword_hits from.keywords text))

abbrev pub ai_memo_ttl_ms : ℕ
ai_memo_ttl_ms = 600000

abbrev pub ai_memo_max : ℕ
ai_memo_max = 500

-- The scores of texts, by the hash of the text, with the time of the analysis; the oldest first.
abbrev pub Memo : Type 0
Memo = List (ℕ × (ℕ × ℕ))

abbrev pub without_oldest : Memo → Memo
without_oldest [] = []
without_oldest (x ∷ xs) = xs

unfoldable pub memoized : Memo → (hash now : ℕ) → Option ℕ
memoized memo hash now = elim (lookup memo hash) [
  | none ↦ none
  | some (score, ts) ↦ if ltb (now - ts) ai_memo_ttl_ms then some score else none
]

unfoldable pub remember : Memo → (hash score now : ℕ) → Memo
remember memo hash score now =
    put (if leb ai_memo_max (length memo) then without_oldest memo else memo) hash (score, now)

-- `md5` is the hash, `analyze` the answer of the provider, `none` if it has none.
module _ (md5 : String → ℕ) (analyze : String → Option ℕ) where
  unfoldable pub ai_score : Memo → String → (now : ℕ) → Memo × Option ℕ
  ai_score memo text now = elim (memoized memo (md5 text) now) [
    | some score ↦ (memo, some score)
    | none ↦ elim (analyze text) [
      | none ↦ (memo, none)
      | some score ↦ (remember memo (md5 text) score now, some score)
    ]
  ]

  abbrev pub reaches : Option ℕ → (least : ℕ) → Bool
  reaches none least = false
  reaches (some score) least = leb least score

  abbrev pub ai_hits : RiskConfig → Memo → String → ℕ → Option RiskAction → Memo × List Hit
  ai_hits cfg memo text now none = (memo, [])
  ai_hits cfg memo text now (some action) =
      let (memo', score) = ai_score memo text now in
      (memo', hit_if (reaches score cfg.ai_min_score) "aiViolation" (some action))

  -- The provider is asked only if nothing else matched.
  unfoldable pub detect :
      RiskConfig → Sources → History → Memo → (text : String) → (key now : ℕ) → Memo × List Hit
  detect cfg from h memo text key now = elim (cheap_hits cfg from h text key now) [
    | [] ↦ ai_hits cfg memo text now (action_of cfg "aiViolation")
    | ◌∷◌ hit hits ↦ (memo, hit ∷ hits)
  ]
