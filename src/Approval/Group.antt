-- ===== src/Approval/Group.antt =====
-- The effective settings of a group: resolveGroupConfig of src/core/config/group.ts.
use qq_guardian.Base.{ℕ, Bool, false, List, [], Option, none, some, String}

pub data RoutingAction : Type 0 where
  auto_approve auto_reject manual captcha : RoutingAction

-- `GroupApprovalConfig` as a saved override, in which each field may be missing.
pub record GroupApprovalConfig : Type 0 where
  pub enabled : Option Bool
  pub action : Option RoutingAction
  pub approve_keywords : Option (List String)
  pub reject_keywords : Option (List String)
  pub approve_patterns : Option (List String)
  pub reject_patterns : Option (List String)
  pub reject_reason : Option String
  pub risk_enabled : Option Bool
  pub auto_kick_blacklisted : Option Bool
  pub notify_on_risk : Option Bool
  pub notify_on_join : Option Bool
  pub group_name : Option String
  pub welcome_enabled : Option Bool
  pub welcome_template : Option String
  pub curfew_enabled : Option Bool
  pub curfew_start : Option String
  pub curfew_end : Option String

pub record ResolvedGroupConfig : Type 0 where
  pub enabled : Bool
  pub action : RoutingAction
  pub approve_keywords : List String
  pub reject_keywords : List String
  pub approve_patterns : List String
  pub reject_patterns : List String
  pub reject_reason : String
  pub risk_enabled : Bool
  pub auto_kick_blacklisted : Bool
  pub notify_on_risk : Bool
  pub notify_on_join : Bool
  pub group_name : String
  pub welcome_enabled : Bool
  pub welcome_template : String
  pub curfew_enabled : Bool
  pub curfew_start : String
  pub curfew_end : String

-- The fields of `PluginConfig` that routing reads.
pub record PluginConfig : Type 0 where
  pub default_group_enabled : Bool
  pub default_action : RoutingAction
  pub groups : ℕ → Option GroupApprovalConfig
  pub pending_ttl_seconds : ℕ
  pub use_builtin_reject_keywords : Bool
  pub use_builtin_approve_keywords : Bool
  pub risk_enabled : Bool
  pub auto_kick_on_join : Bool

-- `g?.field ?? fallback`
abbrev pub field_or {ℓ} :
    {A : Type ℓ} → Option GroupApprovalConfig → (GroupApprovalConfig → Option A) → A → A
field_or none field fallback = fallback
field_or (some g) field fallback = elim (field g) [ none ↦ fallback | some a ↦ a ]

unfoldable pub resolve_group_config : PluginConfig → ℕ → ResolvedGroupConfig
resolve_group_config cfg group_id =
    let g = cfg.groups group_id in
    record {
      enabled = field_or g (λ o. o.enabled) cfg.default_group_enabled;
      action = field_or g (λ o. o.action) cfg.default_action;
      approve_keywords = field_or g (λ o. o.approve_keywords) [];
      reject_keywords = field_or g (λ o. o.reject_keywords) [];
      approve_patterns = field_or g (λ o. o.approve_patterns) [];
      reject_patterns = field_or g (λ o. o.reject_patterns) [];
      reject_reason = field_or g (λ o. o.reject_reason) "不符合入群要求";
      risk_enabled = field_or g (λ o. o.risk_enabled) cfg.risk_enabled;
      auto_kick_blacklisted = field_or g (λ o. o.auto_kick_blacklisted) cfg.auto_kick_on_join;
      notify_on_risk = field_or g (λ o. o.notify_on_risk) false;
      notify_on_join = field_or g (λ o. o.notify_on_join) false;
      group_name = field_or g (λ o. o.group_name) "";
      welcome_enabled = field_or g (λ o. o.welcome_enabled) false;
      welcome_template = field_or g (λ o. o.welcome_template) "";
      curfew_enabled = field_or g (λ o. o.curfew_enabled) false;
      curfew_start = field_or g (λ o. o.curfew_start) "23:00";
      curfew_end = field_or g (λ o. o.curfew_end) "07:00";
    }
