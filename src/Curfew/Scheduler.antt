-- ===== src/Curfew/Scheduler.antt =====
-- The tick of the scheduler of src/modules/curfew/index.ts and its stop.
use qq_guardian.Base.{
  ℕ, Bool, true, false, ◌&&◌, not, List, [], ◌∷◌, ◌++◌, Option, none, some, String, if◌then◌else◌,
  lookup, put,
}
use qq_guardian.Approval.Group.{PluginConfig, ResolvedGroupConfig, resolve_group_config}
use qq_guardian.Curfew.Window.{parse_hhmm, is_in_curfew_window}

-- The calls `set_group_whole_ban` and `send_group_msg`.
pub data Call : Type 0 where
  set_group_whole_ban : (group : ℕ) (enable : Bool) → Call
  announce_start : (group : ℕ) (until : String) → Call
  announce_end : (group : ℕ) → Call

-- The events `AuditCreated`.
pub data Event : Type 0 where
  curfew_start : ℕ → Event
  curfew_end : (group : ℕ) (at_shutdown : Bool) → Event

-- `applied` is `_lastApplied`, the states of the groups that were last applied with success.
pub record Scheduler : Type 0 where
  pub applied : List (ℕ × Bool)
  pub calls : List Call
  pub events : List Event

abbrev pub is_on : Option Bool → Bool
is_on none = false
is_on (some b) = b

abbrev pub is_that : Option Bool → Bool → Bool
is_that none b = false
is_that (some true) b = b
is_that (some false) b = not b

abbrev pub is_managed : ResolvedGroupConfig → Bool
is_managed group = group.enabled && group.curfew_enabled

-- Times that cannot be read are as no curfew.
unfoldable pub desired_state : ResolvedGroupConfig → (now_minutes : ℕ) → Bool
desired_state group now = elim (parse_hhmm group.curfew_start) [
  | none ↦ false
  | some start ↦ elim (parse_hhmm group.curfew_end) [
    | none ↦ false
    | some end ↦ is_in_curfew_window now start end
  ]
]

abbrev pub sent : Scheduler → Call → Scheduler
sent s c = record s { calls = s.calls ++ c ∷ [] }

-- `accepts before call` tells whether the provider answers a call. `current before` is `isCurrent` once the
-- calls `before` are made: a stop may come in while a call is waited for.
module _ (accepts : List Call → Call → Bool) (current : List Call → Bool) where
  -- The announcement after a transition from `previous`; it never throws, and a transition from an unknown
  -- state is silent.
  abbrev pub announced :
      Scheduler
      → (group : ℕ) (enable : Bool) (previous : Option Bool) (curfew_end_text : String) → Scheduler
  announced s group true none until = s
  announced s group true (some b) until = sent s (announce_start group until)
  announced s group false (some true) until = sent s (announce_end group)
  announced s group false (some false) until = s
  announced s group false none until = s

  abbrev pub applied_event : (group : ℕ) (enable : Bool) → Event
  applied_event group true = curfew_start group
  applied_event group false = curfew_end group false

  -- An exception leaves the state as it was applied before; the tick goes on with the next group.
  unfoldable pub apply_state :
      Scheduler → (group : ℕ) (enable : Bool) (curfew_end_text : String) → Scheduler
  apply_state s group enable until =
      let call = set_group_whole_ban group enable in
      let asked = sent s call in
      let recorded = record asked { applied = put asked.applied group enable } in
      let audited = record recorded {
        events = recorded.events ++ applied_event group enable ∷ [];
      } in
      if not (current s.calls)
      then s
      else if not (accepts s.calls call)
      then asked
      else if not (current recorded.calls)
      then recorded
      else announced audited group enable (lookup s.applied group) until

  unfoldable pub tick_group : Scheduler → PluginConfig → (now_minutes group : ℕ) → Scheduler
  tick_group s cfg now id =
      let group = resolve_group_config cfg id in
      let desired = is_managed group && desired_state group now in
      if not (is_managed group) && not (is_on (lookup s.applied id))
      then record s { applied = put s.applied id false }
      else if is_that (lookup s.applied id) desired
      then s
      else apply_state s id desired group.curfew_end

  -- The groups of the configuration in turn.
  unfoldable pub tick : Scheduler → PluginConfig → (now_minutes : ℕ) → List ℕ → Scheduler
  tick s cfg now [] = s
  tick s cfg now (id ∷ ids) =
      let rest = tick (tick_group s cfg now id) cfg now ids in if current s.calls then rest else s

  -- The end of the mute of each group that is muted, at a stop. A call that throws or comes too late is
  -- logged only. (The code makes the calls at once, before any is answered.)
  unfoldable pub unmute_managed_groups : Scheduler → List (ℕ × Bool) → Scheduler
  unmute_managed_groups s [] = s
  unmute_managed_groups s ((group, enabled) ∷ rest) =
      let call = set_group_whole_ban group false in
      let asked = sent s call in
      let lifted = record asked {
        applied = put asked.applied group false;
        events = asked.events ++ curfew_end group true ∷ [];
      } in
      unmute_managed_groups
        (if not enabled then s else if accepts s.calls call then lifted else asked) rest

  unfoldable pub stop_curfew : Scheduler → Scheduler
  stop_curfew s = record (unmute_managed_groups s s.applied) { applied = [] }
