-- ===== src/Moderation/Tests.antt =====
-- Runs of the moderation operations.
use qq_guardian.Base.{◌≡◌, refl, Bool, true, false, List, [], ◌∷◌, none, some, arith}
use qq_guardian.Moderation.Blacklist.{
  Blacklist, Addition, Entry, text, is_blacklisted, purge_expired,
}
use qq_guardian.Moderation.Records.{Punishment, mute, kick, create, find_by_id}
use qq_guardian.Moderation.Service.{
  Action, State, Thresholds, decimal, call, kick_locked, kick_user, revoke_punishment,
  set_group_ban,
}
use qq_guardian.Moderation.Listing.{purge_expired-is_blacklisted}
use qq_guardian.Moderation.Escalation.{
  BlacklistEscalated, KickEscalated, kick_out, punish, punish-BlacklistEscalated,
  punish-KickEscalated,
}
use qq_guardian.Moderation.Lifting.{revoke-unmutes_iff}

abbrev entry : Entry
entry = record {
  id = 1;
  user_id = 7;
  group_id = some 3;
  reason = text "spam";
  created_by = none;
  created_at = 0;
  expires_at = some 50;
}

abbrev list_of_one : Blacklist
list_of_one = record { entries = entry ∷ []; next_id = 2 }

abbrev addition : Addition
addition = record {
  user_id = 8;
  group_id = none;
  reason = text "ads";
  created_by = some 1;
  expires_at = some 90;
}

purge_expired-is_blacklisted_example :
    is_blacklisted (purge_expired list_of_one 10 60).0 7 (some 3) 70
    ≡ is_blacklisted list_of_one 7 (some 3) 70
purge_expired-is_blacklisted_example =
    purge_expired-is_blacklisted list_of_one 10 60 70 7 (some 3) (omega arith)

-- A provider that takes every call, and one that takes none.
abbrev obliging : List Action → Action → Bool
obliging before a = true

abbrev refusing : List Action → Action → Bool
refusing before a = false

abbrev strict : Thresholds
strict = record { escalate_to_kick_after = 1; escalate_to_blacklist_after = 1 }

-- A mute of the user 7 in the group 3, until the time 100000.
abbrev old_mute : Punishment
old_mute = record {
  id = 1;
  group_id = 3;
  user_id = 7;
  kind = mute;
  duration_seconds = some 100;
  reason = text "spam";
  operator_id = none;
  created_at = 0;
  expires_at = some 100000;
  revoked_at = none;
  revoked_by = none;
}

abbrev start : State
start = record {
  ledger = record { rows = old_mute ∷ []; next_id = 2 };
  blacklist = list_of_one;
  calls = [];
  audits = [];
  counted = [];
}

abbrev new_kick : Punishment
new_kick = record {
  id = 2;
  group_id = 3;
  user_id = 9;
  kind = kick;
  duration_seconds = none;
  reason = text "ads";
  operator_id = some 5;
  created_at = 40;
  expires_at = none;
  revoked_at = none;
  revoked_by = none;
}

punish-BlacklistEscalated_example :
    BlacklistEscalated strict
      (punish obliging strict start 3 9 (text "ads") (decimal 5) 40 (kick_out false)).0
      3
      9
      40
unfolding punish kick_user kick_locked call create
punish-BlacklistEscalated_example =
    punish-BlacklistEscalated obliging strict start 3 9 (text "ads") (decimal 5) 40 (kick_out false)
      new_kick refl

punish-KickEscalated_example :
    KickEscalated strict
      (punish obliging strict start 3 9 (text "ads") (decimal 5) 40 (kick_out false)).0
      3
      9
      40
unfolding punish kick_user kick_locked call create
punish-KickEscalated_example =
    punish-KickEscalated obliging strict start 3 9 (text "ads") (decimal 5) 40 (kick_out false)
      new_kick (λ before group user reject. refl) refl

revoke-unmutes_iff_example :
    (revoke_punishment obliging strict start 1 (decimal 5) 40).0.calls ≡ set_group_ban 3 7 0 ∷ []
unfolding find_by_id
revoke-unmutes_iff_example =
    revoke-unmutes_iff obliging strict start 1 (decimal 5) (some 5) 40 old_mute refl refl refl
