-- ===== src/Approval/Tests.antt =====
-- Runs of the routing of join requests.
use qq_guardian.Base.{
  ◌≤◌, ◌≡◌, ◌↔◌, refl, Bool, true, false, ◌&&◌, List, [], ◌∷◌, Option, none, some, String, arith,
  count_where,
}
use qq_guardian.Account.Usable.{is_nonempty}
use qq_guardian.Approval.Group.{auto_approve, PluginConfig, resolve_group_config}
use qq_guardian.Approval.Records.{
  ApprovalRecord, approved, pending, expired, find_by_id, find_by_flag, latest, swept_at,
  expire_old_pending, update_status,
}
use qq_guardian.Approval.Service.{
  Desk, Call, JoinRequest, Surroundings, handle_join_request, approve_manually, approve, conclude,
  bump,
}
use qq_guardian.Approval.Steps.{join_requested, rejected_by, overdue_swept, run}
use qq_guardian.Approval.Kept.{IsDecided}
use qq_guardian.Approval.Decided.{run-IsDecided}
use qq_guardian.Approval.Calls.{is_about}
use qq_guardian.Approval.Once.{handle-again, handle_all, handle_all-once}
use qq_guardian.Approval.Door.{
  is_approval, is_barred, is_unwelcome, is_welcome, handle-approves_iff,
}
use qq_guardian.Commands.{normalize_one_bot_id, digits_from}
use qq_guardian.Approval.Sync.{
  PendingJoinRequest, SystemRequest, extract_pending_join_requests, extract_entries, sync_each,
  delivered, sync_each-delivered,
}

abbrev obliging : List Call → Call → Bool
obliging before c = true

-- No pattern matches anything.
abbrev no_match : String → String → Option Bool
no_match pattern comment = some false

abbrev settings : PluginConfig
settings = record {
  default_group_enabled = true;
  default_action = auto_approve;
  groups = λ _. none;
  pending_ttl_seconds = 60;
  use_builtin_reject_keywords = true;
  use_builtin_approve_keywords = false;
  risk_enabled = true;
  auto_kick_on_join = true;
}

abbrev around : Surroundings
around = record {
  cfg = settings;
  blacklist = record { entries = []; next_id = 1 };
  ledger = record { rows = []; next_id = 1 };
  feed = record { red_flag = λ _. none; enforced_reject_patterns = [] };
  now = 1000;
}

abbrev request : JoinRequest
request = record {
  request_type = "group";
  sub_type = "add";
  group_id = 3;
  user_id = 7;
  flag = "f";
  comment = some "hi";
}

abbrev empty_desk : Desk
empty_desk = record {
  records = record { rows = []; next_id = 1 };
  calls = [];
  events = [];
  counts = [];
  sweeps = λ _. [];
}

abbrev approved_record : ApprovalRecord
approved_record = record {
  id = 1;
  group_id = 3;
  user_id = 7;
  flag = "f";
  comment = "hi";
  status = approved;
  reason = none;
  operator_id = none;
  captcha_id = none;
  created_at = 0;
  processed_at = some 10;
  expires_at = 60000;
}

abbrev desk_of_one : Desk
desk_of_one = record {
  records = record { rows = approved_record ∷ []; next_id = 2 };
  calls = [];
  events = [];
  counts = [];
  sweeps = λ _. 50 ∷ [];
}

run-IsDecided_example : IsDecided 1 approved_record (
    run obliging no_match [] [] desk_of_one
      (join_requested request around ∷ rejected_by 1 "9" "no" 20 ∷ overdue_swept 70000 ∷ []))
unfolding find_by_id
run-IsDecided_example =
    run-IsDecided obliging 1 approved_record no_match [] [] desk_of_one
      (join_requested request around ∷ rejected_by 1 "9" "no" 20 ∷ overdue_swept 70000 ∷ [])
      (refl, refl, ((omega arith), tt))

-- A request that the maintenance expires while the provider is asked is approved all the same.
abbrev waiting_record : ApprovalRecord
waiting_record = record approved_record { status = pending; processed_at = none }

abbrev desk_with_sweep : Desk
desk_with_sweep = record desk_of_one {
  records = record { rows = waiting_record ∷ []; next_id = 2 };
  sweeps = λ _. 60000 ∷ [];
}

approved_when_expired :
    let s = desk_with_sweep in
    let swept = find_by_id (swept_at s.records (s.sweeps [])) 1 in
    let decided = find_by_id (approve_manually obliging s 1 "9" 59000).0.records 1 in
    (elim swept [ none ↦ pending | some r ↦ r.status ] ≡ expired)
    × (elim decided [ none ↦ pending | some r ↦ r.status ] ≡ approved)
unfolding find_by_id swept_at expire_old_pending approve_manually approve conclude bump
    update_status
approved_when_expired = (refl, refl)

handle-again_example :
    let s' = (handle_join_request obliging no_match [] [] empty_desk request around).0 in
    handle_join_request obliging no_match [] [] s' request around ≡ (s', true)
unfolding resolve_group_config
handle-again_example =
    handle-again obliging no_match [] [] empty_desk request around request around refl refl

handle_all-once_example :
    count_where
      (is_about "f")
      (handle_all obliging no_match [] [] empty_desk
        ((request, around) ∷ (request, around) ∷ [])).calls
    ≤ 1
handle_all-once_example =
    handle_all-once obliging no_match [] [] empty_desk ((request, around) ∷ (request, around) ∷ [])
      "f"

handle-approves_iff_example :
    let group = resolve_group_config settings 3 in
    let s' = (handle_join_request obliging no_match [] [] empty_desk request around).0 in
    (count_where is_approval s'.calls ≡ 1) ↔ (
      (is_barred request around ≡ false)
      × ((is_unwelcome obliging no_match [] [] "hi" group settings around.feed
            && is_nonempty group.reject_reason)
          ≡ false)
      × (is_welcome obliging no_match [] [] "hi" group settings ≡ true))
unfolding resolve_group_config find_by_flag latest
handle-approves_iff_example =
    handle-approves_iff obliging no_match [] [] empty_desk request around refl refl

abbrev missed : PendingJoinRequest
missed = record { flag = "f"; group_id = 3; user_id = 7; comment = "hi" }

abbrev listed_request : SystemRequest
listed_request = record {
  checked = false;
  request_id = none;
  flag = some "f";
  group_id = some "3";
  requester_uin = none;
  user_id = none;
  invitor_uin = some "7";
  message = some "hi";
  comment = none;
}

reads_the_applicant :
    extract_pending_join_requests (some (none ∷ some (none ∷ some listed_request ∷ []) ∷ []))
    ≡ missed ∷ []
unfolding extract_pending_join_requests extract_entries normalize_one_bot_id digits_from is_nonempty
reads_the_applicant = refl

sync_each-delivered_example :
    (sync_each obliging no_match [] [] empty_desk settings
      ((missed, around) ∷ (missed, around) ∷ [])).0
    ≡ handle_all obliging no_match [] [] empty_desk
        (delivered obliging no_match [] [] ((missed, around) ∷ (missed, around) ∷ []))
sync_each-delivered_example =
    sync_each-delivered obliging no_match [] [] empty_desk settings
      ((missed, around) ∷ (missed, around) ∷ []) (refl, (refl, tt))
