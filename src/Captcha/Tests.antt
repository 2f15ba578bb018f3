-- ===== src/Captcha/Tests.antt =====
-- Runs of the captcha service.
use Prim.Native.Char.{code}
use qq_guardian.Base.{
  ℕ, zero, suc, ◌+◌, ◌*◌, ◌≤◌, ◌≡◌, ◌↔◌, refl, Bool, true, false, ◌&&◌, List, [], ◌∷◌, none, some,
  String, str_eq, count_where, arith,
}
use qq_guardian.Approval.Records.{ApprovalRecord, captcha, find_by_id}
use qq_guardian.Approval.Service.{Desk, Call}
use qq_guardian.Captcha.Text.{
  trim, trim_start, trim_end, first_token, after_token, is_challenge_code, same_code,
}
use qq_guardian.Captcha.Sessions.{Session, Office, find_session}
use qq_guardian.Captcha.Reconcile.{
  is_candidate, close_retired, partition, reconcile_active_sessions,
}
use qq_guardian.Captcha.Selection.{is_right, select_answer}
use qq_guardian.Captcha.Service.{CaptchaConfig}
use qq_guardian.Captcha.Answers.{awaits, process_answer}
use qq_guardian.Captcha.Steps.{issuing, answering, run}
use qq_guardian.Captcha.Bound.{reconcile-bounded}
use qq_guardian.Captcha.Verdict.{approvals, process_answer-approves_iff}
use qq_guardian.Captcha.Routing.{IsAddressed, select_answer-IsAddressed}
use qq_guardian.Captcha.Attempts.{IsSound}
use qq_guardian.Captcha.Runs.{run-IsSound}

abbrev obliging : List Call → Call → Bool
obliging before c = true

abbrev same_text : String → String
same_text s = s

abbrev number_of : String → ℕ
number_of String.[] = 0
number_of (String.◌∷◌ c s) = code c + 1000 * number_of s

abbrev codes : ℕ → String
codes id = elim id [ zero ↦ "00000000A0" | suc n ↦ "00000000A1" ]

abbrev texts : ℕ → String
texts id = "uuid"

abbrev request : ApprovalRecord
request = record {
  id = 7;
  group_id = 1;
  user_id = 9;
  flag = "f";
  comment = "";
  status = captcha;
  reason = none;
  operator_id = none;
  captcha_id = none;
  created_at = 0;
  processed_at = none;
  expires_at = 1000;
}

abbrev session : ℕ → Session
session n = record {
  id = n;
  group_id = 1;
  user_id = 9;
  approval_id = 7;
  challenge = "1 + 1";
  answer = "2";
  attempts = 0;
  max_attempts = 2;
  created_at = n;
  expires_at = 900;
  solved = false;
}

abbrev desk_of : List ApprovalRecord → Desk
desk_of rows = record {
  records = record { rows = rows; next_id = 8 };
  calls = [];
  events = [];
  counts = [];
  sweeps = λ _. [];
}

abbrev office_of : List Session → Office
office_of xs = record { desk = desk_of (request ∷ []); sessions = xs; messages = []; counts = [] }

abbrev crowded : Office
crowded = office_of (session 0 ∷ session 1 ∷ session 2 ∷ [])

keeps_newest : (reconcile_active_sessions codes crowded 9 5).1.active ≡ session 2 ∷ session 0 ∷ []
unfolding reconcile_active_sessions partition close_retired
keeps_newest = refl

reconcile-bounded_example :
    let s' = (reconcile_active_sessions codes crowded 9 5).0 in
    (count_where (is_candidate 9 5 s'.desk.records.rows) s'.sessions ≤ 5)
    × ((code : String)
        → count_where
            (λ x. is_candidate 9 5 s'.desk.records.rows x && str_eq (codes x.id) code)
            s'.sessions
          ≤ 1)
reconcile-bounded_example = reconcile-bounded codes crowded 9 5

routed_by_code :
    select_answer same_text number_of codes (session 0 ∷ session 1 ∷ []) " #00000000a1  2 "
    ≡ some (session 1, "2")
unfolding select_answer trim trim_start trim_end first_token after_token is_challenge_code same_code
routed_by_code = refl

select_answer-IsAddressed_example :
    IsAddressed same_text number_of codes
      (session 0 ∷ session 1 ∷ [])
      (trim " #00000000a1  2 ")
      (session 1)
      "2"
select_answer-IsAddressed_example =
    select_answer-IsAddressed same_text number_of codes (session 0 ∷ session 1 ∷ [])
      " #00000000a1  2 " (session 1) "2" routed_by_code

process_answer-approves_iff_example :
    (approvals obliging
        (process_answer obliging same_text number_of (office_of (session 0 ∷ [])) 0 "2" 10 11).desk
      ≡ suc (approvals obliging (office_of (session 0 ∷ [])).desk))
    ↔ ((false ≡ false)
        × (10 ≤ 900)
        × (11 ≤ 900)
        × (is_right same_text number_of (session 0) "2" ≡ true)
        × (awaits (find_by_id (office_of (session 0 ∷ [])).desk.records 7) ≡ true))
unfolding find_session
process_answer-approves_iff_example =
    process_answer-approves_iff obliging same_text number_of (office_of (session 0 ∷ [])) 0 "2" 10
      11 (session 0) (tt, tt) refl

abbrev policy : CaptchaConfig
policy = record { ttl_seconds = 600; max_attempts = 1 }

abbrev empty : Office
empty = office_of []

run-IsSound_example :
    IsSound
      (run obliging same_text number_of codes texts empty (
        issuing 7 policy (record { challenge = "1 + 1"; answer = "2" }) (λ k. k) 5 5
        ∷ answering 0 "3" 6 6
        ∷ answering 0 "2" 7 7
        ∷ [])).sessions
run-IsSound_example =
    run-IsSound obliging same_text number_of codes texts empty
      (issuing 7 policy (record { challenge = "1 + 1"; answer = "2" }) (λ k. k) 5 5
        ∷ answering 0 "3" 6 6
        ∷ answering 0 "2" 7 7
        ∷ [])
      ((omega arith), (tt, (tt, tt))) (tt, tt)
