-- ===== src/Approval/Calls.antt =====
-- What the routing of a join request writes and sends.
use qq_guardian.Base.{
  ℕ, ◌+◌, ◌≤◌, ◌≡◌, refl, Bool, true, false, ◌||◌, List, [], ◌∷◌, ◌++◌, Option, String, str_eq,
  str_eq_refl, arith, count_where, if_cases, if◌then◌else◌, ◌∙◌, ap,
}
use qq_guardian.Approval.Group.{
  auto_approve, auto_reject, manual, ResolvedGroupConfig, RoutingAction,
}
use qq_guardian.Approval.Group.{captcha as by_captcha}
use qq_guardian.Approval.Records.{Status, create, new_record, pending, captcha}
use qq_guardian.Approval.Screening.{AutomaticApprovalReason}
use qq_guardian.Approval.Service.{
  Desk, Call, approve_request, reject_request, Counter, JoinRequest, approve, reject, conclude,
  bump, created, approve_recorded, reject_recorded, route_to_captcha, route_by_action,
}
use qq_guardian.Approval.Rows.{
  has_flag, has_flag-append, approve-records, reject-records, conclude-has_flag,
}

-- The call is about the request with this flag.
abbrev pub is_about : String → Call → Bool
is_about flag (approve_request f) = str_eq f flag
is_about flag (reject_request f reason) = str_eq f flag

-- A routing step for a request: afterwards its flag is on record, the flags on record before still are,
-- and it sent at most one call, about this request.
abbrev pub IsRouted : Desk → JoinRequest → Desk → Type 0
IsRouted s e s' =
    (has_flag e.flag s'.records.rows ≡ true)
    × ((flag : String) → has_flag flag s.records.rows ≡ true → has_flag flag s'.records.rows ≡ true)
    × ((flag : String)
        → count_where (is_about flag) s'.calls
          ≤ count_where (is_about flag) s.calls + (if str_eq e.flag flag then 1 else 0))

pub count-append :
    (q : Call → Bool) (xs : List Call) (x : Call)
    → count_where q (xs ++ x ∷ []) ≡ count_where q xs + (if q x then 1 else 0)
count-append q [] x = ground arith
count-append q (y ∷ xs) x = ground (arith, count-append q xs x)

module _ (accepts : List Call → Call → Bool) where
  created-has_flag :
      (s : Desk) (e : JoinRequest) (status : Status) (ttl now : ℕ) (flag : String)
      → has_flag flag (created accepts s e status ttl now).records.rows
        ≡ (has_flag flag s.records.rows || str_eq e.flag flag)
  unfolding created create new_record
  created-has_flag s e status ttl now flag = has_flag-append flag s.records.rows _

  pub created-IsRouted :
      (s : Desk) (e : JoinRequest) (status : Status) (ttl now : ℕ) (s' : Desk)
      → ((flag : String)
          → has_flag flag s'.records.rows
            ≡ has_flag flag (created accepts s e status ttl now).records.rows)
      → ((flag : String)
          → count_where (is_about flag) s'.calls
            ≤ count_where (is_about flag) s.calls + (if str_eq e.flag flag then 1 else 0))
      → IsRouted s e s'
  created-IsRouted s e status ttl now s' same few = (
    ground (arith, same e.flag, created-has_flag s e status ttl now e.flag, str_eq_refl e.flag),
    (λ flag h. ground (arith, same flag, created-has_flag s e status ttl now flag)),
    few,
  )

  pub conclude-calls :
      (r : Desk × Bool) (id group : ℕ) (status : Status) (operator reason : Option String)
      (counter : Counter) (failure : String) (now : ℕ)
      → (conclude accepts r id group status operator reason counter failure now).0.calls ≡ r.0.calls
  unfolding conclude bump
  conclude-calls (s, false) id group status operator reason counter failure now = refl
  conclude-calls (s, true) id group status operator reason counter failure now = refl

  pub approve-calls :
      (s : Desk) (flag reason : String) (operator : Option String)
      → (approve accepts s flag operator reason).0.calls ≡ s.calls ++ approve_request flag ∷ []
  unfolding approve
  approve-calls s flag reason operator =
      if_cases (λ (r : Desk × Bool). r.0.calls ≡ s.calls ++ approve_request flag ∷ []) _ (λ _. refl)
        (λ _. refl)

  pub reject-calls :
      (s : Desk) (flag reason : String) (operator : Option String)
      → (reject accepts s flag reason operator).0.calls ≡ s.calls ++ reject_request flag reason ∷ []
  unfolding reject
  reject-calls s flag reason operator =
      if_cases (λ (r : Desk × Bool). r.0.calls ≡ s.calls ++ reject_request flag reason ∷ []) _
        (λ _. refl) (λ _. refl)

  pub approve_recorded-calls :
      (s : Desk) (e : JoinRequest) (ttl : ℕ) (reason : AutomaticApprovalReason) (now : ℕ)
      → (approve_recorded accepts s e ttl reason now).0.calls
        ≡ s.calls ++ approve_request e.flag ∷ []
  unfolding approve_recorded created
  approve_recorded-calls s e ttl reason now =
      conclude-calls _ _ _ _ _ _ _ _ _ ∙ approve-calls _ e.flag _ _

  pub reject_recorded-calls :
      (s : Desk) (e : JoinRequest) (reason : String) (ttl now : ℕ)
      → (reject_recorded accepts s e reason ttl now).0.calls
        ≡ s.calls ++ reject_request e.flag reason ∷ []
  unfolding reject_recorded created
  reject_recorded-calls s e reason ttl now =
      conclude-calls _ _ _ _ _ _ _ _ _ ∙ reject-calls _ e.flag reason _

  unsent :
      (s : Desk) (e : JoinRequest) (status : Status) (ttl now : ℕ) (flag : String)
      → count_where (is_about flag) (created accepts s e status ttl now).calls
        ≤ count_where (is_about flag) s.calls + (if str_eq e.flag flag then 1 else 0)
  unfolding created
  unsent s e status ttl now flag = omega arith

  pub approve_recorded-IsRouted :
      (s : Desk) (e : JoinRequest) (ttl : ℕ) (reason : AutomaticApprovalReason) (now : ℕ)
      → IsRouted s e (approve_recorded accepts s e ttl reason now).0
  unfolding approve_recorded
  approve_recorded-IsRouted s e ttl reason now =
      created-IsRouted s e pending ttl now ((approve_recorded accepts s e ttl reason now).0)
        (λ flag.
          conclude-has_flag accepts _ _ _ _ _ _ _ _ _ flag
          ∙ ap (λ t. has_flag flag t.rows) (approve-records accepts _ _ _ _))
        (λ flag.
          let sent =
            ap (λ xs. count_where (is_about flag) xs) (approve_recorded-calls s e ttl reason now)
            ∙ count-append (is_about flag) s.calls (approve_request e.flag) in
          omega arith)

  pub reject_recorded-IsRouted :
      (s : Desk) (e : JoinRequest) (reason : String) (ttl now : ℕ)
      → IsRouted s e (reject_recorded accepts s e reason ttl now).0
  unfolding reject_recorded
  reject_recorded-IsRouted s e reason ttl now =
      created-IsRouted s e pending ttl now ((reject_recorded accepts s e reason ttl now).0)
        (λ flag.
          conclude-has_flag accepts _ _ _ _ _ _ _ _ _ flag
          ∙ ap (λ t. has_flag flag t.rows) (reject-records accepts _ _ _ _))
        (λ flag.
          let sent =
            ap (λ xs. count_where (is_about flag) xs) (reject_recorded-calls s e reason ttl now)
            ∙ count-append (is_about flag) s.calls (reject_request e.flag reason) in
          omega arith)

  pub route_by_action-IsRouted :
      (s : Desk) (e : JoinRequest) (group : ResolvedGroupConfig) (action : RoutingAction)
      (ttl now : ℕ)
      → group.action ≡ action
      → IsRouted s e (route_by_action accepts s e group ttl now).0
  unfolding route_by_action route_to_captcha
  route_by_action-IsRouted s e group auto_approve ttl now is =
      rw is (approve_recorded-IsRouted s e ttl _ now)
  route_by_action-IsRouted s e group auto_reject ttl now is =
      rw is (reject_recorded-IsRouted s e _ ttl now)
  route_by_action-IsRouted s e group by_captcha ttl now is = rw is (
      created-IsRouted s e captcha ttl now (route_to_captcha accepts s e ttl now) (λ _. refl)
        (λ flag. unsent s e captcha ttl now flag))
  route_by_action-IsRouted s e group manual ttl now is = rw is (
      created-IsRouted s e pending ttl now (created accepts s e pending ttl now) (λ _. refl)
        (λ flag. unsent s e pending ttl now flag))
