-- ===== src/Approval/Sync.antt =====
-- The admission sync: src/modules/approval/sync.ts.
use qq_guardian.Base.{
  ℕ, suc, ◌≡◌, refl, Bool, true, false, not, List, [], ◌∷◌, Option, none, some, String, ◌++◌,
  or_else, is_some, if◌then◌else◌, if_cases, inl, inr, ap, sym, subst, ◌∙◌, All, arith,
}
use qq_guardian.Account.Usable.{is_nonempty}
use qq_guardian.Commands.{normalize_one_bot_id}
use qq_guardian.Approval.Group.{PluginConfig, resolve_group_config}
use qq_guardian.Approval.Records.{find_by_flag}
use qq_guardian.Approval.Service.{Desk, Call, JoinRequest, Surroundings, handle_join_request}
use qq_guardian.Approval.Rows.{has_flag, find_by_flag-is_some}
use qq_guardian.Approval.Once.{handle_all, handle-cases}

-- An entry of the answer of `get_group_system_msg`; `none` is a field that is missing. Ids are texts.
pub record SystemRequest : Type 0 where
  pub checked : Bool
  pub request_id : Option String
  pub flag : Option String
  pub group_id : Option String
  pub requester_uin : Option String
  pub user_id : Option String
  pub invitor_uin : Option String
  pub message : Option String
  pub comment : Option String

pub record PendingJoinRequest : Type 0 where
  pub flag : String
  pub group_id : ℕ
  pub user_id : ℕ
  pub comment : String

-- JavaScript's `a ?? b` on fields.
abbrev pub first_given : Option String → Option String → Option String
first_given none b = b
first_given (some a) b = some a

abbrev pub id_in : Option String → Option ℕ
id_in none = none
id_in (some s) = normalize_one_bot_id s

abbrev pub pending_of :
    (flag : Option String) (group user : Option ℕ) (comment : String) → List PendingJoinRequest
pending_of none group user comment = []
pending_of (some flag) none user comment = []
pending_of (some flag) (some group) none comment = []
pending_of (some flag) (some group) (some user) comment =
    if is_nonempty flag
    then record { flag = flag; group_id = group; user_id = user; comment = comment } ∷ []
    else []

abbrev pub pending_in : SystemRequest → List PendingJoinRequest
pending_in e =
    if e.checked
    then []
    else pending_of (first_given e.request_id e.flag) (id_in e.group_id)
        (id_in (first_given (first_given e.requester_uin e.user_id) e.invitor_uin))
        (or_else (first_given e.message e.comment) "")

-- The entries that are objects, one after the other.
unfoldable pub extract_entries : List (Option SystemRequest) → List PendingJoinRequest
extract_entries [] = []
extract_entries (none ∷ es) = extract_entries es
extract_entries (some e ∷ es) = pending_in e ++ extract_entries es

abbrev pub first_array : List (Option (List (Option SystemRequest))) → List (Option SystemRequest)
first_array [] = []
first_array (none ∷ rest) = first_array rest
first_array (some es ∷ rest) = es

-- The payload is its three spellings of the field, where one is an array; `none` is no object.
unfoldable pub extract_pending_join_requests :
    Option (List (Option (List (Option SystemRequest)))) → List PendingJoinRequest
extract_pending_join_requests none = []
extract_pending_join_requests (some fields) = extract_entries (first_array fields)

abbrev pub request_of : PendingJoinRequest → JoinRequest
request_of p = record {
  request_type = "group";
  sub_type = "add";
  group_id = p.group_id;
  user_id = p.user_id;
  flag = p.flag;
  comment = some p.comment;
}

module _ (accepts : List Call → Call → Bool) (test : String → String → Option Bool)
    (builtin_reject builtin_approve : List (String → Bool)) where
  -- The loop of a sweep: the number of the requests that it picked up. Each request comes with what its routing
  -- reads; `cfg` is read once. A routing that throws is logged only.
  unfoldable pub sync_each :
      Desk → PluginConfig → List (PendingJoinRequest × Surroundings) → Desk × ℕ
  sync_each s cfg [] = (s, 0)
  sync_each s cfg ((p, w) ∷ ps) =
      let skipped = sync_each s cfg ps in
      let (s', n) =
        sync_each
          (handle_join_request accepts test builtin_reject builtin_approve s (request_of p) w).0 cfg
          ps in
      if not (resolve_group_config cfg p.group_id).enabled
      then skipped
      else if is_some (find_by_flag s.records p.flag)
      then skipped
      else (s', suc n)

  -- A sweep while another one runs does nothing.
  unfoldable pub sync_pending_join_requests :
      Desk → (running : Bool) → PluginConfig → List (PendingJoinRequest × Surroundings) → Desk × ℕ
  sync_pending_join_requests s running cfg ps = if running then (s, 0) else sync_each s cfg ps

  abbrev pub delivered :
      List (PendingJoinRequest × Surroundings) → List (JoinRequest × Surroundings)
  delivered [] = []
  delivered ((p, w) ∷ ps) = (request_of p, w) ∷ delivered ps

  -- A request of a group that is not protected changes nothing, nor does one on record.
  outside :
      (s : Desk) (p : PendingJoinRequest) (w : Surroundings)
      → (resolve_group_config w.cfg p.group_id).enabled ≡ false
      → (handle_join_request accepts test builtin_reject builtin_approve s (request_of p) w).0 ≡ s
  unfolding handle_join_request
  outside s p w off = rw (off, handle_join_request) refl

  on_record :
      (s : Desk) (p : PendingJoinRequest) (w : Surroundings)
      → has_flag p.flag s.records.rows ≡ true
      → (handle_join_request accepts test builtin_reject builtin_approve s (request_of p) w).0 ≡ s
  on_record s p w known =
      elim (handle-cases accepts test builtin_reject builtin_approve s (request_of p) w) [
        | inl (_, same) ↦ ap (λ (r : Desk × Bool). r.0) same
        | inr (unknown, _) ↦ absurd (cc)
      ]

  -- A sweep over settings that do not change leaves the service as the delivery of every request that it found as
  -- a live event, one after the other: what it skips would change nothing.
  pub sync_each-delivered :
      (s : Desk) (cfg : PluginConfig) (ps : List (PendingJoinRequest × Surroundings))
      → All (λ (pw : PendingJoinRequest × Surroundings). pw.1.cfg ≡ cfg) ps
      → (sync_each s cfg ps).0
        ≡ handle_all accepts test builtin_reject builtin_approve s (delivered ps)
  unfolding sync_each handle_all
  sync_each-delivered s cfg [] same = refl
  sync_each-delivered s cfg ((p, w) ∷ ps) (same, rest) =
      let after =
        (handle_join_request accepts test builtin_reject builtin_approve s (request_of p) w).0 in
      let Delivers : Desk × ℕ → Type 0 =
        λ r. r.0 ≡ handle_all accepts test builtin_reject builtin_approve after (delivered ps) in
      let unchanged : after ≡ s → Delivers (sync_each s cfg ps) = λ e.
        sync_each-delivered s cfg ps rest
        ∙ ap (λ d. handle_all accepts test builtin_reject builtin_approve d (delivered ps))
            (sym e) in
      if_cases Delivers (not (resolve_group_config cfg p.group_id).enabled)
        (λ off. unchanged (
          outside s p w (
            subst (λ c. (resolve_group_config c p.group_id).enabled ≡ false) (sym same)
              (ground arith))))
        (λ _.
          if_cases Delivers (is_some (find_by_flag s.records p.flag))
            (λ known.
              unchanged (on_record s p w (sym (find_by_flag-is_some s.records p.flag) ∙ known)))
            (λ _. sync_each-delivered after cfg ps rest))
