-- ===== src/Workspaces/Registry.antt =====
-- packages/workspace/src/index.ts: the state of `WorkspaceRegistry` and `#apply`, which checks before
-- it changes anything.
use woyengi.Base.{
  ℕ, Option, none, some, List, [], ◌++◌, Text, text, Bool, true, false, not, ◌||◌, ◌&&◌, Result, ok,
  raise, plain_error, ◌>>=◌, ◌>>◌, throw_if, same, any,
}
use woyengi.Base.Dict.{Dict, get, set, has, values}
use woyengi.Workspaces.Records.{
  PrincipalKind, human, Principal, Account, Organization, PersonalWorkspace, OrganizationWorkspace,
  Workspace, personal, organizational, MembershipStatus, invited, active, Membership,
  WorkspaceOperation,
}

pub record Registry : Type 0 where
  pub principals : Dict Principal
  pub accounts : Dict Account
  pub organizations : Dict Organization
  pub workspaces : Dict Workspace
  pub memberships : Dict Membership
  pub operation_ids : List Text
  pub ledger_sequences : List ℕ
  pub operations : List WorkspaceOperation
  pub last_ledger_sequence : ℕ

abbrev pub no_workspaces : Registry
no_workspaces = record {
  principals = [];
  accounts = [];
  organizations = [];
  workspaces = [];
  memberships = [];
  operation_ids = [];
  ledger_sequences = [];
  operations = [];
  last_ledger_sequence = 0;
}

abbrev pub explicit_instant : Text
explicit_instant = text "timestamp must include an explicit UTC offset: "

abbrev pub max_safe_integer : ℕ
max_safe_integer = 9007199254740991

abbrev pub is_active : MembershipStatus → Bool
is_active active = true
is_active invited = false

abbrev is_human : PrincipalKind → Bool
is_human human = true
is_human _ = false

unfoldable pub assert_principal : Registry → Text → Result Principal
assert_principal r id = elim (get id r.principals) [
  | none ↦ raise plain_error (text "principal does not exist: " ++ id)
  | some p ↦ ok p
]

unfoldable pub assert_human_principal : Registry → Text → Result (Unit {0})
unfolding assert_principal
assert_human_principal r id = do
  p ← assert_principal r id
  throw_if (not (is_human p.kind)) plain_error (id ++ text " must be a human principal")

abbrev pub assert_new_workspace : Registry → Text → Result (Unit {0})
assert_new_workspace r id =
    throw_if (has id r.workspaces) plain_error (text "workspace already exists: " ++ id)

unfoldable pub assert_new_membership : Registry → Membership → Result (Unit {0})
assert_new_membership r m = do
  throw_if (has m.id r.memberships) plain_error (text "membership already exists: " ++ m.id)
  throw_if
      (any
        (λ (c : Membership).
          same c.organization_id m.organization_id && same c.principal_id m.principal_id)
        (values r.memberships))
      plain_error (text "principal already has a membership in organization: " ++ m.principal_id)

unfoldable pub is_active_member : Registry → Text → Text → Bool
is_active_member r principal organization =
    any
      (λ (m : Membership).
        same m.organization_id organization
        && (same m.principal_id principal && is_active m.status))
      (values r.memberships)

unfoldable pub apply_account_created : Registry → Account → PersonalWorkspace → Result Registry
unfolding assert_human_principal
apply_account_created r a w = do
  throw_if (has a.id r.accounts) plain_error (text "account already exists: " ++ a.id)
  throw_if
      (any (λ (b : Account). same b.owner_principal_id a.owner_principal_id) (values r.accounts))
      plain_error (text "principal already owns an account: " ++ a.owner_principal_id)
  assert_human_principal r a.owner_principal_id
  assert_new_workspace r w.id
  throw_if (not (same a.personal_workspace_id w.id)) plain_error
      (text "account personal workspace reference does not match the created workspace")
  ok (record r {
    accounts = set a.id a r.accounts;
    workspaces = set w.id (personal w) r.workspaces;
  })

unfoldable pub apply_organization_created :
    Registry → Organization → OrganizationWorkspace → Membership → Result Registry
unfolding assert_human_principal assert_new_membership
apply_organization_created r o w m = do
  throw_if (has o.id r.organizations) plain_error (text "organization already exists: " ++ o.id)
  assert_human_principal r m.principal_id
  assert_new_workspace r w.id
  assert_new_membership r m
  throw_if
      (not (same o.workspace_id w.id)
        || (not (same m.organization_id o.id) || not (same m.workspace_id w.id)))
      plain_error (text "organization, workspace, and owner membership references must match")
  ok (record r {
    organizations = set o.id o r.organizations;
    workspaces = set w.id (organizational w) r.workspaces;
    memberships = set m.id m r.memberships;
  })

abbrev pub in_workspace : Option Organization → Text → Bool
in_workspace none workspace = false
in_workspace (some o) workspace = same o.workspace_id workspace

unfoldable pub apply_membership_invited : Registry → Membership → Result Registry
unfolding assert_principal assert_new_membership is_active_member
apply_membership_invited r m = do
  a ← assert_principal r m.principal_id
  b ← assert_principal r m.invited_by_principal_id
  throw_if (not (in_workspace (get m.organization_id r.organizations) m.workspace_id)) plain_error
      (text "organization membership scope is invalid: " ++ m.organization_id)
  throw_if (not (is_active_member r m.invited_by_principal_id m.organization_id)) plain_error
      (text "membership invitation requires an active organization member")
  assert_new_membership r m
  ok (record r { memberships = set m.id m r.memberships })

abbrev pub membership_at : Option Membership → Text → Result Membership
membership_at none id = raise plain_error (text "membership does not exist: " ++ id)
membership_at (some m) id = ok m

unfoldable pub apply_membership_accepted : Registry → Text → Text → Text → Result Registry
unfolding assert_principal
apply_membership_accepted r membership principal from = do
  a ← assert_principal r principal
  m ← membership_at (get membership r.memberships) membership
  throw_if (not (same m.principal_id principal)) plain_error
      (text "only the invited principal can accept a membership")
  throw_if (is_active m.status) plain_error
      (text "membership is not awaiting acceptance: " ++ membership)
  ok (record r {
    memberships = set m.id (record m { status = active; activated_at = some from }) r.memberships;
  })
