-- ===== src/Workspaces/Tests.antt =====
-- A run of the workspace registry.
use woyengi.Base.{
  some, Option, is_some, [], none, text, Bool, true, false, Result, ok, raise, ◌≡◌, refl,
  normalize_instant, prefixed, namespaced, required_text, text_discrete, compare_units, starts_with,
  includes, trim, any, all,
}
use woyengi.Base.Dict.{get, set, member, add}
use woyengi.Base.Number.{integer}
use woyengi.Base.Sort.{sort}
use woyengi.Work.Inputs.{prefixed_id}
use woyengi.Workspaces.Records.{
  human, Principal, Account, PersonalWorkspace, Workspace, Organization, OrganizationWorkspace,
  Membership, WorkspaceContext, principal_id,
}
use woyengi.Workspaces.Registry.{
  Registry, no_workspaces, apply_account_created, apply_organization_created,
  assert_human_principal, assert_principal, assert_new_membership, is_active_member,
}
use woyengi.Workspaces.Applying.{apply, apply_body, validate_operation, history, replay}
use woyengi.Workspaces.Methods.{register_principal, create_account, create_organization}
use woyengi.Workspaces.Access.{
  switch_workspace, enter, context_for, can_access, context_of, workspace_for,
}
use woyengi.Workspaces.Entering.{HasAccess, switch_workspace-HasAccess}
use woyengi.Workspaces.Replaying.{
  Reachable, started, after, registering, opening, founding, reachable-membership,
  reachable-account, replay-history_reachable,
}
use woyengi.Samples.{plain_host, value_or}

abbrev is_ok {ℓ} : {A : Type ℓ} → Result A → Bool
is_ok (ok a) = true
is_ok (raise c m) = false

abbrev registry_of {ℓ} : {A : Type ℓ} → Result (Registry × A) → Registry
registry_of (ok p) = p.0
registry_of (raise c m) = no_workspaces

registry-value :
    {A : Type 0} (m : Result (Registry × A))
    → is_ok m ≡ true
    → (x : A) × (m ≡ ok (registry_of m, x))
registry-value (ok (r, x)) h = (x, refl)
registry-value (raise c m) h = absurd (cc)

ok-value : {A : Type 0} (d : A) (r : Result A) → is_ok r ≡ true → r ≡ ok (value_or d r)
ok-value d (ok a) h = refl
ok-value d (raise c m) h = absurd (cc)

abbrev registration : Result (Registry × Principal)
registration =
    register_principal (text "workspace-operation:1") (text "principal:a") human (text "1Z")
      no_workspaces

abbrev foundation : Result (Registry × (Organization × (OrganizationWorkspace × Membership)))
foundation =
    create_organization (text "workspace-operation:2") (text "organization:o") (text "workspace:w")
      (text "membership:m") (text "principal:a") (text "2Z") (registry_of registration)

registers : is_ok registration ≡ true
unfolding register_principal create_organization switch_workspace apply apply_body
    validate_operation prefixed_id get set member add sort integer prefixed namespaced required_text
    normalize_instant text text_discrete compare_units starts_with includes trim any all
    apply_organization_created assert_human_principal assert_principal assert_new_membership
    is_active_member enter context_for can_access context_of
registers = refl

founds : is_ok foundation ≡ true
unfolding register_principal create_organization switch_workspace apply apply_body
    validate_operation prefixed_id get set member add sort integer prefixed namespaced required_text
    normalize_instant text text_discrete compare_units starts_with includes trim any all
    apply_organization_created assert_human_principal assert_principal assert_new_membership
    is_active_member enter context_for can_access context_of
founds = refl

abbrev entry : Result WorkspaceContext
entry = switch_workspace (registry_of foundation) (text "principal:a") (text "workspace:w")

enters : is_ok entry ≡ true
unfolding register_principal create_organization switch_workspace apply apply_body
    validate_operation prefixed_id get set member add sort integer prefixed namespaced required_text
    normalize_instant text text_discrete compare_units starts_with includes trim any all
    apply_organization_created assert_human_principal assert_principal assert_new_membership
    is_active_member enter context_for can_access context_of
enters = refl

abbrev no_context : WorkspaceContext
no_context = record {
  principal_id = [];
  workspace_id = [];
  account_id = none;
  organization_id = none;
}

after_founding : Reachable (registry_of foundation)
after_founding =
    let (p, one) = registry-value registration registers in
    let (o, two) = registry-value foundation founds in
    after (after started (registering _ _ _ _ p one)) (founding _ _ _ _ _ _ o two)

replay-history_reachable_example :
    (history (registry_of foundation) ≡ (registry_of foundation).operations)
    × (replay (history (registry_of foundation)) ≡ ok (registry_of foundation))
replay-history_reachable_example = replay-history_reachable (registry_of foundation) after_founding

switch_workspace-HasAccess_example :
    (w : Workspace) × (workspace_for
        (registry_of foundation)
        (text "principal:a")
        (text "workspace:w")
      ≡ ok w)
    × (principal_id (text "principal:a") ≡ ok (value_or no_context entry).principal_id)
    × (value_or no_context entry ≡ context_of (value_or no_context entry).principal_id w)
    × HasAccess (registry_of foundation) (value_or no_context entry).principal_id w
switch_workspace-HasAccess_example =
    switch_workspace-HasAccess (registry_of foundation) (text "principal:a") (text "workspace:w")
      (value_or no_context entry) (ok-value no_context entry enters)

-- A principal with an account.
abbrev account_opening : Result (Registry × (Account × PersonalWorkspace))
account_opening =
    create_account (text "workspace-operation:2") (text "account:a") (text "principal:a")
      (text "workspace:p") (text "2Z") (registry_of registration)

opens : is_ok account_opening ≡ true
unfolding register_principal create_organization switch_workspace apply apply_body
    validate_operation prefixed_id get set member add sort integer prefixed namespaced required_text
    normalize_instant text text_discrete compare_units starts_with includes trim any all
    apply_organization_created assert_human_principal assert_principal assert_new_membership
    is_active_member enter context_for can_access context_of create_account apply_account_created
opens = refl

after_opening : Reachable (registry_of account_opening)
after_opening =
    let (p, one) = registry-value registration registers in
    let (a, two) = registry-value account_opening opens in
    after (after started (registering _ _ _ _ p one)) (opening _ _ _ _ _ a two)

is_some-value : {A : Type 0} (o : Option A) → is_some o ≡ true → (a : A) × (o ≡ some a)
is_some-value none h = absurd (cc)
is_some-value (some a) h = (a, refl)

member_there : is_some (get (text "membership:m") (registry_of foundation).memberships) ≡ true
unfolding register_principal create_organization switch_workspace apply apply_body
    validate_operation prefixed_id get set member add sort integer prefixed namespaced required_text
    normalize_instant text text_discrete compare_units starts_with includes trim any all
    apply_organization_created assert_human_principal assert_principal assert_new_membership
    is_active_member enter context_for can_access context_of
member_there = refl

account_there : is_some (get (text "account:a") (registry_of account_opening).accounts) ≡ true
unfolding register_principal create_organization switch_workspace apply apply_body
    validate_operation prefixed_id get set member add sort integer prefixed namespaced required_text
    normalize_instant text text_discrete compare_units starts_with includes trim any all
    apply_organization_created assert_human_principal assert_principal assert_new_membership
    is_active_member enter context_for can_access context_of create_account apply_account_created
account_there = refl

abbrev member_found :
    (m : Membership) × (get (text "membership:m") (registry_of foundation).memberships ≡ some m)
member_found =
    is_some-value (get (text "membership:m") (registry_of foundation).memberships) member_there

abbrev account_found :
    (a : Account) × (get (text "account:a") (registry_of account_opening).accounts ≡ some a)
account_found =
    is_some-value (get (text "account:a") (registry_of account_opening).accounts) account_there

reachable-membership_example : text "membership:m" ≡ text "membership:m"
reachable-membership_example =
    reachable-membership (registry_of foundation) (text "membership:m") (text "membership:m")
      member_found.0 member_found.0 after_founding member_found.1 member_found.1 refl refl

reachable-account_example : text "account:a" ≡ text "account:a"
reachable-account_example =
    reachable-account (registry_of account_opening) (text "account:a") (text "account:a")
      account_found.0 account_found.0 after_opening account_found.1 account_found.1 refl
