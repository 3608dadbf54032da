-- ===== src/Workspaces/Methods.antt =====
-- packages/workspace/src/index.ts: the methods of `WorkspaceRegistry` that add an operation.
use woyengi.Base.{
  Option, none, some, Text, text, ◌++◌, Result, ok, raise, plain_error, ◌>>=◌, Host,
  normalize_instant,
}
use woyengi.Base.Dict.{get}
use woyengi.Workspaces.Records.{
  PrincipalKind, Principal, Account, Organization, PersonalWorkspace, OrganizationWorkspace,
  invited, active, Membership, principal_registered, account_created, organization_created,
  membership_invited, membership_accepted, account_id, organization_id, workspace_id, membership_id,
  principal_id, operation_id,
}
use woyengi.Workspaces.Registry.{Registry, explicit_instant}
use woyengi.Workspaces.Applying.{apply, next_ledger_sequence}

abbrev pub found : {A : Type 0} → Option A → Text → Result A
found none message = raise plain_error message
found (some a) message = ok a

module _ ⦃h : Host⦄ where
  unfoldable pub register_principal :
      Text → Text → PrincipalKind → Text → Registry → Result (Registry × Principal)
  register_principal operation id kind recorded_at r = do
    key ← principal_id id
    operation_key ← operation_id operation
    at ← normalize_instant explicit_instant recorded_at
    let p : Principal = record { id = key; kind = kind }
    s ←
        apply
          (record {
            id = operation_key;
            ledger_sequence = next_ledger_sequence r;
            from = at;
            body = principal_registered p;
          })
          r
    ok (s, p)

  unfoldable pub create_account :
      Text
      → Text
      → Text
      → Text
      → Text
      → Registry
      → Result (Registry × (Account × PersonalWorkspace))
  create_account operation id owner workspace recorded_at r = do
    key ← account_id id
    owner_key ← principal_id owner
    workspace_key ← workspace_id workspace
    operation_key ← operation_id operation
    at ← normalize_instant explicit_instant recorded_at
    let a : Account = record {
      id = key;
      owner_principal_id = owner_key;
      personal_workspace_id = workspace_key;
    }
    let w : PersonalWorkspace = record { id = workspace_key; account_id = key }
    s ←
        apply
          (record {
            id = operation_key;
            ledger_sequence = next_ledger_sequence r;
            from = at;
            body = account_created a w;
          })
          r
    ok (s, (a, w))

  unfoldable pub create_organization :
      Text
      → Text
      → Text
      → Text
      → Text
      → Text
      → Registry
      → Result (Registry × (Organization × (OrganizationWorkspace × Membership)))
  create_organization operation id workspace membership owner recorded_at r = do
    at ← normalize_instant explicit_instant recorded_at
    key ← organization_id id
    workspace_key ← workspace_id workspace
    membership_key ← membership_id membership
    owner_key ← principal_id owner
    operation_key ← operation_id operation
    let o : Organization = record { id = key; workspace_id = workspace_key }
    let w : OrganizationWorkspace = record { id = workspace_key; organization_id = key }
    let m : Membership = record {
      id = membership_key;
      organization_id = key;
      workspace_id = workspace_key;
      principal_id = owner_key;
      status = active;
      invited_by_principal_id = owner_key;
      invited_at = at;
      activated_at = some at;
    }
    s ←
        apply
          (record {
            id = operation_key;
            ledger_sequence = next_ledger_sequence r;
            from = at;
            body = organization_created o w m;
          })
          r
    ok (s, (o, (w, m)))

  unfoldable pub invite_member :
      Text → Text → Text → Text → Text → Text → Registry → Result (Registry × Membership)
  invite_member operation id organization principal inviter recorded_at r = do
    key ← organization_id organization
    o ← found (get key r.organizations) (text "organization does not exist: " ++ key)
    membership_key ← membership_id id
    principal_key ← principal_id principal
    inviter_key ← principal_id inviter
    at ← normalize_instant explicit_instant recorded_at
    operation_key ← operation_id operation
    let m : Membership = record {
      id = membership_key;
      organization_id = key;
      workspace_id = o.workspace_id;
      principal_id = principal_key;
      status = invited;
      invited_by_principal_id = inviter_key;
      invited_at = at;
      activated_at = none;
    }
    s ←
        apply
          (record {
            id = operation_key;
            ledger_sequence = next_ledger_sequence r;
            from = at;
            body = membership_invited m;
          })
          r
    ok (s, m)

  unfoldable pub accept_invitation :
      Text → Text → Text → Text → Registry → Result (Registry × Membership)
  accept_invitation operation membership principal recorded_at r = do
    operation_key ← operation_id operation
    key ← membership_id membership
    principal_key ← principal_id principal
    at ← normalize_instant explicit_instant recorded_at
    s ←
        apply
          (record {
            id = operation_key;
            ledger_sequence = next_ledger_sequence r;
            from = at;
            body = membership_accepted key principal_key;
          })
          r
    -- It is there, since `apply` changed it.
    m ← found (get key s.memberships) (text "membership does not exist: " ++ key)
    ok (s, m)
