-- ===== src/Workspaces/Access.antt =====
-- packages/workspace/src/index.ts: who may enter a workspace.
use woyengi.Base.{
  Option, none, some, List, ◌++◌, Text, text, Bool, false, not, Result, ok, raise, plain_error,
  ◌>>=◌, ◌>>◌, throw_if, same, keep, Host,
}
use woyengi.Base.Dict.{get, values}
use woyengi.Base.Sort.{sort}
use woyengi.Workspaces.Records.{
  Account, Workspace, personal, organizational, Membership, WorkspaceContext, workspace_id,
  principal_id,
}
use woyengi.Workspaces.Registry.{Registry, is_active_member}

abbrev pub owns : Option Account → Text → Bool
owns none principal = false
owns (some a) principal = same a.owner_principal_id principal

unfoldable pub can_access : Registry → Text → Workspace → Bool
unfolding is_active_member
can_access r principal (personal w) = owns (get w.account_id r.accounts) principal
can_access r principal (organizational w) = is_active_member r principal w.organization_id

abbrev pub workspace_key : Workspace → Text
workspace_key (personal w) = w.id
workspace_key (organizational w) = w.id

unfoldable pub context_of : Text → Workspace → WorkspaceContext
context_of principal (personal w) = record {
  principal_id = principal;
  workspace_id = w.id;
  account_id = some w.account_id;
  organization_id = none;
}
context_of principal (organizational w) = record {
  principal_id = principal;
  workspace_id = w.id;
  account_id = none;
  organization_id = some w.organization_id;
}

unfoldable pub context_for : Registry → Text → Workspace → Result WorkspaceContext
unfolding can_access context_of
context_for r principal w = do
  throw_if (not (can_access r principal w)) plain_error
      (text "workspace access denied: " ++ (principal ++ (text " -> " ++ workspace_key w)))
  ok (context_of principal w)

-- The first test of `switchWorkspace`.
abbrev pub assert_member : Registry → Text → Workspace → Result (Unit {0})
assert_member r principal (personal w) = ok tt
assert_member r principal (organizational w) =
    throw_if (not (is_active_member r principal w.organization_id)) plain_error
      (principal ++ (text " is not an active member of " ++ w.organization_id))

unfoldable pub enter : Registry → Text → Text → Option Workspace → Result WorkspaceContext
unfolding context_for
enter r principal id none = raise plain_error (text "workspace does not exist: " ++ id)
enter r principal id (some w) = do assert_member r principal w; context_for r principal w

unfoldable pub switch_workspace : Registry → Text → Text → Result WorkspaceContext
unfolding enter
switch_workspace r principal workspace = do
  p ← principal_id principal
  w ← workspace_id workspace
  enter r p w (get w r.workspaces)

unfoldable pub visible : Registry → Text → Text → Option Workspace → Result Workspace
unfolding can_access
visible r principal id none =
    raise plain_error (text "workspace access denied: " ++ (principal ++ (text " -> " ++ id)))
visible r principal id (some w) = do
  throw_if (not (can_access r principal w)) plain_error
      (text "workspace access denied: " ++ (principal ++ (text " -> " ++ id)))
  ok w

unfoldable pub workspace_for : Registry → Text → Text → Result Workspace
unfolding visible
workspace_for r principal workspace = do
  p ← principal_id principal
  w ← workspace_id workspace
  visible r p w (get w r.workspaces)

unfoldable pub memberships_for : ⦃h : Host⦄ → Registry → Text → Result (List Membership)
memberships_for ⦃h⦄ r principal = do
  p ← principal_id principal
  ok (
      sort (λ left right. h.locale_compare left.id right.id)
        (keep (λ (m : Membership). same m.principal_id p) (values r.memberships)))
