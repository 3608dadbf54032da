-- ===== src/Workspaces/Entering.antt =====
-- packages/workspace/src/index.ts: a workspace is entered by those who may see it.
use woyengi.Base.{
  Option, none, some, Text, Bool, true, false, not, ◌&&◌, ok, ◌≡◌, refl, sym, ap, arith, In, same,
  same-eq, any-true, throw_if, >>=-Returns, ok-Returns, value-Returns, Returns, throw_if-eq-ok,
  raise-Returns, subst, and_left, and_right, ◌∙◌,
}
use woyengi.Base.Dict.{get, values}
use woyengi.Workspaces.Records.{
  Account, Workspace, personal, organizational, MembershipStatus, invited, active, Membership,
  WorkspaceContext, workspace_id, principal_id,
}
use woyengi.Workspaces.Registry.{Registry, is_active, is_active_member}
use woyengi.Workspaces.Access.{
  owns, can_access, context_of, context_for, assert_member, enter, switch_workspace, visible,
  workspace_for,
}

-- The owner of the account of a personal workspace, or an active member of the organization.
pub HasAccess : Registry → Text → Workspace → Type 0
HasAccess r principal (personal w) =
    (a : Account) × (get w.account_id r.accounts ≡ some a) × (a.owner_principal_id ≡ principal)
HasAccess r principal (organizational w) =
    (m : Membership) × In m (values r.memberships)
    × (m.organization_id ≡ w.organization_id)
    × (m.principal_id ≡ principal)
    × (m.status ≡ active)

owns-account :
    (o : Option Account) (p : Text)
    → owns o p ≡ true
    → (a : Account) × (o ≡ some a) × (a.owner_principal_id ≡ p)
owns-account none p h = absurd (cc)
owns-account (some a) p h = (a, refl, same-eq a.owner_principal_id p h)

is_active-eq : (s : MembershipStatus) → is_active s ≡ true → s ≡ active
is_active-eq active h = refl
is_active-eq invited h = absurd (cc)

can_access-HasAccess :
    (r : Registry) (p : Text) (w : Workspace) → can_access r p w ≡ true → HasAccess r p w
unfolding can_access HasAccess is_active_member
can_access-HasAccess r p (personal w) h = owns-account (get w.account_id r.accounts) p h
can_access-HasAccess r p (organizational w) h =
    let (m, i, e) =
      any-true
        (λ (m : Membership).
          same m.organization_id w.organization_id && (same m.principal_id p && is_active m.status))
        (values r.memberships) h in
    let rest =
      and_right (same m.organization_id w.organization_id)
        (same m.principal_id p && is_active m.status) e in
    (
      m,
      i,
      same-eq m.organization_id w.organization_id
          (and_left _ (same m.principal_id p && is_active m.status) e),
      same-eq m.principal_id p (and_left _ (is_active m.status) rest),
      is_active-eq m.status (and_right (same m.principal_id p) _ rest),
    )

-- What entering gives, and that the workspace may be seen.
abbrev Enters : Registry → Text → Text → WorkspaceContext → Type 0
Enters r principal workspace c =
    (w : Workspace) × (workspace_for r principal workspace ≡ ok w)
    × (principal_id principal ≡ ok c.principal_id)
    × (c ≡ context_of c.principal_id w)
    × HasAccess r c.principal_id w

not-allowed : {b : Bool} → not b ≡ false → b ≡ true
not-allowed h = ground arith

context_of-principal : (p : Text) (w : Workspace) → (context_of p w).principal_id ≡ p
unfolding context_of
context_of-principal p (personal w) = refl
context_of-principal p (organizational w) = refl

enter-Enters :
    (r : Registry) (principal workspace p k : Text) (o : Option Workspace)
    → principal_id principal ≡ ok p
    → workspace_id workspace ≡ ok k
    → get k r.workspaces ≡ o
    → Returns (Enters r principal workspace) (enter r p k o)
unfolding enter context_for workspace_for visible
enter-Enters r principal workspace p k none pe ke oe = raise-Returns _ _ _
enter-Enters r principal workspace p k (some w) pe ke oe =
    >>=-Returns _ (assert_member r p w) _ (λ _ _.
      >>=-Returns _ (throw_if (not (can_access r p w)) _ _) _ (λ _ g.
        let can = not-allowed (throw_if-eq-ok (not (can_access r p w)) _ _ g) in
        let own = context_of-principal p w in
        ok-Returns _ _ (
          w,
          rw (pe, ke, oe, can) refl,
          pe ∙ ap (λ x. ok x) (sym own),
          ap (λ x. context_of x w) (sym own),
          subst (λ x. HasAccess r x w) (sym own) (can_access-HasAccess r p w can),
        )))

-- The context that entering a workspace gives is the workspace's context of the principal that
-- entered, whose normalised id it carries; and that principal either owns the account of the
-- workspace or is an active member of its organization.
pub switch_workspace-HasAccess :
    (r : Registry) (principal workspace : Text) (c : WorkspaceContext)
    → switch_workspace r principal workspace ≡ ok c
    → (w : Workspace) × (workspace_for r principal workspace ≡ ok w)
      × (principal_id principal ≡ ok c.principal_id)
      × (c ≡ context_of c.principal_id w)
      × HasAccess r c.principal_id w
unfolding switch_workspace
switch_workspace-HasAccess r principal workspace c e =
    value-Returns (Enters r principal workspace) (switch_workspace r principal workspace) c
      (>>=-Returns _ (principal_id principal) _ (λ p pe.
        >>=-Returns _ (workspace_id workspace) _
          (λ k ke. enter-Enters r principal workspace p k (get k r.workspaces) pe ke refl)))
      e
