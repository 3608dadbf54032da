-- ===== src/Workspaces/Replaying.antt =====
-- packages/workspace/src/index.ts: the registries that the methods can reach, and their replay.
use woyengi.Base.{
  Text, ok, some, any, throw_if, ◌==◌, ◌≡◌, refl, ap, ◌∙◌, >>=-Returns, ok-Returns, value-Returns,
  Returns, Host, normalize_instant,
}
use woyengi.Base.Dict.{member, get}
use woyengi.Base.Sort.{sort, sort-Sorted'}
use woyengi.Workspaces.Records.{
  PrincipalKind, Principal, Account, Organization, PersonalWorkspace, OrganizationWorkspace,
  Membership, WorkspaceOperation, account_id, organization_id, workspace_id, membership_id,
  principal_id, operation_id,
}
use woyengi.Workspaces.Registry.{Registry, no_workspaces, explicit_instant}
use woyengi.Workspaces.Applying.{
  validate_operation, apply_body, apply, apply_all, compare_operations, history, replay,
  next_ledger_sequence,
}
use woyengi.Workspaces.Methods.{
  found, register_principal, create_account, create_organization, invite_member, accept_invitation,
}
use woyengi.Workspaces.Singling.{IsSingle, apply_body-IsSingle}
use woyengi.Workspaces.Rebuilding.{IsRebuilt, apply-IsRebuilt}

module _ ⦃h : Host⦄ where
  -- A call of a method applies one operation, with the next sequence.
  Applies : Registry → Registry → Type 0
  Applies r s =
      (op : WorkspaceOperation) × (op.ledger_sequence ≡ next_ledger_sequence r)
      × (apply op r ≡ ok s)

  register_principal-Applies :
      (operation id : Text) (kind : PrincipalKind) (at : Text) (r : Registry)
      → Returns (λ p. Applies r p.0) (register_principal operation id kind at r)
  unfolding register_principal Applies
  register_principal-Applies operation id kind at r = >>=-Returns _ (principal_id id) _ (λ _ _.
      >>=-Returns _ (operation_id operation) _ (λ _ _.
        >>=-Returns _ (normalize_instant explicit_instant at) _ (λ _ _.
          >>=-Returns _ (apply _ r) _ (λ s applied. ok-Returns _ (s, _) (_, refl, applied)))))

  create_account-Applies :
      (operation id owner workspace at : Text) (r : Registry)
      → Returns (λ p. Applies r p.0) (create_account operation id owner workspace at r)
  unfolding create_account Applies
  create_account-Applies operation id owner workspace at r = >>=-Returns _ (account_id id) _ (λ _ _.
      >>=-Returns _ (principal_id owner) _ (λ _ _. >>=-Returns _ (workspace_id workspace) _ (λ _ _.
        >>=-Returns _ (operation_id operation) _ (λ _ _.
          >>=-Returns _ (normalize_instant explicit_instant at) _ (λ _ _.
            >>=-Returns _ (apply _ r) _ (λ s applied. ok-Returns _ (s, _) (_, refl, applied)))))))

  create_organization-Applies :
      (operation id workspace membership owner at : Text) (r : Registry)
      → Returns
          (λ p. Applies r p.0)
          (create_organization operation id workspace membership owner at r)
  unfolding create_organization Applies
  create_organization-Applies operation id workspace membership owner at r =
      >>=-Returns _ (normalize_instant explicit_instant at) _ (λ _ _.
        >>=-Returns _ (organization_id id) _ (λ _ _.
          >>=-Returns _ (workspace_id workspace) _ (λ _ _.
            >>=-Returns _ (membership_id membership) _ (λ _ _.
              >>=-Returns _ (principal_id owner) _ (λ _ _.
                >>=-Returns _ (operation_id operation) _ (λ _ _.
                  >>=-Returns _ (apply _ r) _
                    (λ s applied. ok-Returns _ (s, _) (_, refl, applied))))))))

  invite_member-Applies :
      (operation id organization principal inviter at : Text) (r : Registry)
      → Returns
          (λ p. Applies r p.0)
          (invite_member operation id organization principal inviter at r)
  unfolding invite_member Applies
  invite_member-Applies operation id organization principal inviter at r =
      >>=-Returns _ (organization_id organization) _ (λ key _.
        >>=-Returns _ (found (get key r.organizations) _) _ (λ _ _.
          >>=-Returns _ (membership_id id) _ (λ _ _.
            >>=-Returns _ (principal_id principal) _ (λ _ _.
              >>=-Returns _ (principal_id inviter) _ (λ _ _.
                >>=-Returns _ (normalize_instant explicit_instant at) _ (λ _ _.
                  >>=-Returns _ (operation_id operation) _ (λ _ _.
                    >>=-Returns _ (apply _ r) _
                      (λ s applied. ok-Returns _ (s, _) (_, refl, applied)))))))))

  accept_invitation-Applies :
      (operation membership principal at : Text) (r : Registry)
      → Returns (λ p. Applies r p.0) (accept_invitation operation membership principal at r)
  unfolding accept_invitation Applies
  accept_invitation-Applies operation membership principal at r =
      >>=-Returns _ (operation_id operation) _ (λ _ _.
        >>=-Returns _ (membership_id membership) _ (λ key _.
          >>=-Returns _ (principal_id principal) _ (λ _ _.
            >>=-Returns _ (normalize_instant explicit_instant at) _ (λ _ _.
              >>=-Returns _ (apply _ r) _ (λ s applied.
                >>=-Returns _ (found (get key s.memberships) _) _
                  (λ m _. ok-Returns _ (s, _) (_, refl, applied)))))))

  -- A call of a method that returns.
  pub data Step : Registry → Registry → Type 0 where
    registering :
        {r s : Registry} (operation id : Text) (kind : PrincipalKind) (at : Text) (x : Principal)
        → register_principal operation id kind at r ≡ ok (s, x)
        → Step r s
    opening :
        {r s : Registry} (operation id owner workspace at : Text) (x : Account × PersonalWorkspace)
        → create_account operation id owner workspace at r ≡ ok (s, x)
        → Step r s
    founding :
        {r s : Registry} (operation id workspace membership owner at : Text)
        (x : Organization × (OrganizationWorkspace × Membership))
        → create_organization operation id workspace membership owner at r ≡ ok (s, x)
        → Step r s
    inviting :
        {r s : Registry} (operation id organization principal inviter at : Text) (x : Membership)
        → invite_member operation id organization principal inviter at r ≡ ok (s, x)
        → Step r s
    accepting :
        {r s : Registry} (operation membership principal at : Text) (x : Membership)
        → accept_invitation operation membership principal at r ≡ ok (s, x)
        → Step r s

  pub data Reachable : Registry → Type 0 where
    started : Reachable no_workspaces
    after : {r s : Registry} → Reachable r → Step r s → Reachable s

  step-Applies : {r s : Registry} → Step r s → Applies r s
  step-Applies {r} {s} (registering operation id kind at x k) =
      value-Returns _ (register_principal operation id kind at r) (s, x)
        (register_principal-Applies operation id kind at r) k
  step-Applies {r} {s} (opening operation id owner workspace at x k) =
      value-Returns _ (create_account operation id owner workspace at r) (s, x)
        (create_account-Applies operation id owner workspace at r) k
  step-Applies {r} {s} (founding operation id workspace membership owner at x k) =
      value-Returns _ (create_organization operation id workspace membership owner at r) (s, x)
        (create_organization-Applies operation id workspace membership owner at r) k
  step-Applies {r} {s} (inviting operation id organization principal inviter at x k) =
      value-Returns _ (invite_member operation id organization principal inviter at r) (s, x)
        (invite_member-Applies operation id organization principal inviter at r) k
  step-Applies {r} {s} (accepting operation membership principal at x k) =
      value-Returns _ (accept_invitation operation membership principal at r) (s, x)
        (accept_invitation-Applies operation membership principal at r) k

  reachable-IsRebuilt : {r : Registry} → Reachable r → IsRebuilt r
  unfolding Applies apply_all
  reachable-IsRebuilt started = record { rebuilt = refl; ordered = tt; within = tt }
  reachable-IsRebuilt (after {r} {s} reached step) =
      let (op, next, applied) = step-Applies step in
      apply-IsRebuilt op r s next (reachable-IsRebuilt reached) applied

  -- A registry that the methods have built is rebuilt, field by field, by a replay of its history,
  -- which lists the operations in the order in which they were made.
  pub replay-history_reachable :
      (r : Registry) → Reachable r → (history r ≡ r.operations) × (replay (history r) ≡ ok r)
  unfolding history replay
  replay-history_reachable r reached =
      let w = reachable-IsRebuilt reached in
      let same_order = sort-Sorted' compare_operations r.operations w.ordered in
      (
        same_order,
        ap (λ xs. apply_all (sort compare_operations xs) no_workspaces) same_order
            ∙ (ap (λ xs. apply_all xs no_workspaces) same_order ∙ w.rebuilt),
      )

  apply-IsSingle :
      (op : WorkspaceOperation) (r s : Registry) → IsSingle r → apply op r ≡ ok s → IsSingle s
  unfolding apply
  apply-IsSingle op r s w e =
      value-Returns IsSingle (apply op r) s
        (>>=-Returns _ (validate_operation op) _ (λ _ _.
          >>=-Returns _ (throw_if (member op.id r.operation_ids) _ _) _ (λ _ _.
            >>=-Returns _ (throw_if (any (λ n. n == op.ledger_sequence) r.ledger_sequences) _ _) _
              (λ _ _. >>=-Returns _ (apply_body r op.body op.from) _ (λ t b.
                let kept =
                  value-Returns IsSingle (apply_body r op.body op.from) t
                    (apply_body-IsSingle r op.body op.from w) b in
                ok-Returns _ _
                  (record { members = kept.members; owners = kept.owners; filed = kept.filed }))))))
        e

  reachable-IsSingle : {r : Registry} → Reachable r → IsSingle r
  unfolding Applies get
  reachable-IsSingle started = record {
    members = λ j k v w g e h. absurd (cc);
    owners = λ j k v w g e h. absurd (cc);
    filed = λ k m g. absurd (cc);
  }
  reachable-IsSingle (after {r} {s} reached step) =
      let (op, next, applied) = step-Applies step in
      apply-IsSingle op r s (reachable-IsSingle reached) applied

  -- In a registry that the methods have built, a principal has at most one membership in an
  -- organization, be it invited or active.
  pub reachable-membership :
      (r : Registry) (j k : Text) (m n : Membership)
      → Reachable r
      → get j r.memberships ≡ some m
      → get k r.memberships ≡ some n
      → m.organization_id ≡ n.organization_id
      → m.principal_id ≡ n.principal_id
      → j ≡ k
  reachable-membership r j k m n reached g e o p =
      (reachable-IsSingle reached).members j k m n g e (o, p)

  -- In a registry that the methods have built, a principal owns at most one account.
  pub reachable-account :
      (r : Registry) (j k : Text) (a b : Account)
      → Reachable r
      → get j r.accounts ≡ some a
      → get k r.accounts ≡ some b
      → a.owner_principal_id ≡ b.owner_principal_id
      → j ≡ k
  reachable-account r j k a b reached = (reachable-IsSingle reached).owners j k a b
