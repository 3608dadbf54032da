-- ===== src/Workspaces/Rebuilding.antt =====
-- packages/workspace/src/index.ts: an operation that is applied last is applied last in a replay.
use woyengi.Base.{
  ℕ, suc, ◌≤◌, compare, Ordering, not, same, ◌||◌, ◌==◌, All-append, List, [], ◌∷◌, ◌++◌, Text,
  true, false, ok, ◌≡◌, refl, sym, ap, subst, ◌∙◌, arith, >>=-eq-ok, throw_if->>-eq-ok, >>=-Returns,
  ok-Returns, value-Returns, Returns, ok-injective, Host, All, any, throw_if,
}
use woyengi.Base.Dict.{values, get, has, member}
use woyengi.Base.Sort.{Sorted}
use woyengi.Workspaces.Records.{
  Account, OperationBody, principal_registered, account_created, organization_created,
  membership_invited, membership_accepted, WorkspaceOperation,
}
use woyengi.Workspaces.Registry.{
  Registry, no_workspaces, apply_account_created, apply_organization_created,
  apply_membership_invited, apply_membership_accepted, assert_human_principal, assert_new_workspace,
  assert_new_membership, in_workspace, is_active_member, is_active, membership_at, assert_principal,
}
use woyengi.Workspaces.Applying.{
  validate_operation, apply_body, apply, apply_all, compare_operations, larger,
  next_ledger_sequence,
}

-- No operation has a later sequence.
abbrev pub IsWithin : ℕ → List WorkspaceOperation → Type 0
IsWithin n ops = All (λ (o : WorkspaceOperation). o.ledger_sequence ≤ n) ops

-- The operations are those from which the registry is rebuilt, in the order of their sequences.
pub record IsRebuilt ⦃h : Host⦄ (r : Registry) : Type 0 where
  pub rebuilt : apply_all r.operations no_workspaces ≡ ok r
  pub ordered : Sorted compare_operations r.operations
  pub within : IsWithin r.last_ledger_sequence r.operations

module _ ⦃h : Host⦄ where
  -- Which operations a part of the registry has.
  SameLog : Registry → Registry → Type 0
  SameLog r s = (s.operations ≡ r.operations) × (s.last_ledger_sequence ≡ r.last_ledger_sequence)

  apply_body-SameLog :
      (r : Registry) (body : OperationBody) (from : Text)
      → Returns (SameLog r) (apply_body r body from)
  unfolding apply_body SameLog apply_account_created apply_organization_created
      apply_membership_invited apply_membership_accepted
  apply_body-SameLog r (principal_registered p) from =
      >>=-Returns _ (throw_if (has p.id r.principals) _ _) _ (λ _ _. ok-Returns _ _ (refl, refl))
  apply_body-SameLog r (account_created a w) from =
      >>=-Returns _ (throw_if (has a.id r.accounts) _ _) _ (λ _ _.
        >>=-Returns _
          (throw_if
            (any (λ (b : Account). same b.owner_principal_id a.owner_principal_id)
              (values r.accounts))
            _ _)
          _
          (λ _ _. >>=-Returns _ (assert_human_principal r a.owner_principal_id) _ (λ _ _.
            >>=-Returns _ (assert_new_workspace r w.id) _ (λ _ _.
              >>=-Returns _ (throw_if (not (same a.personal_workspace_id w.id)) _ _) _
                (λ _ _. ok-Returns _ _ (refl, refl))))))
  apply_body-SameLog r (organization_created o w m) from =
      >>=-Returns _ (throw_if (has o.id r.organizations) _ _) _ (λ _ _.
        >>=-Returns _ (assert_human_principal r m.principal_id) _ (λ _ _.
          >>=-Returns _ (assert_new_workspace r w.id) _ (λ _ _.
            >>=-Returns _ (assert_new_membership r m) _ (λ _ _.
              >>=-Returns _
                (throw_if
                  (not (same o.workspace_id w.id)
                    || (not (same m.organization_id o.id) || not (same m.workspace_id w.id)))
                  _ _)
                _ (λ _ _. ok-Returns _ _ (refl, refl))))))
  apply_body-SameLog r (membership_invited m) from =
      >>=-Returns _ (assert_principal r m.principal_id) _ (λ _ _.
        >>=-Returns _ (assert_principal r m.invited_by_principal_id) _ (λ _ _.
          >>=-Returns _
            (throw_if (not (in_workspace (get m.organization_id r.organizations) m.workspace_id)) _
              _)
            _
            (λ _ _.
              >>=-Returns _
                (throw_if (not (is_active_member r m.invited_by_principal_id m.organization_id)) _
                  _)
                _
                (λ _ _.
                  >>=-Returns _ (assert_new_membership r m) _
                    (λ _ _. ok-Returns _ _ (refl, refl))))))
  apply_body-SameLog r (membership_accepted membership principal) from =
      >>=-Returns _ (assert_principal r principal) _ (λ _ _.
        >>=-Returns _ (membership_at (get membership r.memberships) membership) _ (λ m _.
          >>=-Returns _ (throw_if (not (same m.principal_id principal)) _ _) _ (λ _ _.
            >>=-Returns _ (throw_if (is_active m.status) _ _) _
              (λ _ _. ok-Returns _ _ (refl, refl)))))

  apply_all-snoc :
      (ops : List WorkspaceOperation) (op : WorkspaceOperation) (q r s : Registry)
      → apply_all ops q ≡ ok r
      → apply op r ≡ ok s
      → apply_all (ops ++ op ∷ []) q ≡ ok s
  unfolding apply_all
  apply_all-snoc [] op q r s e k = rw (ok-injective e) (rw k refl)
  apply_all-snoc (o ∷ ops) op q r s e k =
      let (t, e1, e2) = >>=-eq-ok (apply o q) (λ x. apply_all ops x) e in
      rw e1 (apply_all-snoc ops op t r s e2 k)

  earlier : (a b : ℕ) → a ≤ b → elim (compare a b) [ Ordering.gt ↦ false | _ ↦ true ] ≡ true
  earlier a b h = ground arith

  Sorted-snoc :
      (ops : List WorkspaceOperation) (op : WorkspaceOperation)
      → Sorted compare_operations ops
      → All (λ (o : WorkspaceOperation). o.ledger_sequence ≤ op.ledger_sequence) ops
      → Sorted compare_operations (ops ++ op ∷ [])
  Sorted-snoc [] op s a = (tt, tt)
  Sorted-snoc (o ∷ ops) op (x, s) (y, a) = (
    All-append _ ops (op ∷ []) x (earlier o.ledger_sequence op.ledger_sequence y, tt),
    Sorted-snoc ops op s a,
  )

  larger-next : (a b : ℕ) → b ≡ suc a → larger a b ≡ b
  larger-next a b h = ground (arith, h)

  IsWithin-weaken :
      (a b : ℕ) (ops : List WorkspaceOperation) → a ≤ b → IsWithin a ops → IsWithin b ops
  IsWithin-weaken a b [] h w = tt
  IsWithin-weaken a b (o ∷ ops) h (x, w) = (omega (arith, x, h), IsWithin-weaken a b ops h w)

  pub apply-IsRebuilt :
      (op : WorkspaceOperation) (r s : Registry)
      → op.ledger_sequence ≡ next_ledger_sequence r
      → IsRebuilt r
      → apply op r ≡ ok s
      → IsRebuilt s
  unfolding apply SameLog
  apply-IsRebuilt op r s next w e =
      let (_, _, e1) = >>=-eq-ok (validate_operation op) _ e in
      let (_, e2) = throw_if->>-eq-ok (member op.id r.operation_ids) _ _ _ e1 in
      let (_, e3) =
        throw_if->>-eq-ok (any (λ n. n == op.ledger_sequence) r.ledger_sequences) _ _ _ e2 in
      let (t, b, e4) = >>=-eq-ok (apply_body r op.body op.from) _ e3 in
      let (log, last) =
        value-Returns (SameLog r) (apply_body r op.body op.from) t
          (apply_body-SameLog r op.body op.from) b in
      let stored : s.operations ≡ r.operations ++ op ∷ [] =
        ap (λ (x : Registry). x.operations) (sym (ok-injective e4))
        ∙ ap (λ xs. xs ++ op ∷ []) log in
      let counted : s.last_ledger_sequence ≡ op.ledger_sequence =
        ap (λ (x : Registry). x.last_ledger_sequence) (sym (ok-injective e4))
        ∙ larger-next t.last_ledger_sequence op.ledger_sequence (next ∙ ap suc (sym last)) in
      let below =
        IsWithin-weaken r.last_ledger_sequence op.ledger_sequence r.operations (omega (arith, next))
          w.within in
      record {
        rebuilt =
            ap (λ xs. apply_all xs no_workspaces) stored
            ∙ apply_all-snoc r.operations op no_workspaces r s w.rebuilt e;
        ordered =
            subst (Sorted compare_operations) (sym stored)
              (Sorted-snoc r.operations op w.ordered below);
        within = subst (IsWithin s.last_ledger_sequence) (sym stored) (
            subst (λ n. IsWithin n (r.operations ++ op ∷ [])) (sym counted)
              (All-append _ r.operations (op ∷ []) below (omega arith, tt)));
      }
