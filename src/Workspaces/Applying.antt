-- ===== src/Workspaces/Applying.antt =====
-- packages/workspace/src/index.ts: `#apply` of an operation, `history` and `replay`.
use woyengi.Base.{
  ℕ, suc, compare, Ordering, Option, none, some, List, [], ◌∷◌, ◌++◌, Text, text, ◌||◌, ◌==◌,
  Result, ok, plain_error, type_error, ◌>>=◌, ◌>>◌, throw_if, any, ltb, Host, normalize_instant,
  if◌then◌else◌,
}
use woyengi.Base.Dict.{set, has, member, add}
use woyengi.Base.Number.{integer}
use woyengi.Base.Sort.{sort}
use woyengi.Workspaces.Records.{
  Membership, OperationBody, principal_registered, account_created, organization_created,
  membership_invited, membership_accepted, WorkspaceOperation, account_id, organization_id,
  workspace_id, membership_id, principal_id, operation_id,
}
use woyengi.Workspaces.Registry.{
  Registry, no_workspaces, explicit_instant, max_safe_integer, apply_account_created,
  apply_organization_created, apply_membership_invited, apply_membership_accepted,
}

module _ ⦃h : Host⦄ where
  abbrev optional_instant : Option Text → Result (Unit {0})
  optional_instant none = ok tt
  optional_instant (some at) = do i ← normalize_instant explicit_instant at; ok tt

  validate_membership : Membership → Result (Unit {0})
  validate_membership m = do
    a ← membership_id m.id
    b ← organization_id m.organization_id
    c ← workspace_id m.workspace_id
    d ← principal_id m.principal_id
    e ← principal_id m.invited_by_principal_id
    f ← normalize_instant explicit_instant m.invited_at
    optional_instant m.activated_at

  validate_body : OperationBody → Result (Unit {0})
  unfolding validate_membership
  validate_body (principal_registered p) = do a ← principal_id p.id; ok tt
  validate_body (account_created a w) = do
    b ← account_id a.id
    c ← principal_id a.owner_principal_id
    d ← workspace_id a.personal_workspace_id
    e ← workspace_id w.id
    f ← account_id w.account_id
    ok tt
  validate_body (organization_created o w m) = do
    a ← organization_id o.id
    b ← workspace_id o.workspace_id
    c ← workspace_id w.id
    d ← organization_id w.organization_id
    validate_membership m
  validate_body (membership_invited m) = validate_membership m
  validate_body (membership_accepted membership principal) = do
    a ← membership_id membership
    b ← principal_id principal
    ok tt

  unfoldable pub validate_operation : WorkspaceOperation → Result (Unit {0})
  unfolding validate_body
  validate_operation op = do
    a ← operation_id op.id
    throw_if (ltb max_safe_integer op.ledger_sequence || ltb op.ledger_sequence 1) type_error
        (text "workspace ledgerSequence must be a positive safe integer")
    b ← normalize_instant explicit_instant op.from
    validate_body op.body

  -- The `switch` of `#apply`.
  unfoldable pub apply_body : Registry → OperationBody → Text → Result Registry
  unfolding apply_account_created apply_organization_created apply_membership_invited
      apply_membership_accepted
  apply_body r (principal_registered p) from = do
    throw_if (has p.id r.principals) plain_error (text "principal already exists: " ++ p.id)
    ok (record r { principals = set p.id p r.principals })
  apply_body r (account_created a w) from = apply_account_created r a w
  apply_body r (organization_created o w m) from = apply_organization_created r o w m
  apply_body r (membership_invited m) from = apply_membership_invited r m
  apply_body r (membership_accepted membership principal) from =
      apply_membership_accepted r membership principal from

  -- `Math.max`
  abbrev pub larger : ℕ → ℕ → ℕ
  larger a b = if ltb a b then b else a

  -- The end of `#apply`. A sequence that is there is refused, so the set of them is a list.
  abbrev pub register_operation : WorkspaceOperation → Registry → Registry
  register_operation op r = record r {
    operation_ids = add op.id r.operation_ids;
    ledger_sequences = r.ledger_sequences ++ op.ledger_sequence ∷ [];
    last_ledger_sequence = larger r.last_ledger_sequence op.ledger_sequence;
    operations = r.operations ++ op ∷ [];
  }

  unfoldable pub apply : WorkspaceOperation → Registry → Result Registry
  unfolding validate_operation apply_body
  apply op r = do
    valid ← validate_operation op
    throw_if (member op.id r.operation_ids) plain_error
        (text "workspace operation already exists: " ++ op.id)
    throw_if (any (λ n. n == op.ledger_sequence) r.ledger_sequences) plain_error (
        text "workspace ledger sequence already exists: "
        ++ h.number_to_string (integer op.ledger_sequence))
    s ← apply_body r op.body op.from
    ok (register_operation op s)

  abbrev pub next_ledger_sequence : Registry → ℕ
  next_ledger_sequence r = suc r.last_ledger_sequence

  unfoldable pub apply_all : List WorkspaceOperation → Registry → Result Registry
  apply_all [] r = ok r
  apply_all (op ∷ ops) r = do s ← apply op r; apply_all ops s

abbrev pub compare_operations : WorkspaceOperation → WorkspaceOperation → Ordering
compare_operations left right = compare left.ledger_sequence right.ledger_sequence

unfoldable pub history : Registry → List WorkspaceOperation
history r = sort compare_operations r.operations

unfoldable pub replay : ⦃h : Host⦄ → List WorkspaceOperation → Result Registry
unfolding apply_all
replay operations = apply_all (sort compare_operations operations) no_workspaces
