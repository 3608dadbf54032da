-- ===== src/Workspaces/Singling.antt =====
-- packages/workspace/src/index.ts: one membership in an organization, and one account, a principal.
use woyengi.Base.{
  Option, none, some, Text, true, false, not, ◌&&◌, ◌||◌, ok, ◌≡◌, ◌≢◌, refl, sym, ap, subst, ◌∙◌,
  same, same_refl, throw_if, >>=-Returns, ok-Returns, value-Returns, throw_if-Returns, Returns,
  throw_if-eq-ok, ok-injective, Host, any, any_of_In, text_discrete,
}
use woyengi.Base.Dict.{Dict, get, set, has, values, get-In, get-set_self, get-set_ne}
use woyengi.Base.Keyed.{IsUnique, set-IsUnique}
use woyengi.Workspaces.Records.{
  Account, Membership, OperationBody, principal_registered, account_created, organization_created,
  membership_invited, membership_accepted, active,
}
use woyengi.Workspaces.Registry.{
  Registry, apply_account_created, apply_organization_created, apply_membership_invited,
  apply_membership_accepted, assert_human_principal, assert_new_workspace, assert_new_membership,
  assert_principal, in_workspace, is_active_member, is_active, membership_at,
}
use woyengi.Workspaces.Applying.{apply_body}

abbrev pub SameMember : Membership → Membership → Type 0
SameMember m n = (m.organization_id ≡ n.organization_id) × (m.principal_id ≡ n.principal_id)

abbrev pub SameOwner : Account → Account → Type 0
SameOwner a b = a.owner_principal_id ≡ b.owner_principal_id

-- Every membership stands under its id.
abbrev pub IsFiled : Dict Membership → Type 0
IsFiled d = (k : Text) (m : Membership) → get k d ≡ some m → m.id ≡ k

pub record IsSingle (r : Registry) : Type 0 where
  pub members : IsUnique SameMember r.memberships
  pub owners : IsUnique SameOwner r.accounts
  pub filed : IsFiled r.memberships

some-eq : {A : Type 0} {a b : A} → some a ≡ some b → a ≡ b
some-eq h = cc

false-true : {B : Type 0} → false ≡ true → B
false-true h = absurd (cc)

set-IsFiled : (m : Membership) (d : Dict Membership) → IsFiled d → IsFiled (set m.id m d)
set-IsFiled m d filed k n g = elim (text_discrete m.id k) [
  | yes e ↦
      let at = subst (λ x. get x (set m.id m d) ≡ some n) (sym e) g in
      ap (λ (x : Membership). x.id) (some-eq (sym at ∙ get-set_self m.id m d)) ∙ e
  | no p ↦ filed k n (sym (get-set_ne m.id k m d p) ∙ g)
]

-- A new member is in the organization for the first time.
new_membership :
    (r : Registry) (m : Membership)
    → Returns
        (λ (_ : Unit {0}).
          (j : Text) (n : Membership) → get j r.memberships ≡ some n → SameMember n m → ⊥)
        (assert_new_membership r m)
unfolding assert_new_membership
new_membership r m = >>=-Returns _ (throw_if (has m.id r.memberships) _ _) _ (λ _ _.
    throw_if-Returns _
      (any
        (λ (c : Membership).
          same c.organization_id m.organization_id && same c.principal_id m.principal_id)
        (values r.memberships))
      _ _
      (λ absent j n g (o, p). false-true (
        sym absent
        ∙ any_of_In _ n (values r.memberships) (get-In j n r.memberships g)
            (rw (o, p, same_refl m.organization_id, same_refl m.principal_id) refl))))

new_owner :
    (r : Registry) (a : Account)
    → any (λ (b : Account). same b.owner_principal_id a.owner_principal_id) (values r.accounts)
      ≡ false
    → (j : Text) (b : Account) → get j r.accounts ≡ some b
    → SameOwner b a
    → ⊥
new_owner r a absent j b g o = false-true (
    sym absent
    ∙ any_of_In _ b (values r.accounts) (get-In j b r.accounts g)
        (rw (o, same_refl a.owner_principal_id) refl))

flip_member : (m n : Membership) → SameMember m n → SameMember n m
flip_member m n (o, p) = (sym o, sym p)

with_member :
    (r : Registry) (m : Membership)
    → IsSingle r
    → ((j : Text) (n : Membership) → get j r.memberships ≡ some n → m.id ≢ j → SameMember n m → ⊥)
    → IsUnique SameMember (set m.id m r.memberships) × IsFiled (set m.id m r.memberships)
with_member r m w new = (
  set-IsUnique SameMember m.id m r.memberships flip_member new w.members,
  set-IsFiled m r.memberships w.filed,
)

membership_at-eq :
    (o : Option Membership) (id : Text) (m : Membership) → membership_at o id ≡ ok m → o ≡ some m
membership_at-eq none id m h = absurd (cc)
membership_at-eq (some n) id m h = ap some (ok-injective h)

pub apply_body-IsSingle :
    ⦃h : Host⦄ (r : Registry) (body : OperationBody) (from : Text)
    → IsSingle r
    → Returns IsSingle (apply_body r body from)
unfolding apply_body apply_account_created apply_organization_created apply_membership_invited
    apply_membership_accepted
apply_body-IsSingle r (principal_registered p) from w =
    >>=-Returns _ (throw_if (has p.id r.principals) _ _) _
      (λ _ _. ok-Returns _ _ (record { members = w.members; owners = w.owners; filed = w.filed }))
apply_body-IsSingle r (account_created a p) from w =
    >>=-Returns _ (throw_if (has a.id r.accounts) _ _) _ (λ _ _.
      >>=-Returns _
        (throw_if
          (any (λ (b : Account). same b.owner_principal_id a.owner_principal_id)
            (values r.accounts))
          _ _)
        _
        (λ _ g. >>=-Returns _ (assert_human_principal r a.owner_principal_id) _ (λ _ _.
          >>=-Returns _ (assert_new_workspace r p.id) _ (λ _ _.
            >>=-Returns _ (throw_if (not (same a.personal_workspace_id p.id)) _ _) _ (λ _ _.
              ok-Returns _ _ (record {
                members = w.members;
                owners =
                    set-IsUnique SameOwner a.id a r.accounts (λ x y e. sym e)
                      (λ j b at _ o. new_owner r a (throw_if-eq-ok _ _ _ g) j b at o) w.owners;
                filed = w.filed;
              }))))))
apply_body-IsSingle r (organization_created o p m) from w =
    >>=-Returns _ (throw_if (has o.id r.organizations) _ _) _ (λ _ _.
      >>=-Returns _ (assert_human_principal r m.principal_id) _ (λ _ _.
        >>=-Returns _ (assert_new_workspace r p.id) _ (λ _ _.
          >>=-Returns _ (assert_new_membership r m) _ (λ u g.
            >>=-Returns _
              (throw_if
                (not (same o.workspace_id p.id)
                  || (not (same m.organization_id o.id) || not (same m.workspace_id p.id)))
                _ _)
              _
              (λ _ _.
                let new = value-Returns _ (assert_new_membership r m) u (new_membership r m) g in
                let (members, filed) = with_member r m w (λ j n at _ e. new j n at e) in
                ok-Returns _ _ (record { members = members; owners = w.owners; filed = filed }))))))
apply_body-IsSingle r (membership_invited m) from w =
    >>=-Returns _ (assert_principal r m.principal_id) _ (λ _ _.
      >>=-Returns _ (assert_principal r m.invited_by_principal_id) _ (λ _ _.
        >>=-Returns _
          (throw_if (not (in_workspace (get m.organization_id r.organizations) m.workspace_id)) _ _)
          _
          (λ _ _.
            >>=-Returns _
              (throw_if (not (is_active_member r m.invited_by_principal_id m.organization_id)) _ _)
              _
              (λ _ _. >>=-Returns _ (assert_new_membership r m) _ (λ u g.
                let new = value-Returns _ (assert_new_membership r m) u (new_membership r m) g in
                let (members, filed) = with_member r m w (λ j n at _ e. new j n at e) in
                ok-Returns _ _ (record { members = members; owners = w.owners; filed = filed }))))))
apply_body-IsSingle r (membership_accepted id principal) from w =
    >>=-Returns _ (assert_principal r principal) _ (λ _ _.
      >>=-Returns _ (membership_at (get id r.memberships) id) _ (λ m g.
        >>=-Returns _ (throw_if (not (same m.principal_id principal)) _ _) _ (λ _ _.
          >>=-Returns _ (throw_if (is_active m.status) _ _) _ (λ _ _.
            let own = membership_at-eq (get id r.memberships) id m g in
            let (members, filed) =
              with_member r (record m { status = active; activated_at = some from }) w
                (λ j n at ne e. ne (w.filed id m own ∙ sym (w.members j id n m at own e))) in
            ok-Returns _ _ (record { members = members; owners = w.owners; filed = filed })))))
