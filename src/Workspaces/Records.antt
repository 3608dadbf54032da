-- ===== src/Workspaces/Records.antt =====
-- packages/workspace/src/index.ts: the records of a workspace registry and its operations, and the
-- validation of their ids. A branded id is a text, and
-- `prefixedId` is the function that packages/work has too.
use woyengi.Base.{ℕ, Option, Text, text, Result}
use woyengi.Work.Inputs.{prefixed_id}

pub data PrincipalKind : Type 0 where
  human agent service automation : PrincipalKind

pub record Principal : Type 0 where
  pub id : Text
  pub kind : PrincipalKind

pub record Account : Type 0 where
  pub id : Text
  pub owner_principal_id : Text
  pub personal_workspace_id : Text

pub record Organization : Type 0 where
  pub id : Text
  pub workspace_id : Text

pub record PersonalWorkspace : Type 0 where
  pub id : Text
  pub account_id : Text

pub record OrganizationWorkspace : Type 0 where
  pub id : Text
  pub organization_id : Text

pub data Workspace : Type 0 where
  personal : PersonalWorkspace → Workspace
  organizational : OrganizationWorkspace → Workspace

pub data MembershipStatus : Type 0 where
  invited active : MembershipStatus

pub record Membership : Type 0 where
  pub id : Text
  pub organization_id : Text
  pub workspace_id : Text
  pub principal_id : Text
  pub status : MembershipStatus
  pub invited_by_principal_id : Text
  pub invited_at : Text
  pub activated_at : Option Text

pub record WorkspaceContext : Type 0 where
  pub principal_id : Text
  pub workspace_id : Text
  pub account_id : Option Text
  pub organization_id : Option Text

pub data OperationBody : Type 0 where
  principal_registered : Principal → OperationBody
  account_created : Account → PersonalWorkspace → OperationBody
  organization_created : Organization → OrganizationWorkspace → Membership → OperationBody
  membership_invited : Membership → OperationBody
  membership_accepted : (membership_id principal_id : Text) → OperationBody

pub record WorkspaceOperation : Type 0 where
  pub id : Text
  pub ledger_sequence : ℕ
  pub from : Text
  pub body : OperationBody

abbrev pub account_id : Text → Result Text
account_id value = prefixed_id (text "account id") value (text "account:")

abbrev pub organization_id : Text → Result Text
organization_id value = prefixed_id (text "organization id") value (text "organization:")

abbrev pub workspace_id : Text → Result Text
workspace_id value = prefixed_id (text "workspace id") value (text "workspace:")

abbrev pub membership_id : Text → Result Text
membership_id value = prefixed_id (text "membership id") value (text "membership:")

abbrev pub principal_id : Text → Result Text
principal_id value = prefixed_id (text "principal id") value (text "principal:")

abbrev pub operation_id : Text → Result Text
operation_id value = prefixed_id (text "workspace operation id") value (text "workspace-operation:")
