-- ===== src/Organization/Types.antt =====
-- The entities of packages/api/src/database/entities that
-- packages/api/src/modules/organization/organization.service.ts keeps, without the columns of the
-- public profile and the times that the database sets.
use kalam_network.Prelude.{ℕ, Text, Bool, true, false, Option, List, ◌==◌, ◌&&◌}
use kalam_network.Exec.{Exec}
use kalam_network.Auth.Users.{Account}

pub data OrgRole : Type 0 where
  owner admin member viewer : OrgRole

-- The roles that a change of role and an invitation may give.
pub data GrantableRole : Type 0 where
  as_admin as_member as_viewer : GrantableRole

abbrev pub granted : GrantableRole → OrgRole
granted as_admin = admin
granted as_member = member
granted as_viewer = viewer

-- The index of a role in ROLE_HIERARCHY.
abbrev pub role_index : OrgRole → ℕ
role_index owner = 0
role_index admin = 1
role_index member = 2
role_index viewer = 3

abbrev pub role_eq : OrgRole → OrgRole → Bool
role_eq a b = role_index a == role_index b

pub record Organization : Type 0 where
  pub id : Text
  pub owner_user_id : Text
  pub name : Text
  pub hedera_account_id : Text
  pub broadcast_topic_id : Option Text

pub record OrgMember : Type 0 where
  pub id : Text
  pub organization_id : Text
  pub user_id : Text
  pub role : OrgRole
  pub invited_by : Option Text

pub data InvitationStatus : Type 0 where
  pending accepted expired revoked : InvitationStatus

abbrev pub is_accepted : InvitationStatus → Bool
is_accepted accepted = true
is_accepted s = false

abbrev pub is_pending : InvitationStatus → Bool
is_pending pending = true
is_pending s = false

pub record Invitation : Type 0 where
  pub id : Text
  pub organization_id : Text
  pub email : Text
  pub role : GrantableRole
  pub invited_by : Text
  pub status : InvitationStatus
  pub token : Text
  pub expires_at : ℕ

pub data OrgError : Type 0 where
  organization_not_found member_not_found invitation_not_found cannot_remove_owner : OrgError
  cannot_modify_own_role transfer_not_allowed already_member already_exists : OrgError
  invitation_expired invitation_accepted duplicate_invitation creation_failed : OrgError
  permission_denied not_org_member : OrgError

pub record OrgState : Type 0 where
  pub organizations : List Organization
  pub members : List OrgMember
  pub invitations : List Invitation
  pub users : List Account
  pub readings : ℕ

-- What the environment answers, by the number of readings made before: the clock in milliseconds,
-- `randomUUID`, `randomBytes`, and the creation of an account and of a topic, which may fail.
pub record OrgEnv : Type 0 where
  pub clock : ℕ → ℕ
  pub uuid : ℕ → Text
  pub random_token : ℕ → Text
  pub create_account : ℕ → Option Text
  pub create_topic : ℕ → Option Text
  pub sanitize : Text → Text

abbrev pub Org : Type 0 → Type 0
Org A = Exec OrgState OrgError A

-- `where: { organizationId, userId }`
abbrev pub is_seat : Text → Text → OrgMember → Bool
is_seat org_id user_id m = m.organization_id == org_id && m.user_id == user_id
