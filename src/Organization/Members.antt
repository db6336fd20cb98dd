-- ===== src/Organization/Members.antt =====
-- The roles of members, their removal and the transfer of ownership, in
-- packages/api/src/modules/organization/organization.service.ts.
pub mod Outcomes
pub mod Governance
pub mod History
use kalam_network.Prelude.{
  ℕ, ◌+◌, Text, is_truthy, Bool, true, false, not, Option, none, some, List, is_some, ◌==◌, ◌&&◌,
  if◌then◌else◌,
}
use kalam_network.Exec.{
  Result, ok, err, Exec, pure, throw, gets, or_throw, throw_if, modify, ◌>>=◌, ◌>>◌,
}
use kalam_network.Repo.{find_one, find_key, save, delete_where}
use kalam_network.Organization.Types.{
  OrgRole, GrantableRole, granted, owner, admin, member, role_eq, Organization, OrgMember, OrgError,
  organization_not_found, member_not_found, cannot_remove_owner, cannot_modify_own_role,
  transfer_not_allowed, already_exists, creation_failed, OrgState, OrgEnv, Org, is_seat,
}

unfoldable pub find_member : Text → Text → OrgState → Option OrgMember
find_member org_id user_id s = find_one (is_seat org_id user_id) s.members

unfoldable pub save_member : OrgMember → Org Unit
save_member m = modify (λ s. record s { members = save OrgMember.id m s.members })

unfoldable pub save_organization : Organization → Org Unit
save_organization o =
    modify (λ s. record s { organizations = save Organization.id o s.organizations })

-- The guards that `updateMemberRole` and `removeMember` share.
unfoldable pub find_subordinate : Text → Text → Text → Org OrgMember
find_subordinate org_id target actor = do
  throw_if (target == actor) cannot_modify_own_role
  found ← gets (find_member org_id target)
  membership ← or_throw found member_not_found
  throw_if (role_eq membership.role owner) cannot_remove_owner
  pure membership

-- `updateMemberRole`
unfoldable pub update_member_role : Text → Text → Text → GrantableRole → Org OrgMember
update_member_role org_id target actor new_role = do
  membership ← find_subordinate org_id target actor
  let updated = record membership { role = granted new_role }
  save_member updated
  pure updated

-- `removeMember`
unfoldable pub remove_member : Text → Text → Text → Org Unit
remove_member org_id target actor = do
  membership ← find_subordinate org_id target actor
  modify (λ s. record s { members = delete_where (λ m. m.id == membership.id) s.members })

-- The membership of the owner, by its role too.
unfoldable pub find_owner : Text → Text → OrgState → Option OrgMember
find_owner org_id user_id s =
    find_one (λ m. is_seat org_id user_id m && role_eq m.role owner) s.members

-- `transferOwnership`
unfoldable pub transfer_ownership : Text → Text → Text → Org Organization
transfer_ownership org_id new_owner current_owner = do
  throw_if (new_owner == current_owner) transfer_not_allowed
  found ← gets (λ s. find_key Organization.id org_id s.organizations)
  org ← or_throw found organization_not_found
  throw_if (not (org.owner_user_id == current_owner)) transfer_not_allowed
  current ← gets (find_owner org_id current_owner)
  current_seat ← or_throw current transfer_not_allowed
  target ← gets (find_member org_id new_owner)
  target_seat ← or_throw target member_not_found
  let transferred = record org { owner_user_id = new_owner }
  save_member (record current_seat { role = admin })
  save_member (record target_seat { role = owner })
  save_organization transferred
  pure transferred

unfoldable pub new_org_id : OrgEnv → Org Text
new_org_id env s = (ok (env.uuid s.readings), record s { readings = s.readings + 1 })

-- `createAccount`, whose failure ends the creation.
unfoldable pub create_org_account : OrgEnv → Org Text
create_org_account env s = elim (env.create_account s.readings) [
  | none ↦ (err creation_failed, record s { readings = s.readings + 1 })
  | some account ↦ (ok account, record s { readings = s.readings + 1 })
]

-- `createTopic`, whose failure is only logged; an empty topic is left out.
unfoldable pub create_broadcast_topic : OrgEnv → Org (Option Text)
create_broadcast_topic env s = (
  ok (elim (env.create_topic s.readings) [
    | none ↦ none
    | some topic ↦ if is_truthy topic then some topic else none
  ]),
  record s { readings = s.readings + 1 },
)

-- `createOrganization`
unfoldable pub create_organization : OrgEnv → Text → Text → Org Organization
create_organization env owner_user_id name = do
  existing ←
      gets (λ s. find_one (λ o. Organization.owner_user_id o == owner_user_id) s.organizations)
  throw_if (is_some existing) already_exists
  account ← create_org_account env
  org_id ← new_org_id env
  topic ← create_broadcast_topic env
  let org : Organization = record {
    id = org_id;
    owner_user_id = owner_user_id;
    name = env.sanitize name;
    hedera_account_id = account;
    broadcast_topic_id = topic;
  }
  save_organization org
  member_id ← new_org_id env
  save_member (record {
    id = member_id;
    organization_id = org_id;
    user_id = owner_user_id;
    role = owner;
    invited_by = none;
  })
  pure org
