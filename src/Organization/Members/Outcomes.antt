-- ===== src/Organization/Members/Outcomes.antt =====
-- What each change of the members leaves in the tables.
use kalam_network.Prelude.{◌≡◌, ◌≢◌, ◌⊎◌, Text, Option, none, some, List, ◌==◌, arith}
use kalam_network.Exec.{Result, ok, err, IsErr}
use kalam_network.Repo.{find_key, save, delete_where}
use kalam_network.Organization.Types.{
  OrgRole, GrantableRole, granted, owner, admin, Organization, OrgMember, OrgError, OrgState,
}
use kalam_network.Organization.Members.{
  find_member, save_member, save_organization, find_subordinate, update_member_role, remove_member,
  find_owner, transfer_ownership,
}

-- A change of another member who is not the owner, which `change` makes to the table: any other
-- call throws and leaves the state alone.
abbrev pub Changes :
    {A : Type 0}
    → Text
    → Text
    → (OrgMember → List OrgMember)
    → OrgState
    → Option OrgMember
    → Result OrgError A
    → OrgState
    → Type 0
Changes target actor change s none r s' = IsErr r × (s' ≡ s)
Changes target actor change s (some m) r s' =
    ((target ≢ actor) × (m.role ≢ owner) × (IsErr r → ⊥) × (s' ≡ record s { members = change m }))
    ⊎ (((target ≡ actor) ⊎ (m.role ≡ owner)) × IsErr r × (s' ≡ s))

abbrev pub with_role : OrgRole → OrgMember → OrgMember
with_role role m = record m { role = role }

module _ (org_id target actor : Text) (s : OrgState) where
  -- A change of role succeeds exactly if the target is another user than the actor, and a member
  -- who is not the owner; it then saves the membership with the new role. Otherwise it throws and
  -- changes nothing.
  pub update_member_role-Changes :
      (role : GrantableRole) (found : Option OrgMember)
      → find_member org_id target s ≡ found
      → let (r, s') = update_member_role org_id target actor role s in
        Changes target actor
          (λ m. save OrgMember.id (with_role (granted role) m) s.members)
          s
          found
          r
          s'
  unfolding update_member_role find_subordinate save_member
  update_member_role-Changes role none e = ground arith
  update_member_role-Changes role (some m) e = ground arith

  pub remove_member-Changes :
      (found : Option OrgMember)
      → find_member org_id target s ≡ found
      → let (r, s') = remove_member org_id target actor s in
        Changes target actor (λ m. delete_where (λ x. x.id == m.id) s.members) s found r s'
  unfolding remove_member find_subordinate
  remove_member-Changes none e = ground arith
  remove_member-Changes (some m) e = ground arith

-- How a transfer of ownership ends, by the organization and the memberships that are found.
abbrev pub Transfers :
    OrgState
    → Text
    → Text
    → Option Organization
    → Option OrgMember
    → Option OrgMember
    → Result OrgError Organization
    → OrgState
    → Type 0
Transfers s new current org c t (err e) s' = s' ≡ s
Transfers s new current (some org) (some c) (some t) (ok o) s' =
    (new ≢ current)
    × (org.owner_user_id ≡ current)
    × (o ≡ record org { owner_user_id = new })
    × (s'.members
        ≡ save OrgMember.id (with_role owner t) (save OrgMember.id (with_role admin c) s.members))
    × (s'.organizations ≡ save Organization.id o s.organizations)
Transfers s new current org c t (ok o) s' = ⊥

-- A transfer of ownership that succeeds is to another member, by the user that the organization
-- names as owner; it makes the membership of the owner an admin, the membership of the target the
-- owner, and names the target in the row of the organization. One that throws changes nothing.
pub transfer_ownership-Transfers :
    (org_id new current : Text) (s : OrgState) (org : Option Organization) (c t : Option OrgMember)
    → find_key Organization.id org_id s.organizations ≡ org
    → find_owner org_id current s ≡ c
    → find_member org_id new s ≡ t
    → let (r, s') = transfer_ownership org_id new current s in Transfers s new current org c t r s'
unfolding transfer_ownership save_member save_organization
transfer_ownership-Transfers org_id new current s none c t e e' e'' = ground arith
transfer_ownership-Transfers org_id new current s (some org) none t e e' e'' = ground arith
transfer_ownership-Transfers org_id new current s (some org) (some c) none e e' e'' = ground arith
transfer_ownership-Transfers org_id new current s (some org) (some c) (some t) e e' e'' =
    ground arith
