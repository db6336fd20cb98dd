-- ===== src/Organization/Tests.antt =====
-- Organizations on concrete inputs.
use kalam_network.Prelude.{◌+◌, ◌*◌, ◌≡◌, ◌==◌, refl, true, none, some, List, [], ◌∷◌, arith}
use kalam_network.Exec.{result, after}
use kalam_network.Repo.{find_one, find_key, save, count}
use kalam_network.Organization.Types.{
  owner, admin, member, viewer, as_admin, as_member, pending, Organization, OrgMember, Invitation,
  OrgState, OrgEnv,
}
use kalam_network.Organization.Members.{
  find_member, find_owner, transfer_ownership, save_member, save_organization,
}
use kalam_network.Organization.Members.Outcomes.{with_role, Transfers, transfer_ownership-Transfers}
use kalam_network.Organization.Members.History.{
  OrgCall, set_role, remove_from, transfer_to, IsOwned, run, run-IsOwned,
}
use kalam_network.Organization.Invitations.{Accepts, accept_invitation, accept_invitation-Accepts}
use kalam_network.Organization.Guard.Admission.{Admits, can_activate-Admits}
use kalam_network.Organization.Guard.{has_permission, some_permits, can_activate}

abbrev shop : Organization
shop = record {
  id = 9;
  owner_user_id = 1;
  name = 3;
  hedera_account_id = 90;
  broadcast_topic_id = none;
}

abbrev boss : OrgMember
boss = record { id = 11; organization_id = 9; user_id = 1; role = owner; invited_by = none }

abbrev clerk : OrgMember
clerk = record { id = 12; organization_id = 9; user_id = 2; role = member; invited_by = some 1 }

abbrev invited : Invitation
invited = record {
  id = 21;
  organization_id = 9;
  email = 5;
  role = as_member;
  invited_by = 1;
  status = pending;
  token = 55;
  expires_at = 1000;
}

abbrev state : OrgState
state = record {
  organizations = shop ∷ [];
  members = boss ∷ clerk ∷ [];
  invitations = invited ∷ [];
  users = [];
  readings = 0;
}

abbrev env : OrgEnv
env = record {
  clock = λ i. 100 * i;
  uuid = λ i. 300 + i;
  random_token = λ i. 600 + i;
  create_account = λ i. some 91;
  create_topic = λ i. none;
  sanitize = λ t. t;
}

clerk_is_found : find_member 9 2 state ≡ some clerk
unfolding find_member find_one
clerk_is_found = refl

shop_is_found : find_key Organization.id 9 state.organizations ≡ some shop
unfolding find_one
shop_is_found = refl

boss_is_found : find_owner 9 1 state ≡ some boss
unfolding find_owner find_one
boss_is_found = refl

transfer_ownership-Transfers_example :
    Transfers state 2 1
      (some shop)
      (some boss)
      (some clerk)
      (result (transfer_ownership 9 2 1) state)
      (after (transfer_ownership 9 2 1) state)
transfer_ownership-Transfers_example =
    transfer_ownership-Transfers 9 2 1 state (some shop) (some boss) (some clerk) shop_is_found
      boss_is_found clerk_is_found

transfer_works :
    (after (transfer_ownership 9 2 1) state).members
    ≡ with_role admin boss ∷ with_role owner clerk ∷ []
unfolding transfer_ownership save_member save_organization find_member find_owner find_one save
transfer_works = refl

state-IsOwned : IsOwned state
unfolding find_one count
state-IsOwned = ((λ k. ground arith, λ o u. ground arith), λ o u. ground arith)

abbrev calls : List OrgCall
calls = set_role 9 2 1 as_admin ∷ transfer_to 9 2 1 ∷ remove_from 9 1 2 ∷ []

run-IsOwned_example : IsOwned (run calls state)
run-IsOwned_example = run-IsOwned calls state state-IsOwned

invitation_is_found : find_one (λ i. Invitation.token i == 55) state.invitations ≡ some invited
unfolding find_one
invitation_is_found = refl

accept_invitation-Accepts_example :
    Accepts env 3 state
      (some invited)
      (result (accept_invitation env 55 3) state)
      (after (accept_invitation env 55 3) state)
accept_invitation-Accepts_example =
    accept_invitation-Accepts env 55 3 state (some invited) invitation_is_found

can_activate-Admits_example :
    Admits (admin ∷ []) (some 9) 2 state (result (can_activate (admin ∷ []) (some 9) 2) state)
    × (after (can_activate (admin ∷ []) (some 9) 2) state ≡ state)
can_activate-Admits_example = can_activate-Admits (admin ∷ []) (some 9) 2 state

viewer_may : has_permission viewer (member ∷ viewer ∷ []) ≡ true
unfolding has_permission some_permits
viewer_may = refl
