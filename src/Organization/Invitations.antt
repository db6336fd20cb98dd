-- ===== src/Organization/Invitations.antt =====
-- The invitations of packages/api/src/modules/organization/organization.service.ts.
use kalam_network.Prelude.{
  ℕ, ◌+◌, ◌*◌, ◌≡◌, ◌≢◌, ◌≤◌, ◌<◌, ◌⊎◌, Text, Bool, ◌&&◌, Option, none, some, List, is_some, ltb,
  ◌==◌, arith,
}
use kalam_network.Exec.{
  Result, ok, err, pure, throw, gets, or_throw, throw_if, modify, when, IsErr, ◌>>=◌, ◌>>◌,
}
use kalam_network.Repo.{find_one, save, column_is}
use kalam_network.Auth.Users.{Account}
use kalam_network.Organization.Types.{
  GrantableRole, granted, pending, accepted, expired, is_accepted, is_pending, OrgMember,
  Invitation, OrgError, invitation_not_found, already_member, invitation_expired,
  invitation_accepted, duplicate_invitation, OrgState, OrgEnv, Org,
}
use kalam_network.Organization.Members.{find_member, save_member, new_org_id}

-- INVITATION_EXPIRY_MS
abbrev pub invitation_expiry_ms : ℕ
invitation_expiry_ms = 7 * 24 * 60 * 60 * 1000

unfoldable pub org_now : OrgEnv → Org ℕ
org_now env s = (ok (env.clock s.readings), record s { readings = s.readings + 1 })

unfoldable pub draw_token : OrgEnv → Org Text
draw_token env s = (ok (env.random_token s.readings), record s { readings = s.readings + 1 })

unfoldable pub save_invitation : Invitation → Org Unit
save_invitation i = modify (λ s. record s { invitations = save Invitation.id i s.invitations })

-- Whether the user of a membership has the email: the join of the members with the users.
unfoldable pub has_email : Text → List Account → OrgMember → Bool
has_email email users m =
    is_some (find_one (λ u. Account.id u == m.user_id && column_is u.email email) users)

-- `createInvitation`
unfoldable pub create_invitation : OrgEnv → Text → Text → Text → GrantableRole → Org Invitation
create_invitation env org_id invited_by email role = do
  existing ←
      gets (λ s. find_one (λ m. m.organization_id == org_id && has_email email s.users m) s.members)
  throw_if (is_some existing) already_member
  waiting ← gets (λ s.
      find_one
        (λ i. Invitation.organization_id i == org_id && i.email == email && is_pending i.status)
        s.invitations)
  throw_if (is_some waiting) duplicate_invitation
  token ← draw_token env
  t ← org_now env
  id ← new_org_id env
  let invitation : Invitation = record {
    id = id;
    organization_id = org_id;
    email = email;
    role = role;
    invited_by = invited_by;
    status = pending;
    token = token;
    expires_at = t + invitation_expiry_ms;
  }
  save_invitation invitation
  pure invitation

unfoldable pub expire_invitation : Invitation → Org Unit
expire_invitation i = do save_invitation (record i { status = expired }); throw invitation_expired

-- `acceptInvitation`
unfoldable pub accept_invitation : OrgEnv → Text → Text → Org OrgMember
accept_invitation env token user_id = do
  found ← gets (λ s. find_one (λ i. Invitation.token i == token) s.invitations)
  invitation ← or_throw found invitation_not_found
  throw_if (is_accepted invitation.status) invitation_accepted
  t ← org_now env
  when (ltb invitation.expires_at t) (expire_invitation invitation)
  existing ← gets (find_member invitation.organization_id user_id)
  throw_if (is_some existing) already_member
  id ← new_org_id env
  let joined : OrgMember = record {
    id = id;
    organization_id = invitation.organization_id;
    user_id = user_id;
    role = granted invitation.role;
    invited_by = some invitation.invited_by;
  }
  save_member joined
  save_invitation (record invitation { status = accepted })
  pure joined

-- How an acceptance ends, by the invitation that the token finds.
abbrev pub Accepts :
    OrgEnv → Text → OrgState → Option Invitation → Result OrgError OrgMember → OrgState → Type 0
Accepts env user_id s none r s' = IsErr r × (s' ≡ s)
Accepts env user_id s (some i) (ok m) s' =
    (i.status ≢ accepted)
    × (env.clock s.readings ≤ i.expires_at)
    × (find_member i.organization_id user_id s ≡ none)
    × (m ≡ record {
      id = env.uuid (s.readings + 1);
      organization_id = i.organization_id;
      user_id = user_id;
      role = granted i.role;
      invited_by = some i.invited_by;
    })
    × (s'.members ≡ save OrgMember.id m s.members)
    × (s'.invitations ≡ save Invitation.id (record i { status = accepted }) s.invitations)
Accepts env user_id s (some i) (err e) s' =
    (s'.members ≡ s.members)
    × ((s'.invitations ≡ s.invitations)
        ⊎ ((e ≡ invitation_expired)
            × (i.expires_at < env.clock s.readings)
            × (s'.invitations ≡ save Invitation.id (record i { status = expired }) s.invitations)))

-- An acceptance, by the invitation that its token finds. It succeeds only with an invitation that
-- is not accepted nor past its expiry, and for a user who is not yet a member, and then adds one
-- membership with the role of the invitation and marks the invitation as accepted. If it throws,
-- the members are as they were, and the invitations too, unless it was past its expiry and is saved
-- as expired.
pub accept_invitation-Accepts :
    (env : OrgEnv) (token user_id : Text) (s : OrgState) (found : Option Invitation)
    → find_one (λ i. Invitation.token i == token) s.invitations ≡ found
    → let (r, s') = accept_invitation env token user_id s in Accepts env user_id s found r s'
unfolding accept_invitation save_invitation save_member expire_invitation org_now new_org_id
    find_member
accept_invitation-Accepts env token user_id s none e = ground arith
accept_invitation-Accepts env token user_id s (some i) e = ground arith
