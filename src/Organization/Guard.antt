-- ===== src/Organization/Guard.antt =====
-- packages/api/src/modules/organization/guards/org-permission.guard.ts: who may use a route.
pub mod Ranks
pub mod Admission
use kalam_network.Prelude.{
  ◌≡◌, ◌≤◌, refl, Text, is_truthy, Bool, true, false, ◌||◌, not, Option, none, some, List, [], ◌∷◌,
  leb, ◌==◌, if◌then◌else◌, arith,
}
use kalam_network.Exec.{Result, ok, err, pure, gets, or_throw, throw_if, IsErr, ◌>>=◌, ◌>>◌}
use kalam_network.Repo.{find_one, find_key}
use kalam_network.Organization.Types.{
  OrgRole, role_index, Organization, OrgMember, OrgError, organization_not_found, permission_denied,
  not_org_member, OrgState, Org,
}
use kalam_network.Organization.Members.{find_member}

-- `orgContext`
pub record OrgContext : Type 0 where
  pub org_id : Text
  pub role : OrgRole
  pub org : Organization

-- The organization of the header, or else the one that the user owns.
unfoldable pub resolve_org : Option Text → Text → OrgState → Option Text
resolve_org header user_id s = elim (if_named header) [
  | some org_id ↦ some org_id
  | none ↦ elim (find_one (λ o. Organization.owner_user_id o == user_id) s.organizations) [
    | none ↦ none
    | some o ↦ if is_truthy o.id then some o.id else none
  ]
]
  where
    if_named : Option Text → Option Text
    if_named none = none
    if_named (some h) = if is_truthy h then some h else none

-- `requiredRoles.some`
unfoldable pub some_permits : OrgRole → List OrgRole → Bool
some_permits role [] = false
some_permits role (r ∷ rs) = leb (role_index role) (role_index r) || some_permits role rs

-- A route without required roles is open to every member.
unfoldable pub has_permission : OrgRole → List OrgRole → Bool
has_permission role [] = true
has_permission role (r ∷ rs) = some_permits role (r ∷ rs)

-- `canActivate`, for a user who is authenticated.
unfoldable pub can_activate : List OrgRole → Option Text → Text → Org OrgContext
can_activate required header user_id = do
  resolved ← gets (resolve_org header user_id)
  org_id ← or_throw resolved organization_not_found
  found ← gets (λ s. find_key Organization.id org_id s.organizations)
  org ← or_throw found organization_not_found
  seat ← gets (find_member org_id user_id)
  membership ← or_throw seat not_org_member
  throw_if (not (has_permission membership.role required)) permission_denied
  pure (record { org_id = org_id; role = membership.role; org = org })

-- Whoever has a role of a higher rank may do what a lower one may.
permits_upward :
    (high low : OrgRole) (required : List OrgRole)
    → role_index high ≤ role_index low
    → some_permits low required ≡ true
    → some_permits high required ≡ true
unfolding some_permits
permits_upward high low [] h p = ground arith
permits_upward high low (r ∷ rs) h p = ground (arith, permits_upward high low rs)

-- If a role has permission for a route, so has every role of a higher or the same rank.
pub permission_upward :
    (high low : OrgRole) (required : List OrgRole)
    → role_index high ≤ role_index low
    → has_permission low required ≡ true
    → has_permission high required ≡ true
unfolding has_permission
permission_upward high low [] h p = refl
permission_upward high low (r ∷ rs) h p = permits_upward high low (r ∷ rs) h p
