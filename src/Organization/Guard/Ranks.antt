-- ===== src/Organization/Guard/Ranks.antt =====
-- The ranks of the roles in packages/api/src/modules/organization/guards/org-permission.guard.ts,
-- as a table in place of the indexes of ROLE_HIERARCHY.
use kalam_network.Prelude.{◌≡◌, ◌⊎◌, Bool, true, false, List, [], ◌∷◌, leb, arith}
use kalam_network.Organization.Types.{OrgRole, owner, admin, member, viewer, role_index}
use kalam_network.Organization.Guard.{some_permits, has_permission}

-- Who may do what a role may: the owner what anyone may, an admin what anyone but the owner may, a
-- member what a member and a viewer may, and a viewer what a viewer may.
abbrev pub may_act_as : OrgRole → OrgRole → Bool
may_act_as owner r = true
may_act_as admin owner = false
may_act_as admin r = true
may_act_as member owner = false
may_act_as member admin = false
may_act_as member r = true
may_act_as viewer viewer = true
may_act_as viewer r = false

abbrev pub CanActAsOne : OrgRole → List OrgRole → Type 0
CanActAsOne role [] = ⊥
CanActAsOne role (r ∷ rs) = (may_act_as role r ≡ true) ⊎ CanActAsOne role rs

abbrev pub CanActAsNone : OrgRole → List OrgRole → Type 0
CanActAsNone role [] = Unit
CanActAsNone role (r ∷ rs) = (may_act_as role r ≡ false) × CanActAsNone role rs

-- A route without required roles is open to every role.
abbrev pub IsPermitted : OrgRole → List OrgRole → Type 0
IsPermitted role [] = Unit
IsPermitted role (r ∷ rs) = CanActAsOne role (r ∷ rs)

-- Roles are required, and the role may act as none of them.
abbrev pub IsRefused : OrgRole → List OrgRole → Type 0
IsRefused role [] = ⊥
IsRefused role (r ∷ rs) = CanActAsNone role (r ∷ rs)

act_lem : (a b : OrgRole) → leb (role_index a) (role_index b) ≡ may_act_as a b
act_lem a b = ground arith

permits : (role : OrgRole) (rs : List OrgRole) → some_permits role rs ≡ true → CanActAsOne role rs
unfolding some_permits
permits role [] h = ground arith
permits role (r ∷ rs) h = ground (arith, act_lem role r, permits role rs)

refuses : (role : OrgRole) (rs : List OrgRole) → some_permits role rs ≡ false → CanActAsNone role rs
unfolding some_permits
refuses role [] h = tt
refuses role (r ∷ rs) h = ground (arith, act_lem role r, refuses role rs)

pub permission :
    (role : OrgRole) (rs : List OrgRole) → has_permission role rs ≡ true → IsPermitted role rs
unfolding has_permission
permission role [] h = tt
permission role (r ∷ rs) h = permits role (r ∷ rs) h

pub refusal :
    (role : OrgRole) (rs : List OrgRole) → has_permission role rs ≡ false → IsRefused role rs
unfolding has_permission
refusal role [] h = ground arith
refusal role (r ∷ rs) h = refuses role (r ∷ rs) h
