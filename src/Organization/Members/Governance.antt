-- ===== src/Organization/Members/Governance.antt =====
-- Each organization has one owner, in its own row and among its members.
use kalam_network.Prelude.{
  ◌≡◌, ◌≤◌, inl, inr, refl, Text, Bool, true, false, ◌&&◌, Option, none, some, List, ◌==◌,
  if◌then◌else◌, arith, Bool-cases,
}
use kalam_network.Repo.{find_one, find_key, save, delete_where, count}
use kalam_network.Repo.Laws.{find_one_sound}
use kalam_network.Repo.Keyed.{
  find_by_own_key, find_one-save, count-save, find_one-remove, find_one_removed,
}
use kalam_network.Organization.Types.{OrgRole, owner, role_eq, Organization, OrgMember, is_seat}
use kalam_network.Organization.Members.Outcomes.{with_role}

abbrev pub is_owner_seat : Option OrgMember → Bool
is_owner_seat none = false
is_owner_seat (some m) = role_eq m.role owner

abbrev pub is_owner_of : Text → Option Organization → Bool
is_owner_of u none = false
is_owner_of u (some o) = o.owner_user_id == u

-- The identifiers of members and the seats are free of duplicates, as the database has them.
abbrev pub HasKeys : List OrgMember → Type 0
HasKeys members =
    ((k : Text) → count (λ m. OrgMember.id m == k) members ≤ 1)
    × ((o u : Text) → count (is_seat o u) members ≤ 1)

-- A user has the role of the owner exactly in the organizations that name the user as owner.
abbrev pub IsGoverned : List OrgMember → List Organization → Type 0
IsGoverned members organizations =
    (o u : Text)
    → is_owner_seat (find_one (is_seat o u) members)
      ≡ is_owner_of u (find_key Organization.id o organizations)

module _ (members : List OrgMember) (keys : HasKeys members) (o u : Text) (m : OrgMember)
    (found : find_one (is_seat o u) members ≡ some m) where
  seat_of : is_seat o u m ≡ true
  seat_of = find_one_sound (is_seat o u) members m found

  by_id : find_key OrgMember.id m.id members ≡ some m
  by_id = find_by_own_key OrgMember.id (is_seat o u) members m found (keys.0 m.id)

  pub seat_after_save :
      (role : OrgRole) (x y : Text)
      → find_one (is_seat x y) (save OrgMember.id (with_role role m) members)
        ≡ (if x == o && y == u then some (with_role role m) else find_one (is_seat x y) members)
  seat_after_save role x y = elim (Bool-cases (x == o && y == u)) [
    | inl t ↦ ground (
      arith,
      find_one-save OrgMember.id (is_seat x y) (with_role role m) m members by_id refl,
      seat_of,
    )
    | inr f ↦ ground (
      arith,
      find_one-save OrgMember.id (is_seat x y) (with_role role m) m members by_id refl,
      seat_of,
    )
  ]

  pub seat_after_removal :
      (x y : Text)
      → find_one (is_seat x y) (delete_where (λ r. OrgMember.id r == m.id) members)
        ≡ (if x == o && y == u then none else find_one (is_seat x y) members)
  seat_after_removal x y = elim (Bool-cases (x == o && y == u)) [
    | inl t ↦
        ground (arith, find_one_removed OrgMember.id (is_seat o u) m members found (keys.1 o u))
    | inr f ↦
        ground
          (arith, find_one-remove OrgMember.id (is_seat x y) m members by_id (keys.0 m.id), seat_of)
  ]

  pub save-HasKeys : (role : OrgRole) → HasKeys (save OrgMember.id (with_role role m) members)
  save-HasKeys role = (
    λ k. ground (
      arith,
      count-save OrgMember.id (λ r. OrgMember.id r == k) (with_role role m) m members by_id refl,
      keys.0 k,
    ),
    λ x y. ground (
      arith,
      count-save OrgMember.id (is_seat x y) (with_role role m) m members by_id refl,
      keys.1 x y,
    ),
  )
