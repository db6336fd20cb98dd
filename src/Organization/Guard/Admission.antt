-- ===== src/Organization/Guard/Admission.antt =====
-- Whom the guard of packages/api/src/modules/organization/guards/org-permission.guard.ts lets
-- through.
use kalam_network.Prelude.{
  ◌≡◌, refl, sym, ◌∙◌, ◌⊎◌, inl, inr, Text, is_truthy, is_present, get_or, empty_text, true, false,
  Option, none, some, List, ◌==◌, if◌then◌else◌, arith, Bool-cases, Option-cases,
}
use mathlib.Core.Path.{subst}
use kalam_network.Exec.{Result, ok, err}
use kalam_network.Repo.{find_one, find_key}
use kalam_network.Repo.Laws.{find_one_sound}
use kalam_network.Organization.Types.{
  OrgRole, Organization, OrgMember, OrgError, organization_not_found, permission_denied,
  not_org_member, OrgState, is_seat,
}
use kalam_network.Organization.Members.{find_member}
use kalam_network.Organization.Guard.Ranks.{IsPermitted, IsRefused, permission, refusal}
use kalam_network.Organization.Guard.{OrgContext, resolve_org, has_permission, can_activate}

-- The organization that a request is about: that of the header, or, if the header is missing or
-- empty, the first one that the user owns.
abbrev pub IsAbout : Option Text → Text → OrgState → Text → Type 0
IsAbout header user_id s org_id =
    ((is_present header ≡ true) × (get_or header empty_text ≡ org_id))
    ⊎ ((is_present header ≡ false)
        × ((o : Organization) × (find_one (λ o. Organization.owner_user_id o == user_id)
                s.organizations
              ≡ some o)
            × (o.id ≡ org_id)))

-- A request about no organization: without a header, of a user who owns none with an identifier.
abbrev pub IsAboutNone : Option Text → Text → OrgState → Type 0
IsAboutNone header user_id s =
    (is_present header ≡ false)
    × ((find_one (λ o. Organization.owner_user_id o == user_id) s.organizations ≡ none)
        ⊎ ((o : Organization) × (find_one (λ o. Organization.owner_user_id o == user_id)
                s.organizations
              ≡ some o)
            × (is_truthy o.id ≡ false)))

abbrev owned : Text → OrgState → Option Organization
owned user_id s = find_one (λ o. Organization.owner_user_id o == user_id) s.organizations

owned_id : Option Organization → Option Text
owned_id none = none
owned_id (some o) = if is_truthy o.id then some o.id else none

resolve_org-absent :
    (header : Option Text) (user_id : Text) (s : OrgState)
    → is_present header ≡ false
    → resolve_org header user_id s ≡ owned_id (owned user_id s)
unfolding resolve_org owned_id
resolve_org-absent none user_id s e = ground arith
resolve_org-absent (some h) user_id s e = ground arith

resolve_org-present :
    (header : Option Text) (user_id : Text) (s : OrgState)
    → is_present header ≡ true
    → resolve_org header user_id s ≡ some (get_or header empty_text)
unfolding resolve_org
resolve_org-present none user_id s e = ground arith
resolve_org-present (some h) user_id s e = ground arith

owned_id-some :
    (found : Option Organization) (org_id : Text)
    → owned_id found ≡ some org_id
    → (o : Organization) × (found ≡ some o) × (o.id ≡ org_id)
unfolding owned_id
owned_id-some none org_id e = ground arith
owned_id-some (some o) org_id e = (o, refl, ground arith)

owned_id-none :
    (found : Option Organization)
    → owned_id found ≡ none
    → (found ≡ none) ⊎ ((o : Organization) × (found ≡ some o) × (is_truthy o.id ≡ false))
unfolding owned_id
owned_id-none none e = inl refl
owned_id-none (some o) e = inr (o, refl, ground arith)

resolved :
    (header : Option Text) (user_id org_id : Text) (s : OrgState)
    → resolve_org header user_id s ≡ some org_id
    → IsAbout header user_id s org_id
resolved header user_id org_id s e = elim (Bool-cases (is_present header)) [
  | inl t ↦ inl (t, ground (arith, resolve_org-present header user_id s t))
  | inr f ↦
      inr (
        f,
        owned_id-some (owned user_id s) org_id (sym (resolve_org-absent header user_id s f) ∙ e),
      )
]

unresolved :
    (header : Option Text) (user_id : Text) (s : OrgState)
    → resolve_org header user_id s ≡ none
    → IsAboutNone header user_id s
unresolved header user_id s e = elim (Bool-cases (is_present header)) [
  | inl t ↦ absurd (ground (arith, resolve_org-present header user_id s t))
  | inr f ↦ (f, owned_id-none (owned user_id s) (sym (resolve_org-absent header user_id s f) ∙ e))
]

-- What the guard answers.
abbrev pub Admits :
    List OrgRole → Option Text → Text → OrgState → Result OrgError OrgContext → Type 0
Admits required header user_id s (ok x) =
    IsAbout header user_id s x.org_id
    × (find_key Organization.id x.org_id s.organizations ≡ some x.org)
    × (x.org.id ≡ x.org_id)
    × ((m : OrgMember) × ((find_one (is_seat x.org_id user_id) s.members ≡ some m)
          × (m.organization_id ≡ x.org_id)
          × (m.user_id ≡ user_id)
          × (m.role ≡ x.role)))
    × IsPermitted x.role required
Admits required header user_id s (err organization_not_found) =
    IsAboutNone header user_id s
    ⊎ ((org_id : Text) × IsAbout header user_id s org_id
        × (find_key Organization.id org_id s.organizations ≡ none))
Admits required header user_id s (err not_org_member) =
    (org_id : Text) × IsAbout header user_id s org_id
    × (find_one (is_seat org_id user_id) s.members ≡ none)
Admits required header user_id s (err permission_denied) =
    (org_id : Text) × (m : OrgMember) × IsAbout header user_id s org_id
    × (find_one (is_seat org_id user_id) s.members ≡ some m)
    × IsRefused m.role required
Admits required header user_id s (err e) = ⊥

module _ (required : List OrgRole) (header : Option Text) (user_id : Text) (s : OrgState) where
  abbrev answer : Result OrgError OrgContext × OrgState
  answer = can_activate required header user_id s

  abbrev Answers : Result OrgError OrgContext → Type 0
  Answers r = (answer ≡ (r, s)) × Admits required header user_id s r

  is_seat_of :
      (org_id : Text) (m : OrgMember)
      → find_one (is_seat org_id user_id) s.members ≡ some m
      → (m.organization_id ≡ org_id) × (m.user_id ≡ user_id)
  is_seat_of org_id m f = ground (arith, find_one_sound (is_seat org_id user_id) s.members m f)

  context : Text → Organization → OrgMember → OrgContext
  context org_id org m = record { org_id = org_id; role = m.role; org = org }

  for_member :
      (org_id : Text) (org : Organization) (m : OrgMember)
      → resolve_org header user_id s ≡ some org_id
      → find_key Organization.id org_id s.organizations ≡ some org
      → find_one (is_seat org_id user_id) s.members ≡ some m
      → (r : Result OrgError OrgContext) × Answers r
  unfolding can_activate find_member context
  for_member org_id org m n f g =
      let about = resolved header user_id org_id s n in
      let seat = is_seat_of org_id m g in
      elim (Bool-cases (has_permission m.role required)) [
        | inl t ↦ (
          ok (context org_id org m),
          (
            ground arith,
            (
              about,
              f,
              ground
                  (arith, find_one_sound (λ o. Organization.id o == org_id) s.organizations org f),
              (m, (g, seat.0, seat.1, refl)),
              permission m.role required t,
            ),
          ),
        )
        | inr d ↦ (
          err permission_denied,
          (ground arith, (org_id, m, about, g, refusal m.role required d)),
        )
      ]

  answers : (r : Result OrgError OrgContext) × Answers r
  unfolding can_activate find_member
  answers = elim (Option-cases (resolve_org header user_id s)) [
    | inl n ↦ (err organization_not_found, (ground arith, inl (unresolved header user_id s n)))
    | inr (org_id, n) ↦
        let about = resolved header user_id org_id s n in
        elim (Option-cases (find_key Organization.id org_id s.organizations)) [
          | inl f ↦ (err organization_not_found, (ground arith, inr (org_id, about, f)))
          | inr (org, f) ↦ elim (Option-cases (find_one (is_seat org_id user_id) s.members)) [
            | inl g ↦ (err not_org_member, (ground arith, (org_id, about, g)))
            | inr (m, g) ↦ for_member org_id org m n f g
          ]
        ]
  ]

  -- The guard changes nothing. It lets a user through, with the role of the membership and the
  -- organization as the context, only if the request is about an organization that exists, that of
  -- the header or else one that the user owns, where the user has a membership, and no role is
  -- required or the role may act as a required one by the table `may_act_as`. It throws only if the
  -- request is about no organization or about one that does not exist, or the user has no
  -- membership there, or roles are required and the role may act as none of them, each with its own
  -- exception.
  pub can_activate-Admits :
      let (r, s') = can_activate required header user_id s in
      Admits required header user_id s r × (s' ≡ s)
  can_activate-Admits =
      let (r, (e, h)) = answers in
      subst (λ p. Admits required header user_id s p.0 × (p.1 ≡ s)) (sym e) (h, refl)
