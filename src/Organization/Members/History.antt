-- ===== src/Organization/Members/History.antt =====
-- The changes of members keep each organization at one owner.
use mathlib.Core.Path.{subst}
use kalam_network.Prelude.{
  ◌≡◌, ◌≢◌, inl, inr, refl, sym, ap, ◌∙◌, Text, Bool, false, Option, none, some, List, [], ◌∷◌,
  ◌==◌, arith,
}
use kalam_network.Exec.{Result, ok, err, after}
use kalam_network.Repo.{find_one, find_key, save, delete_where}
use kalam_network.Repo.Laws.{find_one_sound, find_key-save, count-delete_le}
use kalam_network.Repo.Keyed.{find_one_both}
use kalam_network.Organization.Types.{
  GrantableRole, granted, as_admin, as_member, as_viewer, owner, admin, role_eq, Organization,
  OrgMember, OrgError, OrgState, is_seat,
}
use kalam_network.Organization.Members.{
  find_member, update_member_role, remove_member, find_owner, transfer_ownership,
}
use kalam_network.Organization.Members.Outcomes.{
  with_role, Changes, update_member_role-Changes, remove_member-Changes, Transfers,
  transfer_ownership-Transfers,
}
use kalam_network.Organization.Members.Governance.{
  HasKeys, IsGoverned, seat_after_save, seat_after_removal, save-HasKeys,
}

abbrev pub IsOwned : OrgState → Type 0
IsOwned s = HasKeys s.members × IsGoverned s.members s.organizations

granted_below : (role : GrantableRole) → role_eq (granted role) owner ≡ false
granted_below as_admin = refl
granted_below as_member = refl
granted_below as_viewer = refl

module _ (members : List OrgMember) (organizations : List Organization) (keys : HasKeys members)
    (governed : IsGoverned members organizations) (o u : Text) (m : OrgMember)
    (found : find_one (is_seat o u) members ≡ some m) (not_owner : m.role ≢ owner) where
  role_change-IsGoverned :
      (role : GrantableRole)
      → IsGoverned (save OrgMember.id (with_role (granted role) m) members) organizations
  role_change-IsGoverned role x y = ground (
    arith,
    seat_after_save members keys o u m found (granted role) x y,
    governed x y,
    granted_below role,
  )

  removal-IsGoverned : IsGoverned (delete_where (λ r. OrgMember.id r == m.id) members) organizations
  removal-IsGoverned x y =
      ground (arith, seat_after_removal members keys o u m found x y, governed x y)

removal-HasKeys :
    (p : OrgMember → Bool) (members : List OrgMember)
    → HasKeys members
    → HasKeys (delete_where p members)
removal-HasKeys p members keys = (
  λ k. omega (arith, count-delete_le p (λ r. OrgMember.id r == k) members, keys.0 k),
  λ x y. omega (arith, count-delete_le p (is_seat x y) members, keys.1 x y),
)

module _ (members : List OrgMember) (organizations : List Organization) (keys : HasKeys members)
    (governed : IsGoverned members organizations) (o new : Text) (org : Organization)
    (c t : OrgMember) (differ : new ≢ org.owner_user_id)
    (found : find_key Organization.id o organizations ≡ some org)
    (found_owner : find_one (is_seat o org.owner_user_id) members ≡ some c)
    (found_target : find_one (is_seat o new) members ≡ some t) where
  demoted : List OrgMember
  demoted = save OrgMember.id (with_role admin c) members

  target_stays : find_one (is_seat o new) demoted ≡ some t
  unfolding demoted
  target_stays =
      ground (arith, seat_after_save members keys o org.owner_user_id c found_owner admin o new)

  demoted-HasKeys : HasKeys demoted
  unfolding demoted
  demoted-HasKeys = save-HasKeys members keys o org.owner_user_id c found_owner admin

  transfer-HasKeys : HasKeys (save OrgMember.id (with_role owner t) demoted)
  transfer-HasKeys = save-HasKeys demoted demoted-HasKeys o new t target_stays owner

  transfer-IsGoverned :
      IsGoverned
        (save OrgMember.id (with_role owner t) demoted)
        (save Organization.id (record org { owner_user_id = new }) organizations)
  unfolding demoted
  transfer-IsGoverned x y = ground (
    arith,
    seat_after_save demoted demoted-HasKeys o new t target_stays owner x y,
    seat_after_save members keys o org.owner_user_id c found_owner admin x y,
    find_key-save Organization.id x (record org { owner_user_id = new }) organizations,
    find_one_sound (λ r. Organization.id r == o) organizations org found,
    governed x y,
  )

-- A change of the members.
pub data OrgCall : Type 0 where
  set_role : Text → Text → Text → GrantableRole → OrgCall
  remove_from : Text → Text → Text → OrgCall
  transfer_to : Text → Text → Text → OrgCall

unfoldable pub step : OrgCall → OrgState → OrgState
step (set_role o target actor role) s = after (update_member_role o target actor role) s
step (remove_from o target actor) s = after (remove_member o target actor) s
step (transfer_to o new current) s = after (transfer_ownership o new current) s

unfoldable pub run : List OrgCall → OrgState → OrgState
run [] s = s
run (c ∷ cs) s = run cs (step c s)

Changes-IsOwned :
    {A : Type 0} (target actor : Text) (change : OrgMember → List OrgMember) (s s' : OrgState)
    (found : Option OrgMember) (r : Result OrgError A)
    → IsOwned s
    → ((m : OrgMember)
        → found ≡ some m
        → m.role ≢ owner
        → HasKeys (change m) × IsGoverned (change m) s.organizations)
    → Changes target actor change s found r s'
    → IsOwned s'
Changes-IsOwned target actor change s s' none r h kept (e, same) = subst IsOwned (sym same) h
Changes-IsOwned target actor change s s' (some m) r h kept (inl (d, n, no_error, same)) =
    subst IsOwned (sym same) (kept m refl n)
Changes-IsOwned target actor change s s' (some m) r h kept (inr (why, e, same)) =
    subst IsOwned (sym same) h

Transfers-IsOwned :
    (o new current : Text) (s s' : OrgState) (org : Option Organization) (c t : Option OrgMember)
    (r : Result OrgError Organization)
    → IsOwned s
    → find_key Organization.id o s.organizations ≡ org
    → find_owner o current s ≡ c
    → find_member o new s ≡ t
    → Transfers s new current org c t r s'
    → IsOwned s'
unfolding find_owner find_member demoted
Transfers-IsOwned o new current s s' org c t (err x) h e e' e'' same = subst IsOwned (sym same) h
Transfers-IsOwned o new current s s' none c t (ok x) h e e' e'' tr = absurd tr
Transfers-IsOwned o new current s s' (some org) none t (ok x) h e e' e'' tr = absurd tr
Transfers-IsOwned o new current s s' (some org) (some c) none (ok x) h e e' e'' tr = absurd tr
Transfers-IsOwned o new current s s' (some org) (some c) (some t) (ok x) (keys, governed) e e' e''
      (differ, owns, row, members, rows) =
    let seat =
      find_one_both (is_seat o current) (λ m. role_eq m.role owner) s.members c e'
        (keys.1 o current) in
    let owner_seat = subst (λ u. find_one (is_seat o u) s.members ≡ some c) (sym owns) seat in
    let saved : List OrgMember =
      save OrgMember.id (with_role owner t) (save OrgMember.id (with_role admin c) s.members) in
    let others : new ≢ org.owner_user_id = λ n. differ (n ∙ owns) in
    (
      subst HasKeys (sym members) (
          transfer-HasKeys s.members s.organizations keys governed o new org c t others e owner_seat
            e''),
      subst (λ ms. IsGoverned ms s'.organizations) (sym members)
          (subst (λ os. IsGoverned saved os)
            (sym (rows ∙ ap (λ q. save Organization.id q s.organizations) row))
            (transfer-IsGoverned s.members s.organizations keys governed o new org c t others e
              owner_seat e'')),
    )

step-IsOwned : (c : OrgCall) (s : OrgState) → IsOwned s → IsOwned (step c s)
unfolding step find_member
step-IsOwned (set_role o target actor role) s (keys, governed) =
    Changes-IsOwned target actor _ s _ _ _ (keys, governed)
      (λ m found n. (
        save-HasKeys s.members keys o target m found (granted role),
        role_change-IsGoverned s.members s.organizations keys governed o target m found n role,
      ))
      (update_member_role-Changes o target actor s role _ refl)
step-IsOwned (remove_from o target actor) s (keys, governed) =
    Changes-IsOwned target actor _ s _ _ _ (keys, governed)
      (λ m found n. (
        removal-HasKeys (λ x. x.id == m.id) s.members keys,
        removal-IsGoverned s.members s.organizations keys governed o target m found n,
      ))
      (remove_member-Changes o target actor s _ refl)
step-IsOwned (transfer_to o new current) s h =
    Transfers-IsOwned o new current s _ _ _ _ _ h refl refl refl
      (transfer_ownership-Transfers o new current s _ _ _ refl refl refl)

-- If the identifiers of memberships and the pairs of organization and user are free of duplicates,
-- and the users with the role of the owner in an organization are exactly those that its row names
-- as owner, then so it is after any sequence of role changes, removals and transfers of ownership,
-- by any users.
pub run-IsOwned : (cs : List OrgCall) (s : OrgState) → IsOwned s → IsOwned (run cs s)
unfolding run
run-IsOwned [] s h = h
run-IsOwned (c ∷ cs) s h = run-IsOwned cs (step c s) (step-IsOwned c s h)
