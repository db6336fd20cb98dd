-- ===== src/Messaging/Conversations/Admins.antt =====
-- A conversation that has active members has an active admin, and each account has one row in it.
use kalam_network.Prelude.{
  ◌≡◌, ◌≤◌, ap, ◌∙◌, Text, Bool, true, false, ◌&&◌, ◌||◌, not, none, some, List, ◌==◌, is_some,
  arith, inl, inr, Bool-cases, Option-cases,
}
use kalam_network.Repo.{find_one, any, save_by, count}
use kalam_network.Repo.Laws.{find_one_sound}
use kalam_network.Repo.Any.{any_ext, any_split, any-save_by, any_unique, any_found, count-save_by}
use kalam_network.Messaging.Conversations.{
  admin, is_admin, ConversationMember, is_row, is_active, is_active_admin, save_row, ConvState,
  ConvEnv,
}
use kalam_network.Messaging.Conversations.Members.{promote_next}

abbrev pub IsLed : Text → List ConversationMember → Type 0
IsLed c members = any (is_active c) members ≡ true → any (is_active_admin c) members ≡ true

abbrev pub HasSingleRows : List ConversationMember → Type 0
HasSingleRows members = (c a : Text) → count (is_row c a) members ≤ 1

-- What every operation on the members keeps.
abbrev pub IsManaged : List ConversationMember → Type 0
IsManaged members = HasSingleRows members × ((c : Text) → IsLed c members)

-- A row of an account in a conversation.
abbrev pub save_in : ConversationMember → List ConversationMember → List ConversationMember
save_in m members = save_by (is_row m.conversation_id m.account) m members

module _ (m : ConversationMember) (members : List ConversationMember) where
  -- A save in one conversation does not touch the others.
  active_elsewhere :
      (x : Text)
      → (m.conversation_id == x) ≡ false
      → any (is_active x) (save_in m members) ≡ any (is_active x) members
  active_elsewhere x n = ground (
    arith,
    any-save_by (is_row m.conversation_id m.account) (is_active x) m members,
    any_ext (λ r. is_active x r && not (is_row m.conversation_id m.account r)) (is_active x)
        (λ r. ground arith) members,
  )

  admin_elsewhere :
      (x : Text)
      → (m.conversation_id == x) ≡ false
      → any (is_active_admin x) (save_in m members) ≡ any (is_active_admin x) members
  admin_elsewhere x n = ground (
    arith,
    any-save_by (is_row m.conversation_id m.account) (is_active_admin x) m members,
    any_ext (λ r. is_active_admin x r && not (is_row m.conversation_id m.account r))
        (is_active_admin x) (λ r. ground arith) members,
  )

  same_row :
      (c a : Text)
      → is_row c a m ≡ true
      → count (is_row c a) members ≡ count (is_row m.conversation_id m.account) members
  same_row c a t =
      let ec : c ≡ m.conversation_id = ground arith in
      let ea : a ≡ m.account = ground arith in
      ap (λ x. count (is_row x a) members) ec
      ∙ ap (λ y. count (is_row m.conversation_id y) members) ea

  pub save-HasSingleRows : HasSingleRows members → HasSingleRows (save_in m members)
  save-HasSingleRows single c a =
      count-save_by (is_row m.conversation_id m.account) (is_row c a) m (λ r h. ground arith)
        members (same_row c a) (single c a)

  -- A save keeps the conversations led if it keeps that of the row led.
  pub save-IsLed :
      ((x : Text) → IsLed x members)
      → IsLed m.conversation_id (save_in m members)
      → (x : Text) → IsLed x (save_in m members)
  save-IsLed led here x active = elim (Bool-cases (m.conversation_id == x)) [
    | inl t ↦ ground (arith, here)
    | inr f ↦ ground (arith, active_elsewhere x f, admin_elsewhere x f, led x)
  ]

-- The admins that would stay if the row of `a` were left out, and whether these lead the others.
abbrev pub HasOtherAdmin : Text → Text → List ConversationMember → Type 0
HasOtherAdmin c a members = any (λ r. is_active_admin c r && not (is_row c a r)) members ≡ true

abbrev pub IsLedWithout : Text → Text → List ConversationMember → Type 0
IsLedWithout c a members =
    any (λ r. is_active c r && not (is_row c a r)) members ≡ true → HasOtherAdmin c a members

module _ (members : List ConversationMember) (managed : IsManaged members) (c a : Text)
    (m : ConversationMember) (here : is_row c a m ≡ true) where
  admin_after :
      any (is_active_admin m.conversation_id) (save_in m members)
      ≡ is_active_admin c m || any (λ r. is_active_admin c r && not (is_row c a r)) members
  admin_after = ground (
    arith,
    any-save_by (is_row m.conversation_id m.account) (is_active_admin m.conversation_id) m members,
    any_ext (λ r. is_active_admin m.conversation_id r && not (is_row m.conversation_id m.account r))
        (λ r. is_active_admin c r && not (is_row c a r)) (λ r. ground arith) members,
  )

  active_after :
      any (is_active m.conversation_id) (save_in m members)
      ≡ is_active c m || any (λ r. is_active c r && not (is_row c a r)) members
  active_after = ground (
    arith,
    any-save_by (is_row m.conversation_id m.account) (is_active m.conversation_id) m members,
    any_ext (λ r. is_active m.conversation_id r && not (is_row m.conversation_id m.account r))
        (λ r. is_active c r && not (is_row c a r)) (λ r. ground arith) members,
  )

  -- Another admin stays, whatever becomes of this row.
  pub other_admin-IsManaged : HasOtherAdmin c a members → IsManaged (save_in m members)
  other_admin-IsManaged stays = (
    save-HasSingleRows m members managed.0,
    save-IsLed m members managed.1 (λ active. ground (arith, admin_after)),
  )

  -- The row of one who leaves a conversation that is led without them.
  pub leaving-IsManaged :
      is_some m.left_at ≡ true → IsLedWithout c a members → IsManaged (save_in m members)
  leaving-IsManaged left stays = (
    save-HasSingleRows m members managed.0,
    save-IsLed m members managed.1 (λ active. ground (arith, admin_after, active_after, stays)),
  )

  -- The row of an active admin.
  pub promoted-IsManaged : is_active_admin c m ≡ true → IsManaged (save_in m members)
  promoted-IsManaged t = (
    save-HasSingleRows m members managed.0,
    save-IsLed m members managed.1 (λ active. ground (arith, admin_after)),
  )

module _ (env : ConvEnv) (s : ConvState) (managed : IsManaged s.members) (c a : Text)
    (m : ConversationMember) (found : find_one (is_row c a) s.members ≡ some m)
    (active : is_some m.left_at ≡ false) where
  in_place : is_row c a m ≡ true
  in_place = find_one_sound (is_row c a) s.members m found

  -- One who is no admin leaves a conversation that has another.
  member_leaves : is_admin m.role ≡ false → HasOtherAdmin c a s.members
  member_leaves f = ground (
    arith,
    in_place,
    managed.1 c,
    any_found (is_row c a) (is_active c) s.members m,
    any_split (is_row c a) (is_active_admin c) s.members,
    any_unique (is_row c a) (is_active_admin c) s.members m found (managed.0 c a),
  )

  by_account :
      (p : ConversationMember → Bool)
      → ((r : ConversationMember) → p r ≡ true → r.conversation_id ≡ c)
      → any (λ r. p r && not (r.account == m.account)) s.members
        ≡ any (λ r. p r && not (is_row c a r)) s.members
  by_account p inside =
      any_ext (λ r. p r && not (r.account == m.account)) (λ r. p r && not (is_row c a r))
        (λ r. ground (arith, inside r, in_place)) s.members

  led_by_others :
      (is_admin m.role
          && not (any (λ r. is_active_admin c r && not (r.account == m.account)) s.members))
        ≡ false
      → HasOtherAdmin c a s.members
  led_by_others f = elim (Bool-cases (is_admin m.role)) [
    | inl t ↦ ground (arith, by_account (is_active_admin c) (λ r h. ground arith))
    | inr n ↦ member_leaves n
  ]

  -- What a leaving member finds once the promotion is made.
  abbrev pub IsReady : ConvState → Type 0
  IsReady s' = IsManaged s'.members × IsLedWithout c a s'.members

  nobody_else :
      find_one (λ r. is_active c r && not (r.account == m.account)) s.members ≡ none
      → IsLedWithout c a s.members
  nobody_else e others = ground (arith, by_account (is_active c) (λ r h. ground arith))

  next_leads :
      (next : ConversationMember)
      → find_one (λ r. is_active c r && not (r.account == m.account)) s.members ≡ some next
      → IsReady (save_row (record next { role = admin }) s)
  unfolding save_row
  next_leads next e =
      let leads : ConversationMember = record next { role = admin } in
      let fits =
        find_one_sound (λ r. is_active c r && not (r.account == m.account)) s.members next e in
      let here : is_row c next.account leads ≡ true = ground arith in
      let leading : is_active_admin c leads ≡ true = ground arith in
      (
        promoted-IsManaged s.members managed c next.account leads here leading,
        λ others. ground (
          arith,
          in_place,
          any-save_by (is_row leads.conversation_id leads.account)
              (λ r. is_active_admin c r && not (is_row c a r)) leads s.members,
        ),
      )

  pub promotes : IsReady (promote_next env c m s)
  unfolding promote_next
  promotes =
      elim (Bool-cases (
        is_admin m.role
        && not (any (λ r. is_active_admin c r && not (r.account == m.account)) s.members))) [
          | inr f ↦ rw f (managed, λ others. led_by_others f)
          | inl t ↦
              elim (Option-cases
                (find_one (λ r. is_active c r && not (r.account == m.account)) s.members)) [
                  | inl n ↦ rw (t, n) (managed, nobody_else n)
                  | inr (next, n) ↦ rw (t, n) (next_leads next n)
                ]
        ]
