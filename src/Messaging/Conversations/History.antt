-- ===== src/Messaging/Conversations/History.antt =====
-- Any sequence of additions, removals and departures.
use mathlib.Core.Path.{subst}
use kalam_network.Prelude.{
  ◌≡◌, ◌≢◌, ◌⊎◌, refl, sym, ap, ◌∙◌, Text, true, false, ◌&&◌, not, Option, none, some, List, [],
  ◌∷◌, is_some, arith, All, inl, inr, Option-cases,
}
use kalam_network.Exec.{Result, ok, err, after, Result-cases, ◌>>=◌, >>=-ok, >>=-err}
use kalam_network.Repo.{find_key}
use kalam_network.Repo.Laws.{find_one_sound}
use kalam_network.Repo.Any.{any_found}
use kalam_network.Messaging.Conversations.{
  is_admin, KeyMap, Conversation, ConversationMember, ConvState, ConvEnv, ConvError, Conv,
  ConversationView, is_row, is_active_admin, active_row, find_row, save_row, find_group_as_admin,
  verify_active, exchange_keys, rotate_keys, rotate_for, exchange_collected, save_conversation,
  rotated, collect_encryption_keys, active_accounts,
}
use kalam_network.Messaging.Conversations.Members.{
  find_by_either, joined_row, leave_row, promote_next, lift_result, add_participant,
  remove_participant, share_keys, add_to_group, remove_from_group, leave_conversation,
}
use kalam_network.Messaging.Conversations.Create.{ConversationRequest, create_conversation}
use kalam_network.Messaging.Conversations.Create.Keeps.{
  get_conversation_frame, create_conversation-IsManaged,
}
use kalam_network.Messaging.Conversations.Admins.{
  IsManaged, HasOtherAdmin, IsLedWithout, other_admin-IsManaged, leaving-IsManaged, promotes,
}

-- The rotation of keys leaves the members alone.
module _ (env : ConvEnv) (c : Conversation) where
  exchange_keys-members :
      (keys : KeyMap) (s : ConvState) → (exchange_keys env c keys s).members ≡ s.members
  unfolding exchange_keys rotated save_conversation
  exchange_keys-members keys s = ground arith

  exchange_collected-members :
      (keys : Result ConvError KeyMap) (s : ConvState)
      → (exchange_collected env c keys s).members ≡ s.members
  unfolding exchange_collected
  exchange_collected-members (ok keys) s = exchange_keys-members keys s
  exchange_collected-members (err e) s = refl

  rotate_for-members :
      (accounts : List Text) (s : ConvState) → (rotate_for env c accounts s).members ≡ s.members
  unfolding rotate_for
  rotate_for-members [] s = refl
  rotate_for-members (a ∷ more) s =
      exchange_collected-members (collect_encryption_keys s.peers (a ∷ more)) s

  pub rotate_keys-members :
      (conversation_id : Text) (s : ConvState)
      → (rotate_keys env c conversation_id s).members ≡ s.members
  unfolding rotate_keys
  rotate_keys-members conversation_id s =
      rotate_for-members (active_accounts conversation_id s.members) s

  share_keys-members :
      (conversation_id requestor : Text) (s : ConvState)
      → (after (share_keys env conversation_id requestor c) s).members ≡ s.members
  unfolding share_keys
  share_keys-members conversation_id requestor s =
      elim (Result-cases
        (collect_encryption_keys s.peers (active_accounts conversation_id s.members))) [
          | inl (keys, e) ↦ ground (
            arith,
            exchange_keys-members keys s,
            get_conversation_frame conversation_id requestor (exchange_keys env c keys s),
          )
          | inr (x, e) ↦ ground arith
        ]

-- The row of an active admin.
abbrev pub IsAdminRow : Option ConversationMember → Type 0
IsAdminRow none = ⊥
IsAdminRow (some m) = (is_some m.left_at ≡ false) × (is_admin m.role ≡ true)

-- How the guard ends: for an active admin with the group, or with an error.
abbrev pub Guards : Text → Text → ConvState → Result ConvError Conversation × ConvState → Type 0
Guards c requestor s (ok x, s') =
    (find_key Conversation.id c s.conversations ≡ some x)
    × IsAdminRow (find_row c requestor s)
    × (s' ≡ s)
Guards c requestor s (err e, s') = s' ≡ s

find_group_as_admin-Guards :
    (c requestor : Text) (s : ConvState) → Guards c requestor s (find_group_as_admin c requestor s)
unfolding find_group_as_admin verify_active
find_group_as_admin-Guards c requestor s = elim (Option-cases (find_row c requestor s)) [
  | inl n ↦ ground arith
  | inr (m, n) ↦ ground arith
]

module _ (env : ConvEnv) (c : Text) (s : ConvState) where
  -- What an addition does to the members.
  abbrev Adds : Text → Option ConversationMember → ConvState → Type 0
  Adds a existing s' =
      (s'.members ≡ s.members)
      ⊎ ((active_row existing ≡ none)
          × (s'.members ≡ (save_row (joined_row c a existing) s).members))

  add_to_group-Adds :
      (a requestor : Text) (x : Conversation) (existing : Option ConversationMember)
      → find_row c a s ≡ existing
      → Adds a existing (after (add_to_group env c a requestor x) s)
  unfolding add_to_group lift_result
  add_to_group-Adds a requestor x none e =
      ground (arith, share_keys-members env x c requestor (save_row (joined_row c a none) s))
  add_to_group-Adds a requestor x (some m) e =
      ground (arith, share_keys-members env x c requestor (save_row (joined_row c a (some m)) s))

  -- The admin who asks stays, if the row of another is saved.
  asking_stays :
      (a requestor : Text) (asking : Option ConversationMember)
      → find_row c requestor s ≡ asking
      → IsAdminRow asking
      → a ≢ requestor
      → HasOtherAdmin c a s.members
  unfolding find_row
  asking_stays a requestor none e h n = absurd h
  asking_stays a requestor (some m) e h n = ground (
    arith,
    find_one_sound (is_row c requestor) s.members m e,
    any_found (is_row c requestor) (λ r. is_active_admin c r && not (is_row c a r)) s.members m e,
  )

  joined_row_here :
      (a : Text) (existing : Option ConversationMember)
      → find_row c a s ≡ existing
      → is_row c a (joined_row c a existing) ≡ true
  unfolding joined_row find_row
  joined_row_here a none e = ground arith
  joined_row_here a (some m) e = ground (arith, find_one_sound (is_row c a) s.members m e)

  another :
      (a requestor : Text) (existing asking : Option ConversationMember)
      → find_row c a s ≡ existing
      → find_row c requestor s ≡ asking
      → active_row existing ≡ none
      → IsAdminRow asking
      → a ≢ requestor
  another a requestor existing none e e' absent asks same = asks
  another a requestor existing (some m) e e' absent asks same =
      ground (arith, ap (λ x. find_row c x s) same)

  Adds-IsManaged :
      (a requestor : Text) (s' : ConvState)
      → IsManaged s.members
      → IsAdminRow (find_row c requestor s)
      → Adds a (find_row c a s) s'
      → IsManaged s'.members
  unfolding save_row
  Adds-IsManaged a requestor s' managed asks (inl same) = subst IsManaged (sym same) managed
  Adds-IsManaged a requestor s' managed asks (inr (absent, saved)) = subst IsManaged (sym saved) (
      other_admin-IsManaged s.members managed c a (joined_row c a (find_row c a s))
        (joined_row_here a _ refl)
        (asking_stays a requestor _ refl asks (another a requestor _ _ refl refl absent asks)))

  -- A call behind the guard keeps what it keeps when an active admin asks.
  guarded_IsManaged :
      (requestor : Text) (next : Conversation → Conv ConversationView)
      → IsManaged s.members
      → (IsAdminRow (find_row c requestor s)
          → (x : Conversation) → IsManaged (after (next x) s).members)
      → IsManaged (after (find_group_as_admin c requestor >>= next) s).members
  guarded_IsManaged requestor next managed keeps =
      by_outcome (find_group_as_admin c requestor s) refl (find_group_as_admin-Guards c requestor s)
    where
      by_outcome :
          (g : Result ConvError Conversation × ConvState)
          → find_group_as_admin c requestor s ≡ g
          → Guards c requestor s g
          → IsManaged (after (find_group_as_admin c requestor >>= next) s).members
      by_outcome (err x, s') e same =
          let ends = >>=-err (find_group_as_admin c requestor) next s s' x e in
          subst (λ (z : ConvState). IsManaged z.members) (sym (ap (λ p. p.1) ends ∙ same)) managed
      by_outcome (ok x, s') e (known, asks, same) =
          let goes : find_group_as_admin c requestor s ≡ (ok x, s) =
            e ∙ ap (λ (z : ConvState). (ok x, z)) same in
          let ends = >>=-ok (find_group_as_admin c requestor) next s s x goes in
          subst (λ (z : ConvState). IsManaged z.members) (sym (ap (λ p. p.1) ends)) (keeps asks x)

  add_participant-IsManaged :
      (a requestor : Text)
      → IsManaged s.members
      → IsManaged (after (add_participant env c a requestor) s).members
  unfolding add_participant
  add_participant-IsManaged a requestor managed =
      guarded_IsManaged requestor (add_to_group env c a requestor) managed (λ asks x.
        Adds-IsManaged a requestor (after (add_to_group env c a requestor x) s) managed asks
          (add_to_group-Adds a requestor x _ refl))

  -- What a departure does to the members, from the state in which the row is saved.
  abbrev Leaves : (ConversationMember → ConvState) → Option ConversationMember → ConvState → Type 0
  Leaves before none s' = s'.members ≡ s.members
  Leaves before (some m) s' =
      (s'.members ≡ s.members)
      ⊎ ((is_some m.left_at ≡ false) × (s'.members ≡ (leave_row env m (before m)).members))

  remove_from_group-Leaves :
      (target requestor : Text) (x : Conversation) (leaving : Option ConversationMember)
      → find_row c target s ≡ leaving
      → Leaves (λ _. s) leaving (after (remove_from_group env c target requestor x) s)
  unfolding remove_from_group verify_active
  remove_from_group-Leaves target requestor x none e = ground arith
  remove_from_group-Leaves target requestor x (some m) e = ground (
    arith,
    rotate_keys-members env x c (leave_row env m s),
    get_conversation_frame c requestor (rotate_keys env x c (leave_row env m s)),
  )

  leave_conversation-Leaves :
      (a : Text) (x : Option Conversation) (leaving : Option ConversationMember)
      → find_by_either env c s ≡ x
      → find_row c a s ≡ leaving
      → Leaves (λ m. promote_next env c m s) leaving (after (leave_conversation env c a) s)
  unfolding leave_conversation verify_active
  leave_conversation-Leaves a none none e' e = ground arith
  leave_conversation-Leaves a none (some m) e' e = ground arith
  leave_conversation-Leaves a (some x) none e' e = ground arith
  leave_conversation-Leaves a (some x) (some m) e' e =
      ground (arith, rotate_keys-members env x c (leave_row env m (promote_next env c m s)))

  Leaves-IsManaged :
      (a : Text) (before : ConversationMember → ConvState) (leaving : Option ConversationMember)
      (s' : ConvState)
      → find_row c a s ≡ leaving
      → IsManaged s.members
      → ((m : ConversationMember)
          → leaving ≡ some m
          → is_some m.left_at ≡ false
          → IsManaged (before m).members × IsLedWithout c a (before m).members)
      → Leaves before leaving s'
      → IsManaged s'.members
  unfolding find_row leave_row save_row
  Leaves-IsManaged a before none s' e managed ready same = subst IsManaged (sym same) managed
  Leaves-IsManaged a before (some m) s' e managed ready (inl same) =
      subst IsManaged (sym same) managed
  Leaves-IsManaged a before (some m) s' e managed ready (inr (active, same)) =
      let (still, led) = ready m refl active in
      subst IsManaged (sym same) (
        leaving-IsManaged (before m).members still c a
          (record m { left_at = some (env.clock (before m).readings) })
          (find_one_sound (is_row c a) s.members m e) refl led)

  remove_participant-IsManaged :
      (target requestor : Text)
      → target ≢ requestor
      → IsManaged s.members
      → IsManaged (after (remove_participant env c target requestor) s).members
  unfolding remove_participant
  remove_participant-IsManaged target requestor differ managed =
      guarded_IsManaged requestor (remove_from_group env c target requestor) managed (λ asks x.
        Leaves-IsManaged target (λ _. s) _ _ refl managed
          (λ m here active. (managed, λ others. asking_stays target requestor _ refl asks differ))
          (remove_from_group-Leaves target requestor x _ refl))

  leave_conversation-IsManaged :
      (a : Text) → IsManaged s.members → IsManaged (after (leave_conversation env c a) s).members
  unfolding find_row
  leave_conversation-IsManaged a managed =
      Leaves-IsManaged a (λ m. promote_next env c m s) _ _ refl managed
        (λ m here active. promotes env s managed c a m here active)
        (leave_conversation-Leaves a _ _ refl refl)

-- A call that may change the members, with the one who asks for it last.
pub data ConvCall : Type 0 where
  create_call : ConversationRequest → Text → ConvCall
  add_call remove_call : Text → Text → Text → ConvCall
  leave_call : Text → Text → ConvCall

-- A removal is of another member than the one who asks.
abbrev pub IsOfAnother : ConvCall → Type 0
IsOfAnother (create_call d initiator) = Unit
IsOfAnother (add_call c a requestor) = Unit
IsOfAnother (remove_call c target requestor) = target ≢ requestor
IsOfAnother (leave_call c a) = Unit

module _ (env : ConvEnv) where
  unfoldable pub step : ConvCall → ConvState → ConvState
  step (create_call d initiator) s = after (create_conversation env initiator d) s
  step (add_call c a requestor) s = after (add_participant env c a requestor) s
  step (remove_call c target requestor) s = after (remove_participant env c target requestor) s
  step (leave_call c a) s = after (leave_conversation env c a) s

  unfoldable pub run : List ConvCall → ConvState → ConvState
  run [] s = s
  run (k ∷ ks) s = run ks (step k s)

  step-IsManaged :
      (k : ConvCall) (s : ConvState)
      → IsOfAnother k
      → IsManaged s.members
      → IsManaged (step k s).members
  unfolding step
  step-IsManaged (create_call d initiator) s o h = create_conversation-IsManaged env initiator d s h
  step-IsManaged (add_call c a requestor) s o h = add_participant-IsManaged env c s a requestor h
  step-IsManaged (remove_call c target requestor) s o h =
      remove_participant-IsManaged env c s target requestor o h
  step-IsManaged (leave_call c a) s o h = leave_conversation-IsManaged env c s a h

  -- If every conversation that has active members has an active admin, and no account has two rows
  -- in one conversation, then so it is after any sequence of creations, additions, removals and
  -- departures, by any accounts and with any answers of the environment, as long as no admin
  -- removes themself with a removal in place of a departure.
  pub run-IsManaged :
      (ks : List ConvCall) (s : ConvState)
      → All IsOfAnother ks
      → IsManaged s.members
      → IsManaged (run ks s).members
  unfolding run
  run-IsManaged [] s o h = h
  run-IsManaged (k ∷ ks) s (first, more) h =
      run-IsManaged ks (step k s) more (step-IsManaged k s first h)
