-- ===== src/Messaging/Conversations/Create/Keeps.antt =====
-- A new conversation has the initiator as its admin.
use mathlib.Core.Path.{subst}
use kalam_network.Prelude.{
  ◌+◌, ◌≡◌, ◌⊎◌, refl, sym, ap, Text, true, false, ◌&&◌, not, Option, none, some, List, [], ◌∷◌,
  ◌++◌, ◌==◌, ltb, length, is_present, arith, inl, inr, Bool-cases, Option-cases,
}
use kalam_network.Exec.{gets, ◌>>=◌, >>=-ok, >>=-err, Result, ok, err, after, Result-cases}
use kalam_network.Repo.{save_by, any, find_one}
use kalam_network.Repo.Any.{any_ext, any-save_by}
use kalam_network.Messaging.Conversations.{
  mentions, is_row, is_active_admin, ConversationMember, ConvState, ConvEnv, ConvError,
  creation_failed, group_name_required, invalid_participants, participant_not_found, is_direct,
  verify_active, ConversationView, KeyExchange, Conversation, save_row, collect_encryption_keys,
  seal_keys, get_conversation, save_conversation,
}
use kalam_network.Messaging.Conversations.Admins.{
  IsManaged, HasOtherAdmin, promoted-IsManaged, other_admin-IsManaged,
}
use kalam_network.Messaging.Conversations.Create.{
  all_known, ConversationRequest, member_row, save_members, store_conversation, first_exchange,
  open_topic, create_new, create_or_get, create_conversation, check_request, find_requested,
  has_repeats, new_conversation,
}

pub get_conversation_frame :
    (c requestor : Text) (s : ConvState) → after (get_conversation c requestor) s ≡ s
unfolding get_conversation verify_active
get_conversation_frame c requestor s = ground arith

module _ (c initiator : Text) where
  -- The row of the initiator, in the way of no row of another account.
  abbrev HasInitiator : List ConversationMember → Type 0
  HasInitiator members = any (λ r. is_active_admin c r && is_row c initiator r) members ≡ true

  initiator_stays :
      (a : Text) (members : List ConversationMember)
      → (a == initiator) ≡ false
      → HasInitiator members
      → HasOtherAdmin c a members
  unfolding find_one
  initiator_stays a [] n h = ground arith
  initiator_stays a (m ∷ members) n h = ground (arith, initiator_stays a members n)

  initiator_kept :
      (a : Text) (members : List ConversationMember)
      → (a == initiator) ≡ false
      → HasInitiator members
      → HasInitiator (save_by (is_row c a) (member_row c initiator a) members)
  initiator_kept a members n h = ground (
    arith,
    any-save_by (is_row c a) (λ r. is_active_admin c r && is_row c initiator r)
        (member_row c initiator a) members,
    any_ext (λ r. (is_active_admin c r && is_row c initiator r) && not (is_row c a r))
        (λ r. is_active_admin c r && is_row c initiator r) (λ r. ground arith) members,
  )

  more_members :
      (accounts : List Text) (s : ConvState)
      → mentions initiator accounts ≡ false
      → HasInitiator s.members
      → IsManaged s.members
      → IsManaged (save_members c initiator accounts s).members
  unfolding save_members save_row member_row
  more_members [] s n h managed = managed
  more_members (a ∷ more) s n h managed =
      let apart : (a == initiator) ≡ false = ground arith in
      more_members more (save_row (member_row c initiator a) s) (ground arith)
        (initiator_kept a s.members apart h)
        (other_admin-IsManaged s.members managed c a (member_row c initiator a) (ground arith)
          (initiator_stays a s.members apart h))

  pub save_members-IsManaged :
      (accounts : List Text) (s : ConvState)
      → mentions initiator accounts ≡ false
      → IsManaged s.members
      → IsManaged (save_members c initiator (initiator ∷ accounts) s).members
  unfolding save_members save_row member_row
  save_members-IsManaged accounts s n managed =
      more_members accounts (save_row (member_row c initiator initiator) s) n
        (ground (
          arith,
          any-save_by (is_row c initiator) (λ r. is_active_admin c r && is_row c initiator r)
              (member_row c initiator initiator) s.members,
        ))
        (promoted-IsManaged s.members managed c initiator (member_row c initiator initiator)
          (ground arith) (ground arith))

-- What a creation does to the members: nothing, or the rows of the participants are saved.
abbrev pub Creates : Text → List Text → List ConversationMember → List ConversationMember → Type 0
Creates initiator participants members members' =
    (members' ≡ members)
    ⊎ ((c : Text) × ((t : ConvState) × ((t.members ≡ members)
            × (members' ≡ (save_members c initiator (initiator ∷ participants) t).members))))

Creates-IsManaged :
    (initiator : Text) (participants : List Text) (members members' : List ConversationMember)
    → mentions initiator participants ≡ false
    → IsManaged members
    → Creates initiator participants members members'
    → IsManaged members'
Creates-IsManaged initiator participants members members' n managed (inl same) =
    subst IsManaged (sym same) managed
Creates-IsManaged initiator participants members members' n managed (inr (c, (t, (same, saved)))) =
    subst IsManaged (sym saved)
      (save_members-IsManaged c initiator participants t n (subst IsManaged (sym same) managed))

module _ (env : ConvEnv) (initiator : Text) (d : ConversationRequest) (s : ConvState) where
  store_conversation-Creates :
      (x : KeyExchange)
      → Creates initiator d.participants s.members
          (after (store_conversation env initiator d x) s).members
  unfolding store_conversation save_conversation
  store_conversation-Creates x = elim (Bool-cases (has_repeats (initiator ∷ d.participants))) [
    | inl t ↦ inl (ground arith)
    | inr f ↦ inr (
      env.uuid s.readings,
      (
        save_conversation (new_conversation env initiator d x (env.uuid s.readings))
            (record s { readings = s.readings + 1 }),
        (refl, ground arith),
      ),
    )
  ]

  -- The tables of conversations, members and users.
  abbrev pub SameTables : ConvState → Type 0
  SameTables s' =
      (s'.members ≡ s.members) × ((s'.conversations ≡ s.conversations) × (s'.peers ≡ s.peers))

  -- A creation fails before it stores anything, or it gets as far as to store the conversation.
  abbrev pub Stores : Result ConvError ConversationView × ConvState → Type 0
  Stores p =
      (((e : ConvError) × (p.0 ≡ err e)) × SameTables p.1)
      ⊎ ((x : KeyExchange) × ((s' : ConvState) × (SameTables s'
              × (p ≡ store_conversation env initiator d x s'))))

  pub create_new-Stores : Stores (create_new env initiator d s)
  unfolding create_new open_topic first_exchange
  create_new-Stores =
      elim (Result-cases (collect_encryption_keys s.peers (initiator ∷ d.participants))) [
        | inr (e, h) ↦ inl ((e, ground arith), (ground arith, (ground arith, ground arith)))
        | inl (keys, h) ↦ elim (Option-cases (env.create_topic s.readings)) [
          | inl n ↦
              inl ((creation_failed, ground arith), (ground arith, (ground arith, ground arith)))
          | inr (topic, n) ↦ elim (Option-cases (seal_keys (env.seal (s.readings + 1)) keys)) [
            | inl b ↦
                inl ((creation_failed, ground arith), (ground arith, (ground arith, ground arith)))
            | inr (sealed, b) ↦ elim (Bool-cases (env.submits (s.readings + 1 + 1))) [
              | inr f ↦
                  inl
                    ((creation_failed, ground arith), (ground arith, (ground arith, ground arith)))
              | inl t ↦
                  let x : KeyExchange = record {
                    topic = topic;
                    keys = sealed;
                    key_id = env.uuid (s.readings + 1);
                  } in
                  inr (
                    x,
                    (
                      record s { submitted = s.submitted ++ x ∷ []; readings = s.readings + 1 + 2 },
                      ((refl, (refl, refl)), ground arith),
                    ),
                  )
            ]
          ]
        ]
      ]

module _ (env : ConvEnv) (initiator : Text) (d : ConversationRequest) (s : ConvState)
    (managed : IsManaged s.members) where
  create_new-IsManaged :
      mentions initiator d.participants ≡ false
      → IsManaged (after (create_new env initiator d) s).members
  create_new-IsManaged n = by_storing (create_new-Stores env initiator d s)
    where
      by_storing :
          Stores env initiator d s (create_new env initiator d s)
          → IsManaged (after (create_new env initiator d) s).members
      by_storing (inl (failed, (same, others))) = subst IsManaged (sym same) managed
      by_storing (inr (x, (s', ((same, others), e)))) =
          subst (λ (z : ConvState). IsManaged z.members) (sym (ap (λ p. p.1) e))
            (Creates-IsManaged initiator d.participants s'.members _ n
              (subst IsManaged (sym same) managed)
              (store_conversation-Creates env initiator d s' x))

module _ (initiator : Text) (d : ConversationRequest) (s : ConvState) where
  -- The guards refuse the request, or they hold and nothing has changed.
  abbrev pub Passes : Result ConvError Unit × ConvState → Type 0
  Passes p =
      ((e : ConvError) × (p ≡ (err e, s)))
      ⊎ ((p ≡ (ok tt, s)) × (mentions initiator d.participants ≡ false))

  pub check_request-Passes : Passes (check_request initiator d s)
  unfolding check_request
  check_request-Passes =
      elim (Bool-cases (not (is_direct d.requested_type) && not (is_present d.group_name))) [
        | inl t ↦ inl (group_name_required, ground arith)
        | inr f ↦
            elim (Bool-cases (is_direct d.requested_type && not (length d.participants == 1))) [
              | inl t ↦ inl (invalid_participants, ground arith)
              | inr f' ↦
                  elim (Bool-cases
                    (not (is_direct d.requested_type) && ltb (length d.participants) 2)) [
                      | inl t ↦ inl (invalid_participants, ground arith)
                      | inr f'' ↦ elim (Bool-cases (mentions initiator d.participants)) [
                        | inl t ↦ inl (invalid_participants, ground arith)
                        | inr m ↦
                            elim (Bool-cases (all_known s.peers (initiator ∷ d.participants))) [
                              | inr k ↦ inl (participant_not_found, ground arith)
                              | inl k ↦ inr (ground arith, m)
                            ]
                      ]
                    ]
            ]
      ]

module _ (env : ConvEnv) (initiator : Text) (d : ConversationRequest) (s : ConvState) where
  create_or_get-IsManaged :
      (found : Option Conversation)
      → IsManaged s.members
      → mentions initiator d.participants ≡ false
      → IsManaged (after (create_or_get env initiator d found) s).members
  unfolding create_or_get
  create_or_get-IsManaged none managed n = create_new-IsManaged env initiator d s managed n
  create_or_get-IsManaged (some c) managed n =
      subst (λ (z : ConvState). IsManaged z.members) (sym (get_conversation_frame c.id initiator s))
        managed

  -- A call that passes the guards is what comes after them.
  pub create_conversation-passed :
      check_request initiator d s ≡ (ok tt, s)
      → create_conversation env initiator d s
        ≡ create_or_get env initiator d
            (find_requested initiator d.requested_type d.participants s)
            s
  unfolding create_conversation
  create_conversation-passed e =
      >>=-ok (check_request initiator d)
        (λ _.
          gets (find_requested initiator d.requested_type d.participants)
          >>= create_or_get env initiator d)
        s s tt e

  pub create_conversation-refused :
      (x : ConvError)
      → check_request initiator d s ≡ (err x, s)
      → create_conversation env initiator d s ≡ (err x, s)
  unfolding create_conversation
  create_conversation-refused x e =
      >>=-err (check_request initiator d)
        (λ _.
          gets (find_requested initiator d.requested_type d.participants)
          >>= create_or_get env initiator d)
        s s x e

  pub create_conversation-IsManaged :
      IsManaged s.members → IsManaged (after (create_conversation env initiator d) s).members
  create_conversation-IsManaged managed = by_guards (check_request-Passes initiator d s)
    where
      by_guards :
          Passes initiator d s (check_request initiator d s)
          → IsManaged (after (create_conversation env initiator d) s).members
      by_guards (inl (x, e)) =
          subst (λ (p : Result ConvError ConversationView × ConvState). IsManaged p.1.members)
            (sym (create_conversation-refused x e)) managed
      by_guards (inr (e, n)) =
          subst (λ (p : Result ConvError ConversationView × ConvState). IsManaged p.1.members)
            (sym (create_conversation-passed e))
            (create_or_get-IsManaged (find_requested initiator d.requested_type d.participants s)
              managed n)
