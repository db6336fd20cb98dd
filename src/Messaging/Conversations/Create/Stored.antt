-- ===== src/Messaging/Conversations/Create/Stored.antt =====
-- The direct conversation that a creation has stored is found.
use kalam_network.Prelude.{
  ℕ, ◌+◌, ◌≡◌, refl, ◌∙◌, Text, true, false, ◌&&◌, not, none, some, [], ◌∷◌, ◌==◌, is_some, arith,
  inl, inr, Bool-cases,
}
use kalam_network.Exec.{ok}
use kalam_network.Repo.{any}
use kalam_network.Repo.Any.{any_ext, any-save_by, find_one-save_new}
use kalam_network.Messaging.Conversations.{
  is_row, ConversationMember, ConvState, ConvEnv, KeyExchange, Conversation, save_row,
  save_conversation,
}
use kalam_network.Messaging.Conversations.Create.{
  is_participant, find_direct, has_repeats, member_row, save_members, new_conversation,
  store_conversation,
}
use kalam_network.Messaging.Conversations.Create.Found.{direct_request}

-- The identifiers that the next conversations get are not in use.
abbrev pub HasFreshIds : ConvEnv → ConvState → Type 0
HasFreshIds env s = (n : ℕ) → any (λ c. Conversation.id c == env.uuid n) s.conversations ≡ false

-- In other conversations nobody joins.
member_elsewhere :
    (x a : Text) (m : ConversationMember) (s : ConvState)
    → (x == m.conversation_id) ≡ false
    → is_participant x a (save_row m s).members ≡ is_participant x a s.members
unfolding save_row
member_elsewhere x a m s n = ground (
  arith,
  any-save_by (is_row m.conversation_id m.account) (λ r. is_row x a r && not (is_some r.left_at)) m
      s.members,
  any_ext
      (λ r. (is_row x a r && not (is_some r.left_at)) && not (is_row m.conversation_id m.account r))
      (λ r. is_row x a r && not (is_some r.left_at)) (λ r. ground arith) s.members,
)

-- A saved row that is active puts nobody out.
stays_member :
    (x a : Text) (m : ConversationMember) (s : ConvState)
    → is_some m.left_at ≡ false
    → is_participant x a s.members ≡ true
    → is_participant x a (save_row m s).members ≡ true
unfolding save_row
stays_member x a m s n h = elim (Bool-cases (is_row x a m)) [
  | inl t ↦ ground (
    arith,
    any-save_by (is_row m.conversation_id m.account) (λ r. is_row x a r && not (is_some r.left_at))
        m s.members,
  )
  | inr f ↦ ground (
    arith,
    any-save_by (is_row m.conversation_id m.account) (λ r. is_row x a r && not (is_some r.left_at))
        m s.members,
    any_ext
        (λ r.
          (is_row x a r && not (is_some r.left_at)) && not (is_row m.conversation_id m.account r))
        (λ r. is_row x a r && not (is_some r.left_at)) (λ r. ground arith) s.members,
  )
]

joins :
    (m : ConversationMember) (s : ConvState)
    → is_some m.left_at ≡ false
    → is_participant m.conversation_id m.account (save_row m s).members ≡ true
unfolding save_row
joins m s n = ground (
  arith,
  any-save_by (is_row m.conversation_id m.account)
      (λ r. is_row m.conversation_id m.account r && not (is_some r.left_at)) m s.members,
)

module _ (env : ConvEnv) (a b : Text) (x : KeyExchange) (s : ConvState) where
  abbrev stored_id : Text
  stored_id = env.uuid s.readings

  abbrev pub stored_conversation : Conversation
  stored_conversation = new_conversation env a (direct_request b) x stored_id

  -- The rows that the creation saves.
  abbrev first_row : ConversationMember
  first_row = member_row stored_id a a

  abbrev second_row : ConversationMember
  second_row = member_row stored_id a b

  abbrev pub stored : ConvState
  stored = save_row second_row (
      save_row first_row
        (save_conversation stored_conversation (record s { readings = s.readings + 1 })))

  pub store_conversation-stored :
      (a == b) ≡ false
      → store_conversation env a (direct_request b) x s ≡ (
        ok (record {
          id = stored_id;
          participants = a ∷ b ∷ [];
          unread_count = 0;
          encrypted_keys = x.keys;
        }),
        stored,
      )
  unfolding store_conversation save_members has_repeats
  store_conversation-stored n = ground arith

  joined_elsewhere :
      (c y : Text)
      → (c == stored_id) ≡ false
      → is_participant c y stored.members ≡ is_participant c y s.members
  unfolding member_row save_conversation
  joined_elsewhere c y n =
      member_elsewhere c y second_row
        (save_row first_row
          (save_conversation stored_conversation (record s { readings = s.readings + 1 })))
        n
      ∙ member_elsewhere c y first_row
          (save_conversation stored_conversation (record s { readings = s.readings + 1 })) n

  second_joined : is_participant stored_id b stored.members ≡ true
  unfolding member_row
  second_joined = joins second_row _ refl

  first_joined : is_participant stored_id a stored.members ≡ true
  unfolding member_row
  first_joined = stays_member stored_id a second_row _ refl (joins first_row _ refl)

  pub stored_found :
      HasFreshIds env s
      → find_direct a b s ≡ none
      → find_direct a b stored ≡ some stored_conversation
  unfolding find_direct save_conversation save_row new_conversation
  stored_found fresh h =
      find_one-save_new Conversation.id _ _ stored_conversation
        (λ r n. ground (arith, joined_elsewhere r.id a n, joined_elsewhere r.id b n))
        (ground (arith, first_joined, second_joined)) s.conversations h (fresh s.readings)

  pub stored_peers : stored.peers ≡ s.peers
  unfolding save_row save_conversation
  stored_peers = refl

  pub stored_conversation_id : stored_conversation.id ≡ stored_id
  unfolding new_conversation
  stored_conversation_id = refl
