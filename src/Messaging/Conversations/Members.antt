-- ===== src/Messaging/Conversations/Members.antt =====
-- packages/api/src/modules/messaging/conversations.service.ts: the changes of the members of a group.
use kalam_network.Prelude.{◌+◌, Text, ◌&&◌, not, Option, none, some, ◌==◌, if◌then◌else◌, is_some}
use kalam_network.Exec.{Result, gets, or_throw, throw_if, modify, ◌>>=◌, ◌>>◌}
use kalam_network.Repo.{find_one, find_key, any, column_is}
use kalam_network.Messaging.Conversations.{
  Conv, ConvEnv, ConvError, ConvState, Conversation, ConversationMember, ConversationView,
  active_accounts, active_row, collect_encryption_keys, exchange_keys, find_group_as_admin,
  find_row, get_conversation, is_active, is_active_admin, is_admin, public_key_of, rotate_keys,
  save_row, verify_active, member, admin, already_member, conversation_not_found,
}

-- The row that adding a participant saves: of one who comes back, or a new one.
unfoldable pub joined_row : Text → Text → Option ConversationMember → ConversationMember
joined_row c a none = record {
  conversation_id = c;
  account = a;
  role = member;
  left_at = none;
  last_read_seq = 0;
}
joined_row c a (some m) = record m { left_at = none; role = member }

unfoldable pub lift_result : {A : Type 0} → Result ConvError A → Conv A
lift_result r s = (r, s)

module _ (env : ConvEnv) where
  -- The end of `addParticipant`. The keys are collected outside the `try`, so a missing key throws.
  unfoldable pub share_keys : Text → Text → Conversation → Conv ConversationView
  share_keys c requestor conversation = do
    keys ← (λ s. (collect_encryption_keys s.peers (active_accounts c s.members), s))
    modify (exchange_keys env conversation keys)
    get_conversation c requestor

  -- `addParticipant` from its guards on.
  unfoldable pub add_to_group : Text → Text → Text → Conversation → Conv ConversationView
  add_to_group c new_account requestor conversation = do
    existing ← gets (find_row c new_account)
    throw_if (is_some (active_row existing)) already_member
    found ← gets (λ s. find_one (λ u. column_is u.account new_account) s.peers)
    new_key ← lift_result (public_key_of found)
    modify (save_row (joined_row c new_account existing))
    share_keys c requestor conversation

  -- `addParticipant`
  unfoldable pub add_participant : Text → Text → Text → Conv ConversationView
  add_participant c new_account requestor =
      find_group_as_admin c requestor >>= add_to_group c new_account requestor

  unfoldable pub leave_row : ConversationMember → ConvState → ConvState
  leave_row m s =
      save_row (record m { left_at = some (env.clock s.readings) })
        (record s { readings = s.readings + 1 })

  -- `removeParticipant` from its guards on.
  unfoldable pub remove_from_group : Text → Text → Text → Conversation → Conv ConversationView
  remove_from_group c target requestor conversation = do
    leaving ← verify_active c target
    modify (leave_row leaving)
    modify (rotate_keys env conversation c)
    get_conversation c requestor

  -- `removeParticipant`
  unfoldable pub remove_participant : Text → Text → Text → Conv ConversationView
  remove_participant c target requestor =
      find_group_as_admin c requestor >>= remove_from_group c target requestor

  -- The promotion of the oldest other member, if the last admin leaves.
  unfoldable pub promote_next : Text → ConversationMember → ConvState → ConvState
  promote_next c leaving s =
      if is_admin leaving.role
        && not (any (λ m. is_active_admin c m && not (m.account == leaving.account)) s.members)
      then elim (find_one (λ m. is_active c m && not (m.account == leaving.account)) s.members) [
        | none ↦ s
        | some next ↦ save_row (record next { role = admin }) s
      ]
      else s

  -- The conversation by its identifier, or else by its topic.
  unfoldable pub find_by_either : Text → ConvState → Option Conversation
  find_by_either c s = elim (find_key Conversation.id c s.conversations) [
    | some conversation ↦ some conversation
    | none ↦ find_one (λ x. Conversation.hcs_topic_id x == c) s.conversations
  ]

  -- `leaveConversation`, which looks the member up under the text that it was given.
  unfoldable pub leave_conversation : Text → Text → Conv Unit
  leave_conversation c account = do
    found ← gets (find_by_either c)
    conversation ← or_throw found conversation_not_found
    leaving ← verify_active c account
    modify (promote_next c leaving)
    modify (leave_row leaving)
    modify (rotate_keys env conversation c)
