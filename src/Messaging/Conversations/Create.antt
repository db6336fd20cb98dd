-- ===== src/Messaging/Conversations/Create.antt =====
-- packages/api/src/modules/messaging/conversations.service.ts: the creation of a conversation.
pub mod Keeps
pub mod Found
pub mod Stored
pub mod Again
use kalam_network.Prelude.{
  ℕ, ◌+◌, Text, is_present, Bool, true, false, ◌&&◌, ◌||◌, not, Option, none, some, List, [], ◌∷◌,
  ◌++◌, ◌==◌, ltb, if◌then◌else◌, is_some, length, map,
}
use kalam_network.Exec.{Result, ok, err, pure, throw, gets, or_throw, throw_if, modify, ◌>>=◌, ◌>>◌}
use kalam_network.Repo.{find_one, any, column_is}
use kalam_network.Messaging.Conversations.{
  mentions, ConversationType, direct, group, is_direct, MemberRole, admin, member, KeyMap,
  Conversation, ConversationMember, Peer, ConvError, group_name_required, invalid_participants,
  participant_not_found, creation_failed, KeyExchange, ConvState, ConvEnv, Conv, is_row,
  collect_encryption_keys, seal_keys, save_conversation, save_row, ConversationView,
  get_conversation,
}
use kalam_network.Messaging.Conversations.Members.{lift_result}

-- `CreateConversationDto`
pub record ConversationRequest : Type 0 where
  pub participants : List Text
  pub requested_type : ConversationType
  pub group_name : Option Text
  pub group_avatar_cid : Option Text

-- `validateParticipantsExist`
unfoldable pub all_known : List Peer → List Text → Bool
all_known peers [] = true
all_known peers (a ∷ more) = any (λ u. column_is u.account a) peers && all_known peers more

abbrev pub is_participant : Text → Text → List ConversationMember → Bool
is_participant c a members = any (λ m. is_row c a m && not (is_some m.left_at)) members

-- `findExistingDirectConversation`
unfoldable pub find_direct : Text → Text → ConvState → Option Conversation
find_direct a b s =
    find_one
      (λ c.
        (is_participant c.id a s.members && is_participant c.id b s.members)
        && is_direct c.conversation_type)
      s.conversations

-- The direct conversation that a request finds.
unfoldable pub find_requested :
    Text → ConversationType → List Text → ConvState → Option Conversation
find_requested a group participants s = none
find_requested a direct [] s = none
find_requested a direct (b ∷ more) s = find_direct a b s

-- The insertion of two rows with one primary key is refused.
unfoldable pub has_repeats : List Text → Bool
has_repeats [] = false
has_repeats (a ∷ more) = mentions a more || has_repeats more

-- The row of a participant: the initiator is the admin.
unfoldable pub member_row : Text → Text → Text → ConversationMember
member_row c initiator a = record {
  conversation_id = c;
  account = a;
  role = if a == initiator then admin else member;
  left_at = none;
  last_read_seq = 0;
}

unfoldable pub save_members : Text → Text → List Text → ConvState → ConvState
save_members c initiator [] s = s
save_members c initiator (a ∷ more) s =
    save_members c initiator more (save_row (member_row c initiator a) s)

-- `dto.groupName ? sanitizeHtml(…).trim() : undefined`
unfoldable pub sanitized_name : (Text → Text) → Option Text → Option Text
sanitized_name clean none = none
sanitized_name clean (some t) = if is_present (some t) then some (clean t) else none

abbrev pub for_group : {A : Type 0} → ConversationType → Option A → Option A
for_group direct x = none
for_group group x = x

-- The guards of a request, before anything is looked up but the users.
unfoldable pub check_request : Text → ConversationRequest → Conv Unit
check_request initiator d = do
  throw_if (not (is_direct d.requested_type) && not (is_present d.group_name)) group_name_required
  throw_if (is_direct d.requested_type && not (length d.participants == 1)) invalid_participants
  throw_if (not (is_direct d.requested_type) && ltb (length d.participants) 2) invalid_participants
  throw_if (mentions initiator d.participants) invalid_participants
  known ← gets (λ s. all_known s.peers (initiator ∷ d.participants))
  throw_if (not known) participant_not_found

module _ (env : ConvEnv) where
  -- The topic of a new conversation.
  unfoldable pub open_topic : Conv Text
  open_topic s =
      let s' = record s { readings = s.readings + 1 } in
      or_throw (env.create_topic s.readings) creation_failed s'

  -- The exchange that is submitted to the new topic.
  unfoldable pub first_exchange : Text → KeyMap → Conv KeyExchange
  first_exchange topic keys s = elim (seal_keys (env.seal s.readings) keys) [
    | none ↦ (err creation_failed, record s { readings = s.readings + 1 })
    | some sealed ↦
        let x : KeyExchange = record {
          topic = topic;
          keys = sealed;
          key_id = env.uuid s.readings;
        } in
        if env.submits (s.readings + 1)
        then (ok x, record s { submitted = s.submitted ++ x ∷ []; readings = s.readings + 2 })
        else (err creation_failed, record s { readings = s.readings + 2 })
  ]

  unfoldable pub new_conversation : Text → ConversationRequest → KeyExchange → Text → Conversation
  new_conversation initiator d x c = record {
    id = c;
    hcs_topic_id = x.topic;
    conversation_type = d.requested_type;
    group_name = for_group d.requested_type (sanitized_name env.sanitize d.group_name);
    group_avatar_cid = for_group d.requested_type d.group_avatar_cid;
    admin_account_id = for_group d.requested_type (some initiator);
    created_by = initiator;
    last_message_seq = 0;
    encrypted_keys = x.keys;
    current_key_id = x.key_id;
  }

  -- The rows of a new conversation and the answer.
  unfoldable pub store_conversation :
      Text → ConversationRequest → KeyExchange → Conv ConversationView
  store_conversation initiator d x = do
    c ← (λ s. (ok (env.uuid s.readings), record s { readings = s.readings + 1 }))
    modify (save_conversation (new_conversation initiator d x c))
    throw_if (has_repeats (initiator ∷ d.participants)) creation_failed
    modify (save_members c initiator (initiator ∷ d.participants))
    pure (record {
      id = c;
      participants = initiator ∷ d.participants;
      unread_count = 0;
      encrypted_keys = x.keys;
    })

  -- `createConversation` where no direct conversation is found.
  unfoldable pub create_new : Text → ConversationRequest → Conv ConversationView
  create_new initiator d = do
    keys ← (λ s. (collect_encryption_keys s.peers (initiator ∷ d.participants), s))
    topic ← open_topic
    x ← first_exchange topic keys
    store_conversation initiator d x

  unfoldable pub create_or_get :
      Text → ConversationRequest → Option Conversation → Conv ConversationView
  create_or_get initiator d none = create_new initiator d
  create_or_get initiator d (some c) = get_conversation c.id initiator

  -- `createConversation`
  unfoldable pub create_conversation : Text → ConversationRequest → Conv ConversationView
  create_conversation initiator d = do
    check_request initiator d
    existing ← gets (find_requested initiator d.requested_type d.participants)
    create_or_get initiator d existing
