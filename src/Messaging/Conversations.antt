-- ===== src/Messaging/Conversations.antt =====
-- packages/api/src/modules/messaging/conversations.service.ts: the state, the keys, and the changes
-- of the members.
pub mod Members
pub mod Create
pub mod Admins
pub mod History
pub mod Rotation
pub mod Reading
use kalam_network.Prelude.{
  ℕ, ◌+◌, ◌-◌, Text, is_truthy, is_present, Bool, true, false, ◌&&◌, ◌||◌, not, Option, none, some,
  List, [], ◌∷◌, ◌++◌, ◌==◌, if◌then◌else◌, is_some, get_or,
}
use kalam_network.Exec.{
  Result, ok, err, Exec, pure, throw, gets, or_throw, throw_if, modify, when, ◌>>=◌, ◌>>◌,
}
use kalam_network.Repo.{find_one, find_key, any, save, save_by, column_is}

pub data ConversationType : Type 0 where
  direct group : ConversationType

abbrev pub is_direct : ConversationType → Bool
is_direct direct = true
is_direct group = false

pub data MemberRole : Type 0 where
  admin member : MemberRole

abbrev pub is_admin : MemberRole → Bool
is_admin admin = true
is_admin member = false

-- `encryptedKeysJson`: the key of the conversation, sealed for each account, in any order.
abbrev pub KeyMap : Type 0
KeyMap = List (Text × Text)

pub record Conversation : Type 0 where
  pub id : Text
  pub hcs_topic_id : Text
  pub conversation_type : ConversationType
  pub group_name : Option Text
  pub group_avatar_cid : Option Text
  pub admin_account_id : Option Text
  pub created_by : Text
  pub last_message_seq : ℕ
  pub encrypted_keys : KeyMap
  pub current_key_id : Text

pub record ConversationMember : Type 0 where
  pub conversation_id : Text
  pub account : Text
  pub role : MemberRole
  pub left_at : Option ℕ
  pub last_read_seq : ℕ

-- The columns of a user that conversations read.
pub record Peer : Type 0 where
  pub account : Option Text
  pub display_name : Option Text
  pub encryption_key : Option Text

pub data ConvError : Type 0 where
  group_name_required invalid_participants participant_not_found missing_encryption_key : ConvError
  creation_failed conversation_not_found not_member not_admin : ConvError
  direct_conversation already_member : ConvError

-- `KeyExchangePayload`, submitted to the topic.
pub record KeyExchange : Type 0 where
  pub topic : Text
  pub keys : KeyMap
  pub key_id : Text

pub record ConvState : Type 0 where
  pub conversations : List Conversation
  pub members : List ConversationMember
  pub peers : List Peer
  pub submitted : List KeyExchange
  pub readings : ℕ

-- What the environment answers, by the number of readings made before: `nacl.box` under a fresh
-- key, the creation of a topic, and whether a submission succeeds.
pub record ConvEnv : Type 0 where
  pub clock : ℕ → ℕ
  pub uuid : ℕ → Text
  pub seal : ℕ → Text → Option Text
  pub create_topic : ℕ → Option Text
  pub submits : ℕ → Bool
  pub sanitize : Text → Text

abbrev pub Conv : Type 0 → Type 0
Conv A = Exec ConvState ConvError A

abbrev pub is_row : Text → Text → ConversationMember → Bool
is_row c a m = m.conversation_id == c && m.account == a

abbrev pub is_active : Text → ConversationMember → Bool
is_active c m = m.conversation_id == c && not (is_some m.left_at)

abbrev pub is_active_admin : Text → ConversationMember → Bool
is_active_admin c m = is_active c m && is_admin m.role

-- The accounts of the active members, in the order of the rows.
unfoldable pub active_accounts : Text → List ConversationMember → List Text
active_accounts c [] = []
active_accounts c (m ∷ ms) =
    if is_active c m then m.account ∷ active_accounts c ms else active_accounts c ms

abbrev pub mentions : Text → List Text → Bool
mentions x [] = false
mentions x (a ∷ more) = a == x || mentions x more

-- `keys[accountId] = …`
unfoldable pub set_key : Text → Text → KeyMap → KeyMap
set_key a k keys = save_by (λ e. e.0 == a) (a, k) keys

-- The public key of a user, which must be there and not be empty.
unfoldable pub public_key_of : Option Peer → Result ConvError Text
public_key_of none = err participant_not_found
public_key_of (some u) = elim u.encryption_key [
  | none ↦ err missing_encryption_key
  | some k ↦ if is_truthy k then ok k else err missing_encryption_key
]

unfoldable pub add_public_key :
    Text → Result ConvError Text → Result ConvError KeyMap → Result ConvError KeyMap
add_public_key a (err e) rest = err e
add_public_key a (ok k) (err e) = err e
add_public_key a (ok k) (ok keys) = ok (set_key a k keys)

-- `collectEncryptionKeys`
unfoldable pub collect_encryption_keys : List Peer → List Text → Result ConvError KeyMap
collect_encryption_keys peers [] = ok []
collect_encryption_keys peers (a ∷ more) =
    add_public_key a (public_key_of (find_one (λ u. column_is u.account a) peers))
      (collect_encryption_keys peers more)

abbrev pub sealed_entry : Text → Option Text → Option KeyMap → Option KeyMap
sealed_entry a none rest = none
sealed_entry a (some k) none = none
sealed_entry a (some k) (some keys) = some ((a, k) ∷ keys)

-- `createKeyExchangePayload`: the fresh key, sealed for each account; a bad public key throws.
unfoldable pub seal_keys : (Text → Option Text) → KeyMap → Option KeyMap
seal_keys box [] = some []
seal_keys box ((a, k) ∷ more) = sealed_entry a (box k) (seal_keys box more)

unfoldable pub save_conversation : Conversation → ConvState → ConvState
save_conversation c s = record s { conversations = save Conversation.id c s.conversations }

-- The conversation with a new key, once the exchange is submitted.
unfoldable pub rotated : Conversation → KeyExchange → ConvState → ConvState
rotated c x s =
    save_conversation (record c { encrypted_keys = x.keys; current_key_id = x.key_id })
      (record s { submitted = s.submitted ++ x ∷ [] })

module _ (env : ConvEnv) where
  -- The `try` of a rotation from the payload on: a failure is only logged.
  unfoldable pub exchange_keys : Conversation → KeyMap → ConvState → ConvState
  exchange_keys c keys s = elim (seal_keys (env.seal s.readings) keys) [
    | none ↦ record s { readings = s.readings + 1 }
    | some sealed ↦
        let s' = record s { readings = s.readings + 2 } in
        if env.submits (s.readings + 1)
        then rotated c
            (record { topic = c.hcs_topic_id; keys = sealed; key_id = env.uuid s.readings }) s'
        else s'
  ]

  unfoldable pub exchange_collected : Conversation → Result ConvError KeyMap → ConvState → ConvState
  exchange_collected c (err e) s = s
  exchange_collected c (ok keys) s = exchange_keys c keys s

  unfoldable pub rotate_for : Conversation → List Text → ConvState → ConvState
  rotate_for c [] s = s
  rotate_for c (a ∷ more) s = exchange_collected c (collect_encryption_keys s.peers (a ∷ more)) s

  -- `rotateKeysForConversation`
  unfoldable pub rotate_keys : Conversation → Text → ConvState → ConvState
  rotate_keys c conversation_id s = rotate_for c (active_accounts conversation_id s.members) s

unfoldable pub find_row : Text → Text → ConvState → Option ConversationMember
find_row c a s = find_one (is_row c a) s.members

unfoldable pub save_row : ConversationMember → ConvState → ConvState
save_row m s = record s { members = save_by (is_row m.conversation_id m.account) m s.members }

abbrev pub active_row : Option ConversationMember → Option ConversationMember
active_row none = none
active_row (some m) = if is_some m.left_at then none else some m

-- `verifyMembership`
unfoldable pub verify_active : Text → Text → Conv ConversationMember
verify_active c a = do found ← gets (find_row c a); or_throw (active_row found) not_member

-- The guards that adding and removing share: a group, and an active admin who asks.
unfoldable pub find_group_as_admin : Text → Text → Conv Conversation
find_group_as_admin c requestor = do
  found ← gets (λ s. find_key Conversation.id c s.conversations)
  conversation ← or_throw found conversation_not_found
  throw_if (is_direct conversation.conversation_type) direct_conversation
  asking ← verify_active c requestor
  throw_if (not (is_admin asking.role)) not_admin
  pure conversation

-- What a request for a conversation answers with.
pub record ConversationView : Type 0 where
  pub id : Text
  pub participants : List Text
  pub unread_count : ℕ
  pub encrypted_keys : KeyMap

-- `getConversation`; `Math.max(0, last - read)` is the truncated difference.
unfoldable pub get_conversation : Text → Text → Conv ConversationView
get_conversation c requestor = do
  found ← gets (λ s. find_key Conversation.id c s.conversations)
  conversation ← or_throw found conversation_not_found
  asking ← verify_active c requestor
  accounts ← gets (λ s. active_accounts c s.members)
  pure (record {
    id = conversation.id;
    participants = accounts;
    unread_count = conversation.last_message_seq - asking.last_read_seq;
    encrypted_keys = conversation.encrypted_keys;
  })
