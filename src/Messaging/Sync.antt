-- ===== src/Messaging/Sync.antt =====
-- packages/api/src/modules/messaging/messaging.service.ts: the synchronization of the messages of a
-- topic with the mirror node.
pub mod Rows
pub mod Covered
mod Tests
use kalam_network.Prelude.{
  ℕ, suc, ◌+◌, ◌≤◌, max, Text, Bool, true, false, ◌&&◌, Option, none, some, List, [], ◌∷◌, ◌==◌,
  ltb, if◌then◌else◌, is_some, get_or,
}
use kalam_network.Exec.{Result, ok, err, Exec, or_throw, gets, ◌>>=◌}
use kalam_network.Repo.{find_one, update_where, save}
use kalam_network.Messaging.Conversations.{Conversation}

pub data MessageType : Type 0 where
  message payment payment_request payment_split system : MessageType

-- `MessageIndexEntity`, without the previews.
pub record Message : Type 0 where
  pub id : Text
  pub topic : Text
  pub sequence_number : ℕ
  pub sender : Text
  pub message_type : MessageType

-- A message of the mirror node: `decoded_sender` is the sender that its JSON names, if it is JSON,
-- and `decoded_type` the type, `system` for one that is not known.
pub record MirrorMessage : Type 0 where
  pub sequence_number : ℕ
  pub payer : Text
  pub decoded_sender : Option Text
  pub decoded_type : Option MessageType

pub data SyncError : Type 0 where
  topic_not_found sync_failed : SyncError

pub record SyncState : Type 0 where
  pub messages : List Message
  pub conversations : List Conversation
  pub readings : ℕ

pub record SyncEnv : Type 0 where
  pub uuid : ℕ → Text
  pub topic_messages : ℕ → Text → ℕ → Option (List MirrorMessage)

abbrev pub is_at : Text → ℕ → Message → Bool
is_at t n m = m.topic == t && m.sequence_number == n

-- The message that was sent from here and has no sequence number yet.
unfoldable pub find_pending : Text → Text → List Message → Option Message
find_pending t sender messages = find_one (λ m. is_at t 0 m && m.sender == sender) messages

abbrev pub sender_of : MirrorMessage → Text
sender_of m = get_or m.decoded_sender m.payer

module _ (env : SyncEnv) (t : Text) where
  abbrev pub new_message : Text → MirrorMessage → Message
  new_message id m = record {
    id = id;
    topic = t;
    sequence_number = m.sequence_number;
    sender = sender_of m;
    message_type = get_or m.decoded_type message;
  }

  -- A message that is not in the table: the pending one gets its number, or a row is added.
  unfoldable pub index_message : MirrorMessage → Option Message → SyncState → SyncState
  index_message m (some p) s = record s {
    messages =
        update_where (λ r. Message.id r == p.id)
          (λ r. record r { sequence_number = m.sequence_number }) s.messages;
  }
  index_message m none s = record s {
    messages = save Message.id (new_message (env.uuid s.readings) m) s.messages;
    readings = s.readings + 1;
  }

  -- The body of the loop.
  unfoldable pub sync_message : MirrorMessage → SyncState → SyncState
  sync_message m s =
      if is_some (find_one (is_at t m.sequence_number) s.messages)
      then s
      else index_message m (find_pending t (sender_of m) s.messages) s

  abbrev pub added : MirrorMessage → SyncState → ℕ
  added m s = if is_some (find_one (is_at t m.sequence_number) s.messages) then 0 else 1

  -- The loop, with the highest number seen and the number of messages that are new.
  unfoldable pub sync_loop : List MirrorMessage → ℕ → ℕ → SyncState → SyncState × (ℕ × ℕ)
  sync_loop [] highest fresh s = (s, (highest, fresh))
  sync_loop (m ∷ ms) highest fresh s =
      sync_loop ms (max highest m.sequence_number) (fresh + added m s) (sync_message m s)

  -- The end: the conversation learns of the highest number.
  unfoldable pub note_highest : Conversation → ℕ → ℕ → SyncState → SyncState
  note_highest c highest fresh s =
      if ltb 0 fresh && ltb c.last_message_seq highest
      then record s {
        conversations =
            save Conversation.id (record c { last_message_seq = highest }) s.conversations;
      }
      else s

  abbrev pub finish_sync : Conversation → SyncState × (ℕ × ℕ) → Result SyncError ℕ × SyncState
  finish_sync c (s, (highest, fresh)) = (ok highest, note_highest c highest fresh s)

  unfoldable pub finish_with :
      Conversation → ℕ → Option (List MirrorMessage) → Exec SyncState SyncError ℕ
  finish_with c after_sequence none s = (err sync_failed, s)
  finish_with c after_sequence (some ms) s = finish_sync c (sync_loop ms after_sequence 0 s)

  -- `syncFromMirrorNode`
  unfoldable pub sync_from_mirror_node : ℕ → Exec SyncState SyncError ℕ
  sync_from_mirror_node after_sequence = do
    found ← gets (λ s. find_one (λ c. Conversation.hcs_topic_id c == t) s.conversations)
    c ← or_throw found topic_not_found
    (λ s.
        finish_with c after_sequence (env.topic_messages s.readings t after_sequence)
          (record s { readings = s.readings + 1 }))
