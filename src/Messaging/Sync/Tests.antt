-- ===== src/Messaging/Sync/Tests.antt =====
-- The synchronization of messages on concrete inputs.
use kalam_network.Prelude.{◌+◌, ◌≡◌, ◌==◌, refl, none, some, [], ◌∷◌, arith}
use kalam_network.Exec.{ok}
use kalam_network.Repo.{find_one, update_where, save, count}
use kalam_network.Messaging.Conversations.{group, Conversation}
use kalam_network.Messaging.Sync.{
  message, Message, MirrorMessage, SyncState, SyncEnv, find_pending, index_message, sync_message,
  sync_loop, note_highest, finish_with, sync_from_mirror_node,
}
use kalam_network.Messaging.Sync.Covered.{
  HasIds, HasDistinctUuids, Covers, sync_from_mirror_node-Covers,
}

-- One that the sender waits for, and one of another sender.
abbrev first_message : MirrorMessage
first_message = record {
  sequence_number = 5;
  payer = 1;
  decoded_sender = some 2;
  decoded_type = some message;
}

abbrev second_message : MirrorMessage
second_message = record {
  sequence_number = 6;
  payer = 1;
  decoded_sender = none;
  decoded_type = none;
}

abbrev env : SyncEnv
env = record {
  uuid = λ n. 100 + n;
  topic_messages = λ n t a. some (first_message ∷ second_message ∷ []);
}

abbrev chat : Conversation
chat = record {
  id = 7;
  hcs_topic_id = 70;
  conversation_type = group;
  group_name = none;
  group_avatar_cid = none;
  admin_account_id = none;
  created_by = 1;
  last_message_seq = 4;
  encrypted_keys = [];
  current_key_id = 0;
}

abbrev waiting : Message
waiting = record { id = 10; topic = 70; sequence_number = 0; sender = 2; message_type = message }

abbrev start : SyncState
start = record { messages = waiting ∷ []; conversations = chat ∷ []; readings = 0 }

start-HasIds : HasIds env start
unfolding count find_one
start-HasIds = ((λ k. ground arith), λ n le. ground arith)

env-HasDistinctUuids : HasDistinctUuids env
env-HasDistinctUuids m n e = omega (arith, e)

chat_known : find_one (λ x. Conversation.hcs_topic_id x == 70) start.conversations ≡ some chat
unfolding find_one
chat_known = refl

sync_from_mirror_node-Covers_example :
    Covers 70 (first_message ∷ second_message ∷ []) (sync_from_mirror_node env 70 4 start)
sync_from_mirror_node-Covers_example =
    sync_from_mirror_node-Covers env 70 4 start chat (first_message ∷ second_message ∷ [])
      env-HasDistinctUuids start-HasIds chat_known refl (refl, (refl, tt))

-- The pending message gets its number, and the other is added.
synced : sync_from_mirror_node env 70 4 start ≡ (
  ok 6,
  record {
    messages =
        record waiting { sequence_number = 5 }
        ∷ record { id = 101; topic = 70; sequence_number = 6; sender = 1; message_type = message }
        ∷ [];
    conversations = record chat { last_message_seq = 6 } ∷ [];
    readings = 2;
  },
)
unfolding sync_from_mirror_node finish_with sync_loop sync_message index_message find_pending
    note_highest find_one update_where save
synced = refl
