-- ===== src/Messaging/Tests.antt =====
-- Conversations on concrete inputs.
use kalam_network.Prelude.{◌+◌, ◌≡◌, refl, true, none, some, List, [], ◌∷◌, arith}
use kalam_network.Exec.{ok, result, after}
use kalam_network.Repo.{find_one, count, save, save_by, update_where}
use kalam_network.Messaging.Conversations.{
  active_accounts, set_key, public_key_of, add_public_key, collect_encryption_keys, seal_keys,
  rotated, exchange_keys, exchange_collected, rotate_for, save_row, verify_active,
  find_group_as_admin, group, admin, member, Conversation, ConversationMember, Peer, ConvState,
  ConvEnv, find_row, get_conversation, save_conversation, rotate_keys,
}
use kalam_network.Messaging.Conversations.Members.{
  joined_row, lift_result, share_keys, add_to_group, add_participant, leave_row, remove_from_group,
  remove_participant, promote_next, find_by_either, leave_conversation,
}
use kalam_network.Messaging.Conversations.Admins.{IsManaged}
use kalam_network.Messaging.Conversations.History.{
  step, ConvCall, create_call, remove_call, leave_call, run, run-IsManaged,
}
use kalam_network.Messaging.Conversations.Rotation.{IsRotation, can_rotate, rotate_keys-IsRotation}
use kalam_network.Messaging.Conversations.Reading.{HasUnread, mark_rows, mark_as_read}
use kalam_network.Messaging.Conversations.Create.{
  all_known, find_direct, find_requested, has_repeats, member_row, save_members, sanitized_name,
  check_request, open_topic, first_exchange, new_conversation, store_conversation, create_new,
  create_or_get, ConversationRequest, create_conversation,
}
use kalam_network.Messaging.Conversations.Create.Again.{direct_again}
use kalam_network.Messaging.Conversations.Create.Found.{Gives, direct_request}

abbrev env : ConvEnv
env = record {
  clock = λ n. 1000 + n;
  uuid = λ n. 500 + n;
  seal = λ n k. some (k + 7);
  create_topic = λ n. some (900 + n);
  submits = λ n. true;
  sanitize = λ t. t;
}

abbrev ann : Peer
ann = record { account = some 1; display_name = none; encryption_key = some 21 }

abbrev bob : Peer
bob = record { account = some 2; display_name = none; encryption_key = some 22 }

abbrev eve : Peer
eve = record { account = some 3; display_name = none; encryption_key = some 23 }

abbrev start : ConvState
start = record {
  conversations = [];
  members = [];
  peers = ann ∷ bob ∷ eve ∷ [];
  submitted = [];
  readings = 0;
}

abbrev trio : ConversationRequest
trio = record {
  participants = 2 ∷ 3 ∷ [];
  requested_type = group;
  group_name = some 5;
  group_avatar_cid = none;
}

-- A group is made, its admin leaves, and the one who is promoted removes another.
abbrev calls : List ConvCall
calls = create_call trio 1 ∷ leave_call 503 1 ∷ remove_call 503 3 2 ∷ []

no_members-IsManaged : IsManaged []
unfolding count find_one
no_members-IsManaged = ((λ c a. omega arith), λ c active. absurd (ground arith))

run-IsManaged_example : IsManaged (run env calls start).members
run-IsManaged_example =
    run-IsManaged env calls start (tt, (tt, ((λ e. omega (arith, e)), tt))) no_members-IsManaged

-- What the calls answer and leave behind.
first_leaves :
    find_row 503 2 (run env calls start)
    ≡ some (record {
      conversation_id = 503;
      account = 2;
      role = admin;
      left_at = none;
      last_read_seq = 0;
    })
unfolding step run active_accounts set_key public_key_of add_public_key collect_encryption_keys
    seal_keys save_conversation rotated exchange_keys exchange_collected rotate_for rotate_keys
    find_row save_row verify_active find_group_as_admin get_conversation joined_row lift_result
    share_keys add_to_group add_participant leave_row remove_from_group remove_participant
    promote_next find_by_either leave_conversation all_known find_direct find_requested has_repeats
    member_row save_members sanitized_name check_request open_topic first_exchange new_conversation
    store_conversation create_new create_or_get create_conversation find_one save save_by
    update_where
first_leaves = refl

abbrev pair_start : ConvState
pair_start = after (create_conversation env 1 (direct_request 2)) start

pair_created : create_conversation env 1 (direct_request 2) start ≡ (
  ok (record {
    id = 503;
    participants = 1 ∷ 2 ∷ [];
    unread_count = 0;
    encrypted_keys = (2, 29) ∷ (1, 28) ∷ [];
  }),
  pair_start,
)
unfolding active_accounts set_key public_key_of add_public_key collect_encryption_keys seal_keys
    save_conversation rotated exchange_keys exchange_collected rotate_for rotate_keys find_row
    save_row verify_active find_group_as_admin get_conversation joined_row lift_result share_keys
    add_to_group add_participant leave_row remove_from_group remove_participant promote_next
    find_by_either leave_conversation all_known find_direct find_requested has_repeats member_row
    save_members sanitized_name check_request open_topic first_exchange new_conversation
    store_conversation create_new create_or_get create_conversation find_one save save_by
    update_where
pair_created = refl

direct_again_example :
    Gives 503 pair_start (create_conversation env 1 (direct_request 2) pair_start)
    × Gives 503 pair_start (create_conversation env 2 (direct_request 1) pair_start)
unfolding find_one
direct_again_example =
    direct_again env 1 2 start _ pair_start no_members-IsManaged (λ n. refl) pair_created

abbrev chat : Conversation
chat = record {
  id = 7;
  hcs_topic_id = 70;
  conversation_type = group;
  group_name = some 5;
  group_avatar_cid = none;
  admin_account_id = some 1;
  created_by = 1;
  last_message_seq = 4;
  encrypted_keys = [];
  current_key_id = 0;
}

abbrev reader : ConversationMember
reader = record {
  conversation_id = 7;
  account = 1;
  role = admin;
  left_at = none;
  last_read_seq = 1;
}

abbrev gone : ConversationMember
gone = record {
  conversation_id = 7;
  account = 3;
  role = member;
  left_at = some 9;
  last_read_seq = 0;
}

abbrev talk : ConvState
talk = record start { conversations = chat ∷ []; members = gone ∷ reader ∷ [] }

rotate_keys-IsRotation_example :
    IsRotation (can_rotate env 7 talk) talk 7 chat (rotate_keys env chat 7 talk)
rotate_keys-IsRotation_example = rotate_keys-IsRotation env 7 chat talk

-- The rotation is made, and leaves the one who has gone out.
rotated_keys :
    (rotate_keys env chat 7 talk).submitted
    ≡ record { topic = 70; keys = (1, 28) ∷ []; key_id = 500 } ∷ []
unfolding active_accounts set_key public_key_of add_public_key collect_encryption_keys seal_keys
    save_conversation rotated exchange_keys exchange_collected rotate_for rotate_keys find_row
    save_row verify_active find_group_as_admin get_conversation joined_row lift_result share_keys
    add_to_group add_participant leave_row remove_from_group remove_participant promote_next
    find_by_either leave_conversation find_one save save_by update_where
rotated_keys = refl

abbrev empty_talk : ConvState
empty_talk = record talk { conversations = record chat { last_message_seq = 0 } ∷ [] }

-- Where a conversation without messages is marked as read, later messages do not count.
marked_empty : HasUnread 0 (
    result
      (get_conversation 7 1)
      (save_conversation (record chat { last_message_seq = 5 }) (mark_as_read 70 1 empty_talk)))
unfolding mark_as_read mark_rows active_accounts set_key public_key_of add_public_key
    collect_encryption_keys seal_keys save_conversation rotated exchange_keys exchange_collected
    rotate_for rotate_keys find_row save_row verify_active find_group_as_admin get_conversation
    find_one save update_where
marked_empty = refl
