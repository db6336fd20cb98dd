-- ===== src/Messaging/Conversations/Reading.antt =====
-- packages/api/src/modules/messaging/conversations.service.ts: the unread count.
use mathlib.Core.Path.{subst}
use kalam_network.Repo.Laws.{find_key-save}
use kalam_network.Prelude.{
  ℕ, ◌-◌, ◌≡◌, refl, sym, Text, false, Option, none, some, List, [], ◌∷◌, ◌==◌, if◌then◌else◌,
  is_some, arith, inl, inr, Bool-cases,
}
use kalam_network.Exec.{Result, ok, err, result}
use kalam_network.Repo.{find_one, find_key, update_where}
use kalam_network.Messaging.Conversations.{
  Conversation, ConversationMember, ConvState, ConvError, ConversationView, is_row, find_row,
  verify_active, active_accounts, get_conversation, save_conversation,
}

-- `Number(conversation.lastMessageSeq) || 9999999`
abbrev pub read_up_to : ℕ → ℕ
read_up_to n = if n == 0 then 9999999 else n

unfoldable pub mark_rows : Text → Option Conversation → ConvState → ConvState
mark_rows a none s = s
mark_rows a (some c) s = record s {
  members =
      update_where (is_row c.id a) (λ m. record m { last_read_seq = read_up_to c.last_message_seq })
        s.members;
}

-- `markAsRead`
unfoldable pub mark_as_read : Text → Text → ConvState → ConvState
mark_as_read topic a s =
    mark_rows a (find_one (λ c. Conversation.hcs_topic_id c == topic) s.conversations) s

-- The unread count of an answer.
abbrev pub HasUnread : ℕ → Result ConvError ConversationView → Type 0
HasUnread n (ok v) = v.unread_count ≡ n
HasUnread n (err e) = ⊥

find_one-mark :
    (c a : Text) (n : ℕ) (rows : List ConversationMember) (m : ConversationMember)
    → find_one (is_row c a) rows ≡ some m
    → find_one (is_row c a) (update_where (is_row c a) (λ r. record r { last_read_seq = n }) rows)
      ≡ some (record m { last_read_seq = n })
unfolding find_one update_where
find_one-mark c a n [] m e = ground arith
find_one-mark c a n (r ∷ rows) m e = elim (Bool-cases (is_row c a r)) [
  | inl t ↦ ground arith
  | inr f ↦ ground (arith, find_one-mark c a n rows m)
]

-- The rows of the members in the state after a mark.
find_row-mark :
    (topic a : Text) (s : ConvState) (c : Conversation) (m : ConversationMember)
    → find_one (λ x. Conversation.hcs_topic_id x == topic) s.conversations ≡ some c
    → find_row c.id a s ≡ some m
    → find_row c.id a (mark_as_read topic a s)
      ≡ some (record m { last_read_seq = read_up_to c.last_message_seq })
unfolding mark_as_read mark_rows find_row
find_row-mark topic a s c m known here =
    ground (arith, known, find_one-mark c.id a (read_up_to c.last_message_seq) s.members m here)

unread_of :
    (c a : Text) (s : ConvState) (x : Conversation) (m : ConversationMember)
    → find_key Conversation.id c s.conversations ≡ some x
    → find_row c a s ≡ some m
    → is_some m.left_at ≡ false
    → HasUnread (x.last_message_seq - m.last_read_seq) (result (get_conversation c a) s)
unfolding get_conversation verify_active find_row
unread_of c a s x m known here active =
    let gives : result (get_conversation c a) s
        ≡ ok (record {
          id = x.id;
          participants = active_accounts c s.members;
          unread_count = x.last_message_seq - m.last_read_seq;
          encrypted_keys = x.encrypted_keys;
        }) =
      ground arith in
    subst (HasUnread (x.last_message_seq - m.last_read_seq)) (sym gives) refl

-- After an active member has marked a conversation that has messages as read, and its number of
-- messages has since become `last`, a request for the conversation counts as unread the messages
-- after the mark, none if there are no more than before.
pub mark_as_read-HasUnread :
    (topic a : Text) (s : ConvState) (c : Conversation) (m : ConversationMember) (last : ℕ)
    → find_one (λ x. Conversation.hcs_topic_id x == topic) s.conversations ≡ some c
    → find_row c.id a s ≡ some m
    → is_some m.left_at ≡ false
    → (c.last_message_seq == 0) ≡ false
    → HasUnread (last - c.last_message_seq) (
        result
          (get_conversation c.id a)
          (save_conversation (record c { last_message_seq = last }) (mark_as_read topic a s)))
unfolding save_conversation find_row
mark_as_read-HasUnread topic a s c m last known here active some_message =
    let counted =
      unread_of c.id a
        (save_conversation (record c { last_message_seq = last }) (mark_as_read topic a s))
        (record c { last_message_seq = last })
        (record m { last_read_seq = read_up_to c.last_message_seq })
        (ground (
          arith,
          find_key-save Conversation.id c.id (record c { last_message_seq = last })
              (mark_as_read topic a s).conversations,
        ))
        (find_row-mark topic a s c m known here) active in
    subst
      (λ n. HasUnread (last - n) (
        result (get_conversation c.id a)
          (save_conversation (record c { last_message_seq = last }) (mark_as_read topic a s))))
      (ground arith) counted
