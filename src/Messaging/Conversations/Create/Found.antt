-- ===== src/Messaging/Conversations/Create/Found.antt =====
-- A request for a direct conversation that is there.
use mathlib.Core.Path.{subst}
use kalam_network.Prelude.{
  ◌≡◌, refl, sym, ap, ◌∙◌, Text, true, false, ◌&&◌, not, none, some, List, [], ◌∷◌, ◌-◌, ◌==◌,
  is_some, arith, inl, inr, Bool-cases, Option-cases,
}
use kalam_network.Exec.{Result, ok}
use kalam_network.Repo.{any, find_one, find_key}
use kalam_network.Repo.Laws.{find_one_sound}
use kalam_network.Repo.Any.{any_ext, any_split, any_unique, any_found, find_one_ext}
use kalam_network.Messaging.Conversations.{
  direct, is_direct, is_row, ConversationMember, ConversationView, ConvState, ConvEnv, ConvError,
  Conversation, find_row, get_conversation, verify_active, active_accounts,
}
use kalam_network.Messaging.Conversations.Admins.{HasSingleRows}
use kalam_network.Messaging.Conversations.Create.{
  ConversationRequest, all_known, is_participant, find_direct, find_requested, check_request,
  create_or_get, create_conversation,
}
use kalam_network.Messaging.Conversations.Create.Keeps.{create_conversation-passed}

-- The one row of an active member is found active.
active_found :
    (c a : Text) (members : List ConversationMember)
    → HasSingleRows members
    → is_participant c a members ≡ true
    → (m : ConversationMember) × ((find_one (is_row c a) members ≡ some m)
        × (is_some m.left_at ≡ false))
active_found c a members single h = elim (Option-cases (find_one (is_row c a) members)) [
  | inl n ↦ absurd (ground (arith, any_split (λ m. not (is_some m.left_at)) (is_row c a) members))
  | inr (m, n) ↦ (
    m,
    (
      n,
      ground (
        arith,
        any_unique (is_row c a) (λ m. not (is_some m.left_at)) members m n (single c a),
        any_ext (λ m. is_row c a m && not (is_some m.left_at))
            (λ m. not (is_some m.left_at) && is_row c a m) (λ m. ground arith) members,
      ),
    ),
  )
]

-- A request for a conversation with that identifier.
abbrev pub Gives : Text → ConvState → Result ConvError ConversationView × ConvState → Type 0
Gives c s p = (v : ConversationView) × ((p ≡ (ok v, s)) × (v.id ≡ c))

get_conversation-Gives :
    (c a : Text) (s : ConvState)
    → HasSingleRows s.members
    → is_participant c a s.members ≡ true
    → any (λ x. Conversation.id x == c) s.conversations ≡ true
    → Gives c s (get_conversation c a s)
unfolding get_conversation verify_active find_row
get_conversation-Gives c a s single h known =
    elim (Option-cases (find_key Conversation.id c s.conversations)) [
      | inl n ↦ absurd (ground arith)
      | inr (x, n) ↦
          let (m, (here, active)) = active_found c a s.members single h in
          (
            record {
              id = x.id;
              participants = active_accounts c s.members;
              unread_count = x.last_message_seq - m.last_read_seq;
              encrypted_keys = x.encrypted_keys;
            },
            (
              rw (n, here, active) refl,
              ground (arith, find_one_sound (λ r. Conversation.id r == c) s.conversations x n),
            ),
          )
    ]

pub find_direct_swap : (a b : Text) (s : ConvState) → find_direct a b s ≡ find_direct b a s
unfolding find_direct
find_direct_swap a b s = find_one_ext _ _ (λ c. ground arith) s.conversations

-- The request of one account for a direct conversation with another.
abbrev pub direct_request : Text → ConversationRequest
direct_request b = record {
  participants = b ∷ [];
  requested_type = direct;
  group_name = none;
  group_avatar_cid = none;
}

-- Two known accounts that differ.
abbrev pub ArePeers : Text → Text → ConvState → Type 0
ArePeers a b s = ((a == b) ≡ false) × (all_known s.peers (a ∷ b ∷ []) ≡ true)

direct-passes :
    (a b : Text) (s : ConvState)
    → ArePeers a b s
    → check_request a (direct_request b) s ≡ (ok tt, s)
unfolding check_request
direct-passes a b s (differ, known) = ground arith

-- What a request that passes says of the accounts.
pub passed-ArePeers :
    (a b : Text) (s : ConvState)
    → check_request a (direct_request b) s ≡ (ok tt, s)
    → ArePeers a b s
unfolding check_request
passed-ArePeers a b s e = elim (Bool-cases (a == b)) [
  | inl t ↦ absurd (ground arith)
  | inr f ↦ (f, ground arith)
]

module _ (env : ConvEnv) (a b : Text) (s : ConvState) where
  -- A request for a conversation that is there.
  pub found_again :
      (c : Conversation)
      → ArePeers a b s
      → HasSingleRows s.members
      → find_direct a b s ≡ some c
      → Gives c.id s (create_conversation env a (direct_request b) s)
  unfolding find_direct find_requested create_or_get
  found_again c peers single e =
      let fits =
        find_one_sound
          (λ c.
            (is_participant c.id a s.members && is_participant c.id b s.members)
            && is_direct c.conversation_type)
          s.conversations c e in
      let gives =
        get_conversation-Gives c.id a s single (ground arith)
          (any_found _ (λ x. Conversation.id x == c.id) s.conversations c e (ground arith)) in
      subst (Gives c.id s)
        (sym (
          create_conversation-passed env a (direct_request b) s (direct-passes a b s peers)
          ∙ ap (λ f. create_or_get env a (direct_request b) f s) e))
        gives
