-- ===== src/Messaging/Conversations/Create/Again.antt =====
-- A direct conversation is created once for two accounts.
use mathlib.Core.Path.{subst}
use kalam_network.Prelude.{
  ◌≡◌, refl, sym, ap, ◌∙◌, Text, true, ◌&&◌, Option, none, some, List, [], ◌∷◌, ◌==◌, arith, inl,
  inr,
}
use kalam_network.Exec.{Result, ok}
use kalam_network.Repo.{any, find_one}
use kalam_network.Messaging.Conversations.{
  is_direct, ConversationView, Peer, ConvState, ConvEnv, ConvError, Conversation,
}
use kalam_network.Messaging.Conversations.Admins.{IsManaged, HasSingleRows}
use kalam_network.Messaging.Conversations.Create.{
  all_known, is_participant, find_direct, find_requested, check_request, create_new, create_or_get,
  create_conversation,
}
use kalam_network.Messaging.Conversations.Create.Keeps.{
  Passes, check_request-Passes, Stores, create_new-Stores, create_conversation-passed,
  create_conversation-refused, create_conversation-IsManaged,
}
use kalam_network.Messaging.Conversations.Create.Found.{
  Gives, find_direct_swap, direct_request, ArePeers, passed-ArePeers, found_again,
}
use kalam_network.Messaging.Conversations.Create.Stored.{
  HasFreshIds, stored_conversation, stored, store_conversation-stored, stored_found, stored_peers,
  stored_conversation_id,
}

find_direct_same :
    (a b : Text) (s s' : ConvState)
    → s'.members ≡ s.members
    → s'.conversations ≡ s.conversations
    → find_direct a b s' ≡ find_direct a b s
unfolding find_direct
find_direct_same a b s s' m c =
    ap
      (λ l.
        find_one
          (λ (r : Conversation).
            (is_participant r.id a l && is_participant r.id b l) && is_direct r.conversation_type)
          s'.conversations)
      m
    ∙ ap
        (λ l.
          find_one
            (λ (r : Conversation).
              (is_participant r.id a s.members && is_participant r.id b s.members)
              && is_direct r.conversation_type)
            l)
        c

direct_passed :
    (env : ConvEnv) (a b : Text) (s : ConvState)
    → check_request a (direct_request b) s ≡ (ok tt, s)
    → create_conversation env a (direct_request b) s
      ≡ create_or_get env a (direct_request b) (find_direct a b s) s
unfolding find_requested
direct_passed env a b s e = create_conversation-passed env a (direct_request b) s e

direct_new :
    (env : ConvEnv) (a b : Text) (s : ConvState)
    → create_or_get env a (direct_request b) none s ≡ create_new env a (direct_request b) s
unfolding create_or_get
direct_new env a b s = refl

-- Two outcomes of one call are the same.
same_view :
    (v v' : ConversationView) (s s' : ConvState)
    → ◌≡◌ {A = Result ConvError ConversationView × ConvState} (ok v, s) (ok v', s')
    → (v ≡ v') × (s ≡ s')
same_view v v' s s' e = (ground arith, ground arith)

-- The conversation that a call has answered with is found in the state after it.
abbrev IsFoundAfter : Text → Text → ConvState → ConversationView → ConvState → Type 0
IsFoundAfter a b s v s1 =
    (s1.peers ≡ s.peers) × ((c : Conversation) × ((find_direct a b s1 ≡ some c) × (c.id ≡ v.id)))

module _ (env : ConvEnv) (a b : Text) (s : ConvState) (single : HasSingleRows s.members)
    (fresh : HasFreshIds env s) (v : ConversationView) (s1 : ConvState) where
  new_found :
      ArePeers a b s
      → find_direct a b s ≡ none
      → create_new env a (direct_request b) s ≡ (ok v, s1)
      → IsFoundAfter a b s v s1
  new_found peers absent e = by_storing (create_new-Stores env a (direct_request b) s)
    where
      by_storing :
          Stores env a (direct_request b) s (create_new env a (direct_request b) s)
          → IsFoundAfter a b s v s1
      by_storing (inl ((x, failed), same)) = absurd (ground arith)
      by_storing (inr (x, (s', ((m, (c, p)), stores)))) =
          let ends = sym e ∙ stores ∙ store_conversation-stored env a b x s' peers.0 in
          let at : stored env a b x s' ≡ s1 = sym (ap (λ q. q.1) ends) in
          subst (IsFoundAfter a b s v) at (
            stored_peers env a b x s' ∙ p,
            (
              stored_conversation env a b x s',
              (
                stored_found env a b x s'
                    (λ n. ap (any (λ r. Conversation.id r == env.uuid n)) c ∙ fresh n)
                    (find_direct_same a b s s' m c ∙ absent),
                stored_conversation_id env a b x s'
                    ∙ sym (ap ConversationView.id (same_view _ _ _ _ ends).0),
              ),
            ),
          )

  old_found :
      (c : Conversation)
      → ArePeers a b s
      → find_direct a b s ≡ some c
      → create_conversation env a (direct_request b) s ≡ (ok v, s1)
      → IsFoundAfter a b s v s1
  old_found c peers h e =
      let (v', (e', same)) = found_again env a b s c peers single h in
      let (views, states) = same_view v' v s s1 (sym e' ∙ e) in
      subst (IsFoundAfter a b s v) states (refl, (c, (h, sym same ∙ ap ConversationView.id views)))

  call_found :
      create_conversation env a (direct_request b) s ≡ (ok v, s1)
      → ArePeers a b s × IsFoundAfter a b s v s1
  call_found e = by_guards (check_request-Passes a (direct_request b) s)
    where
      by_found :
          check_request a (direct_request b) s ≡ (ok tt, s)
          → (found : Option Conversation) → find_direct a b s ≡ found
          → IsFoundAfter a b s v s1
      by_found passed none h = new_found (passed-ArePeers a b s passed) h (
          sym (
            direct_passed env a b s passed
            ∙ ap (λ f. create_or_get env a (direct_request b) f s) h
            ∙ direct_new env a b s)
          ∙ e)
      by_found passed (some c) h = old_found c (passed-ArePeers a b s passed) h e

      by_guards :
          Passes a (direct_request b) s (check_request a (direct_request b) s)
          → ArePeers a b s × IsFoundAfter a b s v s1
      by_guards (inl (x, refused)) =
          absurd (ground (arith, create_conversation-refused env a (direct_request b) s x refused))
      by_guards (inr (passed, n)) =
          (passed-ArePeers a b s passed, by_found passed (find_direct a b s) refl)

swapped_peers :
    (a b : Text) (s s1 : ConvState)
    → s1.peers ≡ s.peers
    → ArePeers a b s
    → ArePeers a b s1 × ArePeers b a s1
unfolding all_known
swapped_peers a b s s1 same (differ, known) =
    let there = subst (λ (l : List Peer). all_known l (a ∷ b ∷ []) ≡ true) (sym same) known in
    ((differ, there), (ground arith, ground arith))

-- If an account asks for a direct conversation with another and is answered, then, where no account
-- has two rows in one conversation, the other conditions of `IsManaged` hold and the identifiers
-- that are drawn are new, a second request of the same account, and a request of the other account
-- for one with the first, are answered with the conversation of the same identifier and change
-- nothing.
pub direct_again :
    (env : ConvEnv) (a b : Text) (s : ConvState) (v : ConversationView) (s1 : ConvState)
    → IsManaged s.members
    → HasFreshIds env s
    → create_conversation env a (direct_request b) s ≡ (ok v, s1)
    → Gives v.id s1 (create_conversation env a (direct_request b) s1)
      × Gives v.id s1 (create_conversation env b (direct_request a) s1)
direct_again env a b s v s1 managed fresh e =
    let (peers, (same, (c, (found, id)))) = call_found env a b s managed.0 fresh v s1 e in
    let (there, swapped) = swapped_peers a b s s1 same peers in
    let kept =
      subst (λ (z : ConvState). IsManaged z.members) (ap (λ p. p.1) e)
        (create_conversation-IsManaged env a (direct_request b) s managed) in
    let again = found_again env a b s1 c there kept.0 found in
    let other = found_again env b a s1 c swapped kept.0 (find_direct_swap b a s1 ∙ found) in
    (
      subst (λ k. Gives k s1 (create_conversation env a (direct_request b) s1)) id again,
      subst (λ k. Gives k s1 (create_conversation env b (direct_request a) s1)) id other,
    )
