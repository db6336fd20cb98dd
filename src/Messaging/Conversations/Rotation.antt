-- ===== src/Messaging/Conversations/Rotation.antt =====
-- After a rotation the accounts that hold the key are the active members.
use mathlib.Core.Path.{subst}
use kalam_network.Prelude.{
  ℕ, ◌+◌, ◌≡◌, ◌⊎◌, refl, sym, ap, ◌∙◌, Text, Bool, true, false, ◌&&◌, ◌||◌, not, Option, none,
  some, List, [], ◌∷◌, ◌++◌, ◌==◌, is_some, arith, inl, inr, Bool-cases, Option-cases,
}
use kalam_network.Exec.{Result, ok, err, Result-cases}
use kalam_network.Repo.{find_one, find_key, any, column_is}
use kalam_network.Repo.Any.{any_never, any_split, any-save_by}
use kalam_network.Repo.Laws.{find_key-save}
use kalam_network.Messaging.Conversations.{
  mentions, KeyMap, KeyExchange, Conversation, ConversationMember, Peer, ConvState, ConvEnv,
  ConvError, is_active, active_accounts, set_key, public_key_of, add_public_key,
  collect_encryption_keys, seal_keys, exchange_keys, rotated, save_conversation, exchange_collected,
  rotate_for, rotate_keys,
}

abbrev pub has_key : Text → KeyMap → Bool
has_key x keys = any (λ e. e.0 == x) keys

has_key-set_key :
    (x a k : Text) (keys : KeyMap) → has_key x (set_key a k keys) ≡ a == x || has_key x keys
unfolding set_key
has_key-set_key x a k keys = elim (Bool-cases (a == x)) [
  | inl t ↦ ground (arith, any-save_by (λ e. e.0 == a) (λ e. e.0 == x) (a, k) keys)
  | inr f ↦ ground (
    arith,
    any-save_by (λ e. e.0 == a) (λ e. e.0 == x) (a, k) keys,
    any_split (λ e. e.0 == a) (λ e. e.0 == x) keys,
    any_never (λ (e : Text × Text). e.0 == x && e.0 == a) (λ e. apart e f) keys,
  )
]
  where
    apart : (e : Text × Text) → (a == x) ≡ false → (e.0 == x && e.0 == a) ≡ false
    apart e f = ground arith

-- Collecting the public keys takes those of all the accounts.
collect_mentions :
    (peers : List Peer) (accounts : List Text) (keys : KeyMap) (x : Text)
    → collect_encryption_keys peers accounts ≡ ok keys
    → has_key x keys ≡ mentions x accounts
unfolding collect_encryption_keys add_public_key find_one
collect_mentions peers [] keys x e = ground arith
collect_mentions peers (a ∷ more) keys x e =
    elim (Result-cases (public_key_of (find_one (λ u. column_is (Peer.account u) a) peers))) [
      | inl (k, h) ↦ elim (Result-cases (collect_encryption_keys peers more)) [
        | inl (rest, r) ↦
            ground (arith, has_key-set_key x a k rest, collect_mentions peers more rest x)
        | inr (f, r) ↦ ground arith
      ]
      | inr (f, h) ↦ ground arith
    ]

seal_mentions :
    (box : Text → Option Text) (keys sealed : KeyMap) (x : Text)
    → seal_keys box keys ≡ some sealed
    → has_key x sealed ≡ has_key x keys
unfolding seal_keys find_one
seal_mentions box [] sealed x e = ground arith
seal_mentions box ((a, k) ∷ more) sealed x e = elim (Option-cases (box k)) [
  | inl b ↦ ground arith
  | inr (c, b) ↦ elim (Option-cases (seal_keys box more)) [
    | inl n ↦ ground arith
    | inr (rest, n) ↦ ground (arith, seal_mentions box more rest x)
  ]
]

active_mentions :
    (c x : Text) (members : List ConversationMember)
    → mentions x (active_accounts c members) ≡ any (λ m. is_active c m && m.account == x) members
unfolding active_accounts find_one
active_mentions c x [] = refl
active_mentions c x (m ∷ ms) = ground (arith, active_mentions c x ms)

-- The exchange was submitted, and its keys are those of the active members.
abbrev pub IsRotated : ConvState → Text → Conversation → ConvState → Option Conversation → Type 0
IsRotated s conversation_id c s' none = ⊥
IsRotated s conversation_id c s' (some stored) =
    (s'.submitted
      ≡ s.submitted
        ++ record {
          topic = c.hcs_topic_id;
          keys = stored.encrypted_keys;
          key_id = stored.current_key_id;
        }
          ∷ [])
    × ((x : Text)
        → has_key x stored.encrypted_keys
          ≡ any (λ m. is_active conversation_id m && m.account == x) s.members)

-- Nothing was submitted or stored.
abbrev pub IsUnrotated : ConvState → ConvState → Type 0
IsUnrotated s s' = (s'.submitted ≡ s.submitted) × (s'.conversations ≡ s.conversations)

-- The exchange can be made and is accepted.
abbrev pub can_exchange : ConvEnv → ℕ → Result ConvError KeyMap → Bool
can_exchange env n (err e) = false
can_exchange env n (ok keys) = is_some (seal_keys (env.seal n) keys) && env.submits (n + 1)

-- Some member is active, all active members have good keys, and the exchange is accepted.
abbrev pub can_rotate : ConvEnv → Text → ConvState → Bool
can_rotate env conversation_id s =
    any (is_active conversation_id) s.members
    && can_exchange env s.readings
        (collect_encryption_keys s.peers (active_accounts conversation_id s.members))

-- A rotation happens exactly if it can, and what it leaves behind.
abbrev pub IsRotation : Bool → ConvState → Text → Conversation → ConvState → Type 0
IsRotation can s conversation_id c s' =
    ((can ≡ false) × IsUnrotated s s')
    ⊎ ((can ≡ true)
        × IsRotated s conversation_id c s' (find_key Conversation.id c.id s'.conversations))

abbrev is_empty : List Text → Bool
is_empty [] = true
is_empty (a ∷ more) = false

active_nonempty :
    (c : Text) (members : List ConversationMember)
    → not (is_empty (active_accounts c members)) ≡ any (is_active c) members
unfolding active_accounts find_one
active_nonempty c [] = refl
active_nonempty c (m ∷ ms) = ground (arith, active_nonempty c ms)

find_rotated :
    (c : Conversation) (x : KeyExchange) (s : ConvState)
    → find_key Conversation.id c.id (rotated c x s).conversations
      ≡ some (record c { encrypted_keys = x.keys; current_key_id = x.key_id })
unfolding rotated save_conversation
find_rotated c x s = ground (
  arith,
  find_key-save Conversation.id c.id
      (record c { encrypted_keys = x.keys; current_key_id = x.key_id }) s.conversations,
)

rotated-IsRotated :
    (s s1 : ConvState) (conversation_id : Text) (c : Conversation) (keys : KeyMap) (key_id : Text)
    → s1.submitted ≡ s.submitted
    → ((x : Text)
        → has_key x keys ≡ any (λ m. is_active conversation_id m && m.account == x) s.members)
    → let x : KeyExchange = record { topic = c.hcs_topic_id; keys = keys; key_id = key_id } in
      IsRotated s conversation_id c
        (rotated c x s1)
        (find_key Conversation.id c.id (rotated c x s1).conversations)
unfolding rotated save_conversation
rotated-IsRotated s s1 conversation_id c keys key_id same held =
    let x : KeyExchange = record { topic = c.hcs_topic_id; keys = keys; key_id = key_id } in
    subst (IsRotated s conversation_id c (rotated c x s1)) (sym (find_rotated c x s1))
      (ap (λ l. l ++ x ∷ []) same, held)

module _ (env : ConvEnv) (conversation_id : Text) (c : Conversation) (s : ConvState) where
  keys_held :
      (keys sealed : KeyMap)
      → collect_encryption_keys s.peers (active_accounts conversation_id s.members) ≡ ok keys
      → seal_keys (env.seal s.readings) keys ≡ some sealed
      → (x : Text)
      → has_key x sealed ≡ any (λ m. is_active conversation_id m && m.account == x) s.members
  keys_held keys sealed e n x =
      seal_mentions (env.seal s.readings) keys sealed x n
      ∙ collect_mentions s.peers (active_accounts conversation_id s.members) keys x e
      ∙ active_mentions conversation_id x s.members

  exchange_keys-IsRotation :
      (keys : KeyMap)
      → collect_encryption_keys s.peers (active_accounts conversation_id s.members) ≡ ok keys
      → IsRotation
          (can_exchange env s.readings (ok keys))
          s
          conversation_id
          c
          (exchange_keys env c keys s)
  unfolding exchange_keys
  exchange_keys-IsRotation keys e = elim (Option-cases (seal_keys (env.seal s.readings) keys)) [
    | inl n ↦ inl (ground arith, (ground arith, ground arith))
    | inr (sealed, n) ↦ elim (Bool-cases (env.submits (s.readings + 1))) [
      | inl t ↦
          let s1 = record s { readings = s.readings + 2 } in
          let x : KeyExchange = record {
            topic = c.hcs_topic_id;
            keys = sealed;
            key_id = env.uuid s.readings;
          } in
          let p : rotated c x s1 ≡ exchange_keys env c keys s = ground arith in
          subst (IsRotation (can_exchange env s.readings (ok keys)) s conversation_id c) p (
            inr (
              ground arith,
              rotated-IsRotated s s1 conversation_id c sealed (env.uuid s.readings) refl
                  (keys_held keys sealed e n),
            ))
      | inr f ↦ inl (ground arith, (ground arith, ground arith))
    ]
  ]

  exchange_collected-IsRotation :
      (r : Result ConvError KeyMap)
      → collect_encryption_keys s.peers (active_accounts conversation_id s.members) ≡ r
      → IsRotation
          (can_exchange env s.readings r)
          s
          conversation_id
          c
          (exchange_collected env c r s)
  unfolding exchange_collected
  exchange_collected-IsRotation (err e) h = inl (refl, (refl, refl))
  exchange_collected-IsRotation (ok keys) h = exchange_keys-IsRotation keys h

  rotate_for-IsRotation :
      (accounts : List Text)
      → active_accounts conversation_id s.members ≡ accounts
      → IsRotation
          (not (is_empty accounts)
            && can_exchange env s.readings (collect_encryption_keys s.peers accounts))
          s
          conversation_id
          c
          (rotate_for env c accounts s)
  unfolding rotate_for
  rotate_for-IsRotation [] h = inl (refl, (refl, refl))
  rotate_for-IsRotation (a ∷ more) h =
      exchange_collected-IsRotation (collect_encryption_keys s.peers (a ∷ more))
        (ap (collect_encryption_keys s.peers) h)

  -- A rotation of the keys is made exactly if some member is active, every active member has a
  -- public key that can be sealed for, and the topic accepts the exchange. If it is made, one
  -- exchange is submitted, the conversation is stored with the keys and the key identifier of that
  -- exchange, and an account has a key in it exactly if it is an active member. Otherwise nothing
  -- is submitted and no conversation changes.
  pub rotate_keys-IsRotation :
      IsRotation
        (can_rotate env conversation_id s)
        s
        conversation_id
        c
        (rotate_keys env c conversation_id s)
  unfolding rotate_keys
  rotate_keys-IsRotation =
      subst
        (λ b.
          IsRotation
            (b
              && can_exchange env s.readings
                  (collect_encryption_keys s.peers (active_accounts conversation_id s.members)))
            s conversation_id c (rotate_keys env c conversation_id s))
        (active_nonempty conversation_id s.members)
        (rotate_for-IsRotation (active_accounts conversation_id s.members) refl)
