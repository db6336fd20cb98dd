-- ===== src/Messaging/Sync/Covered.antt =====
-- After a synchronization all messages of the mirror node are in the table.
use mathlib.Core.Path.{subst}
use kalam_network.Prelude.{
  ℕ, ◌+◌, ◌≡◌, ◌≤◌, max, refl, sym, ap, ◌∙◌, Text, Bool, true, false, ◌&&◌, Option, none, some,
  List, [], ◌∷◌, ◌==◌, All, arith, inl, inr, Bool-cases, Option-cases,
}
use kalam_network.Repo.{find_one, find_key, any, count}
use kalam_network.Repo.Laws.{find_one_sound}
use kalam_network.Repo.Keyed.{find_by_own_key}
use kalam_network.Exec.{Result, ok, err}
use kalam_network.Messaging.Conversations.{Conversation}
use kalam_network.Messaging.Sync.{
  finish_sync, added, SyncError, finish_with, note_highest, sync_from_mirror_node, Message,
  MirrorMessage, SyncState, SyncEnv, is_at, find_pending, sender_of, new_message, index_message,
  sync_message, sync_loop,
}
use kalam_network.Messaging.Sync.Rows.{
  any_updated, any_spared, any_saved, any_beside, any_key_saved, count_key_saved, ids_updated,
  any_id_updated, zero_missing,
}

-- The identifiers are unique, and those of the next rows not in use.
abbrev pub HasIds : SyncEnv → SyncState → Type 0
HasIds env s =
    ((k : Text) → count (λ m. Message.id m == k) s.messages ≤ 1)
    × ((n : ℕ) → s.readings ≤ n → any (λ m. Message.id m == env.uuid n) s.messages ≡ false)

abbrev pub HasDistinctUuids : SyncEnv → Type 0
HasDistinctUuids env = (m n : ℕ) → env.uuid m ≡ env.uuid n → m ≡ n

module _ (env : SyncEnv) (t : Text) where
  abbrev Contains : ℕ → SyncState → Type 0
  Contains n s = any (is_at t n) s.messages ≡ true

  module _ (m : MirrorMessage) (s : SyncState) (ids : HasIds env s) where
    index_holds :
        (pending : Option Message)
        → find_pending t (sender_of m) s.messages ≡ pending
        → Contains m.sequence_number (index_message env t m pending s)
    unfolding index_message find_pending
    index_holds none e =
        any_saved Message.id (is_at t m.sequence_number) (new_message env t (env.uuid s.readings) m)
          s.messages (ground arith)
    index_holds (some p) e =
        let fits = find_one_sound (λ r. is_at t 0 r && r.sender == sender_of m) s.messages p e in
        any_updated (λ r. is_at t 0 r && r.sender == sender_of m) (λ r. Message.id r == p.id)
          (is_at t m.sequence_number) (λ r. record r { sequence_number = m.sequence_number })
          s.messages p e (ground arith) (ground arith)

    same_row :
        (p r : Message)
        → (c q : Message → Bool) → find_one c s.messages ≡ some p
        → find_one q s.messages ≡ some r
        → r.id ≡ p.id
        → r ≡ p
    same_row p r c q found e same =
        let by_p = find_by_own_key Message.id c s.messages p found (ids.0 p.id) in
        let by_r = find_by_own_key Message.id q s.messages r e (ids.0 r.id) in
        let one : ◌≡◌ {A = Option Message} (some r) (some p) =
          sym by_r ∙ ap (λ k. find_key Message.id k s.messages) same ∙ by_p in
        ground (arith, one)

    -- The row at a number that is not zero is not the pending one.
    other_row :
        (n : ℕ) (p r : Message)
        → find_pending t (sender_of m) s.messages ≡ some p
        → find_one (is_at t n) s.messages ≡ some r
        → (n == 0) ≡ false
        → (r.id == p.id) ≡ false
    unfolding find_pending
    other_row n p r e f z = elim (Bool-cases (r.id == p.id)) [
      | inr d ↦ d
      | inl d ↦
          let same =
            same_row p r (λ x. is_at t 0 x && x.sender == sender_of m) (is_at t n) e f
              (ground arith) in
          absurd (
            ground (
              arith,
              ap Message.sequence_number same,
              find_one_sound (λ x. is_at t 0 x && x.sender == sender_of m) s.messages p e,
              find_one_sound (is_at t n) s.messages r f,
            ))
    ]

    apart :
        HasDistinctUuids env
        → (n : ℕ) → s.readings + 1 ≤ n
        → (env.uuid s.readings == env.uuid n) ≡ false
    apart distinct n le = elim (Bool-cases (env.uuid s.readings == env.uuid n)) [
      | inr f ↦ f
      | inl e ↦ absurd (omega (arith, distinct s.readings n (ground arith), le))
    ]

    index_keeps :
        (n : ℕ) (pending : Option Message)
        → find_pending t (sender_of m) s.messages ≡ pending
        → (n == 0) ≡ false
        → Contains n s
        → Contains n (index_message env t m pending s)
    unfolding index_message find_pending
    index_keeps n none e z h =
        any_beside Message.id (is_at t n) (new_message env t (env.uuid s.readings) m) s.messages
          (ids.1 s.readings (omega arith)) h
    index_keeps n (some p) e z h = elim (Option-cases (find_one (is_at t n) s.messages)) [
      | inl f ↦ absurd (ground arith)
      | inr (r, f) ↦
          any_spared (λ x. Message.id x == p.id) (is_at t n)
            (λ x. record x { sequence_number = m.sequence_number }) s.messages r f
            (other_row n p r e f z)
    ]

    index_ids :
        HasDistinctUuids env
        → (pending : Option Message) → HasIds env (index_message env t m pending s)
    unfolding index_message
    index_ids distinct none = (
      (λ k. ground (
        arith,
        count_key_saved Message.id k (new_message env t (env.uuid s.readings) m) s.messages
            (ids.1 s.readings (omega arith)),
        zero_missing (env.uuid s.readings) s.messages (ids.1 s.readings (omega arith)),
        ids.0 k,
      )),
      λ n le.
          any_key_saved Message.id (env.uuid n) (new_message env t (env.uuid s.readings) m)
            s.messages (apart distinct n le)
          ∙ ids.1 n (omega (arith, le)),
    )
    index_ids distinct (some p) = (
      (λ k.
          subst (λ c. c ≤ 1)
            (sym (ids_updated (λ r. Message.id r == p.id) m.sequence_number k s.messages))
            (ids.0 k)),
      λ n le.
          any_id_updated (λ r. Message.id r == p.id) m.sequence_number (env.uuid n) s.messages
          ∙ ids.1 n le,
    )

    message_holds : Contains m.sequence_number (sync_message env t m s)
    unfolding sync_message
    message_holds = elim (Bool-cases (any (is_at t m.sequence_number) s.messages)) [
      | inl h ↦ ground arith
      | inr h ↦ rw h (index_holds (find_pending t (sender_of m) s.messages) refl)
    ]

    message_stays : (n : ℕ) → (n == 0) ≡ false → Contains n s → Contains n (sync_message env t m s)
    unfolding sync_message
    message_stays n z here = elim (Bool-cases (any (is_at t m.sequence_number) s.messages)) [
      | inl h ↦ ground arith
      | inr h ↦ rw h (index_keeps n (find_pending t (sender_of m) s.messages) refl z here)
    ]

    message_ids : HasDistinctUuids env → HasIds env (sync_message env t m s)
    unfolding sync_message
    message_ids distinct = elim (Bool-cases (any (is_at t m.sequence_number) s.messages)) [
      | inl h ↦ rw h ids
      | inr h ↦ rw h (index_ids distinct (find_pending t (sender_of m) s.messages))
    ]

  -- The loop keeps what is in the table under a number.
  loop_keeps :
      (ms : List MirrorMessage) (highest fresh : ℕ) (s : SyncState) (n : ℕ)
      → HasDistinctUuids env
      → HasIds env s
      → (n == 0) ≡ false
      → Contains n s
      → Contains n (sync_loop env t ms highest fresh s).0
  unfolding sync_loop
  loop_keeps [] highest fresh s n distinct ids z here = here
  loop_keeps (m ∷ ms) highest fresh s n distinct ids z here =
      loop_keeps ms (max highest m.sequence_number) (fresh + added env t m s)
        (sync_message env t m s) n distinct (message_ids m s ids distinct) z
        (message_stays m s ids n z here)

  -- The loop puts every message into the table.
  loop_holds :
      (ms : List MirrorMessage) (highest fresh : ℕ) (s : SyncState)
      → HasDistinctUuids env
      → HasIds env s
      → All (λ m. (MirrorMessage.sequence_number m == 0) ≡ false) ms
      → All
          (λ m. Contains (MirrorMessage.sequence_number m) (sync_loop env t ms highest fresh s).0)
          ms
  unfolding sync_loop
  loop_holds [] highest fresh s distinct ids z = tt
  loop_holds (m ∷ ms) highest fresh s distinct ids (z, zs) = (
    loop_keeps ms (max highest m.sequence_number) (fresh + added env t m s) (sync_message env t m s)
        m.sequence_number distinct (message_ids m s ids distinct) z (message_holds m s ids),
    loop_holds ms (max highest m.sequence_number) (fresh + added env t m s) (sync_message env t m s)
        distinct (message_ids m s ids distinct) zs,
  )

  loop_rises :
      (ms : List MirrorMessage) (highest fresh : ℕ) (s : SyncState)
      → highest ≤ (sync_loop env t ms highest fresh s).1.0
  unfolding sync_loop
  loop_rises [] highest fresh s = omega arith
  loop_rises (m ∷ ms) highest fresh s = omega (
    arith,
    loop_rises ms (max highest m.sequence_number) (fresh + added env t m s)
        (sync_message env t m s),
  )

  loop_highest :
      (ms : List MirrorMessage) (highest fresh : ℕ) (s : SyncState)
      → All (λ m. MirrorMessage.sequence_number m ≤ (sync_loop env t ms highest fresh s).1.0) ms
  unfolding sync_loop
  loop_highest [] highest fresh s = tt
  loop_highest (m ∷ ms) highest fresh s = (
    omega (
      arith,
      loop_rises ms (max highest m.sequence_number) (fresh + added env t m s)
          (sync_message env t m s),
    ),
    loop_highest ms (max highest m.sequence_number) (fresh + added env t m s)
        (sync_message env t m s),
  )

-- All messages of the answer are in the table, and the number that is returned is not below that of
-- any of them.
abbrev pub Covers : Text → List MirrorMessage → Result SyncError ℕ × SyncState → Type 0
Covers t ms (ok highest, s') =
    All (λ m. any (is_at t (MirrorMessage.sequence_number m)) s'.messages ≡ true) ms
    × All (λ m. MirrorMessage.sequence_number m ≤ highest) ms
Covers t ms (err e, s') = ⊥

note_frame :
    (env : SyncEnv) (t : Text) (c : Conversation) (highest fresh : ℕ) (s : SyncState)
    → (note_highest env t c highest fresh s).messages ≡ s.messages
unfolding note_highest
note_frame env t c highest fresh s = ground arith

finished :
    (env : SyncEnv) (t : Text) (after_sequence : ℕ) (s : SyncState) (c : Conversation)
    (ms : List MirrorMessage)
    → find_one (λ x. Conversation.hcs_topic_id x == t) s.conversations ≡ some c
    → env.topic_messages s.readings t after_sequence ≡ some ms
    → sync_from_mirror_node env t after_sequence s
      ≡ finish_sync env t c
          (sync_loop env t ms after_sequence 0 (record s { readings = s.readings + 1 }))
unfolding sync_from_mirror_node finish_with
finished env t after_sequence s c ms known answer = ground arith

-- If the topic is that of a conversation, the mirror node answers with messages whose numbers are
-- not zero, no two rows of the table have the same identifier, and the identifiers that are drawn
-- are new and distinct, then the synchronization succeeds, the table has a row of the topic under
-- the number of every one of these messages, and the number that is returned is not below any of
-- theirs.
pub sync_from_mirror_node-Covers :
    (env : SyncEnv) (t : Text) (after_sequence : ℕ) (s : SyncState) (c : Conversation)
    (ms : List MirrorMessage)
    → HasDistinctUuids env
    → HasIds env s
    → find_one (λ x. Conversation.hcs_topic_id x == t) s.conversations ≡ some c
    → env.topic_messages s.readings t after_sequence ≡ some ms
    → All (λ m. (MirrorMessage.sequence_number m == 0) ≡ false) ms
    → Covers t ms (sync_from_mirror_node env t after_sequence s)
sync_from_mirror_node-Covers env t after_sequence s c ms distinct ids known answer z =
    let s1 = record s { readings = s.readings + 1 } in
    let done = sync_loop env t ms after_sequence 0 s1 in
    subst (Covers t ms) (sym (finished env t after_sequence s c ms known answer)) (
      subst (λ l. All (λ m. any (is_at t (MirrorMessage.sequence_number m)) l ≡ true) ms)
          (sym (note_frame env t c done.1.0 done.1.1 done.0))
          (loop_holds env t ms after_sequence 0 s1 distinct
            (ids.0, λ n le. ids.1 n (omega (arith, le))) z),
      loop_highest env t ms after_sequence 0 s1,
    )
