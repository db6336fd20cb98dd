-- ===== src/Social/Graph/Sync.antt =====
-- `syncSocialGraphFromMirrorNode`: the events of the topic, applied to the table of follows.
pub mod Fold
pub mod Rebuilt
use kalam_network.Prelude.{
  ℕ, ◌+◌, Text, is_present, Bool, true, false, ◌&&◌, ◌||◌, not, Option, none, some, List, [], ◌∷◌,
  ◌++◌, ◌==◌, if◌then◌else◌, is_some,
}
use kalam_network.Exec.{
  Result, ok, err, Exec, pure, throw, gets, or_throw, throw_if, modify, ◌>>=◌, ◌>>◌,
}
use kalam_network.Repo.{find_one, delete_where, count, save}
use kalam_network.Social.Graph.{
  Follow, GraphEvent, EventType, follow_event, unfollow_event, other_event, TopicMessage,
  SocialState, SocialEnv, SocialError, topic_not_configured, sync_failed, Social, is_pair,
  find_pair, add_follow, rebuild_counts,
}

-- The table, the accounts concerned in the order of insertion, and the number of events synced.
pub record Progress : Type 0 where
  pub follows : List Follow
  pub affected : List Text
  pub synced : ℕ

unfoldable pub contains : Text → List Text → Bool
contains a [] = false
contains a (b ∷ bs) = b == a || contains a bs

-- `affectedAccounts.add`
unfoldable pub insert : Text → List Text → List Text
insert a bs = if contains a bs then bs else bs ++ a ∷ []

-- What one event does. An event of another type does nothing.
unfoldable pub apply_event : ℕ → GraphEvent → Progress → Progress
apply_event seq event p = elim event.type [
  | follow_event ↦ if is_some (find_pair event.actor event.target p.follows) then p else record {
    follows =
        add_follow
          (record { follower = event.actor; following = event.target; hcs_sequence_number = seq })
          p.follows;
    affected = insert event.target (insert event.actor p.affected);
    synced = p.synced + 1;
  }
  | unfollow_event ↦
      if is_some (find_pair event.actor event.target p.follows)
      then record {
        follows = delete_where (is_pair event.actor event.target) p.follows;
        affected = insert event.target (insert event.actor p.affected);
        synced = p.synced + 1;
      }
      else p
  | other_event ↦ p
]

-- One message: one that cannot be decoded is logged and passed over.
abbrev pub apply_message : ℕ → Option GraphEvent → Progress → Progress
apply_message seq none p = p
apply_message seq (some event) p = apply_event seq event p

-- The loop over the messages.
unfoldable pub apply_messages : List TopicMessage → Progress → Progress
apply_messages [] p = p
apply_messages (m ∷ ms) p = apply_messages ms (apply_message m.sequence_number m.event p)

unfoldable pub rebuild_all : List Text → SocialState → SocialState
rebuild_all [] s = s
rebuild_all (a ∷ more) s = rebuild_all more (rebuild_counts a s)

unfoldable pub sync_messages : List TopicMessage → SocialState → SocialState × ℕ
sync_messages messages s =
    let p = apply_messages messages (record { follows = s.follows; affected = []; synced = 0 }) in
    (rebuild_all p.affected (record s { follows = p.follows }), p.synced)

-- The answer of the mirror node: the messages after the given one, or a failure.
unfoldable pub sync_answer : Option (List TopicMessage) → Social ℕ
sync_answer none s = (err sync_failed, s)
sync_answer (some []) s = (ok 0, s)
sync_answer (some (m ∷ ms)) s = let (s', synced) = sync_messages (m ∷ ms) s in (ok synced, s')

-- `syncSocialGraphFromMirrorNode`
unfoldable pub sync_social_graph : SocialEnv → ℕ → Social ℕ
sync_social_graph env after_sequence s =
    if not (is_present env.topic)
    then (err topic_not_configured, s)
    else sync_answer (env.messages s.readings after_sequence)
        (record s { readings = s.readings + 1 })
