-- ===== src/Social/Graph.antt =====
-- packages/api/src/modules/social/services/social-graph.service.ts: who follows whom, the counts, the
-- cache and the synchronization with the topic. Answers of Redis and of the mirror node are
-- parameters, by the number of readings of the environment made before.
pub mod Counts
pub mod Sync
pub mod Cache
pub mod Coherence
pub mod History
pub mod Reads
use kalam_network.Prelude.{
  ℕ, ◌+◌, Text, is_truthy, is_present, Bool, true, false, ◌&&◌, not, Option, none, some, List, [],
  ◌∷◌, ◌++◌, ◌==◌, if◌then◌else◌, is_some,
}
use kalam_network.Exec.{
  Result, ok, err, Exec, pure, throw, gets, or_throw, throw_if, modify, when, ◌>>=◌, ◌>>◌,
}
use kalam_network.Repo.{find_one, find_key, count, delete_where, save, column_is}
use kalam_network.Auth.Users.{Account}

-- `SocialFollowEntity`, whose primary key is the pair of accounts.
pub record Follow : Type 0 where
  pub follower : Text
  pub following : Text
  pub hcs_sequence_number : ℕ

pub record FollowerCount : Type 0 where
  pub account_id : Text
  pub follower_count : ℕ
  pub following_count : ℕ

pub data EventType : Type 0 where
  follow_event unfollow_event other_event : EventType

-- `HcsSocialGraphEvent`: an event that has an actor and a target, as the service itself submits
-- them. The JSON of a message is not checked for them; messages that lack one are not modelled.
pub record GraphEvent : Type 0 where
  pub type : EventType
  pub actor : Text
  pub target : Text

-- A message of the topic: `event` is missing if it cannot be decoded.
pub record TopicMessage : Type 0 where
  pub sequence_number : ℕ
  pub event : Option GraphEvent

pub data SocialError : Type 0 where
  topic_not_configured actor_not_found self_follow self_unfollow target_not_found : SocialError
  already_following not_following sync_failed : SocialError

-- The keys `social:is_following:` and `social:user_stats:`.
pub record SocialCache : Type 0 where
  pub following : Text → Text → Option Bool
  pub user_stats : Text → Option (ℕ × ℕ)

pub record SocialState : Type 0 where
  pub users : List Account
  pub follows : List Follow
  pub counts : List FollowerCount
  pub cache : SocialCache
  pub submitted : List GraphEvent
  pub notified : List (Text × Text)
  pub readings : ℕ

pub record SocialEnv : Type 0 where
  pub topic : Option Text
  pub redis_answers : ℕ → Bool
  pub messages : ℕ → ℕ → Option (List TopicMessage)

abbrev pub Social : Type 0 → Type 0
Social A = Exec SocialState SocialError A

abbrev pub is_pair : Text → Text → Follow → Bool
is_pair a t f = f.follower == a && f.following == t

abbrev pub find_pair : Text → Text → List Follow → Option Follow
find_pair a t follows = find_one (is_pair a t) follows

-- `save` of a new follow: its key is known to be free.
abbrev pub add_follow : Follow → List Follow → List Follow
add_follow f follows = follows ++ f ∷ []

-- `rebuildCountsForAccount`
unfoldable pub rebuild_counts : Text → SocialState → SocialState
rebuild_counts account s = record s {
  counts =
      save FollowerCount.account_id
        (record {
          account_id = account;
          follower_count = count (λ f. f.following == account) s.follows;
          following_count = count (λ f. f.follower == account) s.follows;
        })
        s.counts;
}

-- `updateFollowerCounts`
unfoldable pub update_follower_counts : Text → Text → SocialState → SocialState
update_follower_counts a t s = rebuild_counts t (rebuild_counts a s)

abbrev pub has_account : Option Account → Bool
has_account none = false
has_account (some u) = is_present u.hedera_account_id

-- The user of the token, or else the user of the account that the token names.
unfoldable pub resolve_actor : Text → Option Text → SocialState → Option Account
resolve_actor user_id none s = find_key Account.id user_id s.users
resolve_actor user_id (some account) s =
    let found = find_key Account.id user_id s.users in
    let fallback = find_one (λ u. column_is u.hedera_account_id account) s.users in
    if not (has_account found) && is_truthy account && has_account fallback then fallback else found

-- `follower.hederaAccountId`, which must not be empty.
unfoldable pub actor_account : Option Account → Option Text
actor_account none = none
actor_account (some u) = if is_present u.hedera_account_id then u.hedera_account_id else none

module _ (env : SocialEnv) where
  -- `safeRedisDel`: a failure is only logged.
  unfoldable pub redis_del : (SocialCache → SocialCache) → Social Unit
  redis_del f s = (
    ok tt,
    record s {
      cache = if env.redis_answers s.readings then f s.cache else s.cache;
      readings = s.readings + 1;
    },
  )

  -- `clearFollowCache`
  unfoldable pub clear_follow_cache : Text → Text → Social Unit
  clear_follow_cache a t = do
    redis_del
        (λ c. record c { following = λ x y. if x == a && y == t then none else c.following x y })
    redis_del (λ c. record c { user_stats = λ x. if x == a then none else c.user_stats x })
    redis_del (λ c. record c { user_stats = λ x. if x == t then none else c.user_stats x })

  unfoldable pub submit_event : EventType → Text → Text → Social Unit
  submit_event type a t = modify (λ s. record s {
    submitted = s.submitted ++ record { type = type; actor = a; target = t } ∷ [];
  })

  -- What a follow does once its guards have passed.
  unfoldable pub index_follow : Text → Text → Social Unit
  index_follow a t = do
    modify (λ s. record s {
      follows =
          add_follow (record { follower = a; following = t; hcs_sequence_number = 0 }) s.follows;
    })
    submit_event follow_event a t
    modify (update_follower_counts a t)
    clear_follow_cache a t
    modify (λ s. record s { notified = s.notified ++ (t, a) ∷ [] })

  -- `follow`
  unfoldable pub follow : Text → Text → Option Text → Social Unit
  follow user_id target jwt_account = do
    throw_if (not (is_present env.topic)) topic_not_configured
    actor ← gets (λ s. actor_account (resolve_actor user_id jwt_account s))
    a ← or_throw actor actor_not_found
    throw_if (a == target) self_follow
    found ← gets (λ s. find_one (λ u. column_is u.hedera_account_id target) s.users)
    throw_if (not (is_some found)) target_not_found
    existing ← gets (λ s. find_pair a target s.follows)
    throw_if (is_some existing) already_following
    index_follow a target

  unfoldable pub index_unfollow : Text → Text → Social Unit
  index_unfollow a t = do
    modify (λ s. record s { follows = delete_where (is_pair a t) s.follows })
    submit_event unfollow_event a t
    modify (update_follower_counts a t)
    clear_follow_cache a t

  -- `unfollow`
  unfoldable pub unfollow : Text → Text → Option Text → Social Unit
  unfollow user_id target jwt_account = do
    throw_if (not (is_present env.topic)) topic_not_configured
    actor ← gets (λ s. actor_account (resolve_actor user_id jwt_account s))
    a ← or_throw actor actor_not_found
    throw_if (a == target) self_unfollow
    existing ← gets (λ s. find_pair a target s.follows)
    throw_if (not (is_some existing)) not_following
    index_unfollow a target
