-- ===== src/Social/Graph/Cache.antt =====
-- The reads that go through the cache, and when the cache is right.
use kalam_network.Prelude.{
  ℕ, ◌+◌, ◌≡◌, inl, inr, Text, Bool, ◌&&◌, Option, none, some, ◌==◌, if◌then◌else◌, is_some, arith,
  Option-cases,
}
use kalam_network.Exec.{ok, result, after}
use kalam_network.Social.Graph.{SocialCache, SocialState, SocialEnv, Social, find_pair}
use kalam_network.Social.Graph.Counts.{stored_counts}

module _ (env : SocialEnv) where
  -- `safeRedisGet` of a key with the given content: a failure, and a key that has expired, read as a
  -- missing key.
  abbrev pub redis_get : {A : Type 0} → Option A → SocialState → Option A
  redis_get content s = if env.redis_answers s.readings then content else none

  abbrev pub store : (SocialCache → SocialCache) → SocialState → SocialState
  store f s = record s {
    cache = if env.redis_answers (s.readings + 1) then f s.cache else s.cache;
    readings = s.readings + 2;
  }

  -- `isFollowing`
  unfoldable pub is_following : Text → Text → Social Bool
  is_following a t s = elim (redis_get (s.cache.following a t) s) [
    | some b ↦ (ok b, record s { readings = s.readings + 1 })
    | none ↦
        let b = is_some (find_pair a t s.follows) in
        (
          ok b,
          store
              (λ c. record c {
                following = λ x y. if x == a && y == t then some b else c.following x y;
              })
              s,
        )
  ]

  -- `getUserStats`
  unfoldable pub get_user_stats : Text → Social (ℕ × ℕ)
  get_user_stats a s = elim (redis_get (s.cache.user_stats a) s) [
    | some n ↦ (ok n, record s { readings = s.readings + 1 })
    | none ↦
        let n = stored_counts a s.counts in
        (
          ok n,
          store (λ c. record c { user_stats = λ x. if x == a then some n else c.user_stats x }) s,
        )
  ]

-- What the cache says is so.
abbrev pub IsCoherent : SocialState → Type 0
IsCoherent s =
    ((a t : Text) (b : Bool)
      → s.cache.following a t ≡ some b
      → b ≡ is_some (find_pair a t s.follows))
    × ((a : Text) (n : ℕ × ℕ) → s.cache.user_stats a ≡ some n → n ≡ stored_counts a s.counts)

module _ (env : SocialEnv) where
  pub is_following_frame :
      (a t : Text) (s : SocialState)
      → let s' = after (is_following env a t) s in (s'.follows ≡ s.follows) × (s'.counts ≡ s.counts)
  unfolding is_following
  is_following_frame a t s = ground arith

  pub get_user_stats_frame :
      (a : Text) (s : SocialState)
      → let s' = after (get_user_stats env a) s in (s'.follows ≡ s.follows) × (s'.counts ≡ s.counts)
  unfolding get_user_stats
  get_user_stats_frame a s = ground arith

  pub is_following-IsCoherent :
      (a t : Text) (s : SocialState) → IsCoherent s → IsCoherent (after (is_following env a t) s)
  unfolding is_following
  is_following-IsCoherent a t s (h, k) =
      (λ x y b e. ground (arith, h x y b, h a t), λ x n e. ground (arith, k x n))

  -- If what the cache says is what the tables say, the cached query whether an account follows
  -- another answers with what the table of follows says, whether or not Redis answers.
  pub is_following_lem :
      (a t : Text) (s : SocialState)
      → IsCoherent s
      → result (is_following env a t) s ≡ ok (is_some (find_pair a t s.follows))
  unfolding is_following
  is_following_lem a t s (h, k) = elim (Option-cases (s.cache.following a t)) [
    | inl n ↦ ground arith
    | inr (b, n) ↦ ground (arith, h a t b n)
  ]
