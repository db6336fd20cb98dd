-- ===== src/Social/Graph/Coherence.antt =====
-- A follow and an unfollow clear what they make stale in the cache, as long as Redis answers.
use mathlib.Core.Path.{subst}
use kalam_network.Prelude.{
  ℕ, ◌+◌, ◌≡◌, ◌⊎◌, refl, sym, ap, ◌∙◌, inl, inr, Text, true, false, ◌&&◌, ◌||◌, Option, none, some,
  [], ◌∷◌, ◌++◌, ◌==◌, if◌then◌else◌, is_some, arith,
}
use kalam_network.Exec.{after}
use kalam_network.Repo.{save, delete_where}
use kalam_network.Repo.Finds.{find_one-append, find_one_kept}
use kalam_network.Social.Graph.{
  FollowerCount, SocialState, SocialEnv, is_pair, find_pair, resolve_actor, actor_account, follow,
  unfollow, index_follow, index_unfollow, submit_event, update_follower_counts, rebuild_counts,
  clear_follow_cache, redis_del,
}
use kalam_network.Social.Graph.Counts.{stored_counts, stored-save, count_row, added}
use kalam_network.Social.Graph.Cache.{IsCoherent}

other_counts :
    (s : SocialState) (a t x : Text)
    → (x ≡ a → ⊥)
    → (x ≡ t → ⊥)
    → stored_counts x (update_follower_counts a t s).counts ≡ stored_counts x s.counts
unfolding update_follower_counts rebuild_counts
other_counts s a t x na nt = ground (
  arith,
  stored-save x (count_row t s.follows)
      (save FollowerCount.account_id (count_row a s.follows) s.counts),
  stored-save x (count_row a s.follows) s.counts,
)

-- What a change of the pair leaves, if the cache forgets the pair and its two accounts.
abbrev Forgets : Text → Text → SocialState → SocialState → Type 0
Forgets a t s s' =
    (s'.counts ≡ (update_follower_counts a t (record s { follows = s'.follows })).counts)
    × ((x y : Text)
        → s'.cache.following x y ≡ (if x == a && y == t then none else s.cache.following x y))
    × ((x : Text)
        → s'.cache.user_stats x ≡ (if x == a || x == t then none else s.cache.user_stats x))

Forgets-IsCoherent :
    (s s' : SocialState) (a t : Text)
    → Forgets a t s s'
    → ((x y : Text)
        → (x == a && y == t) ≡ false
        → is_some (find_pair x y s'.follows) ≡ is_some (find_pair x y s.follows))
    → IsCoherent s
    → IsCoherent s'
Forgets-IsCoherent s s' a t (counts, pairs, stats) same (h, k) = (
  λ x y b e. ground (arith, pairs x y, same x y, h x y b),
  λ x n e.
      ground
        (arith, stats x, counts, k x n, other_counts (record s { follows = s'.follows }) a t x),
)

module _ (env : SocialEnv) (up : (i : ℕ) → env.redis_answers i ≡ true) (a t : Text)
    (s : SocialState) where
  index_follow-Forgets : Forgets a t s (after (index_follow env a t) s)
  unfolding index_follow submit_event clear_follow_cache redis_del update_follower_counts
      rebuild_counts
  index_follow-Forgets = (
    ground arith,
    λ x y. ground (arith, up s.readings),
    λ x. ground (arith, up (s.readings + 1), up (s.readings + 2)),
  )

  index_unfollow-Forgets : Forgets a t s (after (index_unfollow env a t) s)
  unfolding index_unfollow submit_event clear_follow_cache redis_del update_follower_counts
      rebuild_counts
  index_unfollow-Forgets = (
    ground arith,
    λ x y. ground (arith, up s.readings),
    λ x. ground (arith, up (s.readings + 1), up (s.readings + 2)),
  )

  index_follow-follows : (after (index_follow env a t) s).follows ≡ s.follows ++ added a t ∷ []
  unfolding index_follow submit_event clear_follow_cache redis_del update_follower_counts
      rebuild_counts
  index_follow-follows = refl

  index_unfollow-follows :
      (after (index_unfollow env a t) s).follows ≡ delete_where (is_pair a t) s.follows
  unfolding index_unfollow submit_event clear_follow_cache redis_del update_follower_counts
      rebuild_counts
  index_unfollow-follows = refl

  index_follow-find_pair :
      (x y : Text)
      → (x == a && y == t) ≡ false
      → is_some (find_pair x y (after (index_follow env a t) s).follows)
        ≡ is_some (find_pair x y s.follows)
  index_follow-find_pair x y n =
      ap (λ fs. is_some (find_pair x y fs)) index_follow-follows
      ∙ ground (arith, find_one-append (is_pair x y) s.follows (added a t))

  index_unfollow-find_pair :
      (x y : Text)
      → (x == a && y == t) ≡ false
      → is_some (find_pair x y (after (index_unfollow env a t) s).follows)
        ≡ is_some (find_pair x y s.follows)
  index_unfollow-find_pair x y n =
      ap (λ fs. is_some (find_pair x y fs)) index_unfollow-follows
      ∙ ground (arith, find_one_kept (is_pair a t) (is_pair x y) (λ r h. ground arith) s.follows)

  index_follow-IsCoherent : IsCoherent s → IsCoherent (after (index_follow env a t) s)
  index_follow-IsCoherent =
      Forgets-IsCoherent s (after (index_follow env a t) s) a t index_follow-Forgets
        index_follow-find_pair

  index_unfollow-IsCoherent : IsCoherent s → IsCoherent (after (index_unfollow env a t) s)
  index_unfollow-IsCoherent =
      Forgets-IsCoherent s (after (index_unfollow env a t) s) a t index_unfollow-Forgets
        index_unfollow-find_pair

-- A call that throws, with the state left alone, or goes on.
abbrev Ends : SocialState → SocialState → (Text → SocialState) → Option Text → Type 0
Ends s s' goes_on none = s' ≡ s
Ends s s' goes_on (some a) = (s' ≡ s) ⊎ (s' ≡ goes_on a)

Ends-IsCoherent :
    (s s' : SocialState) (goes_on : Text → SocialState) (actor : Option Text)
    → ((a : Text) → IsCoherent (goes_on a))
    → IsCoherent s
    → Ends s s' goes_on actor
    → IsCoherent s'
Ends-IsCoherent s s' goes_on none on h e = subst IsCoherent (sym e) h
Ends-IsCoherent s s' goes_on (some a) on h (inl e) = subst IsCoherent (sym e) h
Ends-IsCoherent s s' goes_on (some a) on h (inr e) = subst IsCoherent (sym e) (on a)

module _ (env : SocialEnv) (user_id target : Text) (jwt_account : Option Text)
    (s : SocialState) where
  follow-Ends :
      (actor : Option Text)
      → actor_account (resolve_actor user_id jwt_account s) ≡ actor
      → Ends s
          (after (follow env user_id target jwt_account) s)
          (λ a. after (index_follow env a target) s)
          actor
  unfolding follow
  follow-Ends none e = ground arith
  follow-Ends (some a) e = ground arith

  unfollow-Ends :
      (actor : Option Text)
      → actor_account (resolve_actor user_id jwt_account s) ≡ actor
      → Ends s
          (after (unfollow env user_id target jwt_account) s)
          (λ a. after (index_unfollow env a target) s)
          actor
  unfolding unfollow
  unfollow-Ends none e = ground arith
  unfollow-Ends (some a) e = ground arith

  -- If Redis always answers, a follow and an unfollow keep it so that what the cache says, of who
  -- follows whom and of the counts of an account, is what the tables say.
  pub writes_keep_coherence :
      ((i : ℕ) → env.redis_answers i ≡ true)
      → IsCoherent s
      → IsCoherent (after (follow env user_id target jwt_account) s)
        × IsCoherent (after (unfollow env user_id target jwt_account) s)
  writes_keep_coherence up h = (
    Ends-IsCoherent s (after (follow env user_id target jwt_account) s)
        (λ a. after (index_follow env a target) s) _
        (λ a. index_follow-IsCoherent env up a target s h) h (follow-Ends _ refl),
    Ends-IsCoherent s (after (unfollow env user_id target jwt_account) s)
        (λ a. after (index_unfollow env a target) s) _
        (λ a. index_unfollow-IsCoherent env up a target s h) h (unfollow-Ends _ refl),
  )
