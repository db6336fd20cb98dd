-- ===== src/Social/Graph/Reads.antt =====
-- The cached reads after any sequence of follows, unfollows and reads.
use kalam_network.Prelude.{
  ℕ, ◌≡◌, inl, inr, Text, true, List, [], ◌∷◌, is_some, arith, Option-cases,
}
use kalam_network.Exec.{ok, result, after}
use kalam_network.Social.Graph.{SocialState, SocialEnv, find_pair}
use kalam_network.Social.Graph.Counts.{stored_counts}
use kalam_network.Social.Graph.Cache.{
  IsCoherent, is_following, get_user_stats, is_following-IsCoherent, is_following_lem,
}
use kalam_network.Social.Graph.Coherence.{writes_keep_coherence}
use kalam_network.Social.Graph.History.{
  SocialCall, follow_call, unfollow_call, sync_call, is_following_call, stats_call, step, run,
}

-- Calls of the users only: a synchronization does not clear the cache.
abbrev pub HasNoSync : List SocialCall → Type 0
HasNoSync [] = Unit
HasNoSync (sync_call n ∷ cs) = ⊥
HasNoSync (c ∷ cs) = HasNoSync cs

module _ (env : SocialEnv) where
  get_user_stats-IsCoherent :
      (a : Text) (s : SocialState) → IsCoherent s → IsCoherent (after (get_user_stats env a) s)
  unfolding get_user_stats
  get_user_stats-IsCoherent a s (h, k) =
      (λ x y b e. ground (arith, h x y b), λ x n e. ground (arith, k x n, k a n))

  get_user_stats_lem :
      (a : Text) (s : SocialState)
      → IsCoherent s
      → result (get_user_stats env a) s ≡ ok (stored_counts a s.counts)
  unfolding get_user_stats
  get_user_stats_lem a s (h, k) = elim (Option-cases (s.cache.user_stats a)) [
    | inl n ↦ ground arith
    | inr (c, n) ↦ ground (arith, k a c n)
  ]

  module _ (up : (i : ℕ) → env.redis_answers i ≡ true) where
    run-IsCoherent :
        (cs : List SocialCall) (s : SocialState)
        → HasNoSync cs
        → IsCoherent s
        → IsCoherent (run env cs s)
    unfolding run step
    run-IsCoherent [] s n h = h
    run-IsCoherent (follow_call user target jwt ∷ cs) s n h =
        run-IsCoherent cs _ n (writes_keep_coherence env user target jwt s up h).0
    run-IsCoherent (unfollow_call user target jwt ∷ cs) s n h =
        run-IsCoherent cs _ n (writes_keep_coherence env user target jwt s up h).1
    run-IsCoherent (sync_call m ∷ cs) s n h = absurd n
    run-IsCoherent (is_following_call a t ∷ cs) s n h =
        run-IsCoherent cs _ n (is_following-IsCoherent env a t s h)
    run-IsCoherent (stats_call a ∷ cs) s n h =
        run-IsCoherent cs _ n (get_user_stats-IsCoherent a s h)

    -- If Redis always answers and what the cache says is what the tables say, then after any
    -- sequence of follows, unfollows and cached reads, which fill and clear the cache, isFollowing
    -- and getUserStats answer with what the tables then say.
    pub cached_reads_right :
        (cs : List SocialCall) (s : SocialState) (a t x : Text)
        → HasNoSync cs
        → IsCoherent s
        → (result (is_following env a t) (run env cs s)
            ≡ ok (is_some (find_pair a t (run env cs s).follows)))
          × (result (get_user_stats env x) (run env cs s)
              ≡ ok (stored_counts x (run env cs s).counts))
    cached_reads_right cs s a t x n h =
        let coherent = run-IsCoherent cs s n h in
        (
          is_following_lem env a t (run env cs s) coherent,
          get_user_stats_lem x (run env cs s) coherent,
        )
