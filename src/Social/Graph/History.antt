-- ===== src/Social/Graph/History.antt =====
-- All calls of the social graph service in sequence.
use kalam_network.Prelude.{
  ℕ, ◌+◌, ◌≡◌, refl, inl, inr, Text, Option, none, some, List, [], ◌∷◌, is_present, arith,
  Bool-cases,
}
use kalam_network.Exec.{after}
use kalam_network.Social.Graph.{TopicMessage, SocialState, SocialEnv, follow, unfollow}
use kalam_network.Social.Graph.Counts.{
  HasRightCounts, HasNoDuplicates, follow-Follows, unfollow-Unfollows, Follows-HasRightCounts,
  Unfollows-HasRightCounts, Follows-HasNoDuplicates, Unfollows-HasNoDuplicates,
}
use kalam_network.Social.Graph.Sync.{sync_answer, sync_social_graph}
use kalam_network.Social.Graph.Sync.Rebuilt.{
  sync_messages-HasRightCounts, sync_messages-HasNoDuplicates,
}
use kalam_network.Social.Graph.Cache.{
  is_following, get_user_stats, is_following_frame, get_user_stats_frame,
}

-- A call of the service, with its arguments.
pub data SocialCall : Type 0 where
  follow_call unfollow_call : Text → Text → Option Text → SocialCall
  sync_call : ℕ → SocialCall
  is_following_call : Text → Text → SocialCall
  stats_call : Text → SocialCall

module _ (env : SocialEnv) where
  unfoldable pub step : SocialCall → SocialState → SocialState
  step (follow_call user target jwt) s = after (follow env user target jwt) s
  step (unfollow_call user target jwt) s = after (unfollow env user target jwt) s
  step (sync_call n) s = after (sync_social_graph env n) s
  step (is_following_call a t) s = after (is_following env a t) s
  step (stats_call a) s = after (get_user_stats env a) s

  unfoldable pub run : List SocialCall → SocialState → SocialState
  run [] s = s
  run (c ∷ cs) s = run cs (step c s)

-- What the calls keep.
abbrev pub IsSound : SocialState → Type 0
IsSound s = HasRightCounts s × HasNoDuplicates s

module _ (env : SocialEnv) where
  sync_answer-IsSound :
      (answer : Option (List TopicMessage)) (s : SocialState)
      → IsSound s
      → IsSound (sync_answer answer s).1
  unfolding sync_answer
  sync_answer-IsSound none s h = h
  sync_answer-IsSound (some []) s h = h
  sync_answer-IsSound (some (m ∷ ms)) s h =
      (sync_messages-HasRightCounts (m ∷ ms) s h.0, sync_messages-HasNoDuplicates (m ∷ ms) s h.1)

  sync-IsSound : (n : ℕ) (s : SocialState) → IsSound s → IsSound (after (sync_social_graph env n) s)
  unfolding sync_social_graph
  sync-IsSound n s h = elim (Bool-cases (is_present env.topic)) [
    | inl e ↦ ground (
      arith,
      sync_answer-IsSound (env.messages s.readings n) (record s { readings = s.readings + 1 }) h,
    )
    | inr e ↦ ground arith
  ]

  IsSound-frame :
      (s s' : SocialState) → s'.follows ≡ s.follows → s'.counts ≡ s.counts → IsSound s → IsSound s'
  IsSound-frame s s' ef ec (right, once) =
      (λ x. ground (arith, right x), λ x y. ground (arith, once x y))

  step-IsSound : (c : SocialCall) (s : SocialState) → IsSound s → IsSound (step env c s)
  unfolding step
  step-IsSound (follow_call user target jwt) s (right, once) =
      let h = follow-Follows env user target jwt s _ refl in
      (Follows-HasRightCounts s _ target _ _ right h, Follows-HasNoDuplicates s _ target _ _ once h)
  step-IsSound (unfollow_call user target jwt) s (right, once) =
      let h = unfollow-Unfollows env user target jwt s _ refl in
      (
        Unfollows-HasRightCounts s _ target _ _ right h,
        Unfollows-HasNoDuplicates s _ target _ _ once h,
      )
  step-IsSound (sync_call n) s h = sync-IsSound n s h
  step-IsSound (is_following_call a t) s h =
      let (ef, ec) = is_following_frame env a t s in
      IsSound-frame s (after (is_following env a t) s) ef ec h
  step-IsSound (stats_call a) s h =
      let (ef, ec) = get_user_stats_frame env a s in
      IsSound-frame s (after (get_user_stats env a) s) ef ec h

  -- If the stored counts of every account say how many follow it and how many it follows, an
  -- account without stored counts having none, and no pair of accounts is stored twice, then so it
  -- is after any sequence of follows, unfollows, synchronizations and cached reads, by any users
  -- and with any answers of the environment.
  pub run-IsSound : (cs : List SocialCall) (s : SocialState) → IsSound s → IsSound (run env cs s)
  unfolding run
  run-IsSound [] s h = h
  run-IsSound (c ∷ cs) s h = run-IsSound cs (step env c s) (step-IsSound c s h)
