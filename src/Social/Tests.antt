-- ===== src/Social/Tests.antt =====
-- The social graph on concrete inputs.
use kalam_network.Prelude.{◌≡◌, refl, Text, true, false, none, some, List, [], ◌∷◌, is_some, arith}
use kalam_network.Exec.{ok, result, after}
use kalam_network.Repo.{find_one, count}
use kalam_network.Auth.Users.{Account, active}
use kalam_network.Social.Graph.{
  follow_event, unfollow_event, TopicMessage, SocialState, SocialEnv, find_pair, resolve_actor,
  actor_account, follow, unfollow, index_follow, submit_event, clear_follow_cache, redis_del,
  update_follower_counts, rebuild_counts,
}
use kalam_network.Social.Graph.Cache.{
  IsCoherent, is_following-IsCoherent, is_following, get_user_stats,
}
use kalam_network.Social.Graph.Reads.{cached_reads_right}
use kalam_network.Social.Graph.Counts.{stored_counts}
use kalam_network.Social.Graph.Coherence.{writes_keep_coherence}
use kalam_network.Social.Graph.Sync.{sync_messages}
use kalam_network.Social.Graph.Sync.Fold.{follows_pair, decide_all, sync_messages-decides}
use kalam_network.Social.Graph.History.{
  SocialCall, follow_call, unfollow_call, sync_call, is_following_call, stats_call, IsSound, run,
  run-IsSound,
}

abbrev user : Text → Text → Account
user id account = record {
  id = id;
  email = none;
  phone = none;
  hedera_account_id = some account;
  status = active;
}

abbrev events : List TopicMessage
events =
    record {
      sequence_number = 4;
      event = some (record { type = follow_event; actor = 30; target = 10 });
    }
    ∷ record { sequence_number = 5; event = none }
    ∷ record {
      sequence_number = 6;
      event = some (record { type = unfollow_event; actor = 10; target = 20 });
    }
    ∷ []

abbrev env : SocialEnv
env = record {
  topic = some 77;
  redis_answers = λ i. true;
  messages = λ i after_sequence. some events;
}

abbrev empty_state : SocialState
empty_state = record {
  users = user 1 10 ∷ user 2 20 ∷ [];
  follows = [];
  counts = [];
  cache = record { following = λ a t. none; user_stats = λ a. none };
  submitted = [];
  notified = [];
  readings = 0;
}

-- The account 10 follows the account 20.
abbrev one_follow : SocialState
one_follow = record empty_state {
  follows = record { follower = 10; following = 20; hcs_sequence_number = 0 } ∷ [];
  counts =
      record { account_id = 10; follower_count = 0; following_count = 1 }
      ∷ record { account_id = 20; follower_count = 1; following_count = 0 }
      ∷ [];
}

first_user_acts : actor_account (resolve_actor 1 none empty_state) ≡ some 10
unfolding actor_account resolve_actor find_one
first_user_acts = refl

first_user_acts_again : actor_account (resolve_actor 1 none one_follow) ≡ some 10
unfolding actor_account resolve_actor find_one
first_user_acts_again = refl

follow_succeeds : (after (follow env 1 20 none) empty_state).follows ≡ one_follow.follows
unfolding follow actor_account resolve_actor find_one index_follow submit_event clear_follow_cache
    redis_del update_follower_counts rebuild_counts
follow_succeeds = refl

one_follow-IsSound : IsSound one_follow
unfolding count find_one
one_follow-IsSound = (λ a. ground arith, λ a t. ground arith)

abbrev calls : List SocialCall
calls = follow_call 2 10 none ∷ is_following_call 10 20 ∷ sync_call 0 ∷ unfollow_call 2 10 none ∷ []

run-IsSound_example : IsSound (run env calls one_follow)
run-IsSound_example = run-IsSound env calls one_follow one_follow-IsSound

sync_messages-decides_example :
    follows_pair 10 20 (sync_messages events one_follow).0.follows
    ≡ decide_all 10 20 events (follows_pair 10 20 one_follow.follows)
sync_messages-decides_example = sync_messages-decides events one_follow 10 20

sync_unfollows : decide_all 10 20 events true ≡ false
sync_unfollows = refl

one_follow-IsCoherent : IsCoherent one_follow
one_follow-IsCoherent = (λ a t b e. ground arith, λ a n e. ground arith)

-- A read has stored in the cache that the first account follows the second.
abbrev warmed : SocialState
warmed = after (is_following env 10 20) one_follow

warmed_holds : warmed.cache.following 10 20 ≡ some true
unfolding is_following find_one
warmed_holds = refl

warmed-IsCoherent : IsCoherent warmed
warmed-IsCoherent = is_following-IsCoherent env 10 20 one_follow one_follow-IsCoherent

writes_keep_coherence_example :
    IsCoherent (after (follow env 1 20 none) warmed)
    × IsCoherent (after (unfollow env 1 20 none) warmed)
writes_keep_coherence_example =
    writes_keep_coherence env 1 20 none warmed (λ i. refl) warmed-IsCoherent

-- The second read of the pair is answered from the cache; the one after the unfollow is not.
abbrev reads : List SocialCall
reads =
    is_following_call 10 20
    ∷ stats_call 20
    ∷ is_following_call 10 20
    ∷ unfollow_call 1 20 none
    ∷ is_following_call 10 20
    ∷ follow_call 1 20 none
    ∷ stats_call 20
    ∷ []

cached_reads_right_example :
    (result (is_following env 10 20) (run env reads warmed)
      ≡ ok (is_some (find_pair 10 20 (run env reads warmed).follows)))
    × (result (get_user_stats env 20) (run env reads warmed)
        ≡ ok (stored_counts 20 (run env reads warmed).counts))
cached_reads_right_example =
    cached_reads_right env (λ i. refl) reads warmed 10 20 20 tt warmed-IsCoherent
