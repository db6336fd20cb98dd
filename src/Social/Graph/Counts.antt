-- ===== src/Social/Graph/Counts.antt =====
-- The follows and the counts: the table of counts always says what the table of follows holds.
use mathlib.Core.Path.{subst}
use kalam_network.Prelude.{
  ℕ, ◌≡◌, ◌≤◌, sym, ap, ◌∙◌, Text, true, Option, none, some, List, [], ◌∷◌, ◌++◌, ◌==◌,
  if◌then◌else◌, is_some, arith,
}
use kalam_network.Exec.{Result, ok, err}
use kalam_network.Repo.{find_key, count, delete_where, save}
use kalam_network.Repo.Laws.{
  find_key-save, count-append, count_missing, count-delete_where, count-delete_le,
}
use kalam_network.Social.Graph.{
  Follow, FollowerCount, SocialState, SocialEnv, SocialError, is_pair, find_pair, rebuild_counts,
  update_follower_counts, resolve_actor, actor_account, follow, unfollow, index_follow,
  index_unfollow, submit_event, clear_follow_cache, redis_del,
}

-- How many follow the account, and how many it follows.
abbrev pub followers_of : Text → List Follow → ℕ
followers_of a follows = count (λ f. f.following == a) follows

abbrev pub followings_of : Text → List Follow → ℕ
followings_of a follows = count (λ f. f.follower == a) follows

-- The counts that are stored for an account: none are zeros.
abbrev pub stored : Option FollowerCount → ℕ × ℕ
stored none = (0, 0)
stored (some c) = (c.follower_count, c.following_count)

abbrev pub stored_counts : Text → List FollowerCount → ℕ × ℕ
stored_counts a counts = stored (find_key FollowerCount.account_id a counts)

abbrev pub HasRightCounts : SocialState → Type 0
HasRightCounts s =
    (a : Text) → stored_counts a s.counts ≡ (followers_of a s.follows, followings_of a s.follows)

-- Nobody follows an account twice.
abbrev pub HasNoDuplicates : SocialState → Type 0
HasNoDuplicates s = (a t : Text) → count (is_pair a t) s.follows ≤ 1

-- How a follow ends: with success, the pair was not there, and is added as the last row; with an
-- error, nothing at all has changed.
abbrev pub Follows :
    SocialState → Text → Option Text → Result SocialError Unit → SocialState → Type 0
Follows s target actor (err e) s' = s' ≡ s
Follows s target none (ok _) s' = ⊥
Follows s target (some a) (ok _) s' =
    ((a ≡ target) → ⊥)
    × (find_pair a target s.follows ≡ none)
    × (s'.follows
        ≡ s.follows ++ record { follower = a; following = target; hcs_sequence_number = 0 } ∷ [])
    × (s'.counts ≡ (update_follower_counts a target (record s { follows = s'.follows })).counts)

abbrev pub Unfollows :
    SocialState → Text → Option Text → Result SocialError Unit → SocialState → Type 0
Unfollows s target actor (err e) s' = s' ≡ s
Unfollows s target none (ok _) s' = ⊥
Unfollows s target (some a) (ok _) s' =
    (is_some (find_pair a target s.follows) ≡ true)
    × (s'.follows ≡ delete_where (is_pair a target) s.follows)
    × (s'.counts ≡ (update_follower_counts a target (record s { follows = s'.follows })).counts)

module _ (env : SocialEnv) (user_id target : Text) (jwt_account : Option Text) where
  -- A follow that succeeds is of another account than the actor's, which the actor did not follow;
  -- it adds the pair as the last row and rebuilds the counts of both accounts. One that throws
  -- changes nothing.
  pub follow-Follows :
      (s : SocialState) (actor : Option Text)
      → actor_account (resolve_actor user_id jwt_account s) ≡ actor
      → let (r, s') = follow env user_id target jwt_account s in Follows s target actor r s'
  unfolding follow index_follow submit_event clear_follow_cache redis_del update_follower_counts
      rebuild_counts
  follow-Follows s none e = ground arith
  follow-Follows s (some a) e = ground arith

  -- An unfollow that succeeds is of an account that the actor followed; it deletes the pair and
  -- rebuilds the counts of both accounts. One that throws changes nothing.
  pub unfollow-Unfollows :
      (s : SocialState) (actor : Option Text)
      → actor_account (resolve_actor user_id jwt_account s) ≡ actor
      → let (r, s') = unfollow env user_id target jwt_account s in Unfollows s target actor r s'
  unfolding unfollow index_unfollow submit_event clear_follow_cache redis_del update_follower_counts
      rebuild_counts
  unfollow-Unfollows s none e = ground arith
  unfollow-Unfollows s (some a) e = ground arith

pub stored-save :
    (x : Text) (c : FollowerCount) (counts : List FollowerCount)
    → stored_counts x (save FollowerCount.account_id c counts) ≡ (
        if c.account_id == x then (c.follower_count, c.following_count) else stored_counts x counts)
stored-save x c counts = ground (arith, find_key-save FollowerCount.account_id x c counts)

abbrev pub count_row : Text → List Follow → FollowerCount
count_row a follows = record {
  account_id = a;
  follower_count = followers_of a follows;
  following_count = followings_of a follows;
}

-- The counts of both accounts, rebuilt after a change that concerns no other account.
pub rebuilt_right :
    (s s' : SocialState) (a t : Text)
    → HasRightCounts s
    → ((x : Text)
        → (x ≡ a → ⊥)
        → (x ≡ t → ⊥)
        → (followers_of x s'.follows ≡ followers_of x s.follows)
          × (followings_of x s'.follows ≡ followings_of x s.follows))
    → s'.counts ≡ (update_follower_counts a t (record s { follows = s'.follows })).counts
    → HasRightCounts s'
unfolding update_follower_counts rebuild_counts
rebuilt_right s s' a t right same e x =
    ap (stored_counts x) e
    ∙ ground (
      arith,
      stored-save x (count_row t s'.follows)
          (save FollowerCount.account_id (count_row a s'.follows) s.counts),
      stored-save x (count_row a s'.follows) s.counts,
      right x,
      same x,
    )

abbrev pub added : Text → Text → Follow
added a t = record { follower = a; following = t; hcs_sequence_number = 0 }

-- A follow that is added, or taken away, concerns the counts of its two accounts alone.
pub others_added :
    (f : Follow) (follows : List Follow) (x : Text)
    → (x ≡ f.follower → ⊥)
    → (x ≡ f.following → ⊥)
    → (followers_of x (follows ++ f ∷ []) ≡ followers_of x follows)
      × (followings_of x (follows ++ f ∷ []) ≡ followings_of x follows)
unfolding count
others_added f follows x na nt = (
  ground (arith, count-append (λ r. r.following == x) follows (f ∷ [])),
  ground (arith, count-append (λ r. r.follower == x) follows (f ∷ [])),
)

pub others_removed :
    (a t : Text) (follows : List Follow) (x : Text)
    → (x ≡ a → ⊥)
    → (x ≡ t → ⊥)
    → (followers_of x (delete_where (is_pair a t) follows) ≡ followers_of x follows)
      × (followings_of x (delete_where (is_pair a t) follows) ≡ followings_of x follows)
others_removed a t follows x na nt = (
  count-delete_where (is_pair a t) (λ r. r.following == x) (λ r h. ground arith) follows,
  count-delete_where (is_pair a t) (λ r. r.follower == x) (λ r h. ground arith) follows,
)

pub pair_added :
    (f : Follow) (follows : List Follow) (x y : Text)
    → find_pair f.follower f.following follows ≡ none
    → count (is_pair x y) follows ≤ 1
    → count (is_pair x y) (follows ++ f ∷ []) ≤ 1
unfolding count
pair_added f follows x y new once = ground (
  arith,
  count-append (is_pair x y) follows (f ∷ []),
  count_missing (is_pair f.follower f.following) follows,
)

pub Follows-HasRightCounts :
    (s s' : SocialState) (target : Text) (actor : Option Text) (r : Result SocialError Unit)
    → HasRightCounts s
    → Follows s target actor r s'
    → HasRightCounts s'
Follows-HasRightCounts s s' target actor (err e) right h = subst HasRightCounts (sym h) right
Follows-HasRightCounts s s' target none (ok u) right h = absurd h
Follows-HasRightCounts s s' target (some a) (ok u) right (differ, new, rows, rebuilt) =
    rebuilt_right s s' a target right
      (λ x na nt.
        subst
          (λ fs.
            (followers_of x fs ≡ followers_of x s.follows)
            × (followings_of x fs ≡ followings_of x s.follows))
          (sym rows) (others_added (added a target) s.follows x na nt))
      rebuilt

pub Unfollows-HasRightCounts :
    (s s' : SocialState) (target : Text) (actor : Option Text) (r : Result SocialError Unit)
    → HasRightCounts s
    → Unfollows s target actor r s'
    → HasRightCounts s'
Unfollows-HasRightCounts s s' target actor (err e) right h = subst HasRightCounts (sym h) right
Unfollows-HasRightCounts s s' target none (ok u) right h = absurd h
Unfollows-HasRightCounts s s' target (some a) (ok u) right (there, rows, rebuilt) =
    rebuilt_right s s' a target right
      (λ x na nt.
        subst
          (λ fs.
            (followers_of x fs ≡ followers_of x s.follows)
            × (followings_of x fs ≡ followings_of x s.follows))
          (sym rows) (others_removed a target s.follows x na nt))
      rebuilt

pub Follows-HasNoDuplicates :
    (s s' : SocialState) (target : Text) (actor : Option Text) (r : Result SocialError Unit)
    → HasNoDuplicates s
    → Follows s target actor r s'
    → HasNoDuplicates s'
Follows-HasNoDuplicates s s' target actor (err e) once h = subst HasNoDuplicates (sym h) once
Follows-HasNoDuplicates s s' target none (ok u) once h = absurd h
Follows-HasNoDuplicates s s' target (some a) (ok u) once (differ, new, rows, rebuilt) = λ x y.
    subst (λ fs. count (is_pair x y) fs ≤ 1) (sym rows)
      (pair_added (added a target) s.follows x y new (once x y))

pub Unfollows-HasNoDuplicates :
    (s s' : SocialState) (target : Text) (actor : Option Text) (r : Result SocialError Unit)
    → HasNoDuplicates s
    → Unfollows s target actor r s'
    → HasNoDuplicates s'
Unfollows-HasNoDuplicates s s' target actor (err e) once h = subst HasNoDuplicates (sym h) once
Unfollows-HasNoDuplicates s s' target none (ok u) once h = absurd h
Unfollows-HasNoDuplicates s s' target (some a) (ok u) once (there, rows, rebuilt) = λ x y.
    subst (λ fs. count (is_pair x y) fs ≤ 1) (sym rows)
      (omega (arith, count-delete_le (is_pair a target) (is_pair x y) s.follows, once x y))
