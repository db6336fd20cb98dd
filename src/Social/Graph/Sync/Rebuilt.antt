-- ===== src/Social/Graph/Sync/Rebuilt.antt =====
-- The synchronization keeps the counts right and the follows free of duplicates.
use mathlib.Core.Path.{subst}
use kalam_network.Prelude.{
  ℕ, ◌≡◌, ◌≤◌, refl, sym, Text, true, false, ◌||◌, Option, none, some, List, [], ◌∷◌, ◌++◌, ◌==◌,
  if◌then◌else◌, arith,
}
use kalam_network.Repo.{count}
use kalam_network.Repo.Laws.{count-delete_le}
use kalam_network.Social.Graph.{
  Follow, GraphEvent, TopicMessage, SocialState, is_pair, rebuild_counts,
}
use kalam_network.Social.Graph.Counts.{
  followers_of, followings_of, stored_counts, HasRightCounts, HasNoDuplicates, others_added,
  others_removed, pair_added, stored-save, count_row,
}
use kalam_network.Social.Graph.Sync.{
  Progress, contains, insert, apply_event, apply_message, apply_messages, rebuild_all,
  sync_messages,
}
use kalam_network.Social.Graph.Sync.Fold.{rebuild_all-follows}

-- The accounts whose counts the events have changed are among the affected ones.
abbrev Covers : List Follow → Progress → Type 0
Covers start p =
    (x : Text)
    → contains x p.affected ≡ false
    → (followers_of x p.follows ≡ followers_of x start)
      × (followings_of x p.follows ≡ followings_of x start)

contains-append :
    (x a : Text) (ids : List Text) → contains x (ids ++ a ∷ []) ≡ (contains x ids || a == x)
unfolding contains
contains-append x a [] = ground arith
contains-append x a (b ∷ ids) = ground (arith, contains-append x a ids)

contains_self :
    (x a : Text) (ids : List Text) → contains a ids ≡ true → a == x ≡ true → contains x ids ≡ true
contains_self x a ids h e = ground arith

contains-insert :
    (x a : Text) (ids : List Text) → contains x (insert a ids) ≡ (a == x || contains x ids)
unfolding insert
contains-insert x a ids = ground (arith, contains-append x a ids, contains_self x a ids)

apply_event-Covers :
    (start : List Follow) (seq : ℕ) (e : GraphEvent) (p : Progress)
    → Covers start p
    → Covers start (apply_event seq e p)
unfolding apply_event
apply_event-Covers start seq e p covers x = ground (
  arith,
  covers x,
  contains-insert x e.target (insert e.actor p.affected),
  contains-insert x e.actor p.affected,
  others_added (record { follower = e.actor; following = e.target; hcs_sequence_number = seq })
      p.follows x,
  others_removed e.actor e.target p.follows x,
)

rebuild_all_lem :
    (x : Text) (ids : List Text) (s : SocialState)
    → stored_counts x (rebuild_all ids s).counts ≡ (
        if contains x ids
        then (followers_of x s.follows, followings_of x s.follows)
        else stored_counts x s.counts)
unfolding rebuild_all rebuild_counts contains
rebuild_all_lem x [] s = refl
rebuild_all_lem x (a ∷ ids) s = ground (
  arith,
  rebuild_all_lem x ids (rebuild_counts a s),
  stored-save x (count_row a s.follows) s.counts,
)

apply_messages-Covers :
    (start : List Follow) (ms : List TopicMessage) (p : Progress)
    → Covers start p
    → Covers start (apply_messages ms p)
unfolding apply_messages
apply_messages-Covers start [] p covers = covers
apply_messages-Covers start (m ∷ ms) p covers =
    apply_messages-Covers start ms _ (covers_message m.event)
  where
    covers_message :
        (event : Option GraphEvent) → Covers start (apply_message m.sequence_number event p)
    covers_message none = covers
    covers_message (some e) = apply_event-Covers start m.sequence_number e p covers

pub sync_messages-HasRightCounts :
    (ms : List TopicMessage) (s : SocialState)
    → HasRightCounts s
    → HasRightCounts (sync_messages ms s).0
unfolding sync_messages
sync_messages-HasRightCounts ms s right x =
    let start : Progress = record { follows = s.follows; affected = []; synced = 0 } in
    let p = apply_messages ms start in
    ground (
      arith,
      rebuild_all_lem x p.affected (record s { follows = p.follows }),
      rebuild_all-follows p.affected (record s { follows = p.follows }),
      apply_messages-Covers s.follows ms start (λ y h. (refl, refl)) x,
      right x,
    )

abbrev IsSingle : List Follow → Type 0
IsSingle follows = (x y : Text) → count (is_pair x y) follows ≤ 1

apply_event-IsSingle :
    (seq : ℕ) (e : GraphEvent) (p : Progress)
    → IsSingle p.follows
    → IsSingle (apply_event seq e p).follows
unfolding apply_event
apply_event-IsSingle seq e p once x y = ground (
  arith,
  once x y,
  pair_added (record { follower = e.actor; following = e.target; hcs_sequence_number = seq })
      p.follows x y,
  count-delete_le (is_pair e.actor e.target) (is_pair x y) p.follows,
)

apply_messages-IsSingle :
    (ms : List TopicMessage) (p : Progress)
    → IsSingle p.follows
    → IsSingle (apply_messages ms p).follows
unfolding apply_messages
apply_messages-IsSingle [] p once = once
apply_messages-IsSingle (m ∷ ms) p once = apply_messages-IsSingle ms _ (once_after m.event)
  where
    once_after :
        (event : Option GraphEvent) → IsSingle (apply_message m.sequence_number event p).follows
    once_after none = once
    once_after (some e) = apply_event-IsSingle m.sequence_number e p once

pub sync_messages-HasNoDuplicates :
    (ms : List TopicMessage) (s : SocialState)
    → HasNoDuplicates s
    → HasNoDuplicates (sync_messages ms s).0
unfolding sync_messages
sync_messages-HasNoDuplicates ms s once =
    let start : Progress = record { follows = s.follows; affected = []; synced = 0 } in
    let p = apply_messages ms start in
    subst IsSingle (sym (rebuild_all-follows p.affected (record s { follows = p.follows })))
      (apply_messages-IsSingle ms start once)
