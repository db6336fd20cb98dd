-- ===== src/Social/Graph/Sync/Fold.antt =====
-- What the synchronization leaves: the last event of each pair decides.
use kalam_network.Prelude.{
  ℕ, ◌≡◌, inl, inr, refl, ap, ◌∙◌, Text, Bool, true, false, ◌&&◌, ◌||◌, Option, none, some, List,
  [], ◌∷◌, ◌++◌, ◌==◌, if◌then◌else◌, is_some, arith, Bool-cases, Option-cases,
}
use kalam_network.Repo.{delete_where}
use kalam_network.Repo.Finds.{find_one-append, find_one_deleted, find_one_kept}
use kalam_network.Social.Graph.{
  Follow, GraphEvent, follow_event, unfollow_event, other_event, TopicMessage, SocialState, is_pair,
  find_pair, rebuild_counts,
}
use kalam_network.Social.Graph.Sync.{
  Progress, apply_event, apply_messages, rebuild_all, sync_messages,
}

abbrev pub follows_pair : Text → Text → List Follow → Bool
follows_pair a t follows = is_some (find_pair a t follows)

-- Whether `a` follows `t` after an event, and after the messages, if it is `b` before.
abbrev pub decide : Text → Text → GraphEvent → Bool → Bool
decide a t e b =
    if e.actor == a && e.target == t
    then elim e.type [ follow_event ↦ true | unfollow_event ↦ false | other_event ↦ b ]
    else b

abbrev pub decide_message : Text → Text → Option GraphEvent → Bool → Bool
decide_message a t none b = b
decide_message a t (some e) b = decide a t e b

abbrev pub decide_all : Text → Text → List TopicMessage → Bool → Bool
decide_all a t [] b = b
decide_all a t (m ∷ ms) b = decide_all a t ms (decide_message a t m.event b)

follows_pair-append :
    (a t : Text) (f : Follow) (follows : List Follow)
    → follows_pair a t (follows ++ f ∷ []) ≡ follows_pair a t follows || is_pair a t f
follows_pair-append a t f follows = find_one-append (is_pair a t) follows f

follows_pair-delete :
    (a t x y : Text) (follows : List Follow)
    → follows_pair a t (delete_where (is_pair x y) follows)
      ≡ (if x == a && y == t then false else follows_pair a t follows)
follows_pair-delete a t x y follows = elim (Bool-cases (x == a && y == t)) [
  | inl e ↦
      ground (arith, find_one_deleted (is_pair x y) (is_pair a t) (λ r h. ground arith) follows)
  | inr e ↦ ground (arith, find_one_kept (is_pair x y) (is_pair a t) (λ r h. ground arith) follows)
]

apply_event-decides :
    (a t seq : ℕ) (e : GraphEvent) (p : Progress)
    → follows_pair a t (apply_event seq e p).follows ≡ decide a t e (follows_pair a t p.follows)
unfolding apply_event
apply_event-decides a t seq e p = ground (
  arith,
  follows_pair-append a t
      (record { follower = e.actor; following = e.target; hcs_sequence_number = seq }) p.follows,
  follows_pair-delete a t e.actor e.target p.follows,
)

apply_messages-decides :
    (a t : Text) (ms : List TopicMessage) (p : Progress)
    → follows_pair a t (apply_messages ms p).follows
      ≡ decide_all a t ms (follows_pair a t p.follows)
unfolding apply_messages
apply_messages-decides a t [] p = refl
apply_messages-decides a t (m ∷ ms) p = elim (Option-cases m.event) [
  | inl n ↦ ground (arith, apply_messages-decides a t ms p)
  | inr (e, n) ↦ ground (
    arith,
    apply_messages-decides a t ms (apply_event m.sequence_number e p),
    apply_event-decides a t m.sequence_number e p,
  )
]

pub rebuild_all-follows :
    (ids : List Text) (s : SocialState) → (rebuild_all ids s).follows ≡ s.follows
unfolding rebuild_all rebuild_counts
rebuild_all-follows [] s = refl
rebuild_all-follows (a ∷ ids) s = rebuild_all-follows ids (rebuild_counts a s)

-- After the messages of a synchronization, an account follows another exactly if the last message
-- that is a follow or an unfollow of that pair is a follow, or there is none and it followed
-- before; messages that cannot be decoded count for nothing.
pub sync_messages-decides :
    (ms : List TopicMessage) (s : SocialState) (a t : Text)
    → follows_pair a t (sync_messages ms s).0.follows
      ≡ decide_all a t ms (follows_pair a t s.follows)
unfolding sync_messages
sync_messages-decides ms s a t =
    let p = apply_messages ms (record { follows = s.follows; affected = []; synced = 0 }) in
    ap (follows_pair a t) (rebuild_all-follows p.affected (record s { follows = p.follows }))
    ∙ apply_messages-decides a t ms (record { follows = s.follows; affected = []; synced = 0 })
