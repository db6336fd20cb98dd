-- ===== src/Identity/Acts.antt =====
-- What the calls write to the table of users: a change of the rows under one identifier.
pub mod Onboards
use mathlib.Core.Path.{subst}
use kalam_network.Prelude.{
  ℕ, ◌+◌, ◌≡◌, ◌⊎◌, refl, sym, ap, ◌∙◌, Text, is_present, get_or, true, not, Option, none, some,
  List, [], ◌∷◌, ◌==◌, if◌then◌else◌, arith, inl, inr, Bool-cases, Option-cases,
}
use kalam_network.Exec.{>>=-ok, throw_if, continue, modify, ◌>>=◌, ◌>>◌, Result, ok, err, after}
use kalam_network.Repo.{find_one, count, update_where, find_key}
use kalam_network.Identity.{
  no_hedera_account, Identity, draw_or, Person, IdentityError, IdentityState, IdentityEnv, Topics,
  update_person, find_person, person_or_throw, create_user_topics,
}
use kalam_network.Identity.DidNft.{
  Minted, mint_did_nft, metadata_reference, add_nft, deliver_nft, freeze_nft, update_nft,
}
use kalam_network.Identity.Onboarding.{
  mint_for, topics_of, submit_attestation, onboarded, complete_onboarding,
}

abbrev pub on_found : (Person → Person) → Option Person → Option Person
on_found f none = none
on_found f (some p) = some (f p)

-- A row keeps its identifier.
abbrev pub KeepsId : (Person → Person) → Type 0
KeepsId f = (p : Person) → (f p).id ≡ p.id

abbrev pub id_count : Text → List Person → ℕ
id_count k persons = count (λ p. Person.id p == k) persons

-- The rows under `j` are changed by `f`, the others stay, and the identifiers do.
abbrev pub Acts : Text → (Person → Person) → IdentityState → IdentityState → Type 0
Acts j f s s' =
    ((k : Text)
      → find_person k s' ≡ (if j == k then on_found f (find_person k s) else find_person k s))
    × ((k : Text) → id_count k s'.persons ≡ id_count k s.persons)

-- The count of an identifier, which no row changes.
ids_kept :
    (j : Text) (f : Person → Person)
    → KeepsId f
    → (k : Text) (persons : List Person)
    → id_count k (update_where (λ p. Person.id p == j) f persons) ≡ id_count k persons
unfolding count update_where
ids_kept j f keeps k [] = refl
ids_kept j f keeps k (p ∷ persons) = ground (arith, keeps p, ids_kept j f keeps k persons)

pub find_under :
    (j : Text) (f : Person → Person)
    → KeepsId f
    → (k : Text) (persons : List Person)
    → find_key Person.id k (update_where (λ p. Person.id p == j) f persons)
      ≡ (if j == k then on_found f (find_key Person.id k persons) else find_key Person.id k persons)
unfolding find_one update_where
find_under j f keeps k [] = ground arith
find_under j f keeps k (p ∷ persons) = ground (arith, keeps p, find_under j f keeps k persons)

pub nobody-Acts : (j : Text) (s s' : IdentityState) → s'.persons ≡ s.persons → Acts j (λ p. p) s s'
unfolding find_person
nobody-Acts j s s' same = (
  (λ k. ap (find_key Person.id k) same ∙ unchanged k (find_key Person.id k s.persons)),
  λ k. ap (id_count k) same,
)
  where
    unchanged : (k : Text) (o : Option Person) → o ≡ (if j == k then on_found (λ p. p) o else o)
    unchanged k none = ground arith
    unchanged k (some p) = ground arith

pub update_person-Acts :
    (j : Text) (f : Person → Person) (s s' : IdentityState)
    → KeepsId f
    → s'.persons ≡ (update_person j f s).persons
    → Acts j f s s'
unfolding find_person update_person
update_person-Acts j f s s' keeps same = (
  (λ k. ap (find_key Person.id k) same ∙ find_under j f keeps k s.persons),
  λ k. ap (id_count k) same ∙ ids_kept j f keeps k s.persons,
)

-- Two changes of the same rows.
pub Acts-Acts :
    (j : Text) (f g : Person → Person) (s s' s'' : IdentityState)
    → Acts j f s s'
    → Acts j g s' s''
    → Acts j (λ p. g (f p)) s s''
Acts-Acts j f g s s' s'' (first, ids) (second, ids') = (
  (λ k.
      second k
      ∙ ap (λ o. if j == k then on_found g o else o) (first k)
      ∙ twice k (find_person k s)),
  λ k. ids' k ∙ ids k,
)
  where
    twice :
        (k : Text) (o : Option Person)
        → (if j == k
            then on_found g (if j == k then on_found f o else o)
            else (if j == k then on_found f o else o))
          ≡ (if j == k then on_found (λ p. g (f p)) o else o)
    twice k none = ground arith
    twice k (some p) = ground arith
