-- ===== src/Repo/Any.antt =====
-- Whether some row satisfies a condition, and the saves under a composite key.
use kalam_network.Prelude.{
  ℕ, ◌≡◌, ◌≤◌, refl, Bool, true, false, ◌&&◌, ◌||◌, not, none, some, List, [], ◌∷◌, arith, ◌==◌,
  inl, inr, Bool-cases,
}
use kalam_network.Repo.{save, find_one, any, update_where, save_by, count}
use kalam_network.Repo.Laws.{count-append, count_missing}
use kalam_network.Repo.Finds.{find_one-append}

module _ {A : Type 0} where
  -- Conditions that agree on every row find alike.
  pub any_ext : (p q : A → Bool) → ((r : A) → p r ≡ q r) → (rows : List A) → any p rows ≡ any q rows
  unfolding find_one
  any_ext p q same [] = refl
  any_ext p q same (r ∷ rows) = ground (arith, same r, any_ext p q same rows)

  pub any_never : (p : A → Bool) → ((r : A) → p r ≡ false) → (rows : List A) → any p rows ≡ false
  unfolding find_one
  any_never p h [] = refl
  any_never p h (r ∷ rows) = ground (arith, h r, any_never p h rows)

  pub any_split :
      (p q : A → Bool) (rows : List A)
      → any q rows ≡ any (λ r. q r && p r) rows || any (λ r. q r && not (p r)) rows
  unfolding find_one
  any_split p q [] = refl
  any_split p q (r ∷ rows) = ground (arith, any_split p q rows)

  any-update_where :
      (p q : A → Bool) (a : A) (rows : List A)
      → any q (update_where p (λ _. a) rows)
        ≡ (any p rows && q a) || any (λ r. q r && not (p r)) rows
  unfolding find_one update_where
  any-update_where p q a [] = refl
  any-update_where p q a (r ∷ rows) = ground (arith, any-update_where p q a rows)

  any_without :
      (p q : A → Bool) (rows : List A)
      → any p rows ≡ false
      → any (λ r. q r && not (p r)) rows ≡ any q rows
  unfolding find_one
  any_without p q [] h = refl
  any_without p q (r ∷ rows) h = ground (arith, any_without p q rows)

  -- After a save some row satisfies a condition if the saved one does, or one that is not replaced.
  pub any-save_by :
      (p q : A → Bool) (a : A) (rows : List A)
      → any q (save_by p a rows) ≡ q a || any (λ r. q r && not (p r)) rows
  unfolding save_by
  any-save_by p q a rows = elim (Bool-cases (any p rows)) [
    | inl t ↦ ground (arith, any-update_where p q a rows)
    | inr f ↦ ground (arith, any_without p q rows, find_one-append q rows a)
  ]

  pub any_none_counted :
      (p q : A → Bool) (rows : List A) → count p rows ≡ 0 → any (λ r. q r && p r) rows ≡ false
  unfolding find_one count
  any_none_counted p q [] h = refl
  any_none_counted p q (r ∷ rows) h = ground (arith, any_none_counted p q rows)

  -- Where only one row satisfies `p`, that row decides.
  pub any_unique :
      (p q : A → Bool) (rows : List A) (m : A)
      → find_one p rows ≡ some m
      → count p rows ≤ 1
      → any (λ r. q r && p r) rows ≡ q m
  unfolding find_one count
  any_unique p q [] m h once = ground arith
  any_unique p q (r ∷ rows) m h once = elim (Bool-cases (p r)) [
    | inl t ↦ ground (arith, any_none_counted p q rows)
    | inr f ↦ ground (arith, any_unique p q rows m)
  ]

  count-update_where :
      (p q : A → Bool) (a : A)
      → ((r : A) → p r ≡ true → q r ≡ q a)
      → (rows : List A) → count q (update_where p (λ _. a) rows) ≡ count q rows
  unfolding count update_where
  count-update_where p q a same [] = refl
  count-update_where p q a same (r ∷ rows) =
      ground (arith, same r, count-update_where p q a same rows)

  -- A save keeps a condition unique that tells the same of all rows that it may replace.
  pub count-save_by :
      (p q : A → Bool) (a : A)
      → ((r : A) → p r ≡ true → q r ≡ q a)
      → (rows : List A) → (q a ≡ true → count q rows ≡ count p rows)
      → count q rows ≤ 1
      → count q (save_by p a rows) ≤ 1
  unfolding save_by count
  count-save_by p q a same rows both once = elim (Bool-cases (any p rows)) [
    | inl t ↦ ground (arith, count-update_where p q a same rows)
    | inr f ↦ ground (arith, count-append q rows (a ∷ []), count_missing p rows, both)
  ]

  pub any_found :
      (p q : A → Bool) (rows : List A) (a : A)
      → find_one p rows ≡ some a
      → q a ≡ true
      → any q rows ≡ true
  unfolding find_one
  any_found p q [] a h e = ground arith
  any_found p q (r ∷ rows) a h e = elim (Bool-cases (p r)) [
    | inl t ↦ ground arith
    | inr f ↦ ground (arith, any_found p q rows a)
  ]

  pub find_one_ext :
      (p q : A → Bool) → ((r : A) → p r ≡ q r) → (rows : List A) → find_one p rows ≡ find_one q rows
  unfolding find_one
  find_one_ext p q same [] = refl
  find_one_ext p q same (r ∷ rows) = ground (arith, same r, find_one_ext p q same rows)

  -- A row saved under a new key is the one that is found, if no other was.
  pub find_one-save_new :
      (key : A → ℕ) (p q : A → Bool) (a : A)
      → ((r : A) → (key r == key a) ≡ false → q r ≡ p r)
      → q a ≡ true
      → (rows : List A) → find_one p rows ≡ none
      → any (λ r. key r == key a) rows ≡ false
      → find_one q (save key a rows) ≡ some a
  unfolding find_one save
  find_one-save_new key p q a same t [] h fresh = ground arith
  find_one-save_new key p q a same t (r ∷ rows) h fresh =
      ground (arith, same r, find_one-save_new key p q a same t rows)
