-- ===== src/Repo/Keyed.antt =====
-- Tables whose primary key is free of duplicates: what a save and a removal of a row that was found
-- do to other queries.
use kalam_network.Prelude.{
  ℕ, ◌≡◌, ◌≤◌, refl, Bool, true, false, ◌&&◌, none, some, List, [], ◌∷◌, arith, ◌==◌, if◌then◌else◌,
  inl, inr, Bool-cases,
}
use kalam_network.Repo.{find_one, find_key, save, delete_where, count}
use kalam_network.Repo.Laws.{find_one_sound, delete_missing}

module _ {A : Type 0} where
  -- A row that is found counts.
  pub count_found :
      (p q : A → Bool) (rows : List A) (a : A)
      → find_one p rows ≡ some a
      → q a ≡ true
      → 1 ≤ count q rows
  unfolding find_one count
  count_found p q [] a h e = ground arith
  count_found p q (r ∷ rows) a h e = elim (Bool-cases (p r)) [
    | inl t ↦ ground arith
    | inr f ↦ ground (arith, count_found p q rows a)
  ]

  -- A row that is found by any condition is found by its key, if no other row has it.
  pub find_by_own_key :
      (key : A → ℕ) (p : A → Bool) (rows : List A) (a : A)
      → find_one p rows ≡ some a
      → count (λ r. key r == key a) rows ≤ 1
      → find_key key (key a) rows ≡ some a
  unfolding find_one count
  find_by_own_key key p [] a h once = ground arith
  find_by_own_key key p (r ∷ rows) a h once = elim (Bool-cases (p r)) [
    | inl t ↦ ground arith
    | inr f ↦
        ground (arith, find_by_own_key key p rows a, count_found p (λ x. key x == key a) rows a)
  ]

  -- A save of a row that replaces `old`, and satisfies a condition exactly if `old` does.
  pub find_one-save :
      (key : A → ℕ) (p : A → Bool) (a old : A) (rows : List A)
      → find_key key (key a) rows ≡ some old
      → p a ≡ p old
      → (p a ≡ true → find_one p rows ≡ some old)
      → find_one p (save key a rows) ≡ (if p a then some a else find_one p rows)
  unfolding find_one save
  find_one-save key p a old [] h same first = ground arith
  find_one-save key p a old (r ∷ rows) h same first = elim (Bool-cases (p a)) [
    | inl t ↦ ground (
      arith,
      first t,
      find_one_sound (λ x. key x == key a) (r ∷ rows) old h,
      find_one-save key p a old rows,
    )
    | inr f ↦ ground (arith, find_one-save key p a old rows)
  ]

  pub count-save :
      (key : A → ℕ) (p : A → Bool) (a old : A) (rows : List A)
      → find_key key (key a) rows ≡ some old
      → p a ≡ p old
      → count p (save key a rows) ≡ count p rows
  unfolding find_one save count
  count-save key p a old [] h same = ground arith
  count-save key p a old (r ∷ rows) h same = ground (arith, count-save key p a old rows)

  pub find_missing : (p : A → Bool) (rows : List A) → count p rows ≡ 0 → find_one p rows ≡ none
  unfolding find_one count
  find_missing p [] h = refl
  find_missing p (r ∷ rows) h = ground (arith, find_missing p rows)

  -- The removal of a row by its key does not touch what it does not satisfy.
  pub find_one-remove :
      (key : A → ℕ) (p : A → Bool) (a : A) (rows : List A)
      → find_key key (key a) rows ≡ some a
      → count (λ r. key r == key a) rows ≤ 1
      → p a ≡ false
      → find_one p (delete_where (λ r. key r == key a) rows) ≡ find_one p rows
  unfolding find_one delete_where count
  find_one-remove key p a [] h once f = refl
  find_one-remove key p a (r ∷ rows) h once f = ground (
    arith,
    find_missing (λ x. key x == key a) rows,
    delete_missing key (key a) rows,
    find_one-remove key p a rows,
  )

  find_missing_deleted :
      (p q : A → Bool) (rows : List A) → count p rows ≡ 0 → find_one p (delete_where q rows) ≡ none
  unfolding find_one delete_where count
  find_missing_deleted p q [] h = refl
  find_missing_deleted p q (r ∷ rows) h = ground (arith, find_missing_deleted p q rows)

  -- The one row that satisfies a condition is not found after its removal.
  pub find_one_removed :
      (key : A → ℕ) (p : A → Bool) (a : A) (rows : List A)
      → find_one p rows ≡ some a
      → count p rows ≤ 1
      → find_one p (delete_where (λ r. key r == key a) rows) ≡ none
  unfolding find_one delete_where count
  find_one_removed key p a [] h once = refl
  find_one_removed key p a (r ∷ rows) h once = elim (Bool-cases (p r)) [
    | inl t ↦ ground (arith, find_missing_deleted p (λ x. key x == key a) rows)
    | inr f ↦ ground (arith, find_one_removed key p a rows)
  ]

  -- A row that is found by two conditions is found by the first, if only one row satisfies it.
  pub find_one_both :
      (p q : A → Bool) (rows : List A) (a : A)
      → find_one (λ r. p r && q r) rows ≡ some a
      → count p rows ≤ 1
      → find_one p rows ≡ some a
  unfolding find_one count
  find_one_both p q [] a h once = ground arith
  find_one_both p q (r ∷ rows) a h once = elim (Bool-cases (p r)) [
    | inl t ↦ elim (Bool-cases (q r)) [
      | inl t' ↦ ground arith
      | inr f' ↦
          ground
            (arith, count_found (λ x. p x && q x) p rows a, find_one_sound (λ x. p x && q x) rows a)
    ]
    | inr f ↦ ground (arith, find_one_both p q rows a)
  ]
