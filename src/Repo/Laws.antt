-- ===== src/Repo/Laws.antt =====
-- What a write to a table does to the queries on it.
use mathlib.Core.Option
use kalam_network.Prelude.{
  ℕ, ◌≡◌, refl, Bool, true, none, some, List, [], ◌∷◌, ◌++◌, ◌+◌, ◌≤◌, false, arith, ◌==◌,
  if◌then◌else◌, inl, inr, Bool-cases,
}
use kalam_network.Repo.{find_one, update_where, save, find_key, delete_where, count}

module _ {A : Type 0} (key : A → ℕ) where
  -- A look up by the primary key after a save finds the saved row, and other rows as before.
  pub find_key-save :
      (k : ℕ) (a : A) (rows : List A)
      → find_key key k (save key a rows) ≡ (if key a == k then some a else find_key key k rows)
  unfolding find_one save
  find_key-save k a [] = refl
  find_key-save k a (r ∷ rows) = ground (arith, find_key-save k a rows)

module _ {A : Type 0} where
  -- What is found satisfies the condition.
  pub find_one_sound :
      (p : A → Bool) (rows : List A) (a : A) → find_one p rows ≡ some a → p a ≡ true
  unfolding find_one
  find_one_sound p [] a h = ground arith
  find_one_sound p (r ∷ rows) a h = elim (Bool-cases (p r)) [
    | inl e ↦ ground arith
    | inr e ↦ ground (arith, find_one_sound p rows a)
  ]

  -- An update that keeps the key acts on the row that is looked up.
  pub find_key-update_where :
      (key : A → ℕ) (p : A → Bool) (f : A → A)
      → ((r : A) → key (f r) ≡ key r)
      → (k : ℕ) (rows : List A)
      → find_key key k (update_where p f rows)
        ≡ Option.map (λ r. if p r then f r else r) (find_key key k rows)
  unfolding find_one update_where
  find_key-update_where key p f same k [] = refl
  find_key-update_where key p f same k (r ∷ rows) =
      ground (arith, same r, find_key-update_where key p f same k rows)

module _ {A : Type 0} where
  -- A row with a new key is added at the end.
  pub save_new :
      (key : A → ℕ) (a : A) (rows : List A)
      → find_key key (key a) rows ≡ none
      → save key a rows ≡ rows ++ a ∷ []
  unfolding find_one save
  save_new key a [] h = refl
  save_new key a (r ∷ rows) h = ground (arith, save_new key a rows)

  pub delete_missing :
      (key : A → ℕ) (k : ℕ) (rows : List A)
      → find_key key k rows ≡ none
      → delete_where (λ r. key r == k) rows ≡ rows
  unfolding find_one delete_where
  delete_missing key k [] h = refl
  delete_missing key k (r ∷ rows) h = ground (arith, delete_missing key k rows)

  -- A deletion by key takes away a row that has just been added under a new key.
  pub delete-save :
      (key : A → ℕ) (a : A) (rows : List A)
      → find_key key (key a) rows ≡ none
      → delete_where (λ r. key r == key a) (save key a rows) ≡ rows
  unfolding find_one save delete_where
  delete-save key a [] h = ground arith
  delete-save key a (r ∷ rows) h =
      ground (arith, delete-save key a rows, delete_missing key (key a) rows)

  pub count-append :
      (p : A → Bool) (rows more : List A) → count p (rows ++ more) ≡ count p rows + count p more
  unfolding count
  count-append p [] more = omega arith
  count-append p (r ∷ rows) more = ground (arith, count-append p rows more)

  -- Nothing is found exactly if nothing is counted.
  pub count_missing : (p : A → Bool) (rows : List A) → find_one p rows ≡ none → count p rows ≡ 0
  unfolding count find_one
  count_missing p [] h = refl
  count_missing p (r ∷ rows) h = ground (arith, count_missing p rows)

  -- A deletion does not touch the rows that its condition excludes, and leaves no row that it holds of.
  pub count-delete_where :
      (p q : A → Bool)
      → ((r : A) → p r ≡ true → q r ≡ false)
      → (rows : List A) → count q (delete_where p rows) ≡ count q rows
  unfolding count delete_where
  count-delete_where p q excludes [] = refl
  count-delete_where p q excludes (r ∷ rows) =
      ground (arith, excludes r, count-delete_where p q excludes rows)

  pub count-delete_le :
      (p q : A → Bool) (rows : List A) → count q (delete_where p rows) ≤ count q rows
  unfolding count delete_where
  count-delete_le p q [] = omega arith
  count-delete_le p q (r ∷ rows) = ground (arith, count-delete_le p q rows)
