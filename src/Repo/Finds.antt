-- ===== src/Repo/Finds.antt =====
-- What an addition at the end and a deletion do to what is found.
use kalam_network.Prelude.{
  ◌≡◌, refl, Bool, true, false, ◌||◌, none, List, [], ◌∷◌, ◌++◌, arith, is_some,
}
use kalam_network.Repo.{find_one, delete_where}

module _ {A : Type 0} where
  pub find_one-append :
      (p : A → Bool) (rows : List A) (a : A)
      → is_some (find_one p (rows ++ a ∷ [])) ≡ is_some (find_one p rows) || p a
  unfolding find_one
  find_one-append p [] a = ground arith
  find_one-append p (r ∷ rows) a = ground (arith, find_one-append p rows a)

  -- Nothing is found that the deletion covers.
  pub find_one_deleted :
      (p q : A → Bool)
      → ((r : A) → q r ≡ true → p r ≡ true)
      → (rows : List A) → find_one q (delete_where p rows) ≡ none
  unfolding find_one delete_where
  find_one_deleted p q covers [] = refl
  find_one_deleted p q covers (r ∷ rows) =
      ground (arith, covers r, find_one_deleted p q covers rows)

  -- What the deletion excludes is found as before.
  pub find_one_kept :
      (p q : A → Bool)
      → ((r : A) → p r ≡ true → q r ≡ false)
      → (rows : List A) → find_one q (delete_where p rows) ≡ find_one q rows
  unfolding find_one delete_where
  find_one_kept p q excludes [] = refl
  find_one_kept p q excludes (r ∷ rows) =
      ground (arith, excludes r, find_one_kept p q excludes rows)
