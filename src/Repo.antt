-- ===== src/Repo.antt =====
-- A table behind a TypeORM repository, as the list of its rows in the order of insertion, with the
-- queries that the services make.
pub mod Laws
pub mod Finds
pub mod Keyed
pub mod Any
use kalam_network.Prelude.{
  ℕ, suc, Bool, true, false, Text, Option, none, some, List, [], ◌∷◌, ◌++◌, is_some, ◌==◌,
  if◌then◌else◌,
}

module _ {A : Type 0} where
  -- `findOne({ where })`, `getOne()`
  unfoldable pub find_one : (A → Bool) → List A → Option A
  find_one p [] = none
  find_one p (r ∷ rows) = if p r then some r else find_one p rows

  -- `find({ where })`, `getMany()`
  unfoldable pub find_all : (A → Bool) → List A → List A
  find_all p [] = []
  find_all p (r ∷ rows) = if p r then r ∷ find_all p rows else find_all p rows

  -- `count({ where })`
  unfoldable pub count : (A → Bool) → List A → ℕ
  count p [] = 0
  count p (r ∷ rows) = if p r then suc (count p rows) else count p rows

  -- `delete({ where })`, `remove(entity)`
  unfoldable pub delete_where : (A → Bool) → List A → List A
  delete_where p [] = []
  delete_where p (r ∷ rows) = if p r then delete_where p rows else r ∷ delete_where p rows

  -- `update().set().where().execute()`
  unfoldable pub update_where : (A → Bool) → (A → A) → List A → List A
  update_where p f [] = []
  update_where p f (r ∷ rows) = (if p r then f r else r) ∷ update_where p f rows

  -- `save(entity)` with the primary key `key`: the row with that key is replaced, or a row is added.
  unfoldable pub save : (A → ℕ) → A → List A → List A
  save key a [] = a ∷ []
  save key a (r ∷ rows) = if key r == key a then a ∷ rows else r ∷ save key a rows

  -- `findOne({ where: { id } })`
  abbrev pub find_key : (A → ℕ) → ℕ → List A → Option A
  find_key key k rows = find_one (λ r. key r == k) rows

  -- Whether some row satisfies the condition.
  abbrev pub any : (A → Bool) → List A → Bool
  any p rows = is_some (find_one p rows)

  -- `save(entity)` where `p` holds of the rows with the same composite primary key.
  unfoldable pub save_by : (A → Bool) → A → List A → List A
  save_by p a rows = if any p rows then update_where p (λ _. a) rows else rows ++ a ∷ []

-- A nullable column in a `where` clause: NULL equals nothing.
abbrev pub column_is : Option Text → Text → Bool
column_is none t = false
column_is (some u) t = u == t
