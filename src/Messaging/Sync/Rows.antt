-- ===== src/Messaging/Sync/Rows.antt =====
-- The rows of a table after an update and after a save under a new key.
use kalam_network.Prelude.{
  ℕ, ◌+◌, ◌≡◌, refl, Text, Bool, true, false, some, List, [], ◌∷◌, ◌==◌, if◌then◌else◌, arith, inl,
  inr, Bool-cases,
}
use kalam_network.Repo.{find_one, any, count, update_where, save}
use kalam_network.Messaging.Sync.{Message}

-- A row that is found and changed is in the table as changed.
pub any_updated :
    {A : Type 0} (c p q : A → Bool) (f : A → A) (rows : List A) (a : A)
    → find_one c rows ≡ some a
    → p a ≡ true
    → q (f a) ≡ true
    → any q (update_where p f rows) ≡ true
unfolding find_one update_where
any_updated c p q f [] a found h e = ground arith
any_updated c p q f (r ∷ rows) a found h e = elim (Bool-cases (c r)) [
  | inl t ↦ ground arith
  | inr n ↦ ground (arith, any_updated c p q f rows a)
]

-- A row that is found and not changed stays.
pub any_spared :
    {A : Type 0} (p q : A → Bool) (f : A → A) (rows : List A) (a : A)
    → find_one q rows ≡ some a
    → p a ≡ false
    → any q (update_where p f rows) ≡ true
unfolding find_one update_where
any_spared p q f [] a found h = ground arith
any_spared p q f (r ∷ rows) a found h = elim (Bool-cases (q r)) [
  | inl t ↦ ground arith
  | inr n ↦ ground (arith, any_spared p q f rows a)
]

pub any_saved :
    {A : Type 0} (key : A → ℕ) (q : A → Bool) (a : A) (rows : List A)
    → q a ≡ true
    → any q (save key a rows) ≡ true
unfolding find_one save
any_saved key q a [] h = ground arith
any_saved key q a (r ∷ rows) h = ground (arith, any_saved key q a rows h)

-- A save under a new key keeps what is there.
pub any_beside :
    {A : Type 0} (key : A → ℕ) (q : A → Bool) (a : A) (rows : List A)
    → any (λ r. key r == key a) rows ≡ false
    → any q rows ≡ true
    → any q (save key a rows) ≡ true
unfolding find_one save
any_beside key q a [] h e = ground arith
any_beside key q a (r ∷ rows) h e = ground (arith, any_beside key q a rows)

pub any_key_saved :
    {A : Type 0} (key : A → ℕ) (k : ℕ) (a : A) (rows : List A)
    → (key a == k) ≡ false
    → any (λ r. key r == k) (save key a rows) ≡ any (λ r. key r == k) rows
unfolding find_one save
any_key_saved key k a [] h = ground arith
any_key_saved key k a (r ∷ rows) h = ground (arith, any_key_saved key k a rows h)

pub count_key_saved :
    {A : Type 0} (key : A → ℕ) (k : ℕ) (a : A) (rows : List A)
    → any (λ r. key r == key a) rows ≡ false
    → count (λ r. key r == k) (save key a rows)
      ≡ count (λ r. key r == k) rows + (if key a == k then 1 else 0)
unfolding find_one save count
count_key_saved key k a [] h = ground arith
count_key_saved key k a (r ∷ rows) h = ground (arith, count_key_saved key k a rows)

pub ids_updated :
    (p : Message → Bool) (n : ℕ) (k : Text) (rows : List Message)
    → count (λ m. Message.id m == k) (update_where p (λ r. record r { sequence_number = n }) rows)
      ≡ count (λ m. Message.id m == k) rows
unfolding count update_where
ids_updated p n k [] = refl
ids_updated p n k (r ∷ rows) = ground (arith, ids_updated p n k rows)

pub any_id_updated :
    (p : Message → Bool) (n : ℕ) (k : Text) (rows : List Message)
    → any (λ m. Message.id m == k) (update_where p (λ r. record r { sequence_number = n }) rows)
      ≡ any (λ m. Message.id m == k) rows
unfolding find_one update_where
any_id_updated p n k [] = refl
any_id_updated p n k (r ∷ rows) = ground (arith, any_id_updated p n k rows)

pub zero_missing :
    (k : ℕ) (rows : List Message)
    → any (λ m. Message.id m == k) rows ≡ false
    → count (λ m. Message.id m == k) rows ≡ 0
unfolding find_one count
zero_missing k [] h = refl
zero_missing k (r ∷ rows) h = ground (arith, zero_missing k rows)
