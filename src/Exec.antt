-- ===== src/Exec.antt =====
-- A call of a service method: state and exceptions. What was written before a throw stays written,
-- so the state comes back beside the error too.
use kalam_network.Prelude.{◌≡◌, refl, ap, ◌⊎◌, inl, inr, Bool, if◌then◌else◌, Option, none, some}

pub data Result (E A : Type 0) : Type 0 where
  ok : A → Result E A
  err : E → Result E A

abbrev pub Exec : Type 0 → Type 0 → Type 0 → Type 0
Exec S E A = S → Result E A × S

module _ {S E A : Type 0} where
  abbrev pub pure : A → Exec S E A
  pure a s = (ok a, s)

  abbrev pub throw : E → Exec S E A
  throw e s = (err e, s)

  abbrev pub gets : (S → A) → Exec S E A
  gets f s = (ok (f s), s)

  abbrev pub or_throw : Option A → E → Exec S E A
  or_throw none e s = (err e, s)
  or_throw (some a) e s = (ok a, s)

abbrev pub modify : {S E : Type 0} → (S → S) → Exec S E (Unit {0})
modify f s = (ok tt, f s)

-- `if (c) { throw e; }`
abbrev pub throw_if : {S E : Type 0} → Bool → E → Exec S E (Unit {0})
throw_if c e s = (if c then err e else ok tt, s)

-- `if (c) { m }`
abbrev pub when : {S E : Type 0} → Bool → Exec S E (Unit {0}) → Exec S E (Unit {0})
when c m s = if c then m s else (ok tt, s)

abbrev pub continue : {S E A B : Type 0} → Result E A → (A → Exec S E B) → Exec S E B
continue (ok a) f s = f a s
continue (err e) f s = (err e, s)

infixl 5 ◌>>=◌ ◌>>◌
abbrev pub ◌>>=◌ : {S E A B : Type 0} → Exec S E A → (A → Exec S E B) → Exec S E B
◌>>=◌ m f s = let (r, s') = m s in continue r f s'

abbrev pub ◌>>◌ : {S E B : Type 0} → Exec S E (Unit {0}) → Exec S E B → Exec S E B
m >> k = m >>= λ _. k

-- The result of a call, and the state after it.
abbrev pub result : {S E A : Type 0} → Exec S E A → S → Result E A
result m s = (m s).0

abbrev pub after : {S E A : Type 0} → Exec S E A → S → S
after m s = (m s).1

abbrev pub IsErr : {E A : Type 0} → Result E A → Type 0
IsErr (ok a) = ⊥
IsErr (err e) = Unit

pub Result-cases :
    {E A : Type 0} (r : Result E A) → ((a : A) × (r ≡ ok a)) ⊎ ((e : E) × (r ≡ err e))
Result-cases (ok a) = inl (a, refl)
Result-cases (err e) = inr (e, refl)

-- A call that starts with one whose outcome is known.
module _ {S E A B : Type 0} (m : Exec S E A) (f : A → Exec S E B) (s s' : S) where
  pub >>=-ok : (a : A) → m s ≡ (ok a, s') → (m >>= f) s ≡ f a s'
  >>=-ok a e = ap (λ (p : Result E A × S). continue p.0 f p.1) e

  pub >>=-err : (e : E) → m s ≡ (err e, s') → (m >>= f) s ≡ (err e, s')
  >>=-err x e = ap (λ (p : Result E A × S). continue p.0 f p.1) e
