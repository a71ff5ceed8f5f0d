-- ===== src/Prelude/Exceptions.antt =====
-- What a call that may throw gives back.
use Prim.Native.String.{String}
use mathlib.Core.Path.{◌≡◌, refl, sym, subst}
use mathlib.Core.List.{List}
use nodestack.Prelude.Lists.{All, All-map}

-- The exceptions that the modelled code can throw. An `AppError` has a message and a status.
pub data Error : Type 0 where
  -- a row with the same primary key is there already
  unique_constraint : Error
  -- `new Date(t).toISOString()` of a time out of range
  invalid_time : Error
  -- a value that cannot be bound to an SQL parameter
  cannot_bind : Error
  -- a method call on a value that lacks the method
  type_error : Error
  app_error : String → Error

pub data Outcome {ℓ} (A : Type ℓ) : Type ℓ where
  ok : A → Outcome A
  throw : Error → Outcome A

-- The rest of a call is left out once something has thrown.
infixl 5 ◌>>=◌
abbrev pub ◌>>=◌ {ℓ κ} : {A : Type ℓ} {B : Type κ} → Outcome A → (A → Outcome B) → Outcome B
throw e >>= rest = throw e
ok a >>= rest = rest a

-- `P` holds of the result, if the call gives one.
pub data Ensures {ℓ κ} {A : Type ℓ} (P : A → Type κ) (m : Outcome A) : Type (ℓ ⊔ κ) where
  returns : (a : A) → m ≡ ok a → P a → Ensures P m
  throws : (e : Error) → m ≡ throw e → Ensures P m

module _ {ℓ κ} {A : Type ℓ} {P : A → Type κ} where
  pub ok-Ensures : {a : A} → P a → Ensures P (ok a)
  ok-Ensures p = returns _ refl p

  pub throw-Ensures : {e : Error} → Ensures P (throw e)
  throw-Ensures = throws _ refl

module _ {ℓ κ} {A : Type ℓ} {B : Type κ} where
  pub bind-Ensures {μ ν} :
      {Q : A → Type μ} {P : B → Type ν} {m : Outcome A} {f : A → Outcome B}
      → Ensures Q m
      → ((a : A) → Q a → Ensures P (f a))
      → Ensures P (m >>= f)
  bind-Ensures (returns a e q) k = rw e (k a q)
  bind-Ensures (throws x e) k = rw e throw-Ensures

  -- Where nothing is known of the first result.
  pub bind-any-Ensures {ν} :
      {P : B → Type ν} (m : Outcome A) {f : A → Outcome B}
      → ((a : A) → Ensures P (f a))
      → Ensures P (m >>= f)
  bind-any-Ensures (ok a) k = k a
  bind-any-Ensures (throw e) k = throw-Ensures

pub ok-injective {ℓ} : {A : Type ℓ} {a b : A} → ok a ≡ ok b → a ≡ b
ok-injective h = cc h

-- A call that gives a result has had a result of its first step.
pub bind-ok {ℓ κ} :
    {A : Type ℓ} {B : Type κ} {b : B} (rest : A → Outcome B) (first : Outcome A)
    → (first >>= rest) ≡ ok b
    → (a : A) × (first ≡ ok a) × (rest a ≡ ok b)
bind-ok rest (throw e) h = absurd (cc h)
bind-ok rest (ok a) h = (a, refl, h)

-- What is known of a result that a call gives.
pub Ensures-ok {ℓ κ} : {A : Type ℓ} (P : A → Type κ) (a : A) → Ensures P (ok a) → P a
Ensures-ok P a (returns b e p) = subst P (ok-injective (sym e)) p
Ensures-ok P a (throws x e) = absurd (cc e)

-- Several things that a call ensures, it ensures at once.
pub both-Ensures {ℓ κ μ} :
    {A : Type ℓ} {P : A → Type κ} {Q : A → Type μ} (m : Outcome A)
    → Ensures P m
    → Ensures Q m
    → Ensures (λ a. P a × Q a) m
both-Ensures {P = P} {Q = Q} (ok a) p q = ok-Ensures (Ensures-ok P a p, Ensures-ok Q a q)
both-Ensures (throw e) p q = throw-Ensures

pub All-Ensures {ℓ κ μ} :
    {A : Type ℓ} {B : Type κ} (P : B → A → Type μ) (m : Outcome A) (bs : List B)
    → All (λ b. Ensures (P b) m) bs
    → Ensures (λ a. All (λ b. P b a) bs) m
All-Ensures P (ok a) bs h = ok-Ensures (All-map _ _ (λ b e. Ensures-ok (P b) a e) bs h)
All-Ensures P (throw e) bs h = throw-Ensures
