-- ===== src/Base/Outcome.antt =====
-- Methods that mutate an object and may raise. What was written before a raise stays written, so
-- the object comes back beside the exception too.
use mathlib.Core.List.{List, ◌∷◌}
use mathlib.Core.Path.{◌≡◌, refl, ap}
use mathlib.Core.Logic.{◌⊎◌, inl, inr}

pub data Exception : Type 0 where
  value_error key_error type_error yaml_error os_error runtime_error : Exception

pub data Outcome {ℓ} (A : Type ℓ) : Type ℓ where
  return : A → Outcome A
  raise : Exception → Outcome A

abbrev pub Method {ℓ} : Type ℓ → Type ℓ → Type ℓ
Method S A = S → Outcome A × S

module _ {ℓ} {S A : Type ℓ} where
  abbrev pub pure : A → Method S A
  pure a s = (return a, s)

  abbrev pub throw : Exception → Method S A
  throw e s = (raise e, s)

module _ {ℓ} {S A B : Type ℓ} where
  abbrev pub continue : Outcome A → (A → Method S B) → Method S B
  continue (return a) f s = f a s
  continue (raise e) f s = (raise e, s)

  infixl 5 ◌>>=◌ ◌>>◌
  abbrev pub ◌>>=◌ : Method S A → (A → Method S B) → Method S B
  ◌>>=◌ m f s = let (r, s') = m s in continue r f s'

  abbrev pub ◌>>◌ : Method S A → Method S B → Method S B
  m >> n = m >>= λ _. n

module _ {ℓ} {S A B : Type ℓ} (m : Method S A) (f : A → Method S B) where
  pub bind_raises : (s : S) (e : Exception) → (m s).0 ≡ raise e → (m >>= f) s ≡ (raise e, (m s).1)
  bind_raises s e failed = ap (λ r. continue r f (m s).1) failed

  pub bind_goes : (s : S) (a : A) → (m s).0 ≡ return a → (m >>= f) s ≡ f a (m s).1
  bind_goes s a went = ap (λ r. continue r f (m s).1) went

-- A row before what the rest of a loop returns, unless that raises.
abbrev pub prepend {ℓ} : {A : Type ℓ} → A → Outcome (List A) → Outcome (List A)
prepend a (return rest) = return (a ∷ rest)
prepend a (raise e) = raise e

pub Outcome-cases {ℓ} :
    {A : Type ℓ} (o : Outcome A) → ((e : Exception) × (o ≡ raise e)) ⊎ ((a : A) × (o ≡ return a))
Outcome-cases (return a) = inr (a, refl)
Outcome-cases (raise e) = inl (e, refl)

-- What holds of a value that is returned; nothing is asked of a raise.
abbrev pub OnReturn {ℓ κ} : {A : Type ℓ} → Outcome A → (A → Type κ) → Type κ
OnReturn (return a) P = P a
OnReturn (raise e) P = Unit

pub on_return {ℓ κ} :
    {A : Type ℓ} (o : Outcome A) (P : A → Type κ) → ((a : A) → o ≡ return a → P a) → OnReturn o P
on_return (return a) P h = h a refl
on_return (raise e) P h = tt
