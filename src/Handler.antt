-- ===== src/Handler.antt =====
-- What a gRPC handler does to the state that it shares with the other handlers: it returns a
-- response, returns an error, or panics on a nil pointer.
use ssle_project.Prelude.{◌≡◌, refl, ◌⊎◌, inl, inr, Option, none, some}

-- The errors that the handlers return. `raw` is an error of a call that is passed on as it is.
pub data Error : Type 0 where
  auth_failure server_error missing_advertise_url invalid_advertise_url : Error
  agent_already_exists raw : Error

pub data Outcome {ℓ} (A : Type ℓ) : Type ℓ where
  ok : A → Outcome A
  fail : Error → Outcome A
  panic : Outcome A

abbrev pub Handler {ℓ} : Type ℓ → Type ℓ → Type ℓ
Handler S A = S → Outcome A × S

module _ {ℓ} {S A : Type ℓ} where
  abbrev pub pure : A → Handler S A
  pure a s = (ok a, s)

  abbrev pub raise : Error → Handler S A
  raise e s = (fail e, s)

  -- A nil pointer is dereferenced.
  abbrev pub crash : Handler S A
  crash s = (panic, s)

  abbrev pub lift : Outcome A → Handler S A
  lift r s = (r, s)

-- A call whose error is only logged.
abbrev pub perform : {S : Type 0} → (S → S) → Handler S (Unit {0})
perform f s = (ok tt, f s)

module _ {ℓ} {S A B : Type ℓ} where
  abbrev pub and_then : Outcome A → (A → Handler S B) → Handler S B
  and_then (ok a) f s = f a s
  and_then (fail e) f s = (fail e, s)
  and_then panic f s = (panic, s)

  infixl 5 ◌>>=◌
  abbrev pub ◌>>=◌ : Handler S A → (A → Handler S B) → Handler S B
  ◌>>=◌ m f s = and_then (m s).0 f (m s).1

-- A call of the store that may fail: the handler goes on with what it returned or with nothing.
abbrev pub Call {ℓ} : Type ℓ → Type ℓ → Type ℓ
Call S A = S → Option A × S

module _ {ℓ} {A : Type ℓ} where
  abbrev pub unwrap : Error → Option A → Outcome A
  unwrap e none = fail e
  unwrap e (some a) = ok a

  abbrev pub recovered : Outcome A → Outcome (Option A)
  recovered (ok a) = ok (some a)
  recovered (fail e) = ok none
  recovered panic = panic

module _ {ℓ} {S A : Type ℓ} where
  abbrev pub try : Call S A → Handler S (Option A)
  try c s = (ok (c s).0, (c s).1)

  -- `if err != nil { return nil, e }`
  abbrev pub or_fail : Error → Call S A → Handler S A
  or_fail e c s = (unwrap e (c s).0, (c s).1)

  -- The caller looks at the error itself.
  abbrev pub catch_error : Handler S A → Handler S (Option A)
  catch_error m s = (recovered (m s).0, (m s).1)

module _ {ℓ} {A : Type ℓ} where
  -- To split on a computed outcome and keep the equation.
  pub Outcome-cases :
      (r : Outcome A) → ((a : A) × (r ≡ ok a)) ⊎ (((err : Error) × (r ≡ fail err)) ⊎ (r ≡ panic))
  Outcome-cases (ok a) = inl (a, refl)
  Outcome-cases (fail err) = inr (inl (err, refl))
  Outcome-cases panic = inr (inr refl)
