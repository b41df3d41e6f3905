-- ===== src/Prelude/Results.antt =====
-- A computation that may raise. An error carries its class (errors.py and the built-in ones); the
-- texts of the messages are not modelled.
use mathlib.Core.Path.{◌≡◌, refl}
use mathlib.Core.Bool.{Bool, true, false}

-- `value_error` stands for ValueError and for pydantic's ValidationError, which is one.
pub data Error : Type 0 where
  value_error key_error type_error : Error
  domain_invariant domain_capacity schema_version : Error
  overflow_error permission_error : Error
  ledger_integrity event_conflict expected_sequence_error : Error
  bridge_binding bridge_closed bridge_clean_closed bridge_abandoned : Error
  capture_sequence_error capture_gap_required integrity_error : Error

pub data Result {ℓ} (A : Type ℓ) : Type ℓ where
  err : Error → Result A
  ok : A → Result A

module _ {ℓ κ} {A : Type ℓ} {B : Type κ} where
  infixl 5 ◌>>=◌ ◌>>◌
  abbrev pub ◌>>=◌ : Result A → (A → Result B) → Result B
  err e >>= rest = err e
  ok a >>= rest = rest a

  abbrev pub ◌>>◌ : Result A → Result B → Result B
  m >> rest = m >>= λ _. rest

  -- What a successful bind went through.
  pub >>=-eq-ok :
      (m : Result A) (rest : A → Result B) {b : B}
      → (m >>= rest) ≡ ok b
      → (a : A) × (m ≡ ok a) × (rest a ≡ ok b)
  >>=-eq-ok (err e) rest h = cc
  >>=-eq-ok (ok a) rest h = (a, refl, h)

-- What a successful sequence ended with.
pub >>-eq-ok {ℓ κ} :
    {A : Type ℓ} {B : Type κ} (m : Result A) (rest : Result B) {b : B}
    → (m >> rest) ≡ ok b
    → rest ≡ ok b
>>-eq-ok (err e) rest h = cc
>>-eq-ok (ok a) rest h = h

-- `if condition: raise error`, written with the condition that lets the code go on
abbrev pub guard : Bool → Error → Result (Unit {0})
guard false error = err error
guard true error = ok tt

-- `try: body` / `except Exception: raise error`
abbrev pub rewrap {ℓ} : {A : Type ℓ} → Error → Result A → Result A
rewrap e (ok a) = ok a
rewrap e (err _) = err e

module _ {ℓ} {A : Type ℓ} where
  pub guard-eq-ok :
      (b : Bool) (e : Error) (m : Result A) {a : A}
      → (guard b e >> m) ≡ ok a
      → (b ≡ true) × (m ≡ ok a)
  guard-eq-ok true e m h = (refl, h)
  guard-eq-ok false e m h = cc

  pub rewrap-eq-ok : (e : Error) (m : Result A) {a : A} → rewrap e m ≡ ok a → m ≡ ok a
  rewrap-eq-ok e (ok a) h = h
  rewrap-eq-ok e (err _) h = cc
