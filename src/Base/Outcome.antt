-- ===== src/Base/Outcome.antt =====
-- The result of code with assertions: `failed` is an `assert` that did not hold.
use mathlib.Core.Bool.{Bool, true, false}

pub data Checked {ℓ} (A : Type ℓ) : Type ℓ where
  failed : Checked A
  ok : A → Checked A

-- What follows an assertion is not run when it fails.
infixl 5 ◌>>=◌ ◌>>◌
abbrev pub ◌>>=◌ {ℓ κ} : {A : Type ℓ} {B : Type κ} → Checked A → (A → Checked B) → Checked B
failed >>= next = failed
(ok value) >>= next = next value

abbrev pub ◌>>◌ {ℓ} : {B : Type ℓ} → Checked (Unit {0}) → Checked B → Checked B
assertion >> rest = assertion >>= λ _. rest

-- `assert(b)`.
abbrev pub check : Bool → Checked (Unit {0})
check false = failed
check true = ok tt

-- No assertion failed, and the predicate holds of the value.
abbrev pub Succeeds {ℓ} : {A : Type ℓ} → (A → Type 0) → Checked A → Type 0
Succeeds P (ok value) = P value
Succeeds P failed = ⊥

pub Succeeds-bind {ℓ κ} :
    {A : Type ℓ} {B : Type κ} (P : A → Type 0) (Q : B → Type 0) (r : Checked A) (f : A → Checked B)
    → Succeeds P r
    → ((a : A) → P a → Succeeds Q (f a))
    → Succeeds Q (r >>= f)
Succeeds-bind P Q (ok a) f v h = h a v
Succeeds-bind P Q failed f v h = absurd v

pub Succeeds-map {ℓ} :
    {A : Type ℓ} (P Q : A → Type 0) (r : Checked A)
    → Succeeds P r
    → ((a : A) → P a → Q a)
    → Succeeds Q r
Succeeds-map P Q (ok a) h f = f a h
Succeeds-map P Q failed h f = absurd h
