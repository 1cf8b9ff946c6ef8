-- ===== src/Go/Errors.antt =====
-- Go's `error`, and functions that return `(T, error)`.
use goshield.Prelude.{ℕ, String, Bool, true, false}

-- `external n` is the failure of the n-th call of a database, a broker or another service. `wrap`
-- is `fmt.Errorf` with `%w`: it is not `==` to the error inside. `nil_pointer` is no error but the
-- panic of a use of a nil pointer.
pub data Error : Type 0 where
  not_found forbidden already_exists token_not_found token_revoked token_expired nil_pointer : Error
  external : ℕ → Error
  errorf : String → Error
  wrap : String → Error → Error

-- `err == ErrNotFound`: the test of identity, which a wrapped error fails.
abbrev pub is_not_found : Error → Bool
is_not_found not_found = true
is_not_found _ = false

abbrev pub is_already_exists : Error → Bool
is_already_exists already_exists = true
is_already_exists _ = false

pub data Result {ℓ} (A : Type ℓ) : Type ℓ where
  ok : A → Result A
  err : Error → Result A

abbrev pub is_ok {ℓ} : {A : Type ℓ} → Result A → Bool
is_ok (ok a) = true
is_ok (err e) = false

-- `return …, fmt.Errorf("context: %w", err)`.
abbrev pub wrapf {ℓ} : {A : Type ℓ} → String → Result A → Result A
wrapf context (ok a) = ok a
wrapf context (err e) = err (wrap context e)

-- The chain of `if err != nil { return err }`.
infixl 5 ◌>>=◌
abbrev pub ◌>>=◌ {ℓ κ} : {A : Type ℓ} {B : Type κ} → Result A → (A → Result B) → Result B
err e >>= next = err e
ok a >>= next = next a

-- `if b { return fmt.Errorf(s) }`
abbrev pub refuse_if : Bool → String → Result (Unit {0})
refuse_if true s = err (errorf s)
refuse_if false s = ok tt

infixl 5 ◌>>◌
abbrev pub ◌>>◌ {ℓ κ} : {A : Type ℓ} {B : Type κ} → Result A → Result B → Result B
m >> n = m >>= λ _. n

-- A variable that an ignored error leaves at 0.
abbrev pub or_zero : Result ℕ → ℕ
or_zero (ok n) = n
or_zero (err e) = 0
