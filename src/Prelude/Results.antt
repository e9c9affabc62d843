-- ===== src/Prelude/Results.antt =====
-- Fallible code: every `raise` of the modelled files that a caller can see is an `Error`.
use mathlib.Core.Path.{◌≡◌, refl}
use mathlib.Core.Bool.{Bool, true, false}
use mathlib.Core.Logic.{◌⊎◌, inl, inr}
use mathlib.Core.Option.{Option, none, some}
use git_hub_issue_to_impleme.Prelude.Str.{Text}

pub data Error : Type 0 where
  -- pydantic's ValidationError, a ValueError
  validation_error : Error
  -- the ValueErrors raised by the program itself
  value_error : Text → Error
  -- RuntimeToolViolation, a ValueError
  tool_violation : Text → Error
  -- StateStoreError, a RuntimeError
  state_store_error : Text → Error
  -- WorktreeError, a RuntimeError
  worktree_error : Text → Error
  -- sqlite3.IntegrityError
  integrity_error : Error
  -- RunNotFoundError, a LookupError, and RunConflictError, a RuntimeError
  run_not_found : Text → Error
  run_conflict : Text → Error
  -- TypeError
  type_error : Text → Error
  -- KeyError
  key_error : Text → Error
  -- OSError
  os_error : Error

-- What `except ValueError` catches.
abbrev pub is_value_error : Error → Bool
is_value_error Error.validation_error = true
is_value_error (Error.value_error m) = true
is_value_error (Error.tool_violation m) = true
is_value_error _ = false

pub data Result {ℓ} (V : Type ℓ) : Type ℓ where
  err : Error → Result V
  ok : V → Result V

abbrev pub is_ok {ℓ} : {A : Type ℓ} → Result A → Bool
is_ok (ok a) = true
is_ok (err e) = false

-- `if not b: raise e`
abbrev pub guard : Bool → Error → Result (Unit {0})
guard false raised = err raised
guard true raised = ok tt

infixl 5 ◌>>=◌ ◌>>◌
abbrev pub ◌>>=◌ {ℓ κ} : {V : Type ℓ} {W : Type κ} → Result V → (V → Result W) → Result W
err raised >>= next = err raised
ok value >>= next = next value

abbrev pub ◌>>◌ {κ} : {W : Type κ} → Result (Unit {0}) → Result W → Result W
first >> next = first >>= λ _. next

pub >>=-eq-ok {ℓ κ} :
    {V : Type ℓ} {W : Type κ} (first : Result V) (next : V → Result W) {w : W}
    → (first >>= next) ≡ ok w
    → (v : V) × (first ≡ ok v) × (next v ≡ ok w)
>>=-eq-ok (err raised) next made = cc
>>=-eq-ok (ok v) next made = (v, refl, made)

pub ok-injective {ℓ} : {A : Type ℓ} {a b : A} → ok a ≡ ok b → a ≡ b
ok-injective h = cc

pub err≢ok {ℓ} : {A : Type ℓ} {e : Error} {a : A} → err e ≡ ok a → ⊥
err≢ok h = cc

-- `if o is None: raise e`
abbrev pub or_raise {ℓ} : {A : Type ℓ} → Option A → Error → Result A
or_raise none e = err e
or_raise (some a) e = ok a

pub or_raise-eq-ok {ℓ} :
    {A : Type ℓ} (o : Option A) (e : Error) {a : A} → or_raise o e ≡ ok a → o ≡ some a
or_raise-eq-ok none e h = cc
or_raise-eq-ok (some a) e h = cc

pub guard-eq-ok : (b : Bool) (e : Error) {u : Unit {0}} → guard b e ≡ ok u → b ≡ true
guard-eq-ok true e h = refl
guard-eq-ok false e h = cc

pub Result-cases {ℓ} :
    {A : Type ℓ} (r : Result A) → ((e : Error) × (r ≡ err e)) ⊎ ((a : A) × (r ≡ ok a))
Result-cases (err e) = inl (e, refl)
Result-cases (ok a) = inr (a, refl)
