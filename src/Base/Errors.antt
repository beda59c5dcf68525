-- ===== src/Base/Errors.antt =====
-- Errors as values: the classes of error that the modelled code tells apart, and Go's
-- `if err != nil { return err }` as the bind of a result type.
use mathlib.Core.Path.{◌≡◌, refl}
use mathlib.Core.Logic.{◌⊎◌, inl, inr}
use mathlib.Core.Bool.{Bool, true, false}
use mathlib.Core.Option.{Option, none, some}
use native.Mathlib.Omega.{arith}

-- `graph_invalid`, `store_busy`, `store_conflict` and `run_not_found` are `store.Error` with that
-- code. `constraint` and `foreign_key` are refusals of the database, `no_rows` is
-- `sql.ErrNoRows`, `lease_lost` is `errLeaseLost` and `unclassified` is any other error value.
-- `no_tick_left` is none of the code: a loop on fuel that ran out of it.
-- The formatted message of an error is left out.
pub data Error : Type 0 where
  graph_invalid store_busy store_conflict run_not_found : Error
  constraint foreign_key no_rows lease_lost unclassified no_tick_left : Error

-- a Go function's pair of a value and an error
pub data Result {ℓ} (A : Type ℓ) : Type ℓ where
  err : Error → Result A
  ok : A → Result A

-- `if !test { return err }`
abbrev pub require : Bool → Error → Result (Unit {0})
require test failure = elim test [ true ↦ ok tt | false ↦ err failure ]

infixl 5 ◌>>=◌ ◌>>◌
-- `if err != nil { return err }` after the first of two steps
abbrev pub ◌>>=◌ {ℓ κ} : {A : Type ℓ} {B : Type κ} → Result A → (A → Result B) → Result B
err failure >>= rest = err failure
ok value >>= rest = rest value

abbrev pub ◌>>◌ {ℓ} : {A : Type ℓ} (first : Result (Unit {0})) (rest : Result A) → Result A
err failure >> rest = err failure
ok _ >> rest = rest

abbrev pub from_option {ℓ} : {A : Type ℓ} → Error → Option A → Result A
from_option failure o = elim o [ none ↦ err failure | some value ↦ ok value ]

pub Result-cases {ℓ} :
    {A : Type ℓ} (r : Result A) → ((a : A) × (r ≡ ok a)) ⊎ ((e : Error) × (r ≡ err e))
Result-cases (err failure) = inr (failure, refl)
Result-cases (ok value) = inl (value, refl)

pub require-eq-ok :
    (test : Bool) (failure : Error) {u : Unit {0}} → require test failure ≡ ok u → test ≡ true
require-eq-ok test failure passed = ground arith

-- if two steps succeed, so does each
pub >>=-eq-ok {ℓ κ} :
    {A : Type ℓ} {B : Type κ} {last : B} (r : Result A) (rest : A → Result B)
    → (r >>= rest) ≡ ok last
    → (value : A) × (r ≡ ok value) × (rest value ≡ ok last)
>>=-eq-ok (err failure) rest both = cc
>>=-eq-ok (ok value) rest both = (value, refl, both)
