-- ===== src/Merge.antt =====
-- app/policies/strategies.py: the merge annotation of a field, what contributes to it, and the
-- outcome of a merge. The seven strategies stand in the children, and `apply_strategy` in `Apply`.
-- A strategy that raises returns `err`; `contributors` and `overridden` are in contribution order.
pub mod Flags
pub mod Sources
pub mod Extremum
pub mod Denial
pub mod Bounds
pub mod Lists
pub mod Union
pub mod Intersect
pub mod ByKey
pub mod Rank
pub mod Apply
pub mod Attribution
use tak_mdm.Base.{
  ℕ, String, Bool, true, false, ◌≡◌, refl, Option, none, some, List, [], ◌∷◌, map, keep, not,
  if◌then◌else◌, arith,
}
use tak_mdm.Base.Int.{ℤ}
use tak_mdm.Json.{Value, Items, Fields, arr, list_of, py_eq}

pub data MergeStrategy : Type 0 where
  most_restrictive max min union intersect merge_by_key highest_rank : MergeStrategy

pub record Merge : Type 0 where
  pub strategy : MergeStrategy
  pub key : Option String
  pub note : Option String
  -- the callable that names the entity which an item describes
  pub identity : Option (Fields → Value)

pub record SourceRef : Type 0 where
  pub assignment_id : String
  pub policy_id : String
  pub policy_name : String
  pub policy_version : ℕ
  pub scope : String
  pub rank : ℤ

pub record Contribution : Type 0 where
  pub value : Value
  pub source : SourceRef

pub record MergeOutcome : Type 0 where
  pub value : Value
  pub strategy : MergeStrategy
  pub contributors : List SourceRef
  pub winner : Option SourceRef
  pub overridden : List (Value × SourceRef)
  pub conflict : Bool

-- The `MergeError`s by what they complain of, the exceptions of Python itself, and the
-- `PolicyTypeError` of the registry in app/policies/registry.py, which the resolver lets through.
pub data Error : Type 0 where
  unknown_policy_type : Error
  requires_bool requires_list requires_key items_need_key empty_set : Error
  unorderable unhashable index_error stop_iteration : Error

-- What a strategy returns, or the exception that it raises instead.
pub data Result {ℓ} (A : Type ℓ) : Type ℓ where
  err : (raised : Error) → Result A
  ok : (returned : A) → Result A

infixl 5 ◌>>=◌
abbrev pub ◌>>=◌ {ℓ κ} : {A : Type ℓ} {B : Type κ} → Result A → (A → Result B) → Result B
err raised >>= next = err raised
ok returned >>= next = next returned

unfoldable pub sources : List Contribution → List SourceRef
sources = map (λ c. c.source)

-- Every contribution whose value is not the winning one, in order.
unfoldable pub losers : List Contribution → Value → List (Value × SourceRef)
losers cs winning_value =
    map (λ c. (c.value, c.source)) (keep (λ c. not (py_eq c.value winning_value)) cs)

unfoldable pub as_sequence : Value → Result (List Value)
as_sequence (arr vs) = ok (list_of vs)
as_sequence _ = err requires_list

-- A chain of calls that returns has returned at its first call.
pub >>=-eq-ok :
    {A B : Type 0} (first : Result A) (next : A → Result B) {b : B}
    → first >>= next ≡ ok b
    → (a : A) × (first ≡ ok a) × (next a ≡ ok b)
>>=-eq-ok (err raised) next h = absurd (cc)
>>=-eq-ok (ok returned) next h = (returned, refl, h)

pub ok_injective : {A : Type 0} {a b : A} → Result.ok a ≡ ok b → a ≡ b
ok_injective h = cc
