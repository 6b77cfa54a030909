-- ===== src/Spec.antt =====
-- The parser of behaviour specifications, from the tree of nodes on: src/behavior/behavior_spec.cpp
-- and behavior_spec_strings.cpp. The children hold the names of the enumerations and the records.
pub mod Names
pub mod Spelling
pub mod Nodes
pub mod Records
pub mod Fields
pub mod Decode
pub mod Checks
pub mod Missions
use dedalus.Base.{Bool, true, false, Option, none, some, String}

-- One constructor per kind of `throw`, with the field or the name; the texts are not modelled.
pub data SpecError : Type 0 where
  missing_field expected_scalar invalid_number invalid_field : String → SpecError
  unknown_name : String → SpecError
  root_not_a_map : SpecError

pub data Result {ℓ} (A : Type ℓ) : Type ℓ where
  ok : A → Result A
  raise : SpecError → Result A

infixl 5 ◌>>=◌
abbrev pub ◌>>=◌ {ℓ κ} : {A : Type ℓ} {B : Type κ} → Result A → (A → Result B) → Result B
ok a >>= f = f a
raise e >>= f = raise e

-- `if (bad) throw`.
abbrev pub reject_if : Bool → SpecError → Result {0} Unit
reject_if true e = raise e
reject_if false e = ok tt
