-- ===== src/Spec/Nodes.antt =====
-- The tree that the two text formats are read into, and the fields of its maps:
-- src/behavior/behavior_spec.cpp. `std::stod` and `std::tolower` are parameters.
use dedalus.Base.{pos, Bool, true, false, Option, none, some, String, str_eq, if◌then◌else◌, Double}
use dedalus.Spec.{SpecError, Result, ok, raise, ◌>>=◌}

-- A node has the one of the members `scalar`, `map` and `sequence` that its kind names.
mutual
  pub data ConfigNode : Type 0 where
    undefined : ConfigNode
    scalar : String → ConfigNode
    map : Entries → ConfigNode
    sequence : Nodes → ConfigNode

  pub data Entries : Type 0 where
    end : Entries
    entry : String → ConfigNode → Entries → Entries

  pub data Nodes : Type 0 where
    nil : Nodes
    cons : ConfigNode → Nodes → Nodes

-- The number that the whole text is, if it is one; a text in lower case.
pub record SpecText (R : Type 0) : Type 0 where
  pub stod : String → Option R
  pub lower : String → String

abbrev pub find_entry : String → Entries → Option ConfigNode
find_entry key end = none
find_entry key (entry k node entries) =
    let rest = find_entry key entries in if str_eq k key then some node else rest

abbrev pub child : ConfigNode → String → Option ConfigNode
child (map entries) key = find_entry key entries
child _ key = none

abbrev pub required_child : ConfigNode → String → Result ConfigNode
required_child node key = elim (child node key) [
  | none ↦ raise (SpecError.missing_field key)
  | some value ↦ ok value
]

abbrev pub scalar_string : ConfigNode → String → Result String
scalar_string (scalar text) key = ok text
scalar_string _ key = raise (SpecError.expected_scalar key)

unfoldable pub optional_string : ConfigNode → String → String → Result String
optional_string node key fallback = elim (child node key) [
  | none ↦ ok fallback
  | some value ↦ scalar_string value key
]

abbrev pub is_map : ConfigNode → Bool
is_map (map entries) = true
is_map _ = false

module _ {R : Type 0} ⦃d : Double R⦄ ⦃text : SpecText R⦄ where
  abbrev pub parse_double_text : String → String → Result R
  parse_double_text value key = elim (text.stod value) [
    | none ↦ raise (SpecError.invalid_number key)
    | some parsed ↦ ok parsed
  ]

  unfoldable pub optional_double : ConfigNode → String → R → Result R
  optional_double node key fallback = elim (child node key) [
    | none ↦ ok fallback
    | some value ↦ do s ← scalar_string value key; parse_double_text s key
  ]

  unfoldable pub required_double : ConfigNode → String → Result R
  required_double node key = do
    value ← required_child node key
    s ← scalar_string value key
    parse_double_text s key

  abbrev pub one : R
  one = d.of_int (pos 1)

  abbrev pub five : R
  five = d.of_int (pos 5)
