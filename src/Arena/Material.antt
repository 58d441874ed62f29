-- ===== src/Arena/Material.antt =====
-- `parsePrivateMaterial` of arena-service.ts: the rubric of a question, from a JSONB column.
pub mod Rubric
use text.Mathlib.Text.{◌==◌ as str_eq}
use leetbattle.Shared.{
  ℕ, ◌||◌, Option, some, none, List, [], ◌∷◌, String, length, sum_by, ltb, nat_beq, not,
  if◌then◌else◌,
}
use leetbattle.Judge.Scoring.Types.{whole}
use leetbattle.Store.Json.{
  Json, string, number, array, object, Items, end, item, Fields, empty, field,
}
use leetbattle.Store.Evaluations.{RubricCriterion, Material}

abbrev pub member : String → Fields → Option Json
member key empty = none
member key (field name value rest) = if str_eq name key then some value else member key rest

-- `isRecord`.
abbrev pub fields_of : Option Json → Option Fields
fields_of (some (object fs)) = some fs
fields_of _ = none

abbrev pub text_of : Option Json → Option String
text_of (some (string s)) = some s
text_of _ = none

abbrev pub items_of : Option Json → Option Items
items_of (some (array xs)) = some xs
items_of _ = none

infixl 5 ◌>>=◌
abbrev pub ◌>>=◌ {ℓ κ} : {A : Type ℓ} {B : Type κ} → Option A → (A → Option B) → Option B
none >>= f = none
some a >>= f = f a

abbrev pub texts_in : Items → Option (List String)
texts_in end = some []
texts_in (item x xs) = do s ← text_of (some x); ss ← texts_in xs; some (s ∷ ss)

abbrev pub texts_of : Option Json → Option (List String)
texts_of o = do xs ← items_of o; texts_in xs

abbrev pub weight_in : Option Json → Option ℕ
weight_in (some (number (whole n))) = if ltb 0 n then some n else none
weight_in _ = none

abbrev pub criterion_of : Json → Option RubricCriterion
criterion_of x = do
  fs ← fields_of (some x)
  criterion ← text_of (member "id" fs)
  label ← text_of (member "label" fs)
  description ← text_of (member "description" fs)
  weight ← weight_in (member "weight" fs)
  some (record { criterion = criterion; label = label; description = description; weight = weight })

abbrev pub criteria_in : Items → Option (List RubricCriterion)
criteria_in end = some []
criteria_in (item x xs) = do c ← criterion_of x; cs ← criteria_in xs; some (c ∷ cs)

abbrev pub weight_of : RubricCriterion → ℕ
weight_of c = c.weight

-- Three to five criteria of 100 in all.
abbrev pub checked_criteria : List RubricCriterion → Option (List RubricCriterion)
checked_criteria cs =
    if ltb (length cs) 3 || (ltb 5 (length cs) || not (nat_beq (sum_by weight_of cs) 100))
    then none
    else some cs

-- `none` is a throw.
unfoldable pub parse_private_material : Json → Option Material
parse_private_material value = do
  fs ← fields_of (some value)
  notes ← text_of (member "referenceAnswerNotes" fs)
  concepts ← texts_of (member "requiredConcepts" fs)
  nuances ← texts_of (member "optionalNuances" fs)
  errors ← texts_of (member "seriousErrors" fs)
  xs ← items_of (member "criteria" fs)
  cs ← criteria_in xs
  criteria ← checked_criteria cs
  some (record {
    reference_answer_notes = notes;
    required_concepts = concepts;
    optional_nuances = nuances;
    serious_errors = errors;
    criteria = criteria;
  })
