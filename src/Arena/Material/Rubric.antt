-- ===== src/Arena/Material/Rubric.antt =====
-- What the parsed material of a question satisfies, and that every sound material is parsed.
use leetbattle.Shared.{
  ℕ, ◌≤◌, ◌<◌, ◌≡◌, refl, Option, some, none, List, [], ◌∷◌, String, length, sum_by, subst, sym,
  arith,
}
use leetbattle.Judge.Scoring.Types.{whole}
use leetbattle.Store.Json.{Json, string, number, array, object, Items, end, item, empty, field}
use leetbattle.Store.Evaluations.{RubricCriterion, Material}
use leetbattle.Arena.Material.{
  texts_in, member, fields_of, text_of, texts_of, items_of, weight_in, criterion_of, criteria_in,
  weight_of, checked_criteria, parse_private_material, ◌>>=◌,
}

abbrev IsPositive : List RubricCriterion → Type 0
IsPositive [] = Unit
IsPositive (c ∷ cs) = (0 < c.weight) × IsPositive cs

-- Three to five criteria of positive weights that add up to 100.
pub record IsRubric (cs : List RubricCriterion) : Type 0 where
  pub at_least : 3 ≤ length cs
  pub at_most : length cs ≤ 5
  pub of_hundred : sum_by weight_of cs ≡ 100
  pub positive : IsPositive cs

-- A material as the column has it.
abbrev texts_json : List String → Items
texts_json [] = end
texts_json (s ∷ ss) = item (string s) (texts_json ss)

abbrev criterion_json : RubricCriterion → Json
criterion_json c = object (
    field "id" (string c.criterion) (
      field "label" (string c.label) (
        field "description" (string c.description)
          (field "weight" (number (whole c.weight)) empty))))

abbrev criteria_json : List RubricCriterion → Items
criteria_json [] = end
criteria_json (c ∷ cs) = item (criterion_json c) (criteria_json cs)

abbrev pub material_json : Material → Json
material_json m = object (
    field "referenceAnswerNotes" (string m.reference_answer_notes) (
      field "requiredConcepts" (array (texts_json m.required_concepts)) (
        field "optionalNuances" (array (texts_json m.optional_nuances)) (
          field "seriousErrors" (array (texts_json m.serious_errors))
            (field "criteria" (array (criteria_json m.criteria)) empty)))))

texts_in-texts_json : (ss : List String) → texts_in (texts_json ss) ≡ some ss
texts_in-texts_json [] = refl
texts_in-texts_json (s ∷ ss) = rw (texts_in-texts_json ss) refl

criterion_of-criterion_json :
    (c : RubricCriterion) → 0 < c.weight → criterion_of (criterion_json c) ≡ some c
criterion_of-criterion_json c h = ground arith

criteria_in-criteria_json :
    (cs : List RubricCriterion) → IsPositive cs → criteria_in (criteria_json cs) ≡ some cs
criteria_in-criteria_json [] h = refl
criteria_in-criteria_json (c ∷ cs) h =
    rw (criterion_of-criterion_json c h.0) (rw (criteria_in-criteria_json cs h.1) refl)

checked_rubric : (cs : List RubricCriterion) → IsRubric cs → checked_criteria cs ≡ some cs
checked_rubric cs h = ground (arith, h.at_least, h.at_most, h.of_hundred)

-- The JSON of a material whose criteria are a rubric, three to five of positive weights that add up to
-- 100, is parsed and gives the material back.
pub parse-material_json :
    (m : Material) → IsRubric m.criteria → parse_private_material (material_json m) ≡ some m
unfolding parse_private_material
parse-material_json m h = rw (texts_in-texts_json m.required_concepts) (
    rw (texts_in-texts_json m.optional_nuances) (
      rw (texts_in-texts_json m.serious_errors) (
        rw (criteria_in-criteria_json m.criteria h.positive)
          (rw (checked_rubric m.criteria h) refl))))

bound-some :
    {A B : Type 0} (o : Option A) (k : A → Option B) (b : B)
    → (o >>= k) ≡ some b
    → (a : A) × (o ≡ some a) × (k a ≡ some b)
bound-some none k b h = ground arith
bound-some (some a) k b h = (a, refl, h)

weight_positive : (o : Option Json) (n : ℕ) → weight_in o ≡ some n → 0 < n
weight_positive none n h = ground arith
weight_positive (some x) n h = ground arith

criterion_positive : (x : Json) (c : RubricCriterion) → criterion_of x ≡ some c → 0 < c.weight
criterion_positive x c h =
    let (fs, _, h1) = bound-some (fields_of (some x)) _ c h in
    let (criterion, _, h2) = bound-some (text_of (member "id" fs)) _ c h1 in
    let (label, _, h3) = bound-some (text_of (member "label" fs)) _ c h2 in
    let (description, _, h4) = bound-some (text_of (member "description" fs)) _ c h3 in
    let (weight, e, h5) = bound-some (weight_in (member "weight" fs)) _ c h4 in
    let positive = weight_positive (member "weight" fs) weight e in ground arith

criteria_positive :
    (xs : Items) (cs : List RubricCriterion) → criteria_in xs ≡ some cs → IsPositive cs
criteria_positive end cs h = let e : cs ≡ [] = ground arith in subst IsPositive (sym e) tt
criteria_positive (item x xs) cs h =
    let (c, e, h1) = bound-some (criterion_of x) _ cs h in
    let (rest, f, h2) = bound-some (criteria_in xs) _ cs h1 in
    let here : cs ≡ c ∷ rest = ground arith in
    subst IsPositive (sym here) (criterion_positive x c e, criteria_positive xs rest f)

checked-IsRubric :
    (cs ds : List RubricCriterion) → checked_criteria cs ≡ some ds → IsPositive cs → IsRubric ds
checked-IsRubric cs ds h p =
    let e : ds ≡ cs = ground arith in
    subst IsRubric (sym e) (record {
      at_least = ground arith;
      at_most = ground arith;
      of_hundred = ground arith;
      positive = p;
    })

-- The criteria of a material that is parsed are a rubric: three to five, of positive weights that add
-- up to 100.
pub parse_private_material-IsRubric :
    (value : Json) (m : Material) → parse_private_material value ≡ some m → IsRubric m.criteria
unfolding parse_private_material
parse_private_material-IsRubric value m h =
    let (fs, _, h1) = bound-some (fields_of (some value)) _ m h in
    let (notes, _, h2) = bound-some (text_of (member "referenceAnswerNotes" fs)) _ m h1 in
    let (concepts, _, h3) = bound-some (texts_of (member "requiredConcepts" fs)) _ m h2 in
    let (nuances, _, h4) = bound-some (texts_of (member "optionalNuances" fs)) _ m h3 in
    let (errors, _, h5) = bound-some (texts_of (member "seriousErrors" fs)) _ m h4 in
    let (xs, _, h6) = bound-some (items_of (member "criteria" fs)) _ m h5 in
    let (cs, e, h7) = bound-some (criteria_in xs) _ m h6 in
    let (ds, f, h8) = bound-some (checked_criteria cs) _ m h7 in
    let same : m.criteria ≡ ds = ground arith in
    subst IsRubric (sym same) (checked-IsRubric cs ds f (criteria_positive xs cs e))
