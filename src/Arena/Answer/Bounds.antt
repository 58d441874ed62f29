-- ===== src/Arena/Answer/Bounds.antt =====
-- The measures of an answer, against the constraints of the table ai_ml_answers
-- (db/migrations/004_ai_ml_arena.sql).
use leetbattle.Shared.{
  ℕ, suc, ◌*◌, ◌≤◌, ◌≡◌, ◌≢◌, refl, ◌⊎◌, inl, inr, Bool, true, false, not, List, [], ◌∷◌, length,
  arith, Bool-cases,
}
use leetbattle.Arena.Answer.{
  answer_limits, violations_of, is_space, line_ends, collapse, tighten, trim_start, is_blank,
  trim_end, trim, normalize_answer, parts_after, count_words, utf8_length, count_bytes, Measurement,
  measure_answer,
}

parts_bound : (blank : Bool) (cs : List ℕ) → parts_after blank cs ≤ suc (length cs)
parts_bound blank [] = omega arith
parts_bound blank (c ∷ cs) = let rest = parts_bound (is_space c) cs in ground (arith, rest)

parts_positive : (blank : Bool) (cs : List ℕ) → 1 ≤ parts_after blank cs
parts_positive blank [] = omega arith
parts_positive blank (c ∷ cs) = let rest = parts_positive (is_space c) cs in ground (arith, rest)

utf8_bounds : (c : ℕ) → (1 ≤ utf8_length c) × (utf8_length c ≤ 4)
utf8_bounds c = ground arith

bytes_bounds : (cs : List ℕ) → (length cs ≤ count_bytes cs) × (count_bytes cs ≤ 4 * length cs)
bytes_bounds [] = (omega arith, omega arith)
bytes_bounds (c ∷ cs) =
    let rest = bytes_bounds cs in
    let one = utf8_bounds c in (omega (arith, rest.0, one.0), omega (arith, rest.1, one.1))

-- The text does not begin with white space.
abbrev starts_well : List ℕ → Bool
starts_well [] = true
starts_well (c ∷ cs) = not (is_space c)

trim_start_well : (cs : List ℕ) → starts_well (trim_start cs) ≡ true
trim_start_well [] = refl
trim_start_well (c ∷ cs) = elim (Bool-cases (is_space c)) [
  | inl blank ↦ rw blank (trim_start_well cs)
  | inr ink ↦ rw ink (rw ink refl)
]

trim_end_well : (cs : List ℕ) → starts_well cs ≡ true → starts_well (trim_end cs) ≡ true
trim_end_well [] h = refl
trim_end_well (c ∷ cs) h = elim (Bool-cases (is_blank (c ∷ cs))) [
  | inl blank ↦ rw blank refl
  | inr ink ↦ rw ink h
]

words_bound : (cs : List ℕ) → starts_well cs ≡ true → count_words cs ≤ length cs
words_bound [] h = omega arith
words_bound (c ∷ cs) h =
    let ink : is_space c ≡ false = ground arith in rw ink (parts_bound false cs)

normalized_well :
    (nfc : List ℕ → List ℕ) (answer : List ℕ) → starts_well (normalize_answer nfc answer) ≡ true
unfolding normalize_answer trim
normalized_well nfc answer =
    let cs = tighten (collapse (line_ends (nfc answer))) in
    trim_end_well (trim_start cs) (trim_start_well cs)

-- Blank texts have no words, and others have.
abbrev IsCounted : List ℕ → ℕ → Type 0
IsCounted cs words = ((cs ≡ []) × (words ≡ 0)) ⊎ ((cs ≢ []) × (1 ≤ words))

count_words-IsCounted : (cs : List ℕ) → IsCounted cs (count_words cs)
count_words-IsCounted [] = inl (refl, refl)
count_words-IsCounted (c ∷ cs) = inr (λ e. ground (arith, e), parts_positive false (c ∷ cs))

-- What the table asks of an answer, and how its measures go together.
pub record IsStorable (m : Measurement) : Type 0 where
  pub few_words : m.word_count ≤ 500
  pub few_characters : m.character_count ≤ 12000
  pub few_bytes : m.utf8_byte_count ≤ 24000
  pub counted : IsCounted m.normalized m.word_count
  pub words_in_characters : m.word_count ≤ m.character_count
  pub characters_in_bytes : m.character_count ≤ m.utf8_byte_count
  pub bytes_of_characters : m.utf8_byte_count ≤ 4 * m.character_count

within :
    (words characters bytes : ℕ)
    → violations_of answer_limits words characters bytes ≡ []
    → (words ≤ 500) × (characters ≤ 12000) × (bytes ≤ 24000)
within words characters bytes h = ground arith

-- An answer that is found to violate no limit satisfies the constraints of the table: at most 500
-- words, 12000 characters and 24000 bytes, and no words just if it is empty. It has at most as many
-- words as characters and at most as many characters as bytes, of which there are at most four for
-- each.
pub measure_answer-IsStorable :
    (nfc : List ℕ → List ℕ) (answer : List ℕ)
    → (measure_answer nfc answer_limits answer).violations ≡ []
    → IsStorable (measure_answer nfc answer_limits answer)
unfolding measure_answer
measure_answer-IsStorable nfc answer h =
    let cs = normalize_answer nfc answer in
    let (words, characters, bytes) = within (count_words cs) (length cs) (count_bytes cs) h in
    let (at_least, at_most) = bytes_bounds cs in
    record {
      few_words = words;
      few_characters = characters;
      few_bytes = bytes;
      counted = count_words-IsCounted cs;
      words_in_characters = words_bound cs (normalized_well nfc answer);
      characters_in_bytes = at_least;
      bytes_of_characters = at_most;
    }
