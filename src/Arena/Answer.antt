-- ===== src/Arena/Answer.antt =====
-- src/shared/ai-ml-answer.ts. A text is its code points, and `normalize("NFC")` is a parameter.
pub mod Bounds
use leetbattle.Shared.{
  ℕ, suc, ◌+◌, Bool, true, false, not, ◌&&◌, ◌||◌, List, [], ◌∷◌, length, any, leb, ltb, nat_beq,
  if◌then◌else◌,
}

-- AI_ML_ANSWER_LIMITS.
pub record AnswerConstraints : Type 0 where
  pub max_words : ℕ
  pub max_characters : ℕ
  pub max_utf8_bytes : ℕ

abbrev pub answer_limits : AnswerConstraints
answer_limits = record { max_words = 500; max_characters = 12000; max_utf8_bytes = 24000 }

-- AiMlAnswerLimitCode.
pub data Violation : Type 0 where
  too_many_words too_many_characters too_many_utf8_bytes : Violation

abbrev pub newline : ℕ
newline = 10

abbrev pub space : ℕ
space = 32

-- `\s`: the white space of the language and its line terminators.
abbrev pub is_space : ℕ → Bool
is_space c =
    leb 9 c && leb c 13
    || (any (nat_beq c)
          (32 ∷ 0xa0 ∷ 0x1680 ∷ 0x2028 ∷ 0x2029 ∷ 0x202f ∷ 0x205f ∷ 0x3000 ∷ 0xfeff ∷ [])
        || leb 0x2000 c && leb c 0x200a)

-- `\r`, next line, and the separators of lines and paragraphs.
abbrev pub is_line_end : ℕ → Bool
is_line_end c = any (nat_beq c) (13 ∷ 0x85 ∷ 0x2028 ∷ 0x2029 ∷ [])

-- After a `\r`, a `\n` belongs to the same line end.
abbrev pub line_ends_after : Bool → List ℕ → List ℕ
line_ends_after cr [] = []
line_ends_after cr (c ∷ cs) =
    let rest = line_ends_after (nat_beq c 13) cs in
    if cr && nat_beq c newline then rest else (if is_line_end c then newline else c) ∷ rest

-- `replace(/\r\n?|[\u0085\u2028\u2029]/gu, "\n")`.
unfoldable pub line_ends : List ℕ → List ℕ
line_ends cs = line_ends_after false cs

abbrev pub is_horizontal : ℕ → Bool
is_horizontal c = is_space c && not (nat_beq c newline)

abbrev pub collapse_after : Bool → List ℕ → List ℕ
collapse_after blank [] = []
collapse_after blank (c ∷ cs) =
    let rest = collapse_after (is_horizontal c) cs in
    if is_horizontal c then (if blank then rest else space ∷ rest) else c ∷ rest

-- `replace(/[^\S\n]+/gu, " ")`.
unfoldable pub collapse : List ℕ → List ℕ
collapse cs = collapse_after false cs

-- What follows the spaces of a text.
abbrev pub after_spaces : List ℕ → List ℕ
after_spaces [] = []
after_spaces (c ∷ cs) = if nat_beq c space then after_spaces cs else c ∷ cs

abbrev pub starts_line : List ℕ → Bool
starts_line [] = false
starts_line (c ∷ cs) = nat_beq c newline

-- A space goes if a newline follows its run of spaces, or if one came before it.
abbrev pub tighten_after : Bool → List ℕ → List ℕ
tighten_after line [] = []
tighten_after line (c ∷ cs) =
    let drop = nat_beq c space && (line || starts_line (after_spaces cs)) in
    let rest = tighten_after (nat_beq c newline || (line && nat_beq c space)) cs in
    if drop then rest else c ∷ rest

-- `replace(/ *\n */gu, "\n")`.
unfoldable pub tighten : List ℕ → List ℕ
tighten cs = tighten_after false cs

abbrev pub trim_start : List ℕ → List ℕ
trim_start [] = []
trim_start (c ∷ cs) = if is_space c then trim_start cs else c ∷ cs

abbrev pub is_blank : List ℕ → Bool
is_blank [] = true
is_blank (c ∷ cs) = is_space c && is_blank cs

abbrev pub trim_end : List ℕ → List ℕ
trim_end [] = []
trim_end (c ∷ cs) = if is_blank (c ∷ cs) then [] else c ∷ trim_end cs

-- `trim()`.
unfoldable pub trim : List ℕ → List ℕ
trim cs = trim_end (trim_start cs)

unfoldable pub normalize_answer : (List ℕ → List ℕ) → List ℕ → List ℕ
unfolding line_ends collapse tighten trim
normalize_answer nfc answer = trim (tighten (collapse (line_ends (nfc answer))))

-- The parts of `split(/\s+/u)`.
abbrev pub parts_after : Bool → List ℕ → ℕ
parts_after blank [] = 1
parts_after blank (c ∷ cs) =
    let rest = parts_after (is_space c) cs in if is_space c && not blank then suc rest else rest

abbrev pub count_words : List ℕ → ℕ
count_words [] = 0
count_words (c ∷ cs) = parts_after false (c ∷ cs)

-- A code point in UTF-8; a lone surrogate is written as U+FFFD.
abbrev pub utf8_length : ℕ → ℕ
utf8_length c = if ltb c 0x80 then 1 else if ltb c 0x800 then 2 else if ltb c 0x10000 then 3 else 4

abbrev pub count_bytes : List ℕ → ℕ
count_bytes [] = 0
count_bytes (c ∷ cs) = utf8_length c + count_bytes cs

-- AiMlAnswerMeasurement.
pub record Measurement : Type 0 where
  pub normalized : List ℕ
  pub word_count : ℕ
  pub character_count : ℕ
  pub utf8_byte_count : ℕ
  pub violations : List Violation

abbrev pub push_if : Bool → Violation → List Violation → List Violation
push_if b v vs = if b then v ∷ vs else vs

abbrev pub violations_of : AnswerConstraints → ℕ → ℕ → ℕ → List Violation
violations_of limits words characters bytes = push_if (ltb limits.max_words words) too_many_words (
    push_if (ltb limits.max_characters characters) too_many_characters
      (push_if (ltb limits.max_utf8_bytes bytes) too_many_utf8_bytes []))

abbrev pub measure_normalized : AnswerConstraints → List ℕ → Measurement
measure_normalized limits normalized = record {
  normalized = normalized;
  word_count = count_words normalized;
  character_count = length normalized;
  utf8_byte_count = count_bytes normalized;
  violations =
      violations_of limits (count_words normalized) (length normalized) (count_bytes normalized);
}

unfoldable pub measure_answer : (List ℕ → List ℕ) → AnswerConstraints → List ℕ → Measurement
measure_answer nfc limits answer = measure_normalized limits (normalize_answer nfc answer)
