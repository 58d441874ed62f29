-- ===== src/Domain/Types.antt =====
-- src/server/domain/types.ts: the enumerations, each with its equality test.
use leetbattle.Shared.{ℕ, ◌≡◌, ◌↔◌, true, arith, Eq, nat_beq, String}

pub data Difficulty : Type 0 where
  easy medium hard : Difficulty

pub data Language : Type 0 where
  python java : Language

pub data MatchMode : Type 0 where
  duel practice : MatchMode

pub data ChallengeType : Type 0 where
  coding ai_ml : ChallengeType

pub data MatchState : Type 0 where
  lobby countdown active judging finished rematch_pending : MatchState

pub data EndReason : Type 0 where
  accepted forfeit cancelled no_contest judged answer_timeout judge_failed : EndReason

pub data Verdict : Type 0 where
  accepted wrong_answer compile_error runtime_error timeout memory_limit output_limit infra_error :
      Verdict

pub data ExecutionKind : Type 0 where
  run submit : ExecutionKind

pub data Activity : Type 0 where
  thinking compiling judging cooldown accepted submitted disconnected : Activity

-- The outcome of a player, of PlayerSnapshot.
pub data Outcome : Type 0 where
  win loss draw no_contest cancelled : Outcome

pub data Slot : Type 0 where
  one two : Slot

-- PublicProblemRef.
pub record ProblemRef : Type 0 where
  pub problem : ℕ
  pub version : ℕ
  pub title : String
  pub difficulty : Difficulty

-- PublicAiMlQuestion of types.ts; the answer's limits are three numbers.
pub record AiMlQuestion : Type 0 where
  pub title : String
  pub prompt : String
  pub difficulty : Difficulty
  pub category : String
  pub max_words : ℕ
  pub max_characters : ℕ
  pub max_utf8_bytes : ℕ

abbrev pub difficulty_code : Difficulty → ℕ
difficulty_code easy = 0
difficulty_code medium = 1
difficulty_code hard = 2

abbrev pub mode_code : MatchMode → ℕ
mode_code duel = 0
mode_code practice = 1

abbrev pub challenge_code : ChallengeType → ℕ
challenge_code coding = 0
challenge_code ai_ml = 1

abbrev pub state_code : MatchState → ℕ
state_code lobby = 0
state_code countdown = 1
state_code active = 2
state_code judging = 3
state_code finished = 4
state_code rematch_pending = 5

abbrev pub reason_code : EndReason → ℕ
reason_code EndReason.accepted = 0
reason_code forfeit = 1
reason_code EndReason.cancelled = 2
reason_code EndReason.no_contest = 3
reason_code judged = 4
reason_code answer_timeout = 5
reason_code judge_failed = 6

abbrev pub verdict_code : Verdict → ℕ
verdict_code Verdict.accepted = 0
verdict_code wrong_answer = 1
verdict_code compile_error = 2
verdict_code runtime_error = 3
verdict_code timeout = 4
verdict_code memory_limit = 5
verdict_code output_limit = 6
verdict_code infra_error = 7

abbrev pub kind_code : ExecutionKind → ℕ
kind_code run = 0
kind_code submit = 1

abbrev pub activity_code : Activity → ℕ
activity_code thinking = 0
activity_code compiling = 1
activity_code Activity.judging = 2
activity_code cooldown = 3
activity_code Activity.accepted = 4
activity_code submitted = 5
activity_code disconnected = 6

abbrev pub slot_code : Slot → ℕ
slot_code one = 1
slot_code two = 2

pub difficulty_beq_iff :
    (a b : Difficulty) → (nat_beq (difficulty_code a) (difficulty_code b) ≡ true) ↔ (a ≡ b)
difficulty_beq_iff a b = ground arith

pub mode_beq_iff : (a b : MatchMode) → (nat_beq (mode_code a) (mode_code b) ≡ true) ↔ (a ≡ b)
mode_beq_iff a b = ground arith

pub challenge_beq_iff :
    (a b : ChallengeType) → (nat_beq (challenge_code a) (challenge_code b) ≡ true) ↔ (a ≡ b)
challenge_beq_iff a b = ground arith

pub state_beq_iff : (a b : MatchState) → (nat_beq (state_code a) (state_code b) ≡ true) ↔ (a ≡ b)
state_beq_iff a b = ground arith

pub reason_beq_iff : (a b : EndReason) → (nat_beq (reason_code a) (reason_code b) ≡ true) ↔ (a ≡ b)
reason_beq_iff a b = ground arith

pub verdict_beq_iff : (a b : Verdict) → (nat_beq (verdict_code a) (verdict_code b) ≡ true) ↔ (a ≡ b)
verdict_beq_iff a b = ground arith

pub kind_beq_iff : (a b : ExecutionKind) → (nat_beq (kind_code a) (kind_code b) ≡ true) ↔ (a ≡ b)
kind_beq_iff a b = ground arith

pub activity_beq_iff :
    (a b : Activity) → (nat_beq (activity_code a) (activity_code b) ≡ true) ↔ (a ≡ b)
activity_beq_iff a b = ground arith

pub slot_beq_iff : (a b : Slot) → (nat_beq (slot_code a) (slot_code b) ≡ true) ↔ (a ≡ b)
slot_beq_iff a b = ground arith

instance abbrev pub difficulty_eq : Eq Difficulty
difficulty_eq = record {
  test = λ a b. nat_beq (difficulty_code a) (difficulty_code b);
  test_iff = difficulty_beq_iff;
}

instance abbrev pub mode_eq : Eq MatchMode
mode_eq = record { test = λ a b. nat_beq (mode_code a) (mode_code b); test_iff = mode_beq_iff }

instance abbrev pub challenge_eq : Eq ChallengeType
challenge_eq = record {
  test = λ a b. nat_beq (challenge_code a) (challenge_code b);
  test_iff = challenge_beq_iff;
}

instance abbrev pub state_eq : Eq MatchState
state_eq = record { test = λ a b. nat_beq (state_code a) (state_code b); test_iff = state_beq_iff }

instance abbrev pub reason_eq : Eq EndReason
reason_eq = record {
  test = λ a b. nat_beq (reason_code a) (reason_code b);
  test_iff = reason_beq_iff;
}

instance abbrev pub verdict_eq : Eq Verdict
verdict_eq = record {
  test = λ a b. nat_beq (verdict_code a) (verdict_code b);
  test_iff = verdict_beq_iff;
}

instance abbrev pub kind_eq : Eq ExecutionKind
kind_eq = record { test = λ a b. nat_beq (kind_code a) (kind_code b); test_iff = kind_beq_iff }

instance abbrev pub activity_eq : Eq Activity
activity_eq = record {
  test = λ a b. nat_beq (activity_code a) (activity_code b);
  test_iff = activity_beq_iff;
}

instance abbrev pub slot_eq : Eq Slot
slot_eq = record { test = λ a b. nat_beq (slot_code a) (slot_code b); test_iff = slot_beq_iff }
