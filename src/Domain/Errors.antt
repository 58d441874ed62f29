-- ===== src/Domain/Errors.antt =====
-- src/server/domain/errors.ts: a DomainError as a value, without its message. An Error that is no
-- DomainError is `fault`.
use leetbattle.Shared.{ℕ, Option, none, some}

pub data ErrorCode : Type 0 where
  auth_required profile_required username_invalid username_taken room_not_found room_full :
      ErrorCode
  host_cannot_join_own_room not_a_participant match_not_found invalid_state : ErrorCode
  invalid_language invalid_challenge_type language_required not_ready : ErrorCode
  no_problem_available rate_limited cooldown_active execution_in_progress : ErrorCode
  source_too_large answer_word_limit answer_character_limit answer_byte_limit : ErrorCode
  answer_deadline_passed answer_already_submitted judge_unavailable : ErrorCode
  idempotency_key_required idempotency_conflict rematch_expired : ErrorCode
  ticket_invalid ticket_replayed : ErrorCode

pub record DomainError : Type 0 where
  pub code : ErrorCode
  pub status : ℕ
  pub retry_at : Option ℕ

pub data Error : Type 0 where
  domain : DomainError → Error
  fault : Error

abbrev pub domain_error : ErrorCode → ℕ → Error
domain_error c s = domain (record { code = c; status = s; retry_at = none })

abbrev pub retry_error : ErrorCode → ℕ → ℕ → Error
retry_error c s at = domain (record { code = c; status = s; retry_at = some at })

pub data Result {ℓ} (A : Type ℓ) : Type ℓ where
  err : Error → Result A
  ok : A → Result A

infixl 5 ◌>>◌ ◌>>=◌
abbrev pub ◌>>=◌ {ℓ κ} : {A : Type ℓ} {B : Type κ} → Result A → (A → Result B) → Result B
err x >>= next = err x
ok a >>= next = next a

abbrev pub ◌>>◌ {ℓ} : {A : Type ℓ} → Result (Unit {0}) → Result A → Result A
first >> then = first >>= λ _. then
