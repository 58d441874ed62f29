-- ===== src/Match/Lifecycle/Rows.antt =====
-- The change of one row and of the table.
use leetbattle.Shared.{
  ◌≤◌, ◌≡◌, ◌∙◌, Bool, true, false, some, List, [], ◌∷◌, find, update_first, arith, Bool-cases, inl,
  inr,
}
use leetbattle.Domain.Types.{MatchState, lobby, finished, rematch_pending, state_eq}
use leetbattle.Domain.StateMachine.Laws.{Leads, stay, Leads-trans}
use leetbattle.Store.Rows.{MatchRow}
use leetbattle.Store.Watch.{Watch}

abbrev pub is_over : MatchState → Bool
is_over finished = true
is_over rematch_pending = true
is_over _ = false

abbrev pub is_waiting : MatchState → Bool
is_waiting lobby = true
is_waiting _ = false

-- The identity of a match stays and its version does not fall; outside the lobby its problem and
-- its times stay, and once it is over its result stays.
pub record RowFacts (m n : MatchRow) : Type 0 where
  pub same_id : n.id ≡ m.id
  pub same_room : n.room_id ≡ m.room_id
  pub same_mode : n.mode ≡ m.mode
  pub same_challenge : n.challenge ≡ m.challenge
  pub same_difficulty : n.difficulty ≡ m.difficulty
  pub same_round : n.round_number ≡ m.round_number
  pub version_grows : m.version ≤ n.version
  pub leaves_lobby : is_waiting m.state ≡ false → is_waiting n.state ≡ false
  pub same_problem : is_waiting m.state ≡ false → n.problem ≡ m.problem
  pub same_start : is_waiting m.state ≡ false → n.starts_at ≡ m.starts_at
  pub same_deadline : is_waiting m.state ≡ false → n.answer_deadline_at ≡ m.answer_deadline_at
  pub stays_over : is_over m.state ≡ true → is_over n.state ≡ true
  pub same_winner : is_over m.state ≡ true → n.winner ≡ m.winner
  pub same_reason : is_over m.state ≡ true → n.end_reason ≡ m.end_reason
  pub same_finish : is_over m.state ≡ true → n.finished_at ≡ m.finished_at
  pub same_records : is_over m.state ≡ true → n.records_applied ≡ m.records_applied

-- And the state follows the transition table.
pub record RowStep (m n : MatchRow) : Type 0 where
  pub leads : Leads m.state n.state
  pub facts : RowFacts m n

RowFacts-refl : (m : MatchRow) → RowFacts m m
RowFacts-refl m = ground arith

RowFacts-trans : (l m n : MatchRow) → RowFacts l m → RowFacts m n → RowFacts l n
RowFacts-trans l m n s t = record {
  same_id = t.same_id ∙ s.same_id;
  same_room = t.same_room ∙ s.same_room;
  same_mode = t.same_mode ∙ s.same_mode;
  same_challenge = t.same_challenge ∙ s.same_challenge;
  same_difficulty = t.same_difficulty ∙ s.same_difficulty;
  same_round = t.same_round ∙ s.same_round;
  version_grows = omega (arith, s.version_grows, t.version_grows);
  leaves_lobby = λ h. t.leaves_lobby (s.leaves_lobby h);
  same_problem = λ h. t.same_problem (s.leaves_lobby h) ∙ s.same_problem h;
  same_start = λ h. t.same_start (s.leaves_lobby h) ∙ s.same_start h;
  same_deadline = λ h. t.same_deadline (s.leaves_lobby h) ∙ s.same_deadline h;
  stays_over = λ h. t.stays_over (s.stays_over h);
  same_winner = λ h. t.same_winner (s.stays_over h) ∙ s.same_winner h;
  same_reason = λ h. t.same_reason (s.stays_over h) ∙ s.same_reason h;
  same_finish = λ h. t.same_finish (s.stays_over h) ∙ s.same_finish h;
  same_records = λ h. t.same_records (s.stays_over h) ∙ s.same_records h;
}

pub RowStep-refl : (m : MatchRow) → RowStep m m
RowStep-refl m = record { leads = stay; facts = RowFacts-refl m }

pub RowStep-trans : (l m n : MatchRow) → RowStep l m → RowStep m n → RowStep l n
RowStep-trans l m n s t = record {
  leads = Leads-trans s.leads t.leads;
  facts = RowFacts-trans l m n s.facts t.facts;
}

-- New matches come in front; the others keep their order and change by `RowStep`.
pub data Evolves : List MatchRow → List MatchRow → Type 0 where
  done : Evolves [] []
  grow : {ms ns : List MatchRow} {n : MatchRow} → Evolves ms ns → Evolves ms (n ∷ ns)
  step :
      {ms ns : List MatchRow} {m n : MatchRow}
      → RowStep m n
      → Evolves ms ns
      → Evolves (m ∷ ms) (n ∷ ns)

pub Evolves-refl : (ms : List MatchRow) → Evolves ms ms
Evolves-refl [] = done
Evolves-refl (m ∷ ms) = step (RowStep-refl m) (Evolves-refl ms)

pub Evolves-trans : {ls ms ns : List MatchRow} → Evolves ls ms → Evolves ms ns → Evolves ls ns
Evolves-trans e (grow f) = grow (Evolves-trans e f)
Evolves-trans done done = done
Evolves-trans (grow e) (step t f) = grow (Evolves-trans e f)
Evolves-trans (step {m = l} {n = m} s e) (step {n = n} t f) =
    step (RowStep-trans l m n s t) (Evolves-trans e f)

-- A write to the row that a query finds.
pub Evolves-update :
    (p : MatchRow → Bool) (f : MatchRow → MatchRow) (ms : List MatchRow)
    → ((m : MatchRow) → find p ms ≡ some m → p m ≡ true → RowStep m (f m))
    → Evolves ms (update_first p f ms)
Evolves-update p f [] h = done
Evolves-update p f (m ∷ ms) h = elim (Bool-cases (p m)) [
  | inl hit ↦ rw hit (step (h m (rw hit) hit) (Evolves-refl ms))
  | inr miss ↦
      rw miss (step (RowStep-refl m) (Evolves-update p f ms (λ n e hit. h n (rw miss e) hit)))
]

abbrev pub matches_watch : Watch
matches_watch = record {
  View = List MatchRow;
  view = λ db. db.matches;
  Rel = Evolves;
  rel_refl = Evolves-refl;
  rel_trans = λ u v w e f. Evolves-trans e f;
  rel_rollback = λ before after e. Evolves-refl before.matches;
}
