-- ===== src/Arena/Deadlines/Missing.antt =====
-- The answers that are put in for players who have sent none.
use leetbattle.Shared.{
  ℕ, ◌≡◌, refl, sym, subst, Bool, true, ◌&&◌, Option, some, none, List, [], ◌∷◌, ◌++◌, find, select,
  all, arith, is_some, nat_beq, ◌==◌, Bool-cases, inl, inr,
}
use leetbattle.Domain.Types.{state_eq, Slot, one, two, slot_eq}
use leetbattle.Store.Rows.{ParticipantRow}
use leetbattle.Store.Evaluations.{AnswerRow}
use leetbattle.Match.Snapshot.{by_slot}
use leetbattle.Arena.Preparation.{is_answer_of}
use leetbattle.Arena.Deadlines.{add_answer, is_missing}
use leetbattle.Arena.Rounds.Rows.{Grows, same, Grows-trans, Grows-locked}
use leetbattle.Arena.Rounds.Writes.{Grows-add_answer}

abbrev pub is_answered : ℕ → List AnswerRow → ParticipantRow → Bool
is_answered id ws p = is_some (find (is_answer_of id p.user) ws)

unfoldable pub add_all : ℕ → ℕ → List ParticipantRow → List AnswerRow → List AnswerRow
add_all id until [] ws = ws
add_all id until (p ∷ ps) ws = add_all id until ps (add_answer id until p ws)

add_all-Grows :
    (id until : ℕ) (ps : List ParticipantRow) (ws : List AnswerRow)
    → Grows ws (add_all id until ps ws)
unfolding add_all
add_all-Grows id until [] ws = same
add_all-Grows id until (p ∷ ps) ws =
    Grows-trans (Grows-add_answer id until p ws _ refl)
      (add_all-Grows id until ps (add_answer id until p ws))

answered_of :
    (id user : ℕ) {vs ws : List AnswerRow} (o : Option AnswerRow)
    → Grows vs ws
    → find (is_answer_of id user) vs ≡ o
    → is_some o ≡ true
    → is_some (find (is_answer_of id user) ws) ≡ true
answered_of id user none g e h = ground arith
answered_of id user (some w) g e h = rw (Grows-locked id user w g e) refl

is_answered-add_answer :
    (id until : ℕ) (p : ParticipantRow) (ws : List AnswerRow)
    → is_answered id (add_answer id until p ws) p ≡ true
is_answered-add_answer id until p ws = ground arith

pub add_all_answered :
    (id until : ℕ) (ps : List ParticipantRow) (vs ws : List AnswerRow)
    → all (λ p. nat_beq p.match_id id) ps ≡ true
    → Grows vs ws
    → all (is_answered id (add_all id until (select (is_missing vs) ps) ws)) ps ≡ true
unfolding add_all
add_all_answered id until [] vs ws h g = refl
add_all_answered id until (p ∷ ps) vs ws h g = elim (Bool-cases (is_missing vs p)) [
  | inl missing ↦
      let qs = select (is_missing vs) ps in
      let here =
        answered_of id p.user _ (add_all-Grows id until qs (add_answer id until p ws)) refl
          (is_answered-add_answer id until p ws) in
      let rest =
        add_all_answered id until ps vs (add_answer id until p ws) (ground arith)
          (Grows-trans g (Grows-add_answer id until p ws _ refl)) in
      let chosen : select (is_missing vs) (p ∷ ps) ≡ p ∷ qs = rw missing refl in
      subst (λ rs. all (is_answered id (add_all id until rs ws)) (p ∷ ps) ≡ true) (sym chosen)
        (ground (arith, here, rest))
  | inr there ↦
      let qs = select (is_missing vs) ps in
      let of_match : p.match_id ≡ id = ground (arith, h) in
      let old : is_some (find (is_answer_of id p.user) vs) ≡ true =
        rw (sym of_match) (ground (arith, there)) in
      let here = answered_of id p.user _ (Grows-trans g (add_all-Grows id until qs ws)) refl old in
      let rest = add_all_answered id until ps vs ws (ground arith) g in
      let chosen : select (is_missing vs) (p ∷ ps) ≡ qs = rw there refl in
      subst (λ rs. all (is_answered id (add_all id until rs ws)) (p ∷ ps) ≡ true) (sym chosen)
        (ground (arith, here, rest))
]

pub all_kept :
    (id : ℕ) (ps : List ParticipantRow) {vs ws : List AnswerRow}
    → Grows vs ws
    → all (is_answered id vs) ps ≡ true
    → all (is_answered id ws) ps ≡ true
all_kept id [] g h = refl
all_kept id (p ∷ ps) g h =
    let here = answered_of id p.user _ g refl (ground arith) in
    let rest = all_kept id ps g (ground arith) in ground (arith, here, rest)

all-append :
    (f : ParticipantRow → Bool) (ps qs : List ParticipantRow)
    → all f ps ≡ true
    → all f qs ≡ true
    → all f (ps ++ qs) ≡ true
all-append f [] qs h k = k
all-append f (p ∷ ps) qs h k =
    let rest = all-append f ps qs (ground arith) k in ground (arith, rest)

all-select_of :
    (id : ℕ) (s : Slot) (ps : List ParticipantRow)
    → all (λ p. nat_beq p.match_id id) (select (λ p. nat_beq p.match_id id && p.slot == s) ps)
      ≡ true
all-select_of id s [] = refl
all-select_of id s (p ∷ ps) = let rest = all-select_of id s ps in ground (arith, rest)

pub all-by_slot :
    (id : ℕ) (ps : List ParticipantRow) → all (λ p. nat_beq p.match_id id) (by_slot id ps) ≡ true
all-by_slot id ps =
    all-append (λ p. nat_beq p.match_id id)
      (select (λ p. nat_beq p.match_id id && p.slot == one) ps)
      (select (λ p. nat_beq p.match_id id && p.slot == two) ps) (all-select_of id one ps)
      (all-select_of id two ps)
