-- ===== src/Store/Clock.antt =====
-- The clock between two statements.
use leetbattle.Shared.{ℕ, ◌≤◌, ◌≡◌, refl, ap, ◌∙◌, List, [], ◌∷◌, arith}
use leetbattle.Domain.Errors.{ok}
use leetbattle.Store.Rows.{Db}
use leetbattle.Store.Tx.{advance, clock_timestamp}

-- The database when the clock is read.
abbrev pub tick : Db → Db
tick db = advance db db.delays

advance-eq :
    (db : Db) (ds : List ℕ)
    → advance db ds ≡ record db { clock = (advance db ds).clock; delays = (advance db ds).delays }
advance-eq db [] = refl
advance-eq db (d ∷ ds) = refl

pub tick-eq : (db : Db) → tick db ≡ record db { clock = (tick db).clock; delays = (tick db).delays }
tick-eq db = advance-eq db db.delays

advance-clock :
    (d e : Db) (ds : List ℕ) → d.clock ≡ e.clock → (advance d ds).clock ≡ (advance e ds).clock
advance-clock d e [] h = h
advance-clock d e (x ∷ ds) h = omega (arith, h)

pub tick-clock :
    (d e : Db) → d.clock ≡ e.clock → d.delays ≡ e.delays → (tick d).clock ≡ (tick e).clock
tick-clock d e h k = advance-clock d e d.delays h ∙ ap (λ ds. (advance e ds).clock) k

advance-le : (db : Db) (ds : List ℕ) → db.clock ≤ (advance db ds).clock
advance-le db [] = omega arith
advance-le db (d ∷ ds) = omega arith

pub tick-le : (db : Db) → db.clock ≤ (tick db).clock
tick-le db = advance-le db db.delays

pub clock-ok :
    (db after : Db) (t : ℕ)
    → clock_timestamp db ≡ (ok t, after)
    → (t ≡ (tick db).clock) × (after ≡ tick db)
unfolding clock_timestamp
clock-ok db after t h = ground arith
