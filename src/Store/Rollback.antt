-- ===== src/Store/Rollback.antt =====
-- Transactions that fail, and transactions that write nothing.
use leetbattle.Shared.{◌≡◌, ◌≢◌, refl, Bool, true, false, arith}
use leetbattle.Domain.Errors.{Result, ok, err, Error}
use leetbattle.Store.Rows.{Db}
use leetbattle.Store.Tx.{M, begin, commit, rollback, guard, pure, raise, ◌>>=◌, ◌>>◌}

-- No table has changed.
abbrev pub IsUnwritten : Db → Db → Type 0
IsUnwritten before after = after ≡ rollback before after

module _ {A : Type 0} where
  commit-err :
      (before mid : Db) (r : Result A) (e : Error) (after : Db)
      → commit before (r, mid) ≡ (err e, after)
      → IsUnwritten before after
  commit-err before mid (ok a) e after h = ground arith
  commit-err before mid (err x) e after h = ground arith

  pub begin-err :
      (m : M A) (db : Db) (e : Error) (after : Db)
      → begin m db ≡ (err e, after)
      → IsUnwritten db after
  unfolding begin
  begin-err m db e after h = let (r, mid) = m db in commit-err db mid r e after h

-- An action that writes nothing and does not return the value.
pub record IsVain {A : Type 0} (m : M A) (a : A) (db : Db) : Type 0 where
  pub unwritten : IsUnwritten db (m db).1
  pub other : (m db).0 ≢ ok a

module _ {A : Type 0} where
  commit-IsUnwritten :
      (before mid : Db) (r : Result A)
      → IsUnwritten before mid
      → IsUnwritten before (commit before (r, mid)).1
  commit-IsUnwritten before mid (ok a) h = h
  commit-IsUnwritten before mid (err e) h = refl

  commit-other :
      (before mid : Db) (r : Result A) (a : A) → r ≢ ok a → (commit before (r, mid)).0 ≢ ok a
  commit-other before mid (ok b) a h = h
  commit-other before mid (err e) a h = h

  pub begin-IsUnwritten :
      (m : M A) (db : Db) → IsUnwritten db (m db).1 → IsUnwritten db (begin m db).1
  unfolding begin
  begin-IsUnwritten m db h = let (r, mid) = m db in commit-IsUnwritten db mid r h

  pub begin-IsVain : (m : M A) (a : A) (db : Db) → IsVain m a db → IsVain (begin m) a db
  unfolding begin
  begin-IsVain m a db h =
      let (r, mid) = m db in
      record {
        unwritten = commit-IsUnwritten db mid r h.unwritten;
        other = commit-other db mid r a h.other;
      }

  pub guard-IsVain :
      (b : Bool) (e : Error) (m : M A) (a : A) (db : Db)
      → IsVain m a db
      → IsVain (do guard b e; m) a db
  unfolding guard pure raise ◌>>=◌
  guard-IsVain true e m a db h = h
  guard-IsVain false e m a db h = record { unwritten = refl; other = λ p. ground (arith, p) }
