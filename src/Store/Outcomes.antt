-- ===== src/Store/Outcomes.antt =====
-- What is known of an action that has returned.
use leetbattle.Shared.{◌≡◌, refl, Bool, true, Option, some, arith}
use leetbattle.Domain.Errors.{Result, ok, err, Error}
use leetbattle.Store.Rows.{Db}
use leetbattle.Store.Tx.{M, pure, raise, gets, guard, expect, begin, commit, continue, ◌>>=◌}

module _ {A B : Type 0} where
  -- Both parts have returned.
  pub record Both (m : M A) (k : A → M B) (db : Db) (b : B) (after : Db) : Type 0 where
    pub value : A
    pub between : Db
    pub first : m db ≡ (ok value, between)
    pub second : k value between ≡ (ok b, after)

  Both-continue :
      (m : M A) (k : A → M B) (db : Db) (b : B) (after between : Db) (r : Result A)
      → m db ≡ (r, between)
      → continue (r, between) k ≡ (ok b, after)
      → Both m k db b after
  Both-continue m k db b after between (ok a) e h = record {
    value = a;
    between = between;
    first = e;
    second = h;
  }
  Both-continue m k db b after between (err x) e h = ground arith

  pub bind-ok :
      (m : M A) (k : A → M B) (db : Db) (b : B) (after : Db)
      → (m >>= k) db ≡ (ok b, after)
      → Both m k db b after
  unfolding ◌>>=◌
  bind-ok m k db b after h =
      let (r, between) = m db in Both-continue m k db b after between r refl h

module _ {A : Type 0} where
  pub pure-ok :
      (a : A) (db : Db) (b : A) (after : Db) → pure a db ≡ (ok b, after) → (b ≡ a) × (after ≡ db)
  unfolding pure
  pure-ok a db b after h = ground arith

  pub gets-ok :
      (f : Db → A) (db : Db) (b : A) (after : Db)
      → gets f db ≡ (ok b, after)
      → (b ≡ f db) × (after ≡ db)
  unfolding gets
  gets-ok f db b after h = ground arith

  pub expect-ok :
      (o : Option A) (e : Error) (db : Db) (b : A) (after : Db)
      → expect o e db ≡ (ok b, after)
      → (o ≡ some b) × (after ≡ db)
  unfolding expect pure raise
  expect-ok o e db b after h = ground arith

  commit-ok :
      (before after : Db) (r : Result A) (mid : Db) (b : A)
      → commit before (r, mid) ≡ (ok b, after)
      → (r ≡ ok b) × (mid ≡ after)
  commit-ok before after r mid b h = ground arith

pub guard-ok :
    (t : Bool) (e : Error) (db : Db) (u : Unit {0}) (after : Db)
    → guard t e db ≡ (ok u, after)
    → (t ≡ true) × (after ≡ db)
unfolding guard pure raise
guard-ok t e db u after h = ground arith

pub begin-ok :
    {A : Type 0} (m : M A) (db : Db) (a : A) (after : Db)
    → begin m db ≡ (ok a, after)
    → m db ≡ (ok a, after)
unfolding begin
begin-ok m db a after h = let (r, mid) = m db in ground (arith, commit-ok db after r mid a h)
