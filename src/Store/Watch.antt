-- ===== src/Store/Watch.antt =====
-- How an action changes a view of the database: a relation between the view before and after, with
-- one rule for each way to build an action.
use leetbattle.Shared.{
  ◌≡◌, refl, ◌∙◌, Bool, true, false, Option, some, none, if◌then◌else◌, subst, sym,
}
use leetbattle.Domain.Errors.{Result, ok, err, Error}
use leetbattle.Store.Rows.{Db}
use leetbattle.Store.Tx.{
  M, pure, raise, lift, gets, ◌>>=◌, guard, expect, begin, continue, commit, rollback,
}

pub record Watch : Type 1 where
  pub View : Type 0
  pub view : Db → View
  pub Rel : View → View → Type 0
  pub rel_refl : (v : View) → Rel v v
  pub rel_trans : (u v w : View) → Rel u v → Rel v w → Rel u w
  pub rel_rollback :
      (before after : Db)
      → Rel (view before) (view after)
      → Rel (view before) (view (rollback before after))

module _ (W : Watch) where
  open W use {View, view, Rel, rel_refl, rel_trans, rel_rollback}

  -- From a database with the view `v` the action leads to a related one.
  pub record Run {A : Type 0} (v : View) (m : M A) : Type 0 where
    pub at : (db : Db) → view db ≡ v → Rel v (view (m db).1)

  -- The action leaves the view as it is.
  pub record Keeps {A : Type 0} (m : M A) : Type 0 where
    pub at : (db : Db) → view (m db).1 ≡ view db

  module _ {A : Type 0} where
    pub Keeps-pure : (a : A) → Keeps (pure a)
    unfolding pure
    Keeps-pure a = record { at = λ db. refl }

    pub Keeps-raise : (e : Error) → Keeps (raise {A = A} e)
    unfolding raise
    Keeps-raise e = record { at = λ db. refl }

    pub Keeps-lift : (r : Result A) → Keeps (lift r)
    unfolding lift
    Keeps-lift r = record { at = λ db. refl }

    pub Keeps-gets : (f : Db → A) → Keeps (gets f)
    unfolding gets
    Keeps-gets f = record { at = λ db. refl }

    pub Keeps-expect : (o : Option A) (e : Error) → Keeps (expect o e)
    unfolding expect
    Keeps-expect none e = Keeps-raise e
    Keeps-expect (some a) e = Keeps-pure a

    pub Keeps-if : (b : Bool) (m n : M A) → Keeps m → Keeps n → Keeps (if b then m else n)
    Keeps-if true m n km kn = km
    Keeps-if false m n km kn = kn

    -- An action that keeps the view runs from it.
    pub Run-keep : (v : View) (m : M A) → Keeps m → Run v m
    Run-keep v m k = record { at = λ db e. subst (Rel v) (sym (k.at db ∙ e)) (rel_refl v) }

    pub Run-if :
        (v : View) (b : Bool) (m n : M A)
        → (b ≡ true → Run v m)
        → (b ≡ false → Run v n)
        → Run v (if b then m else n)
    Run-if v true m n rm rn = rm refl
    Run-if v false m n rm rn = rn refl

    Run-commit :
        (v : View) (before : Db) (r : Result A) (after : Db)
        → view before ≡ v
        → Rel v (view after)
        → Rel v (view (commit before (r, after)).1)
    Run-commit v before (ok a) after e h = h
    Run-commit v before (err x) after e h =
        subst (λ u. Rel u (view (rollback before after))) e
          (rel_rollback before after (subst (λ u. Rel u (view after)) (sym e) h))

    pub Run-begin : (v : View) (m : M A) → Run v m → Run v (begin m)
    unfolding begin
    Run-begin v m r = record {
      at = λ db e. let (x, db') = m db in Run-commit v db x db' e (r.at db e);
    }

  pub Keeps-guard : (b : Bool) (e : Error) → Keeps (guard b e)
  unfolding guard
  Keeps-guard true e = Keeps-pure tt
  Keeps-guard false e = Keeps-raise e

  module _ {A B : Type 0} where
    Keeps-continue :
        (db db' : Db) (r : Result A) (k : A → M B)
        → view db' ≡ view db
        → ((a : A) → Keeps (k a))
        → view (continue (r, db') k).1 ≡ view db
    Keeps-continue db db' (ok a) k e kk = (kk a).at db' ∙ e
    Keeps-continue db db' (err x) k e kk = e

    pub Keeps-bind : (m : M A) (k : A → M B) → Keeps m → ((a : A) → Keeps (k a)) → Keeps (m >>= k)
    unfolding ◌>>=◌
    Keeps-bind m k km kk = record {
      at = λ db. let (r, db') = m db in Keeps-continue db db' r k (km.at db) kk;
    }

    Run-continue :
        (v w : View) (db' : Db) (r : Result A) (k : A → M B)
        → view db' ≡ w
        → Rel v w
        → ((a : A) → Run w (k a))
        → Rel v (view (continue (r, db') k).1)
    Run-continue v w db' (ok a) k e h rk = rel_trans v w _ h ((rk a).at db' e)
    Run-continue v w db' (err x) k e h rk = subst (Rel v) (sym e) h

    -- A first step that keeps the view: the rest starts from the same view.
    pub Run-bind_keep :
        (v : View) (m : M A) (k : A → M B) → Keeps m → ((a : A) → Run v (k a)) → Run v (m >>= k)
    unfolding ◌>>=◌
    Run-bind_keep v m k km rk = record {
      at = λ db e. let (r, db') = m db in Run-continue v v db' r k (km.at db ∙ e) (rel_refl v) rk;
    }

    -- Any first step: the rest starts from whatever view it leads to.
    pub Run-bind :
        (v : View) (m : M A) (k : A → M B)
        → Run v m
        → ((w : View) (a : A) → Run w (k a))
        → Run v (m >>= k)
    unfolding ◌>>=◌
    Run-bind v m k rm rk = record {
      at = λ db e.
          let (r, db') = m db in
          Run-continue v (view db') db' r k refl (rm.at db e) (rk (view db'));
    }

    -- What a read gives is known from the view.
    pub Run-bind_gets :
        (v : View) (f : View → A) (k : A → M B)
        → Run v (k (f v))
        → Run v (gets (λ db. f (view db)) >>= k)
    unfolding ◌>>=◌ gets
    Run-bind_gets v f k rk = record {
      at = λ db e. subst (λ u. Rel v (view (k (f u) db).1)) (sym e) (rk.at db e);
    }

  -- What a guard lets through.
  pub Run-bind_guard :
      {B : Type 0} (v : View) (b : Bool) (x : Error) (k : Unit {0} → M B)
      → (b ≡ true → Run v (k tt))
      → Run v (guard b x >>= k)
  unfolding guard ◌>>=◌
  Run-bind_guard v true x k h = h refl
  Run-bind_guard v false x k h = record { at = λ db e. subst (Rel v) (sym e) (rel_refl v) }

-- What is known of an action that has returned.
module _ (W : Watch) {A : Type 0} where
  open W use {View, view, Rel}

  pub kept :
      (m : M A) (db after : Db) (r : Result A)
      → Keeps W m
      → m db ≡ (r, after)
      → view after ≡ view db
  kept m db after r k e = subst (λ x. view x.1 ≡ view db) e (k.at db)

  pub ran :
      (v : View) (m : M A) (db after : Db) (r : Result A)
      → Run W v m
      → view db ≡ v
      → m db ≡ (r, after)
      → Rel v (view after)
  ran v m db after r k same e = subst (λ x. Rel v (view x.1)) e (k.at db same)
