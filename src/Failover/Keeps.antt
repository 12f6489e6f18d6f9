-- ===== src/Failover/Keeps.antt =====
-- Invariants of actions, whether they return or raise: one rule for each way to build an action.
use nso_adapter.Prelude.{Bool, true, false, if◌then◌else◌, Option, none, some}
use nso_adapter.Failover.Row.{DeviceFailover}
use nso_adapter.Failover.Client.{
  Fault, cancelled, http_timeout, http_or_value_error, other_exception, Reply, returned, raised,
  Tick, Action, pure, raise, gets_fo, try_except, try_finally, finish, or_raise, check_fo, ◌>>=◌,
}

pub record Keeps {W A : Type 0} (Inv : Tick W → Type 0) (m : Action W A) : Type 0 where
  pub at : (s : Tick W) → Inv s → Inv (m s).1

module _ {W A : Type 0} {Inv : Tick W → Type 0} where
  pub Keeps-pure : (a : A) → Keeps Inv (pure a)
  unfolding pure
  Keeps-pure a = record { at = λ s h. h }

  pub Keeps-raise : (e : Fault) → Keeps Inv (raise {A = A} e)
  unfolding raise
  Keeps-raise e = record { at = λ s h. h }

  pub Keeps-gets_fo : (f : DeviceFailover → A) → Keeps Inv (gets_fo f)
  unfolding gets_fo
  Keeps-gets_fo f = record { at = λ s h. h }

  pub Keeps-if :
      (b : Bool) (m n : Action W A) → Keeps Inv m → Keeps Inv n → Keeps Inv (if b then m else n)
  Keeps-if true m n km kn = km
  Keeps-if false m n km kn = kn

  after_raise :
      (e : Fault) (handler : Action W A) (s : Tick W)
      → Keeps Inv handler
      → Inv s
      → Inv (try_except (raise e) handler s).1
  unfolding try_except raise
  after_raise (http_timeout _) handler s k h = k.at s h
  after_raise (http_or_value_error _) handler s k h = k.at s h
  after_raise (other_exception _) handler s k h = k.at s h
  after_raise cancelled handler s k h = h

  after_try :
      (r : Reply A) (handler : Action W A) (s : Tick W)
      → Keeps Inv handler
      → Inv s
      → Inv (try_except (λ s'. (r, s')) handler s).1
  unfolding try_except raise
  after_try (returned a) handler s k h = h
  after_try (raised e) handler s k h = unfold try_except raise in after_raise e handler s k h

  pub Keeps-try_except :
      (m handler : Action W A) → Keeps Inv m → Keeps Inv handler → Keeps Inv (try_except m handler)
  unfolding try_except
  Keeps-try_except m handler km kh = record {
    at = λ s h. let (r, s') = m s in after_try r handler s' kh (km.at s h);
  }

module _ {W A B : Type 0} {Inv : Tick W → Type 0} where
  after_bind :
      (r : Reply A) (f : A → Action W B) (s : Tick W)
      → ((a : A) → Keeps Inv (f a))
      → Inv s
      → Inv (((λ s'. (r, s')) >>= f) s).1
  unfolding ◌>>=◌
  after_bind (returned a) f s k h = (k a).at s h
  after_bind (raised e) f s k h = h

  pub Keeps-bind :
      (f : A → Action W B) (m : Action W A)
      → Keeps Inv m
      → ((returns : A) → Keeps Inv (f returns))
      → Keeps Inv (m >>= f)
  unfolding ◌>>=◌
  Keeps-bind f m first rest = record {
    at = λ s held. after_bind (m s).0 f (m s).1 rest (first.at s held);
  }

after_last :
    {W A : Type 0} (Inv : Tick W → Type 0) (r : Reply A) (x : Reply (Unit {0}) × Tick W)
    → Inv x.1
    → Inv (finish r x).1
after_last Inv r (returned _, s) h = h
after_last Inv r (raised e, s) h = h

module _ {W A : Type 0} {Inv : Tick W → Type 0} where
  pub Keeps-try_finally :
      (m : Action W A) (last : Action W (Unit {0}))
      → Keeps Inv m
      → Keeps Inv last
      → Keeps Inv (try_finally m last)
  unfolding try_finally
  Keeps-try_finally m last km kl = record {
    at = λ s h. let (r, s') = m s in after_last Inv r (last s') (kl.at s' (km.at s h));
  }

  pub Keeps-or_raise : (e : Fault) (o : Option A) → Keeps Inv (or_raise {W = W} e o)
  unfolding or_raise
  Keeps-or_raise e none = Keeps-raise e
  Keeps-or_raise e (some a) = Keeps-pure a

  pub Keeps-check_fo : (f : DeviceFailover → Reply A) → Keeps Inv (check_fo f)
  unfolding check_fo
  Keeps-check_fo f = record { at = λ s h. h }

pub ruleset keeps = (
  Keeps-pure, Keeps-raise, Keeps-gets_fo, Keeps-if, Keeps-bind, Keeps-try_except, Keeps-try_finally,
  Keeps-or_raise, Keeps-check_fo,
)
