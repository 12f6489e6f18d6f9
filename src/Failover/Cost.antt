-- ===== src/Failover/Cost.antt =====
-- How many address writes a tick makes: each flip that the budget grants pays for two.
use nso_adapter.Prelude.{
  ℕ, zero, suc, ◌+◌, ◌*◌, ◌≤◌, String, ◌≡◌, refl, sym, subst, ◌-◌, some, Bool, true, false, arith,
}
use nso_adapter.Failover.Row.{DeviceFailover}
use nso_adapter.Failover.Client.{
  Reply, returned, raised, Env, Tick, Action, call, try_except, try_finally, finish,
  unless_committed, ◌>>=◌,
}
use nso_adapter.Failover.Keeps.{Keeps, Keeps-pure, Keeps-raise, Keeps-try_except}
use nso_adapter.Failover.Hysteresis.{take}
use nso_adapter.Failover.Address.{set_address, revert_address}
use nso_adapter.Failover.Switch.{take_flip}
use nso_adapter.Failover.Reads.{Reads, safe_disconnect-Keeps, role_of_text-Keeps}

-- `writes` counts the calls of `set_address`, however they end.
pub record Counts {W : Type 0} (env : Env W) (writes : W → ℕ) : Type 0 where
  pub set_address : (a : String) (w : W) → writes (env.set_address a w).1 ≡ writes w + 1
  pub get_address : (w : W) → writes (env.get_address w).1 ≡ writes w
  pub disconnect : (w : W) → writes (env.disconnect w).1 ≡ writes w
  pub sync_from : (w : W) → writes (env.sync_from w).1 ≡ writes w
  pub connect : (n : ℕ) (w : W) → writes (env.connect n w).1 ≡ writes w
  pub uniform : (n : ℕ) (w : W) → writes (env.uniform n w).1 ≡ writes w

-- The writes made and those that the budget can still pay for are at most `n`; at most `top` flips
-- are left.
pub record IsPaid {W : Type 0} (writes : W → ℕ) (top n : ℕ) (s : Tick W) : Type 0 where
  pub left : ℕ
  pub held : s.flip_budget ≡ some left
  pub at_most : left ≤ top
  pub bound : writes s.world + 2 * left ≤ n

take-zero : take 0 ≡ (false, 0)
unfolding take
take-zero = refl

take-suc : (k : ℕ) → take (suc k) ≡ (true, k)
unfolding take
take-suc k = ground arith

module _ {W : Type 0} (env : Env W) (writes : W → ℕ) (law : Counts env writes) (top : ℕ) where
  pub IsPaid-Reads : (n : ℕ) → Reads env (IsPaid writes top n)
  IsPaid-Reads n = record {
    row = λ f e s h. record { left = h.left; held = h.held; at_most = h.at_most; bound = h.bound };
    get_address = λ s h. same s _ h (law.get_address s.world);
    disconnect = λ s h. same s _ h (law.disconnect s.world);
    sync_from = λ s h. same s _ h (law.sync_from s.world);
    connect = λ k s h. same s _ h (law.connect k s.world);
    uniform = λ k s h. same s _ h (law.uniform k s.world);
  }
    where
      same :
          (s : Tick W) (w : W)
          → IsPaid writes top n s
          → writes w ≡ writes s.world
          → IsPaid writes top n (record s { world = w })
      same s w h e = record {
        left = h.left;
        held = h.held;
        at_most = h.at_most;
        bound = omega (arith, h.bound, e);
      }

  -- `m` makes at most `k` writes that the budget has not paid for.
  pub record Costs {A : Type 0} (k : ℕ) (m : Action W A) : Type 0 where
    pub at : (n : ℕ) (s : Tick W) → IsPaid writes top n s → IsPaid writes top (n + k) (m s).1

  weaken : (n k : ℕ) (s : Tick W) → n ≤ k → IsPaid writes top n s → IsPaid writes top k s
  weaken n k s le h = record {
    left = h.left;
    held = h.held;
    at_most = h.at_most;
    bound = omega (arith, h.bound);
  }

  pub free :
      {A : Type 0} (k : ℕ) (m : Action W A) → ((n : ℕ) → Keeps (IsPaid writes top n) m) → Costs k m
  free k m km = record { at = λ n s h. weaken n (n + k) (m s).1 (omega arith) ((km n).at s h) }

  after_bind :
      {A B : Type 0} (j n : ℕ) (r : Reply A) (f : A → Action W B) (s : Tick W)
      → ((a : A) → Costs j (f a))
      → IsPaid writes top n s
      → IsPaid writes top (n + j) (((λ s'. (r, s')) >>= f) s).1
  unfolding ◌>>=◌
  after_bind j n (returned a) f s k h = (k a).at n s h
  after_bind j n (raised e) f s k h = weaken n (n + j) s (omega arith) h

  pub Costs-bind :
      {A B : Type 0} (i j k : ℕ) (m : Action W A) (f : A → Action W B)
      → i + j ≤ k
      → Costs i m
      → ((a : A) → Costs j (f a))
      → Costs k (m >>= f)
  unfolding ◌>>=◌
  Costs-bind i j k m f le cm cf = record {
    at = λ n s h.
        let (r, s') = m s in
        weaken (n + i + j) (n + k) _ (omega arith) (after_bind j (n + i) r f s' cf (cm.at n s h));
  }

  pub Costs-set_address : (a : String) → Costs 1 (set_address env a)
  unfolding set_address
  Costs-set_address a =
      Costs-bind 1 0 1 _ _ (omega arith) written
        (λ _. free _ _ (λ n. safe_disconnect-Keeps env _ (IsPaid-Reads n)))
    where
      written : Costs 1 (call (env.set_address a))
      written = record {
        at = λ n s h.
            unfold call in
            record {
              left = h.left;
              held = h.held;
              at_most = h.at_most;
              bound = omega (arith, h.bound, law.set_address a s.world);
            };
      }

  after_last :
      {A : Type 0} (n : ℕ) (r : Reply A) (x : Reply (Unit {0}) × Tick W)
      → IsPaid writes top n x.1
      → IsPaid writes top n (finish r x).1
  after_last n r (returned _, s) h = h
  after_last n r (raised e, s) h = h

  pub Costs-try_finally :
      {A : Type 0} (k : ℕ) (m : Action W A) (last : Action W (Unit {0}))
      → ((n : ℕ) → Keeps (IsPaid writes top n) m)
      → Costs k last
      → Costs k (try_finally m last)
  unfolding try_finally
  Costs-try_finally k m last km cl = record {
    at = λ n s h. let (r, s') = m s in after_last (n + k) r (last s') (cl.at n s' ((km n).at s h));
  }

  after_try :
      {A : Type 0} (n : ℕ) (r : Reply A) (handler : Action W A) (s : Tick W)
      → Keeps (IsPaid writes top n) handler
      → IsPaid writes top n s
      → IsPaid writes top n (try_except (λ s'. (r, s')) handler s).1
  after_try n r handler s k h =
      (Keeps-try_except (λ s'. (r, s')) handler (record { at = λ s' h'. h' }) k).at s h

  pub Costs-try_except :
      {A : Type 0} (k : ℕ) (m handler : Action W A)
      → Costs k m
      → ((n : ℕ) → Keeps (IsPaid writes top n) handler)
      → Costs k (try_except m handler)
  unfolding try_except
  Costs-try_except k m handler cm kh = record {
    at = λ n s h.
        let (r, s') = m s in
        unfold try_except in after_try (n + k) r handler s' (kh (n + k)) (cm.at n s h);
  }

  pub Costs-revert_address : (a : String) → Costs 1 (revert_address env a)
  unfolding revert_address
  Costs-revert_address a =
      Costs-bind 0 1 1 _ _ (omega arith)
        (free _ _ (λ n. role_of_text-Keeps env _ (IsPaid-Reads n) a))
        λ _.
          Costs-try_except 1 _ _
            (Costs-bind 1 0 1 _ _ (omega arith) (Costs-set_address a)
              (λ _. free _ _ (λ n. Keeps-pure tt)))
            (λ n. Keeps-pure tt)

  after_body :
      (n : ℕ) (r : Reply Bool) (revert : Action W (Unit {0})) (s : Tick W)
      → Costs 1 revert
      → IsPaid writes top n s
      → IsPaid writes top (n + 1) (unless_committed (λ s'. (r, s')) revert s).1
  unfolding unless_committed
  after_body n (returned true) revert s c h = weaken n (n + 1) s (omega arith) h
  after_body n (returned false) revert s c h =
      (Costs-bind 1 0 1 revert _ (omega arith) c (λ _. free _ _ (λ k. Keeps-pure false))).at n s h
  after_body n (raised e) revert s c h =
      (Costs-bind 1 0 1 revert _ (omega arith) c (λ _. free _ _ (λ k. Keeps-raise e))).at n s h

  pub Costs-unless_committed :
      (body : Action W Bool) (revert : Action W (Unit {0}))
      → ((n : ℕ) → Keeps (IsPaid writes top n) body)
      → Costs 1 revert
      → Costs 1 (unless_committed body revert)
  unfolding unless_committed
  Costs-unless_committed body revert kb cr = record {
    at = λ n s h.
        let (r, s') = body s in
        unfold unless_committed in after_body n r revert s' cr ((kb n).at s h);
  }

  spend :
      {A : Type 0} (f : Bool → Action W A)
      → Costs 2 (f true)
      → ((n : ℕ) → Keeps (IsPaid writes top n) (f false))
      → (n : ℕ) (fo : DeviceFailover) (w : W) (left : ℕ) → left ≤ top
      → writes w + 2 * left ≤ n
      → IsPaid writes top n
          ((take_flip >>= f) (record { fo = fo; world = w; flip_budget = some left })).1
  unfolding take_flip ◌>>=◌
  spend f ct kf n fo w zero le b =
      rw take-zero ((kf n).at _ (record { left = 0; held = refl; at_most = le; bound = b }))
  spend f ct kf n fo w (suc k) le b =
      let s : Tick _ = record { fo = fo; world = w; flip_budget = some k } in
      let paid : IsPaid writes top (n - 2) s = record {
        left = k;
        held = refl;
        at_most = omega arith;
        bound = omega arith;
      } in
      rw (take-suc k) (weaken (n - 2 + 2) n _ (omega arith) (ct.at (n - 2) s paid))

  -- A flip that the budget grants may cost two writes.
  pub granted :
      {A : Type 0} (f : Bool → Action W A)
      → Costs 2 (f true)
      → ((n : ℕ) → Keeps (IsPaid writes top n) (f false))
      → (n : ℕ) → Keeps (IsPaid writes top n) (take_flip >>= f)
  granted f ct kf n = record {
    at = λ s h.
        subst
          (λ b.
            IsPaid writes top n
              ((take_flip >>= f) (record { fo = s.fo; world = s.world; flip_budget = b })).1)
          (sym h.held) (spend f ct kf n s.fo s.world h.left h.at_most h.bound);
  }
