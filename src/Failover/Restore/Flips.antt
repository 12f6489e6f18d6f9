-- ===== src/Failover/Restore/Flips.antt =====
-- The two flip probes of core/failover.py leave NSO on the address that they found, or on the
-- primary address after a failback.
use nso_adapter.Prelude.{ℕ, String, ◌≡◌, refl, ◌⊎◌, inl, inr, Option, some, Bool, true, false}
use nso_adapter.Failover.Row.{TickConfig}
use nso_adapter.Failover.Client.{
  Reply, returned, raised, Env, Tick, Action, pure, try_finally, finish, unless_committed,
  modify_fo, ◌>>=◌, ◌>>◌,
}
use nso_adapter.Failover.Harmless.{SameIps-release_override}
use nso_adapter.Failover.Keeps.{Keeps, Keeps-pure, Keeps-raise}
use nso_adapter.Failover.Address.{set_address, revert_address}
use nso_adapter.Failover.Probes.{
  oob_health_body, oob_health_flip, failback_body, failback_flip, release_override,
}
use nso_adapter.Failover.Reads.{oob_health_body-Keeps, failback_body-Keeps}
use nso_adapter.Failover.Restore.{
  IsFaithful, At, Done, Done-bind, At-Reads, IsClassed, set_address-Done, revert_address-Done,
}

after_bind :
    {W A B : Type 0} (P : Tick W → Type 0) (m : Action W A) (f : A → Action W B) (s : Tick W)
    → P (m s).1
    → ((a : A) → Keeps P (f a))
    → P ((m >>= f) s).1
unfolding ◌>>=◌
after_bind P m f s h k = on (m s) h
  where
    on : (x : Reply _ × Tick _) → P x.1 → P (((λ _. x) >>= f) s).1
    on (returned a, t) h' = (k a).at t h'
    on (raised e, t) h' = h'

finished :
    {W A : Type 0} (P : Tick W → Type 0) (r : Reply A) (x : Reply (Unit {0}) × Tick W)
    → Done P x
    → P (finish r x).1
finished P r (returned _, t) h = h
finished P r (raised e, t) h = absurd h

module _ {W : Type 0} (env : Env W) (held : W → Option String) (law : IsFaithful env held)
    (p o : Option String) (cfg : TickConfig) (now : ℕ) where
  finally_reverted :
      (h : Option String) (a : String) (body : Action W (Unit {0})) (t : Tick W)
      → IsClassed env held law p o a
      → Keeps (At held p o h) body
      → At held p o h t
      → At held p o (some a) (try_finally body (revert_address env a) t).1
  unfolding try_finally
  finally_reverted h a body t c k at =
      let (r, t') = body t in
      finished (At held p o (some a)) r (revert_address env a t')
        (revert_address-Done env held law p o h a t' c (k.at t at))

  released :
      (h : Option String) (t : Tick W)
      → At held p o h t
      → Done (At held p o h) (modify_fo release_override t)
  unfolding modify_fo
  released h t at = (At-Reads env held law p o h).row release_override SameIps-release_override t at

  pub oob_health_flip_reverts :
      (h : Option String) (oob_ip a : String) (t : Tick W)
      → IsClassed env held law p o a
      → At held p o h t
      → At held p o (some a) (oob_health_flip env cfg now oob_ip a t).1
  unfolding oob_health_flip
  oob_health_flip_reverts h oob_ip a t c at =
      Done-bind (At held p o h) (λ x. At held p o (some a) x.1) (modify_fo release_override) _ t
        (released h t at)
        λ _ t1 at1.
          Done-bind (At held p o (some oob_ip)) (λ x. At held p o (some a) x.1)
            (set_address env oob_ip) _ t1 (set_address-Done env held law p o h oob_ip t1 at1)
            λ _ t2 at2.
              after_bind (At held p o (some a))
                (try_finally (oob_health_body env cfg now) (revert_address env a)) _ t2
                (finally_reverted (some oob_ip) a (oob_health_body env cfg now) t2 c
                  (oob_health_body-Keeps env _ (At-Reads env held law p o (some oob_ip)) cfg now)
                  at2)
                (λ _. Keeps-pure true)

  -- NSO holds `a` again, or the primary address after a probe that returned.
  abbrev Ends : String → String → Reply Bool × Tick W → Type 0
  Ends primary_ip a x =
      At held p o (some a) x.1 ⊎ (At held p o (some primary_ip) x.1 × (x.0 ≡ returned true))

  reverted_then :
      (h : Option String) (a : String) (f : Unit {0} → Action W Bool) (t : Tick W)
      → IsClassed env held law p o a
      → At held p o h t
      → ((u : Unit {0}) → Keeps (At held p o (some a)) (f u))
      → At held p o (some a) ((revert_address env a >>= f) t).1
  reverted_then h a f t c at kf =
      Done-bind (At held p o (some a)) (λ x. At held p o (some a) x.1) (revert_address env a) f t
        (revert_address-Done env held law p o h a t c at) (λ u t' at'. (kf u).at t' at')

  after_body :
      (primary_ip a : String) (x : Reply Bool × Tick W)
      → IsClassed env held law p o a
      → At held p o (some primary_ip) x.1
      → Ends primary_ip a (unless_committed (λ _. x) (revert_address env a) x.1)
  unfolding unless_committed
  after_body primary_ip a (returned true, t) c at = inr (at, refl)
  after_body primary_ip a (returned false, t) c at =
      inl (reverted_then (some primary_ip) a _ t c at (λ _. Keeps-pure false))
  after_body primary_ip a (raised e, t) c at =
      inl (reverted_then (some primary_ip) a _ t c at (λ _. Keeps-raise e))

  Ends-true :
      (primary_ip a : String) (x : Reply Bool × Tick W)
      → Ends primary_ip a x
      → Ends primary_ip a (((λ (_ : Tick W). x) >> pure true) x.1)
  unfolding ◌>>=◌
  Ends-true primary_ip a (returned b, t) (inl at) = inl at
  Ends-true primary_ip a (returned b, t) (inr (at, e)) = inr (at, refl)
  Ends-true primary_ip a (raised e, t) (inl at) = inl at
  Ends-true primary_ip a (raised e, t) (inr (at, e')) = cc

  Ends-bind :
      (primary_ip a : String) (m : Action W Bool) (t : Tick W)
      → Ends primary_ip a (m t)
      → Ends primary_ip a ((m >> pure true) t)
  unfolding ◌>>=◌
  Ends-bind primary_ip a m t e = Ends-true primary_ip a (m t) e

  committed_or_reverted :
      (primary_ip a : String) (body : Action W Bool) (t : Tick W)
      → IsClassed env held law p o a
      → Keeps (At held p o (some primary_ip)) body
      → At held p o (some primary_ip) t
      → Ends primary_ip a (unless_committed body (revert_address env a) t)
  unfolding unless_committed
  committed_or_reverted primary_ip a body t c k at = after_body primary_ip a (body t) c (k.at t at)

  pub failback_flip-Ends :
      (h : Option String) (primary_ip a : String) (t : Tick W)
      → IsClassed env held law p o a
      → At held p o h t
      → Ends primary_ip a (failback_flip env cfg now primary_ip a t)
  unfolding failback_flip
  failback_flip-Ends h primary_ip a t c at =
      Done-bind (At held p o h) (Ends primary_ip a) (modify_fo release_override) _ t
        (released h t at)
        λ _ t1 at1.
          Done-bind (At held p o (some primary_ip)) (Ends primary_ip a) (set_address env primary_ip)
            _ t1 (set_address-Done env held law p o h primary_ip t1 at1)
            λ _ t2 at2.
              Ends-bind primary_ip a
                (unless_committed (failback_body env cfg now) (revert_address env a)) t2
                (committed_or_reverted primary_ip a (failback_body env cfg now) t2 c
                  (failback_body-Keeps env _ (At-Reads env held law p o (some primary_ip)) cfg now)
                  at2)
