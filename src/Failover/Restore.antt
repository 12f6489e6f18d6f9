-- ===== src/Failover/Restore.antt =====
-- The flip probes of core/failover.py put NSO's address back.
pub mod Flips
pub mod Found
use nso_adapter.Prelude.{
  ℕ, String, ◌≡◌, ◌≢◌, refl, sym, subst, ◌∙◌, ◌⊎◌, inl, inr, Option, none, some, Bool, true, false,
  arith,
}
use nso_adapter.Failover.Row.{Role, primary, IpAddress, DeviceFailover, TickConfig}
use nso_adapter.Failover.Client.{
  Fault, cancelled, http_timeout, http_or_value_error, other_exception, Reply, returned, raised,
  Env, Tick, Action, pure, raise, call, try_except, try_finally, or_raise, check_fo, modify_fo,
  ◌>>=◌, ◌>>◌,
}
use nso_adapter.Failover.Harmless.{SameIps, harmless}
use nso_adapter.Failover.Keeps.{Keeps}
use nso_adapter.Failover.Lane.{IsConfig}
use nso_adapter.Failover.Address.{
  role_among, role_of, role_of_text, parse_ip, parse_read, read_address, safe_disconnect,
  set_address, revert_address, block_unreadable, clear_unreadable, override,
}
use nso_adapter.Failover.Reads.{Reads, oob_health_body-Keeps, failback_body-Keeps}

-- NSO accepts the address writes, holds what was written last, and answers a read with it; dropping
-- a session is not cut short by a cancellation.
pub record IsFaithful {W : Type 0} (env : Env W) (held : W → Option String) : Type 0 where
  pub config : IsConfig env held
  pub accepts : (a : String) (w : W) → (env.set_address a w).0 ≡ returned tt
  pub writes : (a : String) (w : W) → held (env.set_address a w).1 ≡ some a
  pub answers : (w : W) (o : Option String) → (env.get_address w).0 ≡ returned o → o ≡ held w
  pub drops : (w : W) → (env.disconnect w).0 ≢ raised cancelled

-- The stored addresses and the address that NSO holds.
pub record At {W : Type 0} (held : W → Option String) (p o h : Option String) (s : Tick W)
    : Type 0 where
  pub primary_ip : s.fo.primary_ip ≡ p
  pub oob_ip : s.fo.oob_ip ≡ o
  pub address : held s.world ≡ h

-- A call that returns, in a state with `P`.
abbrev pub Done : {W A : Type 0} → (Tick W → Type 0) → Reply A × Tick W → Type 0
Done P (returned _, s) = P s
Done P (raised _, s) = ⊥

pub Done-bind :
    {W A B : Type 0} (P : Tick W → Type 0) (Q : Reply B × Tick W → Type 0) (m : Action W A)
    (f : A → Action W B) (s : Tick W)
    → Done P (m s)
    → ((a : A) (t : Tick W) → P t → Q (f a t))
    → Q ((m >>= f) s)
unfolding ◌>>=◌
Done-bind P Q m f s d k = on (m s) d
  where
    on : (x : Reply _ × Tick _) → Done P x → Q (((λ _. x) >>= f) s)
    on (returned a, t) h = k a t h
    on (raised e, t) h = absurd h

pub Done-try_except :
    {W A : Type 0} (P : Tick W → Type 0) (m handler : Action W A) (s : Tick W)
    → Done P (m s)
    → Done P (try_except m handler s)
unfolding try_except
Done-try_except P m handler s d = on (m s) d
  where
    on : (x : Reply _ × Tick _) → Done P x → Done P (try_except (λ _. x) handler s)
    on (returned a, t) h = h
    on (raised e, t) h = absurd h

pub Done-reply :
    {W A : Type 0} (P : Tick W → Type 0) (r : Reply A) (a : A) (s : Tick W)
    → r ≡ returned a
    → P s
    → Done P (r, s)
Done-reply P r a s e h = subst (λ r'. Done P (r', s)) (sym e) h

module _ {W : Type 0} (env : Env W) (held : W → Option String) (law : IsFaithful env held)
    (p o : Option String) where
  pub At-Reads : (h : Option String) → Reads env (At held p o h)
  At-Reads h = record {
    row = λ f e s k. record {
      primary_ip = e.primary s.fo ∙ k.primary_ip;
      oob_ip = e.oob s.fo ∙ k.oob_ip;
      address = k.address;
    };
    get_address = λ s k. moved s _ k (law.config.get_address s.world);
    disconnect = λ s k. moved s _ k (law.config.disconnect s.world);
    sync_from = λ s k. moved s _ k (law.config.sync_from s.world);
    connect = λ n s k. moved s _ k (law.config.connect n s.world);
    uniform = λ n s k. moved s _ k (law.config.uniform n s.world);
  }
    where
      moved :
          (s : Tick W) (w : W)
          → At held p o h s
          → held w ≡ held s.world
          → At held p o h (record s { world = w })
      moved s w k e = record {
        primary_ip = k.primary_ip;
        oob_ip = k.oob_ip;
        address = e ∙ k.address;
      }

  dropped :
      (h : Option String) (r : Reply (Unit {0})) (t : Tick W)
      → r ≢ raised cancelled
      → At held p o h t
      → Done (At held p o h) (try_except ((λ t'. (r, t')) >> pure true) (pure false) t)
  unfolding try_except ◌>>=◌
  dropped h (returned _) t ne k = k
  dropped h (raised (http_timeout _)) t ne k = k
  dropped h (raised (http_or_value_error _)) t ne k = k
  dropped h (raised (other_exception _)) t ne k = k
  dropped h (raised cancelled) t ne k = absurd (ne refl)

  safe_disconnect-Done :
      (h : Option String) (t : Tick W)
      → At held p o h t
      → Done (At held p o h) (safe_disconnect env t)
  unfolding safe_disconnect call try_except ◌>>=◌
  safe_disconnect-Done h t k =
      dropped h (env.disconnect t.world).0 (record t { world = (env.disconnect t.world).1 })
        (law.drops t.world) ((At-Reads h).disconnect t k)

  pub set_address-Done :
      (h : Option String) (a : String) (t : Tick W)
      → At held p o h t
      → Done (At held p o (some a)) (set_address env a t)
  unfolding set_address
  set_address-Done h a t k =
      Done-bind (At held p o (some a)) (Done (At held p o (some a))) (call (env.set_address a)) _ t
        written (λ _ t' k'. safe_disconnect-Done (some a) t' k')
    where
      written : Done (At held p o (some a)) (call (env.set_address a) t)
      written =
          unfold call in
          Done-reply (At held p o (some a)) (env.set_address a t.world).0 tt
            (record t { world = (env.set_address a t.world).1 }) (law.accepts a t.world)
            (record {
              primary_ip = k.primary_ip;
              oob_ip = k.oob_ip;
              address = law.writes a t.world;
            })

  -- An address that parses, of a known role, or that is neither stored address.
  pub record IsClassed (a : String) : Type 0 where
    pub ip : IpAddress
    pub parses : env.ip_address a ≡ some ip
    pub role : Option Role
    pub classed : role_among env p o ip ≡ returned role

  pub role_of_text-Done :
      (h : Option String) (a : String) (t : Tick W)
      → IsClassed a
      → At held p o h t
      → Done (At held p o h) (role_of_text env a t)
  unfolding role_of_text parse_ip or_raise check_fo ◌>>=◌
  role_of_text-Done h a t c k =
      subst
        (λ x.
          Done (At held p o h)
            ((or_raise (http_or_value_error "not an address") x >>= role_of env) t))
        (sym c.parses)
        (Done-reply (At held p o h) (role_among env t.fo.primary_ip t.fo.oob_ip c.ip) c.role t
          (classed_here t) k)
    where
      classed_here :
          (t' : Tick W) → role_among env t.fo.primary_ip t.fo.oob_ip c.ip ≡ returned c.role
      classed_here t' = cc (k.primary_ip, k.oob_ip, c.classed)

  pub revert_address-Done :
      (h : Option String) (a : String) (t : Tick W)
      → IsClassed a
      → At held p o h t
      → Done (At held p o (some a)) (revert_address env a t)
  unfolding revert_address
  revert_address-Done h a t c k =
      Done-bind (At held p o h) (Done (At held p o (some a))) (role_of_text env a) _ t
        (role_of_text-Done h a t c k)
        λ _ t' k'. Done-try_except (At held p o (some a)) (set_address env a >> pure tt) _ t' (
          Done-bind (At held p o (some a)) (Done (At held p o (some a))) (set_address env a) _ t'
            (set_address-Done h a t' k') (λ _ t'' k''. unfold pure in k''))
