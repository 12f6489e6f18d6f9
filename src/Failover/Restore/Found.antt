-- ===== src/Failover/Restore/Found.antt =====
-- A flip probe of core/failover.py as a whole: the address that NSO is found on is read, classed,
-- and held again at the end.
use nso_adapter.Prelude.{
  ℕ, String, ◌≡◌, refl, sym, subst, ◌∙◌, ◌⊎◌, inl, inr, Option, none, some, Bool, true, false,
}
use nso_adapter.Failover.Row.{Role, IpAddress, TickConfig, DeviceFailover}
use nso_adapter.Failover.Client.{
  cancelled, http_timeout, http_or_value_error, other_exception, Reply, returned, raised, Env, Tick,
  Action, pure, raise, call, try_except, modify_fo, or_raise, check_fo, ◌>>=◌, ◌>>◌,
}
use nso_adapter.Failover.Harmless.{
  SameIps, SameIps-block_unreadable, SameIps-clear_unreadable, SameIps-override,
}
use nso_adapter.Failover.Address.{
  role_among, role_of, role_of_text, parse_ip, parse_read, read_address, override, block_unreadable,
  clear_unreadable,
}
use nso_adapter.Failover.Hysteresis.{take}
use nso_adapter.Failover.Switch.{take_flip}
use nso_adapter.Failover.Probes.{
  oob_health_flip, oob_health_from, fallback_probe, failback_flip, failback_from,
  failback_flip_probe, flip_if, flip_if_managed,
}
use nso_adapter.Failover.Restore.{IsFaithful, At, At-Reads, IsClassed}
use nso_adapter.Failover.Restore.Flips.{oob_health_flip_reverts, failback_flip-Ends}

module _ {W : Type 0} (env : Env W) (held : W → Option String) (law : IsFaithful env held)
    (p o h : Option String) where
  -- A postcondition that a raise, or a return with the address unchanged, meets.
  record Allows (Q : Reply Bool × Tick W → Type 0) : Type 0 where
    same : (r : Reply Bool) (t : Tick W) → At held p o h t → Q (r, t)

  modified :
      (Q : Reply Bool × Tick W → Type 0) (f : DeviceFailover → DeviceFailover)
      (k : Unit {0} → Action W Bool) (t : Tick W)
      → SameIps f
      → At held p o h t
      → ((t' : Tick W) → At held p o h t' → Q (k tt t'))
      → Q ((modify_fo f >>= k) t)
  unfolding modify_fo ◌>>=◌
  modified Q f k t e at q = q _ ((At-Reads env held law p o h).row f e t at)

  roled :
      (Q : Reply Bool × Tick W → Type 0) (a : String) (ip : IpAddress)
      (f : Option Role → Action W Bool) (t : Tick W)
      → Allows Q
      → env.ip_address a ≡ some ip
      → At held p o h t
      → ((r : Option Role) (t' : Tick W)
          → IsClassed env held law p o a
          → At held p o h t'
          → Q (f r t'))
      → Q ((role_of_text env a >>= f) t)
  unfolding role_of_text parse_ip or_raise check_fo role_of ◌>>=◌
  roled Q a ip f t ok parsed at q =
      subst (λ x. Q (((or_raise (http_or_value_error "not an address") x >>= role_of env) >>= f) t))
        (sym parsed) (on (role_among env t.fo.primary_ip t.fo.oob_ip ip) here)
    where
      here : role_among env t.fo.primary_ip t.fo.oob_ip ip ≡ role_among env p o ip
      here = cc (at.primary_ip, at.oob_ip)

      on :
          (x : Reply (Option Role))
          → x ≡ role_among env p o ip
          → Q (((λ (_ : Tick W). (x, t)) >>= f) t)
      on (returned r) e = q r t (record { ip = ip; parses = parsed; role = r; classed = sym e }) at
      on (raised e) _ = ok.same (raised e) t at

  -- The budget's answer.
  answered :
      (Q : Reply Bool × Tick W → Type 0) (cfg : TickConfig) (now : ℕ)
      (flip : String → Action W Bool) (a : String) (t : Tick W)
      → Allows Q
      → At held p o h t
      → ((t' : Tick W) → At held p o h t' → Q (flip a t'))
      → (allowed : Bool) (b : Option ℕ)
      → Q (flip_if env cfg now flip a allowed (record t { flip_budget = b }))
  unfolding flip_if pure
  answered Q cfg now flip a t ok at q true b =
      q _ (record { primary_ip = at.primary_ip; oob_ip = at.oob_ip; address = at.address })
  answered Q cfg now flip a t ok at q false b =
      ok.same (returned false) _
        (record { primary_ip = at.primary_ip; oob_ip = at.oob_ip; address = at.address })

  budgeted :
      (Q : Reply Bool × Tick W → Type 0) (cfg : TickConfig) (now : ℕ)
      (flip : String → Action W Bool) (a : String) (t : Tick W)
      → Allows Q
      → At held p o h t
      → ((t' : Tick W) → At held p o h t' → Q (flip a t'))
      → (b : Option ℕ)
      → Q ((take_flip >>= flip_if env cfg now flip a) (record t { flip_budget = b }))
  unfolding take_flip ◌>>=◌
  budgeted Q cfg now flip a t ok at q none = answered Q cfg now flip a t ok at q true none
  budgeted Q cfg now flip a t ok at q (some n) =
      answered Q cfg now flip a t ok at q (take n).0 (some (take n).1)

  flipped :
      (Q : Reply Bool × Tick W → Type 0) (cfg : TickConfig) (now : ℕ)
      (flip : String → Action W Bool) (a : String) (r : Option Role) (t : Tick W)
      → Allows Q
      → At held p o h t
      → ((t' : Tick W) → At held p o h t' → Q (flip a t'))
      → Q (flip_if_managed env cfg now flip a r t)
  unfolding flip_if_managed
  flipped Q cfg now flip a none t ok at q =
      modified Q override _ t SameIps-override at
        (λ t' at'. unfold pure in ok.same (returned true) t' at')
  flipped Q cfg now flip a (some _) t ok at q = budgeted Q cfg now flip a t ok at q t.flip_budget

  parsed_read :
      (Q : Reply Bool × Tick W → Type 0) (f : Option String → Action W Bool) (t : Tick W)
      → At held p o h t
      → ((t' : Tick W) → At held p o h t' → Q (f none t'))
      → ((a : String) (ip : IpAddress) → h ≡ some a → env.ip_address a ≡ some ip → Q (f (some a) t))
      → (a : String) → h ≡ some a
      → (x : Option IpAddress) → env.ip_address a ≡ x
      → Q (
          (try_except
                ((or_raise (http_or_value_error "not an address") x >> pure (some a)))
                (pure none)
              >>= f)
            t)
  unfolding try_except or_raise ◌>>=◌
  parsed_read Q f t at on_none on_some a e none e' = on_none t at
  parsed_read Q f t at on_none on_some a e (some ip) e' = on_some a ip e e'

  replied :
      (Q : Reply Bool × Tick W → Type 0) (f : Option String → Action W Bool) (t : Tick W)
      → Allows Q
      → At held p o h t
      → ((t' : Tick W) → At held p o h t' → Q (f none t'))
      → ((a : String) (ip : IpAddress) → h ≡ some a → env.ip_address a ≡ some ip → Q (f (some a) t))
      → (r : Reply (Option String)) → ((x : Option String) → r ≡ returned x → x ≡ h)
      → Q ((try_except ((λ (_ : Tick W). (r, t)) >>= parse_read env) (pure none) >>= f) t)
  unfolding try_except parse_read parse_ip ◌>>=◌
  replied Q f t ok at on_none on_some (returned none) e = on_none t at
  replied Q f t ok at on_none on_some (returned (some a)) e =
      parsed_read Q f t at on_none on_some a (sym (e (some a) refl)) (env.ip_address a) refl
  replied Q f t ok at on_none on_some (raised (http_timeout _)) e = on_none t at
  replied Q f t ok at on_none on_some (raised (http_or_value_error _)) e = on_none t at
  replied Q f t ok at on_none on_some (raised (other_exception _)) e = on_none t at
  replied Q f t ok at on_none on_some (raised cancelled) e = ok.same (raised cancelled) t at

  read :
      (Q : Reply Bool × Tick W → Type 0) (f : Option String → Action W Bool) (t : Tick W)
      → Allows Q
      → At held p o h t
      → ((t' : Tick W) → At held p o h t' → Q (f none t'))
      → ((a : String) (ip : IpAddress) (t' : Tick W)
          → At held p o h t'
          → h ≡ some a
          → env.ip_address a ≡ some ip
          → Q (f (some a) t'))
      → Q ((read_address env >>= f) t)
  unfolding read_address call try_except ◌>>=◌
  read Q f t ok at on_none on_some =
      let t' : Tick W = record t { world = (env.get_address t.world).1 } in
      let at' : At held p o h t' = (At-Reads env held law p o h).get_address t at in
      replied Q f t' ok at' on_none (λ a ip e e'. on_some a ip t' at' e e')
        (env.get_address t.world).0 (λ x e. law.answers t.world x e ∙ at.address)

abbrev start_at :
    {W : Type 0} (held : W → Option String) (t : Tick W)
    → At held t.fo.primary_ip t.fo.oob_ip (held t.world) t
start_at held t = record { primary_ip = refl; oob_ip = refl; address = refl }

module _ {W : Type 0} (env : Env W) (held : W → Option String) (law : IsFaithful env held)
    (cfg : TickConfig) (now : ℕ) where
  -- What the proactive health check may end in.
  record Same (p o h : Option String) (x : Reply Bool × Tick W) : Type 0 where
    at : At held p o h x.1

  Same-Allows : (p o h : Option String) → Allows env held law p o h (Same p o h)
  Same-Allows p o h = record { same = λ r t at. record { at = at } }

  oob_health_some :
      (p o h : Option String) (oob_ip a : String) (ip : IpAddress) (t : Tick W)
      → At held p o h t
      → h ≡ some a
      → env.ip_address a ≡ some ip
      → Same p o h (oob_health_from env cfg now oob_ip (some a) t)
  unfolding oob_health_from
  oob_health_some p o h oob_ip a ip t at e parsed =
      roled env held law p o h (Same p o h) a ip _ t (Same-Allows p o h) parsed at λ r t1 c at1.
        flipped env held law p o h (Same p o h) cfg now (oob_health_flip env cfg now oob_ip) a r t1
          (Same-Allows p o h) at1
          λ t2 at2. record {
            at =
                subst (λ x. At held p o x (oob_health_flip env cfg now oob_ip a t2).1) (sym e)
                  (oob_health_flip_reverts env held law p o cfg now h oob_ip a t2 c at2);
          }

  oob_health_none :
      (p o h : Option String) (oob_ip : String) (t : Tick W)
      → At held p o h t
      → Same p o h (oob_health_from env cfg now oob_ip none t)
  unfolding oob_health_from pure
  oob_health_none p o h oob_ip t at =
      modified env held law p o h (Same p o h) block_unreadable (λ _. pure true) t
        SameIps-block_unreadable at (λ t' at'. record { at = at' })

  fallback_probe-Same :
      (p o h primary_ip : Option String) (oob_ip : String) (job : Bool) (t : Tick W)
      → At held p o h t
      → Same p o h (fallback_probe env cfg now primary_ip oob_ip job t)
  unfolding fallback_probe pure raise
  fallback_probe-Same p o h none oob_ip job t at = record { at = at }
  fallback_probe-Same p o h (some _) oob_ip true t at = record { at = at }
  fallback_probe-Same p o h (some _) oob_ip false t at =
      read env held law p o h (Same p o h) (oob_health_from env cfg now oob_ip) t
        (Same-Allows p o h) at (oob_health_none p o h oob_ip)
        (λ a ip t' at' e parsed. oob_health_some p o h oob_ip a ip t' at' e parsed)

  -- If NSO takes every address write and answers with what it holds, and a session drop is not
  -- cancelled, the proactive health probe of the OOB address leaves NSO on the address that it held
  -- before, whatever the connect does (a refusal, a timeout, any exception, a cancellation) and
  -- whether the probe returns or raises.
  pub oob_health_probe_restores :
      (primary_ip : Option String) (oob_ip : String) (job_active : Bool) (t : Tick W)
      → held (fallback_probe env cfg now primary_ip oob_ip job_active t).1.world ≡ held t.world
  oob_health_probe_restores primary_ip oob_ip job_active t =
      (fallback_probe-Same t.fo.primary_ip t.fo.oob_ip (held t.world) primary_ip oob_ip job_active t
        (start_at held t)).at.address

  -- What a failback probe may end in.
  abbrev Ends :
      Option String → Option String → Option String → String → Reply Bool × Tick W → Type 0
  Ends p o h primary_ip x =
      At held p o h x.1 ⊎ (At held p o (some primary_ip) x.1 × (x.0 ≡ returned true))

  Ends-Allows :
      (p o h : Option String) (primary_ip : String)
      → Allows env held law p o h (Ends p o h primary_ip)
  Ends-Allows p o h primary_ip = record { same = λ r t at. inl at }

  failback_some :
      (p o h : Option String) (primary_ip a : String) (ip : IpAddress) (t : Tick W)
      → At held p o h t
      → h ≡ some a
      → env.ip_address a ≡ some ip
      → Ends p o h primary_ip (failback_from env cfg now primary_ip (some a) t)
  unfolding failback_from
  failback_some p o h primary_ip a ip t at e parsed =
      modified env held law p o h (Ends p o h primary_ip) clear_unreadable _ t
        SameIps-clear_unreadable at
        λ t1 at1.
          roled env held law p o h (Ends p o h primary_ip) a ip _ t1 (Ends-Allows p o h primary_ip)
            parsed at1
            λ r t2 c at2.
              flipped env held law p o h (Ends p o h primary_ip) cfg now
                (failback_flip env cfg now primary_ip) a r t2 (Ends-Allows p o h primary_ip) at2
                λ t3 at3.
                  subst (λ x. Ends p o x primary_ip (failback_flip env cfg now primary_ip a t3))
                    (sym e) (failback_flip-Ends env held law p o cfg now h primary_ip a t3 c at3)

  failback_none :
      (p o h : Option String) (primary_ip : String) (t : Tick W)
      → At held p o h t
      → Ends p o h primary_ip (failback_from env cfg now primary_ip none t)
  unfolding failback_from pure
  failback_none p o h primary_ip t at =
      modified env held law p o h (Ends p o h primary_ip) block_unreadable (λ _. pure true) t
        SameIps-block_unreadable at (λ t' at'. inl at')

  failback-Ends :
      (p o h : Option String) (primary_ip : String) (job : Bool) (t : Tick W)
      → At held p o h t
      → Ends p o h primary_ip (failback_flip_probe env cfg now primary_ip job t)
  unfolding failback_flip_probe pure
  failback-Ends p o h primary_ip true t at = inl at
  failback-Ends p o h primary_ip false t at =
      read env held law p o h (Ends p o h primary_ip) (failback_from env cfg now primary_ip) t
        (Ends-Allows p o h primary_ip) at (failback_none p o h primary_ip)
        (λ a ip t' at' e parsed. failback_some p o h primary_ip a ip t' at' e parsed)

  -- If NSO takes every address write and answers with what it holds, and a session drop is not
  -- cancelled, the failback probe leaves NSO on the address that it held before or, and only if it
  -- returns, on the primary address, whatever the connect does.
  pub failback_restores_or_commits :
      (primary_ip : String) (job_active : Bool) (t : Tick W)
      → let (r, t') = failback_flip_probe env cfg now primary_ip job_active t in
        (held t'.world ≡ held t.world) ⊎ ((held t'.world ≡ some primary_ip) × (r ≡ returned true))
  failback_restores_or_commits primary_ip job_active t =
      on (failback_flip_probe env cfg now primary_ip job_active t) (
        failback-Ends t.fo.primary_ip t.fo.oob_ip (held t.world) primary_ip job_active t
          (start_at held t))
    where
      on :
          (x : Reply Bool × Tick W)
          → Ends t.fo.primary_ip t.fo.oob_ip (held t.world) primary_ip x
          → (held x.1.world ≡ held t.world)
            ⊎ ((held x.1.world ≡ some primary_ip) × (x.0 ≡ returned true))
      on x (inl at) = inl at.address
      on x (inr (at, e)) = inr (at.address, e)
