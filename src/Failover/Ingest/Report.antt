-- ===== src/Failover/Ingest/Report.antt =====
-- `upsert_failover_ips` of core/failover.py, on the texts that the plugin reports.
use nso_adapter.Prelude.{
  ℕ, String, ◌≡◌, ◌≢◌, refl, sym, ◌∙◌, ap, inl, inr, Option, none, some, is_some, Bool, true, false,
  ◌&&◌, if◌then◌else◌, Bool-cases, subst,
}
use nso_adapter.Failover.Row.{oob, IpAddress, DeviceFailover, ip_eq?}
use nso_adapter.Failover.Client.{http_or_value_error, Reply, returned, raised}
use nso_adapter.Failover.Ingest.{
  new_row, stored, is_active_oob_conflict, accepted_primary, accepted_oob, apply_report,
  parse_reported, stored_change, upsert_parsed, with_oob, with_primary, upsert_failover_ips,
}
use nso_adapter.Failover.Ingest.Settled.{IsSpelt, IsSettled, accept_settles}
use nso_adapter.Failover.Ingest.Repeat.{settled_again, stored_oob, accepted_held}

-- An address that was parsed has a text that parses to it.
module _ (ip_address : String → Option IpAddress) (ip_text : IpAddress → String)
    (round_trip : (s : String) (a : IpAddress)
      → ip_address s ≡ some a
      → ip_address (ip_text a) ≡ some a) where
  stored-IsSpelt : (s : Option String) → IsSpelt ip_address ip_text (stored ip_address ip_text s)
  stored-IsSpelt none = refl
  stored-IsSpelt (some s) = on (ip_address s) refl
    where
      on : (a : Option IpAddress) → ip_address s ≡ a → IsSpelt ip_address ip_text a
      on none e = refl
      on (some a) e = round_trip s a e

  IsParsed : Reply (Option IpAddress) → Type 0
  IsParsed (raised _) = Unit
  IsParsed (returned a) = IsSpelt ip_address ip_text a

  parse_reported-IsParsed : (s : Option String) → IsParsed (parse_reported ip_address ip_text s)
  unfolding parse_reported IsParsed
  parse_reported-IsParsed none = refl
  parse_reported-IsParsed (some s) =
      elim (ip_address s)
          as (λ x.
            ip_address s ≡ x
            → IsParsed (elim x [
              | none ↦ raised (http_or_value_error "not an address")
              | some a ↦ returned (some a)
            ])) [ none ↦ λ e. tt | some a ↦ λ e. round_trip s a e ]
        refl

  accepted_primary-IsSpelt :
      (c : Bool) (fo : DeviceFailover) (p : Option IpAddress)
      → IsSpelt ip_address ip_text p
      → IsSpelt ip_address ip_text (accepted_primary ip_address ip_text c fo p)
  unfolding accepted_primary
  accepted_primary-IsSpelt c fo p h =
      elim (Bool-cases (c && ip_eq? p (stored ip_address ip_text fo.oob_ip))) [
        | inl e ↦
            subst
              (λ b.
                IsSpelt ip_address ip_text
                  (if b then stored ip_address ip_text fo.primary_ip else p))
              (sym e) (stored-IsSpelt fo.primary_ip)
        | inr e ↦
            subst
              (λ b.
                IsSpelt ip_address ip_text
                  (if b then stored ip_address ip_text fo.primary_ip else p))
              (sym e) h
      ]

  accepted_oob-IsSpelt :
      (c : Bool) (fo : DeviceFailover) (o : Option IpAddress)
      → IsSpelt ip_address ip_text o
      → IsSpelt ip_address ip_text (accepted_oob ip_address ip_text c fo o)
  unfolding accepted_oob
  accepted_oob-IsSpelt true fo o h = stored-IsSpelt fo.oob_ip
  accepted_oob-IsSpelt false fo o h = h

  -- The state of a row that an applied report leaves.
  report_settles :
      (now : ℕ) (fo : DeviceFailover) (p o : Option IpAddress)
      → IsSpelt ip_address ip_text p
      → IsSpelt ip_address ip_text o
      → let c = is_active_oob_conflict ip_address ip_text fo p o in
        let fo' = (apply_report ip_address ip_text now fo p o).0 in
        IsSettled ip_address ip_text c
          (accepted_primary ip_address ip_text c fo p)
          (accepted_oob ip_address ip_text c fo o)
          fo'
        × (fo'.active_address ≡ fo.active_address)
  unfolding apply_report
  report_settles now fo p o hp ho =
      let c = is_active_oob_conflict ip_address ip_text fo p o in
      accept_settles ip_address ip_text now c (accepted_primary ip_address ip_text c fo p)
        (accepted_oob ip_address ip_text c fo o) fo (accepted_primary-IsSpelt c fo p hp)
        (accepted_oob-IsSpelt c fo o ho)

  -- Its stored OOB address can be read while the device runs on OOB.
  abbrev IsLegible : DeviceFailover → Type 0
  IsLegible fo = fo.active_address ≡ oob → is_some (stored ip_address ip_text fo.oob_ip) ≡ true

  apply_report_again :
      (now later : ℕ) (fo : DeviceFailover) (p o : Option IpAddress)
      → IsSpelt ip_address ip_text p
      → IsSpelt ip_address ip_text o
      → IsLegible fo
      → let fo' = (apply_report ip_address ip_text now fo p o).0 in
        apply_report ip_address ip_text later fo' p o ≡ (fo', false)
  apply_report_again now later fo p o hp ho known =
      let done = report_settles now fo p o hp ho in
      settled_again ip_address ip_text later (is_active_oob_conflict ip_address ip_text fo p o) p o
        fo _ refl known done.0 done.1

  apply_report_keeps :
      (now : ℕ) (fo : DeviceFailover) (p o : Option IpAddress) (held : IpAddress)
      → IsSpelt ip_address ip_text p
      → IsSpelt ip_address ip_text o
      → fo.active_address ≡ oob
      → stored ip_address ip_text fo.oob_ip ≡ some held
      → let fo' = (apply_report ip_address ip_text now fo p o).0 in
        (fo'.active_address ≡ oob) × (stored ip_address ip_text fo'.oob_ip ≡ some held)
  apply_report_keeps now fo p o held hp ho a e =
      let c = is_active_oob_conflict ip_address ip_text fo p o in
      let done = report_settles now fo p o hp ho in
      (
        done.1 ∙ a,
        stored_oob ip_address ip_text c _ _ _ done.0
            ∙ accepted_held ip_address ip_text c p o fo held refl a e,
      )

  -- A report that is sent again.
  abbrev Again : Reply Bool × Option DeviceFailover → Reply Bool × Option DeviceFailover → Type 0
  Again x y = (y.1 ≡ x.1) × (y.0 ≢ returned true)

  applied-Again :
      (now later : ℕ) (fo : DeviceFailover) (p o : Option IpAddress)
      → IsSpelt ip_address ip_text p
      → IsSpelt ip_address ip_text o
      → IsLegible fo
      → let c = apply_report ip_address ip_text now fo p o in
        Again
          (stored_change ip_address ip_text c)
          (stored_change ip_address ip_text (apply_report ip_address ip_text later c.0 p o))
  applied-Again now later fo p o hp ho known =
      let e = apply_report_again now later fo p o hp ho known in
      (ap (λ c. some c.0) e, λ r. cc (r, e))

  upsert_parsed-Again :
      (now later : ℕ) (existing : Option DeviceFailover) (p o : Option IpAddress)
      → IsSpelt ip_address ip_text p
      → IsSpelt ip_address ip_text o
      → ((fo : DeviceFailover) → existing ≡ some fo → IsLegible fo)
      → let x = upsert_parsed ip_address ip_text now existing p o in
        Again x (upsert_parsed ip_address ip_text later x.1 p o)
  unfolding upsert_parsed
  upsert_parsed-Again now later (some fo) p o hp ho known =
      applied-Again now later fo p o hp ho (known fo refl)
  upsert_parsed-Again now later none none none hp ho known = (refl, λ r. cc r)
  upsert_parsed-Again now later none (some p) o hp ho known =
      applied-Again now later new_row (some p) o hp ho (λ e. cc e)
  upsert_parsed-Again now later none none (some o) hp ho known =
      applied-Again now later new_row none (some o) hp ho (λ e. cc e)

  with_oob-Again :
      (now later : ℕ) (existing : Option DeviceFailover) (p : Option IpAddress)
      (o : Reply (Option IpAddress))
      → IsSpelt ip_address ip_text p
      → IsParsed o
      → ((fo : DeviceFailover) → existing ≡ some fo → IsLegible fo)
      → let x = with_oob ip_address ip_text now existing p o in
        Again x (with_oob ip_address ip_text later x.1 p o)
  unfolding IsParsed
  with_oob-Again now later existing p (raised e) hp ho known = (refl, λ r. cc r)
  with_oob-Again now later existing p (returned o) hp ho known =
      upsert_parsed-Again now later existing p o hp ho known

  with_primary-Again :
      (now later : ℕ) (existing : Option DeviceFailover) (p o : Reply (Option IpAddress))
      → IsParsed p
      → IsParsed o
      → ((fo : DeviceFailover) → existing ≡ some fo → IsLegible fo)
      → let x = with_primary ip_address ip_text now existing p o in
        Again x (with_primary ip_address ip_text later x.1 p o)
  unfolding IsParsed
  with_primary-Again now later existing (raised e) o hp ho known = (refl, λ r. cc r)
  with_primary-Again now later existing (returned p) o hp ho known =
      with_oob-Again now later existing p o hp ho known

  -- The same report again, at any later time, changes no field of the row and does not claim to;
  -- it is assumed that, while OOB is active, the stored OOB address can be read.
  pub report_again_is_unchanged :
      (now later : ℕ) (existing : Option DeviceFailover) (primary_ip oob_ip : Option String)
      → ((fo : DeviceFailover)
          → existing ≡ some fo
          → fo.active_address ≡ oob
          → is_some (stored ip_address ip_text fo.oob_ip) ≡ true)
      → let (r, row) = upsert_failover_ips ip_address ip_text now existing primary_ip oob_ip in
        let (r', row') = upsert_failover_ips ip_address ip_text later row primary_ip oob_ip in
        (row' ≡ row) × (r' ≢ returned true)
  unfolding upsert_failover_ips
  report_again_is_unchanged now later existing primary_ip oob_ip known =
      with_primary-Again now later existing _ _ (parse_reported-IsParsed primary_ip)
        (parse_reported-IsParsed oob_ip) known

  -- A row that runs on the OOB address `held`.
  pub record RunsOn (held : IpAddress) (row : Option DeviceFailover) : Type 0 where
    pub fo : DeviceFailover
    pub stands : row ≡ some fo
    pub active : fo.active_address ≡ oob
    pub reads : stored ip_address ip_text fo.oob_ip ≡ some held

  with_oob_keeps :
      (now : ℕ) (held : IpAddress) (row : Option DeviceFailover) (p : Option IpAddress)
      (o : Reply (Option IpAddress))
      → IsSpelt ip_address ip_text p
      → IsParsed o
      → RunsOn held row
      → RunsOn held (with_oob ip_address ip_text now row p o).1
  unfolding IsParsed
  with_oob_keeps now held row p (raised e) hp ho h = h
  with_oob_keeps now held row p (returned o) hp ho h =
      let kept = apply_report_keeps now h.fo p o held hp ho h.active h.reads in
      record {
        fo = (apply_report ip_address ip_text now h.fo p o).0;
        stands =
            unfold upsert_parsed in
            ap (λ x. (upsert_parsed ip_address ip_text now x p o).1) h.stands;
        active = kept.0;
        reads = kept.1;
      }

  with_primary_keeps :
      (now : ℕ) (held : IpAddress) (row : Option DeviceFailover) (p o : Reply (Option IpAddress))
      → IsParsed p
      → IsParsed o
      → RunsOn held row
      → RunsOn held (with_primary ip_address ip_text now row p o).1
  unfolding IsParsed
  with_primary_keeps now held row (raised e) o hp ho h = h
  with_primary_keeps now held row (returned p) o hp ho h = with_oob_keeps now held row p o hp ho h

  -- While a device runs on its OOB address no report moves it: the row still says OOB, and its
  -- stored OOB address still reads as the same address, whatever the report holds.
  pub active_oob_is_kept :
      (now : ℕ) (held : IpAddress) (row : Option DeviceFailover) (primary_ip oob_ip : Option String)
      → RunsOn held row
      → RunsOn held (upsert_failover_ips ip_address ip_text now row primary_ip oob_ip).1
  unfolding upsert_failover_ips
  active_oob_is_kept now held row primary_ip oob_ip =
      with_primary_keeps now held row _ _ (parse_reported-IsParsed primary_ip)
        (parse_reported-IsParsed oob_ip)
