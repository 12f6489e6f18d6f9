-- ===== src/Failover/Ingest/Settled.antt =====
-- The row after `upsert_failover_ips` of core/failover.py, field by field.
use nso_adapter.Prelude.{
  ℕ, String, ◌≡◌, refl, ◌∙◌, ap, Option, none, some, Bool, true, false, arith,
}
use nso_adapter.Failover.Row.{IpAddress, DeviceFailover, is_conflict, is_stored_invalid}
use nso_adapter.Failover.Ingest.{
  stored, text, is_invalid, note_conflict, store_primary, store_oob, spell_primary, spell_oob,
  clear_invalid, accept,
}
use nso_adapter.Failover.Ingest.Laws.{text_eq?_sound}

module _ (ip_address : String → Option IpAddress) (ip_text : IpAddress → String) where
  -- The text of the address reads as the address.
  abbrev pub IsSpelt : Option IpAddress → Type 0
  IsSpelt a = stored ip_address ip_text (text ip_address ip_text a) ≡ a

  pub is_invalid-text :
      (a : Option IpAddress)
      → IsSpelt a
      → is_invalid ip_address ip_text (text ip_address ip_text a) ≡ false
  is_invalid-text none h = refl
  is_invalid-text (some a) h = rw h

  -- The row fits an accepted pair of addresses and the verdict on the report.
  pub record IsSettled (c : Bool) (p o : Option IpAddress) (fo : DeviceFailover) : Type 0 where
    pub primary_text : fo.primary_ip ≡ text ip_address ip_text p
    pub oob_text : fo.oob_ip ≡ text ip_address ip_text o
    pub primary_spelt : IsSpelt p
    pub oob_spelt : IsSpelt o
    pub conflict : is_conflict fo.failback_blocked_reason ≡ c
    pub valid : is_stored_invalid fo.failback_blocked_reason ≡ false

  note_conflict_lem :
      (c : Bool) (fo : DeviceFailover)
      → let fo' = (note_conflict ip_address ip_text c fo).0 in
        (is_conflict fo'.failback_blocked_reason ≡ c) × (fo'.active_address ≡ fo.active_address)
  unfolding note_conflict
  note_conflict_lem true fo = ground arith
  note_conflict_lem false fo = ground arith

  store_primary_lem :
      (now : ℕ) (a : Option IpAddress) (fo : DeviceFailover)
      → let fo' = (store_primary ip_address ip_text now a fo).0 in
        (fo'.failback_blocked_reason ≡ fo.failback_blocked_reason)
        × (fo'.active_address ≡ fo.active_address)
  unfolding store_primary
  store_primary_lem now a fo = ground arith

  store_oob_lem :
      (now : ℕ) (a : Option IpAddress) (fo : DeviceFailover)
      → let fo' = (store_oob ip_address ip_text now a fo).0 in
        (fo'.failback_blocked_reason ≡ fo.failback_blocked_reason)
        × (fo'.active_address ≡ fo.active_address)
  unfolding store_oob
  store_oob_lem now a fo = ground arith

  spell_primary_lem :
      (a : Option IpAddress) (fo : DeviceFailover)
      → let fo' = (spell_primary ip_address ip_text a fo).0 in
        (fo'.primary_ip ≡ text ip_address ip_text a)
        × (fo'.failback_blocked_reason ≡ fo.failback_blocked_reason)
        × (fo'.active_address ≡ fo.active_address)
  unfolding spell_primary
  spell_primary_lem a fo = ground (arith, text_eq?_sound fo.primary_ip (text ip_address ip_text a))

  spell_oob_lem :
      (a : Option IpAddress) (fo : DeviceFailover)
      → let fo' = (spell_oob ip_address ip_text a fo).0 in
        (fo'.oob_ip ≡ text ip_address ip_text a)
        × (fo'.primary_ip ≡ fo.primary_ip)
        × (fo'.failback_blocked_reason ≡ fo.failback_blocked_reason)
        × (fo'.active_address ≡ fo.active_address)
  unfolding spell_oob
  spell_oob_lem a fo = ground (arith, text_eq?_sound fo.oob_ip (text ip_address ip_text a))

  clear_invalid_lem :
      (fo : DeviceFailover)
      → is_invalid ip_address ip_text fo.primary_ip ≡ false
      → is_invalid ip_address ip_text fo.oob_ip ≡ false
      → let fo' = (clear_invalid ip_address ip_text fo).0 in
        (fo'.primary_ip ≡ fo.primary_ip)
        × (fo'.oob_ip ≡ fo.oob_ip)
        × (is_conflict fo'.failback_blocked_reason ≡ is_conflict fo.failback_blocked_reason)
        × (is_stored_invalid fo'.failback_blocked_reason ≡ false)
        × (fo'.active_address ≡ fo.active_address)
  unfolding clear_invalid
  clear_invalid_lem fo hp ho = ground arith

  pub accept_settles :
      (now : ℕ) (c : Bool) (p o : Option IpAddress) (fo : DeviceFailover)
      → IsSpelt p
      → IsSpelt o
      → let fo' = (accept ip_address ip_text now c p o fo).0 in
        IsSettled c p o fo' × (fo'.active_address ≡ fo.active_address)
  unfolding accept
  accept_settles now c p o fo sp so =
      let f0 = (note_conflict ip_address ip_text c fo).0 in
      let f1 = (store_primary ip_address ip_text now p f0).0 in
      let f2 = (store_oob ip_address ip_text now o f1).0 in
      let f3 = (spell_primary ip_address ip_text p f2).0 in
      let f4 = (spell_oob ip_address ip_text o f3).0 in
      let h0 = note_conflict_lem c fo in
      let h1 = store_primary_lem now p f0 in
      let h2 = store_oob_lem now o f1 in
      let h3 = spell_primary_lem p f2 in
      let h4 = spell_oob_lem o f3 in
      let ep : f4.primary_ip ≡ text ip_address ip_text p = h4.1 ∙ h3.0 in
      let vp = ap (is_invalid ip_address ip_text) ep ∙ is_invalid-text p sp in
      let vo = ap (is_invalid ip_address ip_text) h4.0 ∙ is_invalid-text o so in
      let h5 = clear_invalid_lem f4 vp vo in
      (
        record {
          primary_text = h5.0 ∙ ep;
          oob_text = h5.1 ∙ h4.0;
          primary_spelt = sp;
          oob_spelt = so;
          conflict = h5.2 ∙ ap is_conflict (h4.2 ∙ h3.1 ∙ h2.0 ∙ h1.0) ∙ h0.0;
          valid = h5.3;
        },
        h5.4 ∙ h4.3 ∙ h3.2 ∙ h2.1 ∙ h1.1 ∙ h0.1,
      )
