-- ===== src/Failover/Ingest/Repeat.antt =====
-- `upsert_failover_ips` of core/failover.py, applied to a row it has settled.
use nso_adapter.Prelude.{
  ℕ, String, ◌≡◌, refl, sym, ◌∙◌, ap, inl, inr, Option, none, some, is_some, Bool, true, false, not,
  ◌&&◌, ◌||◌, arith, Bool-cases, subst,
}
use nso_adapter.Failover.Row.{
  Role, primary, oob, IpAddress, DeviceFailover, role_eq, ip_eq?, is_conflict, is_stored_invalid,
}
use nso_adapter.Failover.Ingest.{
  Change, ◌then_do◌, text_eq?, stored, text, is_invalid, is_active_oob_conflict, accepted_primary,
  accepted_oob, note_conflict, store_primary, store_oob, spell_primary, spell_oob, clear_invalid,
  accept, apply_report,
}
use nso_adapter.Failover.Ingest.Laws.{ip_eq?_sound, ip_eq?_refl, text_eq?_refl}
use nso_adapter.Failover.Ingest.Settled.{IsSpelt, is_invalid-text, IsSettled}

module _ (ip_address : String → Option IpAddress) (ip_text : IpAddress → String) where
  note_conflict_again :
      (c : Bool) (fo : DeviceFailover)
      → is_conflict fo.failback_blocked_reason ≡ c
      → note_conflict ip_address ip_text c fo ≡ (fo, false)
  unfolding note_conflict
  note_conflict_again true fo h = rw h
  note_conflict_again false fo h = rw h

  store_primary_again :
      (now : ℕ) (a : Option IpAddress) (fo : DeviceFailover)
      → IsSpelt ip_address ip_text a
      → fo.primary_ip ≡ text ip_address ip_text a
      → store_primary ip_address ip_text now a fo ≡ (fo, false)
  unfolding store_primary
  store_primary_again now a fo spelt h =
      let valid =
        ap (is_invalid ip_address ip_text) h ∙ is_invalid-text ip_address ip_text a spelt in
      let same = ap (λ x. ip_eq? x a) (ap (stored ip_address ip_text) h ∙ spelt) ∙ ip_eq?_refl a in
      rw (valid, same)

  store_oob_again :
      (now : ℕ) (a : Option IpAddress) (fo : DeviceFailover)
      → IsSpelt ip_address ip_text a
      → fo.oob_ip ≡ text ip_address ip_text a
      → store_oob ip_address ip_text now a fo ≡ (fo, false)
  unfolding store_oob
  store_oob_again now a fo spelt h =
      let valid =
        ap (is_invalid ip_address ip_text) h ∙ is_invalid-text ip_address ip_text a spelt in
      let same = ap (λ x. ip_eq? x a) (ap (stored ip_address ip_text) h ∙ spelt) ∙ ip_eq?_refl a in
      rw (valid, same)

  spell_primary_again :
      (a : Option IpAddress) (fo : DeviceFailover)
      → fo.primary_ip ≡ text ip_address ip_text a
      → spell_primary ip_address ip_text a fo ≡ (fo, false)
  unfolding spell_primary
  spell_primary_again a fo h =
      let same =
        ap (λ x. text_eq? x (text ip_address ip_text a)) h
        ∙ text_eq?_refl (text ip_address ip_text a) in
      rw same

  spell_oob_again :
      (a : Option IpAddress) (fo : DeviceFailover)
      → fo.oob_ip ≡ text ip_address ip_text a
      → spell_oob ip_address ip_text a fo ≡ (fo, false)
  unfolding spell_oob
  spell_oob_again a fo h =
      let same =
        ap (λ x. text_eq? x (text ip_address ip_text a)) h
        ∙ text_eq?_refl (text ip_address ip_text a) in
      rw same

  clear_invalid_again :
      (fo : DeviceFailover)
      → is_stored_invalid fo.failback_blocked_reason ≡ false
      → clear_invalid ip_address ip_text fo ≡ (fo, false)
  unfolding clear_invalid
  clear_invalid_again fo h = rw h

  then_same :
      (fo : DeviceFailover) (c : Change) (step : DeviceFailover → Change)
      → c ≡ (fo, false)
      → step fo ≡ (fo, false)
      → (c then_do step) ≡ (fo, false)
  then_same fo c step e e' = rw e e'

  -- Accepting the same addresses with the same verdict changes a settled row no more.
  accept_settled :
      (now : ℕ) (c : Bool) (p o : Option IpAddress) (fo : DeviceFailover)
      → IsSettled ip_address ip_text c p o fo
      → accept ip_address ip_text now c p o fo ≡ (fo, false)
  unfolding accept
  accept_settled now c p o fo h =
      let s1 = store_primary ip_address ip_text now p in
      let s2 = store_oob ip_address ip_text now o in
      let s3 = spell_primary ip_address ip_text p in
      let s4 = spell_oob ip_address ip_text o in
      let c0 = note_conflict ip_address ip_text c fo in
      let c1 : Change = c0 then_do s1 in
      let c2 : Change = c1 then_do s2 in
      let c3 : Change = c2 then_do s3 in
      let c4 : Change = c3 then_do s4 in
      let e1 =
        then_same fo c0 s1 (note_conflict_again c fo h.conflict)
          (store_primary_again now p fo h.primary_spelt h.primary_text) in
      let e2 = then_same fo c1 s2 e1 (store_oob_again now o fo h.oob_spelt h.oob_text) in
      let e3 = then_same fo c2 s3 e2 (spell_primary_again p fo h.primary_text) in
      let e4 = then_same fo c3 s4 e3 (spell_oob_again o fo h.oob_text) in
      then_same fo c4 (clear_invalid ip_address ip_text) e4 (clear_invalid_again fo h.valid)

  pub stored_oob :
      (c : Bool) (p o : Option IpAddress) (fo : DeviceFailover)
      → IsSettled ip_address ip_text c p o fo
      → stored ip_address ip_text fo.oob_ip ≡ o
  stored_oob c p o fo h = ap (stored ip_address ip_text) h.oob_text ∙ h.oob_spelt

  stored_primary :
      (c : Bool) (p o : Option IpAddress) (fo : DeviceFailover)
      → IsSettled ip_address ip_text c p o fo
      → stored ip_address ip_text fo.primary_ip ≡ p
  stored_primary c p o fo h = ap (stored ip_address ip_text) h.primary_text ∙ h.primary_spelt

  conflict_again :
      (p o : Option IpAddress) (fo fo' : DeviceFailover)
      → is_active_oob_conflict ip_address ip_text fo p o ≡ true
      → IsSettled ip_address ip_text true
          (accepted_primary ip_address ip_text true fo p)
          (accepted_oob ip_address ip_text true fo o)
          fo'
      → fo'.active_address ≡ fo.active_address
      → is_active_oob_conflict ip_address ip_text fo' p o ≡ true
  unfolding is_active_oob_conflict accepted_primary accepted_oob
  conflict_again p o fo fo' e h a = rw (stored_oob true _ _ fo' h, a, e)

  abbrev clash : Role → Option IpAddress → Option IpAddress → Option IpAddress → Bool
  clash r stays p o = role_eq r oob && (is_some stays && (not (ip_eq? o stays) || ip_eq? p stays))

  clash_again :
      (r : Role) (stays p o : Option IpAddress)
      → (r ≡ oob → is_some stays ≡ true)
      → clash r stays p o ≡ false
      → clash r o p o ≡ false
  clash_again primary stays p o known e = refl
  clash_again oob none p o known e = cc (known refl)
  clash_again oob (some s) p o known e = elim (Bool-cases (ip_eq? o (some s))) [
    | inl h ↦ subst (λ x. clash oob x p o ≡ false) (sym (ip_eq?_sound o (some s) h)) e
    | inr h ↦ ground arith
  ]

  agreed_again :
      (p o : Option IpAddress) (fo fo' : DeviceFailover)
      → (fo.active_address ≡ oob → is_some (stored ip_address ip_text fo.oob_ip) ≡ true)
      → is_active_oob_conflict ip_address ip_text fo p o ≡ false
      → IsSettled ip_address ip_text false p o fo'
      → fo'.active_address ≡ fo.active_address
      → is_active_oob_conflict ip_address ip_text fo' p o ≡ false
  unfolding is_active_oob_conflict
  agreed_again p o fo fo' known e h a = rw (
    stored_oob false p o fo' h,
    a,
    clash_again fo.active_address (stored ip_address ip_text fo.oob_ip) p o known e,
  )

  accepted_primary_again :
      (p o : Option IpAddress) (fo fo' : DeviceFailover)
      → IsSettled ip_address ip_text true
          (accepted_primary ip_address ip_text true fo p)
          (accepted_oob ip_address ip_text true fo o)
          fo'
      → accepted_primary ip_address ip_text true fo' p
        ≡ accepted_primary ip_address ip_text true fo p
  unfolding accepted_primary accepted_oob
  accepted_primary_again p o fo fo' h =
      let eo = stored_oob true _ _ fo' h in
      let ep = stored_primary true _ _ fo' h in
      elim (Bool-cases (ip_eq? p (stored ip_address ip_text fo.oob_ip))) [
        | inl e ↦ rw (eo, ep, e)
        | inr e ↦ rw (eo, ep, e)
      ]

  accepted_oob_again :
      (p o : Option IpAddress) (fo fo' : DeviceFailover)
      → IsSettled ip_address ip_text true
          (accepted_primary ip_address ip_text true fo p)
          (accepted_oob ip_address ip_text true fo o)
          fo'
      → accepted_oob ip_address ip_text true fo' o ≡ accepted_oob ip_address ip_text true fo o
  unfolding accepted_oob
  accepted_oob_again p o fo fo' h = stored_oob true _ _ fo' h

  pub settled_again :
      (later : ℕ) (c : Bool) (p o : Option IpAddress) (fo fo' : DeviceFailover)
      → is_active_oob_conflict ip_address ip_text fo p o ≡ c
      → (fo.active_address ≡ oob → is_some (stored ip_address ip_text fo.oob_ip) ≡ true)
      → IsSettled ip_address ip_text c
          (accepted_primary ip_address ip_text c fo p)
          (accepted_oob ip_address ip_text c fo o)
          fo'
      → fo'.active_address ≡ fo.active_address
      → apply_report ip_address ip_text later fo' p o ≡ (fo', false)
  unfolding apply_report accepted_primary accepted_oob
  settled_again later true p o fo fo' e known h a =
      let settled = accept_settled later true _ _ fo' h in
      rw (
        conflict_again p o fo fo' e h a,
        accepted_primary_again p o fo fo' h,
        accepted_oob_again p o fo fo' h,
        settled,
      )
  settled_again later false p o fo fo' e known h a =
      let settled = accept_settled later false p o fo' h in
      rw (agreed_again p o fo fo' known e h a, settled)

  clash_match :
      (p o : Option IpAddress) (held : IpAddress)
      → clash oob (some held) p o ≡ false
      → ip_eq? o (some held) ≡ true
  clash_match p o held e = elim (Bool-cases (ip_eq? o (some held))) [
    | inl h ↦ h
    | inr h ↦ ground arith
  ]

  pub accepted_held :
      (c : Bool) (p o : Option IpAddress) (fo : DeviceFailover) (held : IpAddress)
      → is_active_oob_conflict ip_address ip_text fo p o ≡ c
      → fo.active_address ≡ oob
      → stored ip_address ip_text fo.oob_ip ≡ some held
      → accepted_oob ip_address ip_text c fo o ≡ some held
  unfolding is_active_oob_conflict accepted_oob
  accepted_held true p o fo held c a e = e
  accepted_held false p o fo held c a e =
      let same : clash fo.active_address (stored ip_address ip_text fo.oob_ip) p o
          ≡ clash oob (some held) p o =
        rw (a, e) in
      ip_eq?_sound o (some held) (clash_match p o held (sym same ∙ c))
