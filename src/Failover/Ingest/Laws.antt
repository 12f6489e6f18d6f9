-- ===== src/Failover/Ingest/Laws.antt =====
-- What `upsert_failover_ips` of core/failover.py promises.
use nso_adapter.Prelude.{
  ℕ, String, ◌≡◌, ◌≢◌, refl, ◌∙◌, ap, Option, none, some, Bool, true, false, arith, eq_iff,
}
use nso_adapter.Failover.Row.{IpAddress, v4, v6, DeviceFailover, ip_eq?}
use nso_adapter.Failover.Client.{Reply, returned, raised}
use nso_adapter.Failover.Ingest.{
  Change, ◌then_do◌, text_eq?, note_conflict, store_primary, store_oob, spell_primary, spell_oob,
  clear_invalid, apply_report, parse_reported, upsert_parsed, with_oob, with_primary,
  upsert_failover_ips,
}

-- A change that reports nothing has changed nothing.
abbrev IsHonest : DeviceFailover → Change → Type 0
IsHonest fo c = c.1 ≡ false → c.0 ≡ fo

then_do-IsHonest :
    (fo : DeviceFailover) (c : Change) (step : DeviceFailover → Change)
    → IsHonest fo c
    → ((g : DeviceFailover) → IsHonest g (step g))
    → IsHonest fo (c then_do step)
then_do-IsHonest fo (g, true) step h k e = cc
then_do-IsHonest fo (g, false) step h k e = k g e ∙ h refl

pub ip_eq?_sound : (a b : Option IpAddress) → ip_eq? a b ≡ true → a ≡ b
ip_eq?_sound none none h = refl
ip_eq?_sound none (some b) h = cc
ip_eq?_sound (some a) none h = cc
ip_eq?_sound (some (v4 a)) (some (v4 b)) h = ground arith
ip_eq?_sound (some (v4 a)) (some (v6 b)) h = cc
ip_eq?_sound (some (v6 a)) (some (v4 b)) h = cc
ip_eq?_sound (some (v6 a)) (some (v6 b)) h = ground arith

pub ip_eq?_refl : (a : Option IpAddress) → ip_eq? a a ≡ true
ip_eq?_refl none = refl
ip_eq?_refl (some (v4 a)) = ground arith
ip_eq?_refl (some (v6 a)) = ground arith

pub text_eq?_sound : (a b : Option String) → text_eq? a b ≡ true → a ≡ b
text_eq?_sound none none h = refl
text_eq?_sound none (some b) h = cc
text_eq?_sound (some a) none h = cc
text_eq?_sound (some a) (some b) h = ap some ((eq_iff a b).0 h)

pub text_eq?_refl : (a : Option String) → text_eq? a a ≡ true
text_eq?_refl none = refl
text_eq?_refl (some a) = (eq_iff a a).1 refl

module _ (ip_address : String → Option IpAddress) (ip_text : IpAddress → String) where
  note_conflict-IsHonest :
      (c : Bool) (fo : DeviceFailover) → IsHonest fo (note_conflict ip_address ip_text c fo)
  unfolding note_conflict
  note_conflict-IsHonest true fo h = ground arith
  note_conflict-IsHonest false fo h = ground arith

  store_primary-IsHonest :
      (now : ℕ) (a : Option IpAddress) (fo : DeviceFailover)
      → IsHonest fo (store_primary ip_address ip_text now a fo)
  unfolding store_primary
  store_primary-IsHonest now a fo h = ground arith

  store_oob-IsHonest :
      (now : ℕ) (a : Option IpAddress) (fo : DeviceFailover)
      → IsHonest fo (store_oob ip_address ip_text now a fo)
  unfolding store_oob
  store_oob-IsHonest now a fo h = ground arith

  spell_primary-IsHonest :
      (a : Option IpAddress) (fo : DeviceFailover)
      → IsHonest fo (spell_primary ip_address ip_text a fo)
  unfolding spell_primary
  spell_primary-IsHonest a fo h = ground arith

  spell_oob-IsHonest :
      (a : Option IpAddress) (fo : DeviceFailover) → IsHonest fo (spell_oob ip_address ip_text a fo)
  unfolding spell_oob
  spell_oob-IsHonest a fo h = ground arith

  clear_invalid-IsHonest : (fo : DeviceFailover) → IsHonest fo (clear_invalid ip_address ip_text fo)
  unfolding clear_invalid
  clear_invalid-IsHonest fo h = ground arith

  apply_report-IsHonest :
      (now : ℕ) (fo : DeviceFailover) (p o : Option IpAddress)
      → IsHonest fo (apply_report ip_address ip_text now fo p o)
  unfolding apply_report
  apply_report-IsHonest now fo p o =
      then_do-IsHonest fo _ _
        (then_do-IsHonest fo _ _
          (then_do-IsHonest fo _ _
            (then_do-IsHonest fo _ _
              (then_do-IsHonest fo _ _ (note_conflict-IsHonest _ fo) (store_primary-IsHonest now _))
              (store_oob-IsHonest now _))
            (spell_primary-IsHonest _))
          (spell_oob-IsHonest _))
        clear_invalid-IsHonest

  kept :
      (fo : DeviceFailover) (c : Change)
      → IsHonest fo c
      → returned c.1 ≢ returned true
      → some c.0 ≡ some fo
  kept fo (g, true) h ne = absurd (ne refl)
  kept fo (g, false) h ne = ap some (h refl)

  with_oob-kept :
      (now : ℕ) (fo : DeviceFailover) (p : Option IpAddress) (o : Reply (Option IpAddress))
      → let (r, after) = with_oob ip_address ip_text now (some fo) p o in
        r ≢ returned true → after ≡ some fo
  unfolding upsert_parsed
  with_oob-kept now fo p (raised e) ne = refl
  with_oob-kept now fo p (returned o) ne =
      kept fo (apply_report ip_address ip_text now fo p o) (apply_report-IsHonest now fo p o) ne

  with_primary-kept :
      (now : ℕ) (fo : DeviceFailover) (p o : Reply (Option IpAddress))
      → let (r, after) = with_primary ip_address ip_text now (some fo) p o in
        r ≢ returned true → after ≡ some fo
  with_primary-kept now fo (raised e) o ne = refl
  with_primary-kept now fo (returned p) o ne = with_oob-kept now fo p o ne

  -- On a device with a row, a report that is not said to have changed anything, because it repeats
  -- what is stored or because an address is malformed, leaves every field of the row as it was.
  pub unchanged_is_unchanged :
      (now : ℕ) (fo : DeviceFailover) (primary_ip oob_ip : Option String)
      → let (r, after) = upsert_failover_ips ip_address ip_text now (some fo) primary_ip oob_ip in
        r ≢ returned true → after ≡ some fo
  unfolding upsert_failover_ips
  unchanged_is_unchanged now fo primary_ip oob_ip =
      with_primary-kept now fo (parse_reported ip_address ip_text primary_ip)
        (parse_reported ip_address ip_text oob_ip)
