-- ===== src/Receipt/Replay.antt =====
-- A repeat of an admitted push is replayed by core/receipt.py.
use nso_adapter.Prelude.{
  ℕ, String, ◌≡◌, refl, sym, ap, ◌∙◌, inl, inr, Bool, true, false, ◌&&◌, Option, none, some, List,
  [], ◌∷◌, ◌==◌, leb, not, ==_iff, ltb, if◌then◌else◌, Bool-cases, arith,
}
use nso_adapter.Receipt.{
  first_receipt, next_receipt, private_keys, private_response, is_private, or_none, PushIdentity,
  IntentDelivery, Response, IntentPushReceipt, Receipts, Admission, replayed, not_a_stream,
  latest_receipt, intent_streams, str_in, is_same_operation, admit_against, first_receipt,
  next_receipt, admit_push, stamp_own, store_response,
}
use nso_adapter.Receipt.Event.{
  Event, deliver, respond, on_lane, is_admitted, happen, concerns, is_old, run, nothing_newer,
}
use nso_adapter.Receipt.Once.{or_else, put_elsewhere, put_here, lane_refuses, same_row}

split : (b later : Bool) → (if b then false else later) ≡ true → (b ≡ false) × (later ≡ true)
split true later h = cc h
split false later h = (refl, h)

module _ {J : Type 0} where
  old_refused :
      (now : ℕ) (r : IntentPushReceipt J) (i : PushIdentity)
      → leb i.seq r.push_seq ≡ true
      → is_admitted (admit_against now (some r) i).0 ≡ false
  unfolding admit_against
  old_refused now r i h = ground arith

  old_stamp :
      (now : ℕ) (response : Response J) (generation_id : Option ℕ) (status_code : ℕ)
      (i : PushIdentity) (r : IntentPushReceipt J)
      → ltb i.seq r.push_seq ≡ true
      → stamp_own now response generation_id status_code i (some r) ≡ none
  old_stamp now response generation_id status_code i r h = ground arith

  in_or_out :
      (b : Bool) (x : Admission J × Receipts J) (table : Receipts J) (d : ℕ) (s : String)
      → x.1 d s ≡ table d s
      → (if b then x else (not_a_stream, table)).1 d s ≡ table d s
  in_or_out true x table d s h = h
  in_or_out false x table d s h = refl

  old_still :
      (d : ℕ) (s : String) (r : IntentPushReceipt J) (table : Receipts J) (event : Event J)
      → table d s ≡ some r
      → concerns d s event ≡ true
      → is_old r.push_seq event ≡ true
      → (happen table event).1 d s ≡ some r
  unfolding admit_push store_response
  old_still d s r table (deliver now delivery) e here old =
      let same : latest_receipt table delivery.device_id delivery.stream ≡ some r =
        same_row table d s delivery here ∙ e in
      let refused =
        ap (λ x. is_admitted (admit_against now x delivery.identity).0) same
        ∙ old_refused now r delivery.identity old in
      in_or_out (str_in delivery.stream intent_streams) _ table d s
        (lane_refuses d s table now delivery here refused)
      ∙ e
  old_still d s r table (respond now response generation_id status_code delivery) e here old =
      let same : latest_receipt table delivery.device_id delivery.stream ≡ some r =
        same_row table d s delivery here ∙ e in
      put_here table d s delivery _ here
      ∙ ap
          (λ x.
            or_else (stamp_own now response generation_id status_code delivery.identity x)
              (table d s))
          same
      ∙ ap (λ x. or_else x (table d s))
          (old_stamp now response generation_id status_code delivery.identity r old)
      ∙ e

  elsewhere_still :
      (d : ℕ) (s : String) (table : Receipts J) (event : Event J)
      → concerns d s event ≡ false
      → (happen table event).1 d s ≡ table d s
  unfolding admit_push store_response
  elsewhere_still d s table (deliver now delivery) h =
      in_or_out (str_in delivery.stream intent_streams) _ table d s
        (put_elsewhere table d s delivery _ h)
  elsewhere_still d s table (respond now response generation_id status_code delivery) h =
      put_elsewhere table d s delivery _ h

  quiet_event :
      (d : ℕ) (s : String) (r : IntentPushReceipt J) (table : Receipts J) (event : Event J)
      → table d s ≡ some r
      → concerns d s event && not (is_old r.push_seq event) ≡ false
      → (happen table event).1 d s ≡ some r
  quiet_event d s r table event e q = elim (Bool-cases (concerns d s event)) [
    | inl here ↦ elim (Bool-cases (is_old r.push_seq event)) [
      | inl old ↦ old_still d s r table event e here old
      | inr new ↦ cc (q, here, new)
    ]
    | inr elsewhere ↦ elsewhere_still d s table event elsewhere ∙ e
  ]

  run_still :
      (d : ℕ) (s : String) (r : IntentPushReceipt J) (table : Receipts J) (events : List (Event J))
      → table d s ≡ some r
      → nothing_newer d s r.push_seq events ≡ true
      → run table events d s ≡ some r
  unfolding run nothing_newer
  run_still d s r table [] e q = e
  run_still d s r table (event ∷ rest) e q =
      let (quiet, later) = split (concerns d s event && not (is_old r.push_seq event)) _ q in
      run_still d s r (happen table event).1 rest (quiet_event d s r table event e quiet) later

  -- A push that was admitted is replayed: while nothing newer comes on its lane, a repeat of it, at
  -- any time, is answered with the stored response and status, and changes no row of the table.
  pub repeat_is_replayed :
      (now : ℕ) (table : Receipts J) (delivery : IntentDelivery) (r : IntentPushReceipt J)
      (events : List (Event J))
      → str_in delivery.stream intent_streams ≡ true
      → table delivery.device_id delivery.stream ≡ some r
      → r.push_seq ≡ delivery.identity.seq
      → is_same_operation r delivery.identity ≡ true
      → nothing_newer delivery.device_id delivery.stream r.push_seq events ≡ true
      → admit_push now (run table events) delivery
        ≡ (replayed r.response r.status_code, run table events)
  unfolding admit_push admit_against
  repeat_is_replayed now table delivery r events inside e same operation q =
      let still = run_still delivery.device_id delivery.stream r table events e q in
      let its_own = (==_iff r.push_seq delivery.identity.seq).1 same in
      rw (inside, still, its_own, operation)

  private_twice : (l : Response J) → private_keys (private_keys l) ≡ private_keys l
  unfolding private_keys
  private_twice [] = refl
  private_twice ((key, value) ∷ rest) = elim (Bool-cases (is_private key)) [
    | inl e ↦ rw (e, e, private_twice rest)
    | inr e ↦ rw (e, private_twice rest)
  ]

  private_or_none : (l : Response J) → private_response (or_none l) ≡ private_keys l
  unfolding private_keys
  private_or_none [] = refl
  private_or_none (entry ∷ rest) = refl

  -- The private part of a lane's stored response.
  unfoldable pub private_part : Option (IntentPushReceipt J) → Response J
  private_part none = []
  private_part (some receipt) = private_response receipt.response

  renewed_private :
      (response : Option (Response J))
      → private_response (or_none (private_response response)) ≡ private_response response
  unfolding private_keys
  renewed_private none = refl
  renewed_private (some response) = private_or_none (private_keys response) ∙ private_twice response

  private_row :
      (now : ℕ) (row : Option (IntentPushReceipt J)) (i : PushIdentity)
      → private_part (or_else (admit_against now row i).1 row) ≡ private_part row
  unfolding admit_against first_receipt next_receipt private_part
  private_row now none i = refl
  private_row now (some r) i = elim (Bool-cases (r.push_seq == i.seq)) [
    | inl e ↦ elim (Bool-cases (is_same_operation r i)) [
      | inl e' ↦ rw (e, e')
      | inr e' ↦ rw (e, e')
    ]
    | inr e ↦ elim (Bool-cases (ltb i.seq r.push_seq)) [
      | inl e' ↦ rw (e, e')
      | inr e' ↦ rw (e, e', renewed_private r.response)
    ]
  ]

  in_or_out-private :
      (b : Bool) (x : Admission J × Receipts J) (table : Receipts J) (d : ℕ) (s : String)
      → private_part (x.1 d s) ≡ private_part (table d s)
      → private_part ((if b then x else (not_a_stream, table)).1 d s) ≡ private_part (table d s)
  in_or_out-private true x table d s h = h
  in_or_out-private false x table d s h = refl

  -- Whatever a delivery is answered, the private keys of every lane's stored response, which hold
  -- deletions that were not promoted yet, are those that it had before.
  pub admit_push-private_part :
      (now : ℕ) (table : Receipts J) (delivery : IntentDelivery) (d : ℕ) (s : String)
      → private_part ((admit_push now table delivery).1 d s) ≡ private_part (table d s)
  unfolding admit_push
  admit_push-private_part now table delivery d s =
      let row = latest_receipt table delivery.device_id delivery.stream in
      let new = (admit_against now row delivery.identity).1 in
      in_or_out-private (str_in delivery.stream intent_streams) _ table d s
        (elim (Bool-cases (on_lane d s delivery)) [
          | inl here ↦
              let e = same_row table d s delivery here in
              ap private_part (put_here table d s delivery new here)
              ∙ ap (λ x. private_part (or_else new x)) (sym e)
              ∙ private_row now row delivery.identity
              ∙ ap private_part e
          | inr elsewhere ↦ ap private_part (put_elsewhere table d s delivery new elsewhere)
        ])
