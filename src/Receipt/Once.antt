-- ===== src/Receipt/Once.antt =====
-- No push is admitted twice by core/receipt.py.
use nso_adapter.Prelude.{
  ℕ, String, ◌≡◌, refl, sym, ap, subst, ◌∙◌, ◌<◌, inl, inr, Bool, true, false, ◌&&◌, Option, none,
  some, List, [], ◌∷◌, ◌==◌, ==_iff, eq_iff, if◌then◌else◌, Bool-cases, arith,
}
use nso_adapter.Receipt.{
  PushIdentity, IntentDelivery, Response, IntentPushReceipt, Receipts, Admission, not_a_stream,
  latest_receipt, put_if, intent_streams, str_in, admit_against, first_receipt, next_receipt,
  admitting, admit_push, stamp_own, store_response,
}
use nso_adapter.Receipt.Event.{
  Event, deliver, respond, on_lane, is_admitted, happen, concerns, seq_of, admitted_seqs, last_seq,
}

module _ {J : Type 0} where
  abbrev pub or_else :
      Option (IntentPushReceipt J) → Option (IntentPushReceipt J) → Option (IntentPushReceipt J)
  or_else none old = old
  or_else (some new) old = some new

  put_if_lem :
      (table : Receipts J) (d : ℕ) (s : String) (delivery : IntentDelivery)
      (row : Option (IntentPushReceipt J))
      → put_if table delivery.device_id delivery.stream row d s
        ≡ (if on_lane d s delivery then or_else row (table d s) else table d s)
  put_if_lem table d s delivery none =
      elim (on_lane d s delivery) as (λ b. table d s ≡ (if b then table d s else table d s)) [
        | true ↦ refl
        | false ↦ refl
      ]
  put_if_lem table d s delivery (some r) = refl

abbrev pub Above : Option ℕ → ℕ → Type 0
Above none n = Unit
Above (some floor) n = floor < n

-- Each number is above the one before it, and the first is above the floor.
unfoldable pub IsRising : Option ℕ → List ℕ → Type 0
IsRising floor [] = Unit
IsRising floor (n ∷ rest) = Above floor n × IsRising (some n) rest

never {ℓ} : {A : Type ℓ} (b : Bool) → (b && false) ≡ true → A
never true h = cc h
never false h = cc h

rises_on :
    (floor last : Option ℕ) (b : Bool) (n : ℕ) (later : List ℕ)
    → (b ≡ true → Above floor n × (last ≡ some n))
    → (b ≡ false → last ≡ floor)
    → IsRising last later
    → IsRising floor (if b then n ∷ later else later)
unfolding IsRising
rises_on floor last true n later up same h =
    ((up refl).0, subst (λ x. IsRising x later) (up refl).1 h)
rises_on floor last false n later up same h = subst (λ x. IsRising x later) (same refl) h

pub on_lane_sound :
    (d : ℕ) (s : String) (delivery : IntentDelivery)
    → on_lane d s delivery ≡ true
    → (delivery.device_id ≡ d) × (delivery.stream ≡ s)
on_lane_sound d s delivery h = elim (Bool-cases (d == delivery.device_id)) [
  | inl e ↦
      (sym ((==_iff d delivery.device_id).0 e), sym ((eq_iff s delivery.stream).0 (cc (e, h))))
  | inr e ↦ cc (e, h)
]

module _ {J : Type 0} where
  -- The lane's row that an admission leaves, against the row that it met.
  admits-Above :
      (now : ℕ) (row : Option (IntentPushReceipt J)) (i : PushIdentity)
      → is_admitted (admit_against now row i).0 ≡ true
      → Above (last_seq row) i.seq
        × (last_seq (or_else (admit_against now row i).1 row) ≡ some i.seq)
  unfolding admit_against first_receipt next_receipt
  admits-Above now none i h = (tt, refl)
  admits-Above now (some r) i h = ground arith

  refuses_still :
      (now : ℕ) (row : Option (IntentPushReceipt J)) (i : PushIdentity)
      → is_admitted (admit_against now row i).0 ≡ false
      → or_else (admit_against now row i).1 row ≡ row
  unfolding admit_against
  refuses_still now none i h = cc h
  refuses_still now (some r) i h = ground arith

  stamps_still :
      (now : ℕ) (response : Response J) (generation_id : Option ℕ) (status_code : ℕ)
      (i : PushIdentity) (row : Option (IntentPushReceipt J))
      → last_seq (or_else (stamp_own now response generation_id status_code i row) row)
        ≡ last_seq row
  stamps_still now response generation_id status_code i none = refl
  stamps_still now response generation_id status_code i (some r) =
      elim (Bool-cases (r.push_seq == i.seq)) [ inl e ↦ rw e | inr e ↦ rw e ]

  pub same_row :
      (table : Receipts J) (d : ℕ) (s : String) (delivery : IntentDelivery)
      → on_lane d s delivery ≡ true
      → latest_receipt table delivery.device_id delivery.stream ≡ table d s
  same_row table d s delivery h = let (e, e') = on_lane_sound d s delivery h in cc (e, e')

  -- An event that is no admission on the lane leaves the lane's last sequence.
  pub put_elsewhere :
      (table : Receipts J) (d : ℕ) (s : String) (delivery : IntentDelivery)
      (row : Option (IntentPushReceipt J))
      → on_lane d s delivery ≡ false
      → put_if table delivery.device_id delivery.stream row d s ≡ table d s
  put_elsewhere table d s delivery row h =
      put_if_lem table d s delivery row
      ∙ ap (λ b. if b then or_else row (table d s) else table d s) h

  pub put_here :
      (table : Receipts J) (d : ℕ) (s : String) (delivery : IntentDelivery)
      (row : Option (IntentPushReceipt J))
      → on_lane d s delivery ≡ true
      → put_if table delivery.device_id delivery.stream row d s ≡ or_else row (table d s)
  put_here table d s delivery row h =
      put_if_lem table d s delivery row
      ∙ ap (λ b. if b then or_else row (table d s) else table d s) h

  -- What an event means for a lane: it is admitted there, above what was admitted before, or it
  -- leaves the lane's last sequence as it was.
  abbrev Effect : ℕ → String → Receipts J → Event J → Bool × Receipts J → Type 0
  Effect d s table event (done, table') =
      ((concerns d s event && done ≡ true)
        → Above (last_seq (table d s)) (seq_of event)
          × (last_seq (table' d s) ≡ some (seq_of event)))
      × ((concerns d s event && done ≡ false) → last_seq (table' d s) ≡ last_seq (table d s))

  lane_admits :
      (d : ℕ) (s : String) (table : Receipts J) (now : ℕ) (delivery : IntentDelivery)
      → on_lane d s delivery ≡ true
      → let verdict =
          admit_against now
            (latest_receipt table delivery.device_id delivery.stream)
            delivery.identity in
        is_admitted verdict.0 ≡ true
        → Above (last_seq (table d s)) delivery.identity.seq
          × (last_seq ((admitting table delivery verdict).1 d s) ≡ some delivery.identity.seq)
  lane_admits d s table now delivery here a =
      let row = latest_receipt table delivery.device_id delivery.stream in
      let new = (admit_against now row delivery.identity).1 in
      let e = same_row table d s delivery here in
      let (above, last) = admits-Above now row delivery.identity a in
      (
        subst (λ r. Above (last_seq r) delivery.identity.seq) e above,
        ap last_seq (put_here table d s delivery new here)
            ∙ ap (λ r. last_seq (or_else new r)) (sym e)
            ∙ last,
      )

  pub lane_refuses :
      (d : ℕ) (s : String) (table : Receipts J) (now : ℕ) (delivery : IntentDelivery)
      → on_lane d s delivery ≡ true
      → let verdict =
          admit_against now
            (latest_receipt table delivery.device_id delivery.stream)
            delivery.identity in
        is_admitted verdict.0 ≡ false → (admitting table delivery verdict).1 d s ≡ table d s
  lane_refuses d s table now delivery here a =
      let row = latest_receipt table delivery.device_id delivery.stream in
      let new = (admit_against now row delivery.identity).1 in
      let e = same_row table d s delivery here in
      put_here table d s delivery new here
      ∙ ap (or_else new) (sym e)
      ∙ refuses_still now row delivery.identity a
      ∙ e

  admitting-Effect :
      (d : ℕ) (s : String) (table : Receipts J) (now : ℕ) (delivery : IntentDelivery)
      → let (verdict, table') = admitting table delivery (
          admit_against now
            (latest_receipt table delivery.device_id delivery.stream)
            delivery.identity) in
        Effect d s table (deliver now delivery) (is_admitted verdict, table')
  admitting-Effect d s table now delivery =
      let verdict =
        admit_against now (latest_receipt table delivery.device_id delivery.stream)
          delivery.identity in
      elim (Bool-cases (on_lane d s delivery)) [
        | inl here ↦ elim (Bool-cases (is_admitted verdict.0)) [
          | inl a ↦ (λ f. lane_admits d s table now delivery here a, λ f. cc (here, a, f))
          | inr a ↦
              (λ f. cc (here, a, f), λ f. ap last_seq (lane_refuses d s table now delivery here a))
        ]
        | inr elsewhere ↦ (
          λ f. cc (elsewhere, f),
          λ f. ap last_seq (put_elsewhere table d s delivery verdict.1 elsewhere),
        )
      ]

  Outcome : ℕ → String → Receipts J → ℕ → IntentDelivery → Admission J × Receipts J → Type 0
  Outcome d s table now delivery x = Effect d s table (deliver now delivery) (is_admitted x.0, x.1)

  refused_stream :
      (d : ℕ) (s : String) (table : Receipts J) (now : ℕ) (delivery : IntentDelivery) (b : Bool)
      → let inside = admitting table delivery (
          admit_against now
            (latest_receipt table delivery.device_id delivery.stream)
            delivery.identity) in
        Outcome d s table now delivery (if b then inside else (not_a_stream, table))
  unfolding Outcome
  refused_stream d s table now delivery true = admitting-Effect d s table now delivery
  refused_stream d s table now delivery false = (λ f. never (on_lane d s delivery) f, λ f. refl)

  respond_still :
      (d : ℕ) (s : String) (table : Receipts J) (now : ℕ) (response : Response J)
      (generation_id : Option ℕ) (status_code : ℕ) (delivery : IntentDelivery)
      → last_seq ((store_response now response generation_id status_code table delivery).1 d s)
        ≡ last_seq (table d s)
  unfolding store_response
  respond_still d s table now response generation_id status_code delivery =
      let row = latest_receipt table delivery.device_id delivery.stream in
      let new = stamp_own now response generation_id status_code delivery.identity row in
      elim (Bool-cases (on_lane d s delivery)) [
        | inl here ↦
            let e = same_row table d s delivery here in
            ap last_seq (put_here table d s delivery new here)
            ∙ ap (λ r. last_seq (or_else new r)) (sym e)
            ∙ stamps_still now response generation_id status_code delivery.identity row
            ∙ ap last_seq e
        | inr elsewhere ↦ ap last_seq (put_elsewhere table d s delivery new elsewhere)
      ]

  happen-Effect :
      (d : ℕ) (s : String) (table : Receipts J) (event : Event J)
      → Effect d s table event (happen table event)
  unfolding admit_push store_response
  happen-Effect d s table (deliver now delivery) =
      unfold Outcome in
      refused_stream d s table now delivery (str_in delivery.stream intent_streams)
  happen-Effect d s table (respond now response generation_id status_code delivery) = (
    λ f. never (on_lane d s delivery) f,
    λ f. respond_still d s table now response generation_id status_code delivery,
  )

  -- On every lane, whatever deliveries and responses come in whatever order, each admitted sequence
  -- is above the last one that its receipt holds and above every one admitted before: no push is
  -- admitted twice.
  pub admitted_seqs-IsRising :
      (d : ℕ) (s : String) (table : Receipts J) (events : List (Event J))
      → IsRising (last_seq (table d s)) (admitted_seqs d s table events)
  unfolding admitted_seqs IsRising
  admitted_seqs-IsRising d s table [] = tt
  admitted_seqs-IsRising d s table (event ∷ rest) =
      let later = admitted_seqs-IsRising d s (happen table event).1 rest in
      let effect = happen-Effect d s table event in
      rises_on (last_seq (table d s)) _ (concerns d s event && (happen table event).0)
        (seq_of event) _ effect.0 effect.1 later
