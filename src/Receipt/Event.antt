-- ===== src/Receipt/Event.antt =====
-- Histories of the receipts of core/receipt.py: deliveries and responses in some order.
use nso_adapter.Prelude.{
  ℕ, String, Bool, true, false, ◌&&◌, Option, none, some, List, [], ◌∷◌, ◌==◌, leb, not, ltb,
  str_eq, if◌then◌else◌,
}
use nso_adapter.Receipt.{
  IntentDelivery, Response, IntentPushReceipt, Receipts, Admission, admitted, admit_push,
  store_response,
}

-- What happens to the table: a delivery, or the response of one that was admitted.
pub data Event (J : Type 0) : Type 0 where
  deliver : ℕ → IntentDelivery → Event J
  respond : ℕ → Response J → Option ℕ → ℕ → IntentDelivery → Event J

abbrev pub on_lane : ℕ → String → IntentDelivery → Bool
on_lane device_id stream delivery = device_id == delivery.device_id && str_eq stream delivery.stream

module _ {J : Type 0} where
  abbrev pub is_admitted : Admission J → Bool
  is_admitted admitted = true
  is_admitted _ = false

  -- One event, with whether its work is done.
  abbrev pub happen : Receipts J → Event J → Bool × Receipts J
  happen table (deliver now delivery) =
      let (verdict, table') = admit_push now table delivery in (is_admitted verdict, table')
  happen table (respond now response generation_id status_code delivery) =
      (false, (store_response now response generation_id status_code table delivery).1)

  -- The event's delivery is one of the lane.
  abbrev pub concerns : ℕ → String → Event J → Bool
  concerns device_id stream (deliver _ delivery) = on_lane device_id stream delivery
  concerns device_id stream (respond _ _ _ _ delivery) = on_lane device_id stream delivery

  abbrev pub seq_of : Event J → ℕ
  seq_of (deliver _ delivery) = delivery.identity.seq
  seq_of (respond _ _ _ _ delivery) = delivery.identity.seq

  -- An event of a sequence that is not above `n`, and no response to `n` itself.
  abbrev pub is_old : ℕ → Event J → Bool
  is_old n (deliver _ delivery) = leb delivery.identity.seq n
  is_old n (respond _ _ _ _ delivery) = ltb delivery.identity.seq n

  -- The sequences that were admitted on a lane, in the order of the events.
  unfoldable pub admitted_seqs : ℕ → String → Receipts J → List (Event J) → List ℕ
  admitted_seqs device_id stream table [] = []
  admitted_seqs device_id stream table (event ∷ rest) =
      let (done, table') = happen table event in
      let later = admitted_seqs device_id stream table' rest in
      if concerns device_id stream event && done then seq_of event ∷ later else later

  unfoldable pub run : Receipts J → List (Event J) → Receipts J
  run table [] = table
  run table (event ∷ rest) = run (happen table event).1 rest

  abbrev pub last_seq : Option (IntentPushReceipt J) → Option ℕ
  last_seq none = none
  last_seq (some receipt) = some receipt.push_seq

  -- Nothing newer than sequence `n` comes on the lane.
  unfoldable pub nothing_newer : ℕ → String → ℕ → List (Event J) → Bool
  nothing_newer device_id stream n [] = true
  nothing_newer device_id stream n (event ∷ rest) =
      let later = nothing_newer device_id stream n rest in
      if concerns device_id stream event && not (is_old n event) then false else later
