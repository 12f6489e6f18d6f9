-- ===== src/Receipt/Tests.antt =====
-- Concrete deliveries to core/receipt.py: one lane, sequences 7 and 8, with a repeat.
use nso_adapter.Prelude.{ℕ, ◌≡◌, refl, true, false, none, some, List, [], ◌∷◌}
use nso_adapter.Receipt.{
  IntentDelivery, IntentPushReceipt, Receipts, replayed, admit_push, store_response,
  is_same_operation, first_receipt,
}
use nso_adapter.Receipt.Event.{Event, deliver, respond, admitted_seqs, run, nothing_newer}
use nso_adapter.Receipt.Once.{IsRising, admitted_seqs-IsRising}
use nso_adapter.Receipt.Replay.{repeat_is_replayed}

abbrev push : ℕ → IntentDelivery
push seq = record {
  device_id = 4;
  stream = "static_route";
  identity = record {
    seq = seq;
    digest = "d41d8c";
    store_only = false;
    delete_origin = true;
    backfill_only = false;
  };
}

abbrev nothing_yet : Receipts ℕ
nothing_yet device_id stream = none

abbrev history : List (Event ℕ)
history =
    deliver 1 (push 7)
    ∷ respond 2 (("_promotion_deletions", 3) ∷ ("count", 5) ∷ []) none 200 (push 7)
    ∷ deliver 3 (push 7)
    ∷ deliver 4 (push 8)
    ∷ deliver 5 (push 7)
    ∷ []

history_admits : admitted_seqs 4 "static_route" nothing_yet history ≡ 7 ∷ 8 ∷ []
unfolding admitted_seqs admit_push store_response first_receipt is_same_operation
history_admits = refl

admitted_seqs-IsRising_example : IsRising none (admitted_seqs 4 "static_route" nothing_yet history)
admitted_seqs-IsRising_example = admitted_seqs-IsRising 4 "static_route" nothing_yet history

abbrev seventh : IntentPushReceipt ℕ
seventh = record {
  push_seq = 7;
  request_digest = "d41d8c";
  store_only = false;
  delete_origin = true;
  backfill_only = false;
  response = some (("_promotion_deletions", 3) ∷ ("count", 5) ∷ []);
  status_code = 200;
  generation_id = none;
  updated_at = 2;
}

abbrev after_seventh : Receipts ℕ
after_seventh device_id stream = some seventh

repeat_is_replayed_example :
    admit_push 9 (run after_seventh (deliver 3 (push 6) ∷ [])) (push 7)
    ≡ (replayed seventh.response 200, run after_seventh (deliver 3 (push 6) ∷ []))
unfolding is_same_operation nothing_newer
repeat_is_replayed_example =
    repeat_is_replayed 9 after_seventh (push 7) seventh (deliver 3 (push 6) ∷ []) refl refl refl
      refl refl
