-- ===== src/Receipt.antt =====
-- Receipt admission for keyed intent pushes: core/receipt.py up to and including `admit_push`.
pub mod Event
pub mod Once
pub mod Replay
mod Tests
use nso_adapter.Prelude.{
  ℕ, String, Bool, true, false, ◌&&◌, Option, none, some, List, [], ◌∷◌, ◌==◌, ltb, str_eq, is_some,
  if◌then◌else◌,
}
use Prim.Native.String.{slice}

-- `PushIdentity`: the claim's sequence, the digest of the body, and the request's mode.
pub record PushIdentity : Type 0 where
  pub seq : ℕ
  pub digest : String
  pub store_only : Bool
  pub delete_origin : Bool
  pub backfill_only : Bool

-- `IntentDelivery`, with the device that `admit_push` takes beside it.
pub record IntentDelivery : Type 0 where
  pub device_id : ℕ
  pub stream : String
  pub identity : PushIdentity

-- A JSON object; `J` are the JSON values.
abbrev pub Response : Type 0 → Type 0
Response J = List (String × J)

-- The row of `IntentPushReceipt` (store/models.py) of one device and section.
pub record IntentPushReceipt (J : Type 0) : Type 0 where
  pub push_seq : ℕ
  pub request_digest : String
  pub store_only : Bool
  pub delete_origin : Bool
  pub backfill_only : Bool
  pub response : Option (Response J)
  pub status_code : ℕ
  pub generation_id : Option ℕ
  pub updated_at : ℕ

-- The table: one row at most for each device and section (a unique constraint).
abbrev pub Receipts : Type 0 → Type 0
Receipts J = ℕ → String → Option (IntentPushReceipt J)

-- What `admit_push` answers: None, the stored response, a PushSequenceConflict with its detail, or
-- the RuntimeError of a stream out of the protocol.
pub data Admission (J : Type 0) : Type 0 where
  admitted : Admission J
  replayed : Option (Response J) → ℕ → Admission J
  sequence_reuse : ℕ → String → Bool → Bool → Bool → Admission J
  stale : ℕ → ℕ → Admission J
  not_a_stream : Admission J

-- The values of INTENT_PUT_ENDPOINTS.
abbrev pub intent_streams : List String
intent_streams =
    "bfd" ∷ "bgp" ∷ "interface_config" ∷ "interface_mtu" ∷ "ip" ∷ "isis_flex_algo" ∷ "isis"
    ∷ "l2_sap" ∷ "logging" ∷ "ospf" ∷ "route_policy" ∷ "snmp" ∷ "static_route" ∷ "subinterface"
    ∷ "svi" ∷ "vlan" ∷ []

abbrev pub str_in : String → List String → Bool
str_in s [] = false
str_in s (a ∷ rest) = let found = str_in s rest in if str_eq s a then true else found

abbrev pub bool_eq : Bool → Bool → Bool
bool_eq true true = true
bool_eq false false = true
bool_eq _ _ = false

-- `key.startswith("_")`
abbrev pub is_private : String → Bool
is_private key = str_eq (slice key 0 1) "_"

module _ {J : Type 0} where
  -- `latest_receipt`
  abbrev pub latest_receipt : Receipts J → ℕ → String → Option (IntentPushReceipt J)
  latest_receipt table device_id stream = table device_id stream

  abbrev pub put : Receipts J → ℕ → String → IntentPushReceipt J → Receipts J
  put table device_id stream receipt device_id' stream' =
      if device_id' == device_id && str_eq stream' stream
      then some receipt
      else table device_id' stream'

  unfoldable pub private_keys : Response J → Response J
  private_keys [] = []
  private_keys ((key, value) ∷ rest) =
      if is_private key then (key, value) ∷ private_keys rest else private_keys rest

  -- `_private_response`
  abbrev pub private_response : Option (Response J) → Response J
  private_response none = []
  private_response (some response) = private_keys response

  -- `… or None`
  abbrev pub or_none : Response J → Option (Response J)
  or_none [] = none
  or_none (entry ∷ rest) = some (entry ∷ rest)

  -- The digests and the modes agree.
  unfoldable pub is_same_operation : IntentPushReceipt J → PushIdentity → Bool
  is_same_operation receipt identity =
      str_eq receipt.request_digest identity.digest
      && (bool_eq receipt.store_only identity.store_only
          && (bool_eq receipt.delete_origin identity.delete_origin
              && bool_eq receipt.backfill_only identity.backfill_only))

  -- The row that is added for a first push: the other columns have their defaults.
  unfoldable pub first_receipt : ℕ → PushIdentity → IntentPushReceipt J
  first_receipt now identity = record {
    push_seq = identity.seq;
    request_digest = identity.digest;
    store_only = identity.store_only;
    delete_origin = identity.delete_origin;
    backfill_only = identity.backfill_only;
    response = none;
    status_code = 200;
    generation_id = none;
    updated_at = now;
  }

  -- The row, when a later push becomes its receipt.
  unfoldable pub next_receipt : ℕ → PushIdentity → IntentPushReceipt J → IntentPushReceipt J
  next_receipt now identity receipt = record {
    push_seq = identity.seq;
    request_digest = identity.digest;
    store_only = identity.store_only;
    delete_origin = identity.delete_origin;
    backfill_only = identity.backfill_only;
    response = or_none (private_response receipt.response);
    status_code = 200;
    generation_id = none;
    updated_at = now;
  }

  -- The verdict against the lane's receipt, and the row that replaces it.
  unfoldable pub admit_against :
      ℕ → Option (IntentPushReceipt J) → PushIdentity → Admission J × Option (IntentPushReceipt J)
  unfolding is_same_operation first_receipt next_receipt
  admit_against now none identity = (admitted, some (first_receipt now identity))
  admit_against now (some receipt) identity =
      if receipt.push_seq == identity.seq
      then if is_same_operation receipt identity
        then (replayed receipt.response receipt.status_code, none)
        else (
          sequence_reuse identity.seq receipt.request_digest receipt.store_only
              receipt.delete_origin receipt.backfill_only,
          none,
        )
      else if ltb identity.seq receipt.push_seq
      then (stale identity.seq receipt.push_seq, none)
      else (admitted, some (next_receipt now identity receipt))

  abbrev pub put_if : Receipts J → ℕ → String → Option (IntentPushReceipt J) → Receipts J
  put_if table device_id stream none = table
  put_if table device_id stream (some receipt) = put table device_id stream receipt

  abbrev pub admitting :
      Receipts J
      → IntentDelivery
      → Admission J × Option (IntentPushReceipt J)
      → Admission J × Receipts J
  admitting table delivery (verdict, row) =
      (verdict, put_if table delivery.device_id delivery.stream row)

  -- `admit_push`.
  unfoldable pub admit_push : ℕ → Receipts J → IntentDelivery → Admission J × Receipts J
  unfolding admit_against
  admit_push now table delivery =
      if str_in delivery.stream intent_streams
      then admitting table delivery (
          admit_against now (latest_receipt table delivery.device_id delivery.stream)
            delivery.identity)
      else (not_a_stream, table)

  -- The writes at the end of `record_response`, of the response that it has put together; without
  -- the push's own receipt it raises.
  abbrev pub stamp : ℕ → Response J → Option ℕ → ℕ → IntentPushReceipt J → IntentPushReceipt J
  stamp now response generation_id status_code receipt = record receipt {
    response = some response;
    status_code = status_code;
    generation_id = generation_id;
    updated_at = now;
  }

  abbrev pub stamp_own :
      ℕ
      → Response J
      → Option ℕ
      → ℕ
      → PushIdentity
      → Option (IntentPushReceipt J)
      → Option (IntentPushReceipt J)
  stamp_own now response generation_id status_code identity none = none
  stamp_own now response generation_id status_code identity (some receipt) =
      if receipt.push_seq == identity.seq
      then some (stamp now response generation_id status_code receipt)
      else none

  unfoldable pub store_response :
      ℕ → Response J → Option ℕ → ℕ → Receipts J → IntentDelivery → Bool × Receipts J
  store_response now response generation_id status_code table delivery =
      let row =
        stamp_own now response generation_id status_code delivery.identity
          (latest_receipt table delivery.device_id delivery.stream) in
      (is_some row, put_if table delivery.device_id delivery.stream row)
