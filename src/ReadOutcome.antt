-- ===== src/ReadOutcome.antt =====
-- nso/read_outcome.py: the classification of a device-state section.
use nso_adapter.Prelude.{
  ℕ, String, Bool, true, false, not, ◌&&◌, ◌||◌, Option, none, some, List, [], ◌∷◌, str_eq, is_some,
  if◌then◌else◌,
}
use nso_adapter.Json.{Value, Fields, text, get, has_key}
use nso_adapter.Results.{Result, ok, value_error, ◌>>=◌, ◌>>◌, check}

pub data Freshness : Type 0 where
  fresh stale : Freshness

pub data UnavailableReason : Type 0 where
  export_down read_error not_authoritative unsupported not_ready not_covered : UnavailableReason

pub data ReadOperation : Type 0 where
  section_get doc_get device_state_read section_classify : ReadOperation

pub data ReadFailureCode : Type 0 where
  section_status_error section_status_unrecognized section_malformed : ReadFailureCode
  heal_action_failed action_section_missing : ReadFailureCode
  action_returned_not_ready action_output_not_atomic : ReadFailureCode

pub record ReadFailure : Type 0 where
  pub operation : ReadOperation
  pub device : String
  pub family : String
  pub error_type : Option String
  pub http_status : Option ℕ
  pub code : Option ReadFailureCode

-- `_CODE_PROVENANCE`: the reads that can author a code, and whether the details of a raised read
-- may travel with it.
unfoldable pub authors : ReadFailureCode → ReadOperation → Bool
authors section_status_error section_classify = true
authors section_status_unrecognized section_classify = true
authors section_malformed section_classify = true
authors section_malformed doc_get = true
authors section_malformed device_state_read = true
authors heal_action_failed device_state_read = true
authors action_section_missing device_state_read = true
authors action_returned_not_ready device_state_read = true
authors action_output_not_atomic device_state_read = true
authors _ _ = false

unfoldable pub raised_details_allowed : ReadFailureCode → Bool
raised_details_allowed heal_action_failed = true
raised_details_allowed _ = false

-- `ReadFailure.__post_init__`
unfoldable pub is_possible : ReadFailure → Option ReadFailureCode → Bool
unfolding authors raised_details_allowed
is_possible f none = true
is_possible f (some code) =
    authors code f.operation
    && (raised_details_allowed code || not (is_some f.error_type || is_some f.http_status))

unfoldable pub read_failure : ReadFailure → Result ReadFailure
unfolding is_possible
read_failure f = do check (is_possible f f.code) value_error; ok f

-- `ReadFailure.for_family`: `replace` runs `__post_init__` again.
unfoldable pub for_family : String → ReadFailure → Result ReadFailure
unfolding read_failure
for_family family f = read_failure (record f { family = family })

-- `section_absence_code`
abbrev pub reads_by_action : ReadOperation → Bool
reads_by_action device_state_read = true
reads_by_action _ = false

unfoldable pub section_absence_code : Fields → String → ReadOperation → ReadFailureCode
unfolding has_key
section_absence_code served wire operation =
    if not (has_key wire served) && reads_by_action operation
    then action_section_missing
    else section_malformed

-- `read_failure_from_exception`, of an exception's type and the status that `http_status_of` took
-- from it.
unfoldable pub read_failure_from_exception :
    String → Option ℕ → ReadOperation → String → String → Result ReadFailure
unfolding read_failure
read_failure_from_exception error_type http_status operation device family = read_failure record {
  operation = operation;
  device = device;
  family = family;
  error_type = some error_type;
  http_status = http_status;
  code = none;
}

pub data ReadOutcome : Type 0 where
  present : Fields → Freshness → List ReadFailure → ReadOutcome
  absent_authoritative : ReadOutcome
  unavailable : UnavailableReason → Option ReadFailure → ReadOutcome

-- `Present.composite`
unfoldable pub failures_of : List ReadOutcome → List ReadFailure
failures_of [] = []
failures_of (unavailable reason (some failure) ∷ rest) = failure ∷ failures_of rest
failures_of (_ ∷ rest) = failures_of rest

unfoldable pub composite : Fields → Freshness → List ReadOutcome → ReadOutcome
unfolding failures_of
composite content freshness outcomes = present content freshness (failures_of outcomes)

-- `Unavailable.__post_init__`
abbrev is_liveness_probe : Option String → Bool
is_liveness_probe (some error_type) = str_eq error_type "NsoExportUnavailableError"
is_liveness_probe none = false

unfoldable pub make_unavailable : UnavailableReason → Option ReadFailure → Result ReadOutcome
make_unavailable export_down (some failure) = do
  check (is_liveness_probe failure.error_type) value_error
  ok (unavailable export_down (some failure))
make_unavailable reason failure = ok (unavailable reason failure)

-- `classify_envelope_section`
abbrev pub status_is : String → Option Value → Bool
status_is s (some (text t)) = str_eq t s
status_is s _ = false

abbrev pub refused_section : ReadFailureCode → String → String → Result ReadOutcome
refused_section code device family = do
  failure ← read_failure record {
    operation = section_classify;
    device = device;
    family = family;
    error_type = none;
    http_status = none;
    code = some code;
  }
  make_unavailable read_error (some failure)

unfoldable pub classify_envelope_section : Option Fields → String → String → Result ReadOutcome
unfolding get read_failure make_unavailable
classify_envelope_section none device family = make_unavailable not_authoritative none
classify_envelope_section (some section) device family =
    let status = get "status" section in
    if status_is "ok" status
    then ok (present section fresh [])
    else if status_is "stale" status
    then ok (present section stale [])
    else if status_is "unsupported" status
    then make_unavailable unsupported none
    else if status_is "not-ready" status
    then make_unavailable not_ready none
    else refused_section
        (if status_is "error" status then section_status_error else section_status_unrecognized)
        device family
