-- ===== src/Tasks/Idempotency.antt =====
-- apps/api/src/tasks/idempotency.ts: the replay of responses by Idempotency-Key. A handler is any
-- function of the state `S` of the rest of the program, which may throw; the table of records is
-- written after it, in a statement of its own, which may fail.
use octopus_job_search.Base.{ℕ, ◌+◌, ◌*◌, Bool, not, ◌&&◌, ◌||◌, Option, none, some, List, [], ◌∷◌}
use octopus_job_search.Base.Tests.{◌==◌, leb, ltb, if◌then◌else◌}
use octopus_job_search.Base.Lists.{find, keep, length}
use octopus_job_search.Base.Text.{Text, text_eq, trim}

-- `IDEMPOTENCY_TTL_MS`, `MIN_KEY_LENGTH` and `MAX_KEY_LENGTH`.
abbrev pub idempotency_ttl_ms : ℕ
idempotency_ttl_ms = 24 * 60 * 60 * 1000

abbrev pub min_key_length : ℕ
min_key_length = 8

abbrev pub max_key_length : ℕ
max_key_length = 200

pub record IdempotencyRecord : Type 0 where
  pub workspace_id : ℕ
  pub route_key : Text
  pub idempotency_key : Text
  pub request_hash : ℕ
  pub response_status : ℕ
  pub response_body : Text
  pub expires_at : ℕ

pub record IdempotentOutcome : Type 0 where
  pub status : ℕ
  pub body : Text

-- The header as Fastify gives it.
pub data Header : Type 0 where
  absent : Header
  one : Text → Header
  several : List Text → Header

pub data RequestError : Type 0 where
  key_missing key_length mismatch : RequestError
  thrown : ℕ → RequestError

pub data Response : Type 0 where
  answered : IdempotentOutcome → Response
  failed : RequestError → Response

-- A request: where it goes, the hash of its body, the clock when it is looked up and when it is
-- recorded, whether the record can be written, and what its handler does.
pub record Request (S : Type 0) : Type 0 where
  pub workspace_id : ℕ
  pub route_key : Text
  pub header : Header
  pub request_hash : ℕ
  pub now : ℕ
  pub recorded_at : ℕ
  pub recording_works : Bool
  pub handler : S → Response × S

abbrev header_value : Header → Option Text
header_value absent = none
header_value (one raw) = some raw
header_value (several []) = none
header_value (several (raw ∷ more)) = some raw

-- The key, or the error that is thrown for the header.
pub data KeyResult : Type 0 where
  key : Text → KeyResult
  no_key : RequestError → KeyResult

unfoldable pub check_key : Text → KeyResult
check_key value =
    if length value == 0
    then no_key key_missing
    else if ltb (length value) min_key_length || ltb max_key_length (length value)
    then no_key key_length
    else key value

unfoldable pub read_idempotency_key : Header → KeyResult
unfolding trim check_key
read_idempotency_key header = elim (header_value header) [
  | none ↦ no_key key_missing
  | some raw ↦ check_key (trim raw)
]

unfoldable pub is_record_of : ℕ → Text → Text → IdempotencyRecord → Bool
unfolding text_eq
is_record_of workspace route k r =
    r.workspace_id == workspace && (text_eq r.route_key route && text_eq r.idempotency_key k)

-- `insertInto(…).onConflict(…).doUpdateSet(…)`.
unfoldable pub upsert : IdempotencyRecord → List IdempotencyRecord → List IdempotencyRecord
unfolding is_record_of
upsert r [] = r ∷ []
upsert r (q ∷ qs) =
    let rest = upsert r qs in
    if is_record_of r.workspace_id r.route_key r.idempotency_key q then r ∷ qs else q ∷ rest

abbrev pub record_of : {S : Type 0} → Request S → Text → IdempotentOutcome → IdempotencyRecord
record_of request k outcome = record {
  workspace_id = request.workspace_id;
  route_key = request.route_key;
  idempotency_key = k;
  request_hash = request.request_hash;
  response_status = outcome.status;
  response_body = outcome.body;
  expires_at = request.recorded_at + idempotency_ttl_ms;
}

abbrev pub outcome_of : IdempotencyRecord → IdempotentOutcome
outcome_of r = record { status = r.response_status; body = r.response_body }

pub record World (S : Type 0) : Type 0 where
  pub records : List IdempotencyRecord
  pub state : S

module _ {S : Type 0} where
  -- What is recorded of a response.
  abbrev pub record_response :
      Request S → Text → List IdempotencyRecord → Response → List IdempotencyRecord
  record_response request k records (failed e) = records
  record_response request k records (answered outcome) =
      if request.recording_works then upsert (record_of request k outcome) records else records

  unfoldable pub run_handler : Request S → Text → World S → Response × World S
  unfolding upsert
  run_handler request k w =
      let (response, state) = request.handler w.state in
      (response, record { records = record_response request k w.records response; state = state })

  -- What a record that is there decides; past its end it decides nothing.
  unfoldable pub replay : Request S → Text → IdempotencyRecord → World S → Response × World S
  unfolding run_handler
  replay request k existing w =
      if not (existing.request_hash == request.request_hash)
      then (failed mismatch, w)
      else if ltb request.now existing.expires_at
      then (answered (outcome_of existing), w)
      else run_handler request k w

  unfoldable pub with_key : Request S → Text → World S → Response × World S
  unfolding is_record_of run_handler replay
  with_key request k w =
      elim (find (is_record_of request.workspace_id request.route_key k) w.records) [
        | none ↦ run_handler request k w
        | some existing ↦ replay request k existing w
      ]

  abbrev pub if_key : KeyResult → Request S → World S → Response × World S
  if_key (no_key e) request w = (failed e, w)
  if_key (key k) request w = with_key request k w

  unfoldable pub with_idempotency : Request S → World S → Response × World S
  unfolding read_idempotency_key with_key
  with_idempotency request w = if_key (read_idempotency_key request.header) request w

  unfoldable pub prune_idempotency_records : ℕ → World S → World S
  prune_idempotency_records now w = record w {
    records = keep (λ (r : IdempotencyRecord). not (leb r.expires_at now)) w.records;
  }
