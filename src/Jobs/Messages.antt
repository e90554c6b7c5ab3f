-- ===== src/Jobs/Messages.antt =====
-- Jobs as messages of the event bus: ToEventBusMessage and JobFromEventBusMessageWithQueue of
-- contract.go. The format of times (RFC 3339 with nanoseconds) and its parser are parameters.
use nimburion.Base.{
  Text, codes, List, [], ◌∷◌, ◌++◌, Bool, false, not, ◌&&◌, Option, none, some, ℤ, pos, eq_ℤ,
  is_empty, is_none, if◌then◌else◌, trim_space, insert, lookup, show_ℤ, read_digits, parse_int,
  ◌==◌,
}
use nimburion.Errors.{Err, message, joined, jobs_validation}
use nimburion.Effect.{Result, ok, err}
use nimburion.EventBus.{Message}
use nimburion.Jobs.{Job, jobs_error, validate}

abbrev pub Headers : Type 0
Headers = List (Text × Text)

-- headers[key], which is empty where the key is missing.
unfoldable pub header : Text → Headers → Text
unfolding lookup
header key h = elim (lookup key h) [ none ↦ [] | some v ↦ v ]

-- The value of a text, or a default where that is empty.
abbrev pub non_empty_or : Text → Text → Text
non_empty_or t default_ = if is_empty t then default_ else t

abbrev pub content_type_of : Text → Text
content_type_of t = non_empty_or (trim_space t) (codes "application/json")

-- firstNonEmpty, on two values
abbrev pub first_non_empty : Text → Text → Text
first_non_empty a b =
    if not (is_empty (trim_space a)) then a else if not (is_empty (trim_space b)) then b else []

unfoldable pub job_partition_key : Text → Text → Text → Text
job_partition_key tenant_id job_name job_id =
    let t = trim_space tenant_id in
    let n = trim_space job_name in
    let i = trim_space job_id in
    if not (is_empty t) && not (is_empty n)
    then t ++ (codes ":" ++ n)
    else if not (is_empty n) && not (is_empty i)
    then n ++ (codes ":" ++ i)
    else if not (is_empty i)
    then i
    else n

-- A header of an optional field: its own key, and that of the envelope where that is empty.
unfoldable pub with_alias : Text → Text → Text → Headers → Headers
with_alias key alias value h =
    let own = insert key value h in
    if is_empty value
    then h
    else if is_empty (header alias own)
    then insert alias value own
    else own

unfoldable pub with_optional : Text → Text → Headers → Headers
with_optional key value h = if is_empty value then h else insert key value h

-- The times of the message: `now` where a job has none.
abbrev pub created_at_of : ℤ → Job → ℤ
created_at_of now j = if eq_ℤ j.created_at (pos 0) then now else j.created_at

abbrev pub run_at_of : ℤ → Job → ℤ
run_at_of now j = if eq_ℤ j.run_at (pos 0) then created_at_of now j else j.run_at

module _ (format : ℤ → Text) where
  unfoldable pub required_headers : ℤ → Job → Headers
  required_headers now j = insert (codes "job_max_attempts") (show_ℤ j.max_attempts) (
      insert (codes "job_attempt") (show_ℤ j.attempt) (
        insert (codes "job_run_at") (format (run_at_of now j)) (
          insert (codes "job_queue") (trim_space j.queue) (
            insert (codes "job_name") (trim_space j.name)
              (insert (codes "job_id") (trim_space j.id) j.headers)))))

  unfoldable pub headers_of : ℤ → Job → Headers
  headers_of now j = with_optional (codes "job_idempotency_key") (trim_space j.idempotency_key) (
      with_alias (codes "job_correlation_id") (codes "correlation_id") (trim_space j.correlation_id)
        (with_alias (codes "job_tenant_id") (codes "tenant_id") (trim_space j.tenant_id)
          (required_headers now j)))

  unfoldable pub message_of : ℤ → Job → Message
  message_of now j = record {
    id = trim_space j.id;
    key = non_empty_or (trim_space j.partition_key) (job_partition_key j.tenant_id j.name j.id);
    value = j.payload;
    headers = headers_of now j;
    content_type = content_type_of j.content_type;
    timestamp = created_at_of now j;
  }

  abbrev checked_message : Option Err → ℤ → Job → Result Message
  checked_message (some e) now j = err e
  checked_message none now j = ok (message_of now j)

  unfoldable pub to_message : ℤ → Job → Result Message
  to_message now j = checked_message (validate (some j)) now j

-- What strconv.Atoi says of a text that is no number, or does not fit.
abbrev is_unsigned : Text → Bool
is_unsigned [] = false
is_unsigned (c ∷ cs) = not (is_none (read_digits 0 (c ∷ cs)))

abbrev is_numeral : Text → Bool
is_numeral [] = false
is_numeral (c ∷ cs) =
    if c == b'-' then is_unsigned cs else if c == b'+' then is_unsigned cs else is_unsigned (c ∷ cs)

unfoldable pub atoi_error : Text → Err
atoi_error t = message (
    codes "strconv.Atoi: parsing \""
    ++ (t
        ++ (codes "\": "
            ++ (if is_numeral t then codes "value out of range" else codes "invalid syntax"))))

unfoldable pub header_error : Text → Err → Err
unfolding jobs_error
header_error key e =
    joined (jobs_error jobs_validation (codes "invalid " ++ (key ++ codes " header"))) e

-- An optional number, or time, in a header: 0 where the header is empty.
unfoldable pub number_header : Text → Headers → Result ℤ
number_header key h =
    let t = trim_space (header key h) in
    let n = parse_int t in
    if is_empty t
    then ok (pos 0)
    else elim n [ none ↦ err (header_error key (atoi_error t)) | some x ↦ ok x ]

module _ (parse_time : Text → Result ℤ) where
  unfoldable pub time_header : Text → Headers → Result ℤ
  time_header key h =
      let t = trim_space (header key h) in
      let r = parse_time t in
      if is_empty t then ok (pos 0) else elim r [ err e ↦ err (header_error key e) | ok x ↦ ok x ]

  -- The job, once the three headers are read, and its check.
  unfoldable pub job_of : ℤ → Text → Message → ℤ → ℤ → ℤ → Job
  job_of now fallback m run_at attempt max_attempts =
      let h = m.headers in
      let planned = if eq_ℤ run_at (pos 0) then m.timestamp else run_at in
      record {
        id = trim_space m.id;
        name = trim_space (header (codes "job_name") h);
        queue = non_empty_or (trim_space (header (codes "job_queue") h)) (trim_space fallback);
        payload = m.value;
        headers = h;
        content_type = content_type_of m.content_type;
        tenant_id =
            trim_space
              (first_non_empty (header (codes "job_tenant_id") h) (header (codes "tenant_id") h));
        correlation_id = trim_space (
            first_non_empty (header (codes "job_correlation_id") h)
              (header (codes "correlation_id") h));
        idempotency_key = trim_space (header (codes "job_idempotency_key") h);
        partition_key = trim_space m.key;
        run_at = if eq_ℤ m.timestamp (pos 0) && eq_ℤ planned (pos 0) then now else planned;
        attempt = attempt;
        max_attempts = max_attempts;
        created_at = if eq_ℤ m.timestamp (pos 0) then now else m.timestamp;
      }

  abbrev checked_job : Option Err → Job → Result Job
  checked_job (some e) j = err e
  checked_job none j = ok j

  unfoldable pub decode : ℤ → Text → Message → Result Job
  decode now fallback m = elim (time_header (codes "job_run_at") m.headers) [
    | err e ↦ err e
    | ok run_at ↦ elim (number_header (codes "job_attempt") m.headers) [
      | err e ↦ err e
      | ok attempt ↦ elim (number_header (codes "job_max_attempts") m.headers) [
        | err e ↦ err e
        | ok max_attempts ↦
            let j = job_of now fallback m run_at attempt max_attempts in
            checked_job (validate (some j)) j
      ]
    ]
  ]

  -- A nil message is `none`.
  unfoldable pub from_message : ℤ → Text → Option Message → Result Job
  unfolding jobs_error
  from_message now fallback none = err (jobs_error jobs_validation (codes "message is nil"))
  from_message now fallback (some m) =
      let j = decode now fallback m in
      if is_empty (trim_space m.id)
      then err (jobs_error jobs_validation (codes "message id is required"))
      else if is_empty m.value
      then err (jobs_error jobs_validation (codes "message payload is empty"))
      else j
