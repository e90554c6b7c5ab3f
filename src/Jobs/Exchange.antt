-- ===== src/Jobs/Exchange.antt =====
-- The exchange of jobs in contract.go: what is sent as a message arrives as the same job.
use nimburion.Base.{
  Dense, Dense-show_ℕ, is_empty-show_ℕ, ◌<◌, Text, codes, ◌≡◌, refl, ◌∙◌, false, none, some, arith,
  ℤ, pos, negsuc, two_63, pos_part, eq_ℤ, ltb_ℤ, is_empty, trim_space, trim_space_id,
  trim_space_twice, eq_text, insert, lookup, lookup-insert, show_ℤ, show_ℕ, parse_int-show_ℕ,
  Option-cases, inl, inr,
}
use nimburion.Effect.{Result, ok}
use nimburion.EventBus.{Message}
use nimburion.Jobs.{Job, validate}
use nimburion.Jobs.Messages.{
  Headers, header, with_alias, with_optional, created_at_of, run_at_of, required_headers,
  headers_of, message_of, to_message, number_header, time_header, job_of, decode, from_message,
}

-- Neither an optional header nor its alias disturbs another key.
lookup-with_alias :
    (key alias k v : Text) (h : Headers)
    → eq_text key k ≡ false
    → eq_text alias k ≡ false
    → lookup k (with_alias key alias v h) ≡ lookup k h
unfolding with_alias
lookup-with_alias key alias k v h p q =
    ground (arith, p, q, lookup-insert key k v h, lookup-insert alias k v (insert key v h))

lookup-with_optional :
    (key k v : Text) (h : Headers)
    → eq_text key k ≡ false
    → lookup k (with_optional key v h) ≡ lookup k h
unfolding with_optional
lookup-with_optional key k v h p = ground (arith, p, lookup-insert key k v h)

module _ (format : ℤ → Text) (now : ℤ) (j : Job) where
  -- A key that is none of the optional ones.
  lookup-headers_of :
      (k : Text)
      → eq_text (codes "job_idempotency_key") k ≡ false
      → eq_text (codes "job_correlation_id") k ≡ false
      → eq_text (codes "correlation_id") k ≡ false
      → eq_text (codes "job_tenant_id") k ≡ false
      → eq_text (codes "tenant_id") k ≡ false
      → lookup k (headers_of format now j) ≡ lookup k (required_headers format now j)
  unfolding headers_of
  lookup-headers_of k a b c d e =
      lookup-with_optional _ k _ _ a
      ∙ lookup-with_alias _ _ k _ _ b c
      ∙ lookup-with_alias _ _ k _ _ d e

  max_attempts_header :
      lookup (codes "job_max_attempts") (headers_of format now j) ≡ some (show_ℤ j.max_attempts)
  unfolding required_headers
  max_attempts_header =
      lookup-headers_of (codes "job_max_attempts") refl refl refl refl refl ∙ lookup-insert _ _ _ _

  attempt_header : lookup (codes "job_attempt") (headers_of format now j) ≡ some (show_ℤ j.attempt)
  unfolding required_headers
  attempt_header =
      lookup-headers_of (codes "job_attempt") refl refl refl refl refl
      ∙ lookup-insert _ _ _ _
      ∙ lookup-insert _ _ _ _

  run_at_header :
      lookup (codes "job_run_at") (headers_of format now j) ≡ some (format (run_at_of now j))
  unfolding required_headers
  run_at_header =
      lookup-headers_of (codes "job_run_at") refl refl refl refl refl
      ∙ lookup-insert _ _ _ _
      ∙ lookup-insert _ _ _ _
      ∙ lookup-insert _ _ _ _

  queue_header : lookup (codes "job_queue") (headers_of format now j) ≡ some (trim_space j.queue)
  unfolding required_headers
  queue_header =
      lookup-headers_of (codes "job_queue") refl refl refl refl refl
      ∙ lookup-insert _ _ _ _
      ∙ lookup-insert _ _ _ _
      ∙ lookup-insert _ _ _ _
      ∙ lookup-insert _ _ _ _

  name_header : lookup (codes "job_name") (headers_of format now j) ≡ some (trim_space j.name)
  unfolding required_headers
  name_header =
      lookup-headers_of (codes "job_name") refl refl refl refl refl
      ∙ lookup-insert _ _ _ _
      ∙ lookup-insert _ _ _ _
      ∙ lookup-insert _ _ _ _
      ∙ lookup-insert _ _ _ _
      ∙ lookup-insert _ _ _ _

number_header-show_ℤ :
    (key : Text) (h : Headers) (x : ℤ)
    → lookup key h ≡ some (show_ℤ x)
    → ltb_ℤ x (pos 0) ≡ false
    → pos_part x < two_63
    → number_header key h ≡ ok x
unfolding number_header header show_ℤ
number_header-show_ℤ key h (pos n) e s b =
    ground
      (arith, e, trim_space_id (show_ℕ n) (Dense-show_ℕ n), is_empty-show_ℕ n, parse_int-show_ℕ n b)
number_header-show_ℤ key h (negsuc n) e s b = ground arith

-- The format writes the time without spaces, and the parser reads it back.
pub record ReadsBack (format : ℤ → Text) (parse_time : Text → Result ℤ) (t : ℤ) : Type 0 where
  pub dense : Dense (format t)
  pub written : is_empty (format t) ≡ false
  pub again : parse_time (format t) ≡ ok t

time_header-format :
    (format : ℤ → Text) (parse_time : Text → Result ℤ) (key : Text) (h : Headers) (t : ℤ)
    → lookup key h ≡ some (format t)
    → ReadsBack format parse_time t
    → time_header parse_time key h ≡ ok t
unfolding time_header header
time_header-format format parse_time key h t e r =
    ground (arith, e, trim_space_id (format t) r.dense, r.written, r.again)

-- What the receiver knows of the job that was sent.
pub record Same (now : ℤ) (j j' : Job) : Type 0 where
  pub id : j'.id ≡ trim_space j.id
  pub name : j'.name ≡ trim_space j.name
  pub queue : j'.queue ≡ trim_space j.queue
  pub payload : j'.payload ≡ j.payload
  pub attempt : j'.attempt ≡ j.attempt
  pub max_attempts : j'.max_attempts ≡ j.max_attempts
  pub run_at : j'.run_at ≡ run_at_of now j
  pub created_at : j'.created_at ≡ created_at_of now j

module _ (format : ℤ → Text) (parse_time : Text → Result ℤ) (now now' : ℤ) (fallback : Text)
    (j : Job) where
  abbrev received : Job
  received =
      job_of parse_time now' fallback (message_of format now j) (run_at_of now j) j.attempt
        j.max_attempts

  received-Same :
      is_empty (trim_space j.queue) ≡ false
      → eq_ℤ (created_at_of now j) (pos 0) ≡ false
      → Same now j received
  unfolding job_of message_of header
  received-Same q c = record {
    id = trim_space_twice j.id;
    name = ground (arith, name_header format now j, trim_space_twice j.name);
    queue = ground (arith, q, queue_header format now j, trim_space_twice j.queue);
    payload = refl;
    attempt = refl;
    max_attempts = refl;
    run_at = ground (arith, c);
    created_at = ground (arith, c);
  }

  Same-validate : (j' : Job) → Same now j j' → validate (some j) ≡ none → validate (some j') ≡ none
  unfolding validate
  Same-validate j' s v = ground (
    arith,
    s.id,
    s.name,
    s.queue,
    s.payload,
    s.attempt,
    s.max_attempts,
    trim_space_twice j.id,
    trim_space_twice j.name,
    trim_space_twice j.queue,
  )

  sound :
      validate (some j) ≡ none
      → (is_empty (trim_space j.queue) ≡ false)
        × (is_empty (trim_space j.id) ≡ false)
        × (is_empty j.payload ≡ false)
        × (ltb_ℤ j.attempt (pos 0) ≡ false)
        × (ltb_ℤ j.max_attempts (pos 0) ≡ false)
  unfolding validate
  sound v = (ground arith, ground arith, ground arith, ground arith, ground arith)

  decode-message_of :
      validate (some j) ≡ none
      → eq_ℤ (created_at_of now j) (pos 0) ≡ false
      → pos_part j.attempt < two_63
      → pos_part j.max_attempts < two_63
      → ReadsBack format parse_time (run_at_of now j)
      → decode parse_time now' fallback (message_of format now j) ≡ ok received
  unfolding decode message_of
  decode-message_of v c a b r =
      let (q, i, p, x, y) = sound v in
      let h = headers_of format now j in
      ground (
        arith,
        time_header-format format parse_time (codes "job_run_at") h (run_at_of now j)
            (run_at_header format now j) r,
        number_header-show_ℤ (codes "job_attempt") h j.attempt (attempt_header format now j) x a,
        number_header-show_ℤ (codes "job_max_attempts") h j.max_attempts
            (max_attempts_header format now j) y b,
        Same-validate received (received-Same q c) v,
      )

  from_message-message_of :
      validate (some j) ≡ none
      → eq_ℤ (created_at_of now j) (pos 0) ≡ false
      → pos_part j.attempt < two_63
      → pos_part j.max_attempts < two_63
      → ReadsBack format parse_time (run_at_of now j)
      → from_message parse_time now' fallback (some (message_of format now j)) ≡ ok received
  unfolding from_message message_of
  from_message-message_of v c a b r =
      let (q, i, p, x, y) = sound v in
      ground (arith, i, p, trim_space_twice j.id, decode-message_of v c a b r)

  -- A job that is sent and received is accepted, with its id, name and queue trimmed and its
  -- payload, attempts and times unchanged, where 0 stands for a missing time: that is then the
  -- time of sending. The time at which it is to run must survive its format.
  pub from_message-to_message :
      (m : Message)
      → to_message format now j ≡ ok m
      → eq_ℤ (created_at_of now j) (pos 0) ≡ false
      → pos_part j.attempt < two_63
      → pos_part j.max_attempts < two_63
      → ReadsBack format parse_time (run_at_of now j)
      → (j' : Job) × (from_message parse_time now' fallback (some m) ≡ ok j') × Same now j j'
  unfolding to_message
  from_message-to_message m sent c a b r = elim (Option-cases (validate (some j))) [
    | inr (e, bad) ↦ ground (arith, bad)
    | inl v ↦
        let (q, i, p, x, y) = sound v in
        let same = received-Same q c in
        let e : m ≡ message_of format now j = ground (arith, v) in
        (received, rw e (from_message-message_of v c a b r), same)
  ]
