-- ===== src/Tasks/Replay.antt =====
-- That a recorded response is what every later request with its key gets, whatever comes between.
use octopus_job_search.Base.{
  ℕ, ◌+◌, ◌<◌, ◌≡◌, refl, sym, ap, subst, ◌∙◌, true, false, not, none, some, List, [], ◌∷◌, arith,
  inl, inr,
}
use octopus_job_search.Base.Tests.{◌==◌, leb, ltb, Bool-cases, Option-cases, if◌then◌else◌}
use octopus_job_search.Base.Lists.{find, All}
use octopus_job_search.Base.Text.{Text, text_eq_iff}
use octopus_job_search.Tasks.Idempotency.{
  IdempotencyRecord, IdempotentOutcome, Request, Response, answered, failed, mismatch, World, key,
  no_key, KeyResult, idempotency_ttl_ms, is_record_of, upsert, record_of, outcome_of,
  record_response, run_handler, replay, with_key, with_idempotency, read_idempotency_key, if_key,
  prune_idempotency_records,
}
use octopus_job_search.Tasks.Records.{find-keep, find-upsert-other, is_key, is_key_refl, same_keys}

-- What the service does over time: it answers requests, and it prunes.
pub data Event (S : Type 0) : Type 0 where
  asked : Request S → Event S
  pruned : ℕ → Event S

abbrev pub event_time : {S : Type 0} → Event S → ℕ
event_time (asked request) = request.now
event_time (pruned now) = now

unfoldable pub step : {S : Type 0} → Event S → World S → World S
unfolding with_idempotency prune_idempotency_records
step (asked request) w = (with_idempotency request w).1
step (pruned now) w = prune_idempotency_records now w

unfoldable pub run : {S : Type 0} → List (Event S) → World S → World S
unfolding step
run [] w = w
run (e ∷ es) w = run es (step e w)

-- What a request under the key of a record gets before the record runs out.
abbrev pub answer_of : {S : Type 0} → IdempotencyRecord → Request S → Response
answer_of r request =
    if r.request_hash == request.request_hash then answered (outcome_of r) else failed mismatch

module _ {S : Type 0} (ws : ℕ) (route k : Text) (r : IdempotencyRecord) where
  -- The record stands under its key.
  abbrev Holds : World S → Type 0
  Holds w = find (is_record_of ws route k) w.records ≡ some r

  -- A response under another key leaves it there.
  recorded-Holds :
      (request : Request S) (k2 : Text) (w : World S) (response : Response)
      → is_key ws route k request.workspace_id request.route_key k2 ≡ false
      → Holds w
      → find (is_record_of ws route k) (record_response request k2 w.records response) ≡ some r
  unfolding is_record_of
  recorded-Holds request k2 w (failed e) other h = h
  recorded-Holds request k2 w (answered outcome) other h =
      elim (Bool-cases request.recording_works) [
        | inl t ↦
            rw t (find-upsert-other ws route k (record_of request k2 outcome) w.records other ∙ h)
        | inr f ↦ rw f h
      ]

  run_handler-Holds :
      (request : Request S) (k2 : Text) (w : World S)
      → is_key ws route k request.workspace_id request.route_key k2 ≡ false
      → Holds w
      → Holds (run_handler request k2 w).1
  unfolding run_handler
  run_handler-Holds request k2 w other h =
      recorded-Holds request k2 w (request.handler w.state).0 other h

  replay-Holds :
      (request : Request S) (k2 : Text) (existing : IdempotencyRecord) (w : World S)
      → is_key ws route k request.workspace_id request.route_key k2 ≡ false
      → Holds w
      → Holds (replay request k2 existing w).1
  unfolding replay
  replay-Holds request k2 existing w other h =
      elim (Bool-cases (existing.request_hash == request.request_hash)) [
        | inl t ↦ elim (Bool-cases (ltb request.now existing.expires_at)) [
          | inl y ↦ rw (t, y) h
          | inr n ↦ rw (t, n) (run_handler-Holds request k2 w other h)
        ]
        | inr f ↦ rw f h
      ]

  replay-current :
      (request : Request S) (k2 : Text) (w : World S)
      → request.now < r.expires_at
      → replay request k2 r w ≡ (answer_of r request, w)
  unfolding replay
  replay-current request k2 w early = elim (Bool-cases (r.request_hash == request.request_hash)) [
    | inl t ↦
        let open_ : ltb request.now r.expires_at ≡ true = ground (arith, early) in
        rw (t, open_) refl
    | inr f ↦ rw f refl
  ]

  with_key-same :
      (request : Request S) (k2 : Text) (w : World S)
      → is_key ws route k request.workspace_id request.route_key k2 ≡ true
      → request.now < r.expires_at
      → Holds w
      → with_key request k2 w ≡ (answer_of r request, w)
  unfolding with_key
  with_key-same request k2 w same early h =
      let a : request.workspace_id ≡ ws = ground (arith, same) in
      let b : request.route_key ≡ route =
        (text_eq_iff request.route_key route).0 (ground (arith, same)) in
      let c : k2 ≡ k = (text_eq_iff k2 k).0 (ground (arith, same)) in
      let found : find (is_record_of request.workspace_id request.route_key k2) w.records ≡ some r =
        rw (a, b, c) h in
      rw (found, with_key) (replay-current request k2 w early)

  with_key-Holds :
      (request : Request S) (k2 : Text) (w : World S)
      → request.now < r.expires_at
      → Holds w
      → Holds (with_key request k2 w).1
  unfolding with_key
  with_key-Holds request k2 w early h =
      elim (Bool-cases (is_key ws route k request.workspace_id request.route_key k2)) [
        | inl same ↦ subst (λ q. Holds q.1) (sym (with_key-same request k2 w same early h)) h
        | inr other ↦
            elim (Option-cases
              (find (is_record_of request.workspace_id request.route_key k2) w.records)) [
                | inl n ↦ rw (n, with_key) (run_handler-Holds request k2 w other h)
                | inr (existing, y) ↦ rw (y, with_key) (replay-Holds request k2 existing w other h)
              ]
      ]

  if_key-Holds :
      (found : KeyResult) (request : Request S) (w : World S)
      → request.now < r.expires_at
      → Holds w
      → Holds (if_key found request w).1
  if_key-Holds (no_key e) request w early h = h
  if_key-Holds (key k2) request w early h = with_key-Holds request k2 w early h

  step-Holds :
      (e : Event S) (w : World S) → event_time e < r.expires_at → Holds w → Holds (step e w)
  unfolding step with_idempotency prune_idempotency_records
  step-Holds (pruned now) w early h =
      find-keep (is_record_of ws route k) (λ (q : IdempotencyRecord). not (leb q.expires_at now))
        w.records h (ground (arith, early))
  step-Holds (asked request) w early h =
      if_key-Holds (read_idempotency_key request.header) request w early h

  run-Holds :
      (events : List (Event S)) (w : World S)
      → All (λ e. event_time e < r.expires_at) events
      → Holds w
      → Holds (run events w)
  unfolding run
  run-Holds [] w early h = h
  run-Holds (e ∷ es) w early h = run-Holds es (step e w) early.1 (step-Holds e w early.0 h)

  answered-Holds :
      (request : Request S) (w : World S)
      → read_idempotency_key request.header ≡ key k
      → request.workspace_id ≡ ws
      → request.route_key ≡ route
      → request.now < r.expires_at
      → Holds w
      → with_idempotency request w ≡ (answer_of r request, w)
  unfolding with_idempotency
  answered-Holds request w named same_ws same_route early h =
      rw (named, with_idempotency)
        (with_key-same request k w (rw (same_ws, same_route) (is_key_refl ws route k)) early h)

some-ne : {A : Type 0} {a : A} → some a ≡ none → ⊥
some-ne e = cc

find-upsert :
    (ws : ℕ) (route k : Text) (r : IdempotencyRecord) (l : List IdempotencyRecord)
    → is_record_of ws route k r ≡ true
    → find (is_record_of ws route k) l ≡ none
    → find (is_record_of ws route k) (upsert r l) ≡ some r
unfolding upsert
find-upsert ws route k r [] h n = rw h refl
find-upsert ws route k r (q ∷ qs) h n = elim (Bool-cases (is_record_of ws route k q)) [
  | inl t ↦ absurd (some-ne (rw t at n))
  | inr f ↦ elim (Bool-cases (is_record_of r.workspace_id r.route_key r.idempotency_key q)) [
    | inl same ↦ cc (same_keys ws route k r q same, h, f)
    | inr other ↦ rw (other, f) (find-upsert ws route k r qs h (rw f at n))
  ]
]

first_answer :
    {S : Type 0} (first : Request S) (w : World S) (k : Text)
    → read_idempotency_key first.header ≡ key k
    → find (is_record_of first.workspace_id first.route_key k) w.records ≡ none
    → with_idempotency first w ≡ run_handler first k w
unfolding with_idempotency with_key
first_answer first w k named fresh = rw (named, with_idempotency, fresh, with_key) refl

first-Holds :
    {S : Type 0} (first : Request S) (w : World S) (k : Text) (outcome : IdempotentOutcome)
    → find (is_record_of first.workspace_id first.route_key k) w.records ≡ none
    → (first.handler w.state).0 ≡ answered outcome
    → first.recording_works ≡ true
    → Holds first.workspace_id first.route_key k
        (record_of first k outcome)
        (run_handler first k w).1
unfolding run_handler is_record_of
first-Holds first w k outcome fresh ran works =
    rw (ran, works)
      (find-upsert first.workspace_id first.route_key k (record_of first k outcome) w.records
        (is_key_refl first.workspace_id first.route_key k) fresh)

-- A first request under a key is answered by its handler and recorded. Then, whatever other requests
-- come and whenever the table is pruned before the 24 hours of the record are over, each request of
-- the workspace under that route and key gets the recorded outcome where its body has the same hash,
-- and a mismatch otherwise, and changes nothing: its handler does not run.
pub with_idempotency-replays :
    {S : Type 0} (first : Request S) (w : World S) (k : Text) (outcome : IdempotentOutcome)
    (events : List (Event S)) (again : Request S)
    → read_idempotency_key first.header ≡ key k
    → find (is_record_of first.workspace_id first.route_key k) w.records ≡ none
    → (first.handler w.state).0 ≡ answered outcome
    → first.recording_works ≡ true
    → All (λ e. event_time e < first.recorded_at + idempotency_ttl_ms) events
    → read_idempotency_key again.header ≡ key k
    → again.workspace_id ≡ first.workspace_id
    → again.route_key ≡ first.route_key
    → again.now < first.recorded_at + idempotency_ttl_ms
    → ((with_idempotency first w).0 ≡ answered outcome)
      × (with_idempotency again (run events (with_idempotency first w).1) ≡ (
        if first.request_hash == again.request_hash then answered outcome else failed mismatch,
        run events (with_idempotency first w).1,
      ))
unfolding run_handler
with_idempotency-replays {S} first w k outcome events again named fresh ran works early named2
      same_ws same_route late =
    let begun = first_answer first w k named fresh in
    let held = first-Holds first w k outcome fresh ran works in
    let r = record_of first k outcome in
    let v = run events (run_handler first k w).1 in
    let kept =
      run-Holds first.workspace_id first.route_key k r events (run_handler first k w).1 early
        held in
    let again_same =
      answered-Holds first.workspace_id first.route_key k r again v named2 same_ws same_route late
        kept in
    (
      ap (λ q. q.0) begun ∙ ran,
      subst
          (λ (q : Response × World S). with_idempotency again (run events q.1) ≡ (
            if first.request_hash == again.request_hash then answered outcome else failed mismatch,
            run events q.1,
          ))
          (sym begun) again_same,
    )
