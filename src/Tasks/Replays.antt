-- ===== src/Tasks/Replays.antt =====
-- A command that is sent twice, with another request and a pruning in between.
use octopus_job_search.Base.{ℕ, ◌+◌, ◌≡◌, refl, true, List, [], ◌∷◌, arith}
use octopus_job_search.Base.Tests.{◌==◌, if◌then◌else◌}
use octopus_job_search.Base.Text.{codes, trim, trim_start, trim_end, is_space}
use octopus_job_search.Tasks.Idempotency.{
  Request, answered, failed, mismatch, World, IdempotentOutcome, one, absent, key, check_key,
  read_idempotency_key, with_idempotency,
}
use octopus_job_search.Tasks.Replay.{Event, asked, pruned, run, with_idempotency-replays}

abbrev outcome : IdempotentOutcome
outcome = record { status = 202; body = codes "queued" }

-- A handler that counts its runs.
abbrev scan : Request ℕ
scan = record {
  workspace_id = 7;
  route_key = codes "scan";
  header = one (codes " key-00001 ");
  request_hash = 5;
  now = 100;
  recorded_at = 110;
  recording_works = true;
  handler = λ n. (answered outcome, n + 1);
}

abbrev keyless : Request ℕ
keyless = record scan { header = absent; now = 150 }

abbrev between : List (Event ℕ)
between = asked keyless ∷ pruned 200 ∷ []

abbrev start : World ℕ
start = record { records = []; state = 0 }

named : read_idempotency_key scan.header ≡ key (codes "key-00001")
unfolding read_idempotency_key check_key trim trim_start trim_end is_space
named = refl

with_idempotency-replays_example :
    ((with_idempotency scan start).0 ≡ answered outcome)
    × (with_idempotency (record scan { now = 300 }) (run between (with_idempotency scan start).1)
        ≡ (
          if scan.request_hash == scan.request_hash then answered outcome else failed mismatch,
          run between (with_idempotency scan start).1,
        ))
with_idempotency-replays_example =
    with_idempotency-replays scan start (codes "key-00001") outcome between
      (record scan { now = 300 }) named refl refl refl (omega arith, (omega arith, tt)) named refl
      refl (omega arith)
