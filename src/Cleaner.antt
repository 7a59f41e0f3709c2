-- ===== src/Cleaner.antt =====
-- ee/controllers/phjob_cleaner.go: which jobs a run of the cleaner asks the API server to delete. A
-- delete that fails is logged and changes nothing else. `now` is the clock when a job is looked at,
-- `sort` is sort.Slice by creation time.
pub mod Deletions
mod Samples
use primehub_controller.Prelude.{
  ℕ, Bool, true, false, Option, none, some, List, [], ◌∷◌, ◌++◌, Result, ok, err, ℤ, pos, pos_part,
  ◌-ℤ◌, ltb, ltb_ℤ, leb_ℤ, ◌&&◌, not, if◌then◌else◌, keep, length, take, drop,
}
use primehub_controller.GoTime.{seconds, add_time, after, int32}
use primehub_controller.PhJob.{PhJob, in_final_phase}

abbrev pub is_zero : ℤ → Bool
is_zero a = leb_ℤ a (pos 0) && leb_ℤ (pos 0) a

-- func list: the jobs in a final phase.
abbrev pub final_jobs : List PhJob → List PhJob
final_jobs = keep (λ job. in_final_phase job.status.phase)

-- currentTime.After(phJob.Status.FinishTime.Add(ttlDuration)) of a job that has a finish time.
abbrev pub is_expired : ℤ → ℤ → Option ℤ → Bool
is_expired ttl now none = false
is_expired ttl now (some finish) = after now (add_time finish (seconds ttl))

abbrev pub is_fresh : ℤ → ℤ → Option ℤ → Bool
is_fresh ttl now none = false
is_fresh ttl now (some finish) = not (after now (add_time finish (seconds ttl)))

-- The jobs that a run deletes, in order; `crashed` if an index was out of range.
pub record Run : Type 0 where
  pub deletes : List PhJob
  pub crashed : Bool

module _ (job_ttl_seconds job_limit : ℤ) (now : PhJob → ℤ) (sort : List PhJob → List PhJob) where
  -- The loop for JobTTLSeconds deletes some jobs and leaves others in the list; a job without a finish
  -- time is in neither.
  unfoldable pub ttl_deletes : List PhJob → List PhJob
  ttl_deletes jobs =
      if is_zero job_ttl_seconds
      then []
      else keep (λ job. is_expired job_ttl_seconds (now job) job.status.finish_time) jobs

  unfoldable pub ttl_keeps : List PhJob → List PhJob
  ttl_keeps jobs =
      if is_zero job_ttl_seconds
      then jobs
      else keep (λ job. is_fresh job_ttl_seconds (now job) job.status.finish_time) jobs

  -- countOfDelete, an int32 difference.
  unfoldable pub count_of_delete : List PhJob → ℕ
  count_of_delete jobs = pos_part (int32 (int32 (pos (length jobs)) -ℤ job_limit))

  over_limit : List PhJob → Bool
  over_limit jobs = not (is_zero job_limit) && ltb_ℤ job_limit (int32 (pos (length jobs)))

  -- The part of Clean for JobLimit.
  unfoldable pub limit_run : List PhJob → Run
  unfolding over_limit
  limit_run jobs =
      if over_limit jobs
      then record {
        deletes = take (count_of_delete jobs) (sort jobs);
        crashed = ltb (length (sort jobs)) (count_of_delete jobs);
      }
      else record { deletes = []; crashed = false }

  -- func Clean
  unfoldable pub clean : Result (List PhJob) → Run
  clean (err e) = record { deletes = []; crashed = false }
  clean (ok items) =
      let jobs = final_jobs items in
      let rest = limit_run (ttl_keeps jobs) in
      record { deletes = ttl_deletes jobs ++ rest.deletes; crashed = rest.crashed }
