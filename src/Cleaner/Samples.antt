-- ===== src/Cleaner/Samples.antt =====
-- A run of the cleaner over three jobs with a limit of one.
use primehub_controller.Prelude.{
  ◌≡◌, refl, false, some, List, [], ◌∷◌, ℤ, pos, ok, All, length, drop, ◌-ℤ◌, arith,
}
use primehub_controller.GoTime.{wrap}
use primehub_controller.PhJob.{PhJobPhase, PhJob, compare_by_creation_timestamp}
use primehub_controller.StrictOrder.Samples.{alice, bob}
use primehub_controller.Cleaner.{
  clean, limit_run, ttl_deletes, ttl_keeps, count_of_delete, over_limit,
}
use primehub_controller.Cleaner.Deletions.{IsFinal, clean-IsFinal, limit_run-surplus}

abbrev finished : ℤ → PhJob → PhJob
finished created job = record job {
  creation_timestamp = created;
  status = record job.status { phase = PhJobPhase.succeeded; finish_time = some created };
}

abbrev three_jobs : List PhJob
three_jobs = finished (pos 1) alice ∷ bob ∷ finished (pos 2) bob ∷ []

abbrev two_finished : List PhJob
two_finished = finished (pos 1) alice ∷ finished (pos 2) bob ∷ []

-- The older of the two finished jobs is deleted, the pending one is not counted.
clean_three :
    (clean (pos 0) (pos 1) (λ job. pos 3) (λ jobs. jobs) (ok three_jobs)).deletes
    ≡ finished (pos 1) alice ∷ []
unfolding clean limit_run ttl_deletes ttl_keeps count_of_delete over_limit ◌-ℤ◌ wrap
clean_three = refl

clean-IsFinal_example :
    All IsFinal (clean (pos 0) (pos 1) (λ job. pos 3) (λ jobs. jobs) (ok three_jobs)).deletes
clean-IsFinal_example =
    clean-IsFinal (pos 0) (pos 1) (λ job. pos 3) (λ jobs. jobs) (λ jobs h. h) three_jobs

limit_run-surplus_example :
    let run = limit_run (pos 0) (pos 1) (λ job. pos 3) (λ jobs. jobs) two_finished in
    (run.crashed ≡ false)
    × (length run.deletes ≡ 1)
    × All
        (λ deleted.
          All (λ kept. compare_by_creation_timestamp kept deleted ≡ false) (drop 1 two_finished))
        run.deletes
limit_run-surplus_example =
    limit_run-surplus (pos 0) 1 (λ job. pos 3) (λ jobs. jobs) two_finished (omega arith)
      (omega arith) refl ((refl, tt), (tt, tt))
