-- ===== src/Cleaner/Deletions.antt =====
-- Which jobs are deleted, and how many stay.
use primehub_controller.Prelude.{
  ℕ, zero, suc, ◌-◌, ◌≤◌, ◌<◌, Bool-cases, true, false, ◌≡◌, refl, inl, inr, List, [], ◌∷◌, ok, ℤ,
  pos, pos_-ℤ_pos, ltb, arith, length, take, drop, All, length-take-le, keep-All, All-append,
  All-take, All-drop, All-keep,
}
use primehub_controller.GoTime.{wrap-pos}
use primehub_controller.PhJob.{PhJob, in_final_phase, compare_by_creation_timestamp}
use primehub_controller.Cleaner.{
  is_zero, final_jobs, ttl_deletes, ttl_keeps, count_of_delete, over_limit, limit_run, clean,
}

abbrev pub IsFinal : PhJob → Type 0
IsFinal job = in_final_phase job.status.phase ≡ true

-- No later entry was created before an earlier one, as sort.Slice leaves them.
abbrev pub IsSorted : List PhJob → Type 0
IsSorted [] = Unit {0}
IsSorted (x ∷ xs) = All (λ y. compare_by_creation_timestamp y x ≡ false) xs × IsSorted xs

take-before-drop :
    (n : ℕ) (xs : List PhJob)
    → IsSorted xs
    → All (λ x. All (λ y. compare_by_creation_timestamp y x ≡ false) (drop n xs)) (take n xs)
take-before-drop zero xs s = tt
take-before-drop (suc n) [] s = tt
take-before-drop (suc n) (x ∷ xs) s =
    (All-drop (λ y. compare_by_creation_timestamp y x ≡ false) n xs s.0, take-before-drop n xs s.1)

module _ (ttl limit : ℤ) (now : PhJob → ℤ) (sort : List PhJob → List PhJob) where
  limit_run-IsFinal :
      ((jobs : List PhJob) → All IsFinal jobs → All IsFinal (sort jobs))
      → (jobs : List PhJob) → All IsFinal jobs
      → All IsFinal (limit_run ttl limit now sort jobs).deletes
  unfolding limit_run
  limit_run-IsFinal shows jobs h = elim (Bool-cases (over_limit ttl limit now sort jobs)) [
    | inl over ↦ rw over (All-take IsFinal _ (sort jobs) (shows jobs h))
    | inr fits ↦ rw fits tt
  ]

  -- The cleaner deletes only jobs in a final phase, given that sorting shows only the jobs that it is
  -- given.
  pub clean-IsFinal :
      ((jobs : List PhJob) → All IsFinal jobs → All IsFinal (sort jobs))
      → (items : List PhJob) → All IsFinal (clean ttl limit now sort (ok items)).deletes
  unfolding clean ttl_deletes ttl_keeps
  clean-IsFinal shows items =
      let final = keep-All (λ job. in_final_phase job.status.phase) items in
      elim (Bool-cases (is_zero ttl)) [
        | inl off ↦ rw off (limit_run-IsFinal shows (final_jobs items) final)
        | inr on ↦ rw on (
            All-append IsFinal _ _ (All-keep IsFinal _ (final_jobs items) final)
              (limit_run-IsFinal shows _ (All-keep IsFinal _ (final_jobs items) final)))
      ]

module _ (ttl : ℤ) (limit : ℕ) (now : PhJob → ℤ) (sort : List PhJob → List PhJob) where
  count_of_delete-pos :
      (jobs : List PhJob)
      → limit ≤ length jobs
      → length jobs < 2147483648
      → count_of_delete ttl (pos limit) now sort jobs ≡ length jobs - limit
  unfolding count_of_delete
  count_of_delete-pos jobs h k = rw (
    wrap-pos 2147483648 (length jobs) k,
    pos_-ℤ_pos (length jobs) limit h,
    wrap-pos 2147483648 (length jobs - limit) (omega arith),
  )

  -- With a positive JobLimit and fewer than 2^31 jobs, the cleaner does not panic, deletes exactly the
  -- surplus over the limit, and of the sorted jobs those that it deletes are not younger than any that
  -- stays.
  pub limit_run-surplus :
      (jobs : List PhJob)
      → 0 < limit
      → length jobs < 2147483648
      → length (sort jobs) ≡ length jobs
      → IsSorted (sort jobs)
      → let run = limit_run ttl (pos limit) now sort jobs in
        (run.crashed ≡ false)
        × (length run.deletes ≡ length jobs - limit)
        × All
            (λ deleted.
              All
                (λ kept. compare_by_creation_timestamp kept deleted ≡ false)
                (drop (length jobs - limit) (sort jobs)))
            run.deletes
  unfolding limit_run over_limit
  limit_run-surplus jobs positive small same sorted = elim (Bool-cases (ltb limit (length jobs))) [
    | inl over ↦
        rw (over_by over, count_of_delete-pos jobs (ground arith) small)
          (
            ground arith,
            length-take-le _ (sort jobs) (omega arith),
            take-before-drop _ (sort jobs) sorted,
          )
    | inr fits ↦ rw (fits_by fits) (refl, ground arith, tt)
  ]
    where
      over_by : ltb limit (length jobs) ≡ true → over_limit ttl (pos limit) now sort jobs ≡ true
      over_by h = rw (wrap-pos 2147483648 (length jobs) small) (ground arith)

      fits_by : ltb limit (length jobs) ≡ false → over_limit ttl (pos limit) now sort jobs ≡ false
      fits_by h = rw (wrap-pos 2147483648 (length jobs) small) (ground arith)
