-- ===== src/Scheduler/Samples.antt =====
-- A pass over two listed jobs, of which one is pending.
use primehub_controller.Prelude.{◌≡◌, ◌⊎◌, inl, inr, refl, [], ◌∷◌, ok, All}
use primehub_controller.Numeric.Exact.{exact}
use primehub_controller.Escapism.Samples.{latin}
use primehub_controller.Quota.Samples.{small_type}
use primehub_controller.PhJob.{PhJobPhase, PhJob}
use primehub_controller.StrictOrder.Samples.{alice, bob, answers_for}
use primehub_controller.Scheduler.{schedule}
use primehub_controller.Scheduler.Updates.{Queued, Shows, IsUpdate, schedule-IsUpdate}

abbrev running_bob : PhJob
running_bob = record bob { status = record bob.status { phase = PhJobPhase.running } }

abbrev IsListed : PhJob → Type 0
IsListed job = (job ≡ alice) ⊎ (job ≡ running_bob)

abbrev same_order : Shows (answers_for small_type)
same_order = record { sort_shows = λ P jobs h. h; range_shows = λ P groups h. h }

schedule-IsUpdate_example :
    All
      (IsUpdate latin (answers_for small_type) (Queued latin (answers_for small_type) IsListed))
      (schedule latin (answers_for small_type) (ok (alice ∷ running_bob ∷ []))).statuses
schedule-IsUpdate_example =
    schedule-IsUpdate latin (answers_for small_type) IsListed same_order (alice ∷ running_bob ∷ [])
      (inl refl, (inr refl, tt))
