-- ===== src/JobAct.antt =====
-- A call of Reconcile as the calls to the cluster that succeed, in their order, and how it ends.
use primehub_controller.Prelude.{◌≡◌, refl, Option, List, [], ◌∷◌, ◌++◌, ℤ, Error, All, All-append}
use primehub_controller.PhJob.{PhJobPhase, PhJob}

-- A write to the API server that it accepts, and what the user is told.
pub data Effect : Type 0 where
  update_job : PhJob → Effect
  update_status : PhJob → Effect
  delete_pod : Effect
  create_pod : Effect
  notify : PhJobPhase → Effect
  send_email : PhJobPhase → Effect

-- `go` is the value with which the function goes on, `done` an early return of Reconcile with the
-- RequeueAfter and the error of its result, `panics` a nil dereference.
pub data Exit (A : Type 0) : Type 0 where
  go : A → Exit A
  done : ℤ → Option Error → Exit A
  panics : Exit A

pub record Act (A : Type 0) : Type 0 where
  pub effects : List Effect
  pub exit : Exit A

module _ {A : Type 0} where
  abbrev pub pure : A → Act A
  pure a = record { effects = []; exit = go a }

  abbrev pub return : ℤ → Option Error → Act A
  return requeue_after e = record { effects = []; exit = done requeue_after e }

  abbrev pub crash : Act A
  crash = record { effects = []; exit = panics }

abbrev pub emit : Effect → Act (Unit {0})
emit e = record { effects = e ∷ []; exit = go tt }

module _ {A B : Type 0} where
  abbrev pub continue : List Effect → Exit A → (A → Act B) → Act B
  continue effects (go a) f =
      let rest = f a in record { effects = effects ++ rest.effects; exit = rest.exit }
  continue effects (done requeue_after e) f = record {
    effects = effects;
    exit = done requeue_after e;
  }
  continue effects panics f = record { effects = effects; exit = panics }

  infixl 5 ◌>>=◌
  unfoldable pub ◌>>=◌ : Act A → (A → Act B) → Act B
  m >>= f = continue m.effects m.exit f

  -- A predicate that holds of the effects of both parts holds of the effects of the whole.
  pub >>=-All :
      (Q : Effect → Type 0) (m : Act A) (f : A → Act B)
      → All Q m.effects
      → ((a : A) → m.exit ≡ go a → All Q (f a).effects)
      → All Q (m >>= f).effects
  unfolding ◌>>=◌
  >>=-All Q m f first later = after m.exit later
    where
      after :
          (x : Exit A)
          → ((a : A) → x ≡ go a → All Q (f a).effects)
          → All Q (continue m.effects x f).effects
      after (go a) h = All-append Q m.effects (f a).effects first (h a refl)
      after (done r e) h = first
      after panics h = first

infixl 5 ◌>>◌
abbrev pub ◌>>◌ : {B : Type 0} → Act (Unit {0}) → Act B → Act B
m >> k = m >>= λ _. k
