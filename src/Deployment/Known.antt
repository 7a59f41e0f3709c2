-- ===== src/Deployment/Known.antt =====
-- The mounts of a model deployment that name a volume of its pod.
use primehub_controller.Prelude.{
  Bool, List, String, [], ◌∷◌, ◌++◌, ◌||◌, false, true, ◌≡◌, ◌⊎◌, sym, arith, str_eq, All, All-map,
  inl, inr, subst,
}
use primehub_controller.GoText.Search.{has_prefix}
use primehub_controller.Spawn.{VolumeMount}
use primehub_controller.Deployment.ModelVolumes.{ModelVolume, goes_on, volume}

abbrev pub has_model_volume : String → List ModelVolume → Bool
has_model_volume name [] = false
has_model_volume name (volume ∷ volumes) = str_eq volume.name name || has_model_volume name volumes

abbrev pub AllKnown : List ModelVolume → List VolumeMount → Type 0
AllKnown volumes mounts = All (λ m. has_model_volume m.name volumes ≡ true) mounts

pub has-after :
    (name : String) (volumes others : List ModelVolume)
    → has_model_volume name volumes ≡ true
    → has_model_volume name (volumes ++ others) ≡ true
has-after name [] others h = absurd (ground arith)
has-after name (volume ∷ volumes) others h =
    let rest = has-after name volumes others in ground arith

pub has-before :
    (name : String) (volumes others : List ModelVolume)
    → has_model_volume name others ≡ true
    → has_model_volume name (volumes ++ others) ≡ true
has-before name [] others h = h
has-before name (volume ∷ volumes) others h =
    let rest = has-before name volumes others h in ground arith

-- An address of a server is none of a file of the group.
pub nfs-goes_on : (uri : String) → has_prefix uri "nfs://" ≡ true → goes_on uri "phfs" ≡ false
unfolding has_prefix
nfs-goes_on String.[] h = absurd (ground arith)
nfs-goes_on (String.◌∷◌ c s) h = ground arith

-- A mount of the model names the volume that comes last, or one that is there.
abbrev pub Mounted : List ModelVolume → List VolumeMount → Type 0
Mounted volumes mounts =
    All (λ m. (m.name ≡ "model-storage") ⊎ (has_model_volume m.name volumes ≡ true)) mounts

pub Mounted-after :
    (volumes others : List ModelVolume) (mounts : List VolumeMount)
    → Mounted volumes mounts
    → Mounted (volumes ++ others) mounts
Mounted-after volumes others mounts h =
    All-map _ mounts
      (λ m k. elim k [
        | inl named ↦ inl named
        | inr known ↦ inr (has-after m.name volumes others known)
      ])
      h

pub or_after :
    (name : String) (b : Bool) (volumes others : List ModelVolume)
    → (b ≡ false) ⊎ (has_model_volume name volumes ≡ true)
    → (b ≡ false) ⊎ (has_model_volume name (volumes ++ others) ≡ true)
or_after name b volumes others (inl absent) = inl absent
or_after name b volumes others (inr known) = inr (has-after name volumes others known)

pub known_mounts :
    (volumes : List ModelVolume) (mounts : List VolumeMount)
    → has_model_volume "model-storage" volumes ≡ true
    → Mounted volumes mounts
    → AllKnown volumes mounts
known_mounts volumes mounts scratch = All-map _ mounts (λ m h. elim h [
  | inl named ↦ subst (λ n. has_model_volume n volumes ≡ true) (sym named) scratch
  | inr known ↦ known
])
