-- ===== src/Deployment/Annotated.antt =====
-- The annotations by which an ingress asks for a name and a token.
use mathlib.Core.Bool.{false≢true}
use mathlib.Core.Option.{none-ne-some}
use text.Mathlib.TextEquality.{eq_iff}
use primehub_controller.Prelude.{
  [], ◌∷◌, ap, ◌≢◌, Option-cases, inr, inl, Bool, String, false, true, some, none, ◌≡◌, refl, sym,
  ◌∙◌, Bool-cases, lookup, put_all, lookup-put_same, lookup-put_other, lookup-remove_same,
  lookup-remove_other,
}
use primehub_controller.Deployment.Access.{
  AnnotationUpdate, leave, change, nil_map, guard_annotations, Annotations, auth_type, auth_secret,
  auth_secret_type, auth_realm, snippet, guards, unguarded, is_guarded, updated_annotations,
}

pub guards-lookup_type :
    (secret realm : String) (annotations : Annotations)
    → lookup auth_type (put_all (guards secret realm) annotations) ≡ some "basic"
unfolding put_all
guards-lookup_type secret realm annotations =
    lookup-put_other auth_type snippet _ _ refl
    ∙ (lookup-put_other auth_type auth_realm _ _ refl
        ∙ (lookup-put_other auth_type auth_secret_type _ _ refl
            ∙ (lookup-put_other auth_type auth_secret _ _ refl
                ∙ lookup-put_same auth_type "basic" annotations)))

pub guards-lookup_secret :
    (secret realm : String) (annotations : Annotations)
    → lookup auth_secret (put_all (guards secret realm) annotations) ≡ some secret
unfolding put_all
guards-lookup_secret secret realm annotations =
    lookup-put_other auth_secret snippet _ _ refl
    ∙ (lookup-put_other auth_secret auth_realm _ _ refl
        ∙ (lookup-put_other auth_secret auth_secret_type _ _ refl
            ∙ lookup-put_same auth_secret secret _))

unguarded-lookup_type :
    (annotations : Annotations) → lookup auth_type (unguarded annotations) ≡ none
unguarded-lookup_type annotations =
    lookup-remove_other auth_type snippet _ refl
    ∙ (lookup-remove_other auth_type auth_realm _ refl
        ∙ (lookup-remove_other auth_type auth_secret_type _ refl
            ∙ (lookup-remove_other auth_type auth_secret _ refl
                ∙ lookup-remove_same auth_type annotations)))

pub basic-is_guarded :
    (annotations : Annotations)
    → lookup auth_type annotations ≡ some "basic"
    → is_guarded annotations ≡ true
unfolding is_guarded
basic-is_guarded annotations e = rw e refl

missing-is_guarded :
    (annotations : Annotations)
    → lookup auth_type annotations ≡ none
    → is_guarded annotations ≡ false
unfolding is_guarded
missing-is_guarded annotations e = rw e refl

is_guarded-basic :
    (annotations : Annotations)
    → is_guarded annotations ≡ true
    → lookup auth_type annotations ≡ some "basic"
unfolding is_guarded
is_guarded-basic annotations e = elim (Option-cases (lookup auth_type annotations)) [
  | inl missing ↦ absurd (false≢true (rw missing at e))
  | inr (value, found) ↦ found ∙ ap some ((eq_iff value "basic").0 (rw found at e))
]

-- The annotations ask for the names and tokens of the secret, or they do not ask for any.
unfoldable pub IsGuardedBy : Bool → String → Annotations → Type 0
IsGuardedBy true secret annotations =
    (lookup auth_type annotations ≡ some "basic") × (lookup auth_secret annotations ≡ some secret)
IsGuardedBy false secret annotations = lookup auth_type annotations ≢ some "basic"

-- An ingress that asks for names and tokens asks for those of the secret.
abbrev pub KeepsSecret : String → Annotations → Type 0
KeepsSecret secret annotations =
    lookup auth_type annotations ≡ some "basic" → lookup auth_secret annotations ≡ some secret

-- An update that leaves the annotations as they should be, or the panic of an ingress without any.
abbrev pub IsUpdated : Bool → String → Annotations → AnnotationUpdate → Type 0
IsUpdated is_private secret annotations leave = IsGuardedBy is_private secret annotations
IsUpdated is_private secret annotations nil_map = (is_private ≡ true) × (annotations ≡ [])
IsUpdated is_private secret annotations (change written) = IsGuardedBy is_private secret written

guard_annotations-IsUpdated :
    (secret : String) (annotations : Annotations)
    → IsUpdated true secret annotations (guard_annotations secret annotations)
unfolding IsGuardedBy
guard_annotations-IsUpdated secret [] = (refl, refl)
guard_annotations-IsUpdated secret (entry ∷ entries) = (
  guards-lookup_type secret "Authentication Required" (entry ∷ entries),
  guards-lookup_secret secret "Authentication Required" (entry ∷ entries),
)

pub updated_annotations-IsUpdated :
    (is_private : Bool) (secret : String) (annotations : Annotations)
    → KeepsSecret secret annotations
    → IsUpdated is_private secret annotations (updated_annotations is_private secret annotations)
unfolding updated_annotations IsGuardedBy
updated_annotations-IsUpdated true secret annotations keeps =
    elim (Bool-cases (is_guarded annotations)) [
      | inl guarded ↦
          let basic = is_guarded-basic annotations guarded in rw guarded (basic, keeps basic)
      | inr free ↦ rw free (guard_annotations-IsUpdated secret annotations)
    ]
updated_annotations-IsUpdated false secret annotations keeps =
    elim (Bool-cases (is_guarded annotations)) [
      | inl guarded ↦ rw guarded (λ e. none-ne-some _ (sym (unguarded-lookup_type annotations) ∙ e))
      | inr free ↦ rw free (λ e. false≢true (sym free ∙ basic-is_guarded annotations e))
    ]
