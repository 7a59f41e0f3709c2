-- ===== src/Spawn/Merged.antt =====
-- The map of mergeDataset: which datasets it has, and which of them may be written to.
use mathlib.Core.Bool.{true≢false}
use primehub_controller.Prelude.{
  ap, none, ◌⊎◌, subst, Option, true, sym, ◌∙◌, inr, arith, inl, Bool-cases, refl, [], some, ◌&&◌,
  ◌||◌, ◌∷◌, str_eq, if◌then◌else◌, if◌then◌else◌, false, ◌≡◌, Bool, put, List, lookup, String,
}
use primehub_controller.Graphql.{DtoDataset}
use text.Mathlib.TextEquality.{eq_iff}
use primehub_controller.Spawn.Granted.{merge_from, merge_found, is_key, writable_in, merge_one}

abbrev pub any_named : String → List DtoDataset → Bool
any_named name [] = false
any_named name (dataset ∷ datasets) = str_eq dataset.name name || any_named name datasets

abbrev pub any_writable : String → List DtoDataset → Bool
any_writable name [] = false
any_writable name (dataset ∷ datasets) =
    (str_eq dataset.name name && dataset.writable) || any_writable name datasets

lookup-put :
    (key name : String) (dataset : DtoDataset) (entries : List (String × DtoDataset))
    → lookup name (put key dataset entries)
      ≡ (if str_eq key name then some dataset else lookup name entries)
unfolding lookup put
lookup-put key name dataset [] = refl
lookup-put key name dataset (entry ∷ entries) = elim (Bool-cases (str_eq entry.0 key)) [
  | inl same ↦
      let is_key : entry.0 ≡ key = (eq_iff entry.0 key).0 same in rw same (rw is_key (ground arith))
  | inr other ↦ elim (Bool-cases (str_eq entry.0 name)) [
    | inl found ↦
        let is_name : entry.0 ≡ name = (eq_iff entry.0 name).0 found in
        elim (Bool-cases (str_eq key name)) [
          | inl equal ↦
              let is_key = is_name ∙ sym ((eq_iff key name).0 equal) in
              absurd (true≢false (sym ((eq_iff entry.0 key).1 is_key) ∙ other))
          | inr differs ↦ rw (other, found, differs) refl
        ]
    | inr missing ↦ rw (other, missing) (lookup-put key name dataset entries)
  ]
]

or-false : (b : Bool) → b ≡ (b || false)
or-false b = ground arith

-- The lookup of a name after an assignment, for another name and for the name.
put-other :
    (name : String) (dataset : DtoDataset) (entries : List (String × DtoDataset))
    → str_eq dataset.name name ≡ false
    → lookup name (put dataset.name dataset entries) ≡ lookup name entries
put-other name dataset entries e = lookup-put dataset.name name dataset entries ∙ rw e refl

put-same :
    (name : String) (dataset : DtoDataset) (entries : List (String × DtoDataset))
    → str_eq dataset.name name ≡ true
    → lookup name (put dataset.name dataset entries) ≡ some dataset
put-same name dataset entries e = lookup-put dataset.name name dataset entries ∙ rw e refl

abbrev grants : Option DtoDataset → Bool
grants (some dataset) = dataset.writable
grants none = false

abbrev is_there : Option DtoDataset → Bool
is_there (some dataset) = true
is_there none = false

put-grants :
    (name : String) (dataset : DtoDataset) (entries : List (String × DtoDataset))
    → (dataset.writable ≡ true) ⊎ (lookup dataset.name entries ≡ none)
    → grants (lookup name (put dataset.name dataset entries))
      ≡ (grants (lookup name entries) || (str_eq dataset.name name && dataset.writable))
put-grants name dataset entries why = elim (Bool-cases (str_eq dataset.name name)) [
  | inr other ↦ rw (put-other name dataset entries other, other) (or-false _)
  | inl same ↦
      let is_name = (eq_iff dataset.name name).0 same in
      elim why [
        | inl writable ↦ rw (put-same name dataset entries same, same, writable) (ground arith)
        | inr new ↦
            let missing : lookup name entries ≡ none =
              subst (λ n. lookup n entries ≡ none) is_name new in
            rw (put-same name dataset entries same, same, missing) refl
      ]
]

merge_found-grants :
    (found : Option DtoDataset) (name : String) (dataset : DtoDataset)
    (entries : List (String × DtoDataset))
    → lookup dataset.name entries ≡ found
    → grants (lookup name (merge_found found dataset entries))
      ≡ (grants (lookup name entries) || (str_eq dataset.name name && dataset.writable))
unfolding merge_found
merge_found-grants none name dataset entries e = put-grants name dataset entries (inr e)
merge_found-grants (some _) name dataset entries e = elim (Bool-cases dataset.writable) [
  | inl writable ↦
      let merged = put-grants name dataset entries (inl writable) in
      subst
        (λ b.
          grants (lookup name (if b then put dataset.name dataset entries else entries))
          ≡ (grants (lookup name entries) || (str_eq dataset.name name && dataset.writable)))
        (sym writable) merged
  | inr read_only ↦ rw read_only (ground arith)
]

put-is_there :
    (name : String) (dataset : DtoDataset) (entries : List (String × DtoDataset))
    → is_there (lookup name (put dataset.name dataset entries))
      ≡ (is_there (lookup name entries) || str_eq dataset.name name)
put-is_there name dataset entries = elim (Bool-cases (str_eq dataset.name name)) [
  | inl same ↦ rw (put-same name dataset entries same, same) (ground arith)
  | inr other ↦ rw (put-other name dataset entries other, other) (or-false _)
]

merge_found-is_there :
    (found : Option DtoDataset) (name : String) (dataset : DtoDataset)
    (entries : List (String × DtoDataset))
    → lookup dataset.name entries ≡ found
    → is_there (lookup name (merge_found found dataset entries))
      ≡ (is_there (lookup name entries) || str_eq dataset.name name)
unfolding merge_found
merge_found-is_there none name dataset entries e = put-is_there name dataset entries
merge_found-is_there (some old) name dataset entries e = elim (Bool-cases dataset.writable) [
  | inl writable ↦
      subst
        (λ b.
          is_there (lookup name (if b then put dataset.name dataset entries else entries))
          ≡ (is_there (lookup name entries) || str_eq dataset.name name))
        (sym writable) (put-is_there name dataset entries)
  | inr read_only ↦ elim (Bool-cases (str_eq dataset.name name)) [
    | inr other ↦ rw (read_only, other) (or-false _)
    | inl same ↦
        let is_name = (eq_iff dataset.name name).0 same in
        let there : lookup name entries ≡ some old =
          subst (λ n. lookup n entries ≡ some old) is_name e in
        rw (read_only, same, there) refl
  ]
]

or_assoc : (a b c : Bool) → ((a || b) || c) ≡ (a || (b || c))
or_assoc a b c = ground arith

merge_from-grants :
    (name : String) (datasets : List DtoDataset) (entries : List (String × DtoDataset))
    → grants (lookup name (merge_from datasets entries))
      ≡ (grants (lookup name entries) || any_writable name datasets)
unfolding merge_from merge_one
merge_from-grants name [] entries = or-false _
merge_from-grants name (dataset ∷ datasets) entries =
    merge_from-grants name datasets _
    ∙ ap (λ b. b || any_writable name datasets) (merge_found-grants _ name dataset entries refl)
    ∙ or_assoc (grants (lookup name entries)) _ _

merge_from-is_there :
    (name : String) (datasets : List DtoDataset) (entries : List (String × DtoDataset))
    → is_there (lookup name (merge_from datasets entries))
      ≡ (is_there (lookup name entries) || any_named name datasets)
unfolding merge_from merge_one
merge_from-is_there name [] entries = or-false _
merge_from-is_there name (dataset ∷ datasets) entries =
    merge_from-is_there name datasets _
    ∙ ap (λ b. b || any_named name datasets) (merge_found-is_there _ name dataset entries refl)
    ∙ or_assoc (is_there (lookup name entries)) _ _

-- In the map that mergeDataset builds, a name stands exactly if one of the datasets has it, and its
-- dataset is writable exactly if one of the datasets of the name is.
pub merge_from-Merges :
    (name : String) (datasets : List DtoDataset)
    → (is_key name (merge_from datasets []) ≡ any_named name datasets)
      × (writable_in name (merge_from datasets []) ≡ any_writable name datasets)
unfolding lookup
merge_from-Merges name datasets =
    (merge_from-is_there name datasets [], merge_from-grants name datasets [])
