-- ===== src/Prelude/Lists.antt =====
-- Lists measured by native numbers, predicates over them, and tables with text keys.
use Prim.Native.Nat.{ℕ, zero, suc, ◌+◌, ◌≤◌}
use Prim.Native.String.{String}
use mathlib.Core.Path.{◌≡◌, refl, sym, subst}
use mathlib.Core.Bool.{Bool, true, false}
use mathlib.Core.Logic.{◌⊎◌, inl, inr}
use mathlib.Core.Option.{none-ne-some, some-injective, Option, none, some}
use mathlib.Core.List.{List, [], ◌∷◌, ◌++◌}
use native.Mathlib.Omega.{arith}
use text.Mathlib.Text.{◌==◌}
use text.Mathlib.TextEquality.{eq_iff}
use primehub_controller.Prelude.Tests.{Bool-cases, if◌then◌else◌}

module _ {ℓ} {A : Type ℓ} where
  abbrev pub length : List A → ℕ
  length [] = 0
  length (x ∷ xs) = suc (length xs)

  abbrev pub take : ℕ → List A → List A
  take zero xs = []
  take (suc n) [] = []
  take (suc n) (x ∷ xs) = x ∷ take n xs

  abbrev pub drop : ℕ → List A → List A
  drop zero xs = xs
  drop (suc n) [] = []
  drop (suc n) (x ∷ xs) = drop n xs

  -- The entries that pass a test, in their order.
  abbrev pub keep : (A → Bool) → List A → List A
  keep p [] = []
  keep p (x ∷ xs) = let rest = keep p xs in if p x then x ∷ rest else rest

  abbrev pub All {κ} : (A → Type κ) → List A → Type κ
  All P [] = Unit
  All P (x ∷ xs) = P x × All P xs

  pub length-append : (xs ys : List A) → length (xs ++ ys) ≡ length xs + length ys
  length-append [] ys = omega arith
  length-append (x ∷ xs) ys = omega (arith, length-append xs ys)

  pub length-take-le : (n : ℕ) (xs : List A) → n ≤ length xs → length (take n xs) ≡ n
  length-take-le zero xs h = refl
  length-take-le (suc n) [] h = absurd (omega arith)
  length-take-le (suc n) (x ∷ xs) h = omega (arith, length-take-le n xs)

  pub length-keep-le : (p : A → Bool) (xs : List A) → length (keep p xs) ≤ length xs
  length-keep-le p [] = omega arith
  length-keep-le p (x ∷ xs) = ground (arith, length-keep-le p xs)

  pub keep-All : (p : A → Bool) (xs : List A) → All (λ x. p x ≡ true) (keep p xs)
  keep-All p [] = tt
  keep-All p (x ∷ xs) = ground (arith, keep-All p xs)

abbrev pub Any : {A : Type 0} → (A → Type 0) → List A → Type 0
Any P [] = ⊥
Any P (x ∷ xs) = P x ⊎ Any P xs

abbrev pub In : {A : Type 0} → A → List A → Type 0
In x xs = Any (λ y. y ≡ x) xs

pub All-In {κ} : {A : Type 0} (Q : A → Type κ) (xs : List A) → ((x : A) → In x xs → Q x) → All Q xs
All-In Q [] f = tt
All-In Q (x ∷ xs) f = (f x (inl refl), All-In Q xs (λ y i. f y (inr i)))

pub List-cases {ℓ} :
    {A : Type ℓ} (xs : List A) → (xs ≡ []) ⊎ ((x : A) × (rest : List A) × (xs ≡ x ∷ rest))
List-cases [] = inl refl
List-cases (x ∷ xs) = inr (x, xs, refl)

pub str_eq_refl : (s : String) → (s == s) ≡ true
str_eq_refl s = (eq_iff s s).1 refl

module _ {ℓ} {V : Type ℓ} where
  -- A Go map with text keys: the entries with the newest first, of which the newest for a key counts.
  unfoldable pub lookup : String → List (String × V) → Option V
  lookup key [] = none
  lookup key (entry ∷ older) = if entry.0 == key then some entry.1 else lookup key older

  unfoldable pub insert : String → V → List (String × V) → List (String × V)
  insert key value entries = (key, value) ∷ entries

  -- The assignment to an entry of a map whose `range` matters: every key stands in it once.
  unfoldable pub put : String → V → List (String × V) → List (String × V)
  put key value [] = (key, value) ∷ []
  put key value (entry ∷ entries) =
      let rest = put key value entries in
      if entry.0 == key then (key, value) ∷ entries else entry ∷ rest

  -- delete(entries, key)
  unfoldable pub remove : String → List (String × V) → List (String × V)
  remove key [] = []
  remove key (entry ∷ entries) =
      let rest = remove key entries in if entry.0 == key then rest else entry ∷ rest

  -- for k, v := range added { entries[k] = v }
  unfoldable pub put_all : List (String × V) → List (String × V) → List (String × V)
  put_all [] entries = entries
  put_all (entry ∷ added) entries = put_all added (put entry.0 entry.1 entries)

module _ {ℓ κ} {A : Type ℓ} (Q : A → Type κ) where
  pub All-append : (xs ys : List A) → All Q xs → All Q ys → All Q (xs ++ ys)
  All-append [] ys h k = k
  All-append (x ∷ xs) ys h k = (h.0, All-append xs ys h.1 k)

  pub All-take : (n : ℕ) (xs : List A) → All Q xs → All Q (take n xs)
  All-take zero xs h = tt
  All-take (suc n) [] h = tt
  All-take (suc n) (x ∷ xs) h = (h.0, All-take n xs h.1)

  pub All-drop : (n : ℕ) (xs : List A) → All Q xs → All Q (drop n xs)
  All-drop zero xs h = h
  All-drop (suc n) [] h = tt
  All-drop (suc n) (x ∷ xs) h = All-drop n xs h.1

  pub All-keep : (p : A → Bool) (xs : List A) → All Q xs → All Q (keep p xs)
  All-keep p [] h = tt
  All-keep p (x ∷ xs) h = elim (Bool-cases (p x)) [
    | inl kept ↦ rw kept (h.0, All-keep p xs h.1)
    | inr left_out ↦ rw left_out (All-keep p xs h.1)
  ]

  pub All-map {μ} : {R : A → Type μ} (xs : List A) → ((x : A) → Q x → R x) → All Q xs → All R xs
  All-map [] f h = tt
  All-map (x ∷ xs) f h = (f x h.0, All-map xs f h.1)

module _ {ℓ κ} {V : Type ℓ} (Q : String × V → Type κ) where
  pub All-put :
      (key : String) (value : V) (entries : List (String × V))
      → Q (key, value)
      → All Q entries
      → All Q (put key value entries)
  unfolding put
  All-put key value [] q h = (q, tt)
  All-put key value (entry ∷ entries) q h = elim (Bool-cases (entry.0 == key)) [
    | inl same ↦ rw same (q, h.1)
    | inr other ↦ rw other (h.0, All-put key value entries q h.1)
  ]

  pub All-lookup :
      (key : String) (value : V) (entries : List (String × V))
      → All Q entries
      → lookup key entries ≡ some value
      → Q (key, value)
  unfolding lookup
  All-lookup key value [] h e = absurd (none-ne-some value e)
  All-lookup key value (entry ∷ entries) h e = elim (Bool-cases (entry.0 == key)) [
    | inl same ↦
        let is_value = some-injective entry.1 value (rw same at e) in
        let is_key = (eq_iff entry.0 key).0 same in
        subst (λ k. Q (k, value)) is_key (subst (λ v. Q (entry.0, v)) is_value h.0)
    | inr other ↦ All-lookup key value entries h.1 (rw other at e)
  ]

module _ {ℓ} {V : Type ℓ} where
  pub lookup-put_same :
      (key : String) (value : V) (entries : List (String × V))
      → lookup key (put key value entries) ≡ some value
  unfolding lookup put
  lookup-put_same key value [] = rw (str_eq_refl key) refl
  lookup-put_same key value (entry ∷ entries) = elim (Bool-cases (entry.0 == key)) [
    | inl same ↦ rw same (rw (str_eq_refl key) refl)
    | inr other ↦ rw other (rw other (lookup-put_same key value entries))
  ]

  pub lookup-put_other :
      (key other : String) (value : V) (entries : List (String × V))
      → (other == key) ≡ false
      → lookup key (put other value entries) ≡ lookup key entries
  unfolding lookup put
  lookup-put_other key other value [] h = rw h refl
  lookup-put_other key other value (entry ∷ entries) h = elim (Bool-cases (entry.0 == other)) [
    | inl same ↦
        let is_other = (eq_iff entry.0 other).0 same in
        let differs : (entry.0 == key) ≡ false = subst (λ k. (k == key) ≡ false) (sym is_other) h in
        rw same (rw h (rw differs refl))
    | inr differs ↦ rw differs (elim (Bool-cases (entry.0 == key)) [
      | inl found ↦ rw found refl
      | inr missed ↦ rw missed (lookup-put_other key other value entries h)
    ])
  ]

  pub lookup-remove_same :
      (key : String) (entries : List (String × V)) → lookup key (remove key entries) ≡ none
  unfolding lookup remove
  lookup-remove_same key [] = refl
  lookup-remove_same key (entry ∷ entries) = elim (Bool-cases (entry.0 == key)) [
    | inl found ↦ rw found (lookup-remove_same key entries)
    | inr missed ↦ rw missed (rw missed (lookup-remove_same key entries))
  ]

  pub lookup-remove_other :
      (key other : String) (entries : List (String × V))
      → (other == key) ≡ false
      → lookup key (remove other entries) ≡ lookup key entries
  unfolding lookup remove
  lookup-remove_other key other [] h = refl
  lookup-remove_other key other (entry ∷ entries) h = elim (Bool-cases (entry.0 == other)) [
    | inl same ↦
        let is_other = (eq_iff entry.0 other).0 same in
        let differs : (entry.0 == key) ≡ false = subst (λ k. (k == key) ≡ false) (sym is_other) h in
        rw same (rw differs (lookup-remove_other key other entries h))
    | inr differs ↦ rw differs (elim (Bool-cases (entry.0 == key)) [
      | inl found ↦ rw found refl
      | inr missed ↦ rw missed (lookup-remove_other key other entries h)
    ])
  ]
