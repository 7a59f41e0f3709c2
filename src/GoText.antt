-- ===== src/GoText.antt =====
-- Go's packages strings and path, as the code uses them. The case tables of Unicode are a parameter.
pub mod Search
use Prim.Native.Char.{Char, code}
use Prim.Native.String.{◌++◌ as ◌+++◌}
use text.Mathlib.Text.{starts_with}
use primehub_controller.Prelude.{
  leb, zero, ◌&&◌, ltb, suc, true, false, ◌||◌, ◌==◌, refl, if◌then◌else◌, some, none, ℕ, [],
  str_eq, Option, ◌∷◌, ◌≡◌, List, Bool, String,
}

-- strings.ToLower and strings.ToUpper
pub record Casing : Type 0 where
  pub to_lower : String → String
  pub to_upper : String → String

-- strings.ReplaceAll for two texts of one character.
unfoldable pub replace_char : Char → Char → String → String
replace_char old new String.[] = String.[]
replace_char old new (String.◌∷◌ c s) =
    String.◌∷◌ (if code c == code old then new else c) (replace_char old new s)

-- strings.Join
unfoldable pub join : String → List String → String
join separator [] = ""
join separator (part ∷ []) = part
join separator (part ∷ next ∷ parts) = part +++ separator +++ join separator (next ∷ parts)

abbrev pub on_first : String → List String → List String
on_first c [] = c ∷ []
on_first c (part ∷ parts) = (c +++ part) ∷ parts

-- strings.Split for a separator of one character.
unfoldable pub split_on : Char → String → List String
split_on separator String.[] = "" ∷ []
split_on separator (String.◌∷◌ c s) =
    let rest = split_on separator s in
    if code c == code separator then "" ∷ rest else on_first (String.◌∷◌ c "") rest

-- unicode.IsSpace
abbrev is_space : ℕ → Bool
is_space c =
    (leb 9 c && leb c 13)
    || c == 32
    || c == 133
    || c == 160
    || c == 5760
    || (leb 8192 c && leb c 8202)
    || c == 8232
    || c == 8233
    || c == 8239
    || c == 8287
    || c == 12288

unfoldable pub trim_left : String → String
trim_left String.[] = String.[]
trim_left (String.◌∷◌ c s) =
    let rest = trim_left s in if is_space (code c) then rest else String.◌∷◌ c s

unfoldable pub trim_right : String → String
trim_right String.[] = String.[]
trim_right (String.◌∷◌ c s) =
    let rest = trim_right s in if is_space (code c) && str_eq rest "" then "" else String.◌∷◌ c rest

-- strings.TrimSpace
unfoldable pub trim_space : String → String
trim_space s = trim_right (trim_left s)

-- The last character, for a regular expression that ends in `$`.
unfoldable pub last_code : String → Option ℕ
last_code String.[] = none
last_code (String.◌∷◌ c s) = elim (last_code s) [ none ↦ some (code c) | some d ↦ some d ]

-- s[n:]
unfoldable pub drop_chars : ℕ → String → String
drop_chars zero s = s
drop_chars (suc n) String.[] = String.[]
drop_chars (suc n) (String.◌∷◌ c s) = drop_chars n s

-- The order of two texts by their bytes, which is that by the code points of their characters.
unfoldable pub text_ltb : String → String → Bool
text_ltb s String.[] = false
text_ltb String.[] (String.◌∷◌ d t) = true
text_ltb (String.◌∷◌ c s) (String.◌∷◌ d t) =
    let rest = text_ltb s t in
    if ltb (code c) (code d) then true else if code c == code d then rest else false

abbrev insert_in_order {ℓ} : {A : Type ℓ} → (A → A → Bool) → A → List A → List A
insert_in_order less x [] = x ∷ []
insert_in_order less x (y ∷ ys) =
    let rest = insert_in_order less x ys in if less y x then y ∷ rest else x ∷ y ∷ ys

-- sort.SliceStable, and sort.Strings for the order of texts.
unfoldable pub sort_stable {ℓ} : {A : Type ℓ} → (A → A → Bool) → List A → List A
sort_stable less [] = []
sort_stable less (x ∷ xs) = insert_in_order less x (sort_stable less xs)

-- Whether a test holds of the code of each character.
unfoldable pub all_codes : (ℕ → Bool) → String → Bool
all_codes p String.[] = true
all_codes p (String.◌∷◌ c s) = p (code c) && all_codes p s

abbrev pub is_empty : String → Bool
is_empty s = str_eq s ""

-- path.Clean keeps the parts of the path that is left, the last one first.
abbrev clean_part : Bool → String → List String → List String
clean_part rooted part kept =
    if is_empty part || str_eq part "."
    then kept
    else if str_eq part ".."
    then elim kept [
      | [] ↦ if rooted then [] else ".." ∷ []
      | top ∷ below ↦ if str_eq top ".." then ".." ∷ top ∷ below else below
    ]
    else part ∷ kept

unfoldable pub clean_parts : Bool → List String → List String → List String
clean_parts rooted [] kept = kept
clean_parts rooted (part ∷ parts) kept = clean_parts rooted parts (clean_part rooted part kept)

abbrev reverse_onto : List String → List String → List String
reverse_onto [] done = done
reverse_onto (part ∷ parts) done = reverse_onto parts (part ∷ done)

-- path.Clean
unfoldable pub clean : String → String
clean path =
    let rooted = starts_with path "/" in
    let kept = join "/" (reverse_onto (clean_parts rooted (split_on "/" path) []) []) in
    if is_empty path
    then "."
    else if rooted
    then "/" +++ kept
    else if is_empty kept
    then "."
    else kept

-- path.Join and filepath.Join of two elements.
unfoldable pub join_path : String → String → String
join_path a b =
    if is_empty a
    then (if is_empty b then "" else clean b)
    else if is_empty b
    then clean a
    else clean (a +++ "/" +++ b)

join_path_plain : join_path "/mnt/" "dataset-a" ≡ "/mnt/dataset-a"
unfolding join_path clean clean_parts split_on join
join_path_plain = refl

join_path_dots : join_path "/mnt/" "dataset-a/../../b" ≡ "/b"
unfolding join_path clean clean_parts split_on join
join_path_dots = refl

sort_stable_texts : sort_stable text_ltb ("b" ∷ "ab" ∷ "" ∷ "a" ∷ []) ≡ "" ∷ "a" ∷ "ab" ∷ "b" ∷ []
unfolding sort_stable text_ltb
sort_stable_texts = refl

trim_space_ends : trim_space " a b  " ≡ "a b"
unfolding trim_space trim_left trim_right
trim_space_ends = refl
