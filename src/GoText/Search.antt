-- ===== src/GoText/Search.antt =====
-- Go's package strings: prefixes and occurrences of a text in another.
use Prim.Native.Char.{code}
use Prim.Native.String.{◌++◌ as ◌+++◌}
use primehub_controller.Prelude.{
  Bool, Option, String, ℕ, zero, suc, false, true, some, none, if◌then◌else◌, ◌&&◌, ◌||◌, ◌==◌,
}
use primehub_controller.GoText.{drop_chars}

-- strings.HasPrefix
unfoldable pub has_prefix : String → String → Bool
has_prefix s String.[] = true
has_prefix String.[] (String.◌∷◌ d t) = false
has_prefix (String.◌∷◌ c s) (String.◌∷◌ d t) = code c == code d && has_prefix s t

-- strings.Contains
unfoldable pub contains : String → String → Bool
contains String.[] part = has_prefix "" part
contains (String.◌∷◌ c s) part = has_prefix (String.◌∷◌ c s) part || contains s part

-- What stands before the first occurrence of a text.
unfoldable pub before : String → String → String
before part String.[] = String.[]
before part (String.◌∷◌ c s) =
    let rest = before part s in
    if has_prefix (String.◌∷◌ c s) part then String.[] else String.◌∷◌ c rest

-- strings.Split(s, part)[1] for a text of `n` characters, `none` where the split has one part.
unfoldable pub split_second : ℕ → String → String → Option String
split_second n part String.[] = none
split_second n part (String.◌∷◌ c s) =
    let rest = split_second n part s in
    if has_prefix (String.◌∷◌ c s) part
    then some (before part (drop_chars n (String.◌∷◌ c s)))
    else rest

-- strings.ReplaceAll for a text of `n + 1` characters, after the first `skip` characters.
unfoldable pub replace_from : ℕ → ℕ → String → String → String → String
replace_from skip n old new String.[] = String.[]
replace_from (suc skip) n old new (String.◌∷◌ c s) = replace_from skip n old new s
replace_from zero n old new (String.◌∷◌ c s) = elim (has_prefix (String.◌∷◌ c s) old) [
  | true ↦ new +++ replace_from n n old new s
  | false ↦ String.◌∷◌ c (replace_from zero n old new s)
]
