-- ===== src/Deployment/Sources.antt =====
-- Where the model of a deployment comes from: NFS addresses, and the volumes of the pod.
use Prim.Native.Char.{Char, code}
use Prim.Native.String.{◌++◌ as ◌+++◌}
use mathlib.Core.Bool.{true≢false}
use text.Mathlib.TextLemmas.{nil-append, cons-append}
use text.Mathlib.TextEquality.{eq_iff}
use primehub_controller.Prelude.{
  inl, inr, Bool, String, ℕ, ◌==◌, not, false, true, some, ok, ◌≡◌, refl, sym, ap, arith,
  Bool-cases, str_eq,
}
use primehub_controller.GoText.{is_empty, drop_chars, all_codes}
use primehub_controller.GoText.Search.{has_prefix}
use primehub_controller.Deployment.ModelVolumes.{
  server_part, line_part, path_part, find_nfs, extract_nfs_config, path_or_root,
}

-- Characters other than a slash, and other than the end of a line.
abbrev pub is_host : ℕ → Bool
is_host c = not (c == 47)

abbrev pub in_line : ℕ → Bool
in_line c = not (c == 10)

module _ (c : Char) (s : String) where
  all_codes-head : (p : ℕ → Bool) → all_codes p (String.◌∷◌ c s) ≡ true → p (code c) ≡ true
  unfolding all_codes
  all_codes-head p h = ground arith

  all_codes-tail : (p : ℕ → Bool) → all_codes p (String.◌∷◌ c s) ≡ true → all_codes p s ≡ true
  unfolding all_codes
  all_codes-tail p h = ground arith

not-false : (b : Bool) → not b ≡ true → b ≡ false
not-false b h = ground arith

server_part-host :
    (server path : String)
    → all_codes is_host server ≡ true
    → server_part (server +++ ("/" +++ path)) ≡ server
unfolding server_part
server_part-host String.[] path h = rw (nil-append ("/" +++ path), cons-append "/" "" path) refl
server_part-host (String.◌∷◌ c server) path h =
    let other = not-false _ (all_codes-head c server is_host h) in
    let rest = server_part-host server path (all_codes-tail c server is_host h) in
    rw (cons-append c server ("/" +++ path), other, rest) refl

path_part-host :
    (server path : String)
    → all_codes is_host server ≡ true
    → path_part (server +++ ("/" +++ path)) ≡ "/" +++ path
unfolding path_part
path_part-host String.[] path h = rw (nil-append ("/" +++ path), cons-append "/" "" path) refl
path_part-host (String.◌∷◌ c server) path h =
    let other = not-false _ (all_codes-head c server is_host h) in
    let rest = path_part-host server path (all_codes-tail c server is_host h) in
    rw (cons-append c server ("/" +++ path), other, rest) refl

line_part_id : (path : String) → all_codes in_line path ≡ true → line_part path ≡ path
unfolding line_part
line_part_id String.[] h = refl
line_part_id (String.◌∷◌ c path) h =
    let other = not-false _ (all_codes-head c path in_line h) in
    rw (other, line_part_id path (all_codes-tail c path in_line h)) refl

line_part-root :
    (path : String) → all_codes in_line path ≡ true → line_part ("/" +++ path) ≡ "/" +++ path
unfolding line_part
line_part-root path h = rw (cons-append "/" "" path, nil-append path, line_part_id path h) refl

-- The text after the scheme of an NFS address.
abbrev nfs_text : String → String
nfs_text s =
    String.◌∷◌ "n"
      (String.◌∷◌ "f" (String.◌∷◌ "s" (String.◌∷◌ ":" (String.◌∷◌ "/" (String.◌∷◌ "/" s)))))

nfs_text-append : (s : String) → "nfs://" +++ s ≡ nfs_text s
nfs_text-append s =
    rw
      (
        cons-append "n" "fs://" s,
        cons-append "f" "s://" s,
        cons-append "s" "://" s,
        cons-append ":" "//" s,
        cons-append "/" "/" s,
        cons-append "/" "" s,
        nil-append s,
      )
      refl

abbrev has_text : String → Bool
has_text String.[] = false
has_text (String.◌∷◌ c s) = true

is_empty-cons : (c : Char) (s : String) → is_empty (String.◌∷◌ c s) ≡ false
is_empty-cons c s = elim (Bool-cases (is_empty (String.◌∷◌ c s))) [
  | inl empty ↦ absurd (true≢false (ap has_text ((eq_iff (String.◌∷◌ c s) "").0 empty)))
  | inr full ↦ full
]

path_or_root-id :
    (path : String) → all_codes in_line path ≡ true → path_or_root ("/" +++ path) ≡ "/" +++ path
path_or_root-id path h = elim (Bool-cases (str_eq ("/" +++ path) "/")) [
  | inl bare ↦ rw (line_part-root path h, bare) (sym ((eq_iff ("/" +++ path) "/").0 bare))
  | inr long ↦
      let full : is_empty ("/" +++ path) ≡ false =
        rw (cons-append "/" "" path) (is_empty-cons "/" _) in
      rw (line_part-root path h, long, full) refl
]

-- ExtractNFSConfig takes an address nfs://server/path apart into its server and its path with the slash,
-- for a server without slashes that is not empty, and a path without an end of line.
pub extract_nfs_config-append :
    (server path : String)
    → is_empty server ≡ false
    → all_codes is_host server ≡ true
    → all_codes in_line path ≡ true
    → extract_nfs_config ("nfs://" +++ (server +++ ("/" +++ path)))
      ≡ some (ok (server, "/" +++ path))
unfolding extract_nfs_config find_nfs has_prefix drop_chars
extract_nfs_config-append server path is_named host line =
    rw
      (
        nfs_text-append (server +++ ("/" +++ path)),
        server_part-host server path host,
        path_part-host server path host,
        path_or_root-id path line,
        is_named,
      )
      refl
