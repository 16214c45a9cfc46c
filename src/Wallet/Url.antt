-- ===== src/Wallet/Url.antt =====
-- `normalizeWeirdURL` of internal/app/handlers/zkp_descriptor.go, and what it uses of strings. The
-- texts that are looked for are ASCII, so characters may stand for Go's bytes.
pub mod Clean
use Prim.Native.Char.{code}
use digital_identity_system.Prelude.{
  ℕ, zero, suc, ◌+◌, ◌-◌, String, Bool, true, false, not, ◌&&◌, Option, none, some, eqb, ◌==◌,
  if◌then◌else◌,
}
use digital_identity_system.Presentation.Verify.{◌⧺◌}

-- The number of characters.
unfoldable pub count : String → ℕ
count String.[] = zero
count (String.◌∷◌ c s) = suc (count s)

-- `strings.HasPrefix(s, prefix)`
unfoldable pub begins : (prefix s : String) → Bool
begins String.[] s = true
begins (String.◌∷◌ c p) String.[] = false
begins (String.◌∷◌ c p) (String.◌∷◌ d s) = eqb (code c) (code d) && begins p s

-- `strings.Contains(s, part)`
unfoldable pub contains : (part s : String) → Bool
unfolding begins
contains part String.[] = begins part String.[]
contains part (String.◌∷◌ c s) =
    let later = contains part s in if begins part (String.◌∷◌ c s) then true else later

-- `strings.ReplaceAll` for a part that is not empty: `skip` characters of an occurrence are still
-- to be dropped.
unfoldable pub replace_from : ℕ → (part new s : String) → String
unfolding begins count
replace_from skip part new String.[] = String.[]
replace_from (suc skip) part new (String.◌∷◌ c s) = replace_from skip part new s
replace_from zero part new (String.◌∷◌ c s) =
    let replaced = replace_from (count part - 1) part new s in
    let kept = replace_from zero part new s in
    if begins part (String.◌∷◌ c s) then new ⧺ replaced else String.◌∷◌ c kept

unfoldable pub replace_all : (part new s : String) → String
unfolding replace_from
replace_all part new s = replace_from zero part new s

-- `for strings.Contains(s, part) { s = strings.ReplaceAll(s, part, new) }`, at most `fuel` rounds.
unfoldable pub replace_while : ℕ → (part new s : String) → String
unfolding contains replace_all
replace_while zero part new s = s
replace_while (suc fuel) part new s =
    let next = replace_while fuel part new (replace_all part new s) in
    if contains part s then next else s

-- As many rounds as there are characters.
unfoldable pub replace_fully : (part new s : String) → String
unfolding replace_while count
replace_fully part new s = replace_while (count s) part new s

-- The text after a prefix.
unfoldable pub after_prefix : (prefix s : String) → String
after_prefix String.[] s = s
after_prefix (String.◌∷◌ c p) String.[] = String.[]
after_prefix (String.◌∷◌ c p) (String.◌∷◌ d s) = after_prefix p s

-- One more character on the first part of a split.
abbrev in_front : String → Option (String × String) → Option (String × String)
in_front s none = none
in_front s (some (first, rest)) = some (s ⧺ first, rest)

-- `strings.SplitN(s, sep, 2)` where it has two parts.
unfoldable pub split_at : (sep s : String) → Option (String × String)
unfolding begins after_prefix
split_at sep String.[] = none
split_at sep (String.◌∷◌ c s) =
    let later = split_at sep s in
    if begins sep (String.◌∷◌ c s)
    then some ("", after_prefix sep (String.◌∷◌ c s))
    else in_front (String.◌∷◌ c "") later

-- The part after the scheme loses its doubled slashes.
unfoldable pub join_parts : String → Option (String × String) → String
unfolding replace_fully
join_parts u none = u
join_parts u (some (scheme, rest)) = scheme ⧺ "://" ⧺ replace_fully "//" "/" rest

-- `trim_space` is `strings.TrimSpace`.
unfoldable pub normalize_weird_url : (trim_space : String → String) → String → String
unfolding replace_fully split_at join_parts
normalize_weird_url trim_space url =
    let u = trim_space url in
    let once = replace_fully "http://http://" "http://" u in
    let twice = replace_fully "https://http://" "https://" once in
    if u == "" then u else join_parts twice (split_at "://" twice)
