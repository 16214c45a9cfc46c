-- ===== src/Wallet/Url/Clean.antt =====
-- The loops of `normalizeWeirdURL` end, and what they leave.
use Prim.Native.Char.{Char}
use text.Mathlib.TextLemmas.{nil-append, cons-append}
use digital_identity_system.Prelude.{
  ℕ, zero, suc, ◌+◌, ◌-◌, ◌≤◌, ◌<◌, String, ◌≡◌, refl, ap, ◌∙◌, inl, inr, true, false, ◌⊎◌, Option,
  none, some, ◌==◌, Bool-cases, arith, eq_iff,
}
use digital_identity_system.Presentation.Verify.{◌⧺◌}
use digital_identity_system.Wallet.Url.{
  count, begins, contains, replace_from, replace_all, replace_while, replace_fully, split_at,
  join_parts, normalize_weird_url,
}

count-append : (s t : String) → count (s ⧺ t) ≡ count s + count t
unfolding count
count-append String.[] t = rw (nil-append t) (omega arith)
count-append (String.◌∷◌ c s) t = rw (cons-append c s t) (omega (arith, count-append s t))

count_of_begins : (part s : String) → begins part s ≡ true → count part ≤ count s
unfolding count begins
count_of_begins String.[] s h = omega arith
count_of_begins (String.◌∷◌ c p) String.[] h = absurd (cc h)
count_of_begins (String.◌∷◌ c p) (String.◌∷◌ d s) h = ground (arith, count_of_begins p s)

module _ (part new : String) (shorter : count new < count part) where
  -- Where an occurrence starts, what replaces it is shorter than it.
  occurrence_le :
      (c : Char) (s : String)
      → begins part (String.◌∷◌ c s) ≡ true
      → (count part - 1 ≤ count s
          → count part - 1 + count (replace_from (count part - 1) part new s) ≤ count s)
      → count (new ⧺ replace_from (count part - 1) part new s) ≤ count s
  unfolding count
  occurrence_le c s here rest =
      let fits : count part ≤ suc (count s) = count_of_begins part (String.◌∷◌ c s) here in
      omega (
        arith,
        shorter,
        fits,
        rest (omega (arith, fits)),
        count-append new (replace_from (count part - 1) part new s),
      )

  -- With characters to drop, the rest is at most what they leave.
  replace_from_le :
      (skip : ℕ) (s : String)
      → skip ≤ count s
      → skip + count (replace_from skip part new s) ≤ count s
  unfolding count replace_from
  replace_from_le zero String.[] h = omega arith
  replace_from_le (suc skip) String.[] h = absurd (omega (arith, h))
  replace_from_le (suc skip) (String.◌∷◌ c s) h =
      omega (arith, replace_from_le skip s (omega (arith, h)))
  replace_from_le zero (String.◌∷◌ c s) h = elim (Bool-cases (begins part (String.◌∷◌ c s))) [
    | inl here ↦
        simp here (omega (arith, occurrence_le c s here (replace_from_le (count part - 1) s)))
    | inr elsewhere ↦ simp elsewhere (omega (arith, replace_from_le zero s (omega arith)))
  ]

  replace_from_lt :
      (s : String) → contains part s ≡ true → count (replace_from zero part new s) < count s
  unfolding count contains replace_from
  replace_from_lt String.[] h = absurd (omega (arith, count_of_begins part "" h, shorter))
  replace_from_lt (String.◌∷◌ c s) h = elim (Bool-cases (begins part (String.◌∷◌ c s))) [
    | inl here ↦
        simp here (omega (arith, occurrence_le c s here (replace_from_le (count part - 1) s)))
    | inr elsewhere ↦ simp elsewhere (omega (arith, replace_from_lt s (simp elsewhere at h)))
  ]

  -- Enough rounds leave no occurrence, and further rounds change nothing.
  replace_while-suc :
      (fuel : ℕ) (s : String)
      → count s ≤ fuel
      → replace_while (suc fuel) part new s ≡ replace_while fuel part new s
  unfolding replace_while replace_all
  replace_while-suc zero s enough = elim (Bool-cases (contains part s)) [
    | inl there ↦ absurd (omega (arith, replace_from_lt s there, enough))
    | inr gone ↦ simp gone
  ]
  replace_while-suc (suc fuel) s enough = elim (Bool-cases (contains part s)) [
    | inl there ↦ simp there (
        replace_while-suc fuel (replace_all part new s)
          (omega (arith, replace_from_lt s there, enough)))
    | inr gone ↦ simp gone
  ]

  replace_while_clean :
      (fuel : ℕ) (s : String)
      → count s ≤ fuel
      → contains part (replace_while fuel part new s) ≡ false
  unfolding replace_while replace_all
  replace_while_clean zero s enough = elim (Bool-cases (contains part s)) [
    | inl there ↦ absurd (omega (arith, replace_from_lt s there, enough))
    | inr gone ↦ gone
  ]
  replace_while_clean (suc fuel) s enough = elim (Bool-cases (contains part s)) [
    | inl there ↦ simp there (
        replace_while_clean fuel (replace_all part new s)
          (omega (arith, replace_from_lt s there, enough)))
    | inr gone ↦ simp gone
  ]

  replace_while_more :
      (extra : ℕ) (s : String)
      → replace_while (count s + extra) part new s ≡ replace_fully part new s
  unfolding replace_fully
  replace_while_more zero s = ap (λ n. replace_while n part new s) (omega arith)
  replace_while_more (suc extra) s =
      ap (λ n. replace_while n part new s) {y = suc (count s + extra)} (omega arith)
      ∙ replace_while-suc (count s + extra) s (omega arith)
      ∙ replace_while_more extra s

-- A loop that replaces one text by a shorter one while it occurs ends: after as many rounds as
-- there are characters it does not occur any more, and further rounds change nothing.
pub replace_while_ends :
    (part new : String)
    → count new < count part
    → (s : String) (extra : ℕ)
    → (contains part (replace_fully part new s) ≡ false)
      × (replace_while (count s + extra) part new s ≡ replace_fully part new s)
unfolding replace_fully
replace_while_ends part new shorter s extra = (
  replace_while_clean part new shorter (count s) s (omega arith),
  replace_while_more part new shorter extra s,
)

join_parts_clean :
    (u : String) (parts : Option (String × String))
    → split_at "://" u ≡ parts
    → (split_at "://" (join_parts u parts) ≡ none)
      ⊎ ((scheme rest : String) × (join_parts u parts ≡ scheme ⧺ "://" ⧺ rest)
          × (contains "//" rest ≡ false))
unfolding join_parts count
join_parts_clean u none e = inl e
join_parts_clean u (some (scheme, rest)) e = inr (
  scheme,
  replace_fully "//" "/" rest,
  refl,
  (replace_while_ends "//" "/" (omega arith) rest 0).0,
)

-- The address that `normalizeWeirdURL` makes of any text has no `://`, or it is a scheme with `://`
-- and a rest in which no two slashes follow one another.
pub normalize_weird_url_clean :
    (trim_space : String → String) (url : String)
    → let u = normalize_weird_url trim_space url in
      (split_at "://" u ≡ none)
      ⊎ ((scheme rest : String) × (u ≡ scheme ⧺ "://" ⧺ rest) × (contains "//" rest ≡ false))
unfolding normalize_weird_url split_at
normalize_weird_url_clean trim_space url = elim (Bool-cases (trim_space url == "")) [
  | inl empty ↦ inl (simp empty (ap (split_at "://") ((eq_iff (trim_space url) "").0 empty)))
  | inr filled ↦
      let twice =
        replace_fully "https://http://" "https://"
          (replace_fully "http://http://" "http://" (trim_space url)) in
      simp filled (join_parts_clean twice (split_at "://" twice) refl)
]
