-- ===== src/Worker/Process/Locale.antt =====
-- internal/worker/pool.go: `localeCountry` and `localeLanguage`.
use serp_harvester.Prelude.{
  ℕ, ◌≡◌, ◌≢◌, refl, ◌==◌, ==_iff, [], ◌∷◌, ◌++◌, All, if◌then◌else◌, Option, none, some, Text,
  Bool-cases, inl, inr, arith,
}

unfoldable pub before_with : ℕ → Option (Text × Text) → Option (Text × Text)
before_with c none = none
before_with c (some (before, after)) = some (c ∷ before, after)

-- `strings.Cut`, on a separator of one byte: what stands before and after its first instance.
unfoldable pub cut : ℕ → Text → Option (Text × Text)
cut sep [] = none
cut sep (c ∷ s) = let rest = before_with c (cut sep s) in if c == sep then some ([], s) else rest

-- '-'
abbrev pub dash : ℕ
dash = 45

unfoldable pub locale_country : Text → Text
locale_country locale = elim (cut dash locale) [ none ↦ [] | some (country, lang) ↦ country ]

unfoldable pub locale_language : Text → Text
locale_language locale = elim (cut dash locale) [ none ↦ [] | some (country, lang) ↦ lang ]

cut-append : (sep : ℕ) (s t : Text) → All (λ c. c ≢ sep) s → cut sep (s ++ sep ∷ t) ≡ some (s, t)
unfolding cut before_with
cut-append sep [] t h = ground arith
cut-append sep (c ∷ s) t h = elim (Bool-cases (c == sep)) [
  | inl e ↦ absurd (h.0 ((==_iff c sep).0 e))
  | inr e ↦ rw (e, cut-append sep s t h.1) refl
]

-- A locale of a country without a dash and a language, joined by a dash, splits into the two, also
-- when the language has dashes.
pub locale-append :
    (country lang : Text)
    → All (λ c. c ≢ dash) country
    → (locale_country (country ++ dash ∷ lang) ≡ country)
      × (locale_language (country ++ dash ∷ lang) ≡ lang)
unfolding locale_country locale_language
locale-append country lang h =
    rw (cut-append dash country lang h, locale_country, locale_language) (refl, refl)
