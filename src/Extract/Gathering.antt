-- ===== src/Extract/Gathering.antt =====
-- internal/extract/extract.go: `Links`, and the fields that a page lacks.
use mathlib.Core.Option.{none-ne-some, some-injective}
use serp_harvester.Prelude.{
  subst, ◌≡◌, inl, inr, refl, List, [], ◌∷◌, ◌++◌, Text, text_eq, text_eq_iff, Bool, true, false,
  ◌||◌, Option, none, some, arith, Bool-cases, bytes, ◌↔◌, ◌⊎◌, Listed, sym,
}
use serp_harvester.Robots.{contains}
use serp_harvester.Extract.{
  Dom, has_text, text_or_empty, link_of_url, link_of_href, link_of, add_link, links_from, links,
}

-- No text occurs twice.
abbrev pub NoDup : List Text → Type 0
NoDup [] = Unit {0}
NoDup (t ∷ ts) = (has_text t ts ≡ false) × NoDup ts

text_eq_refl : (t : Text) → text_eq t t ≡ true
text_eq_refl t = (text_eq_iff t t).1 refl

text_eq_sym : (t u : Text) → text_eq t u ≡ text_eq u t
text_eq_sym t u = ground (arith, text_eq_iff t u, text_eq_iff u t)

has_text-append :
    (t u : Text) (ts : List Text) → has_text t (ts ++ u ∷ []) ≡ (has_text t ts || text_eq u t)
unfolding has_text
has_text-append t u [] = ground arith
has_text-append t u (v ∷ ts) = ground (arith, has_text-append t u ts)

NoDup-append : (u : Text) (ts : List Text) → NoDup ts → has_text u ts ≡ false → NoDup (ts ++ u ∷ [])
unfolding has_text
NoDup-append u [] n h = (refl, tt)
NoDup-append u (t ∷ ts) (fresh, n) h = (
  ground (arith, has_text-append t u ts, fresh, h, text_eq_sym t u),
  NoDup-append u ts n (ground (arith, h)),
)

-- Whether a link is the text `l`.
unfoldable pub is_link : Text → Option Text → Bool
is_link l none = false
is_link l (some u) = text_eq u l

module _ {U N : Type 0} (dom : Dom U N) where
  add_link-NoDup : (o : Option Text) (out : List Text) → NoDup out → NoDup (add_link dom o out)
  unfolding add_link
  add_link-NoDup none out n = n
  add_link-NoDup (some l) out n = elim (Bool-cases (has_text l out)) [
    | inl e ↦ rw e n
    | inr e ↦ rw e (NoDup-append l out n e)
  ]

  add_link-has :
      (l : Text) (o : Option Text) (out : List Text)
      → has_text l (add_link dom o out) ≡ (has_text l out || is_link l o)
  unfolding add_link is_link
  add_link-has l none out = ground arith
  add_link-has l (some u) out = ground (arith, has_text-append l u out, text_eq_iff u l)

  -- Some of the elements gives the link `l`.
  abbrev pub gives : U → Text → List N → Bool
  gives base l [] = false
  gives base l (s ∷ ss) = is_link l (link_of dom base s) || gives base l ss

  -- `l` is the URL without its fragment, and the URL one of http or https.
  abbrev pub IsWebLink : Text → U → Type 0
  IsWebLink l u =
      ((dom.scheme u ≡ bytes "http") ⊎ (dom.scheme u ≡ bytes "https"))
      × (l ≡ dom.url_text (dom.without_fragment u))

  -- The element leads to the link `l`: it is not marked nofollow, and its href, without spaces
  -- around it, gives an http or https URL, which is `l` without its fragment.
  abbrev pub IsFollowable : U → N → Text → Type 0
  IsFollowable base s l =
      (contains (dom.to_lower (text_or_empty dom (dom.attribute s (bytes "rel"))))
          (bytes "nofollow")
        ≡ false)
      × ((href : Text) × (u : U) × (dom.attribute s (bytes "href") ≡ some href)
          × (dom.follow base (dom.trim_space href) ≡ some u)
          × IsWebLink l u)

  web_link : (l : Text) (u : U) → (is_link l (link_of_url dom (some u)) ≡ true) ↔ IsWebLink l u
  unfolding link_of_url is_link
  web_link l u =
      elim (Bool-cases
        (text_eq (dom.scheme u) (bytes "http") || text_eq (dom.scheme u) (bytes "https"))) [
          | inl web ↦ rw web (
            (λ h. (
              web_scheme u web,
              sym ((text_eq_iff (dom.url_text (dom.without_fragment u)) l).0 h),
            )),
            (λ (schemes, same).
                (text_eq_iff (dom.url_text (dom.without_fragment u)) l).1 (sym same)),
          )
          | inr other ↦
              rw other ((λ h. absurd (cc)), (λ (schemes, same). absurd (no_scheme u other schemes)))
        ]
    where
      web_scheme :
          (u : U)
          → (text_eq (dom.scheme u) (bytes "http") || text_eq (dom.scheme u) (bytes "https")) ≡ true
          → (dom.scheme u ≡ bytes "http") ⊎ (dom.scheme u ≡ bytes "https")
      web_scheme u h = elim (Bool-cases (text_eq (dom.scheme u) (bytes "http"))) [
        | inl e ↦ inl ((text_eq_iff (dom.scheme u) (bytes "http")).0 e)
        | inr e ↦ inr ((text_eq_iff (dom.scheme u) (bytes "https")).0 (rw e at h))
      ]

      no_scheme :
          (u : U)
          → (text_eq (dom.scheme u) (bytes "http") || text_eq (dom.scheme u) (bytes "https"))
            ≡ false
          → (dom.scheme u ≡ bytes "http") ⊎ (dom.scheme u ≡ bytes "https")
          → ⊥
      no_scheme u h (inl e) =
          absurd (ground (arith, h, (text_eq_iff (dom.scheme u) (bytes "http")).1 e))
      no_scheme u h (inr e) =
          absurd (ground (arith, h, (text_eq_iff (dom.scheme u) (bytes "https")).1 e))

  followed_link :
      (base : U) (l : Text) (x : Option U)
      → (is_link l (link_of_url dom x) ≡ true) ↔ ((u : U) × (x ≡ some u) × IsWebLink l u)
  unfolding link_of_url is_link
  followed_link base l none = ((λ h. absurd (cc)), (λ (u, e, web). absurd (none-ne-some _ e)))
  followed_link base l (some u) = (
    (λ h. (u, refl, (web_link l u).0 h)),
    (λ (v, e, web). (web_link l u).1 (subst (λ y. IsWebLink l y) (sym (some-injective _ _ e)) web)),
  )

  href_link :
      (base : U) (l : Text) (o : Option Text)
      → (is_link l (link_of_href dom base o) ≡ true) ↔ (
          (href : Text) × (u : U) × (o ≡ some href)
          × (dom.follow base (dom.trim_space href) ≡ some u)
          × IsWebLink l u)
  unfolding link_of_href is_link
  href_link base l none = ((λ h. absurd (cc)), (λ (h, u, e, to, web). absurd (none-ne-some _ e)))
  href_link base l (some href) =
      let (there, back) = followed_link base l (dom.follow base (dom.trim_space href)) in
      (
        (λ h. let (u, e, web) = there h in (href, u, refl, e, web)),
        (λ (x, u, same, e, web). back (
          u,
          subst (λ y. dom.follow base (dom.trim_space y) ≡ some u) (sym (some-injective _ _ same))
              e,
          web,
        )),
      )

  link_of-IsFollowable :
      (base : U) (s : N) (l : Text)
      → (is_link l (link_of dom base s) ≡ true) ↔ IsFollowable base s l
  unfolding link_of is_link
  link_of-IsFollowable base s l =
      elim (Bool-cases (
        contains (dom.to_lower (text_or_empty dom (dom.attribute s (bytes "rel"))))
          (bytes "nofollow"))) [
            | inl marked ↦ rw marked ((λ h. absurd (cc)), (λ (clear, rest). absurd (cc)))
            | inr clear ↦ rw clear (
              (λ h. (refl, (href_link base l (dom.attribute s (bytes "href"))).0 h)),
              (λ (same, rest). (href_link base l (dom.attribute s (bytes "href"))).1 rest),
            )
          ]

  gives-IsFollowable :
      (base : U) (l : Text) (ss : List N)
      → (gives base l ss ≡ true) ↔ ((s : N) × Listed s ss × IsFollowable base s l)
  gives-IsFollowable base l [] = ((λ h. absurd (cc)), (λ (s, none_listed, h). elim none_listed [ ]))
  gives-IsFollowable base l (s ∷ ss) =
      let (there, back) = link_of-IsFollowable base s l in
      let (there', back') = gives-IsFollowable base l ss in
      (
        (λ h. elim (Bool-cases (is_link l (link_of dom base s))) [
          | inl here ↦ (s, inl refl, there here)
          | inr later ↦ let (t, listed, ok) = there' (rw later at h) in (t, inr listed, ok)
        ]),
        (λ (t, listed, ok). elim listed [
          | inl same ↦ rw (back (subst (λ y. IsFollowable base y l) same ok)) refl
          | inr later ↦ or_true (is_link l (link_of dom base s)) (back' (t, later, ok))
        ]),
      )
    where
      or_true : (b : Bool) {c : Bool} → c ≡ true → (b || c) ≡ true
      or_true true h = refl
      or_true false h = h

  links_from_lem :
      (base : U) (ss : List N) (out : List Text)
      → NoDup out
      → NoDup (links_from dom base ss out)
        × ((l : Text)
            → has_text l (links_from dom base ss out) ≡ (has_text l out || gives base l ss))
  unfolding links_from
  links_from_lem base [] out n = (n, (λ l. ground arith))
  links_from_lem base (s ∷ ss) out n =
      let o = link_of dom base s in
      let (d, h) = links_from_lem base ss (add_link dom o out) (add_link-NoDup o out n) in
      (d, (λ l. ground (arith, h l, add_link-has l o out)))

  -- The links of a page are without duplicates, and a URL is one of them exactly when some element
  -- that the selector finds leads to it: the element is not marked nofollow, and its href gives an
  -- http or https URL, which stands among the links without its fragment.
  pub links_lem :
      (base : U) (doc : N) (selector : Text)
      → NoDup (links dom base doc selector)
        × ((l : Text)
            → (has_text l (links dom base doc selector) ≡ true)
              ↔ ((s : N) × Listed s (dom.find doc selector) × IsFollowable base s l))
  unfolding links has_text
  links_lem base doc selector =
      let (fresh, has) = links_from_lem base (dom.find doc selector) [] tt in
      (fresh, (λ l. rw (has l) (gives-IsFollowable base l (dom.find doc selector))))
