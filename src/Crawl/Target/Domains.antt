-- ===== src/Crawl/Target/Domains.antt =====
-- internal/crawl/target.go: the domains of a scope.
use serp_harvester.Prelude.{
  ℕ, suc, ◌≤◌, ◌≤ℤ◌, ◌≡◌, refl, sym, ap, ◌∙◌, subst, inl, inr, List, [], ◌∷◌, ◌++◌, Text, bytes,
  text_eq, text_eq_iff, Bool, true, false, not, ◌&&◌, ◌||◌, if◌then◌else◌, Option, none, some, pos,
  leb, arith, Bool-cases, length,
}
use mathlib.Core.Option.{none-ne-some, some-injective}
use serp_harvester.Robots.{is_empty}
use serp_harvester.Extract.{Dom}
use serp_harvester.Crawl.Target.{
  Address, Urls, Target, Scope, Starts, any_of, no_text, has_suffix, in_domain, follows,
  follows_address, compile, scope_of, read_starts, add_start, normalize, with_defaults, domains_of,
  is_web, is_render, all_compile, is_acceptable,
}

-- Some letter of a text is from A to Z.
unfoldable pub any_upper : Text → Bool
any_upper [] = false
any_upper (c ∷ s) = (leb 65 c && leb c 90) || any_upper s

any_upper-append : (s t : Text) → any_upper t ≡ true → any_upper (s ++ t) ≡ true
unfolding any_upper
any_upper-append [] t h = h
any_upper-append (c ∷ s) t h = ground (arith, any_upper-append s t h)

-- A text without capitals has no suffix with one.
has_suffix-upper :
    (s suffix : Text) → any_upper s ≡ false → any_upper suffix ≡ true → has_suffix s suffix ≡ false
unfolding has_suffix any_upper is_empty
has_suffix-upper [] [] h k = cc
has_suffix-upper [] (c ∷ t) h k = refl
has_suffix-upper (c ∷ s) t h k = elim (Bool-cases (text_eq (c ∷ s) t)) [
  | inl e ↦ absurd (ground (arith, h, k, ap any_upper ((text_eq_iff (c ∷ s) t).0 e)))
  | inr e ↦ rw e (has_suffix-upper s t (ground (arith, h)) k)
]

module _ {R U N : Type 0} (urls : Urls R) (dom : Dom U N) where
  in_domain-upper :
      (host d : Text)
      → any_upper host ≡ false
      → any_upper d ≡ true
      → in_domain urls dom host d ≡ false
  unfolding in_domain
  in_domain-upper host d h k = elim (Bool-cases (text_eq host d)) [
    | inl e ↦ absurd (ground (arith, h, k, ap any_upper ((text_eq_iff host d).0 e)))
    | inr e ↦ rw e (has_suffix-upper host (bytes "." ++ d) h (any_upper-append (bytes ".") d k))
  ]

  -- What `compile` makes of a target.
  record Compiled (t : Target) (s : Scope) : Type 0 where
    read : Starts
    ok : read_starts urls dom t.start_urls ≡ some read
    same_target : s.target ≡ with_defaults t
    same_starts : s.starts ≡ read.starts
    same_domains :
        s.domains
        ≡ (if no_text t.allowed_domains then read.hosts else [])
          ++ domains_of urls dom t.allowed_domains

  scope_of-Compiled :
      (t : Target) (o : Option Starts) (s : Scope)
      → read_starts urls dom t.start_urls ≡ o
      → scope_of urls dom (with_defaults t) o ≡ some s
      → Compiled t s
  unfolding scope_of with_defaults
  scope_of-Compiled t none s r h = absurd (none-ne-some _ h)
  scope_of-Compiled t (some st) s r h =
      elim (Bool-cases (all_compile urls dom t.include && all_compile urls dom t.exclude)) [
        | inr e ↦ absurd (none-ne-some _ (rw e at h))
        | inl e ↦
            let same = some-injective _ s (rw e at h) in
            record {
              read = st;
              ok = r;
              same_target = sym (ap (λ x. x.target) same);
              same_starts = sym (ap (λ x. x.starts) same);
              same_domains = sym (ap (λ x. x.domains) same);
            }
      ]

  compile-Compiled : (t : Target) (s : Scope) → compile urls dom t ≡ some s → Compiled t s
  unfolding compile
  compile-Compiled t s h = elim (Bool-cases (is_acceptable urls dom t)) [
    | inl e ↦ scope_of-Compiled t (read_starts urls dom t.start_urls) s refl (rw e at h)
    | inr e ↦ absurd (none-ne-some _ (rw e at h))
  ]

  add_start-lengths :
      (o : Option (Address R)) (p : Option Starts) (st : Starts) (k : ℕ)
      → add_start urls dom o p ≡ some st
      → ((r : Starts) → p ≡ some r → (length r.starts ≡ k) × (length r.hosts ≡ k))
      → (length st.starts ≡ suc k) × (length st.hosts ≡ suc k)
  unfolding add_start
  add_start-lengths none p st k h ih = absurd (none-ne-some _ h)
  add_start-lengths (some u) none st k h ih = absurd (none-ne-some _ h)
  add_start-lengths (some u) (some r) st k h ih =
      elim (Bool-cases (is_web u.scheme && not (is_empty u.host))) [
        | inr e ↦ absurd (none-ne-some _ (rw e at h))
        | inl e ↦
            let same = some-injective _ st (rw e at h) in
            let (a, b) = ih r refl in
            (
              sym (ap (λ x. length x.starts) same) ∙ ap suc a,
              sym (ap (λ x. length x.hosts) same) ∙ ap suc b,
            )
      ]

  read_starts-lengths :
      (raws : List Text) (st : Starts)
      → read_starts urls dom raws ≡ some st
      → (length st.starts ≡ length raws) × (length st.hosts ≡ length raws)
  unfolding read_starts
  read_starts-lengths [] st h =
      let same = some-injective _ st h in
      (sym (ap (λ x. length x.starts) same), sym (ap (λ x. length x.hosts) same))
  read_starts-lengths (raw ∷ raws) st h =
      add_start-lengths (urls.parse (urls.trim_space raw)) (read_starts urls dom raws) st
        (length raws) h (λ r e. read_starts-lengths raws r e)

  -- The starts stand for the start URLs, one by one and in order: each URL without spaces around it
  -- parses as an http or https URL with a host, and its start is that URL, normalised.
  abbrev pub AreStarts : List Text → List Text → Type 0
  AreStarts [] [] = Unit {0}
  AreStarts [] (start ∷ starts) = ⊥
  AreStarts (raw ∷ raws) [] = ⊥
  AreStarts (raw ∷ raws) (start ∷ starts) =
      ((u : Address R) × (urls.parse (urls.trim_space raw) ≡ some u)
        × (is_web u.scheme ≡ true)
        × (is_empty u.host ≡ false)
        × (start ≡ normalize urls dom u))
      × AreStarts raws starts

  add_start-AreStarts :
      (o : Option (Address R)) (p : Option Starts) (st : Starts) (raw : Text) (raws : List Text)
      → urls.parse (urls.trim_space raw) ≡ o
      → add_start urls dom o p ≡ some st
      → ((r : Starts) → p ≡ some r → AreStarts raws r.starts)
      → AreStarts (raw ∷ raws) st.starts
  unfolding add_start
  add_start-AreStarts none p st raw raws parsed h ih = absurd (none-ne-some _ h)
  add_start-AreStarts (some u) none st raw raws parsed h ih = absurd (none-ne-some _ h)
  add_start-AreStarts (some u) (some r) st raw raws parsed h ih =
      elim (Bool-cases (is_web u.scheme && not (is_empty u.host))) [
        | inr e ↦ absurd (none-ne-some _ (rw e at h))
        | inl e ↦
            subst (λ x. AreStarts (raw ∷ raws) x.starts) (some-injective _ st (rw e at h))
              ((u, parsed, ground (arith, e), ground (arith, e), refl), ih r refl)
      ]

  read_starts-AreStarts :
      (raws : List Text) (st : Starts)
      → read_starts urls dom raws ≡ some st
      → AreStarts raws st.starts
  unfolding read_starts
  read_starts-AreStarts [] st h = subst (λ x. AreStarts [] x.starts) (some-injective _ st h) tt
  read_starts-AreStarts (raw ∷ raws) st h =
      add_start-AreStarts (urls.parse (urls.trim_space raw)) (read_starts urls dom raws) st raw raws
        refl h (λ r e. read_starts-AreStarts raws r e)

  render_lem :
      (t : Target) → is_acceptable urls dom t ≡ true → is_render (with_defaults t).render ≡ true
  unfolding is_acceptable with_defaults
  render_lem t h = ground (arith, h)

  max_pages_lem : (t : Target) → pos 1 ≤ℤ (with_defaults t).max_pages
  unfolding with_defaults
  max_pages_lem t = ground arith

  nonempty_starts : (t : Target) → is_acceptable urls dom t ≡ true → 1 ≤ length t.start_urls
  unfolding is_acceptable no_text
  nonempty_starts t h = counted t.start_urls (ground (arith, h))
    where
      counted : (ts : List Text) → no_text ts ≡ false → 1 ≤ length ts
      counted [] e = absurd (ground (arith, e))
      counted (u ∷ us) e = omega arith

  acceptable :
      (t : Target) (s : Scope) → compile urls dom t ≡ some s → is_acceptable urls dom t ≡ true
  unfolding compile
  acceptable t s h = elim (Bool-cases (is_acceptable urls dom t)) [
    | inl e ↦ e
    | inr e ↦ absurd (none-ne-some _ (rw e at h))
  ]

  -- A target that compiles crawls something and is bounded: its starts are its start URLs, normalised,
  -- one by one and in order, each an http or https URL with a host; there is at least one; the limit
  -- on pages is positive, and the fetcher is one of the three known ones.
  pub compile_lem :
      (t : Target) (s : Scope)
      → compile urls dom t ≡ some s
      → AreStarts t.start_urls s.starts
        × (1 ≤ length s.starts)
        × (pos 1 ≤ℤ s.target.max_pages)
        × (is_render s.target.render ≡ true)
  compile_lem t s h =
      let c = compile-Compiled t s h in
      let a = acceptable t s h in
      let (count, hosts) = read_starts-lengths t.start_urls c.read c.ok in
      let kept : length s.starts ≡ length t.start_urls = ap (λ x. length x) c.same_starts ∙ count in
      (
        subst (λ x. AreStarts t.start_urls x) (sym c.same_starts)
            (read_starts-AreStarts t.start_urls c.read c.ok),
        subst (λ k. 1 ≤ k) (sym kept) (nonempty_starts t a),
        subst (λ x. pos 1 ≤ℤ x.max_pages) (sym c.same_target) (max_pages_lem t),
        subst (λ x. is_render x.render ≡ true) (sym c.same_target) (render_lem t a),
      )

  one_host :
      (u : Address R) (st : Starts)
      → add_start urls dom (some u) (some (record { starts = []; hosts = [] })) ≡ some st
      → st.hosts ≡ u.hostname ∷ []
  unfolding add_start
  one_host u st h = elim (Bool-cases (is_web u.scheme && not (is_empty u.host))) [
    | inr e ↦ absurd (none-ne-some _ (rw e at h))
    | inl e ↦ sym (ap (λ x. x.hosts) (some-injective _ st (rw e at h)))
  ]

  outside :
      (s : Scope) (d link : Text) (o : Option (Address R))
      → ((x : Text) → any_upper (urls.to_lower x) ≡ false)
      → any_upper d ≡ true
      → s.domains ≡ d ∷ []
      → follows_address urls dom s link o ≡ false
  unfolding follows_address any_of
  outside s d link none lower upper h = refl
  outside s d link (some u) lower upper h =
      rw (h, in_domain-upper (urls.to_lower u.hostname) d (lower u.hostname) upper) (ground arith)

  -- A target without allowed domains whose start URL has a capital letter in its host follows no
  -- link at all, not even one to its own host: the host of the start URL is kept as it is written,
  -- while the host of a link is compared in lower case.
  pub capital_start_follows_nothing :
      (t : Target) (s : Scope) (raw link : Text) (u : Address R)
      → ((x : Text) → any_upper (urls.to_lower x) ≡ false)
      → compile urls dom t ≡ some s
      → t.allowed_domains ≡ []
      → t.start_urls ≡ raw ∷ []
      → urls.parse (urls.trim_space raw) ≡ some u
      → any_upper u.hostname ≡ true
      → follows urls dom s link ≡ false
  unfolding follows read_starts domains_of no_text
  capital_start_follows_nothing t s raw link u lower h none_allowed one parsed upper =
      let c = compile-Compiled t s h in
      let only : c.read.hosts ≡ u.hostname ∷ [] = one_host u c.read (rw (one, parsed) at c.ok) in
      outside s u.hostname link (urls.parse link) lower upper (
        c.same_domains
        ∙ ap (λ ds. (if no_text ds then c.read.hosts else []) ++ domains_of urls dom ds)
            none_allowed
        ∙ ap (λ hs. hs ++ []) only)
