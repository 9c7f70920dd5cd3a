-- ===== src/Crawl/Target.antt =====
-- internal/crawl/target.go: a target, its validation, and the links that it follows. net/url, regexp,
-- path.Ext and the Unicode functions of strings are the record `Urls`; the selectors are checked by
-- the extraction.
pub mod Domains
use serp_harvester.Prelude.{
  ℕ, List, [], ◌∷◌, ◌++◌, Text, bytes, text_eq, Bool, true, false, not, ◌&&◌, ◌||◌, if◌then◌else◌,
  Option, none, some, ℤ, pos, ltb_ℤ, leb_ℤ,
}
use serp_harvester.Robots.{contains, is_empty}
use serp_harvester.Robots.Matching.{strip_prefix}
use serp_harvester.Extract.{Spec, Rule, Dom, validate}

-- A URL: what its methods Hostname and Port say, and the rest but for the fragment.
pub record Address (R : Type 0) : Type 0 where
  pub scheme : Text
  pub host : Text
  pub hostname : Text
  pub port : Text
  pub path : Text
  pub rest : R

pub record Urls (R : Type 0) : Type 0 where
  pub parse : Text → Option (Address R)
  pub text : Text → Text → Text → R → Text
  pub ext : Text → Text
  pub to_lower : Text → Text
  pub trim_space : Text → Text
  pub compiles : Text → Bool
  pub matches : Text → Text → Bool

-- `Target`
pub record Target : Type 0 where
  pub name : Text
  pub start_urls : List Text
  pub allowed_domains : List Text
  pub max_depth : ℤ
  pub max_pages : ℤ
  pub follow : Text
  pub include : List Text
  pub exclude : List Text
  pub render : Text
  pub wait_selector : Text
  pub extract : Spec
  pub respect_robots : Option Bool
  pub concurrency : ℤ
  pub locale : Text
  pub device : Text

-- `scope`; a compiled expression is its text.
pub record Scope : Type 0 where
  pub target : Target
  pub starts : List Text
  pub domains : List Text
  pub include : List Text
  pub exclude : List Text

-- `DefaultMaxPages`
abbrev pub default_max_pages : ℕ
default_max_pages = 100

-- `skipExtensions`
abbrev pub skip_extensions : List Text
skip_extensions =
    bytes ".7z"
    ∷ bytes ".avi"
    ∷ bytes ".bmp"
    ∷ bytes ".css"
    ∷ bytes ".dmg"
    ∷ bytes ".doc"
    ∷ bytes ".docx"
    ∷ bytes ".eot"
    ∷ bytes ".exe"
    ∷ bytes ".gif"
    ∷ bytes ".gz"
    ∷ bytes ".ico"
    ∷ bytes ".iso"
    ∷ bytes ".jpeg"
    ∷ bytes ".jpg"
    ∷ bytes ".js"
    ∷ bytes ".m4a"
    ∷ bytes ".mov"
    ∷ bytes ".mp3"
    ∷ bytes ".mp4"
    ∷ bytes ".pdf"
    ∷ bytes ".png"
    ∷ bytes ".ppt"
    ∷ bytes ".pptx"
    ∷ bytes ".rar"
    ∷ bytes ".svg"
    ∷ bytes ".tar"
    ∷ bytes ".tgz"
    ∷ bytes ".ttf"
    ∷ bytes ".wav"
    ∷ bytes ".webm"
    ∷ bytes ".webp"
    ∷ bytes ".woff"
    ∷ bytes ".woff2"
    ∷ bytes ".xls"
    ∷ bytes ".xlsx"
    ∷ bytes ".zip"
    ∷ []

unfoldable pub any_of : (Text → Bool) → List Text → Bool
any_of p [] = false
any_of p (t ∷ ts) = p t || any_of p ts

unfoldable pub no_text : List Text → Bool
no_text [] = true
no_text (t ∷ ts) = false

-- `strings.HasSuffix(s, suffix)`
unfoldable pub has_suffix : Text → Text → Bool
has_suffix [] suffix = is_empty suffix
has_suffix (c ∷ s) suffix = text_eq (c ∷ s) suffix || has_suffix s suffix

-- `strings.TrimPrefix(s, ".")`
unfoldable pub trim_dot : Text → Text
trim_dot s = elim (strip_prefix (bytes ".") s) [ none ↦ s | some rest ↦ rest ]

unfoldable pub is_web : Text → Bool
is_web scheme = text_eq scheme (bytes "http") || text_eq scheme (bytes "https")

unfoldable pub is_render : Text → Bool
is_render r = text_eq r (bytes "http") || text_eq r (bytes "browser") || text_eq r (bytes "auto")

unfoldable pub default_render : Text → Text
default_render r = if is_empty r then bytes "http" else r

-- The defaults that `compile` sets.
unfoldable pub with_defaults : Target → Target
with_defaults t = record t {
  render = default_render t.render;
  max_pages = if leb_ℤ t.max_pages (pos 0) then pos default_max_pages else t.max_pages;
  follow = if is_empty t.follow then bytes "a[href]" else t.follow;
  respect_robots = elim t.respect_robots [ none ↦ some true | some b ↦ some b ];
}

-- The specification that checks the selector of the links.
unfoldable pub follow_spec : Text → Spec
follow_spec follow = record {
  fields =
      (bytes "follow", record { selector = follow; attr = []; all = false; required = false }) ∷ [];
  items = none;
  text_limit = pos 0;
  skip_links = false;
}

-- What the start URLs add: the starts, and their host names.
pub record Starts : Type 0 where
  pub starts : List Text
  pub hosts : List Text

module _ {R U N : Type 0} (urls : Urls R) (dom : Dom U N) where
  unfoldable pub bracketed : Text → Text
  bracketed host = if contains host (bytes ":") then bytes "[" ++ host ++ bytes "]" else host

  unfoldable pub is_default_port : Text → Text → Bool
  is_default_port scheme port =
      (text_eq scheme (bytes "http") && text_eq port (bytes "80"))
      || (text_eq scheme (bytes "https") && text_eq port (bytes "443"))

  unfoldable pub with_port : Text → Text → Text → Text
  with_port scheme port host =
      if is_empty port || is_default_port scheme port then host else host ++ bytes ":" ++ port

  -- `normalize`
  unfoldable pub normalize : Address R → Text
  normalize u =
      let scheme = urls.to_lower u.scheme in
      urls.text scheme (with_port scheme u.port (bracketed (urls.to_lower u.hostname)))
        (if is_empty u.path then bytes "/" else u.path) u.rest

  unfoldable pub add_start : Option (Address R) → Option Starts → Option Starts
  add_start none rest = none
  add_start (some u) none = none
  add_start (some u) (some rest) =
      if is_web u.scheme && not (is_empty u.host)
      then some (record { starts = normalize u ∷ rest.starts; hosts = u.hostname ∷ rest.hosts })
      else none

  -- The loop over the start URLs; `none` is an error.
  unfoldable pub read_starts : List Text → Option Starts
  read_starts [] = some (record { starts = []; hosts = [] })
  read_starts (raw ∷ raws) = add_start (urls.parse (urls.trim_space raw)) (read_starts raws)

  unfoldable pub domain_of : Text → Text
  domain_of d = urls.to_lower (trim_dot (urls.trim_space d))

  unfoldable pub domains_of : List Text → List Text
  domains_of [] = []
  domains_of (d ∷ ds) = domain_of d ∷ domains_of ds

  unfoldable pub all_compile : List Text → Bool
  all_compile [] = true
  all_compile (e ∷ es) = urls.compiles e && all_compile es

  unfoldable pub scope_of : Target → Option Starts → Option Scope
  scope_of t none = none
  scope_of t (some s) =
      if all_compile t.include && all_compile t.exclude
      then some (record {
        target = t;
        starts = s.starts;
        domains =
            (if no_text t.allowed_domains then s.hosts else []) ++ domains_of t.allowed_domains;
        include = t.include;
        exclude = t.exclude;
      })
      else none

  unfoldable pub is_acceptable : Target → Bool
  is_acceptable t =
      not (is_empty t.name)
      && not (no_text t.start_urls)
      && not (ltb_ℤ t.max_depth (pos 0))
      && is_render (default_render t.render)
      && validate dom t.extract
      && validate dom (follow_spec (with_defaults t).follow)

  -- `compile`; `none` is an error.
  unfoldable pub compile : Target → Option Scope
  compile t =
      if is_acceptable t then scope_of (with_defaults t) (read_starts t.start_urls) else none

  unfoldable pub in_domain : Text → Text → Bool
  in_domain host d = text_eq host d || has_suffix host (bytes "." ++ d)

  unfoldable pub follows_address : Scope → Text → Option (Address R) → Bool
  follows_address s raw none = false
  follows_address s raw (some u) =
      is_web u.scheme
      && not (any_of (text_eq (urls.to_lower (urls.ext u.path))) skip_extensions)
      && any_of (in_domain (urls.to_lower u.hostname)) s.domains
      && (no_text s.include || any_of (λ e. urls.matches e raw) s.include)
      && not (any_of (λ e. urls.matches e raw) s.exclude)

  -- `follows`
  unfoldable pub follows : Scope → Text → Bool
  follows s raw = follows_address s raw (urls.parse raw)
