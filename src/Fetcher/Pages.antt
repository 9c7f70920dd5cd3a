-- ===== src/Fetcher/Pages.antt =====
-- internal/fetcher/classify.go: which page an answer is, and the error for a page that holds no
-- results. The HTML parser, the URL parser and the regular expressions are parameters.
use serp_harvester.Prelude.{
  ℕ, ◌+◌, ◌==◌, ltb, leb, List, [], ◌∷◌, Text, bytes, text_eq, Bool, true, false, ◌&&◌, ◌||◌,
  if◌then◌else◌, Option, none, some, length, take,
}
use serp_harvester.Robots.{contains, is_empty}
use serp_harvester.Robots.Matching.{strip_prefix}
use serp_harvester.Fetcher.{Error, blocked_error}

-- `pageKind`
pub data PageKind : Type 0 where
  normal consent captcha interstitial challenge : PageKind

-- `net/url`: the path and the host name of a URL that parses.
pub record Url : Type 0 where
  pub path : Text
  pub hostname : Text

-- What the page checks use of goquery, net/url, regexp and strings. `count d s` is
-- `Find(s).Length()`; `script_types` lists the `type` of each script, "" when it has none;
-- `visible_text` is the text of the body without scripts, styles and templates, its fields joined
-- by single spaces.
pub record Html (D : Type 0) : Type 0 where
  pub parse_url : Text → Option Url
  pub document : Text → Option D
  pub count : D → Text → ℕ
  pub title : D → Text
  pub script_types : D → List Text
  pub visible_text : D → Text
  pub noscripts : Text → List Text
  pub refreshes : Text → Bool
  pub trim_space : Text → Text
  pub to_lower : Text → Text

-- `strings.HasPrefix(s, prefix)`
unfoldable pub has_prefix : Text → Text → Bool
has_prefix s prefix = elim (strip_prefix prefix s) [ none ↦ false | some rest ↦ true ]

-- A letter A to Z in lower case. No other character lowers to a letter of "html", nor folds to one
-- of "GET".
unfoldable pub lower_char : ℕ → ℕ
lower_char c = if leb 65 c && leb c 90 then c + 32 else c

unfoldable pub lower_ascii : Text → Text
lower_ascii [] = []
lower_ascii (c ∷ s) = lower_char c ∷ lower_ascii s

-- `isHTML`
unfoldable pub is_html : Text → Bool
is_html content_type =
    let ct = lower_ascii content_type in is_empty ct || contains ct (bytes "html")

-- `truncate`
unfoldable pub truncate : Text → ℕ → Text
truncate s n = if leb (length s) n then s else take n s

abbrev pub max_blocked_body : ℕ
max_blocked_body = 262144

unfoldable pub blocked_reason : PageKind → Option Text
blocked_reason captcha = some (bytes "captcha")
blocked_reason consent = some (bytes "consent")
blocked_reason interstitial = some (bytes "interstitial")
blocked_reason challenge = some (bytes "challenge")
blocked_reason normal = none

-- `blockedErrorFor`
unfoldable pub blocked_error_for : PageKind → Text → ℕ → Text → Option Error
blocked_error_for kind page_url status body = elim (blocked_reason kind) [
  | none ↦ none
  | some reason ↦ some (record {
    outer = blocked_error reason page_url status (truncate body max_blocked_body);
    inner = [];
  })
]

-- `minShellText`
abbrev pub min_shell_text : ℕ
min_shell_text = 200

unfoldable pub is_executable : Text → Bool
is_executable t =
    is_empty t
    || text_eq t (bytes "module")
    || text_eq t (bytes "text/javascript")
    || text_eq t (bytes "application/javascript")
    || text_eq t (bytes "text/ecmascript")
    || text_eq t (bytes "application/ecmascript")

unfoldable pub any_text : (Text → Bool) → List Text → Bool
any_text p [] = false
any_text p (t ∷ ts) = p t || any_text p ts

module _ {D : Type 0} (lib : Html D) where
  unfoldable pub has_any : D → Text → Bool
  has_any d selector = ltb 0 (lib.count d selector)

  -- The tests of `classifyPage` on the URL.
  unfoldable pub kind_of_path : Option Url → Option PageKind
  kind_of_path none = none
  kind_of_path (some u) =
      if contains u.path (bytes "/sorry/")
      then some captcha
      else if contains u.path (bytes "/httpservice/retry/enablejs")
      then some interstitial
      else none

  unfoldable pub on_consent_host : Option Url → Bool
  on_consent_host none = false
  on_consent_host (some u) = has_prefix u.hostname (bytes "consent.")

  -- The tests of `classifyPage` on the document.
  unfoldable pub kind_of_document : Option Url → Option D → PageKind
  kind_of_document u none = normal
  kind_of_document u (some d) =
      if has_any d (
        bytes
          "#captcha-form, form[action*=\"/sorry/\"], .g-recaptcha, #recaptcha, iframe[src*=\"recaptcha\"]")
      then captcha
      else if on_consent_host u
          || has_any d (bytes "form[action*=\"consent\"], input[name=\"set_eom\"]")
      then consent
      else normal

  -- `classifyPage`
  unfoldable pub classify_page : Text → Text → PageKind
  classify_page page_url html =
      let u = lib.parse_url page_url in
      elim (kind_of_path u) [ some kind ↦ kind | none ↦ kind_of_document u (lib.document html) ]

  -- `requiresJS`
  unfoldable pub requires_js : Text → Bool
  requires_js raw_html =
      any_text (λ m. lib.refreshes m && contains m (bytes "/httpservice/retry/enablejs"))
        (lib.noscripts raw_html)

  unfoldable pub on_challenge_path : Option Url → Bool
  on_challenge_path none = false
  on_challenge_path (some u) = contains u.path (bytes "/cdn-cgi/challenge-platform/")

  unfoldable pub is_challenge : ℕ → D → Bool
  is_challenge status d =
      has_any d (
        bytes
          "#challenge-form, #challenge-running, #challenge-stage, #cf-challenge-running, form[action*=\"__cf_chl\"]")
      || ((status == 403 || status == 503)
          && has_prefix (lib.trim_space (lib.title d)) (bytes "Just a moment"))
      || has_any d (bytes "iframe[src*=\"captcha-delivery.com\"], #px-captcha")

  unfoldable pub generic_kind_of_document : ℕ → Option D → PageKind
  generic_kind_of_document status none = normal
  generic_kind_of_document status (some d) =
      if is_challenge status d
      then challenge
      else if leb 400 status
          && has_any d (
              bytes
                ".g-recaptcha, iframe[src*=\"recaptcha\"], .h-captcha, iframe[src*=\"hcaptcha.com\"], .cf-turnstile, iframe[src*=\"challenges.cloudflare.com\"]")
      then captcha
      else normal

  -- `classifyGenericPage`
  unfoldable pub classify_generic_page : Text → ℕ → Text → PageKind
  classify_generic_page page_url status html =
      if on_challenge_path (lib.parse_url page_url)
      then challenge
      else generic_kind_of_document status (lib.document html)

  -- `looksLikeJSShell`, on the document.
  unfoldable pub is_shell : Option D → Bool
  is_shell none = false
  is_shell (some d) =
      any_text (λ t. is_executable (lib.to_lower (lib.trim_space t))) (lib.script_types d)
      && ltb (length (lib.visible_text d)) min_shell_text

  unfoldable pub looks_like_js_shell : Text → Bool
  looks_like_js_shell raw_html = is_shell (lib.document raw_html)
