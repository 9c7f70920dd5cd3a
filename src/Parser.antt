-- ===== src/Parser.antt =====
-- internal/parser: json_provider.go, the result of a provider's decoded response. `json.Unmarshal` is
-- a parameter.
pub mod Provided
use serp_harvester.Prelude.{
  ℕ, List, [], ◌∷◌, ◌++◌, Text, bytes, Bool, true, false, ◌&&◌, if◌then◌else◌, Option, none, some,
  ℤ, pos,
}
use serp_harvester.Robots.{is_empty}
use serp_harvester.Fetcher.{Error, wrap}
use serp_harvester.Model.{SerpResult, OrganicResult, FeaturedSnippet, AiOverview, CalibrationNote}
use serp_harvester.Worker.Process.{Parsed, parsed, parse_error}

pub record OrganicEntry : Type 0 where
  pub position : ℤ
  pub title : Text
  pub link : Text
  pub snippet : Text

pub record AnswerBox : Type 0 where
  pub title : Text
  pub link : Text
  pub snippet : Text

-- The snippets of the text blocks, the links of the references, and the error.
pub record Overview : Type 0 where
  pub text_blocks : List Text
  pub references : List Text
  pub error : Text

-- `providerResponse`; a related question is its text.
pub record ProviderResponse : Type 0 where
  pub organic_results : List OrganicEntry
  pub related_questions : List Text
  pub answer_box : Option AnswerBox
  pub ai_overview : Option Overview

-- The texts that are not empty, in order.
unfoldable pub filled : List Text → List Text
filled [] = []
filled (t ∷ ts) = let rest = filled ts in if is_empty t then rest else t ∷ rest

-- The loop over the text blocks, with the text so far.
unfoldable pub join_blocks : Text → List Text → Text
join_blocks text [] = text
join_blocks text (b ∷ bs) =
    let skipped = join_blocks text bs in
    let first = join_blocks b bs in
    let added = join_blocks (text ++ 10 ∷ 10 ∷ b) bs in
    if is_empty b then skipped else if is_empty text then first else added

unfoldable pub no_texts : List Text → Bool
no_texts [] = true
no_texts (t ∷ ts) = false

unfoldable pub overview_of : Option Overview → Option AiOverview
overview_of none = none
overview_of (some o) =
    let text = join_blocks [] o.text_blocks in
    let sources = filled o.references in
    if is_empty o.error
    then if is_empty text && no_texts sources
      then none
      else some (record { text = text; sources = sources })
    else none

unfoldable pub snippet_of : Option AnswerBox → Option FeaturedSnippet
snippet_of none = none
snippet_of (some b) = some (record { title = b.title; url = b.link; text = b.snippet })

unfoldable pub organic_of : List OrganicEntry → List OrganicResult
organic_of [] = []
organic_of (e ∷ es) =
    record { position = e.position; title = e.title; url = e.link; snippet = e.snippet }
    ∷ organic_of es

unfoldable pub calibration_of : List OrganicResult → Option CalibrationNote
calibration_of [] =
    some (record { missing_blocks = bytes "organic_results" ∷ []; raw_html_path = [] })
calibration_of (o ∷ os) = none

unfoldable pub result_of : Text → ProviderResponse → SerpResult
result_of query raw = record {
  query = query;
  run_id = [];
  locale = [];
  device = [];
  fetched_at = 0;
  latency_ms = pos 0;
  proxy_used = [];
  ai_overview = overview_of raw.ai_overview;
  featured_snippet = snippet_of raw.answer_box;
  people_also_ask = filled raw.related_questions;
  organic = organic_of raw.organic_results;
  calibration = calibration_of (organic_of raw.organic_results);
  raw_body = [];
}

-- The result of `json.Unmarshal` into a `providerResponse`.
pub data Decoded : Type 0 where
  decoded : ProviderResponse → Decoded
  invalid : Error → Decoded

unfoldable pub of_decoded : Text → Decoded → Parsed
of_decoded query (invalid e) =
    parse_error (wrap (bytes "json parser: decode provider response: ") e)
of_decoded query (decoded raw) = parsed (result_of query raw)

-- `(*JSONParser).Parse`
unfoldable pub parse_json : (Text → Decoded) → Text → Text → Parsed
parse_json decode query body = of_decoded query (decode body)
