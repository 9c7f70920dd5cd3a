-- ===== src/Model.antt =====
-- internal/model: model.go and page.go, the results of a search and of a crawled page.
use serp_harvester.Prelude.{ℕ, ℤ, List, Option, Text}

pub record OrganicResult : Type 0 where
  pub position : ℤ
  pub title : Text
  pub url : Text
  pub snippet : Text

pub record FeaturedSnippet : Type 0 where
  pub title : Text
  pub url : Text
  pub text : Text

-- `AIOverview`
pub record AiOverview : Type 0 where
  pub text : Text
  pub sources : List Text

pub record CalibrationNote : Type 0 where
  pub missing_blocks : List Text
  pub raw_html_path : Text

-- `SerpResult`; the pointers may be nil.
pub record SerpResult : Type 0 where
  pub query : Text
  pub run_id : Text
  pub locale : Text
  pub device : Text
  pub fetched_at : ℕ
  pub latency_ms : ℤ
  pub proxy_used : Text
  pub ai_overview : Option AiOverview
  pub featured_snippet : Option FeaturedSnippet
  pub people_also_ask : List Text
  pub organic : List OrganicResult
  pub calibration : Option CalibrationNote
  pub raw_body : Text

-- `Heading`, of page.go
pub record Heading : Type 0 where
  pub level : ℤ
  pub text : Text

-- `ExtractionNote`, of page.go
pub record ExtractionNote : Type 0 where
  pub missing : List Text

-- `Page`, of page.go; `V` is what `any` holds, and a JSON-LD block is its bytes.
pub record Page (V : Type 0) : Type 0 where
  pub target : Text
  pub run_id : Text
  pub url : Text
  pub final_url : Text
  pub depth : ℤ
  pub status_code : ℤ
  pub content_type : Text
  pub fetched_at : ℕ
  pub latency_ms : ℤ
  pub proxy_used : Text
  pub title : Text
  pub description : Text
  pub canonical : Text
  pub language : Text
  pub headings : List Heading
  pub open_graph : List (Text × Text)
  pub json_ld : List Text
  pub text : Text
  pub links : List Text
  pub fields : List (Text × V)
  pub items : List (List (Text × V))
  pub extraction : Option ExtractionNote
  pub raw_body : Text
