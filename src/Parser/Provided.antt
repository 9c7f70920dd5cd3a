-- ===== src/Parser/Provided.antt =====
-- internal/parser/json_provider.go: what a result takes from the provider's response.
use serp_harvester.Prelude.{
  ◌≡◌, refl, ap, ◌∙◌, List, [], ◌∷◌, ◌++◌, Text, false, ◌&&◌, if◌then◌else◌, none, some, length,
  map, keep, not, Option, arith, Bool-cases, inl, inr, ◌↔◌, ◌≤◌,
}
use serp_harvester.Robots.{is_empty}
use serp_harvester.Model.{OrganicResult, AiOverview}
use serp_harvester.Parser.{
  ProviderResponse, OrganicEntry, Overview, filled, join_blocks, no_texts, overview_of, organic_of,
  calibration_of, result_of,
}

-- `strings.Join` of texts, with an empty line between two.
unfoldable pub paragraphs : List Text → Text
paragraphs [] = []
paragraphs (t ∷ []) = t
paragraphs (t ∷ u ∷ ts) = t ++ 10 ∷ 10 ∷ paragraphs (u ∷ ts)

-- A text, then the texts of a list, each after an empty line.
unfoldable followed : Text → List Text → Text
followed t [] = t
followed t (u ∷ us) = followed (t ++ 10 ∷ 10 ∷ u) us

append_assoc : (s t u : Text) → (s ++ t) ++ u ≡ s ++ (t ++ u)
append_assoc [] t u = refl
append_assoc (c ∷ s) t u = ap (λ x. c ∷ x) (append_assoc s t u)

is_empty-append : (s t : Text) → is_empty s ≡ false → is_empty (s ++ t) ≡ false
unfolding is_empty
is_empty-append [] t h = cc
is_empty-append (c ∷ s) t h = refl

paragraphs-append :
    (t u : Text) (us : List Text)
    → paragraphs ((t ++ 10 ∷ 10 ∷ u) ∷ us) ≡ t ++ 10 ∷ 10 ∷ paragraphs (u ∷ us)
unfolding paragraphs
paragraphs-append t u [] = refl
paragraphs-append t u (v ∷ us) = append_assoc t (10 ∷ 10 ∷ u) (10 ∷ 10 ∷ paragraphs (v ∷ us))

paragraphs-followed : (t : Text) (us : List Text) → followed t us ≡ paragraphs (t ∷ us)
unfolding followed paragraphs
paragraphs-followed t [] = refl
paragraphs-followed t (u ∷ us) =
    paragraphs-followed (t ++ 10 ∷ 10 ∷ u) us ∙ paragraphs-append t u us

join_blocks-followed :
    (t : Text) (bs : List Text) → is_empty t ≡ false → join_blocks t bs ≡ followed t (filled bs)
unfolding join_blocks followed filled
join_blocks-followed t [] h = refl
join_blocks-followed t (b ∷ bs) h = elim (Bool-cases (is_empty b)) [
  | inl e ↦ rw e (join_blocks-followed t bs h)
  | inr e ↦
      rw (e, h) (join_blocks-followed (t ++ 10 ∷ 10 ∷ b) bs (is_empty-append t (10 ∷ 10 ∷ b) h))
]

join_blocks-paragraphs : (bs : List Text) → join_blocks [] bs ≡ paragraphs (filled bs)
unfolding join_blocks filled paragraphs is_empty
join_blocks-paragraphs [] = refl
join_blocks-paragraphs (b ∷ bs) = elim (Bool-cases (is_empty b)) [
  | inl e ↦ rw e (join_blocks-paragraphs bs)
  | inr e ↦ rw e (join_blocks-followed b bs e ∙ paragraphs-followed b (filled bs))
]

is_empty-join : (bs : List Text) → is_empty (join_blocks [] bs) ≡ no_texts (filled bs)
unfolding join_blocks filled no_texts is_empty
is_empty-join [] = refl
is_empty-join (b ∷ bs) = elim (Bool-cases (is_empty b)) [
  | inl e ↦ rw e (is_empty-join bs)
  | inr e ↦ rw e (kept b bs e)
]
  where
    kept : (t : Text) (cs : List Text) → is_empty t ≡ false → is_empty (join_blocks t cs) ≡ false
    kept t [] h = h
    kept t (c ∷ cs) h = elim (Bool-cases (is_empty c)) [
      | inl e ↦ rw e (kept t cs h)
      | inr e ↦ rw (e, h) (kept (t ++ 10 ∷ 10 ∷ c) cs (is_empty-append t (10 ∷ 10 ∷ c) h))
    ]

-- The texts of a list that are not empty.
abbrev pub nonempty : List Text → List Text
nonempty ts = keep (λ t. not (is_empty t)) ts

filled-nonempty : (ts : List Text) → filled ts ≡ nonempty ts
unfolding filled
filled-nonempty [] = refl
filled-nonempty (t ∷ ts) = ground (arith, filled-nonempty ts)

-- The organic result of an entry.
abbrev pub organic_result : OrganicEntry → OrganicResult
organic_result e = record {
  position = e.position;
  title = e.title;
  url = e.link;
  snippet = e.snippet;
}

organic_of-map : (es : List OrganicEntry) → organic_of es ≡ map organic_result es
unfolding organic_of
organic_of-map [] = refl
organic_of-map (e ∷ es) = ap (λ x. organic_result e ∷ x) (organic_of-map es)

overview_lem :
    (o : Overview)
    → overview_of (some o) ≡ (
        if is_empty o.error
        then if no_texts (filled o.text_blocks) && no_texts (filled o.references)
          then none
          else some
              (record { text = paragraphs (filled o.text_blocks); sources = filled o.references })
        else none)
unfolding overview_of
overview_lem o = rw (is_empty-join o.text_blocks, join_blocks-paragraphs o.text_blocks) refl

-- What a result says of an AI overview, if there is one.
abbrev pub told : Option Overview → Option AiOverview
told none = none
told (some o) =
    if is_empty o.error && not (no_texts (nonempty o.text_blocks ++ nonempty o.references))
    then some
        (record { text = paragraphs (nonempty o.text_blocks); sources = nonempty o.references })
    else none

no_texts-append : (ts us : List Text) → no_texts (ts ++ us) ≡ (no_texts ts && no_texts us)
unfolding no_texts
no_texts-append [] us = refl
no_texts-append (t ∷ ts) us = refl

overview_told : (o : Option Overview) → overview_of o ≡ told o
overview_told none = unfold overview_of in refl
overview_told (some o) =
    overview_lem o
    ∙ rw
        (
          filled-nonempty o.text_blocks,
          filled-nonempty o.references,
          no_texts-append (nonempty o.text_blocks) (nonempty o.references),
        )
        (ground arith)

calibration_lem :
    (es : List OrganicEntry) → (calibration_of (organic_of es) ≡ none) ↔ (1 ≤ length es)
unfolding calibration_of organic_of
calibration_lem [] = ((λ h. cc), (λ h. absurd (omega arith)))
calibration_lem (e ∷ es) = ((λ h. omega arith), (λ h. refl))

-- A parsed response has the organic results of its entries, in order, each with its position, title,
-- link and snippet, and it is flagged for calibration exactly when there is none. The questions are
-- the ones that are not empty. The AI overview is the snippets that are not empty, joined by empty
-- lines, with the links that are not empty; there is none when the provider sends none or reports
-- an error in it, or when both are missing.
pub result_of_lem :
    (query : Text) (raw : ProviderResponse)
    → let r = result_of query raw in
      (r.organic ≡ map organic_result raw.organic_results)
      × ((r.calibration ≡ none) ↔ (1 ≤ length raw.organic_results))
      × (r.people_also_ask ≡ nonempty raw.related_questions)
      × (r.ai_overview ≡ told raw.ai_overview)
unfolding result_of
result_of_lem query raw = (
  organic_of-map raw.organic_results,
  calibration_lem raw.organic_results,
  filled-nonempty raw.related_questions,
  overview_told raw.ai_overview,
)
