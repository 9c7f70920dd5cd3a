-- ===== src/Extract.antt =====
-- internal/extract/extract.go: the data of a page. goquery, cascadia, net/url, encoding/json and the
-- Unicode functions of strings are the record `Dom`; a map with the rules is a list in the order in
-- which it is ranged over.
pub mod Cut
pub mod Gathering
pub mod Order
use serp_harvester.Prelude.{
  ℕ, suc, zero, ◌+◌, ◌-◌, ◌==◌, ltb, leb, List, [], ◌∷◌, ◌++◌, map, Text, bytes, text_eq, Bool,
  true, false, not, ◌&&◌, ◌||◌, if◌then◌else◌, Option, none, some, ℤ, pos, ltb_ℤ, pos_part, length,
  take, get_elem?, lookup, insert, keep,
}
use serp_harvester.Robots.{contains, is_empty}
use serp_harvester.Model.{Page, Heading, ExtractionNote}

-- `Rule`
pub record Rule : Type 0 where
  pub selector : Text
  pub attr : Text
  pub all : Bool
  pub required : Bool

-- `ItemsSpec`
pub record ItemsSpec : Type 0 where
  pub selector : Text
  pub fields : List (Text × Rule)
  pub required : Bool

-- `Spec`
pub record Spec : Type 0 where
  pub fields : List (Text × Rule)
  pub items : Option ItemsSpec
  pub text_limit : ℤ
  pub skip_links : Bool

-- `DefaultTextLimit`
abbrev pub default_text_limit : ℕ
default_text_limit = 65536

-- A URL is a `U`, a selection of one node an `N`; `follow` is `base.Parse`. `visible_text` is the
-- text of the body without scripts and other elements that are not rendered, its fields joined by
-- single spaces, as `clean` joins them.
pub record Dom (U N : Type 0) : Type 0 where
  pub parse_url : Text → Option U
  pub follow : U → Text → Option U
  pub url_text : U → Text
  pub scheme : U → Text
  pub without_fragment : U → U
  pub document : Text → Option N
  pub find : N → Text → List N
  pub attribute : N → Text → Option Text
  pub text : N → Text
  pub inner_html : N → Option Text
  pub heading_level : N → ℤ
  pub visible_text : N → Text
  pub json_valid : Text → Bool
  pub clean : Text → Text
  pub trim_space : Text → Text
  pub to_lower : Text → Text
  pub compiles : Text → Bool

-- What a field holds: a text, or the texts of all matches.
pub data Value : Type 0 where
  single : Text → Value
  several : List Text → Value

-- A continuation byte of UTF-8.
unfoldable pub is_continuation : Option ℕ → Bool
is_continuation none = false
is_continuation (some c) = leb 128 c && ltb c 192

-- The loop of `truncateUTF8`.
unfoldable pub boundary : Text → ℕ → ℕ
boundary s zero = zero
boundary s (suc n) =
    let lower = boundary s n in if is_continuation (get_elem? s (suc n)) then lower else suc n

-- `truncateUTF8`
unfoldable pub truncate_utf8 : Text → ℕ → Text
truncate_utf8 s n = if leb (length s) n then s else take (boundary s n) s

-- The order of `sort.Strings`.
unfoldable pub text_le : Text → Text → Bool
text_le [] t = true
text_le (c ∷ s) [] = false
text_le (c ∷ s) (d ∷ t) = let rest = text_le s t in if c == d then rest else ltb c d

unfoldable pub put_in : Text → List Text → List Text
put_in t [] = t ∷ []
put_in t (u ∷ us) = let rest = put_in t us in if text_le t u then t ∷ u ∷ us else u ∷ rest

-- `sort.Strings`
unfoldable pub sort : List Text → List Text
sort [] = []
sort (t ∷ ts) = put_in t (sort ts)

unfoldable pub has_text : Text → List Text → Bool
has_text t [] = false
has_text t (u ∷ us) = text_eq u t || has_text t us

unfoldable pub first_of : {A : Type 0} → List A → Option A
first_of [] = none
first_of (a ∷ xs) = some a

unfoldable pub cons_some : {A : Type 0} → Option A → List A → List A
cons_some none xs = xs
cons_some (some a) xs = a ∷ xs

-- The text limit of a specification; `none` omits the text.
unfoldable pub limit_of : ℤ → Option ℕ
limit_of limit =
    if ltb_ℤ limit (pos 0)
    then none
    else if pos_part limit == 0
    then some default_text_limit
    else some (pos_part limit)

unfoldable pub nonempty : Text → Option Text
nonempty t = if is_empty t then none else some t

-- What the loop over the fields sets.
pub record Gathered : Type 0 where
  pub found : List (Text × Value)
  pub missing : List Text

module _ {U N : Type 0} (dom : Dom U N) where
  -- The check of `Validate` on one selector; `false` is an error.
  unfoldable pub check : Text → Bool
  check selector = not (is_empty (dom.trim_space selector)) && dom.compiles selector

  unfoldable pub check_fields : List (Text × Rule) → Bool
  check_fields [] = true
  check_fields ((name, r) ∷ rs) = check r.selector && check_fields rs

  -- `Validate`; `false` is an error.
  unfoldable pub validate : Spec → Bool
  validate s =
      check_fields s.fields
      && (elim s.items [ none ↦ true | some it ↦ check it.selector && check_fields it.fields ])

  -- `resolve`
  unfoldable pub resolve : U → Text → Text
  resolve base ref = elim (dom.follow base (dom.trim_space ref)) [
    | none ↦ ref
    | some u ↦ dom.url_text u
  ]

  unfoldable pub is_url_attribute : Text → Bool
  is_url_attribute a =
      text_eq a (bytes "href") || text_eq a (bytes "src") || text_eq a (bytes "action")

  unfoldable pub read_attribute : U → Text → Option Text → Option Text
  read_attribute base a none = none
  read_attribute base a (some v) =
      let v' = dom.trim_space v in nonempty (if is_url_attribute a then resolve base v' else v')

  unfoldable pub read_html : Option Text → Option Text
  read_html none = none
  read_html (some v) = nonempty (dom.trim_space v)

  -- `read`; `none` is not ok.
  unfoldable pub read : U → N → Text → Option Text
  read base m attr =
      let a = dom.to_lower attr in
      if is_empty a || text_eq a (bytes "text")
      then nonempty (dom.clean (dom.text m))
      else if text_eq a (bytes "html")
      then read_html (dom.inner_html m)
      else read_attribute base a (dom.attribute m attr)

  -- The loop of `apply`: it ends after the first match unless the rule takes all.
  unfoldable pub read_matches : U → Rule → List N → List Text
  read_matches base rule [] = []
  read_matches base rule (m ∷ ms) =
      let rest = read_matches base rule ms in
      cons_some (read base m rule.attr) (if rule.all then rest else [])

  unfoldable pub value_of : Bool → List Text → Option Value
  value_of all [] = none
  value_of true (v ∷ vs) = some (several (v ∷ vs))
  value_of false (v ∷ vs) = some (single v)

  -- `apply`; `none` is not ok.
  unfoldable pub apply : U → N → Rule → Option Value
  apply base s rule = value_of rule.all (read_matches base rule (dom.find s rule.selector))

  -- The URL of a link, if it is one to follow.
  unfoldable pub link_of_url : Option U → Option Text
  link_of_url none = none
  link_of_url (some u) =
      if text_eq (dom.scheme u) (bytes "http") || text_eq (dom.scheme u) (bytes "https")
      then some (dom.url_text (dom.without_fragment u))
      else none

  unfoldable pub link_of_href : U → Option Text → Option Text
  link_of_href base none = none
  link_of_href base (some href) = link_of_url (dom.follow base (dom.trim_space href))

  unfoldable pub text_or_empty : Option Text → Text
  text_or_empty none = []
  text_or_empty (some t) = t

  unfoldable pub link_of : U → N → Option Text
  link_of base s =
      if contains (dom.to_lower (text_or_empty (dom.attribute s (bytes "rel")))) (bytes "nofollow")
      then none
      else link_of_href base (dom.attribute s (bytes "href"))

  unfoldable pub add_link : Option Text → List Text → List Text
  add_link none out = out
  add_link (some l) out = if has_text l out then out else out ++ l ∷ []

  -- The loop of `Links`; the keys of `seen` are the elements of `out`.
  unfoldable pub links_from : U → List N → List Text → List Text
  links_from base [] out = out
  links_from base (s ∷ ss) out = links_from base ss (add_link (link_of base s) out)

  -- `Links`
  unfoldable pub links : U → N → Text → List Text
  links base doc selector = links_from base (dom.find doc selector) []

  unfoldable pub add_heading : Text → ℤ → List Heading → List Heading
  add_heading text level hs =
      if is_empty text then hs else record { level = level; text = text } ∷ hs

  unfoldable pub headings_of : List N → List Heading
  headings_of [] = []
  headings_of (s ∷ ss) = add_heading (dom.clean (dom.text s)) (dom.heading_level s) (headings_of ss)

  unfoldable pub add_property : Text → Option Text → List (Text × Text) → List (Text × Text)
  add_property prop none og = og
  add_property prop (some content) og = elim (lookup prop og) [
    | none ↦ og ++ (prop, dom.trim_space content) ∷ []
    | some v ↦ og
  ]

  unfoldable pub open_graph_from : List N → List (Text × Text) → List (Text × Text)
  open_graph_from [] og = og
  open_graph_from (s ∷ ss) og = open_graph_from ss (
      add_property (text_or_empty (dom.attribute s (bytes "property")))
        (dom.attribute s (bytes "content")) og)

  unfoldable pub json_ld_of : List N → List Text
  json_ld_of [] = []
  json_ld_of (s ∷ ss) =
      let raw = dom.trim_space (dom.text s) in
      let rest = json_ld_of ss in if dom.json_valid raw then raw ∷ rest else rest

  unfoldable pub gather_one : Text → Rule → Option Value → Gathered → Gathered
  gather_one name rule none g =
      if rule.required then record g { missing = g.missing ++ name ∷ [] } else g
  gather_one name rule (some v) g = record g { found = insert name v g.found }

  unfoldable pub gather : U → N → List (Text × Rule) → Gathered → Gathered
  gather base doc [] g = g
  gather base doc ((name, rule) ∷ rs) g =
      gather base doc rs (gather_one name rule (apply base doc rule) g)

  unfoldable pub add_field : Text → Option Value → List (Text × Value) → List (Text × Value)
  add_field name none item = item
  add_field name (some v) item = insert name v item

  unfoldable pub item_of : U → N → List (Text × Rule) → List (Text × Value) → List (Text × Value)
  item_of base s [] item = item
  item_of base s ((name, rule) ∷ rs) item =
      item_of base s rs (add_field name (apply base s rule) item)

  unfoldable pub add_item :
      List (Text × Value) → List (List (Text × Value)) → List (List (Text × Value))
  add_item [] items = items
  add_item (f ∷ fs) items = (f ∷ fs) ∷ items

  unfoldable pub items_from : U → List (Text × Rule) → List N → List (List (Text × Value))
  items_from base fields [] = []
  items_from base fields (s ∷ ss) = add_item (item_of base s fields []) (items_from base fields ss)

  unfoldable pub items_of : U → N → Option ItemsSpec → List (List (Text × Value))
  items_of base doc none = []
  items_of base doc (some it) = items_from base it.fields (dom.find doc it.selector)

  unfoldable pub no_items : List (List (Text × Value)) → Bool
  no_items [] = true
  no_items (i ∷ rest) = false

  unfoldable pub missing_items : Option ItemsSpec → List (List (Text × Value)) → List Text
  missing_items none items = []
  missing_items (some it) items = if it.required && no_items items then bytes "items" ∷ [] else []

  -- `p.Extraction`
  unfoldable pub note_of : List Text → Option ExtractionNote
  note_of [] = none
  note_of (t ∷ ts) = some (record { missing = sort (t ∷ ts) })

  unfoldable pub attribute_of_first : N → Text → Text → Option Text
  attribute_of_first doc selector attr = elim (first_of (dom.find doc selector)) [
    | none ↦ none
    | some s ↦ dom.attribute s attr
  ]

  unfoldable pub text_of_first : N → Text → Text
  text_of_first doc selector = elim (first_of (dom.find doc selector)) [
    | none ↦ []
    | some s ↦ dom.text s
  ]

  -- The base of the page's URLs, with its <base href>.
  unfoldable pub base_of : U → Option Text → U
  base_of base none = base
  base_of base (some href) = elim (dom.follow base (dom.trim_space href)) [
    | none ↦ base
    | some b ↦ b
  ]

  -- `metaContent`
  unfoldable pub meta_content : N → Text → Text
  meta_content doc selector =
      dom.trim_space (text_or_empty (attribute_of_first doc selector (bytes "content")))

  unfoldable pub text_of : N → Option ℕ → Text
  text_of doc none = []
  text_of doc (some limit) = truncate_utf8 (dom.visible_text doc) limit

  -- `Page`, from the URL and the document on.
  unfoldable pub page_of : U → N → Spec → Page Value
  page_of page_base doc spec =
      let base = base_of page_base (attribute_of_first doc (bytes "base[href]") (bytes "href")) in
      let g = gather base doc spec.fields (record { found = []; missing = [] }) in
      let items = items_of base doc spec.items in
      record {
        target = [];
        run_id = [];
        url = [];
        final_url = [];
        depth = pos 0;
        status_code = pos 0;
        content_type = [];
        fetched_at = 0;
        latency_ms = pos 0;
        proxy_used = [];
        title = dom.clean (text_of_first doc (bytes "title"));
        description = meta_content doc (bytes "meta[name=\"description\" i]");
        canonical =
            elim (attribute_of_first doc (bytes "link[rel=\"canonical\" i]") (bytes "href")) [
              | none ↦ []
              | some href ↦ resolve base href
            ];
        language =
            dom.trim_space (text_or_empty (attribute_of_first doc (bytes "html") (bytes "lang")));
        headings = headings_of (dom.find doc (bytes "h1, h2, h3"));
        open_graph = open_graph_from (dom.find doc (bytes "meta[property^=\"og:\"]")) [];
        json_ld = json_ld_of (dom.find doc (bytes "script[type=\"application/ld+json\" i]"));
        text = text_of doc (limit_of spec.text_limit);
        links = if spec.skip_links then [] else links base doc (bytes "a[href]");
        fields = g.found;
        items = items;
        extraction = note_of (g.missing ++ missing_items spec.items items);
        raw_body = [];
      }

  unfoldable pub page_of_document : Spec → Option U → Option N → Option (Page Value)
  page_of_document spec (some u) (some doc) = some (page_of u doc spec)
  page_of_document spec u doc = none

  -- `Page`; `none` is an error.
  unfoldable pub page : Text → Text → Spec → Option (Page Value)
  page page_url html spec = page_of_document spec (dom.parse_url page_url) (dom.document html)
