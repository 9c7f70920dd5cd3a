-- ===== src/Extract/Order.antt =====
-- internal/extract/extract.go: the note on missing fields, which are found while a map is ranged over.
use serp_harvester.Prelude.{
  ◌≡◌, inl, inr, refl, sym, ap, ◌∙◌, List, [], ◌∷◌, ◌++◌, Text, Bool, true, false, Option, none,
  some, arith, Bool-cases, bytes,
}
use serp_harvester.Model.{ExtractionNote}
use serp_harvester.Extract.{
  Rule, Dom, Value, Spec, text_le, put_in, sort, Gathered, gather_one, gather, apply, note_of,
  page_of, base_of, attribute_of_first, missing_items, items_of,
}

text_le_total : (a b : Text) → text_le a b ≡ false → text_le b a ≡ true
unfolding text_le
text_le_total [] b h = cc
text_le_total (c ∷ a) [] h = refl
text_le_total (c ∷ a) (d ∷ b) h = ground (arith, h, text_le_total a b)

text_le_antisymm : (a b : Text) → text_le a b ≡ true → text_le b a ≡ true → a ≡ b
unfolding text_le
text_le_antisymm [] [] h k = refl
text_le_antisymm [] (d ∷ b) h k = cc
text_le_antisymm (c ∷ a) [] h k = cc
text_le_antisymm (c ∷ a) (d ∷ b) h k = ground (arith, h, k, text_le_antisymm a b)

text_le_trans : (a b c : Text) → text_le a b ≡ true → text_le b c ≡ true → text_le a c ≡ true
unfolding text_le
text_le_trans [] b c h k = refl
text_le_trans (x ∷ a) [] c h k = cc
text_le_trans (x ∷ a) (y ∷ b) [] h k = cc
text_le_trans (x ∷ a) (y ∷ b) (z ∷ c) h k = ground (arith, h, k, text_le_trans a b c)

put_in_comm : (a b : Text) (l : List Text) → put_in a (put_in b l) ≡ put_in b (put_in a l)
unfolding put_in
put_in_comm a b [] = ground (arith, text_le_total a b, text_le_antisymm a b)
put_in_comm a b (c ∷ l) = ground (
  arith,
  text_le_total a b,
  text_le_antisymm a b,
  text_le_total b a,
  text_le_trans a b c,
  text_le_trans b a c,
  text_le_total b c,
  text_le_total a c,
  text_le_trans a c b,
  text_le_trans b c a,
  put_in_comm a b l,
)

-- Two orders in which a map may be ranged over.
pub data Reordered {A : Type 0} : List A → List A → Type 0 where
  done : Reordered [] []
  keep_head : (a : A) {xs ys : List A} → Reordered xs ys → Reordered (a ∷ xs) (a ∷ ys)
  exchange : (a b : A) (xs : List A) → Reordered (a ∷ b ∷ xs) (b ∷ a ∷ xs)
  chain : {xs ys zs : List A} → Reordered xs ys → Reordered ys zs → Reordered xs zs

-- The sorted texts, with the name of a field in front if it is required and not there.
unfoldable put_if : Bool → Text → List Text → List Text
put_if true name ts = put_in name ts
put_if false name ts = ts

put_if_comm :
    (p q : Bool) (a b : Text) (ts : List Text)
    → put_if p a (put_if q b ts) ≡ put_if q b (put_if p a ts)
unfolding put_if
put_if_comm true true a b ts = put_in_comm a b ts
put_if_comm true false a b ts = refl
put_if_comm false q a b ts = refl

sort-append : (xs : List Text) (a : Text) → sort (xs ++ a ∷ []) ≡ put_in a (sort xs)
unfolding sort put_in
sort-append [] a = refl
sort-append (x ∷ xs) a = ap (put_in x) (sort-append xs a) ∙ put_in_comm x a (sort xs)

-- The sorted texts and those of a list.
unfoldable put_all : List Text → List Text → List Text
put_all [] us = us
put_all (t ∷ ts) us = put_in t (put_all ts us)

put_all-put :
    (ts : List Text) (a : Text) (us : List Text)
    → put_in a (put_all ts us) ≡ put_all ts (put_in a us)
unfolding put_all
put_all-put [] a us = refl
put_all-put (t ∷ ts) a us = put_in_comm a t (put_all ts us) ∙ ap (put_in t) (put_all-put ts a us)

put_all-nil : (ts : List Text) → sort ts ≡ put_all ts []
unfolding put_all sort
put_all-nil [] = refl
put_all-nil (t ∷ ts) = ap (put_in t) (put_all-nil ts)

sort-append_all : (xs ts : List Text) → sort (xs ++ ts) ≡ put_all ts (sort xs)
unfolding sort
sort-append_all [] ts = put_all-nil ts
sort-append_all (x ∷ xs) ts = ap (put_in x) (sort-append_all xs ts) ∙ put_all-put ts x (sort xs)

unfoldable of_sorted : List Text → Option ExtractionNote
of_sorted [] = none
of_sorted (t ∷ ts) = some (record { missing = t ∷ ts })

of_sorted-put_in :
    (t : Text) (us : List Text) → of_sorted (put_in t us) ≡ some (record { missing = put_in t us })
unfolding put_in of_sorted
of_sorted-put_in t [] = refl
of_sorted-put_in t (u ∷ us) = elim (Bool-cases (text_le t u)) [
  | inl e ↦ rw e refl
  | inr e ↦ rw e refl
]

module _ {U N : Type 0} (dom : Dom U N) (base : U) (doc : N) where
  unfoldable is_absent : Rule → Option Value → Bool
  is_absent rule none = rule.required
  is_absent rule (some v) = false

  unfoldable lacks : Rule → Bool
  lacks rule = is_absent rule (apply dom base doc rule)

  -- The sorted names that the fields add to `ts`.
  unfoldable absent : List (Text × Rule) → List Text → List Text
  absent [] ts = ts
  absent ((name, rule) ∷ rs) ts = put_if (lacks rule) name (absent rs ts)

  absent-Reordered :
      {xs ys : List (Text × Rule)}
      → Reordered xs ys
      → (ts : List Text) → absent xs ts ≡ absent ys ts
  unfolding absent
  absent-Reordered done ts = refl
  absent-Reordered (keep_head (name, rule) r) ts =
      ap (put_if (lacks rule) name) (absent-Reordered r ts)
  absent-Reordered (exchange (a, p) (b, q) xs) ts =
      put_if_comm (lacks p) (lacks q) a b (absent xs ts)
  absent-Reordered (chain r q) ts = absent-Reordered r ts ∙ absent-Reordered q ts

  absent-put :
      (rs : List (Text × Rule)) (p : Bool) (a : Text) (ts : List Text)
      → absent rs (put_if p a ts) ≡ put_if p a (absent rs ts)
  unfolding absent
  absent-put [] p a ts = refl
  absent-put ((name, rule) ∷ rs) p a ts =
      ap (put_if (lacks rule) name) (absent-put rs p a ts)
      ∙ put_if_comm (lacks rule) p name a (absent rs ts)

  sort-gather_one :
      (name : Text) (rule : Rule) (o : Option Value) (g : Gathered)
      → sort (gather_one dom name rule o g).missing
        ≡ put_if (is_absent rule o) name (sort g.missing)
  unfolding gather_one is_absent put_if
  sort-gather_one name rule (some v) g = refl
  sort-gather_one name rule none g = elim (Bool-cases rule.required) [
    | inl e ↦ rw e (sort-append g.missing name)
    | inr e ↦ rw e refl
  ]

  sort-gather :
      (rs : List (Text × Rule)) (g : Gathered)
      → sort (gather dom base doc rs g).missing ≡ absent rs (sort g.missing)
  unfolding gather absent lacks
  sort-gather [] g = refl
  sort-gather ((name, rule) ∷ rs) g =
      sort-gather rs (gather_one dom name rule (apply dom base doc rule) g)
      ∙ ap (absent rs) (sort-gather_one name rule (apply dom base doc rule) g)
      ∙ absent-put rs (lacks rule) name (sort g.missing)

module _ {U N : Type 0} (dom : Dom U N) where
  note_of-sort : (ts : List Text) → note_of dom ts ≡ of_sorted (sort ts)
  unfolding note_of of_sorted sort
  note_of-sort [] = refl
  note_of-sort (t ∷ ts) = sym (of_sorted-put_in t (sort ts))

  -- The note on the missing fields of a page does not depend on the order in which the map of
  -- fields is ranged over.
  pub page_of-extraction :
      (u : U) (doc : N) (spec : Spec) (fields' : List (Text × Rule))
      → Reordered spec.fields fields'
      → (page_of dom u doc spec).extraction
        ≡ (page_of dom u doc (record spec { fields = fields' })).extraction
  unfolding page_of
  page_of-extraction u doc spec fields' r =
      let base = base_of dom u (attribute_of_first dom doc (bytes "base[href]") (bytes "href")) in
      let empty : Gathered = record { found = []; missing = [] } in
      let xs = (gather dom base doc spec.fields empty).missing in
      let ys = (gather dom base doc fields' empty).missing in
      let ts = missing_items dom spec.items (items_of dom base doc spec.items) in
      let same : sort xs ≡ sort ys =
        sort-gather dom base doc spec.fields empty
        ∙ absent-Reordered dom base doc r (sort [])
        ∙ sym (sort-gather dom base doc fields' empty) in
      note_of-sort (xs ++ ts)
      ∙ ap of_sorted (sort-append_all xs ts ∙ ap (put_all ts) same ∙ sym (sort-append_all ys ts))
      ∙ sym (note_of-sort (ys ++ ts))
