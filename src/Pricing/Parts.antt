-- ===== src/Pricing/Parts.antt =====
-- The parts between the dashes of a location, as `CanonicalRegion` reads them.
use tellury.Base.{
  if_ind, letter_eq, String, true, ◌==◌, ◌≡◌, refl, sym, ap, ◌∙◌, List, [], ◌∷◌, ◌++◌, false, arith,
  if◌then◌else◌, ◌<>◌, Bool-cases, inl, inr,
}
use Prim.Native.Char.{Char, code}
use text.Mathlib.TextLemmas.{nil-append, cons-append}
use tellury.Pricing.Region.{
  split_dash, join_dash, but_last, last_part, drop_letter, flatten, is_aws_zone_suffix,
  is_gcp_single_letter,
}

dash_of_code : (c : Char) → (code c == 45) ≡ true → String.◌∷◌ c "" ≡ "-"
dash_of_code c h = letter_eq c _ (ground arith)

join_dash-dash :
    (c : Char) (p : String) (ps : List String)
    → (code c == 45) ≡ true
    → join_dash ("" ∷ p ∷ ps) ≡ String.◌∷◌ c (join_dash (p ∷ ps))
unfolding join_dash
join_dash-dash c p ps h =
    let rest = join_dash (p ∷ ps) in
    nil-append ("-" <> rest)
    ∙ ap (λ t. t <> rest) (sym (dash_of_code c h))
    ∙ cons-append c "" rest
    ∙ ap (λ t. String.◌∷◌ c t) (nil-append rest)

join_dash-letter :
    (c : Char) (p : String) (ps : List String)
    → join_dash (String.◌∷◌ c p ∷ ps) ≡ String.◌∷◌ c (join_dash (p ∷ ps))
unfolding join_dash
join_dash-letter c p [] = refl
join_dash-letter c p (r ∷ ps) = cons-append c p ("-" <> join_dash (r ∷ ps))

-- One more letter in front.
split_more : Char → List String → List String
split_more c [] = String.◌∷◌ c String.[] ∷ []
split_more c (p ∷ ps) = if code c == 45 then "" ∷ p ∷ ps else String.◌∷◌ c p ∷ ps

join_dash-split_more :
    (c : Char) (l : List String) → join_dash (split_more c l) ≡ String.◌∷◌ c (join_dash l)
unfolding split_more join_dash
join_dash-split_more c [] = refl
join_dash-split_more c (p ∷ ps) =
    if_ind (λ l. join_dash l ≡ String.◌∷◌ c (join_dash (p ∷ ps))) (code c == 45)
      (λ dash. join_dash-dash c p ps dash) (λ letter. join_dash-letter c p ps)

split_dash-cons :
    (c : Char) (s : String) → split_dash (String.◌∷◌ c s) ≡ split_more c (split_dash s)
unfolding split_dash split_more
split_dash-cons c s = cases (split_dash s)
  where
    cases :
        (l : List String)
        → (elim l [
          | [] ↦ String.◌∷◌ c String.[] ∷ []
          | p ∷ ps ↦ if code c == 45 then "" ∷ p ∷ ps else String.◌∷◌ c p ∷ ps
        ])
          ≡ split_more c l
    cases [] = refl
    cases (p ∷ ps) = refl

join_dash-split_dash : (s : String) → join_dash (split_dash s) ≡ s
unfolding split_dash join_dash
join_dash-split_dash String.[] = refl
join_dash-split_dash (String.◌∷◌ c s) =
    ap join_dash (split_dash-cons c s)
    ∙ join_dash-split_more c (split_dash s)
    ∙ ap (λ t. String.◌∷◌ c t) (join_dash-split_dash s)

split_dash-some : (s : String) → (p : String) × (ps : List String) × (split_dash s ≡ p ∷ ps)
unfolding split_dash split_more
split_dash-some String.[] = ("", [], refl)
split_dash-some (String.◌∷◌ c s) =
    let (p, ps, e) = split_dash-some s in
    elim (Bool-cases (code c == 45)) [
      | inl dash ↦ ("", p ∷ ps, split_dash-cons c s ∙ rw (e, split_more, dash) refl)
      | inr letter ↦ (String.◌∷◌ c p, ps, split_dash-cons c s ∙ rw (e, split_more, letter) refl)
    ]

-- No dash among the letters.
abbrev pub NoDash : String → Type 0
NoDash String.[] = Unit
NoDash (String.◌∷◌ c s) = ((code c == 45) ≡ false) × NoDash s

pub split_dash-NoDash : (s : String) → NoDash s → split_dash s ≡ s ∷ []
unfolding split_dash split_more
split_dash-NoDash String.[] h = refl
split_dash-NoDash (String.◌∷◌ c s) h =
    split_dash-cons c s ∙ ap (split_more c) (split_dash-NoDash s h.1) ∙ rw (h.0) refl

split_more-append :
    (c : Char) (p s : String) (ps : List String)
    → split_more c ((p ∷ ps) ++ (s ∷ [])) ≡ split_more c (p ∷ ps) ++ (s ∷ [])
unfolding split_more
split_more-append c p s ps = elim (Bool-cases (code c == 45)) [
  | inl dash ↦ rw dash refl
  | inr letter ↦ rw letter refl
]

split_dash-append :
    (front s : String) → NoDash s → split_dash (front <> ("-" <> s)) ≡ split_dash front ++ (s ∷ [])
unfolding split_dash split_more
split_dash-append String.[] s h =
    ap split_dash (nil-append ("-" <> s) ∙ cons-append _ "" s)
    ∙ split_dash-cons _ ("" <> s)
    ∙ ap (split_more _) (ap split_dash (nil-append s) ∙ split_dash-NoDash s h)
split_dash-append (String.◌∷◌ c front) s h =
    let (p, ps, e) = split_dash-some front in
    ap split_dash (cons-append c front ("-" <> s))
    ∙ split_dash-cons c (front <> ("-" <> s))
    ∙ ap (split_more c) (split_dash-append front s h ∙ ap (λ l. l ++ (s ∷ [])) e)
    ∙ split_more-append c p s ps
    ∙ ap (λ l. l ++ (s ∷ [])) (ap (split_more c) (sym e) ∙ sym (split_dash-cons c front))

but_last-append : (p s : String) (ps : List String) → but_last ((p ∷ ps) ++ (s ∷ [])) ≡ p ∷ ps
unfolding but_last
but_last-append p s [] = refl
but_last-append p s (q ∷ ps) = ap (λ l. p ∷ l) (but_last-append q s ps)

last_part-append : (p s : String) (ps : List String) → last_part ((p ∷ ps) ++ (s ∷ [])) ≡ s
unfolding last_part
last_part-append p s [] = refl
last_part-append p s (q ∷ ps) = last_part-append q s ps

-- What the code makes of a location `front-last`.
abbrev pub by_last : (loc front last : String) → String
by_last loc front last =
    if is_aws_zone_suffix last
    then front <> ("-" <> drop_letter last)
    else if is_gcp_single_letter last
    then front
    else loc

flatten-by_last :
    (loc front last : String) (l ps : List String) (p : String)
    → but_last l ≡ p ∷ ps
    → last_part l ≡ last
    → join_dash (p ∷ ps) ≡ front
    → flatten loc l ≡ by_last loc front last
unfolding flatten
flatten-by_last loc front last l ps p e h joined =
    rw (e, h, flatten) (rw e (ap (λ f. by_last loc f last) joined))

pub flatten-append :
    (loc front last : String)
    → NoDash last
    → flatten loc (split_dash (front <> ("-" <> last))) ≡ by_last loc front last
flatten-append loc front last h =
    let (p, ps, e) = split_dash-some front in
    ap (flatten loc) (split_dash-append front last h ∙ ap (λ l. l ++ (last ∷ [])) e)
    ∙ flatten-by_last loc front last _ ps p (but_last-append p last ps) (last_part-append p last ps)
        (ap join_dash (sym e) ∙ join_dash-split_dash front)
