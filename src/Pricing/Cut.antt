-- ===== src/Pricing/Cut.antt =====
-- What `CanonicalRegion` cuts off a location.
use tellury.Base.{
  String, leb, ◌≢◌, ◌⊎◌, true, ◌≡◌, refl, sym, ap, ◌∙◌, false, arith, str_eq, eq_iff, if◌then◌else◌,
  ◌<>◌, Bool-cases, inl, inr,
}
use Prim.Native.Char.{Char, code}
use text.Mathlib.TextLemmas.{nil≢cons, nil-append, cons-append}
use mathlib.Core.Path.{subst}
use tellury.Base.Trim.{trim_space}
use tellury.Pricing.Region.{
  digits_then_letter, is_letter, split_dash, but_last, drop_letter, flatten, canonical_region,
  is_aws_zone_suffix, is_gcp_single_letter,
}
use tellury.Pricing.Parts.{NoDash, by_last, flatten-append, split_dash-NoDash}

cons_full : (c : Char) (s : String) → str_eq (String.◌∷◌ c s) "" ≡ false
cons_full c s = elim (Bool-cases (str_eq (String.◌∷◌ c s) "")) [
  | inl empty ↦ absurd (nil≢cons (sym ((eq_iff (String.◌∷◌ c s) "").0 empty)))
  | inr full ↦ full
]

-- An ASCII letter, by its code point.
abbrev pub IsLetter : Char → Type 0
IsLetter b =
    ((leb 97 (code b) ≡ true) × (leb (code b) 122 ≡ true))
    ⊎ ((leb 65 (code b) ≡ true) × (leb (code b) 90 ≡ true))

abbrev pub AllDigits : String → Type 0
AllDigits String.[] = Unit
AllDigits (String.◌∷◌ b s) = (leb 48 (code b) ≡ true) × (leb (code b) 57 ≡ true) × AllDigits s

is_letter_lem : (b : Char) → IsLetter b → is_letter b ≡ true
unfolding is_letter
is_letter_lem b (inl small) = ground arith
is_letter_lem b (inr capital) = ground arith

digits-NoDash : (s : String) → AllDigits s → NoDash s
digits-NoDash String.[] h = tt
digits-NoDash (String.◌∷◌ b s) (low, high, h) = (ground arith, digits-NoDash s h)

letter-NoDash : (b : Char) → IsLetter b → NoDash (String.◌∷◌ b "")
letter-NoDash b (inl small) = (ground arith, tt)
letter-NoDash b (inr capital) = (ground arith, tt)

zone-NoDash : (s : String) (b : Char) → AllDigits s → IsLetter b → NoDash (s <> String.◌∷◌ b "")
zone-NoDash String.[] b h l = subst NoDash (sym (nil-append (String.◌∷◌ b ""))) (letter-NoDash b l)
zone-NoDash (String.◌∷◌ c s) b (low, high, h) l =
    subst NoDash (sym (cons-append c s (String.◌∷◌ b ""))) (ground arith, zone-NoDash s b h l)

append_full : (s : String) (b : Char) → str_eq (s <> String.◌∷◌ b "") "" ≡ false
append_full String.[] b = ap (λ t. str_eq t "") (nil-append (String.◌∷◌ b "")) ∙ cons_full b ""
append_full (String.◌∷◌ c s) b =
    ap (λ t. str_eq t "") (cons-append c s (String.◌∷◌ b "")) ∙ cons_full c (s <> String.◌∷◌ b "")

digits_then_letter-append :
    (s : String) (b : Char)
    → AllDigits s
    → IsLetter b
    → digits_then_letter (s <> String.◌∷◌ b "") ≡ true
unfolding digits_then_letter
digits_then_letter-append String.[] b h l =
    ap digits_then_letter (nil-append (String.◌∷◌ b "")) ∙ is_letter_lem b l
digits_then_letter-append (String.◌∷◌ c s) b (low, high, h) l =
    ap digits_then_letter (cons-append c s (String.◌∷◌ b ""))
    ∙ rw (append_full s b, low, high) (digits_then_letter-append s b h l)

drop_letter-append : (s : String) (b : Char) → drop_letter (s <> String.◌∷◌ b "") ≡ s
unfolding drop_letter
drop_letter-append String.[] b = ap drop_letter (nil-append (String.◌∷◌ b ""))
drop_letter-append (String.◌∷◌ c s) b =
    ap drop_letter (cons-append c s (String.◌∷◌ b ""))
    ∙ rw (append_full s b) (ap (λ t. String.◌∷◌ c t) (drop_letter-append s b))

digits_no_zone : (s : String) → AllDigits s → digits_then_letter s ≡ false
unfolding digits_then_letter is_letter
digits_no_zone String.[] h = refl
digits_no_zone (String.◌∷◌ b s) (low, high, h) = elim (Bool-cases (str_eq s "")) [
  | inl one ↦ rw one (ground arith)
  | inr longer ↦ rw (longer, digits_no_zone s h) (ground arith)
]

pub data Cut (loc region : String) : Type 0 where
  -- Digits and a letter: the letter goes.
  zone :
      (front digits : String) (letter : Char)
      → AllDigits digits
      → digits ≢ ""
      → IsLetter letter
      → loc ≡ front <> ("-" <> (digits <> String.◌∷◌ letter ""))
      → region ≡ front <> ("-" <> digits)
      → Cut loc region
  -- A letter: it goes, with the dash.
  single :
      (front : String) (letter : Char)
      → IsLetter letter
      → loc ≡ front <> ("-" <> String.◌∷◌ letter "")
      → region ≡ front
      → Cut loc region
  -- Digits: they stay.
  plain :
      (front digits : String)
      → AllDigits digits
      → loc ≡ front <> ("-" <> digits)
      → region ≡ loc
      → Cut loc region
  -- One part: it stays.
  whole : NoDash loc → region ≡ loc → Cut loc region

by_last-zone :
    (loc front digits : String) (b : Char)
    → AllDigits digits
    → digits ≢ ""
    → IsLetter b
    → by_last loc front (digits <> String.◌∷◌ b "") ≡ front <> ("-" <> digits)
unfolding is_aws_zone_suffix
by_last-zone loc front String.[] b h some_digit l = absurd (some_digit refl)
by_last-zone loc front (String.◌∷◌ c s) b (low, high, h) some_digit l =
    let is_zone : is_aws_zone_suffix (String.◌∷◌ c s <> String.◌∷◌ b "") ≡ true =
      ap is_aws_zone_suffix (cons-append c s (String.◌∷◌ b ""))
      ∙ rw (append_full s b, low, high) (digits_then_letter-append s b h l) in
    rw (is_zone, drop_letter-append (String.◌∷◌ c s) b) refl

by_last-single :
    (loc front : String) (b : Char) → IsLetter b → by_last loc front (String.◌∷◌ b "") ≡ front
unfolding is_aws_zone_suffix is_gcp_single_letter
by_last-single loc front b l = rw (is_letter_lem b l) refl

by_last-plain : (loc front digits : String) → AllDigits digits → by_last loc front digits ≡ loc
unfolding is_aws_zone_suffix is_gcp_single_letter is_letter
by_last-plain loc front String.[] h = refl
by_last-plain loc front (String.◌∷◌ c s) (low, high, h) = elim (Bool-cases (str_eq s "")) [
  | inl one ↦ rw one (ground arith)
  | inr longer ↦ rw (longer, digits_no_zone s h, low, high) refl
]

-- `canonical_region` of a location in lower case.
settle : String → String
settle loc = if str_eq loc "" then "" else flatten loc (split_dash loc)

settle-flatten : (loc : String) → settle loc ≡ flatten loc (split_dash loc)
unfolding settle flatten split_dash
settle-flatten loc = elim (Bool-cases (str_eq loc "")) [
  | inl empty ↦ rw empty (sym (ap (λ t. flatten t (split_dash t)) ((eq_iff loc "").0 empty)))
  | inr full ↦ rw full refl
]

settle-by_last :
    (loc front last : String)
    → NoDash last
    → loc ≡ front <> ("-" <> last)
    → settle loc ≡ by_last loc front last
settle-by_last loc front last h e =
    settle-flatten loc ∙ ap (λ t. flatten loc (split_dash t)) e ∙ flatten-append loc front last h

settle-Cut : (loc region : String) → Cut loc region → settle loc ≡ region
unfolding flatten but_last
settle-Cut loc region (zone front digits b h some_digit l e r) =
    settle-by_last loc front _ (zone-NoDash digits b h l) e
    ∙ by_last-zone loc front digits b h some_digit l
    ∙ sym r
settle-Cut loc region (single front b l e r) =
    settle-by_last loc front _ (letter-NoDash b l) e ∙ by_last-single loc front b l ∙ sym r
settle-Cut loc region (plain front digits h e r) =
    settle-by_last loc front _ (digits-NoDash digits h) e ∙ by_last-plain loc front digits h ∙ sym r
settle-Cut loc region (whole h r) =
    settle-flatten loc ∙ ap (flatten loc) (split_dash-NoDash loc h) ∙ sym r

-- If, without the white space around it and in lower case, a location ends in a dash, digits and an
-- ASCII letter, then `CanonicalRegion` leaves out the letter; if it ends in a dash and a letter, it
-- leaves out both; if it ends in a dash and digits or has no dash, it leaves out nothing.
pub canonical_region-Cut :
    (to_lower : String → String) (location region : String)
    → Cut (to_lower (trim_space location)) region
    → canonical_region to_lower location ≡ region
unfolding canonical_region settle
canonical_region-Cut to_lower location region cut =
    settle-Cut (to_lower (trim_space location)) region cut
