-- ===== src/Pricing/Region.antt =====
-- pkg/pricing/pricer.go: `CanonicalRegion` and `RegionOf`. `strings.ToLower` is the parameter
-- `to_lower`, since its tables are data of Go's unicode package. The tests on bytes are tests on code
-- points here: a byte of a longer code point is neither a digit nor a letter, as the code point is not.
use tellury.Base.{
  String, Bool, false, not, ◌&&◌, ◌||◌, List, [], ◌∷◌, str_eq, leb, ◌==◌, if◌then◌else◌, ◌<>◌,
}
use Prim.Native.Char.{Char, code}
use tellury.Base.Trim.{trim_space}

-- `strings.Split(s, "-")`, which has at least one part.
unfoldable pub split_dash : String → List String
split_dash String.[] = "" ∷ []
split_dash (String.◌∷◌ c s) = elim (split_dash s) [
  | [] ↦ String.◌∷◌ c String.[] ∷ []
  | p ∷ ps ↦ if code c == 45 then "" ∷ p ∷ ps else String.◌∷◌ c p ∷ ps
]

-- `strings.Join(parts, "-")`
unfoldable pub join_dash : List String → String
join_dash [] = ""
join_dash (p ∷ ps) = elim ps [ [] ↦ p | _ ∷ _ ↦ p <> ("-" <> join_dash ps) ]

unfoldable pub is_letter : Char → Bool
is_letter b = (leb 97 (code b) && leb (code b) 122) || (leb 65 (code b) && leb (code b) 90)

unfoldable pub is_gcp_single_letter : String → Bool
unfolding is_letter
is_gcp_single_letter String.[] = false
is_gcp_single_letter (String.◌∷◌ b s) = str_eq s "" && is_letter b

-- The loop over the digits, with the letter at the end.
unfoldable pub digits_then_letter : String → Bool
unfolding is_letter
digits_then_letter String.[] = false
digits_then_letter (String.◌∷◌ b s) =
    let rest = digits_then_letter s in
    if str_eq s "" then is_letter b else leb 48 (code b) && leb (code b) 57 && rest

unfoldable pub is_aws_zone_suffix : String → Bool
unfolding digits_then_letter
is_aws_zone_suffix String.[] = false
is_aws_zone_suffix (String.◌∷◌ b s) =
    if str_eq s "" then false else digits_then_letter (String.◌∷◌ b s)

-- `parts[:len(parts)-1]` and `parts[len(parts)-1]`
unfoldable pub but_last : List String → List String
but_last [] = []
but_last (p ∷ ps) = elim ps [ [] ↦ [] | _ ∷ _ ↦ p ∷ but_last ps ]

unfoldable pub last_part : List String → String
last_part [] = ""
last_part (p ∷ ps) = elim ps [ [] ↦ p | _ ∷ _ ↦ last_part ps ]

-- `last[:len(last)-1]`
unfoldable pub drop_letter : String → String
drop_letter String.[] = ""
drop_letter (String.◌∷◌ b s) = if str_eq s "" then "" else String.◌∷◌ b (drop_letter s)

-- A location in lower case, not empty, and its parts.
unfoldable pub flatten : String → List String → String
unfolding join_dash is_aws_zone_suffix is_gcp_single_letter but_last last_part drop_letter
flatten loc parts =
    let last = last_part parts in
    elim (but_last parts) [
      | [] ↦ loc
      | _ ∷ _ ↦
          if is_aws_zone_suffix last
          then join_dash (but_last parts) <> ("-" <> drop_letter last)
          else if is_gcp_single_letter last
          then join_dash (but_last parts)
          else loc
    ]

module _ (to_lower : String → String) where
  unfoldable pub canonical_region : String → String
  unfolding flatten split_dash trim_space
  canonical_region location =
      let loc = to_lower (trim_space location) in
      if str_eq loc "" then "" else flatten loc (split_dash loc)

  unfoldable pub region_of : String → String
  unfolding canonical_region
  region_of location =
      let region = canonical_region location in if not (str_eq region "") then region else "default"
