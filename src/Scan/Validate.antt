-- ===== src/Scan/Validate.antt =====
-- internal/config/config.go: `Validate`, whole. It changes its receiver also where it fails, so
-- it returns the settings with the error. The provider and the scope of `Scan` are those of
-- `Scan/Config.antt`. `strings.ToLower` and `strings.ToUpper` are parameters.
use tellury.Base.{
  ℕ, String, Bool, true, false, not, ◌&&◌, ◌||◌, Option, none, some, List, [], ◌∷◌, any, str_eq,
  leb, ltb, if◌then◌else◌,
}
use Prim.Native.Char.{Char, code}
use tellury.Base.Int.{ℤ, pos, negsuc}
use tellury.Base.Trim.{trim_space}
use tellury.Float.{Numeric}
use tellury.Rules.Order.{parse_sort_order}
use tellury.Scan.Scope.{ScopeError, validate}
use tellury.Scan.Scopes.{ScopeRegistry, provider_registered}
use tellury.Scan.Config.{Scan, resolve_provider, resolve_scopes, build_scope, clean_list}

-- The fields of `Scan` that `Validate` checks besides the provider and the scope.
pub record Settings (F : Type 0) : Type 0 where
  pub scan : Scan
  pub format : String
  pub sort : String
  pub window_days : ℤ
  pub min_waste : F
  pub min_confidence : F
  pub cache_file : String
  pub fixture : List String
  pub out_dir : String
  pub progress : String
  pub currency : String
  pub rules : List String
  pub skip_rules : List String

pub data Refusal : Type 0 where
  conflict : List String → Refusal
  bad_scope : ScopeError → Refusal
  unregistered bad_progress bad_format bad_sort bad_window bad_confidence bad_waste bad_currency :
      Refusal

abbrev pub offline : {F : Type 0} → Settings F → Bool
offline c = not (str_eq c.cache_file "") || (elim c.fixture [ [] ↦ false | f ∷ fs ↦ true ])

unfoldable pub valid_progress_mode : String → Bool
valid_progress_mode mode = str_eq mode "auto" || str_eq mode "on" || str_eq mode "off"

abbrev in_range : Char → Bool
in_range c = leb 65 (code c) && leb (code c) 90

-- A string of three letters from A to Z is one of three bytes.
unfoldable pub valid_currency_code : String → Bool
valid_currency_code (String.◌∷◌ a (String.◌∷◌ b (String.◌∷◌ c String.[]))) =
    in_range a && in_range b && in_range c
valid_currency_code other = false

unfoldable pub default_window : ℤ → ℤ
default_window (pos ℕ.zero) = pos 14
default_window days = days

-- `WindowDays < MinWindowDays || WindowDays > MaxWindowDays`
unfoldable pub out_of_window : ℤ → Bool
out_of_window (pos days) = ltb days 7 || ltb 30 days
out_of_window (negsuc days) = true

unfoldable pub or_default : String → String → String
or_default s default = if str_eq s "" then default else s

-- Whether `output.For` knows the format.
unfoldable pub known_format : (String → String) → String → Bool
unfolding trim_space
known_format to_lower format =
    any (str_eq (to_lower (trim_space format))) ("" ∷ "table" ∷ "json" ∷ "csv" ∷ [])

module _ {F : Type 0} (x : Numeric F) (to_lower to_upper : String → String)
    (registry : ScopeRegistry) (env : String → String) where
  unfoldable pub resolve_progress : String → String
  unfolding or_default trim_space
  resolve_progress flag =
      or_default (to_lower (trim_space (or_default flag (env "TELLURY_PROGRESS")))) "auto"

  unfoldable pub resolve_currency : String → String
  unfolding or_default trim_space
  resolve_currency flag = to_upper (trim_space (or_default flag (env "TELLURY_CURRENCY")))

  -- From the currency on.
  unfoldable pub validate_rest : Settings F → Settings F × Option Refusal
  unfolding resolve_currency valid_currency_code or_default clean_list
  validate_rest c =
      let d = record c { currency = resolve_currency c.currency } in
      if not (str_eq d.currency "") && not (valid_currency_code d.currency)
      then (d, some bad_currency)
      else (
        record d {
          out_dir = or_default d.out_dir "tellury-out";
          rules = clean_list d.rules;
          skip_rules = clean_list d.skip_rules;
        },
        none,
      )

  -- The window and the thresholds.
  unfoldable pub validate_numbers : Settings F → Settings F × Option Refusal
  unfolding default_window out_of_window validate_rest
  validate_numbers c =
      let d = record c { window_days = default_window c.window_days } in
      if out_of_window d.window_days
      then (d, some bad_window)
      else if x.order.lt d.min_confidence (x.literal "0")
          || x.order.lt (x.literal "1") d.min_confidence
      then (d, some bad_confidence)
      else if x.order.lt d.min_waste (x.literal "0")
      then (d, some bad_waste)
      else validate_rest d

  -- The format and the sort order.
  unfoldable pub validate_output : Settings F → Settings F × Option Refusal
  unfolding known_format or_default parse_sort_order validate_numbers
  validate_output c =
      if not (known_format to_lower c.format)
      then (c, some bad_format)
      else let d = record c { sort = or_default c.sort "waste" } in
        elim (parse_sort_order d.sort) [
          | none ↦ (d, some bad_sort)
          | some order ↦ validate_numbers d
        ]

  -- The scope, which a replay need not have.
  unfoldable pub validate_scope : Settings F → Settings F × Option Refusal
  unfolding build_scope validate validate_output
  validate_scope c = elim (validate (build_scope c.scan)) [
    | none ↦ validate_output c
    | some e ↦ if not (offline c) then (c, some (bad_scope e)) else validate_output c
  ]

  unfoldable pub validate_scan : Settings F → Settings F × Option Refusal
  unfolding resolve_provider resolve_progress valid_progress_mode resolve_scopes validate_scope
  validate_scan c =
      let settled = resolve_provider registry env c.scan in
      let d = record c { scan = settled.0 } in
      elim settled.1 [
        | some names ↦ (d, some (conflict names))
        | none ↦
            if not (provider_registered registry d.scan.provider)
            then (d, some unregistered)
            else let e = record d { progress = resolve_progress d.progress } in
              if not (valid_progress_mode e.progress)
              then (e, some bad_progress)
              else validate_scope (record e { scan = resolve_scopes registry env e.scan })
      ]
