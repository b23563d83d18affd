-- ===== src/Scan/Accepted.antt =====
-- What `Validate` of internal/config/config.go leaves for the rest of a scan to assume.
use tellury.Base.{
  eq_iff, ℕ, ◌+◌, ◌≤◌, String, Bool, true, false, not, ◌||◌, ◌==◌, ◌≡◌, ◌≢◌, ◌⊎◌, inl, inr, refl,
  none, some, List, [], ◌∷◌, str_eq, arith, Bool-cases, if◌then◌else◌,
}
use Prim.Native.Char.{Char, code}
use tellury.Base.Int.{pos}
use tellury.Base.Trim.{trim_space}
use tellury.Base.Dict.{has_key}
use tellury.Float.{Numeric}
use tellury.Rules.Order.{parse_sort_order}
use tellury.Scan.Scope.{
  ScopeError, one_if_set, validate, validate_gcp, validate_aws, validate_azure,
}
use tellury.Scan.Scopes.{ScopeRegistry}
use tellury.Scan.Config.{Scan, build_scope}
use tellury.Scan.Validate.{
  Settings, offline, valid_progress_mode, valid_currency_code, known_format, validate_scan,
}
use tellury.Scan.Valid.{IsValid, validate_scan-IsSound}

-- Just one of three texts is not empty.
abbrev pub JustOne : (a b c : String) → Type 0
JustOne a b c =
    ((a ≢ "") × (b ≡ "") × (c ≡ ""))
    ⊎ (((a ≡ "") × (b ≢ "") × (c ≡ "")) ⊎ ((a ≡ "") × (b ≡ "") × (c ≢ "")))

-- A scan has one scope of its provider. A resource group of Azure needs a subscription.
abbrev pub HasScope : Scan → Type 0
HasScope c =
    ((c.provider ≡ "gcp") × JustOne c.project c.folder c.organization)
    ⊎ (((c.provider ≡ "aws") × JustOne c.account c.organizational_unit c.aws_organization)
        ⊎ ((c.provider ≡ "azure")
            × JustOne c.azure_tenant c.azure_management_group c.azure_subscription
            × ((c.azure_resource_group ≡ "") ⊎ (c.azure_subscription ≢ ""))))

abbrev pub IsReplay : {F : Type 0} → Settings F → Type 0
IsReplay c = (c.cache_file ≢ "") ⊎ (c.fixture ≢ [])

abbrev pub IsCapital : Char → Type 0
IsCapital c = (65 ≤ code c) × (code c ≤ 90)

abbrev pub HasCode : String → Type 0
HasCode s =
    (a : Char) × (b : Char) × (c : Char) × (s
      ≡ String.◌∷◌ a (String.◌∷◌ b (String.◌∷◌ c String.[])))
    × IsCapital a
    × IsCapital b
    × IsCapital c

pub record IsAccepted {F : Type 0} (x : Numeric F) (to_lower : String → String)
    (registry : ScopeRegistry) (c : Settings F) : Type 0 where
  pub registered : has_key c.scan.provider registry ≡ true
  pub progress : (c.progress ≡ "auto") ⊎ ((c.progress ≡ "on") ⊎ (c.progress ≡ "off"))
  pub scope : IsReplay c ⊎ HasScope c.scan
  pub format :
      (to_lower (trim_space c.format) ≡ "")
      ⊎ ((to_lower (trim_space c.format) ≡ "table")
          ⊎ ((to_lower (trim_space c.format) ≡ "json") ⊎ (to_lower (trim_space c.format) ≡ "csv")))
  pub sorted : (c.sort ≡ "waste") ⊎ ((c.sort ≡ "resource") ⊎ (c.sort ≡ "rule"))
  pub window : (days : ℕ) × (c.window_days ≡ pos days) × (7 ≤ days) × (days ≤ 30)
  pub confidence :
      (x.order.lt c.min_confidence (x.literal "0") ≡ false)
      × (x.order.lt (x.literal "1") c.min_confidence ≡ false)
  pub floor : x.order.lt c.min_waste (x.literal "0") ≡ false
  pub currency : (c.currency ≡ "") ⊎ HasCode c.currency
  pub directory : c.out_dir ≢ ""

or_cases : (a b : Bool) → (a || b) ≡ true → (a ≡ true) ⊎ (b ≡ true)
or_cases true b h = inl refl
or_cases false b h = inr h

text_of : (s t : String) → str_eq s t ≡ true → s ≡ t
text_of s t h = (eq_iff s t).0 h

mode_of : (s : String) → valid_progress_mode s ≡ true → (s ≡ "auto") ⊎ ((s ≡ "on") ⊎ (s ≡ "off"))
unfolding valid_progress_mode
mode_of s h = ground (arith, eq_iff s "auto", eq_iff s "on", eq_iff s "off")

format_of :
    (to_lower : String → String) (s : String)
    → known_format to_lower s ≡ true
    → (to_lower (trim_space s) ≡ "")
      ⊎ ((to_lower (trim_space s) ≡ "table")
          ⊎ ((to_lower (trim_space s) ≡ "json") ⊎ (to_lower (trim_space s) ≡ "csv")))
unfolding known_format
format_of to_lower s h =
    let t = to_lower (trim_space s) in
    ground (arith, eq_iff t "", eq_iff t "table", eq_iff t "json", eq_iff t "csv")

order_of :
    (s order : String)
    → parse_sort_order s ≡ some order
    → (s ≡ "waste") ⊎ ((s ≡ "resource") ⊎ (s ≡ "rule"))
unfolding parse_sort_order
order_of s order h = ground (arith, eq_iff s "waste", eq_iff s "resource", eq_iff s "rule")

code_of : (s : String) → valid_currency_code s ≡ true → HasCode s
unfolding valid_currency_code
code_of String.[] h = absurd (ground arith)
code_of (String.◌∷◌ a String.[]) h = absurd (ground arith)
code_of (String.◌∷◌ a (String.◌∷◌ b String.[])) h = absurd (ground arith)
code_of (String.◌∷◌ a (String.◌∷◌ b (String.◌∷◌ c String.[]))) h = (
  a,
  b,
  c,
  refl,
  (ground arith, ground arith),
  (ground arith, ground arith),
  (ground arith, ground arith),
)
code_of (String.◌∷◌ a (String.◌∷◌ b (String.◌∷◌ c (String.◌∷◌ d s)))) h = absurd (ground arith)

one_of : (a b c : String) → (one_if_set a + one_if_set b + one_if_set c == 1) ≡ true → JustOne a b c
one_of a b c h = ground (arith, eq_iff a "", eq_iff b "", eq_iff c "")

not_nil : {A : Type 0} (xs : List A) → (elim xs [ [] ↦ false | y ∷ ys ↦ true ]) ≡ true → xs ≢ []
not_nil [] h e = absurd (ground arith)
not_nil (y ∷ ys) h e = cc

given_text : (s : String) → not (str_eq s "") ≡ true → s ≢ ""
given_text s h e = absurd (ground (arith, eq_iff s ""))

offline-IsReplay : {F : Type 0} (c : Settings F) → offline c ≡ true → IsReplay c
offline-IsReplay c h = elim (or_cases _ _ h) [
  | inl cached ↦ inl (λ e. given_text c.cache_file cached e)
  | inr recorded ↦ inr (not_nil c.fixture recorded)
]

counted : (b : Bool) (e : ScopeError) → (if not b then some e else none) ≡ none → b ≡ true
counted b e h = ground arith

group_of :
    (tenant management_group subscription resource_group : String)
    → validate_azure (record {
      tenant = tenant;
      management_group = management_group;
      subscription = subscription;
      resource_group = resource_group;
    })
      ≡ none
    → JustOne tenant management_group subscription × ((resource_group ≡ "") ⊎ (subscription ≢ ""))
unfolding validate_azure
group_of t m s g h = (one_of t m s (ground arith), ground (arith, eq_iff g "", eq_iff s ""))

scope_of : (c : Scan) → validate (build_scope c) ≡ none → HasScope c
unfolding validate build_scope validate_gcp validate_aws
scope_of c h = elim (Bool-cases (str_eq c.provider "gcp")) [
  | inl gcp ↦ inl (
    text_of c.provider "gcp" gcp,
    one_of c.project c.folder c.organization
        (counted _ _ (rw (gcp, validate, build_scope, gcp) at h)),
  )
  | inr not_gcp ↦ elim (Bool-cases (str_eq c.provider "aws")) [
    | inl aws ↦ inr (
        inl (
          text_of c.provider "aws" aws,
          one_of c.account c.organizational_unit c.aws_organization
              (counted _ _ (rw (not_gcp, aws, validate, build_scope, not_gcp, aws) at h)),
        ))
    | inr not_aws ↦ elim (Bool-cases (str_eq c.provider "azure")) [
      | inl azure ↦
          let one =
            group_of c.azure_tenant c.azure_management_group c.azure_subscription
              c.azure_resource_group
              (rw (not_gcp, not_aws, azure, validate, build_scope, not_gcp, not_aws, azure) at h) in
          inr (inr (text_of c.provider "azure" azure, one.0, one.1))
      | inr other ↦ absurd (
          ground (
            arith,
            rw (not_gcp, not_aws, other, validate, build_scope, not_gcp, not_aws, other) at h,
          ))
    ]
  ]
]

module _ {F : Type 0} (x : Numeric F) (to_lower to_upper : String → String)
    (registry : ScopeRegistry) (env : String → String) where
  IsSound-IsAccepted :
      (c : Settings F)
      → IsValid x to_lower to_upper registry env c
      → IsAccepted x to_lower registry c
  IsSound-IsAccepted c v = record {
    registered = v.settled.0;
    progress = mode_of c.progress v.settled.1;
    scope = elim v.scoped [
      | inl replay ↦ inl (offline-IsReplay c replay)
      | inr fine ↦ inr (scope_of c.scan fine)
    ];
    format = format_of to_lower c.format v.shown.0;
    sorted = order_of c.sort v.shown.1.0 v.shown.1.1;
    window = v.bounded.0;
    confidence = (v.bounded.1, v.bounded.2);
    floor = v.bounded.3;
    currency = elim v.priced.0 [
      | inl empty ↦ inl empty
      | inr letters ↦ inr (code_of c.currency letters)
    ];
    directory = λ e. absurd (ground (arith, eq_iff c.out_dir "", v.priced.1));
  }

  -- If Validate returns no error, then the settings that it leaves have a registered provider, the mode
  -- of progress auto, on or off, just one scope of the provider, with a resource group only beside a
  -- subscription, or a replay, a format that reads as table, json, csv or nothing, a sort order among
  -- waste, resource and rule, a window of 7 to 30 days, a confidence that is neither below 0 nor above
  -- 1, a floor that is not below 0, no currency or one of three letters from A to Z, and a directory.
  pub validate_scan-IsAccepted :
      (c : Settings F)
      → (validate_scan x to_lower to_upper registry env c).1 ≡ none
      → IsAccepted x to_lower registry (validate_scan x to_lower to_upper registry env c).0
  validate_scan-IsAccepted c h =
      IsSound-IsAccepted _ ((validate_scan-IsSound x to_lower to_upper registry env c).valid h)
