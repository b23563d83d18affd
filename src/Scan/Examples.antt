-- ===== src/Scan/Examples.antt =====
-- Runs on a registry of two providers, and the theorems on them.
use tellury.Base.{
  Bool-cases, inl, inr, sym, ap, ℕ, ◌+◌, ◌-◌, ◌*◌, ◌/◌, String, ◌≡◌, refl, none, some, List, [],
  ◌∷◌, arith, str_eq, str_apart, if◌then◌else◌,
}
use mathlib.Core.Path.{subst}
use tellury.Base.Sort
use tellury.Base.Dict.{Dict, lookup, get_or, NodupKeys}
use tellury.Base.Names.{IsSetOf}
use tellury.Scan.Scopes.{ScopeVar, ScopeEntry, ScopeRegistry, register_scopes}
use tellury.Scan.Config.{Scan, resolve_provider, resolve_scopes, provider_flags_set, clean_list}
use tellury.Scan.Scope.{GcpScope}
use tellury.Scan.Vocabulary.{Declared, register_scopes-Declared}
use tellury.Scan.Provider.{
  flagged, resolve_provider-env, resolve_provider-conflict, resolve_scopes-env,
}
use tellury.Base.Int.{pos}
use tellury.Float.{Numeric, cents}
use tellury.Scan.Validate.{Settings, validate_scan, bad_window}
use tellury.Scan.Accepted.{IsAccepted, validate_scan-IsAccepted}
use tellury.Base.Trim.{trim_space}

abbrev entry : String → String → ScopeEntry
entry flag var = record { flag = flag; env_var = var }

abbrev registry : ScopeRegistry
registry =
    ("gcp", ("project", entry "gcp-project" "TELLURY_GCP_PROJECT") ∷ [])
    ∷ ("aws", ("account", entry "aws-account" "TELLURY_AWS_ACCOUNT") ∷ [])
    ∷ []

registry-NodupKeys : NodupKeys registry
unfolding lookup
registry-NodupKeys = (refl, (refl, tt))

-- The shell carries a project of the first provider.
abbrev shell : String → String
shell var = if str_eq var "TELLURY_GCP_PROJECT" then "p" else ""

abbrev scan : String → String → Scan
scan project account = record {
  project = project;
  folder = "";
  organization = "";
  account = account;
  organizational_unit = "";
  aws_organization = "";
  azure_tenant = "";
  azure_management_group = "";
  azure_subscription = "";
  azure_resource_group = "";
  provider = "";
}

-- A flag of the second provider beats the variable of the first, whose value is not read.
resolved :
    ((resolve_scopes registry shell (resolve_provider registry shell (scan "" "123")).0).project
      ≡ "")
    × ((resolve_provider registry shell (scan "" "123")).0.provider ≡ "aws")
    × ((resolve_scopes registry shell (resolve_provider registry shell (scan "" "")).0).project
        ≡ "p")
    × (clean_list (" a " ∷ "  " ∷ "b" ∷ []) ≡ "a" ∷ "b" ∷ [])
unfolding resolve_provider resolve_scopes provider_flags_set Sort.sort lookup get_or clean_list
    trim_space
resolved = (refl, refl, refl, refl)

abbrev azure_vars : List ScopeVar
azure_vars =
    record { name = "tenant"; flag = "azure-tenant"; env_var = "TELLURY_AZURE_TENANT" } ∷ []

register_scopes-Declared_example :
    Declared registry "azure" azure_vars (register_scopes registry "azure" azure_vars)
register_scopes-Declared_example =
    register_scopes-Declared registry "azure" azure_vars registry-NodupKeys

resolve_provider-env_example :
    resolve_provider registry shell (scan "" "123")
    ≡ resolve_provider registry (λ v. "") (scan "" "123")
unfolding lookup provider_flags_set
resolve_provider-env_example =
    resolve_provider-env registry shell (scan "" "123") (λ v. "") registry-NodupKeys "aws" refl

resolve_provider-conflict_example :
    (ps : List String) × (resolve_provider registry shell (scan "p" "123")
      ≡ (scan "p" "123", some ps))
    × IsSetOf (flagged registry (scan "p" "123")) ps
unfolding lookup provider_flags_set
resolve_provider-conflict_example =
    resolve_provider-conflict registry shell (scan "p" "123") registry-NodupKeys "gcp" "aws" refl
      (str_apart "gcp" "aws" refl) refl refl

-- Two shells that differ at the variable of another provider.
same_for_aws :
    (declared : Dict ScopeEntry) (name : String) (found : ScopeEntry)
    → lookup "aws" registry ≡ some declared
    → lookup name declared ≡ some found
    → shell found.env_var ≡ ""
unfolding lookup
same_for_aws declared name found is_declared there =
    let only : (("account", entry "aws-account" "TELLURY_AWS_ACCOUNT") ∷ []) ≡ declared = cc in
    let at_account : lookup name (("account", entry "aws-account" "TELLURY_AWS_ACCOUNT") ∷ [])
        ≡ some found =
      subst (λ d. lookup name d ≡ some found) (sym only) there in
    elim (Bool-cases (str_eq "account" name)) [
      | inl is_account ↦
          let same : some (entry "aws-account" "TELLURY_AWS_ACCOUNT") ≡ some found =
            rw is_account at at_account in
          let var : entry "aws-account" "TELLURY_AWS_ACCOUNT" ≡ found = cc in
          ap (λ (e : ScopeEntry). shell e.env_var) (sym var)
      | inr other ↦ absurd (ground (arith, rw other at at_account))
    ]

resolve_scopes-env_example :
    resolve_scopes registry shell (record (scan "" "123") { provider = "aws" })
    ≡ resolve_scopes registry (λ v. "") (record (scan "" "123") { provider = "aws" })
resolve_scopes-env_example =
    resolve_scopes-env registry shell (record (scan "" "123") { provider = "aws" }) (λ v. "")
      same_for_aws

abbrev folder_scope : GcpScope
folder_scope = record { project = ""; folder = "f"; organization = "" }

-- Whole numbers in place of floats, of which 0 and 1 are known.
abbrev numbers : Numeric ℕ
numbers = record {
  order = cents;
  add = ◌+◌;
  sub = ◌-◌;
  mul = ◌*◌;
  div = ◌/◌;
  neg = λ v. v;
  floor = λ v. v;
  round = λ v. v;
  literal = λ s. if str_eq s "1" then 1 else 0;
}

abbrev settings : ℕ → String → Settings ℕ
settings days currency = record {
  scan = scan "" "123";
  format = " csv";
  sort = "";
  window_days = pos days;
  min_waste = 5;
  min_confidence = 1;
  cache_file = "";
  fixture = [];
  out_dir = "";
  progress = "";
  currency = currency;
  rules = [];
  skip_rules = [];
}

accepted : (validate_scan numbers (λ s. s) (λ s. s) registry shell (settings 0 "EUR")).1 ≡ none
unfolding validate_scan Sort.sort
accepted = refl

validate_scan-IsAccepted_example :
    IsAccepted numbers
      (λ s. s)
      registry
      (validate_scan numbers (λ s. s) (λ s. s) registry shell (settings 0 "EUR")).0
validate_scan-IsAccepted_example =
    validate_scan-IsAccepted numbers (λ s. s) (λ s. s) registry shell (settings 0 "EUR") accepted

validated :
    (validate_scan numbers (λ s. s) (λ s. s) registry shell (settings 31 "")).1 ≡ some bad_window
unfolding validate_scan Sort.sort
validated = refl
