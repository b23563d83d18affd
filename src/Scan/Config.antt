-- ===== src/Scan/Config.antt =====
-- internal/config/config.go: how the provider and the scope of a scan are settled. Of `Scan` the
-- fields are modelled that this reads or writes. The environment is a function, with the empty string
-- for a variable that is not set. A conflict of providers is the list of those that the error names,
-- in its order.
use tellury.Base.{
  String, Bool, false, not, ◌||◌, Option, none, some, List, [], ◌∷◌, filter, any, str_eq,
  if◌then◌else◌,
}
use tellury.Base.Trim.{trim_space}
use tellury.Scan.Scope.{Scope}
use tellury.Scan.Scopes.{ScopeRegistry, scope_env_var, providers, provider_registered, scopes_for}

pub record Scan : Type 0 where
  pub project : String
  pub folder : String
  pub organization : String
  pub account : String
  pub organizational_unit : String
  pub aws_organization : String
  pub azure_tenant : String
  pub azure_management_group : String
  pub azure_subscription : String
  pub azure_resource_group : String
  pub provider : String

unfoldable pub provider_flags_set : Scan → String → Bool
provider_flags_set c provider =
    if str_eq provider "gcp"
    then not (str_eq c.project "") || not (str_eq c.folder "") || not (str_eq c.organization "")
    else if str_eq provider "aws"
    then not (str_eq c.account "")
      || not (str_eq c.organizational_unit "")
      || not (str_eq c.aws_organization "")
    else if str_eq provider "azure"
    then not (str_eq c.azure_tenant "")
      || not (str_eq c.azure_management_group "")
      || not (str_eq c.azure_subscription "")
      || not (str_eq c.azure_resource_group "")
    else false

unfoldable pub resolve_scope : ScopeRegistry → (String → String) → String → String → String → String
unfolding scope_env_var
resolve_scope registry env provider name flag =
    if not (str_eq flag "")
    then flag
    else (elim (scope_env_var registry provider name) [ none ↦ "" | some var ↦ env var ])

-- The scope fallbacks of `Validate`.
unfoldable pub resolve_scopes : ScopeRegistry → (String → String) → Scan → Scan
unfolding resolve_scope
resolve_scopes registry env c =
    let scope = resolve_scope registry env c.provider in
    if str_eq c.provider "gcp"
    then record c {
      project = scope "project" c.project;
      folder = scope "folder" c.folder;
      organization = scope "organization" c.organization;
    }
    else if str_eq c.provider "aws"
    then record c {
      account = scope "account" c.account;
      organizational_unit = scope "organizational_unit" c.organizational_unit;
      aws_organization = scope "organization" c.aws_organization;
    }
    else if str_eq c.provider "azure"
    then record c {
      azure_tenant = scope "tenant" c.azure_tenant;
      azure_management_group = scope "management_group" c.azure_management_group;
      azure_subscription = scope "subscription" c.azure_subscription;
      azure_resource_group = scope "resource_group" c.azure_resource_group;
    }
    else c

module _ (registry : ScopeRegistry) where
  unfoldable pub providers_set_by_flags : Scan → List String
  unfolding providers provider_flags_set
  providers_set_by_flags c = filter (provider_flags_set c) (providers registry)

  unfoldable pub other_providers_set_by_flags : Scan → String → List String
  unfolding providers_set_by_flags
  other_providers_set_by_flags c provider =
      filter (λ p. not (str_eq p provider)) (providers_set_by_flags c)

  unfoldable pub check_explicit : Scan → Scan × Option (List String)
  unfolding other_providers_set_by_flags
  check_explicit c = elim (other_providers_set_by_flags c c.provider) [
    | [] ↦ (c, none)
    | p ∷ rest ↦ (c, some (c.provider ∷ p ∷ rest))
  ]

module _ (registry : ScopeRegistry) (env : String → String) where
  unfoldable pub provider_env_set : String → Bool
  unfolding scopes_for
  provider_env_set provider =
      any (λ sv. not (str_eq (env sv.env_var) "")) (scopes_for registry provider)

  unfoldable pub providers_set_by_env : List String
  unfolding providers provider_env_set
  providers_set_by_env = filter provider_env_set (providers registry)

  -- The last two tiers: the environment, then the default.
  unfoldable pub resolve_by_env : Scan → Scan × Option (List String)
  unfolding providers_set_by_env
  resolve_by_env c = elim providers_set_by_env [
    | [] ↦ (record c { provider = "gcp" }, none)
    | p ∷ [] ↦ (record c { provider = p }, none)
    | p ∷ q ∷ rest ↦ (c, some (p ∷ q ∷ rest))
  ]

  unfoldable pub resolve_by_flags : Scan → Scan × Option (List String)
  unfolding providers_set_by_flags resolve_by_env
  resolve_by_flags c = elim (providers_set_by_flags registry c) [
    | [] ↦ resolve_by_env c
    | p ∷ [] ↦ (record c { provider = p }, none)
    | p ∷ q ∷ rest ↦ (c, some (p ∷ q ∷ rest))
  ]

  unfoldable pub resolve_provider : Scan → Scan × Option (List String)
  unfolding check_explicit resolve_by_flags
  resolve_provider c =
      if not (str_eq c.provider "")
      then if not (provider_registered registry c.provider)
        then (c, none)
        else check_explicit registry c
      else resolve_by_flags c

unfoldable pub clean_list : List String → List String
unfolding trim_space
clean_list [] = []
clean_list (s ∷ rest) =
    let cleaned = clean_list rest in
    if not (str_eq (trim_space s) "") then trim_space s ∷ cleaned else cleaned

-- `Scan.Scope`
unfoldable pub build_scope : Scan → Scope
build_scope c =
    let none_set : Scope = record { provider = c.provider; gcp = none; aws = none; azure = none } in
    if str_eq c.provider "gcp"
    then record none_set {
      gcp = some (record { project = c.project; folder = c.folder; organization = c.organization });
    }
    else if str_eq c.provider "aws"
    then record none_set {
      aws = some (record {
        account = c.account;
        organizational_unit = c.organizational_unit;
        organization = c.aws_organization;
      });
    }
    else if str_eq c.provider "azure"
    then record none_set {
      azure = some (record {
        tenant = c.azure_tenant;
        management_group = c.azure_management_group;
        subscription = c.azure_subscription;
        resource_group = c.azure_resource_group;
      });
    }
    else none_set
