-- ===== src/Scan/Scope.antt =====
-- pkg/cloud/provider.go: the scope of a scan, its check and its names. A nil block is `none`, and so is
-- a nil error.
use tellury.Base.{
  ℕ, ◌+◌, String, not, ◌&&◌, ◌||◌, ◌==◌, Option, none, some, str_eq, if◌then◌else◌, ◌<>◌,
}

pub record GcpScope : Type 0 where
  pub project : String
  pub folder : String
  pub organization : String

pub record AwsScope : Type 0 where
  pub account : String
  pub organizational_unit : String
  pub organization : String

pub record AzureScope : Type 0 where
  pub tenant : String
  pub management_group : String
  pub subscription : String
  pub resource_group : String

pub record Scope : Type 0 where
  pub provider : String
  pub gcp : Option GcpScope
  pub aws : Option AwsScope
  pub azure : Option AzureScope

pub data ScopeError : Type 0 where
  no_scope_block not_exactly_one group_without_subscription group_with_other : ScopeError
  unknown_provider : String → ScopeError

-- A step of the counts: one more for a dimension that is set.
abbrev pub one_if_set : String → ℕ
one_if_set s = if not (str_eq s "") then 1 else 0

unfoldable pub validate_gcp : GcpScope → Option ScopeError
validate_gcp g =
    if not (one_if_set g.project + one_if_set g.folder + one_if_set g.organization == 1)
    then some not_exactly_one
    else none

unfoldable pub validate_aws : AwsScope → Option ScopeError
validate_aws a =
    if not
      (one_if_set a.account + one_if_set a.organizational_unit + one_if_set a.organization == 1)
    then some not_exactly_one
    else none

unfoldable pub validate_azure : AzureScope → Option ScopeError
validate_azure a =
    if not (str_eq a.resource_group "")
      && (not (str_eq a.tenant "") || not (str_eq a.management_group ""))
    then some group_with_other
    else if not (str_eq a.resource_group "") && str_eq a.subscription ""
    then some group_without_subscription
    else if not
        (one_if_set a.tenant + one_if_set a.management_group + one_if_set a.subscription == 1)
    then some not_exactly_one
    else none

unfoldable pub validate : Scope → Option ScopeError
unfolding validate_gcp validate_aws validate_azure
validate s =
    if str_eq s.provider "gcp"
    then (elim s.gcp [ none ↦ some no_scope_block | some g ↦ validate_gcp g ])
    else if str_eq s.provider "aws"
    then (elim s.aws [ none ↦ some no_scope_block | some a ↦ validate_aws a ])
    else if str_eq s.provider "azure"
    then (elim s.azure [ none ↦ some no_scope_block | some a ↦ validate_azure a ])
    else some (unknown_provider s.provider)

unfoldable pub gcp_parent : GcpScope → String
gcp_parent g =
    if not (str_eq g.project "")
    then "projects/" <> g.project
    else if not (str_eq g.folder "")
    then "folders/" <> g.folder
    else if not (str_eq g.organization "")
    then "organizations/" <> g.organization
    else ""

unfoldable pub parent : Scope → String
unfolding gcp_parent
parent s =
    if str_eq s.provider "gcp" then (elim s.gcp [ none ↦ "" | some g ↦ gcp_parent g ]) else ""

unfoldable pub aws_string : AwsScope → String
aws_string a =
    if not (str_eq a.account "")
    then "accounts/" <> a.account
    else if not (str_eq a.organizational_unit "")
    then "organizational-units/" <> a.organizational_unit
    else if not (str_eq a.organization "")
    then "organizations/" <> a.organization
    else ""

unfoldable pub azure_string : AzureScope → String
azure_string a =
    if not (str_eq a.tenant "")
    then "tenants/" <> a.tenant
    else if not (str_eq a.management_group "")
    then "management-groups/" <> a.management_group
    else if not (str_eq a.subscription "") && not (str_eq a.resource_group "")
    then "subscriptions/" <> (a.subscription <> ("/resourceGroups/" <> a.resource_group))
    else if not (str_eq a.subscription "")
    then "subscriptions/" <> a.subscription
    else ""

-- `String`
unfoldable pub scope_string : Scope → String
unfolding gcp_parent aws_string azure_string
scope_string s =
    if str_eq s.provider "gcp"
    then (elim s.gcp [ none ↦ "" | some g ↦ gcp_parent g ])
    else if str_eq s.provider "aws"
    then (elim s.aws [ none ↦ "" | some a ↦ aws_string a ])
    else if str_eq s.provider "azure"
    then (elim s.azure [ none ↦ "" | some a ↦ azure_string a ])
    else ""
