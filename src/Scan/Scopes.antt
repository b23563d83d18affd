-- ===== src/Scan/Scopes.antt =====
-- pkg/cloud/scope.go: the registry of the scope dimensions that each provider declares. A call of
-- `RegisterScopes` that panics is `none`. The mutex makes each operation one step.
use tellury.Base.{
  String, Bool, ◌||◌, Option, none, some, List, [], ◌∷◌, str_eq, str_ltb, if◌then◌else◌,
}
use tellury.Base.Sort
use tellury.Base.Dict.{Dict, lookup, insert, get_or, has_key, keys}
use tellury.Base.Names.{sort_names}

pub record ScopeVar : Type 0 where
  pub name : String
  pub flag : String
  pub env_var : String

pub record ScopeEntry : Type 0 where
  pub flag : String
  pub env_var : String

abbrev pub ScopeRegistry : Type 0
ScopeRegistry = Dict (Dict ScopeEntry)

-- The loop that fills the map of a provider; `none` at a variable with an empty field.
unfoldable pub add_vars : List ScopeVar → Dict ScopeEntry → Option (Dict ScopeEntry)
unfolding insert
add_vars [] m = some m
add_vars (v ∷ vars) m =
    let rest = add_vars vars (insert v.name (record { flag = v.flag; env_var = v.env_var }) m) in
    if str_eq v.name "" || str_eq v.flag "" || str_eq v.env_var "" then none else rest

unfoldable pub register_scopes : ScopeRegistry → String → List ScopeVar → Option ScopeRegistry
unfolding add_vars insert
register_scopes registry provider vars =
    if str_eq provider ""
    then none
    else if has_key provider registry
    then none
    else (elim (add_vars vars []) [ none ↦ none | some m ↦ some (insert provider m registry) ])

-- `scopeRegistry[provider][name]`, where an unknown provider reads as an empty map.
unfoldable pub scope_entry : ScopeRegistry → String → String → Option ScopeEntry
unfolding lookup get_or
scope_entry registry provider name = lookup name (get_or provider [] registry)

unfoldable pub scope_env_var : ScopeRegistry → String → String → Option String
unfolding scope_entry
scope_env_var registry provider name = elim (scope_entry registry provider name) [
  | none ↦ none
  | some e ↦ some e.env_var
]

unfoldable pub scope_flag : ScopeRegistry → String → String → Option String
unfolding scope_entry
scope_flag registry provider name = elim (scope_entry registry provider name) [
  | none ↦ none
  | some e ↦ some e.flag
]

unfoldable pub providers : ScopeRegistry → List String
providers registry = sort_names (keys registry)

abbrev pub provider_registered : ScopeRegistry → String → Bool
provider_registered registry provider = has_key provider registry

unfoldable pub scope_vars : Dict ScopeEntry → List ScopeVar
scope_vars [] = []
scope_vars ((name, e) ∷ m) =
    record { name = name; flag = e.flag; env_var = e.env_var } ∷ scope_vars m

abbrev pub scope_less : ScopeVar → ScopeVar → Bool
scope_less a b = str_ltb a.name b.name

unfoldable pub scopes_for : ScopeRegistry → String → List ScopeVar
unfolding scope_vars get_or
scopes_for registry provider = Sort.sort scope_less (scope_vars (get_or provider [] registry))
