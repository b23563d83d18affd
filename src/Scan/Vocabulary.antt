-- ===== src/Scan/Vocabulary.antt =====
-- What `RegisterScopes` makes of the registry.
use tellury.Base.{
  String, Bool, true, false, not, ◌||◌, ◌≡◌, refl, Option, none, some, List, [], ◌∷◌, arith, all,
  str_eq, eq_iff, if◌then◌else◌, if_ind,
}
use tellury.Base.Dict.{
  Dict, lookup, insert, get_or, has_key, NodupKeys, lookup-insert, insert-NodupKeys,
}
use tellury.Scan.Scopes.{
  ScopeVar, ScopeEntry, ScopeRegistry, add_vars, register_scopes, scope_entry,
}

abbrev pub is_complete : ScopeVar → Bool
is_complete v = not (str_eq v.name "" || str_eq v.flag "" || str_eq v.env_var "")

-- The last variable of a list that declares a name.
abbrev pub last_declared : String → List ScopeVar → Option ScopeEntry
last_declared name [] = none
last_declared name (v ∷ vars) = elim (last_declared name vars) [
  | some e ↦ some e
  | none ↦ if str_eq v.name name then some (record { flag = v.flag; env_var = v.env_var }) else none
]

-- What a call of `RegisterScopes` does.
abbrev pub Declared : ScopeRegistry → String → List ScopeVar → Option ScopeRegistry → Type 0
Declared registry provider vars none =
    (str_eq provider "" || has_key provider registry || not (all is_complete vars)) ≡ true
Declared registry provider vars (some registry') =
    (has_key provider registry ≡ false)
    × NodupKeys registry'
    × ((q name : String)
        → scope_entry registry' q name
          ≡ (if str_eq provider q then last_declared name vars else scope_entry registry q name))

-- What the loop over the variables does.
abbrev Filled : List ScopeVar → Dict ScopeEntry → Option (Dict ScopeEntry) → Type 0
Filled vars m none = all is_complete vars ≡ false
Filled vars m (some m') =
    (name : String)
    → lookup name m' ≡ (elim (last_declared name vars) [ none ↦ lookup name m | some e ↦ some e ])

Filled-cons :
    (v : ScopeVar) (vars : List ScopeVar) (m : Dict ScopeEntry) (o : Option (Dict ScopeEntry))
    → Filled vars (insert v.name (record { flag = v.flag; env_var = v.env_var }) m) o
    → Filled (v ∷ vars) m o
Filled-cons v vars m none h = ground arith
Filled-cons v vars m (some m') h = λ name.
    ground
      (arith, h name, lookup-insert name v.name (record { flag = v.flag; env_var = v.env_var }) m)

add_vars-Filled : (vars : List ScopeVar) (m : Dict ScopeEntry) → Filled vars m (add_vars vars m)
unfolding add_vars
add_vars-Filled [] m = λ name. refl
add_vars-Filled (v ∷ vars) m =
    if_ind (Filled (v ∷ vars) m) (str_eq v.name "" || str_eq v.flag "" || str_eq v.env_var "")
      (λ incomplete. ground arith) λ complete. Filled-cons v vars m _ (add_vars-Filled vars _)

-- The map of the provider is entered.
enter :
    (registry : ScopeRegistry) (provider : String) (vars : List ScopeVar)
    (o : Option (Dict ScopeEntry))
    → NodupKeys registry
    → has_key provider registry ≡ false
    → Filled vars [] o
    → Declared registry provider vars
        (elim o [ none ↦ none | some m ↦ some (insert provider m registry) ])
unfolding scope_entry get_or lookup
enter registry provider vars none nodup new h = ground arith
enter registry provider vars (some m) nodup new h = (
  new,
  insert-NodupKeys provider m registry nodup,
  λ q name. ground (arith, h name, lookup-insert q provider m registry, eq_iff provider q),
)

-- In a registry without a provider twice, `RegisterScopes` panics only for an empty or a registered provider, or a variable with an empty
-- field. Otherwise the provider is new, and at it the registry answers with the last variable that
-- declares a name; at every other provider it answers as before.
pub register_scopes-Declared :
    (registry : ScopeRegistry) (provider : String) (vars : List ScopeVar)
    → NodupKeys registry
    → Declared registry provider vars (register_scopes registry provider vars)
unfolding register_scopes scope_entry get_or
register_scopes-Declared registry provider vars nodup =
    if_ind (Declared registry provider vars) (str_eq provider "") (λ unnamed. ground arith)
      λ named.
        if_ind (Declared registry provider vars) (has_key provider registry) (λ dup. ground arith)
          λ new. enter registry provider vars (add_vars vars []) nodup new (add_vars-Filled vars [])
