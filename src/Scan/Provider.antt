-- ===== src/Scan/Provider.antt =====
-- `resolveProvider` and the scope fallbacks.
use tellury.Base.{
  str_eq_refl, String, Bool, true, not, ◌&&◌, ◌||◌, ◌≡◌, ◌≢◌, refl, sym, ap, ◌∙◌, none, some, List,
  [], ◌∷◌, arith, str_eq, eq_iff, if_ind, Option-cases, inl, inr,
}
use mathlib.Core.Path.{subst}
use tellury.Base.Dict.{Dict, lookup, get_or, has_key, NodupKeys}
use tellury.Base.Names.{IsSetOf, contains, Distinct, filter-keys-IsSetOf}
use tellury.Scan.Scopes.{ScopeRegistry, ScopeEntry, scope_entry, scope_env_var, providers}
use tellury.Scan.Config.{
  Scan, provider_flags_set, providers_set_by_flags, resolve_by_flags, resolve_provider,
  resolve_scope, resolve_scopes,
}

-- Whether a registered provider has a flag set.
abbrev pub flagged : ScopeRegistry → Scan → String → Bool
flagged registry c provider = has_key provider registry && provider_flags_set c provider

module _ (registry : ScopeRegistry) (nodup : NodupKeys registry) (c : Scan) where
  set_by_flags-IsSetOf : IsSetOf (flagged registry c) (providers_set_by_flags registry c)
  unfolding providers_set_by_flags providers
  set_by_flags-IsSetOf = filter-keys-IsSetOf (provider_flags_set c) registry nodup

only_one :
    (p : String) (ps : List String)
    → Distinct ps
    → contains p ps ≡ true
    → ((q : String) → contains q ps ≡ true → q ≡ p)
    → ps ≡ p ∷ []
only_one p [] d h only = absurd (ground arith)
only_one p (x ∷ []) d h only = ground (arith, only x, str_eq_refl x)
only_one p (x ∷ y ∷ ps) d h only =
    ground (arith, only x, only y, str_eq_refl x, str_eq_refl y, eq_iff x y, eq_iff y x)

at_least_two :
    (p q : String) (ps : List String)
    → p ≢ q
    → contains p ps ≡ true
    → contains q ps ≡ true
    → (a b : String) × (rest : List String) × (ps ≡ a ∷ b ∷ rest)
at_least_two p q [] apart h k = absurd (ground arith)
at_least_two p q (x ∷ []) apart h k = absurd (apart (ground (arith, eq_iff x p, eq_iff x q)))
at_least_two p q (x ∷ y ∷ ps) apart h k = (x, y, ps, refl)

module _ (registry : ScopeRegistry) (env : String → String) (c : Scan) where
  flags_win :
      (env' : String → String) (p : String) (ps : List String)
      → providers_set_by_flags registry c ≡ ps
      → contains p ps ≡ true
      → resolve_by_flags registry env c ≡ resolve_by_flags registry env' c
  unfolding resolve_by_flags
  flags_win env' p [] e h = absurd (ground arith)
  flags_win env' p (a ∷ []) e h = rw (e, resolve_by_flags) refl
  flags_win env' p (a ∷ b ∷ ps) e h = rw (e, resolve_by_flags) refl

  -- In a registry without a provider twice, a provider that is named, or a flag of a registered
  -- provider, keeps the environment out: any other environment gives the same result.
  pub resolve_provider-env :
      (env' : String → String)
      → NodupKeys registry
      → (p : String) → (not (str_eq c.provider "") || flagged registry c p) ≡ true
      → resolve_provider registry env c ≡ resolve_provider registry env' c
  unfolding resolve_provider resolve_by_flags
  resolve_provider-env env' nodup p h =
      let (sorted, distinct, complete) = set_by_flags-IsSetOf registry nodup c in
      if_ind (λ r. r ≡ resolve_provider registry env' c) (not (str_eq c.provider ""))
        (λ named. rw (named, resolve_provider) refl)
        λ unnamed.
          rw (unnamed, resolve_provider)
            (flags_win env' p (providers_set_by_flags registry c) refl (ground (arith, complete p)))

  -- Without `--provider`, and in a registry without a provider twice, a registered provider is chosen
  -- if it is the only registered one with a flag set.
  resolve_provider-one :
      NodupKeys registry
      → (p : String) → c.provider ≡ ""
      → flagged registry c p ≡ true
      → ((q : String) → flagged registry c q ≡ true → q ≡ p)
      → resolve_provider registry env c ≡ (record c { provider = p }, none)
  unfolding resolve_provider resolve_by_flags
  resolve_provider-one nodup p unnamed set only =
      let (sorted, distinct, complete) = set_by_flags-IsSetOf registry nodup c in
      let one : providers_set_by_flags registry c ≡ p ∷ [] =
        only_one p (providers_set_by_flags registry c) distinct (complete p ∙ set)
          (λ q h. only q (sym (complete q) ∙ h)) in
      rw (ap (λ s. str_eq s "") unnamed, one, resolve_provider, resolve_by_flags) refl

  -- Without `--provider`, and in a registry without a provider twice, flags of two registered
  -- providers are a conflict, which names every
  -- registered provider with a flag set, each once, in order; the scan is left as it was.
  pub resolve_provider-conflict :
      NodupKeys registry
      → (p q : String) → c.provider ≡ ""
      → p ≢ q
      → flagged registry c p ≡ true
      → flagged registry c q ≡ true
      → (ps : List String) × (resolve_provider registry env c ≡ (c, some ps))
        × IsSetOf (flagged registry c) ps
  unfolding resolve_provider resolve_by_flags
  resolve_provider-conflict nodup p q unnamed apart set_p set_q =
      let (sorted, distinct, complete) = set_by_flags-IsSetOf registry nodup c in
      let (a, b, rest, two) =
        at_least_two p q (providers_set_by_flags registry c) apart (complete p ∙ set_p)
          (complete q ∙ set_q) in
      (
        a ∷ b ∷ rest,
        rw (ap (λ s. str_eq s "") unnamed, two, resolve_provider, resolve_by_flags) refl,
        subst (IsSetOf (flagged registry c)) two (sorted, distinct, complete),
      )

  resolve_scope-env :
      (env' : String → String) (name flag : String)
      → ((var : String) → scope_env_var registry c.provider name ≡ some var → env var ≡ env' var)
      → resolve_scope registry env c.provider name flag
        ≡ resolve_scope registry env' c.provider name flag
  unfolding resolve_scope
  resolve_scope-env env' name flag same =
      elim (Option-cases (scope_env_var registry c.provider name)) [
        | inl undeclared ↦ ground arith
        | inr (var, declared) ↦ ground (arith, same var)
      ]

  of_entry :
      (env' : String → String)
      → ((declared : Dict ScopeEntry) (name : String) (entry : ScopeEntry)
          → lookup c.provider registry ≡ some declared
          → lookup name declared ≡ some entry
          → env entry.env_var ≡ env' entry.env_var)
      → (name var : String) → scope_env_var registry c.provider name ≡ some var
      → env var ≡ env' var
  unfolding scope_env_var scope_entry get_or
  of_entry env' same name var found = elim (Option-cases (lookup c.provider registry)) [
    | inl unknown ↦
        absurd (ground (arith, rw (unknown, scope_env_var, scope_entry, get_or) at found))
    | inr (declared, is_declared) ↦ elim (Option-cases (lookup name declared)) [
      | inl missing ↦
          absurd
            (ground (arith, rw (is_declared, missing, scope_env_var, scope_entry, get_or) at found))
      | inr (entry, there) ↦
          let same_var : some entry.env_var ≡ some var =
            rw (is_declared, there, scope_env_var, scope_entry, get_or) at found in
          ground (arith, same declared name entry is_declared there, same_var)
    ]
  ]

  -- The scope fallbacks read only variables that stand in the entry of the scan's own provider in the
  -- registry: environments that agree on these give the same scan.
  pub resolve_scopes-env :
      (env' : String → String)
      → ((declared : Dict ScopeEntry) (name : String) (entry : ScopeEntry)
          → lookup c.provider registry ≡ some declared
          → lookup name declared ≡ some entry
          → env entry.env_var ≡ env' entry.env_var)
      → resolve_scopes registry env c ≡ resolve_scopes registry env' c
  unfolding resolve_scopes
  resolve_scopes-env env' same =
      let scope : (name flag : String)
          → resolve_scope registry env c.provider name flag
            ≡ resolve_scope registry env' c.provider name flag =
        λ name flag.
          resolve_scope-env env' name flag (λ var found. of_entry env' same name var found) in
      ground (
        arith,
        scope "project" c.project,
        scope "folder" c.folder,
        scope "organization" c.organization,
        scope "account" c.account,
        scope "organizational_unit" c.organizational_unit,
        scope "organization" c.aws_organization,
        scope "tenant" c.azure_tenant,
        scope "management_group" c.azure_management_group,
        scope "subscription" c.azure_subscription,
        scope "resource_group" c.azure_resource_group,
      )
