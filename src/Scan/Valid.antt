-- ===== src/Scan/Valid.antt =====
-- The tests of `Validate` of internal/config/config.go hold of what it leaves.
use tellury.Base.{
  eq_iff, ℕ, ◌≤◌, String, Bool, true, false, not, ◌&&◌, ◌||◌, ◌≡◌, ◌⊎◌, inl, inr, refl, ap, ◌∙◌,
  Option, none, some, str_eq, arith, if_ind, Bool-cases, Option-cases,
}
use tellury.Base.Int.{ℤ, pos, negsuc}
use tellury.Float.{Numeric}
use tellury.Rules.Order.{parse_sort_order}
use tellury.Scan.Scope.{validate}
use tellury.Scan.Scopes.{ScopeRegistry, provider_registered}
use tellury.Scan.Config.{Scan, resolve_provider, resolve_scopes, build_scope}
use tellury.Scan.Validate.{
  Settings, Refusal, offline, valid_progress_mode, valid_currency_code, default_window,
  out_of_window, or_default, known_format, resolve_currency, resolve_progress, validate_rest,
  validate_numbers, validate_output, validate_scope, validate_scan,
}

days-InRange :
    (days : ℤ) → out_of_window days ≡ false → (n : ℕ) × (days ≡ pos n) × (7 ≤ n) × (n ≤ 30)
unfolding out_of_window
days-InRange (pos n) h = (n, refl, ground arith, ground arith)
days-InRange (negsuc n) h = absurd cc

out_dir-set : (s : String) → str_eq (or_default s "tellury-out") "" ≡ false
unfolding or_default
out_dir-set s = if_ind (λ t. str_eq t "" ≡ false) (str_eq s "") (λ empty. refl) (λ given. given)

or_false : (a b : Bool) → (a || b) ≡ false → (a ≡ false) × (b ≡ false)
or_false a b h = ground arith

true_of_not : (b : Bool) → not b ≡ false → b ≡ true
true_of_not b h = ground arith

module _ {F : Type 0} (x : Numeric F) (to_lower to_upper : String → String)
    (registry : ScopeRegistry) (env : String → String) where
  abbrev pub IsSettled : Settings F → Type 0
  IsSettled c =
      (provider_registered registry c.scan.provider ≡ true)
      × (valid_progress_mode c.progress ≡ true)

  abbrev pub IsScoped : Settings F → Type 0
  IsScoped c = (offline c ≡ true) ⊎ (validate (build_scope c.scan) ≡ none)

  abbrev pub IsShown : Settings F → Type 0
  IsShown c =
      (known_format to_lower c.format ≡ true)
      × ((order : String) × (parse_sort_order c.sort ≡ some order))

  abbrev pub IsBounded : Settings F → Type 0
  IsBounded c =
      ((days : ℕ) × (c.window_days ≡ pos days) × (7 ≤ days) × (days ≤ 30))
      × (x.order.lt c.min_confidence (x.literal "0") ≡ false)
      × (x.order.lt (x.literal "1") c.min_confidence ≡ false)
      × (x.order.lt c.min_waste (x.literal "0") ≡ false)

  abbrev pub IsPriced : Settings F → Type 0
  IsPriced c =
      ((c.currency ≡ "") ⊎ (valid_currency_code c.currency ≡ true)) × (str_eq c.out_dir "" ≡ false)

  -- What the tests of the code say of the settings.
  pub record IsValid (c : Settings F) : Type 0 where
    pub settled : IsSettled c
    pub scoped : IsScoped c
    pub shown : IsShown c
    pub bounded : IsBounded c
    pub priced : IsPriced c

  code_or_none :
      (s : String)
      → (not (str_eq s "") && not (valid_currency_code s)) ≡ false
      → (s ≡ "") ⊎ (valid_currency_code s ≡ true)
  code_or_none s h = elim (Bool-cases (str_eq s "")) [
    | inl empty ↦ inl ((eq_iff s "").0 empty)
    | inr given ↦ inr (ground arith)
  ]

  -- A result whose settings are valid unless there is an error.
  pub record IsSound (result : Settings F × Option Refusal) : Type 0 where
    pub valid : result.1 ≡ none → IsValid result.0

  refused-IsSound : (c : Settings F) (e : Refusal) → IsSound (c, some e)
  refused-IsSound c e = record { valid = λ h. absurd cc }

  validate_rest-IsSound :
      (c : Settings F)
      → IsSettled c
      → IsScoped c
      → IsShown c
      → IsBounded c
      → IsSound (validate_rest x to_lower to_upper registry env c)
  unfolding validate_rest
  validate_rest-IsSound c settled scoped shown bounded =
      let currency = resolve_currency x to_lower to_upper registry env c.currency in
      elim (Bool-cases (not (str_eq currency "") && not (valid_currency_code currency))) [
        | inl bad ↦ rw bad (refused-IsSound _ _)
        | inr ok ↦ rw ok (record {
          valid = λ h. record {
            settled = settled;
            scoped = scoped;
            shown = shown;
            bounded = bounded;
            priced = (code_or_none _ ok, out_dir-set c.out_dir);
          };
        })
      ]

  validate_numbers-IsSound :
      (c : Settings F)
      → IsSettled c
      → IsScoped c
      → IsShown c
      → IsSound (validate_numbers x to_lower to_upper registry env c)
  unfolding validate_numbers
  validate_numbers-IsSound c settled scoped shown =
      let days = default_window c.window_days in
      let unlikely =
        x.order.lt c.min_confidence (x.literal "0")
        || x.order.lt (x.literal "1") c.min_confidence in
      elim (Bool-cases (out_of_window days)) [
        | inl bad ↦ rw bad (refused-IsSound _ _)
        | inr in_window ↦ elim (Bool-cases unlikely) [
          | inl bad ↦ rw (in_window, bad) (refused-IsSound _ _)
          | inr likely ↦ elim (Bool-cases (x.order.lt c.min_waste (x.literal "0"))) [
            | inl bad ↦ rw (in_window, likely, bad) (refused-IsSound _ _)
            | inr not_negative ↦
                let d : Settings F = record c { window_days = days } in
                let ends = or_false _ _ likely in
                rw (in_window, likely, not_negative)
                  (validate_rest-IsSound d settled scoped shown
                    (days-InRange days in_window, ends.0, ends.1, not_negative))
          ]
        ]
      ]

  validate_output-IsSound :
      (c : Settings F)
      → IsSettled c
      → IsScoped c
      → IsSound (validate_output x to_lower to_upper registry env c)
  unfolding validate_output
  validate_output-IsSound c settled scoped =
      let d : Settings F = record c { sort = or_default c.sort "waste" } in
      elim (Bool-cases (not (known_format to_lower c.format))) [
        | inl bad ↦ rw bad (refused-IsSound _ _)
        | inr known ↦ elim (Option-cases (parse_sort_order d.sort)) [
          | inl absent ↦ rw (known, absent) (refused-IsSound _ _)
          | inr (order, found) ↦
              rw (known, found)
                (validate_numbers-IsSound d settled scoped (true_of_not _ known, (order, found)))
        ]
      ]

  validate_scope-IsSound :
      (c : Settings F) → IsSettled c → IsSound (validate_scope x to_lower to_upper registry env c)
  unfolding validate_scope
  validate_scope-IsSound c settled = elim (Option-cases (validate (build_scope c.scan))) [
    | inl fine ↦ rw (fine, validate_scope) (validate_output-IsSound c settled (inr fine))
    | inr (e, found) ↦ elim (Bool-cases (not (offline c))) [
      | inl bad ↦ rw (found, bad, validate_scope) (refused-IsSound _ _)
      | inr replay ↦
          rw (found, replay, validate_scope)
            (validate_output-IsSound c settled (inl (true_of_not _ replay)))
    ]
  ]

  provider-resolve_scopes : (c : Scan) → (resolve_scopes registry env c).provider ≡ c.provider
  unfolding resolve_scopes
  provider-resolve_scopes c = ground arith

  pub validate_scan-IsSound :
      (c : Settings F) → IsSound (validate_scan x to_lower to_upper registry env c)
  unfolding validate_scan
  validate_scan-IsSound c =
      let settled = resolve_provider registry env c.scan in
      let progress = resolve_progress x to_lower to_upper registry env c.progress in
      elim (Option-cases settled.1) [
        | inr (names, found) ↦ rw (found, validate_scan) (refused-IsSound _ _)
        | inl agreed ↦ elim (Bool-cases (not (provider_registered registry settled.0.provider))) [
          | inl bad ↦ rw (agreed, bad, validate_scan) (refused-IsSound _ _)
          | inr registered ↦ elim (Bool-cases (not (valid_progress_mode progress))) [
            | inl bad ↦ rw (agreed, registered, bad, validate_scan) (refused-IsSound _ _)
            | inr mode ↦
                let d : Settings F = record c {
                  scan = resolve_scopes registry env settled.0;
                  progress = progress;
                } in
                rw (agreed, registered, mode, validate_scan)
                  (validate_scope-IsSound d (
                    ap (provider_registered registry) (provider-resolve_scopes settled.0)
                        ∙ true_of_not _ registered,
                    true_of_not _ mode,
                  ))
          ]
        ]
      ]
