-- ===== src/Scan/Naming.antt =====
-- The names of GCP scopes tell them apart.
use tellury.Base.{ℕ, String, false, ◌==◌, ◌≡◌, ◌≢◌, refl, ap, none, arith, eq_iff, ◌<>◌}
use Prim.Native.Char.{code}
use text.Mathlib.TextLemmas.{cons-append, append_cancel_left}
use tellury.Scan.Scope.{GcpScope, validate_gcp, gcp_parent}

-- The code of the first letter.
abbrev first_code : String → ℕ
first_code String.[] = 0
first_code (String.◌∷◌ c s) = code c

first_code-append :
    (u s : String) → (first_code u == 0) ≡ false → first_code (u <> s) ≡ first_code u
first_code-append String.[] s h = absurd (ground arith)
first_code-append (String.◌∷◌ c u) s h = ap first_code (cons-append c u s)

prefix_apart :
    (u v s t : String)
    → (first_code u == 0) ≡ false
    → (first_code v == 0) ≡ false
    → (first_code u == first_code v) ≡ false
    → u <> s ≢ v <> t
prefix_apart u v s t hu hv apart e =
    ground (arith, first_code-append u s hu, first_code-append v t hv, ap first_code e)

GcpScope-eq :
    (g h : GcpScope)
    → g.project ≡ h.project
    → g.folder ≡ h.folder
    → g.organization ≡ h.organization
    → g ≡ h
GcpScope-eq g h p q r = λ i. record { project = p i; folder = q i; organization = r i }

-- Two GCP scopes that pass the check and have the same name are the same scope.
pub gcp_parent-inj :
    (g h : GcpScope)
    → validate_gcp g ≡ none
    → validate_gcp h ≡ none
    → gcp_parent g ≡ gcp_parent h
    → g ≡ h
unfolding validate_gcp gcp_parent
gcp_parent-inj g h vg vh e = ground (
  arith,
  GcpScope-eq g h,
  eq_iff g.project "",
  eq_iff h.project "",
  eq_iff g.folder "",
  eq_iff h.folder "",
  eq_iff g.organization "",
  eq_iff h.organization "",
  append_cancel_left "projects/" g.project h.project,
  append_cancel_left "folders/" g.folder h.folder,
  append_cancel_left "organizations/" g.organization h.organization,
  prefix_apart "projects/" "folders/" g.project h.folder refl refl refl,
  prefix_apart "projects/" "organizations/" g.project h.organization refl refl refl,
  prefix_apart "folders/" "projects/" g.folder h.project refl refl refl,
  prefix_apart "folders/" "organizations/" g.folder h.organization refl refl refl,
  prefix_apart "organizations/" "projects/" g.organization h.project refl refl refl,
  prefix_apart "organizations/" "folders/" g.organization h.folder refl refl refl,
)
