-- ===== src/Rules/Samples.antt =====
-- A small graph with a wasted resource of each kind, prices for it, and a pass over it.
use tellury.Base.{
  ℕ, ◌+◌, ◌-◌, ◌*◌, ◌/◌, String, Bool, true, false, ◌≡◌, refl, none, some, List, [], ◌∷◌, str_eq,
  if◌then◌else◌,
}
use tellury.Base.Dict.{Dict, get_or}
use tellury.Float.{Numeric, cents}
use tellury.Graph.Node.{Node, Value, MetricValue, text, number, flag}
use tellury.Graph.Build.{Graph, empty, add_node, freeze}
use tellury.Graph.Reach.{Reach, new, after, adds_node, freezes}
use tellury.Pricing.Cost.{MachineSpec, Sizer}
use tellury.Pricing.Provenance.{Prices}
use tellury.Rules.Types.{Pass, Formats}
use tellury.Rules.Toolbox.{Services, Std}

-- Whole numbers in place of floats: a literal is what it is rounded to.
abbrev literals : Dict ℕ
literals =
    ("2", 2)
    ∷ ("1.0", 1)
    ∷ ("1", 1)
    ∷ ("7.0", 7)
    ∷ ("0.10", 1)
    ∷ ("24", 24)
    ∷ ("100", 100)
    ∷ ("90", 90)
    ∷ ("90.0", 90)
    ∷ ("730.0", 730)
    ∷ ("0.60", 1)
    ∷ ("1.00", 1)
    ∷ ("3000", 3000)
    ∷ ("125", 125)
    ∷ ("128", 128)
    ∷ ("1073741824", 1073741824)
    ∷ ("10737418240", 10737418240)
    ∷ []

abbrev pub wholes : Numeric ℕ
wholes = record {
  order = cents;
  add = ◌+◌;
  sub = ◌-◌;
  mul = ◌*◌;
  div = ◌/◌;
  neg = λ v. v;
  floor = λ v. v;
  round = λ v. v;
  literal = λ s. get_or s 0 literals;
}

abbrev pub library : Std ℕ
library = record {
  show_fixed = λ k v. "n";
  show_number = λ v. "n";
  parse_time = λ s. if str_eq s "long ago" then some 0 else none;
  hours_since = λ now t. now - t;
  to_lower = λ s. s;
  contains_text = str_eq;
  show_count = λ k. "n";
}

abbrev pub shown : Formats ℕ
shown = record { show_value = λ v. "v"; show_number = λ v. "n" }

abbrev machine : String → ℕ → MachineSpec ℕ
machine name vcpu = record {
  name = name;
  family = "e2";
  vcpu = vcpu;
  memory_gib = vcpu + vcpu;
  shared_core = false;
  min_vcpu = 0;
  step_vcpu = 0;
  ram_per_vcpu_min = 0;
  ram_per_vcpu_max = 0;
}

abbrev pub ladder : Sizer ℕ
ladder = record {
  spec = λ name. none;
  family = λ name. "e2";
  ladder = λ family. machine "tiny" 0 ∷ machine "small" 2 ∷ machine "large" 8 ∷ [];
}

abbrev pub prices : Prices ℕ
prices = record {
  pricer = record {
    monthly_cost = λ it. none;
    unit_price = λ kind provider sku region.
        if str_eq sku "small"
        then some (1, region)
        else if str_eq sku "NEARLINE"
        then some (2, region)
        else some (3, region);
  };
  last_lookup = none;
  currency_info = none;
}

abbrev resource : String → String → String → Dict (Value ℕ) → Dict (MetricValue ℕ) → Node ℕ
resource id kind asset_type attrs metrics = record {
  id = id;
  kind = kind;
  name = id;
  provider = "";
  service = "";
  asset_type = asset_type;
  project = "p";
  location = "";
  labels = [];
  attrs = ("creation_timestamp", text "long ago") ∷ attrs;
  metrics = metrics;
  raw = "";
}

abbrev measured : ℕ → MetricValue ℕ
measured value = record {
  value = value;
  unit = "";
  stat = "";
  window_days = 14;
  samples = 168;
  expected_samples = 168;
  coverage = 1;
  source = "";
  aligner = "";
  reducer = "";
  window_start = 0;
  window_end = 0;
}

abbrev nodes : List (Node ℕ)
nodes =
    resource "disk" "disk" ""
      (("size_gb", number 100) ∷ ("disk_type", text "pd-ssd") ∷ ("status", text "READY") ∷ []) []
    ∷ resource "volume" "disk" ""
        (("size_gb", number 10)
          ∷ ("volume_type", text "gp3")
          ∷ ("state", text "available")
          ∷ ("create_time", text "long ago")
          ∷ ("iops", number 3005)
          ∷ [])
        []
    ∷ resource "managed" "disk" ""
        (("disk_size_gb", number 128)
          ∷ ("sku_name", text "Premium_LRS")
          ∷ ("disk_state", text "Unattached")
          ∷ ("time_created", text "long ago")
          ∷ [])
        []
    ∷ resource "ip" "address" ""
        (("address_type", text "EXTERNAL") ∷ ("status", text "RESERVED") ∷ []) []
    ∷ resource "image" "image" "compute.googleapis.com/Image"
        (("source_disk_size_gb", number 20)
          ∷ ("status", text "READY")
          ∷ ("storage_location", text "us")
          ∷ ("references_complete", flag true)
          ∷ [])
        []
    ∷ resource "ami" "image" "aws.ec2.image"
        (("image_id", text "ami")
          ∷ ("state", text "available")
          ∷ ("backing_complete", flag true)
          ∷ ("references_complete", flag true)
          ∷ ("backing_exclusive_size_gb", number 8)
          ∷ [])
        []
    ∷ resource "snapshot" "snapshot" "aws.ec2.snapshot"
        (("snapshot_id", text "s")
          ∷ ("volume_size_gb", number 8)
          ∷ ("state", text "completed")
          ∷ ("ami_created", flag true)
          ∷ ("ami_reference_complete", flag true)
          ∷ ("referenced_by_ami_count", number 0)
          ∷ [])
        []
    ∷ resource "bucket" "bucket" ""
        (("bucket_name", text "b")
          ∷ ("lifecycle_rule_count", number 0)
          ∷ ("storage_class", text "REGIONAL")
          ∷ [])
        (("bucket_total_bytes_mean", measured 107374182400) ∷ [])
    ∷ resource "vm" "instance" ""
        (("machine_type", text "large")
          ∷ ("vcpu_count", number 8)
          ∷ ("memory_gib", number 16)
          ∷ ("machine_family", text "e2")
          ∷ ("status", text "RUNNING")
          ∷ [])
        (("cpu_utilization_p95", measured 0) ∷ [])
    ∷ []

abbrev add_all : Graph ℕ → List (Node ℕ) → Graph ℕ
add_all g [] = g
add_all g (n ∷ ns) = add_all (add_node g (some n)).0 ns

abbrev pub scanned : Graph ℕ
scanned = freeze (add_all empty nodes)

add_all-Reach : (g : Graph ℕ) (ns : List (Node ℕ)) → Reach g → Reach (add_all g ns)
add_all-Reach g [] reached = reached
add_all-Reach g (n ∷ ns) reached =
    add_all-Reach (add_node g (some n)).0 ns (after reached (adds_node g (some n)))

pub scanned-Reach : Reach scanned
scanned-Reach = after (add_all-Reach empty nodes new) (freezes (add_all empty nodes))

abbrev pub scan : Pass ℕ (Services ℕ)
scan = record {
  graph = scanned;
  services = record { prices = prices; sizer = some ladder };
  scope = "p";
  window = 14;
  now = 3000;
  has_skip = true;
}

abbrev pub never : ℕ → Bool
never t = false

pub never_cancelled : (t : ℕ) → never t ≡ false
never_cancelled t = refl
