-- ===== src/Rules/CloudExamples.antt =====
-- The rules of the three clouds on the small graph, and the theorems on them.
use tellury.Base.{ℕ, String, ◌≡◌, refl, Option, none, some, List, [], ◌∷◌, map, Every}
use tellury.Base.Sort
use tellury.Base.Dict.{list_at, map_values, insert, push}
use tellury.Graph.Node.{metric_ok}
use tellury.Rules.Types.{set}
use tellury.Float.{cents-IsOrdered}
use tellury.Graph.Walk.{nodes_at}
use tellury.Graph.Build.{freeze, add_node, put_node, seal, prune}
use tellury.Rules.Adapt.{Run, eval_node_rule}
use tellury.Rules.Contract.{promised_findings}
use tellury.Rules.Samples.{
  wholes, library, shown, scanned, scanned-Reach, scan, never, never_cancelled, ladder, prices,
}
use tellury.Rules.Gcp.Shape.{find_candidate}
use tellury.Rules.Gcp.Shape.Candidate.{Found, find_candidate-Found}
use tellury.Rules.Gcp.DetachedDisk.{detached_disk}
use tellury.Rules.Gcp.DetachedDisk.Findings.{IsDetachedFinding, eval_node_rule-detached_disk}
use tellury.Rules.Gcp.UnderutilizedInstance.{underutilized_instance}
use tellury.Rules.Gcp.UnderutilizedInstance.Promise.{
  instance_promise, eval_node_rule-underutilized_instance,
}
use tellury.Rules.Aws.UnattachedEbsVolume.{unattached_ebs_volume}
use tellury.Rules.Aws.UnattachedEbsVolume.Promise.{
  volume_promise, eval_node_rule-unattached_ebs_volume,
}
use tellury.Rules.Azure.UnattachedManagedDisk.{unattached_managed_disk}
use tellury.Rules.Azure.UnattachedManagedDisk.Promise.{
  managed_disk_promise, eval_node_rule-unattached_managed_disk,
}
use tellury.Rules.Gcp.NoLifecyclePolicy.{no_lifecycle_policy, normalize_storage_class}
use tellury.Rules.Gcp.NoLifecyclePolicy.Promise.{
  lifecycle_promise, eval_node_rule-no_lifecycle_policy,
}
use tellury.Rules.Gcp.UnusedCustomImage.{unused_custom_image}
use tellury.Rules.Gcp.UnusedCustomImage.Promise.{
  custom_image_promise, eval_node_rule-unused_custom_image,
}
use tellury.Rules.Gcp.UnusedReservedIp.{unused_reserved_ip}
use tellury.Rules.Gcp.UnusedReservedIp.Promise.{
  reserved_ip_contract, eval_node_rule-unused_reserved_ip,
}
use tellury.Rules.Aws.UnusedAmi.{unused_ami}
use tellury.Rules.Aws.UnusedAmi.Promise.{ami_contract, eval_node_rule-unused_ami}
use tellury.Rules.Aws.OrphanedAmiSnapshot.{orphaned_ami_snapshot}
use tellury.Rules.Aws.OrphanedAmiSnapshot.Promise.{
  orphan_contract, eval_node_rule-orphaned_ami_snapshot,
}

abbrev wastes : Option (Run ℕ) → List (String × ℕ)
wastes none = []
wastes (some r) = map (λ fd. (fd.resource_id, fd.monthly_waste)) r.findings

eval_node_rule-detached_disk_example :
    (r : Run ℕ) × (eval_node_rule wholes.order shown never (detached_disk wholes library) scan
      ≡ some r)
    × Every (IsDetachedFinding wholes library scan) r.findings
eval_node_rule-detached_disk_example =
    eval_node_rule-detached_disk wholes library scan shown never cents-IsOrdered scanned-Reach

eval_node_rule-underutilized_instance_example :
    (r : Run ℕ) × (eval_node_rule wholes.order shown never
        (underutilized_instance wholes library)
        scan
      ≡ some r)
    × (r.findings
        ≡ promised_findings wholes.order
            (instance_promise wholes library shown scan)
            (nodes_at scanned.nodes (list_at "instance" scanned.by_kind)))
eval_node_rule-underutilized_instance_example =
    eval_node_rule-underutilized_instance wholes library shown scan never never_cancelled
      scanned-Reach

eval_node_rule-unattached_ebs_volume_example :
    (r : Run ℕ) × (eval_node_rule wholes.order shown never
        (unattached_ebs_volume wholes library)
        scan
      ≡ some r)
    × (r.findings
        ≡ promised_findings wholes.order
            (volume_promise wholes library shown scan)
            (nodes_at scanned.nodes (list_at "disk" scanned.by_kind)))
eval_node_rule-unattached_ebs_volume_example =
    eval_node_rule-unattached_ebs_volume wholes library shown scan never never_cancelled
      scanned-Reach

eval_node_rule-unattached_managed_disk_example :
    (r : Run ℕ) × (eval_node_rule wholes.order shown never
        (unattached_managed_disk wholes library)
        scan
      ≡ some r)
    × (r.findings
        ≡ promised_findings wholes.order
            (managed_disk_promise wholes library shown scan)
            (nodes_at scanned.nodes (list_at "disk" scanned.by_kind)))
eval_node_rule-unattached_managed_disk_example =
    eval_node_rule-unattached_managed_disk wholes library shown scan never never_cancelled
      scanned-Reach

eval_node_rule-no_lifecycle_policy_example :
    (r : Run ℕ) × (eval_node_rule wholes.order shown never (no_lifecycle_policy wholes library) scan
      ≡ some r)
    × (r.findings
        ≡ promised_findings wholes.order
            (lifecycle_promise wholes library shown scan)
            (nodes_at scanned.nodes (list_at "bucket" scanned.by_kind)))
eval_node_rule-no_lifecycle_policy_example =
    eval_node_rule-no_lifecycle_policy wholes library shown scan never never_cancelled scanned-Reach

eval_node_rule-unused_custom_image_example :
    (r : Run ℕ) × (eval_node_rule wholes.order shown never (unused_custom_image wholes library) scan
      ≡ some r)
    × (r.findings
        ≡ promised_findings wholes.order
            (custom_image_promise wholes library shown scan)
            (nodes_at scanned.nodes (list_at "image" scanned.by_kind)))
eval_node_rule-unused_custom_image_example =
    eval_node_rule-unused_custom_image wholes library shown scan never never_cancelled scanned-Reach

eval_node_rule-unused_reserved_ip_example :
    (r : Run ℕ) × (eval_node_rule wholes.order shown never (unused_reserved_ip wholes library) scan
      ≡ some r)
    × (r.findings
        ≡ promised_findings wholes.order
            (reserved_ip_contract wholes library shown scan)
            (nodes_at scanned.nodes (list_at "address" scanned.by_kind)))
eval_node_rule-unused_reserved_ip_example =
    eval_node_rule-unused_reserved_ip wholes library shown scan never never_cancelled scanned-Reach

eval_node_rule-unused_ami_example :
    (r : Run ℕ) × (eval_node_rule wholes.order shown never (unused_ami wholes library) scan
      ≡ some r)
    × (r.findings
        ≡ promised_findings wholes.order
            (ami_contract wholes library shown scan)
            (nodes_at scanned.nodes (list_at "image" scanned.by_kind)))
eval_node_rule-unused_ami_example =
    eval_node_rule-unused_ami wholes library shown scan never never_cancelled scanned-Reach

eval_node_rule-orphaned_ami_snapshot_example :
    (r : Run ℕ) × (eval_node_rule wholes.order shown never
        (orphaned_ami_snapshot wholes library)
        scan
      ≡ some r)
    × (r.findings
        ≡ promised_findings wholes.order
            (orphan_contract wholes library shown scan)
            (nodes_at scanned.nodes (list_at "snapshot" scanned.by_kind)))
eval_node_rule-orphaned_ami_snapshot_example =
    eval_node_rule-orphaned_ami_snapshot wholes library shown scan never never_cancelled
      scanned-Reach

find_candidate-Found_example :
    Found wholes prices.pricer 8 0 (ladder.ladder "e2") (find_candidate wholes scan "e2" 8 0)
find_candidate-Found_example = find_candidate-Found wholes scan ladder "e2" 8 0 refl

-- What each rule finds wasted.
found :
    (wastes (eval_node_rule wholes.order shown never (detached_disk wholes library) scan)
      ≡ ("disk", 300) ∷ [])
    × (wastes (eval_node_rule wholes.order shown never (unattached_ebs_volume wholes library) scan)
        ≡ ("volume", 45) ∷ [])
    × (wastes
          (eval_node_rule wholes.order shown never (unattached_managed_disk wholes library) scan)
        ≡ ("managed", 3) ∷ [])
    × (wastes (eval_node_rule wholes.order shown never (no_lifecycle_policy wholes library) scan)
        ≡ ("bucket", 100) ∷ [])
    × (wastes (eval_node_rule wholes.order shown never (underutilized_instance wholes library) scan)
        ≡ ("vm", 1460) ∷ [])
unfolding eval_node_rule freeze add_node put_node seal prune Sort.sort map_values insert push
    detached_disk set unattached_ebs_volume unattached_managed_disk no_lifecycle_policy
    normalize_storage_class metric_ok underutilized_instance
found = (refl, refl, refl, refl, refl)
