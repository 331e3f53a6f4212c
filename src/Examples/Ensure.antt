-- ===== src/Examples/Ensure.antt =====
-- The ensure operations on the concrete cluster.
use kubernaut_operator.Base.{◌≡◌, ◌↔◌, refl, false, []}
use kubernaut_operator.Kube.Object.{key_of}
use kubernaut_operator.Kube.Op.{ok}
use kubernaut_operator.Ownership.{
  stamp_ownership, resource_ownership_error, ownership_marker_matches, marker_label,
}
use kubernaut_operator.Ownership.Contract.{resource_ownership_iff, IsAuthorized}
use kubernaut_operator.Ownership.Stamp.{stamp-IsAuthorized}
use kubernaut_operator.Base.Map.{get}
use kubernaut_operator.Status.{patch_status}
use kubernaut_operator.Ensure.{
  read_or_create, prepare, update_if_changed, check_resource_ownership, record_conflict,
  ensure_resource_changed, create_if_not_found, delete_if_exists,
}
use kubernaut_operator.Ensure.Writes.{Extends, Allowed, Removal}
use kubernaut_operator.Ensure.Safety.{ensure_resource_safe}
use kubernaut_operator.Ensure.Repair.{create_if_not_found_safe}
use kubernaut_operator.Ensure.Deletion.{delete_if_exists_safe}
use kubernaut_operator.Examples.Cluster.{find_latest, read}
use kubernaut_operator.Examples.Cluster.Laws.{cluster-IsApiServer}
use kubernaut_operator.Examples.Library.{library}
use kubernaut_operator.Examples.Samples.{
  sample, settings, empty_cluster, foreign_cluster, start, in_prod,
}

-- A foreign object of the same name is not overwritten, and nothing else is written.
foreign_is_kept :
    (ensure_resource_changed library settings (start foreign_cluster)).1.world.writes ≡ []
unfolding ensure_resource_changed read_or_create prepare update_if_changed check_resource_ownership
    record_conflict patch_status resource_ownership_error ownership_marker_matches marker_label get
    find_latest read stamp_ownership
foreign_is_kept = refl

ensure_resource_safe_example :
    Extends
      (Allowed library sample)
      []
      (ensure_resource_changed library settings (start foreign_cluster)).1.world.writes
ensure_resource_safe_example =
    ensure_resource_safe library cluster-IsApiServer settings (start foreign_cluster)

create_if_not_found_safe_example :
    Extends
      (Allowed library sample)
      []
      (create_if_not_found library settings (start empty_cluster)).1.world.writes
create_if_not_found_safe_example =
    create_if_not_found_safe library cluster-IsApiServer settings (start empty_cluster)

delete_if_exists_safe_example :
    Extends
      (Removal library sample (key_of settings))
      []
      (delete_if_exists library settings (start foreign_cluster)).1.world.writes
delete_if_exists_safe_example =
    delete_if_exists_safe library cluster-IsApiServer settings (start foreign_cluster)

resource_ownership_iff_example :
    (resource_ownership_error library.parse_group sample (stamp_ownership sample settings) false
      ≡ ok tt)
    ↔ IsAuthorized library.parse_group sample (stamp_ownership sample settings) false
resource_ownership_iff_example =
    resource_ownership_iff library.parse_group sample (stamp_ownership sample settings) false

stamp-IsAuthorized_example :
    resource_ownership_error library.parse_group
      (record sample { uid = "u2" })
      (stamp_ownership sample settings)
      false
    ≡ ok tt
stamp-IsAuthorized_example =
    stamp-IsAuthorized library.parse_group sample (record sample { uid = "u2" }) settings false
      in_prod refl refl refl refl
