-- ===== src/Tests/Counting.antt =====
-- A node that gets one volume after the other.
use scaleway_csi.Base.{
  ℕ, suc, zero, String, ◌≡◌, ◌≤◌, refl, none, List, [], ◌∷◌, length, arith, ok, subst, ok-injective,
  return,
}
use scaleway_csi.Base.Text.{split}
use scaleway_csi.Ids.{get_volume_id_and_zone, get_node_id_and_zone, extract_id_and_zone}
use scaleway_csi.Capability.{validate_volume_capabilities}
use scaleway_csi.Cloud.{InstanceApi, Server, Snapshot}
use scaleway_csi.Cloud.Laws.{IsReadOnly, IsCounting}
use scaleway_csi.Controller.Attach.{check_publish, read_target, controller_publish_volume}
use scaleway_csi.Controller.Attach.Limit.{Fits, controller_publish_volume-IsLimited}
use scaleway_csi.Tests.Memory.{parse_zone}
use scaleway_csi.Tests.Data.{volume_on, publish_on, target_on}

-- So many volumes, by their keys.
abbrev volumes_of : ℕ → List (String × String)
volumes_of zero = []
volumes_of (suc n) = ("0", "v") ∷ volumes_of n

abbrev server_with : ℕ → Server
server_with n = record { id = "n1"; zone = "fr-par-1"; volumes = volumes_of n }

abbrev snapshot : Snapshot
snapshot = record {
  id = "s1";
  name = "s";
  zone = "fr-par-1";
  size = 1;
  state = "available";
  base_volume = none;
  creation_date = none;
}

-- The state is the number of volumes on the node.
abbrev counting : InstanceApi
counting = record {
  State = ℕ;
  list_volumes = λ name type. return [];
  create_volume = λ r. return (volume_on none);
  get_volume = λ id zone. return (volume_on none);
  delete_volume = λ id zone. return tt;
  get_server = λ id zone n. (ok (server_with n), n);
  update_volume = λ id zone size. return (volume_on none);
  attach_volume = λ server id zone n. (ok (server_with (suc n)), suc n);
  detach_volume = λ id zone n. (ok (server_with n), n);
  wait_for_volume = λ id zone. return (volume_on none);
  get_snapshot = λ id zone. return snapshot;
  list_snapshots = λ name base zone. return [];
  create_snapshot = λ volume name zone. return snapshot;
  delete_snapshot = λ id zone. return tt;
  list_volumes_types = return [];
}

counting-IsReadOnly : IsReadOnly counting
counting-IsReadOnly = record {
  get_volume_state = λ id z w. refl;
  get_server_state = λ id z w. refl;
  list_volumes_state = λ n t w. refl;
  list_types_state = λ w. refl;
}

one_more :
    (n : ℕ) {before after : Server}
    → server_with n ≡ before
    → server_with (suc n) ≡ after
    → length after.volumes ≤ suc (length before.volumes)
one_more n {before} e d =
    subst (λ s. length s.volumes ≤ suc (length before.volumes)) d
      (subst (λ s. length (volumes_of (suc n)) ≤ suc (length s.volumes)) e (omega arith))

counting-IsCounting : IsCounting counting
counting-IsCounting = record {
  volumes-attach = λ n v z nz w e d. one_more w (ok-injective e) (ok-injective d);
}

-- The sixteenth volume.
controller_publish_volume-IsLimited_example :
    Fits
      (counting.get_server "n1" "fr-par-1"
        ((controller_publish_volume counting parse_zone (publish_on "fr-par-1/n1") 15).1)).0
unfolding check_publish validate_volume_capabilities get_volume_id_and_zone get_node_id_and_zone
    extract_id_and_zone split read_target
controller_publish_volume-IsLimited_example =
    controller_publish_volume-IsLimited counting counting-IsReadOnly counting-IsCounting parse_zone
      (publish_on "fr-par-1/n1") 15 (target_on "n1") refl (omega arith)
