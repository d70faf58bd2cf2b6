-- ===== src/Controller/Attach/Refusals.antt =====
-- Which publications are refused, over an API that keeps its laws.
use text.Mathlib.TextEquality.{eq_iff}
use scaleway_csi.Base.{
  String, ◌≡◌, ◌∙◌, Option, some, arith, ok, err, status, failed_precondition, ◌<>◌, ◌≢◌,
}
use scaleway_csi.Ids.{Zone}
use scaleway_csi.Cloud.{InstanceApi, Volume, Server}
use scaleway_csi.Cloud.Laws.{IsReadOnly, IsAttaching}
use scaleway_csi.Controller.Attach.{
  PublishRequest, Target, Found, check_publish, publish_to, controller_publish_volume,
}
use scaleway_csi.Controller.Attach.Laws.{publish_of_look_up}

module _ (api : InstanceApi) (R : IsReadOnly api) (L : IsAttaching api) where
  open api use {State, get_volume, get_server}

  -- Over an API whose reads change nothing and which returns a server under its own id: the
  -- publication of a volume that another server holds, with a volume and a node that are found,
  -- fails with FailedPrecondition and changes nothing.
  pub controller_publish_volume_elsewhere :
      (parse_zone : String → Option Zone) (req : PublishRequest) (w : State) (t : Target)
      (v : Volume) (s : Server) (holder : String)
      → check_publish parse_zone req ≡ ok t
      → (get_volume t.volume_id t.volume_zone w).0 ≡ ok v
      → (get_server t.node_id t.node_zone w).0 ≡ ok s
      → v.server ≡ some holder
      → holder ≢ t.node_id
      → (text : String) × (controller_publish_volume api parse_zone req w
          ≡ (err (status failed_precondition text), w))
  unfolding publish_to
  controller_publish_volume_elsewhere parse_zone req w t v s holder good hv hs held other =
      let f : Found = record { volume = v; server = s } in
      (
        "volume " <> (t.volume_id <> (" already attached to another node " <> holder)),
        publish_of_look_up api R L parse_zone req w t f good
              (record { volume_found = hv; server_found = hs })
            ∙ ground (arith, eq_iff holder s.id, L.server_named t.node_id t.node_zone w hs),
      )
