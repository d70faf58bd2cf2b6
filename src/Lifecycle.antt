-- ===== src/Lifecycle.antt =====
-- The life of a volume across the services: what `CreateVolume` of driver/controller.go answers is
-- what `ControllerPublishVolume` and the node service of driver/node.go are asked with.
pub mod Created
pub mod Handed
use scaleway_csi.Base.{String, List, All, ◌≡◌, ◌≢◌, Option, some, ok}
use scaleway_csi.Base.Text.{Lacks}
use scaleway_csi.Ids.{Zone}
use scaleway_csi.Cloud.{InstanceApi, Volume, CreateVolumeRequest}

module _ (parse_zone : String → Option Zone) where
  -- A volume whose zone and id can be told apart when they are written together.
  pub record IsKnown (v : Volume) : Type 0 where
    pub zone_plain : Lacks b'/' v.zone
    pub id_plain : Lacks b'/' v.id
    pub zone_known : parse_zone v.zone ≡ some v.zone

  -- The volumes that the API tells of: those that it lists or creates are known, and one that it is
  -- asked for has the id asked for and a name.
  pub record IsNaming (api : InstanceApi) : Type 0 where
    pub listed_known :
        (name volume_type : Option String) (w : api.State) (vs : List Volume)
        → (api.list_volumes name volume_type w).0 ≡ ok vs
        → All IsKnown vs
    pub created_known :
        (r : CreateVolumeRequest) (w : api.State) (v : Volume)
        → (api.create_volume r w).0 ≡ ok v
        → IsKnown v
    pub found_id :
        (id : String) (zone : Zone) (w : api.State) (v : Volume)
        → (api.get_volume id zone w).0 ≡ ok v
        → (v.id ≡ id) × (v.name ≢ "")
