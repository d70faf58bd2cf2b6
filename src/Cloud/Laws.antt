-- ===== src/Cloud/Laws.antt =====
-- What the driver relies on of the instance API: that reads change nothing, and that the effect of
-- a call shows in later reads.
use scaleway_csi.Base.{
  List, ℕ, String, ◌≡◌, Option, none, some, [], ◌∷◌, ◌++◌, ok, err, length, ◌≤◌, suc,
}
use scaleway_csi.Ids.{Zone}
use scaleway_csi.Cloud.{
  InstanceApi, Volume, Snapshot, Server, CreateVolumeRequest, ApiError, resource_not_found,
}

-- The same snapshot, whose state may have gone on.
abbrev pub SameButState : Snapshot → Snapshot → Type 0
SameButState s s' = s' ≡ record s { state = s'.state }

-- The same snapshots later.
abbrev pub Later : List Snapshot → List Snapshot → Type 0
Later [] [] = Unit
Later [] (t ∷ ts) = ⊥
Later (s ∷ ss) [] = ⊥
Later (s ∷ ss) (t ∷ ts) = SameButState s t × Later ss ts

module _ (api : InstanceApi) where
  open api use {
    State, get_volume, get_server, list_volumes, list_volumes_types, create_volume, attach_volume,
    detach_volume, delete_volume, list_snapshots, create_snapshot,
  }

  -- Reads of volumes, servers and volume types leave the state alone.
  pub record IsReadOnly : Type 0 where
    pub get_volume_state : (id : String) (z : Zone) (w : State) → (get_volume id z w).1 ≡ w
    pub get_server_state : (id : String) (z : Zone) (w : State) → (get_server id z w).1 ≡ w
    pub list_volumes_state : (n t : Option String) (w : State) → (list_volumes n t w).1 ≡ w
    pub list_types_state : (w : State) → (list_volumes_types w).1 ≡ w

  -- Attachments and detachments show in the volume; a server is returned under its own id.
  pub record IsAttaching : Type 0 where
    pub server_named :
        (id : String) (z : Zone) (w : State) {s : Server} → (get_server id z w).0 ≡ ok s → s.id ≡ id
    pub volume-attach :
        (n v : String) (z vz : Zone) (w : State) {volume : Volume} {s : Server}
        → (get_volume v vz w).0 ≡ ok volume
        → (attach_volume n v z w).0 ≡ ok s
        → (get_volume v vz ((attach_volume n v z w).1)).0 ≡ ok (record volume { server = some n })
    pub server-attach :
        (n v : String) (z nz : Zone) (w : State) {s s' : Server}
        → (get_server n nz w).0 ≡ ok s
        → (attach_volume n v z w).0 ≡ ok s'
        → (found : Server) × ((get_server n nz ((attach_volume n v z w).1)).0 ≡ ok found)
    pub volume-detach :
        (v : String) (z vz : Zone) (w : State) {volume : Volume} {s : Server}
        → (get_volume v vz w).0 ≡ ok volume
        → (detach_volume v z w).0 ≡ ok s
        → (get_volume v vz ((detach_volume v z w).1)).0 ≡ ok (record volume { server = none })

  -- The client lists the volumes of its default zone, `home`: a volume that is created there is
  -- listed under its name and type. A volume has the size asked for; a creation that fails leaves
  -- the state alone, and the volume types stay as they are.
  pub record IsCreating (home : Zone) : Type 0 where
    pub list-create :
        (r : CreateVolumeRequest) (w : State) {v : Volume}
        → (list_volumes (some r.name) (some r.volume_type) w).0 ≡ ok []
        → (create_volume r w).0 ≡ ok v
        → v.zone ≡ home
        → (list_volumes (some r.name) (some r.volume_type) ((create_volume r w).1)).0 ≡ ok (v ∷ [])
    pub size-create :
        (r : CreateVolumeRequest) (w : State) {v : Volume} {n : ℕ}
        → (create_volume r w).0 ≡ ok v
        → r.size ≡ some n
        → v.size ≡ n
    pub create_failed :
        (r : CreateVolumeRequest) (w : State) {e : ApiError}
        → (create_volume r w).0 ≡ err e
        → (create_volume r w).1 ≡ w
    pub types-create :
        (r : CreateVolumeRequest) (w : State)
        → (list_volumes_types ((create_volume r w).1)).0 ≡ (list_volumes_types w).0

  -- A volume that was deleted is not found, under the identifier and the zone it was found by; an
  -- answer that it does not exist leaves the state alone, and such a volume stays unknown.
  pub record IsDeleting : Type 0 where
    pub get-delete :
        (id : String) (zone : Zone) (w : State) {v : Volume}
        → (get_volume id zone w).0 ≡ ok v
        → (delete_volume v.id v.zone w).0 ≡ ok tt
        → (text : String) × ((get_volume id zone ((delete_volume v.id v.zone w).1)).0
            ≡ err (resource_not_found text))
    pub delete_missing :
        (id : String) (zone : Zone) (w : State) {text : String}
        → (delete_volume id zone w).0 ≡ err (resource_not_found text)
        → (delete_volume id zone w).1 ≡ w

  -- Whether it succeeds or fails, an attachment gives a server at most one volume more.
  pub record IsCounting : Type 0 where
    pub volumes-attach :
        (n v : String) (z nz : Zone) (w : State) {before after : Server}
        → (get_server n nz w).0 ≡ ok before
        → (get_server n nz ((attach_volume n v z w).1)).0 ≡ ok after
        → length after.volumes ≤ suc (length before.volumes)

  -- A snapshot that is created has the name and the volume given. The snapshots that are listed
  -- under its name right before it are listed with it right after. A list that is asked for again
  -- has the same snapshots in the same order. Their states may go on meanwhile, also by the listing.
  pub record IsSnapshotting : Type 0 where
    pub created_as :
        (volume name : String) (zone : Zone) (w : State) {s : Snapshot}
        → (create_snapshot volume name zone w).0 ≡ ok s
        → (s.name ≡ name) × (s.base_volume ≡ some volume)
    pub list-create_snapshot :
        (volume name : String) (zone : Zone) (w : State) {s : Snapshot} {ss : List Snapshot}
        → (list_snapshots (some name) none zone w).0 ≡ ok ss
        → let w' = (list_snapshots (some name) none zone w).1 in
          (create_snapshot volume name zone w').0 ≡ ok s
          → (before after front back : List Snapshot) × (now : Snapshot) × (before ++ after ≡ ss)
            × Later before front
            × SameButState s now
            × ((list_snapshots (some name) none zone ((create_snapshot volume name zone w').1)).0
                ≡ ok (front ++ now ∷ back))
    pub list-list :
        (name : String) (zone : Zone) (w : State) {ss : List Snapshot}
        → (list_snapshots (some name) none zone w).0 ≡ ok ss
        → (later : List Snapshot) × Later ss later
          × ((list_snapshots (some name) none zone ((list_snapshots (some name) none zone w).1)).0
              ≡ ok later)
