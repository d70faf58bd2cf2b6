-- ===== src/Disk/Paths.antt =====
-- driver/diskutils.go: the paths of devices, with the part of `path.Join` they need.
use scaleway_csi.Base.{String, ◌<>◌, List, [], ◌∷◌, ◌++◌, if◌then◌else◌}
use scaleway_csi.Base.Text.{same_text, split, join}

abbrev pub disk_by_id_path : String
disk_by_id_path = "/dev/disk/by-id"

abbrev pub disk_scw_prefix : String
disk_scw_prefix = "scsi-0SCW_b_ssd_volume-"

abbrev pub disk_luks_mapper_prefix : String
disk_luks_mapper_prefix = "scw-luks-"

abbrev pub disk_luks_mapper_path : String
disk_luks_mapper_path = "/dev/mapper/"

abbrev pub default_fs_type : String
default_fs_type = "ext4"

abbrev pub without_last : List String → List String
without_last [] = []
without_last (p ∷ []) = []
without_last (p ∷ q ∷ ps) = p ∷ without_last (q ∷ ps)

-- The parts of a path that is rooted, each behind those that are kept so far.
unfoldable pub clean_parts : List String → List String → List String
clean_parts kept [] = kept
clean_parts kept (p ∷ ps) =
    if same_text p ""
    then clean_parts kept ps
    else if same_text p "."
    then clean_parts kept ps
    else if same_text p ".."
    then clean_parts (without_last kept) ps
    else clean_parts (kept ++ p ∷ []) ps

-- `path.Clean` of a path that begins with a slash.
unfoldable pub clean_rooted : String → String
unfolding clean_parts
clean_rooted path = "/" <> join (clean_parts [] (split b'/' path)) "/"

-- `path.Join(diskByIDPath, diskSCWPrefix+volumeID)`
unfoldable pub device_link : String → String
device_link volume_id = clean_rooted (disk_by_id_path <> ("/" <> (disk_scw_prefix <> volume_id)))

abbrev pub mapper_name : String → String
mapper_name volume_id = disk_luks_mapper_prefix <> volume_id

abbrev pub mapper_path : String → String
mapper_path volume_id = disk_luks_mapper_path <> mapper_name volume_id
