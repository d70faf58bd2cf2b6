-- ===== src/Tests/Sparing.antt =====
-- An encrypted volume with a LUKS header is staged on the machine that logs its commands.
use scaleway_csi.Base.{
  String, ◌≡◌, refl, Bool, true, not, ◌&&◌, List, [], ◌∷◌, ◌++◌, arith, subst, sym,
}
use scaleway_csi.Base.Text.{same_text}
use scaleway_csi.Disk.Luks.{luks_status, luks_is_luks, luks_open}
use scaleway_csi.Disk.Devices.{disk_utils}
use scaleway_csi.Node.Stage.{node_stage_volume}
use scaleway_csi.Node.Hosted.Spared.{IsSparing, node_stage_volume_keeps}
use scaleway_csi.Tests.Memory.{parse_zone}
use scaleway_csi.Tests.Disks.{machine, machine-IsReading}
use scaleway_csi.Tests.Staging.{staged_data}

-- A command that does not start as a format does.
abbrev is_tame : List String → Bool
is_tame [] = true
is_tame (name ∷ []) = true
is_tame (name ∷ arg ∷ args) = not (same_text arg "-q")

abbrev untouched : List (List String) → Bool
untouched [] = true
untouched (command ∷ commands) = is_tame command && untouched commands

untouched-append :
    (log : List (List String)) (command : List String)
    → is_tame command ≡ true
    → untouched log ≡ true
    → untouched (log ++ command ∷ []) ≡ true
untouched-append [] command tame h = ground arith
untouched-append (c ∷ log) command tame h = ground (arith, untouched-append log command tame)

-- The log has no format, and the header is there.
machine-IsSparing : (id : String) → IsSparing machine untouched id
unfolding luks_status luks_is_luks luks_open
machine-IsSparing id = record {
  read_keeps = λ w h. h;
  follow_keeps = λ path w h. h;
  stat_keeps =
      λ path w h. subst (λ u. untouched u ≡ true) (sym (machine-IsReading.stat_state path w)) h;
  status_keeps = λ mapper w h. untouched-append w _ refl h;
  header_keeps = λ device w h. untouched-append w _ refl h;
  open_keeps = λ device mapper passphrase w h. untouched-append w _ refl h;
  mount_keeps = λ source target fs_type options w h. h;
  header_seen = λ w h e. cc;
}

node_stage_volume_keeps_example :
    untouched ((node_stage_volume (disk_utils machine) parse_zone staged_data []).1) ≡ true
node_stage_volume_keeps_example =
    node_stage_volume_keeps machine parse_zone staged_data untouched []
      (λ s e. machine-IsSparing s.scw_id) refl
