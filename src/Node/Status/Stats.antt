-- ===== src/Node/Status/Stats.antt =====
-- What `NodeGetVolumeStats` answers with.
use scaleway_csi.Base.{
  ℕ, ◌*◌, ◌^◌, ◌≤◌, ◌<◌, String, ◌≡◌, ap, sym, subst, Option, ok, arith, Result-cases, inl, inr,
}
use scaleway_csi.Base.Int.{pos}
use scaleway_csi.Ids.{Zone, get_volume_id_and_zone}
use scaleway_csi.Disk.{Statfs, DiskUtils}
use scaleway_csi.Node.Requests.{StatsRequest}
use scaleway_csi.Node.Status.{
  Usage, bytes_usage, inodes_usage, stats_of, stats_path, node_get_volume_stats,
}
use scaleway_csi.Node.Status.Numbers.{AddsUp, bytes_usage-AddsUp, inodes_usage-AddsUp}

-- No more is free than there is, and the totals fit a signed 64-bit integer.
pub record IsSound (fs : Statfs) : Type 0 where
  pub block : ℕ
  pub block_is : fs.bsize ≡ pos block
  pub block_fits : block < 2 ^ 63
  pub free_blocks : fs.bfree ≤ fs.blocks
  pub bytes_fit : fs.blocks * block < 2 ^ 63
  pub free_inodes : fs.ffree ≤ fs.files
  pub inodes_fit : fs.files < 2 ^ 63

module _ {State : Type 0} (parse_zone : String → Option Zone) (disk : DiskUtils State) where
  -- The statistics that an answer is made of.
  record Read (path : String) (usage : Usage × Usage) : Type 0 where
    fs : Statfs
    state : State
    read : (disk.get_statfs path state).0 ≡ ok fs
    usage_is : usage ≡ (bytes_usage fs, inodes_usage fs)

  stats_of-Read :
      (id path : String) (w : State) {usage : Usage × Usage}
      → (stats_of parse_zone disk id path w).0 ≡ ok usage
      → Read path usage
  unfolding stats_of
  stats_of-Read id path w {usage} e = elim (Result-cases (disk.is_shared_mounted path "" w).0) [
    | inr (_, bad) ↦ absurd (ground arith)
    | inl (mounted, looked) ↦
        let w1 = (disk.is_shared_mounted path "" w).1 in
        elim (Result-cases (disk.get_device_path id w1).0) [
          | inr (_, bad) ↦ absurd (ground arith)
          | inl (device, found) ↦
              let w2 = (disk.get_device_path id w1).1 in
              elim (Result-cases (disk.get_statfs path w2).0) [
                | inr (_, bad) ↦ absurd (ground arith)
                | inl (fs, read) ↦ record {
                  fs = fs;
                  state = w2;
                  read = read;
                  usage_is = ground arith;
                }
              ]
        ]
  ]

  -- Where the statistics that are read have no more free than there is, and totals that fit a signed
  -- 64-bit integer: of the bytes and of the inodes in an answer, those used and those available are
  -- not negative and add up to the total.
  pub node_get_volume_stats-AddsUp :
      ((path : String) (w : State) (fs : Statfs) → (disk.get_statfs path w).0 ≡ ok fs → IsSound fs)
      → (req : StatsRequest) (w : State) {bytes inodes : Usage}
      → (node_get_volume_stats parse_zone disk req w).0 ≡ ok (bytes, inodes)
      → AddsUp bytes × AddsUp inodes
  unfolding node_get_volume_stats
  node_get_volume_stats-AddsUp sound req w {bytes} {inodes} e =
      elim (Result-cases (get_volume_id_and_zone parse_zone req.volume_id)) [
        | inr (_, bad) ↦ absurd (ground arith)
        | inl ((id, zone), good) ↦
            let r =
              stats_of-Read id (stats_path parse_zone disk req) w {usage = (bytes, inodes)}
                (ground arith) in
            let s = sound (stats_path parse_zone disk req) r.state r.fs r.read in
            (
              subst AddsUp (sym (ap (λ u. u.0) r.usage_is)) (
                  bytes_usage-AddsUp r.fs s.block s.block_is s.block_fits s.free_blocks
                    s.bytes_fit),
              subst AddsUp (sym (ap (λ u. u.1) r.usage_is))
                  (inodes_usage-AddsUp r.fs s.free_inodes s.inodes_fit),
            )
      ]
