-- ===== src/Node/Status/Numbers.antt =====
-- The numbers that `NodeGetVolumeStats` and `NodeGetInfo` answer with.
use native.Mathlib.Nat.{mul-le-mul_right}
use scaleway_csi.Base.{ℕ, ◌+◌, ◌-◌, ◌*◌, ◌%◌, ◌^◌, ◌≤◌, ◌<◌, ◌≡◌, ap, ◌∙◌, sym, subst, arith}
use scaleway_csi.Base.Int.{pos, to_int64, to_uint64, to_int64_small}
use scaleway_csi.Disk.{Statfs}
use scaleway_csi.Node.Status.{Usage, bytes_usage, inodes_usage, sub_uint64, mul_uint64}

-- The parts add up to the total, and neither is negative.
pub record AddsUp (u : Usage) : Type 0 where
  pub used : ℕ
  pub free : ℕ
  pub used_is : u.used ≡ pos used
  pub free_is : u.available ≡ pos free
  pub total_is : u.total ≡ pos (used + free)

sub_uint64_small : (a b : ℕ) → b ≤ a → a < 2 ^ 63 → sub_uint64 a b ≡ a - b
sub_uint64_small a b h k = ground arith

keeps : (n : ℕ) → n < 2 ^ 63 → n % 2 ^ 64 ≡ n
keeps n h = omega arith

-- A total that fits a signed 64-bit integer.
usage-AddsUp :
    (total free : ℕ)
    → free ≤ total
    → total < 2 ^ 63
    → AddsUp (record {
      total = to_int64 total;
      available = to_int64 free;
      used = to_int64 (sub_uint64 total free);
    })
usage-AddsUp total free h k = record {
  used = total - free;
  free = free;
  used_is =
      ap to_int64 (sub_uint64_small total free h k) ∙ to_int64_small (total - free) (omega arith);
  free_is = to_int64_small free (omega arith);
  total_is = to_int64_small total k ∙ ap pos (omega arith);
}

-- Where no more inodes are free than there are, and their number fits a signed 64-bit integer,
-- those used and those available are not negative and add up to the total.
pub inodes_usage-AddsUp :
    (fs : Statfs) → fs.ffree ≤ fs.files → fs.files < 2 ^ 63 → AddsUp (inodes_usage fs)
unfolding inodes_usage
inodes_usage-AddsUp fs h k = usage-AddsUp fs.files fs.ffree h k

mul_uint64_small : (a b : ℕ) → a * b < 2 ^ 63 → mul_uint64 a b ≡ a * b
mul_uint64_small a b h = keeps (a * b) h

-- Where no more blocks are free than there are, and the size of a block and the total fit a signed
-- 64-bit integer, the bytes used and those available are not negative and add up to the total.
pub bytes_usage-AddsUp :
    (fs : Statfs) (bsize : ℕ)
    → fs.bsize ≡ pos bsize
    → bsize < 2 ^ 63
    → fs.bfree ≤ fs.blocks
    → fs.blocks * bsize < 2 ^ 63
    → AddsUp (bytes_usage fs)
unfolding bytes_usage to_uint64
bytes_usage-AddsUp fs bsize e small h k =
    let size = ap to_uint64 e ∙ keeps bsize small in
    let free = mul-le-mul_right bsize h in
    subst
      (λ (r : ℕ × ℕ). AddsUp (record {
        total = to_int64 (r.0);
        available = to_int64 (r.1);
        used = to_int64 (sub_uint64 (r.0) (r.1));
      }))
      (λ i. (
        (sym (ap (mul_uint64 fs.blocks) size ∙ mul_uint64_small fs.blocks bsize k)) i,
        (sym (
              ap (mul_uint64 fs.bfree) size
              ∙ mul_uint64_small fs.bfree bsize (omega (arith, free, k))))
            i,
      ))
      (usage-AddsUp (fs.blocks * bsize) (fs.bfree * bsize) free k)
