-- ===== src/Encoders/Tests.antt =====
-- Runs of internal/encoders/rle.go, and the theorems applied to the counts of three nodes.
use slurm_shim.Common.{List, [], ◌∷◌, All, err, take, ◌≡◌, ◌≢◌, refl, arith, ok}
use slurm_shim.Common.Int.{pos, negsuc}
use slurm_shim.Text.Bytes.{Bytes, codes}
use slurm_shim.Encoders.Nodelist.{compress_nodelist, split_name, must_atoi}
use slurm_shim.Encoders.Nodelist.Expand.{
  expand_nodelist, descending_range, unmatched_open, never_ends,
}
use slurm_shim.Encoders.Nodelist.Names.{IsHost, number_of-IsHost}
use slurm_shim.Encoders.Nodelist.RoundTrip.{expand_nodelist-compress_nodelist}
use slurm_shim.Encoders.Rle.{compress_counts, expand_counts}
use slurm_shim.Encoders.Rle.RoundTrip.{expand_counts-compress_counts}

uneven : compress_counts (pos 8 ∷ pos 8 ∷ pos 4 ∷ []) ≡ codes "8(x2),4"
unfolding compress_counts slurm_shim.Text.Split.join slurm_shim.Text.Decimal.itoa
uneven = refl

three_counts-ne-nil : pos 8 ∷ pos 8 ∷ negsuc 0 ∷ [] ≢ []
three_counts-ne-nil e = absurd (cc)

expand_counts-compress_counts_example :
    expand_counts (compress_counts (pos 8 ∷ pos 8 ∷ negsuc 0 ∷ []))
    ≡ ok (pos 8 ∷ pos 8 ∷ negsuc 0 ∷ [])
expand_counts-compress_counts_example =
    expand_counts-compress_counts (pos 8 ∷ pos 8 ∷ negsuc 0 ∷ []) three_counts-ne-nil
      (omega arith, (omega arith, (omega arith, tt))) (omega arith)

-- A change of width ends a range, and repetitions and names without digits stay as they are.
abbrev rack : List Bytes
rack = codes "n08" ∷ codes "n09" ∷ codes "n10" ∷ codes "n100" ∷ codes "gw" ∷ codes "n1-ib0" ∷ []

compressed_rack : compress_nodelist rack ≡ codes "n[08-10,100],gw,n1-ib0"
unfolding compress_nodelist slurm_shim.Text.Split.join slurm_shim.Encoders.Nodelist.new_group
compressed_rack = refl

padded_range : expand_nodelist (codes "n[08-10,100]") ≡ ok (take 4 rack)
unfolding expand_nodelist slurm_shim.Text.Bytes.index_byte slurm_shim.Text.Bytes.contains_byte
    slurm_shim.Text.Split.split
padded_range = refl

descending : expand_nodelist (codes "n[3-1]") ≡ err (descending_range (codes "3-1"))
unfolding expand_nodelist slurm_shim.Text.Bytes.index_byte slurm_shim.Text.Bytes.contains_byte
    slurm_shim.Text.Split.split
descending = refl

open_bracket : expand_nodelist (codes "n[1") ≡ err unmatched_open
unfolding expand_nodelist slurm_shim.Text.Bytes.index_byte slurm_shim.Text.Bytes.contains_byte
    slurm_shim.Text.Split.split
open_bracket = refl

-- The loop up to the greatest int.
greatest_number :
    expand_nodelist (codes "n[9223372036854775806-9223372036854775807]") ≡ err never_ends
unfolding expand_nodelist slurm_shim.Text.Bytes.index_byte slurm_shim.Text.Bytes.contains_byte
    slurm_shim.Text.Split.split
greatest_number = refl

rack-ne-nil : rack ≢ []
rack-ne-nil = λ e. cc

rack-IsHost : All IsHost rack
unfolding split_name must_atoi
rack-IsHost = (
  number_of-IsHost b'n' (codes "08") refl refl,
  (
    number_of-IsHost b'n' (codes "09") refl refl,
    (
      number_of-IsHost b'n' (codes "10") refl refl,
      (
        number_of-IsHost b'n' (codes "100") refl refl,
        (
          number_of-IsHost b'g' (codes "w") refl refl,
          (number_of-IsHost b'n' (codes "1-ib0") refl refl, tt),
        ),
      ),
    ),
  ),
)

expand_nodelist-compress_nodelist_example : expand_nodelist (compress_nodelist rack) ≡ ok rack
expand_nodelist-compress_nodelist_example =
    expand_nodelist-compress_nodelist rack rack-ne-nil rack-IsHost
