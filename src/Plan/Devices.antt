-- ===== src/Plan/Devices.antt =====
-- internal/plan/gpu.go: the devices that each local rank sees.
pub mod Shares
use slurm_shim.Common.{
  ℕ, zero, suc, ◌+◌, ◌-◌, ◌*◌, ◌/◌, ◌≤◌, ◌<◌, min, Bool, true, false, ◌&&◌, List, [], ◌∷◌, ◌++◌,
  ◌≡◌, refl, arith, ◌==◌, ltb, leb, if◌then◌else◌, String, length, take, drop, replicate,
  Bool-cases, append_assoc, append-nil, inl, inr, ap, get_or, Option, none, some,
}
use slurm_shim.Common.Int.{ℤ, pos, negsuc}
use slurm_shim.Text.Int64.{to_int}

-- One round of the last loop: devices[lo:hi], cut at the end of the list.
unfoldable pub device_slice : List String → ℕ → ℕ → List String
device_slice devices lo hi =
    if leb (length devices) lo
    then []
    else if ltb (length devices) hi
    then drop lo devices
    else take (hi - lo) (drop lo devices)

-- The last loop, from local rank `i` on, where no index leaves the range of an `int`.
device_slices : List String → ℕ → ℕ → ℕ → List (List String)
unfolding device_slice
device_slices devices g zero i = []
device_slices devices g (suc n) i =
    device_slice devices (i * g) (i * g + g) ∷ device_slices devices g n (i + 1)

-- devices[lo:hi]; `none` for Go's panic at a negative end.
slice_to : List String → ℕ → ℤ → Option (List String)
unfolding device_slice
slice_to devices lo (pos hi) = some (device_slice devices lo hi)
slice_to devices lo (negsuc k) = none

-- One round of that loop on `int` indices: the start may be negative, and the end may wrap around.
int_slice : List String → ℕ → ℤ → Option (List String)
unfolding slice_to to_int
int_slice devices g (negsuc k) = none
int_slice devices g (pos lo) =
    if leb (length devices) lo then some [] else slice_to devices lo (to_int (lo + g))

cons_slice : Option (List String) → Option (List (List String)) → Option (List (List String))
cons_slice none rest = none
cons_slice (some s) none = none
cons_slice (some s) (some rest) = some (s ∷ rest)

int_slices : List String → ℕ → ℕ → ℕ → Option (List (List String))
unfolding int_slice cons_slice to_int
int_slices devices g zero i = some []
int_slices devices g (suc n) i =
    cons_slice (int_slice devices g (to_int (i * g))) (int_slices devices g n (i + 1))

unshared : Option (List (List String)) → Option (List (List String) × Bool)
unshared none = none
unshared (some sets) = some (sets, false)

-- A divided grant has no index past its length, so it cannot wrap around.
assign_to : List String → ℕ → ℕ → Bool → Option (List (List String) × Bool)
unfolding int_slices device_slices unshared
assign_to devices n gpus_per_task auto_divide =
    if ltb 0 gpus_per_task
    then unshared (int_slices devices gpus_per_task n 0)
    else if auto_divide
    then if (length devices / n) == 0 && ltb 0 (length devices)
      then some (replicate n devices, true)
      else some (device_slices devices (length devices / n) n 0, false)
    else some (replicate n devices, false)

-- AssignDevices: the devices of each local rank, and whether they share one list; `none` where it
-- panics.
unfoldable pub assign_devices : List String → ℕ → ℕ → Bool → Option (List (List String) × Bool)
unfolding assign_to
assign_devices devices local_tasks gpus_per_task auto_divide =
    assign_to devices (if ltb local_tasks 1 then 1 else local_tasks) gpus_per_task auto_divide
