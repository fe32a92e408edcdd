-- ===== src/Plan/Devices/Shares.antt =====
-- What AssignDevices of internal/plan/gpu.go promises.
use slurm_shim.Common.{
  ℕ, zero, suc, ◌+◌, ◌-◌, ◌*◌, ◌/◌, ◌≤◌, ◌<◌, Bool, true, false, List, [], ◌∷◌, ◌++◌, ◌≡◌, ◌↔◌,
  refl, sym, ◌∙◌, arith, String, length, take, drop, replicate, ap, ◌==◌, ltb-eq_true, ltb-eq_false,
  All, Option, none, some, some_inj, leb, Bool-cases, inl, inr, ltb, ◌&&◌, ◌≢◌,
}
use native.Mathlib.Decide.{dec_le, dec_lt}
use native.Mathlib.Nat.{le-div_iff_mul-le, mul-div-le, div-eq_of_lt, lt-mul-div-succ}
use slurm_shim.Text.Decimal.{max_int}
use slurm_shim.Text.Int64.{to_int-fits}
use slurm_shim.Plan.Devices.{
  device_slice, device_slices, slice_to, int_slice, cons_slice, int_slices, unshared, assign_to,
  assign_devices,
}

abbrev pub flatten : List (List String) → List String
flatten [] = []
flatten (x ∷ xs) = x ++ flatten xs

-- One slice is `g` devices from its start on, or what is left of them.
take_all : (n : ℕ) (xs : List String) → length xs ≤ n → take n xs ≡ xs
take_all zero [] h = refl
take_all zero (x ∷ xs) h = absurd (omega arith)
take_all (suc n) [] h = refl
take_all (suc n) (x ∷ xs) h = ap (λ r. x ∷ r) (take_all n xs (omega arith))

drop_all : (n : ℕ) (xs : List String) → length xs ≤ n → drop n xs ≡ []
drop_all zero [] h = refl
drop_all zero (x ∷ xs) h = absurd (omega arith)
drop_all (suc n) [] h = refl
drop_all (suc n) (x ∷ xs) h = drop_all n xs (omega arith)

length-drop : (n : ℕ) (xs : List String) → length (drop n xs) ≡ length xs - n
length-drop zero xs = omega arith
length-drop (suc n) [] = omega arith
length-drop (suc n) (x ∷ xs) = omega (arith, length-drop n xs)

take_nil : (n : ℕ) → ◌≡◌ {A = List String} (take n []) []
take_nil zero = refl
take_nil (suc n) = refl

device_slice-take :
    (ds : List String) (lo g : ℕ) → device_slice ds lo (lo + g) ≡ take g (drop lo ds)
unfolding device_slice
device_slice-take ds lo g = elim (dec_le (length ds) lo) [
  | yes past ↦ let e = drop_all lo ds past in ground (arith, e, take_nil g)
  | no inside ↦ elim (dec_lt (length ds) (lo + g)) [
    | yes short ↦
        let e = take_all g (drop lo ds) (omega (arith, length-drop lo ds)) in ground (arith, e)
    | no fits ↦ let e : lo + g - lo ≡ g = omega arith in ground (arith, e)
  ]
]

take_add : (a b : ℕ) (xs : List String) → take a xs ++ take b (drop a xs) ≡ take (a + b) xs
take_add zero b xs = let e : zero + b ≡ b = omega arith in rw e
take_add (suc a) b [] = let e = take_nil b in rw e (sym (take_nil (suc a + b)))
take_add (suc a) b (x ∷ xs) =
    let e : suc a + b ≡ suc (a + b) = omega arith in rw e (ap (λ r. x ∷ r) (take_add a b xs))

drop_add : (a b : ℕ) (xs : List String) → drop b (drop a xs) ≡ drop (a + b) xs
drop_add zero b xs = let e : zero + b ≡ b = omega arith in rw e
drop_add (suc a) zero [] = let e : suc a + 0 ≡ suc a = omega arith in rw e
drop_add (suc a) (suc b) [] = let e : suc a + suc b ≡ suc (a + suc b) = omega arith in rw e
drop_add (suc a) b (x ∷ xs) =
    let e : suc a + b ≡ suc (a + b) = omega arith in rw e (drop_add a b xs)

-- The slices, end to end, are the devices from the first slice on, each at most once.
flatten-device_slices :
    (ds : List String) (g n i : ℕ)
    → flatten (device_slices ds g n i) ≡ take (n * g) (drop (i * g) ds)
unfolding device_slices
flatten-device_slices ds g zero i = let e : zero * g ≡ 0 = omega arith in rw e
flatten-device_slices ds g (suc n) i =
    let ih = flatten-device_slices ds g n (i + 1) in
    let e : i * g + g ≡ (i + 1) * g = grind arith in
    let e' : suc n * g ≡ g + n * g = grind arith in
    let one = device_slice-take ds (i * g) g in
    let rest : drop g (drop (i * g) ds) ≡ drop ((i + 1) * g) ds =
      drop_add (i * g) g ds ∙ ap (λ k. drop k ds) e in
    rw (one, ih, e', ← rest) (take_add g (n * g) (drop (i * g) ds))

length-device_slices : (ds : List String) (g n i : ℕ) → length (device_slices ds g n i) ≡ n
unfolding device_slices
length-device_slices ds g zero i = refl
length-device_slices ds g (suc n) i = ap suc (length-device_slices ds g n (i + 1))

length-replicate : (n : ℕ) (ds : List String) → length (replicate n ds) ≡ n
length-replicate zero ds = refl
length-replicate (suc n) ds = ap suc (length-replicate n ds)

length-take_le : (n : ℕ) (xs : List String) → n ≤ length xs → length (take n xs) ≡ n
length-take_le zero xs h = refl
length-take_le (suc n) [] h = absurd (omega arith)
length-take_le (suc n) (x ∷ xs) h = ap suc (length-take_le n xs (omega arith))

-- Where the grant is large enough, each slice has `g` devices.
device_slices_width :
    (ds : List String) (g n i : ℕ)
    → (i + n) * g ≤ length ds
    → All (λ (d : List String). length d ≡ g) (device_slices ds g n i)
unfolding device_slices
device_slices_width ds g zero i h = tt
device_slices_width ds g (suc n) i h =
    let first : i * g + g ≤ length ds = grind arith in
    let later : (i + 1 + n) * g ≤ length ds =
      let e : i + 1 + n ≡ i + suc n = omega arith in rw e h in
    (
      rw (device_slice-take ds (i * g) g)
          (length-take_le g (drop (i * g) ds) (omega (arith, length-drop (i * g) ds))),
      device_slices_width ds g n (i + 1) later,
    )

zero_mul : (g : ℕ) → 0 * g ≡ 0
zero_mul g = omega arith

flatten-slices_zero :
    (ds : List String) (g n : ℕ) → flatten (device_slices ds g n 0) ≡ take (n * g) ds
flatten-slices_zero ds g n =
    flatten-device_slices ds g n 0 ∙ ap (λ k. take (n * g) (drop k ds)) (zero_mul g)

quotient_zero : (a b : ℕ) → 0 < b → a / b ≡ 0 → a < b
quotient_zero a b h e = omega (arith, lt-mul-div-succ a h, ap (λ k. b * (k + 1)) e)

-- Within the range of an `int` the slices are those of the numbers.
int_slices-fits :
    (ds : List String) (g n i : ℕ)
    → (i + n) * g ≤ max_int
    → int_slices ds g n i ≡ some (device_slices ds g n i)
unfolding int_slices device_slices int_slice slice_to cons_slice
int_slices-fits ds g zero i h = refl
int_slices-fits ds g (suc n) i h =
    let stop : i * g + g ≤ max_int = grind arith in
    let later : (i + 1 + n) * g ≤ max_int = let e : i + 1 + n ≡ i + suc n = omega arith in rw e h in
    rw
      (
        to_int-fits (i * g) (omega (arith, stop)),
        int_slices-fits ds g n (i + 1) later,
        to_int-fits (i * g + g) stop,
      )
      (elim (Bool-cases (leb (length ds) (i * g))) [
        | inl past ↦ rw past refl
        | inr inside ↦ rw inside refl
      ])

abbrev pub Assigned : Type 0
Assigned = Option (List (List String) × Bool)

-- The explicit request whose product with the ranks an `int` holds: no panic.
assign_devices-slices :
    (ds : List String) (n g : ℕ) (auto_divide : Bool)
    → 0 < n
    → 0 < g
    → g * n ≤ max_int
    → assign_devices ds n g auto_divide ≡ some (device_slices ds g n 0, false)
unfolding assign_devices assign_to unshared
assign_devices-slices ds n g auto hn hg fits =
    let e : (0 + n) * g ≡ g * n = grind arith in
    rw (ltb-eq_false n 1 hn, ltb-eq_true 0 g hg, int_slices-fits ds g n 0 (rw e fits)) refl

pub assign_devices_slices :
    (ds : List String) (n g : ℕ) (auto_divide : Bool)
    → 0 < n
    → 0 < g
    → g * n ≤ max_int
    → g * n ≤ length ds
    → (sets : List (List String)) × (assign_devices ds n g auto_divide ≡ some (sets, false))
      × (length sets ≡ n)
      × All (λ (d : List String). length d ≡ g) sets
assign_devices_slices ds n g auto hn hg small fits =
    let e : (0 + n) * g ≡ g * n = grind arith in
    (
      device_slices ds g n 0,
      assign_devices-slices ds n g auto hn hg small,
      length-device_slices ds g n 0,
      device_slices_width ds g n 0 (rw e fits),
    )

-- AssignDevices answers where the devices asked for are an `int`.
pub assign_devices_total :
    (ds : List String) (n g : ℕ) (auto_divide : Bool)
    → 0 < n
    → g * n ≤ max_int
    → (answer : List (List String) × Bool) × (assign_devices ds n g auto_divide ≡ some answer)
unfolding assign_devices assign_to
assign_devices_total ds n g auto hn small = elim (dec_lt 0 g) [
  | yes hg ↦ (_, assign_devices-slices ds n g auto hn hg small)
  | no zero_each ↦ unbound auto (omega arith)
]
  where
    unbound :
        (auto : Bool)
        → g ≡ 0
        → (answer : List (List String) × Bool) × (assign_devices ds n g auto ≡ some answer)
    unbound false e = rw (ltb-eq_false n 1 hn, e) (_, refl)
    unbound true e = elim (Bool-cases ((length ds / n) == 0 && ltb 0 (length ds))) [
      | inl few ↦ rw (ltb-eq_false n 1 hn, e, few) (_, refl)
      | inr enough ↦ rw (ltb-eq_false n 1 hn, e, enough) (_, refl)
    ]

-- An explicit count of devices per task, within the grant, whose length is an `int`: AssignDevices
-- does not panic, the ranks' sets, end to end, are the first `n * g` devices of the grant in its
-- order, each rank has `g` of them, and nothing is shared. So no device is given to two ranks.
pub assign_devices_explicit :
    (ds : List String) (n g : ℕ) (auto_divide : Bool)
    → 0 < n
    → 0 < g
    → g * n ≤ length ds
    → length ds ≤ max_int
    → (sets : List (List String)) × (assign_devices ds n g auto_divide ≡ some (sets, false))
      × (flatten sets ≡ take (n * g) ds)
      × (length sets ≡ n)
      × All (λ (d : List String). length d ≡ g) sets
assign_devices_explicit ds n g auto hn hg fits small =
    let e : (0 + n) * g ≡ g * n = grind arith in
    (
      device_slices ds g n 0,
      assign_devices-slices ds n g auto hn hg (omega arith),
      flatten-slices_zero ds g n,
      length-device_slices ds g n 0,
      device_slices_width ds g n 0 (rw e fits),
    )

-- A grant that is divided without being asked for (gpu.bind: per-task) and reaches for every rank:
-- each rank has the same number of devices, the quotient, no device is given twice, and nothing is
-- shared.
pub assign_devices_divided :
    (ds : List String) (n : ℕ)
    → 0 < n
    → n ≤ length ds
    → (sets : List (List String)) × (assign_devices ds n 0 true ≡ some (sets, false))
      × (flatten sets ≡ take (n * (length ds / n)) ds)
      × (length sets ≡ n)
      × All (λ (d : List String). length d ≡ length ds / n) sets
unfolding assign_devices assign_to
assign_devices_divided ds n hn fits =
    let q = length ds / n in
    let some_each : 0 < q = (le-div_iff_mul-le hn).1 (omega arith) in
    let all_fit : (0 + n) * q ≤ length ds =
      let e : 0 + n ≡ n = omega arith in rw e (mul-div-le (length ds) n) in
    let not_zero : (q == 0) ≡ false = ground arith in
    (
      device_slices ds q n 0,
      rw (ltb-eq_false n 1 hn, not_zero) refl,
      flatten-slices_zero ds q n,
      length-device_slices ds q n 0,
      device_slices_width ds q n 0 all_fit,
    )

flag-int_slices :
    (m : Option (List (List String))) (sets : List (List String)) → unshared m ≢ some (sets, true)
unfolding unshared
flag-int_slices none sets e = cc
flag-int_slices (some s) sets e = cc

pub flag_false-ne-true :
    (xs ys : List (List String)) → ◌≢◌ {A = Assigned} (some (xs, false)) (some (ys, true))
flag_false-ne-true xs ys e = cc

abbrev Sharing : List String → ℕ → ℕ → Bool → List (List String) → Type 0
Sharing ds n g auto sets =
    (sets ≡ replicate n ds) × (g ≡ 0) × (auto ≡ true) × (0 < length ds) × (length ds < n)

shared-only :
    (ds : List String) (n g : ℕ) (auto : Bool) (sets : List (List String))
    → 0 < n
    → assign_to ds n g auto ≡ some (sets, true)
    → Sharing ds n g auto sets
unfolding assign_to
shared-only ds n g false sets hn h = elim (Bool-cases (ltb 0 g)) [
  | inl asked ↦ absurd (flag-int_slices (int_slices ds g n 0) sets (rw asked at h))
  | inr whole ↦ absurd (flag_false-ne-true (replicate n ds) sets (rw whole at h))
]
shared-only ds n g true sets hn h = elim (Bool-cases (ltb 0 g)) [
  | inl asked ↦ absurd (flag-int_slices (int_slices ds g n 0) sets (rw asked at h))
  | inr divided ↦ elim (Bool-cases ((length ds / n) == 0 && ltb 0 (length ds))) [
    | inr enough ↦ absurd (flag_false-ne-true _ sets (rw (divided, enough) at h))
    | inl few ↦
        let zero : length ds / n ≡ 0 = ground (arith, few) in
        (
          ap (λ p. p.0) (sym (some_inj (rw (divided, few) at h))),
          ground (arith, divided),
          refl,
          ground (arith, few),
          quotient_zero (length ds) n hn zero,
        )
  ]
]

shared-if :
    (ds : List String) (n g : ℕ) (auto : Bool) (sets : List (List String))
    → Sharing ds n g auto sets
    → assign_to ds n g auto ≡ some (sets, true)
unfolding assign_to
shared-if ds n g auto sets (whole, no_count, divided, some_device, few) =
    let zero : length ds / n ≡ 0 = div-eq_of_lt few in
    rw (no_count, divided, whole, zero, ltb-eq_true 0 (length ds) some_device) refl

-- The answer with the flag that leads to a warning, for a positive number of ranks: exactly if the
-- grant is to be divided, has a device, and has fewer than there are ranks; and the sets that come
-- with it are the whole grant once for each rank.
pub assign_devices_shared :
    (ds : List String) (n g : ℕ) (auto_divide : Bool) (sets : List (List String))
    → 0 < n
    → (assign_devices ds n g auto_divide ≡ some (sets, true)) ↔ (
        (sets ≡ replicate n ds)
        × (g ≡ 0)
        × (auto_divide ≡ true)
        × (0 < length ds)
        × (length ds < n))
unfolding assign_devices
assign_devices_shared ds n g auto sets hn =
    rw (ltb-eq_false n 1 hn) (shared-only ds n g auto sets hn, shared-if ds n g auto sets)
