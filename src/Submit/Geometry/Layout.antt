-- ===== src/Submit/Geometry/Layout.antt =====
-- What a pinned layout of internal/submit/submit.go grants, and the node count of a host list.
use native.Mathlib.Nat.{div-add-mod'}
use slurm_shim.Common.{
  ℕ, ◌*◌, ◌/◌, ◌%◌, ◌<◌, Bool, true, false, ◌&&◌, ◌||◌, List, [], ◌∷◌, ◌≡◌, ◌≢◌, refl, sym, ◌⊎◌,
  inl, inr, arith, ◌==◌, ltb, leb, Result, ok, err, ok-injective, err-ne-ok, length, Bool-cases,
  ==→eq,
}
use slurm_shim.Text.Bytes.{Bytes, codes}
use slurm_shim.Text.Decimal.{itoa_ℕ}
use slurm_shim.Submit.Geometry.{
  Request, resolve_geometry, parse_slots_rule, SlotsError, AllocationRule, rule_for, per_task_spec,
  pinned_spec, spec_by, par_spec, usable_hosts, nodes_for_usable, nodes_for_list,
}

-- A rule that grants `slots` in all, the same number on each of its nodes.
pub record IsEven (slots : ℕ) (a : AllocationRule) : Type 0 where
  pub width : ℕ
  pub some_slot : 0 < width
  pub adds_up : width * a.nodes ≡ slots
  pub spelled : ((a.nodes ≡ 1) × (a.value ≡ codes "$pe_slots")) ⊎ (a.value ≡ itoa_ℕ width)

rule_for-IsEven :
    (ntasks nodes slots : ℕ)
    → (rule_for ntasks nodes slots).value ≢ []
    → IsEven slots (rule_for ntasks nodes slots)
unfolding rule_for
rule_for-IsEven ntasks nodes slots h = elim (Bool-cases (slots % nodes == 0)) [
  | inr uneven ↦ absurd (rw uneven at h refl)
  | inl even ↦ elim (Bool-cases (ltb (slots / nodes) 1)) [
    | inl empty ↦ absurd (rw (even, empty) at h refl)
    | inr full ↦ elim (Bool-cases (nodes == 1)) [
      | inl one ↦
          let e : nodes ≡ 1 = ==→eq nodes 1 one in
          let some_slot : ltb (slots / 1) 1 ≡ false = rw e at full in
          rw (even, full, one)
            (record {
              width = slots;
              some_slot = ground (arith, some_slot);
              adds_up = omega arith;
              spelled = inl (refl, refl);
            })
      | inr several ↦
          let none_left : slots % nodes ≡ 0 = ==→eq (slots % nodes) 0 even in
          let parts = div-add-mod' slots nodes in
          let some_slot : 0 < slots / nodes = ground (arith, full) in
          rw (even, full, several)
            (record {
              width = slots / nodes;
              some_slot = some_slot;
              adds_up = omega (arith, none_left, parts);
              spelled = inr refl;
            })
    ]
  ]
]

per_task_spec-IsEven :
    (r : Request) (slots : ℕ)
    → (per_task_spec r slots).value ≢ []
    → IsEven slots (per_task_spec r slots)
unfolding per_task_spec
per_task_spec-IsEven r slots h = elim (Bool-cases (leb 1 r.nodes)) [
  | inl a ↦ rw a (rule_for-IsEven (resolve_geometry r).0 r.nodes slots (rw a at h))
  | inr a ↦ elim (Bool-cases (r.have_per_node && leb 1 r.ntasks_per_node)) [
    | inr b ↦ absurd (rw (a, b) at h refl)
    | inl b ↦ elim (Bool-cases ((resolve_geometry r).0 % r.ntasks_per_node == 0)) [
      | inl c ↦
          rw (a, b, c)
            (rule_for-IsEven (resolve_geometry r).0 ((resolve_geometry r).0 / r.ntasks_per_node)
              slots (rw (a, b, c) at h))
      | inr c ↦ absurd (rw (a, b, c) at h refl)
    ]
  ]
]

pinned_spec-none : (r : Request) (slots : ℕ) → (pinned_spec r slots).value ≡ []
unfolding pinned_spec
pinned_spec-none r slots =
    elim (Bool-cases (leb 1 r.nodes || (r.have_per_node && leb 1 r.ntasks_per_node))) [
      | inl a ↦ rw a refl
      | inr a ↦ rw a refl
    ]

spec_by-IsEven :
    (r : Request) (slots : ℕ) (m : Result SlotsError (ℕ × Bool))
    → (spec_by r slots m).value ≢ []
    → IsEven slots (spec_by r slots m)
unfolding spec_by
spec_by-IsEven r slots (err e) h = absurd (h (pinned_spec-none r slots))
spec_by-IsEven r slots (ok (n, true)) h = per_task_spec-IsEven r slots h
spec_by-IsEven r slots (ok (n, false)) h = absurd (h (pinned_spec-none r slots))

-- Whenever a layout is pinned, the rule grants just the slots that are asked for: the same positive
-- number on each of its nodes, spelled out, or $pe_slots for one node. So no remainder is dropped.
pub par_spec-IsEven :
    (r : Request) (rule : Bytes) (slots : ℕ)
    → (par_spec r rule slots).value ≢ []
    → IsEven slots (par_spec r rule slots)
unfolding par_spec
par_spec-IsEven r rule slots h = spec_by-IsEven r slots (parse_slots_rule rule) h

nodes_for_usable-eq :
    (nodes usable k : ℕ) → nodes_for_usable nodes usable ≡ ok k → (k ≡ usable) × (0 < k)
unfolding nodes_for_usable
nodes_for_usable-eq nodes usable k h = elim (Bool-cases (usable == 0)) [
  | inl a ↦ absurd (err-ne-ok (rw a at h))
  | inr a ↦ elim (Bool-cases (nodes == 0)) [
    | inl b ↦ let e : usable ≡ k = ok-injective (rw (a, b) at h) in (sym e, ground (arith, a, e))
    | inr b ↦ elim (Bool-cases (ltb nodes usable)) [
      | inl c ↦ absurd (err-ne-ok (rw (a, b, c) at h))
      | inr c ↦ elim (Bool-cases (ltb usable nodes)) [
        | inl d ↦ absurd (err-ne-ok (rw (a, b, c, d) at h))
        | inr d ↦
            let e : nodes ≡ k = ok-injective (rw (a, b, c, d) at h) in
            (ground (arith, c, d, e), ground (arith, b, e))
      ]
    ]
  ]
]

-- A job with a host list that is not refused gets one node for each host of the list that is not
-- excluded, and at least one.
pub nodes_for_list-usable :
    (nodes k : ℕ) (list exclude : List Bytes)
    → list ≢ []
    → nodes_for_list nodes list exclude ≡ ok k
    → (k ≡ length (usable_hosts list exclude)) × (0 < k)
unfolding nodes_for_list
nodes_for_list-usable nodes k [] exclude some_host h = absurd (some_host refl)
nodes_for_list-usable nodes k (x ∷ list) exclude some_host h =
    nodes_for_usable-eq nodes (length (usable_hosts (x ∷ list) exclude)) k h
