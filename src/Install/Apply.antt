-- ===== src/Install/Apply.antt =====
-- internal/install/apply.go, and Mutating of types.go. The cluster is a parameter: a state, and for
-- each call of the administration interface what it answers and leaves behind.
pub mod Report
use slurm_shim.Common.{
  ℕ, zero, suc, Bool, true, false, List, [], ◌∷◌, Option, none, some, if◌then◌else◌,
}
use slurm_shim.Common.Int.{ℤ, pos}
use slurm_shim.Text.Bytes.{Bytes, codes}
use slurm_shim.Install.Types.{Pe, ChangeKind, Change, other}

-- The calls of ClusterAdmin that Apply makes: an error or none, and the cluster behind the call.
pub record ClusterAdmin (Cluster : Type 0) : Type 0 where
  pub add_pe_call : Pe → Cluster → Option Bytes × Cluster
  pub set_pe_attr_call : Bytes → Bytes → Bytes → Cluster → Option Bytes × Cluster
  pub add_queue_attr : Bytes → Bytes → Bytes → Cluster → Option Bytes × Cluster
  pub set_queue_attr : Bytes → Bytes → Bytes → Cluster → Option Bytes × Cluster
  pub remove_queue_attr : Bytes → Bytes → Bytes → Cluster → Option Bytes × Cluster
  pub clone_queue : Bytes → Bytes → Bytes → Cluster → Option Bytes × Cluster
  pub delete_queue_call : Bytes → Cluster → Option Bytes × Cluster
  pub delete_pe_call : Bytes → Cluster → Option Bytes × Cluster
  pub add_forced_complex : Bytes → Cluster → Option Bytes × Cluster
  pub delete_complex_call : Bytes → Cluster → Option Bytes × Cluster

-- The error is what the call answered; the kind and the object that wrap it are the change's.
pub record Outcome : Type 0 where
  pub change : Change
  pub err : Option Bytes

unfoldable pub mutating : ChangeKind → Bool
mutating ChangeKind.refused = false
mutating ChangeKind.unchanged = false
mutating (other k) = false
mutating _ = true

-- The method Mutating
unfoldable pub plan_mutating : List Change → Bool
unfolding mutating
plan_mutating [] = false
plan_mutating (c ∷ cs) = let rest = plan_mutating cs in if mutating c.kind then true else rest

unfoldable pub is_refused : ChangeKind → Bool
is_refused ChangeKind.refused = true
is_refused _ = false

-- The method Refusals
unfoldable pub refusals : List Change → List Change
unfolding is_refused
refusals [] = []
refusals (c ∷ cs) = let rest = refusals cs in if is_refused c.kind then c ∷ rest else rest

unfoldable pub or_none : Bytes → Bytes
or_none [] = codes "NONE"
or_none (c ∷ v) = c ∷ v

-- The zero value that the changes other than add-pe carry.
pe_of : Option Pe → Pe
pe_of (some p) = p
pe_of none = record {
  name = [];
  slots = pos 0;
  start_proc_args = [];
  stop_proc_args = [];
  allocation_rule = [];
  control_slaves = false;
  job_is_first_task = false;
  master_forks_slaves = false;
  daemon_forks_slaves = false;
}

module _ {Cluster : Type 0} (a : ClusterAdmin Cluster) where
  -- The switch of Apply.
  apply_kind : ChangeKind → Change → Cluster → Option Bytes × Cluster
  unfolding or_none pe_of
  apply_kind ChangeKind.add_pe c s = a.add_pe_call (pe_of c.pe) s
  apply_kind ChangeKind.set_pe_attr c s = a.set_pe_attr_call c.object c.attr (or_none c.new) s
  apply_kind ChangeKind.add_to_pe_list c s = a.add_queue_attr c.object (codes "pe_list") c.new s
  apply_kind ChangeKind.set_starter c s =
      a.set_queue_attr c.object (codes "starter_method") (or_none c.new) s
  apply_kind ChangeKind.add_complex c s = a.add_forced_complex c.object s
  apply_kind ChangeKind.add_queue c s = a.clone_queue c.old c.object c.new s
  apply_kind ChangeKind.remove_from_pe_list c s =
      a.remove_queue_attr c.object (codes "pe_list") c.old s
  apply_kind ChangeKind.delete_queue c s = a.delete_queue_call c.object s
  apply_kind ChangeKind.delete_pe c s = a.delete_pe_call c.object s
  apply_kind ChangeKind.delete_complex c s = a.delete_complex_call c.object s
  apply_kind ChangeKind.refused c s = (none, s)
  apply_kind ChangeKind.unchanged c s = (none, s)
  apply_kind (other k) c s = (some (codes "unknown change kind"), s)

  -- Apply: the report, and the cluster behind it.
  unfoldable pub apply : List Change → Cluster → List Outcome × Cluster
  unfolding apply_kind
  apply [] s = ([], s)
  apply (c ∷ cs) s =
      let (err, s') = apply_kind c.kind c s in
      let (outcomes, end) = apply cs s' in (record { change = c; err = err } ∷ outcomes, end)

succeeded : Option Bytes → Bool
succeeded none = true
succeeded (some e) = false

-- Report.Applied
unfoldable pub applied : List Outcome → ℕ
unfolding succeeded mutating
applied [] = 0
applied (o ∷ os) =
    let rest = applied os in
    if succeeded o.err then (if mutating o.change.kind then suc rest else rest) else rest

-- Report.Failed
unfoldable pub failed : List Outcome → List Outcome
unfolding succeeded
failed [] = []
failed (o ∷ os) = let rest = failed os in if succeeded o.err then rest else o ∷ rest
