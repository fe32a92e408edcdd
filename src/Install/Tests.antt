-- ===== src/Install/Tests.antt =====
-- Runs of the installer, and the theorems applied to a small cluster: two queues, one of them with a
-- starter_method of the site, and the PE slurm-shim at its old default of slots.
use slurm_shim.Common.{
  inr, ℕ, ◌+◌, true, false, List, [], ◌∷◌, none, some, ◌≡◌, refl, map, length, All, inl,
}
use slurm_shim.Common.Int.{pos}
use slurm_shim.Text.Bytes.{Bytes, codes}
use slurm_shim.Install.Types.{
  Pe, Queue, Facts, Options, Change, set_starter, set_pe_attr, refused, unchanged,
}
use slurm_shim.Install.Apply.{
  ClusterAdmin, Outcome, plan_mutating, refusals, apply, applied, failed,
}
use slurm_shim.Install.Apply.Report.{mutations, failed_mutations, apply_complete}
use slurm_shim.Install.Selection.{change, wired_queues}
use slurm_shim.Install.Planning.{reference_pe, starter_path, make_plan, with_pe_name}
use slurm_shim.Install.Planning.Safety.{KeepsSite, make_plan-KeepsSite}
use slurm_shim.Install.Planning.Rerun.{IsInstalled, make_plan_rerun}
use slurm_shim.Install.Types.{remove_from_pe_list, delete_queue, delete_pe}
use slurm_shim.Install.Ownership.{UninstallOptions, command, runs_as_other_user, path_in}
use slurm_shim.Install.Uninstall.{plan_uninstall}
use slurm_shim.Install.Uninstall.Targets.{MayUndo}
use slurm_shim.Install.Uninstall.Safety.{plan_uninstall-MayUndo}
use slurm_shim.Install.Uninstall.Complete.{IsMet, plan_uninstall-IsMet}
use slurm_shim.Install.State.{State, replaced_value, record_report}
use slurm_shim.Install.State.FirstOld.{or_else, first_overwritten, record_keeps_first}

abbrev opt : Bytes
opt = codes "/opt/shim"

abbrev starter : Bytes
starter = codes "/opt/shim/bin/slurm-shim-starter"

abbrev pe_at : ℕ → Pe
pe_at n = record {
  name = codes "slurm-shim";
  slots = pos n;
  start_proc_args = codes "/opt/shim/bin/slurm-shim-env";
  stop_proc_args = codes "NONE";
  allocation_rule = codes "$round_robin";
  control_slaves = true;
  job_is_first_task = false;
  master_forks_slaves = false;
  daemon_forks_slaves = false;
}

abbrev site_queue : Queue
site_queue = record {
  name = codes "all.q";
  pe_list = [];
  starter_method = codes "/site/start";
  pe_list_overrides = [];
  starter_overrides = [];
}

abbrev shim_queue : Queue
shim_queue = record {
  name = codes "slurm.q";
  pe_list = codes "slurm-shim" ∷ [];
  starter_method = starter;
  pe_list_overrides = [];
  starter_overrides = [];
}

abbrev before : Facts
before = record { queues = site_queue ∷ []; pes = pe_at 999 ∷ []; complexes = [] }

abbrev after : Facts
after = record { queues = site_queue ∷ shim_queue ∷ []; pes = pe_at 9999999 ∷ []; complexes = [] }

abbrev all_named : Options
all_named = record {
  prefix = opt;
  pe_name = [];
  queues = codes "all" ∷ [];
  created_queue = [];
  force = false;
}

abbrev unnamed_options : Options
unnamed_options = record {
  prefix = opt;
  pe_name = codes "slurm-shim";
  queues = [];
  created_queue = [];
  force = true;
}

refuses_starter : length (refusals (make_plan before all_named).changes) ≡ 1
unfolding make_plan refusals reference_pe slurm_shim.Text.Bytes.has_prefix
    slurm_shim.Text.Split.split slurm_shim.Encoders.Rle.int_eq
    slurm_shim.Install.Planning.starter_path
refuses_starter = refl

make_plan-KeepsSite_example : All (KeepsSite before) (make_plan before all_named).changes
make_plan-KeepsSite_example = make_plan-KeepsSite before all_named refl

installed : IsInstalled after (with_pe_name unnamed_options)
unfolding with_pe_name reference_pe slurm_shim.Install.Types.find_pe
    slurm_shim.Install.Selection.wired_queues slurm_shim.Install.Selection.contains
    slurm_shim.Install.Planning.starter_path slurm_shim.Encoders.Rle.int_eq
    slurm_shim.Text.Bytes.has_prefix slurm_shim.Text.Split.join slurm_shim.Text.Split.split
installed = record {
  found = refl;
  unnamed = refl;
  wired = shim_queue;
  wired_here = inr (inl refl);
  starts = refl;
  offered = (inl (λ e. cc), (inr (inl refl), tt));
}

make_plan_rerun_example :
    (plan_mutating (make_plan after unnamed_options).changes ≡ false)
    × (refusals (make_plan after unnamed_options).changes ≡ [])
make_plan_rerun_example = make_plan_rerun after unnamed_options installed

-- A cluster that counts the calls and refuses to change a queue.
abbrev counting : ClusterAdmin ℕ
counting = record {
  add_pe_call = λ p s. (none, s + 1);
  set_pe_attr_call = λ pe attr v s. (none, s + 1);
  add_queue_attr = λ q attr v s. (some (codes "denied"), s + 1);
  set_queue_attr = λ q attr v s. (some (codes "denied"), s + 1);
  remove_queue_attr = λ q attr v s. (some (codes "denied"), s + 1);
  clone_queue = λ src name cv s. (none, s + 1);
  delete_queue_call = λ q s. (none, s + 1);
  delete_pe_call = λ p s. (none, s + 1);
  add_forced_complex = λ c s. (none, s + 1);
  delete_complex_call = λ c s. (none, s + 1);
}

abbrev three_changes : List Change
three_changes =
    change set_starter (codes "all.q") (codes "starter_method") [] starter
    ∷ change set_pe_attr (codes "slurm-shim") (codes "slots") (codes "999") (codes "9999999")
    ∷ change refused (codes "b.q") (codes "starter_method") (codes "/site/start") starter
    ∷ []

apply_complete_example :
    (map (λ (o : Outcome). o.change) (apply counting three_changes 0).0 ≡ three_changes)
    × (applied (apply counting three_changes 0).0
          + failed_mutations (failed (apply counting three_changes 0).0)
        ≡ mutations three_changes)
apply_complete_example = apply_complete counting three_changes 0

abbrev fresh : State
fresh = record {
  created_queue = [];
  created_pe = [];
  created_complex = [];
  pe_list_adds = [];
  replaced = [];
}

abbrev two_runs : List Outcome
two_runs =
    record {
      change =
          change set_starter (codes "all.q") (codes "starter_method") (codes "/site/start") starter;
      err = none;
    }
    ∷ record {
      change = change set_starter (codes "all.q") (codes "starter_method") starter (codes "/new");
      err = none;
    }
    ∷ []

site_value :
    replaced_value
      (record_report fresh two_runs).replaced
      (codes "queue all.q")
      (codes "starter_method")
    ≡ some (codes "/site/start")
unfolding record_report replaced_value change
site_value = refl

record_keeps_first_example :
    replaced_value
      (record_report fresh two_runs).replaced
      (codes "queue all.q")
      (codes "starter_method")
    ≡ or_else
        (replaced_value fresh.replaced (codes "queue all.q") (codes "starter_method"))
        (first_overwritten (codes "queue all.q") (codes "starter_method") two_runs)
record_keeps_first_example =
    record_keeps_first two_runs fresh (codes "queue all.q") (codes "starter_method")

-- A job's queue that install --force took over, and the record of it.
abbrev under_opt : UninstallOptions
under_opt = record { in_tree = path_in opt; pe_name = [] }

abbrev recorded : State
recorded = record {
  created_queue = codes "slurm.q";
  created_pe = codes "slurm-shim";
  created_complex = [];
  pe_list_adds = [];
  replaced =
      record {
        object = codes "queue all.q";
        attr = codes "starter_method";
        old = codes "/site/start";
      }
      ∷ [];
}

abbrev taken_over : Queue
taken_over = record {
  name = codes "all.q";
  pe_list = codes "slurm-shim" ∷ codes "mpi" ∷ [];
  starter_method = starter;
  pe_list_overrides = [];
  starter_overrides = [];
}

abbrev wired : Facts
wired = record { queues = taken_over ∷ shim_queue ∷ []; pes = pe_at 9999999 ∷ []; complexes = [] }

undone :
    plan_uninstall wired (some recorded) under_opt
    ≡ change remove_from_pe_list (codes "all.q") (codes "pe_list") (codes "slurm-shim") []
      ∷ change set_starter (codes "all.q") (codes "starter_method") starter (codes "/site/start")
      ∷ change delete_queue (codes "slurm.q") [] [] []
      ∷ change delete_pe (codes "slurm-shim") [] [] []
      ∷ []
unfolding plan_uninstall path_in slurm_shim.Install.Paths.clean slurm_shim.Text.Bytes.has_prefix
    slurm_shim.Text.Split.fields slurm_shim.Text.Split.join slurm_shim.Text.Split.split
    slurm_shim.Install.Types.find_queue slurm_shim.Install.Selection.contains
undone = refl

root_command :
    (command (codes "root@/opt/shim/bin/x arg") ≡ codes "/opt/shim/bin/x")
    × (runs_as_other_user (codes "root@/opt/shim/bin/x") ≡ true)
    × (path_in opt (codes "/opt/shim2/bin/x") ≡ false)
unfolding runs_as_other_user path_in slurm_shim.Text.Split.fields slurm_shim.Text.Split.cut
    slurm_shim.Text.Bytes.contains_byte slurm_shim.Install.Paths.clean
    slurm_shim.Text.Bytes.has_prefix slurm_shim.Text.Split.join slurm_shim.Text.Split.split
root_command = (refl, refl, refl)

plan_uninstall-MayUndo_example :
    All (MayUndo wired (some recorded) under_opt) (plan_uninstall wired (some recorded) under_opt)
plan_uninstall-MayUndo_example = plan_uninstall-MayUndo wired (some recorded) under_opt

env_inside : path_in opt (codes "/opt/shim/bin/slurm-shim-env") ≡ true
unfolding path_in slurm_shim.Install.Paths.clean slurm_shim.Text.Bytes.has_prefix
    slurm_shim.Text.Split.fields slurm_shim.Text.Split.cut slurm_shim.Text.Split.join
    slurm_shim.Text.Split.split
env_inside = refl

plan_uninstall-IsMet_example :
    IsMet (some recorded) (plan_uninstall wired (some recorded) under_opt) (pe_at 9999999)
plan_uninstall-IsMet_example =
    plan_uninstall-IsMet wired (some recorded) under_opt (pe_at 9999999) (inl refl) env_inside
