-- ===== src/Fabricator/Tests.antt =====
-- Runs of the fabrication and of its quoting, and the theorems applied to a value that holds quotes
-- and a newline, and to a job of two nodes.
use slurm_shim.Common.{
  none, ok, All, ◌≤◌, arith, map, if◌then◌else◌, ◌++◌, true, false, List, [], ◌∷◌, some, ◌≡◌, refl,
}
use slurm_shim.Common.Int.{pos}
use slurm_shim.Text.Bytes.{Bytes, codes, bytes_eq}
use slurm_shim.Text.Decimal.{max_int}
use slurm_shim.Encoders.Nodelist.{split_name, must_atoi}
use slurm_shim.Encoders.Nodelist.Names.{IsHost, number_of-IsHost}
use slurm_shim.Plan.Policy.{TaskGeometry, slot, slot_geometry, apply_policy}
use slurm_shim.Fabricator.Env.{Env, env_int64, array_task_id, slurm_array_coords}
use slurm_shim.Fabricator.Types.{FabricatorConfig, Who}
use slurm_shim.Fabricator.TableA.{build_table_a}
use slurm_shim.Fabricator.TableA.Scrub.{has_key, cleared}
use slurm_shim.Fabricator.Assemble.Cleared.{IsCleared, assemble-IsCleared}
use slurm_shim.Fabricator.Assemble.{
  HostInfo, Fabricated, split_spares, allocation, lookup, assembled, add_spares,
}
use slurm_shim.Fabricator.Assemble.Valid.{host_names, assemble-assembled}
use slurm_shim.Fabricator.Quote.{
  newline, shell_quote, sanitize_free_text, machine_value_ok, FabricatorResult, render_exports,
}
use slurm_shim.Fabricator.Quote.Shell.{is_word-IsName}
use slurm_shim.Fabricator.Quote.Shell.Script.{commands, read_script, read_script-render_exports}

quote_in_quotes : shell_quote (codes "it's") ≡ codes "'it'\\''s'"
unfolding shell_quote
quote_in_quotes = refl

free_text : sanitize_free_text (codes "my job; rm -rf $HOME") ≡ codes "my_job__rm_-rf__HOME"
unfolding sanitize_free_text
free_text = refl

machine_lists : machine_value_ok (codes "node[01-04],gpu:2") ≡ true
unfolding machine_value_ok
machine_lists = refl

no_command : machine_value_ok (codes "n1`id`") ≡ false
unfolding machine_value_ok
no_command = refl

-- A value that would end its quotes and start a command of its own.
abbrev hostile : Bytes
hostile = codes "x'; rm" ++ (newline ∷ codes "export A='y")

abbrev two_exports : FabricatorResult
two_exports = record {
  unset = codes "SLURM_OLD" ∷ [];
  disabled = false;
  shim_bin_dir = codes "/opt/it's/bin";
  exports = (codes "SLURM_JOB_NAME", hostile) ∷ (codes "SLURM_JOB_ID", codes "42") ∷ [];
}

read_script-render_exports_example :
    read_script 4 (codes "/bin") (render_exports two_exports)
    ≡ some (commands two_exports (codes "/bin"))
read_script-render_exports_example =
    read_script-render_exports two_exports (codes "/bin")
      (is_word-IsName (codes "SLURM_OLD") refl, tt)
      (
        is_word-IsName (codes "SLURM_JOB_NAME") refl,
        (is_word-IsName (codes "SLURM_JOB_ID") refl, tt),
      )

-- A job of two nodes and one spare on a site whose devices are UUIDs.
abbrev job_env : Env
job_env key =
    if bytes_eq key (codes "JOB_ID")
    then codes "42"
    else if bytes_eq key (codes "JOB_NAME")
    then codes "my job"
    else if bytes_eq key (codes "SLURM_SHIM_SPARES")
    then codes "1"
    else if bytes_eq key (codes "SGE_TASK_ID")
    then codes "undefined"
    else []

abbrev array_env : Env
array_env key =
    if bytes_eq key (codes "SGE_TASK_FIRST")
    then codes "1"
    else if bytes_eq key (codes "SGE_TASK_LAST")
    then codes "5"
    else if bytes_eq key (codes "SGE_TASK_STEPSIZE")
    then codes "2"
    else if bytes_eq key (codes "SLURM_ARRAY_BASE")
    then codes "0"
    else if bytes_eq key (codes "SLURM_ARRAY_STEP")
    then codes "10"
    else []

-- The third task of -t 1-5:2 is index 20 of --array=0-20:10.
third_task : slurm_array_coords array_env (pos 5) ≡ record {
  task_id = pos 20;
  range = some (record { min = pos 0; max = pos 20; step = pos 10; count = pos 3 });
}
unfolding slurm_array_coords slurm_shim.Text.Decimal.atoi slurm_shim.Text.Split.trim_space
third_task = refl

no_array : array_task_id job_env ≡ none
unfolding array_task_id slurm_shim.Text.Split.trim_space
no_array = refl

too_big : env_int64 (λ key. codes "99999999999999999999x") [] ≡ pos max_int
unfolding env_int64 slurm_shim.Text.Decimal.atoi slurm_shim.Text.Split.trim_space
too_big = refl

abbrev host_named : Bytes → HostInfo
host_named name = record {
  name = name;
  fqdn = name ++ codes ".site";
  slots = 4;
  cluster_queue = codes "all.q";
  processor_range = codes "UNDEFINED";
  ip = [];
  gpus = codes "GPU-1" ∷ codes "GPU-2" ∷ [];
  host_slots = 8;
}

abbrev site : FabricatorConfig
site = record {
  partition_aliases = (codes "all.q", codes "compute") ∷ [];
  emit_cpus_per_task = false;
  export_master_addr = true;
  master_port_base = pos 20000;
  master_port_range = 1000;
  vendor = codes "AMD";
  isolation = [];
}

abbrev someone : Who
someone = record { user = codes "u"; uid = pos 7; gid = pos 8 }

spare_off :
    split_spares job_env (host_named (codes "n1") ∷ host_named (codes "n2") ∷ [])
    ≡ (host_named (codes "n1") ∷ [], host_named (codes "n2") ∷ [])
unfolding split_spares slurm_shim.Text.Split.trim_space slurm_shim.Text.Decimal.atoi
spare_off = refl

abbrev two_hosts : List HostInfo
two_hosts = host_named (codes "n2") ∷ []

abbrev two_tasks : TaskGeometry
two_tasks = slot_geometry (map allocation (host_named (codes "n1") ∷ two_hosts))

abbrev job_made : Fabricated
job_made = assembled job_env site someone 0 (host_named (codes "n1")) two_hosts two_tasks

-- JOB_ID * 31 on the site's ports, and the devices' positions for SLURM_JOB_GPUS.
port_of_job : lookup job_made.result.exports (codes "MASTER_PORT") ≡ codes "20302"
unfolding assembled lookup slurm_shim.Text.Split.trim_space slurm_shim.Fabricator.TableA.uniform
    slot_geometry slurm_shim.Fabricator.TableA.uniform_gpu_count
    slurm_shim.Fabricator.Unsets.batch_device_var slurm_shim.Text.Decimal.itoa
    slurm_shim.Text.Decimal.atoi
port_of_job = refl

positions_of_gpus : lookup job_made.result.exports (codes "SLURM_JOB_GPUS") ≡ codes "0,1"
unfolding assembled lookup slurm_shim.Text.Split.trim_space slurm_shim.Fabricator.TableA.uniform
    slot_geometry slurm_shim.Fabricator.TableA.job_gpus_value slurm_shim.Text.Decimal.atoi
    slurm_shim.Text.Split.join slurm_shim.Text.Decimal.itoa_ℕ
positions_of_gpus = refl

amd_mask : lookup job_made.result.exports (codes "ROCR_VISIBLE_DEVICES") ≡ codes "GPU-1,GPU-2"
unfolding assembled lookup slurm_shim.Text.Split.trim_space slurm_shim.Fabricator.TableA.uniform
    slot_geometry slurm_shim.Fabricator.TableA.uniform_gpu_count
    slurm_shim.Fabricator.Unsets.batch_device_var slurm_shim.Text.Split.join
amd_mask = refl

-- The nodelist of the spares is exported, and no part of what is cleared.
spares_exported :
    lookup
      (add_spares job_made (host_named (codes "n3") ∷ [])).result.exports
      (codes "SLURM_X_SPARE_NODELIST")
    ≡ codes "n3"
unfolding assembled lookup add_spares slurm_shim.Text.Split.trim_space
    slurm_shim.Fabricator.TableA.uniform slot_geometry
    slurm_shim.Fabricator.TableA.uniform_gpu_count slurm_shim.Fabricator.Unsets.batch_device_var
    slurm_shim.Text.Split.join slurm_shim.Encoders.Nodelist.new_group
spares_exported = refl

spares_not_cleared : has_key (cleared site job_made.layout) (codes "SLURM_X_SPARE_NODELIST") ≡ false
unfolding assembled slurm_shim.Text.Split.trim_space
spares_not_cleared = refl

slots_given :
    apply_policy slot (map allocation (host_named (codes "n1") ∷ two_hosts)) ≡ ok two_tasks
unfolding apply_policy
slots_given = refl

two_names : All IsHost (host_names (host_named (codes "n1") ∷ two_hosts))
unfolding split_name must_atoi
two_names =
    (number_of-IsHost b'n' (codes "1") refl refl, (number_of-IsHost b'n' (codes "2") refl refl, tt))

few_tasks : All (λ c. c ≤ max_int) two_tasks.per_node
unfolding slot_geometry
few_tasks = (omega arith, (omega arith, tt))

assemble-IsCleared_example : IsCleared job_made.result
assemble-IsCleared_example =
    assemble-IsCleared job_env site slot someone 0 (host_named (codes "n1")) two_hosts job_made (
      assemble-assembled job_env site slot someone 0 (host_named (codes "n1")) two_hosts two_tasks
        slots_given two_names ((refl, (refl, tt)), ((refl, (refl, tt)), tt)) few_tasks
        (omega arith))
