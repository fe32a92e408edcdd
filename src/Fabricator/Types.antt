-- ===== src/Fabricator/Types.antt =====
-- internal/layout/schema.go, internal/config/config.go and internal/fabricator/helpers.go: the types
-- that the fabricator reads and writes.
use slurm_shim.Common.{ℕ, Bool, List, Option}
use slurm_shim.Common.Int.{ℤ}
use slurm_shim.Text.Bytes.{Bytes}

-- layout.Node, layout.Job and layout.Layout, the fields that the fabricator writes and reads.
pub record FabricatedNode : Type 0 where
  pub index : ℕ
  pub host : Bytes
  pub fqdn : Bytes
  pub ip : Bytes
  pub slots : ℕ
  pub processor_range : Bytes
  pub gpus : List Bytes
  pub host_slots : ℕ
  pub is_master : Bool

pub record FabricatedJob : Type 0 where
  pub job_id : ℤ
  pub array_task_id : Option ℤ
  pub name : Bytes
  pub user : Bytes
  pub uid : ℤ
  pub gid : ℤ
  pub queue : Bytes
  pub partition : Bytes
  pub account : Bytes
  pub submit_dir : Bytes
  pub submit_host : Bytes
  pub pe_name : Bytes
  pub mem_per_node_mb : ℕ

pub record RankEntry : Type 0 where
  pub rank : ℕ
  pub node : ℕ
  pub local : ℕ
  pub cpuset : Bytes

pub record FabricatedLayout : Type 0 where
  pub job : FabricatedJob
  pub master : FabricatedNode
  pub others : List FabricatedNode
  pub spares : List FabricatedNode
  pub rank_map : List RankEntry
  pub master_addr : Bytes
  pub master_port : ℤ

-- The configuration that the fabricator reads.
pub record FabricatorConfig : Type 0 where
  pub partition_aliases : List (Bytes × Bytes)
  pub emit_cpus_per_task : Bool
  pub export_master_addr : Bool
  pub master_port_base : ℤ
  pub master_port_range : ℕ
  pub vendor : Bytes
  pub isolation : Bytes

-- who
pub record Who : Type 0 where
  pub user : Bytes
  pub uid : ℤ
  pub gid : ℤ
