-- ===== src/Fabricator/Assemble/Cleared.antt =====
-- The variables that a result of internal/fabricator/fabricate.go clears.
use slurm_shim.Common.{ℕ, List, ◌≡◌, subst, Result, ok, err, ok-injective, err-ne-ok, map, ◌∷◌}
use slurm_shim.Plan.Policy.{Policy, TaskGeometry, PolicyError, apply_policy}
use slurm_shim.Fabricator.Env.{Env}
use slurm_shim.Fabricator.Types.{FabricatorConfig, Who}
use slurm_shim.Fabricator.Quote.{FabricatorResult}
use slurm_shim.Fabricator.TableA.Scrub.{HasKeys, build_table_a-HasKeys}
use slurm_shim.Fabricator.Assemble.{
  HostInfo, allocation, FabricateError, Fabricated, build_layout, assembled, checked, assemble_with,
  assemble,
}

-- Each variable that the result exports is one that it unsets.
abbrev pub IsCleared : FabricatorResult → Type 0
IsCleared r = HasKeys r.unset r.exports

assembled-IsCleared :
    (env : Env) (cfg : FabricatorConfig) (id : Who) (memory : ℕ) (h : HostInfo)
    (hosts : List HostInfo) (geom : TaskGeometry)
    → IsCleared (assembled env cfg id memory h hosts geom).result
unfolding assembled build_layout
assembled-IsCleared env cfg id memory h hosts geom = build_table_a-HasKeys env cfg geom _ id _

checked-ok : (f g : Fabricated) (v : Result FabricateError (Unit {0})) → checked f v ≡ ok g → f ≡ g
checked-ok f g (err e) eq = absurd (err-ne-ok eq)
checked-ok f g (ok u) eq = ok-injective eq

assemble_with-IsCleared :
    (env : Env) (cfg : FabricatorConfig) (id : Who) (memory : ℕ) (h : HostInfo)
    (hosts : List HostInfo) (m : Result PolicyError TaskGeometry) (f : Fabricated)
    → assemble_with env cfg id memory h hosts m ≡ ok f
    → IsCleared f.result
unfolding assemble_with
assemble_with-IsCleared env cfg id memory h hosts (err e) f eq = absurd (err-ne-ok eq)
assemble_with-IsCleared env cfg id memory h hosts (ok geom) f eq =
    subst (λ (g : Fabricated). IsCleared g.result) (checked-ok _ f _ eq)
      (assembled-IsCleared env cfg id memory h hosts geom)

-- Every variable that a result of assemble exports, whatever the job and the configuration, stands
-- in the list of variables that the same result unsets.
pub assemble-IsCleared :
    (env : Env) (cfg : FabricatorConfig) (policy : Policy) (id : Who) (memory : ℕ) (h : HostInfo)
    (hosts : List HostInfo) (f : Fabricated)
    → assemble env cfg policy id memory h hosts ≡ ok f
    → IsCleared f.result
unfolding assemble
assemble-IsCleared env cfg policy id memory h hosts f eq =
    assemble_with-IsCleared env cfg id memory h hosts
      (apply_policy policy (map allocation (h ∷ hosts))) f eq
