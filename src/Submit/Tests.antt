-- ===== src/Submit/Tests.antt =====
-- Runs of the geometry of a submission, and the theorems applied to four tasks on two nodes.
use slurm_shim.Common.{
  ◌<◌, true, false, List, [], ◌∷◌, none, ◌≡◌, ◌≢◌, refl, sym, ◌∙◌, ok, err, length,
}
use slurm_shim.Text.Bytes.{Bytes, codes}
use slurm_shim.Submit.Geometry.{
  Request, slots, par_spec, usable_hosts, nodes_for_list, fewer_than_list,
}
use slurm_shim.Submit.Geometry.Layout.{IsEven, par_spec-IsEven, nodes_for_list-usable}

abbrev four_on_two : Request
four_on_two = record {
  nodes = 2;
  have_ntasks = true;
  ntasks = 4;
  have_per_node = false;
  ntasks_per_node = 0;
  cpus_per_task = 3;
}

four_by_three : slots four_on_two (codes "per-task") ≡ ok 12
unfolding slots
four_by_three = refl

six_each : (par_spec four_on_two (codes "per-task") 12).value ≡ codes "6"
unfolding par_spec
six_each = refl

codes-ne-nil : codes "6" ≢ []
codes-ne-nil = cc

par_spec-IsEven_example : IsEven 12 (par_spec four_on_two (codes "per-task") 12)
par_spec-IsEven_example =
    par_spec-IsEven four_on_two (codes "per-task") 12 (λ e. codes-ne-nil (sym six_each ∙ e))

-- Three tasks of two cpus over two nodes: the slots divide by the nodes and the tasks do not, and
-- the layout is pinned at three slots a node without a warning.
uneven_tasks :
    par_spec (record four_on_two { ntasks = 3; cpus_per_task = 2 }) (codes "per-task") 6
    ≡ record { value = codes "3"; nodes = 2; warn = none }
unfolding par_spec
uneven_tasks = refl

abbrev three_hosts : List Bytes
three_hosts = codes "n1" ∷ codes "n2" ∷ codes "n3" ∷ []

two_left : nodes_for_list 0 three_hosts (codes "n2" ∷ []) ≡ ok 2
unfolding nodes_for_list usable_hosts
two_left = refl

hosts-ne-nil : three_hosts ≢ []
hosts-ne-nil = cc

nodes_for_list-usable_example : (2 ≡ length (usable_hosts three_hosts (codes "n2" ∷ []))) × (0 < 2)
nodes_for_list-usable_example =
    nodes_for_list-usable 0 2 three_hosts (codes "n2" ∷ []) hosts-ne-nil two_left

too_few : nodes_for_list 2 three_hosts [] ≡ err (fewer_than_list 2 3)
unfolding nodes_for_list usable_hosts
too_few = refl
