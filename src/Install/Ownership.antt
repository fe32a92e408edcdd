-- ===== src/Install/Ownership.antt =====
-- internal/install/uninstall.go: command, PathIn and the first loop of PlanUninstall, which sorts the
-- parallel environments by what points into the tree. TreeMatcher, which asks the file system, is
-- left out: whether a path lies in the tree is an argument, as it is in the source.
use slurm_shim.Common.{
  Bool, true, false, ◌||◌, not, List, [], ◌∷◌, ◌++◌, Option, none, some, if◌then◌else◌,
}
use slurm_shim.Text.Bytes.{Bytes, codes, bytes_eq, has_prefix, contains_byte}
use slurm_shim.Text.Split.{fields, cut}
use slurm_shim.Install.Types.{Pe, Change, refused}
use slurm_shim.Install.Paths.{clean}
use slurm_shim.Install.Selection.{change}
use slurm_shim.Install.State.{State, Replaced}

abbrev pub default_pe_name : Bytes
default_pe_name = codes "slurm-shim"

pub record UninstallOptions : Type 0 where
  pub in_tree : Bytes → Bool
  pub pe_name : Bytes

-- What is behind the first `@`, where that is not in front and no `/` stands before it.
abbrev without_user : Bytes → Bytes × Bytes × Bool → Bytes
without_user c (user, rest, false) = c
without_user c ([], rest, true) = c
without_user c (u ∷ user, rest, true) = if contains_byte (u ∷ user) b'/' then c else rest

-- command
unfoldable pub command : Bytes → Bytes
command v = elim (fields v) [ [] ↦ [] | c ∷ fs ↦ without_user c (cut c b'@') ]

-- runsAsOtherUser
unfoldable pub runs_as_other_user : Bytes → Bool
unfolding command
runs_as_other_user v = elim (fields v) [ [] ↦ false | c ∷ fs ↦ not (bytes_eq (command v) c) ]

-- PathIn
unfoldable pub path_in : Bytes → Bytes → Bool
unfolding command
path_in prefix p =
    let dir = clean prefix in
    let path = clean (command p) in bytes_eq path dir || has_prefix path (dir ++ codes "/")

-- A pointer to a record that may be nil; its methods read a nil one as empty.
unfoldable pub replaced_attrs : List Replaced → Bytes → List Replaced
replaced_attrs [] object = []
replaced_attrs (r ∷ rs) object =
    let rest = replaced_attrs rs object in if bytes_eq r.object object then r ∷ rest else rest

abbrev pub records : Option State → List Replaced
records none = []
records (some st) = st.replaced

abbrev pub pe_object : Bytes → Bytes
pe_object name = codes "pe " ++ name

unfoldable pub has_attr : Bytes → List Replaced → Bool
has_attr attr [] = false
has_attr attr (r ∷ rs) = let rest = has_attr attr rs in if bytes_eq r.attr attr then true else rest

-- What uninstall makes of a parallel environment.
pub data PeClass : Type 0 where
  foreign : PeClass
  repaired : PeClass
  of_shim : PeClass
  unknown : PeClass

abbrev pub is_created : Option State → Bytes → Bool
is_created none name = false
is_created (some st) name = bytes_eq name st.created_pe

-- Whether it points into the tree, has a recorded start_proc_args, and goes by one of our names.
abbrev pub class_of : Bool → Bool → Bool → PeClass
class_of false recorded named = foreign
class_of true true named = repaired
class_of true false true = of_shim
class_of true false false = unknown

abbrev pub is_named : Option State → UninstallOptions → Bytes → Bool
is_named st o name = bytes_eq name default_pe_name || is_created st name || bytes_eq name o.pe_name

unfoldable pub classify : Option State → UninstallOptions → Pe → PeClass
unfolding replaced_attrs has_attr
classify st o pe =
    class_of (o.in_tree pe.start_proc_args)
      (has_attr (codes "start_proc_args") (replaced_attrs (records st) (pe_object pe.name)))
      (is_named st o pe.name)

abbrev pub keep_of_shim : PeClass → Bytes → List Bytes → List Bytes
keep_of_shim of_shim name rest = name ∷ rest
keep_of_shim _ name rest = rest

abbrev pub keep_repaired : PeClass → Bytes → List Bytes → List Bytes
keep_repaired repaired name rest = name ∷ rest
keep_repaired _ name rest = rest

unfoldable pub refuse_unknown : PeClass → Pe → List Change → List Change
refuse_unknown unknown pe rest =
    change refused pe.name (codes "start_proc_args") pe.start_proc_args [] ∷ rest
refuse_unknown _ pe rest = rest

-- The first loop: the shim's own environments, those to restore, and the refusals.
unfoldable pub our_pes : Option State → UninstallOptions → List Pe → List Bytes
unfolding classify
our_pes st o [] = []
our_pes st o (pe ∷ pes) = keep_of_shim (classify st o pe) pe.name (our_pes st o pes)

unfoldable pub restored_pes : Option State → UninstallOptions → List Pe → List Bytes
unfolding classify
restored_pes st o [] = []
restored_pes st o (pe ∷ pes) = keep_repaired (classify st o pe) pe.name (restored_pes st o pes)

unfoldable pub unknown_pes : Option State → UninstallOptions → List Pe → List Change
unfolding classify refuse_unknown
unknown_pes st o [] = []
unknown_pes st o (pe ∷ pes) = refuse_unknown (classify st o pe) pe (unknown_pes st o pes)
