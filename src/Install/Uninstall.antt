-- ===== src/Install/Uninstall.antt =====
-- internal/install/uninstall.go: PlanUninstall and createdByShim. The warnings of a plan and the reasons
-- in its changes are left out.
pub mod Targets
pub mod Listed
pub mod Safety
pub mod Complete
use slurm_shim.Common.{
  ℕ, Bool, true, false, ◌&&◌, ◌||◌, not, List, [], ◌∷◌, ◌++◌, map, Option, none, some, ◌==◌,
  if◌then◌else◌,
}
use slurm_shim.Text.Bytes.{Bytes, codes, bytes_eq, has_prefix, contains_byte}
use slurm_shim.Text.Split.{fields, cut}
use slurm_shim.Gedata.Tasks.{trim_brackets_left, trim_brackets_right}
use slurm_shim.Install.Types.{
  Pe, Queue, Complex, Facts, ChangeKind, Change, set_starter, set_pe_attr, remove_from_pe_list,
  delete_queue, delete_pe, delete_complex, refused, find_queue, find_complex,
}
use slurm_shim.Install.Paths.{clean, equal_fold}
use slurm_shim.Install.Selection.{default_queue_name, shim_complex, contains, change}
use slurm_shim.Install.State.{State, PeListAdd, Replaced, replaced_value, contains_add}
use slurm_shim.Install.Ownership.{
  UninstallOptions, runs_as_other_user, replaced_attrs, records, pe_object, our_pes, restored_pes,
  unknown_pes,
}

-- All names of the first list are in the second.
unfoldable pub all_in : List Bytes → List Bytes → Bool
all_in [] ys = true
all_in (x ∷ xs) ys = let rest = all_in xs ys in if contains ys x then rest else false

abbrev no_overrides : List Bytes → Bool
no_overrides [] = true
no_overrides (ov ∷ ovs) = false

abbrev pub starts_elsewhere : UninstallOptions → Bytes → Bool
starts_elsewhere o [] = false
starts_elsewhere o (c ∷ m) = not (o.in_tree (c ∷ m))

-- createdByShim
unfoldable pub created_by_shim : UninstallOptions → List Bytes → Queue → Bool
unfolding all_in
created_by_shim o ours q =
    if starts_elsewhere o q.starter_method
    then false
    else if not (all_in q.pe_list ours)
    then false
    else no_overrides q.pe_list_overrides

unfoldable pub created_if : UninstallOptions → List Bytes → Option Queue → Bytes
unfolding created_by_shim
created_if o ours none = []
created_if o ours (some q) = if created_by_shim o ours q then q.name else []

-- The name of the queue to delete, empty for none.
unfoldable pub created_queue : Facts → Option State → UninstallOptions → List Bytes → Bytes
unfolding created_if
created_queue f none o ours = []
created_queue f (some st) o ours =
    if bytes_eq st.created_queue default_queue_name
    then created_if o ours (find_queue f.queues default_queue_name)
    else []

unfoldable pub remove_ours : Queue → List Bytes → List Change
remove_ours q [] = []
remove_ours q (pe ∷ pes) =
    let rest = remove_ours q pes in
    if contains q.pe_list pe
    then change remove_from_pe_list q.name (codes "pe_list") pe [] ∷ rest
    else rest

abbrev pub adds : Option State → List PeListAdd
adds none = []
adds (some st) = st.pe_list_adds

unfoldable pub remove_added : Option State → Queue → List Bytes → List Change
remove_added st q [] = []
remove_added st q (pe ∷ pes) =
    let rest = remove_added st q pes in
    if contains q.pe_list pe && contains_add (adds st) q.name pe
    then change remove_from_pe_list q.name (codes "pe_list") pe [] ∷ rest
    else rest

-- overrideSep
abbrev override_sep : ℕ → Bool
override_sep c = c == b'[' || c == b']' || c == b'=' || c == b' ' || c == b','

-- strings.FieldsFunc at those bytes: the field under way, and those behind it.
override_fields_from : Bytes → Bytes × List Bytes
override_fields_from [] = ([], [])
override_fields_from (c ∷ s) =
    let (word, words) = override_fields_from s in
    if override_sep c
    then ([], elim word [ [] ↦ words | d ∷ r ↦ (d ∷ r) ∷ words ])
    else (c ∷ word, words)

unfoldable pub override_fields : Bytes → List Bytes
unfolding override_fields_from
override_fields s =
    let (word, words) = override_fields_from s in elim word [ [] ↦ words | d ∷ r ↦ (d ∷ r) ∷ words ]

unfoldable pub refuse_offers : Queue → Bytes → List Bytes → List Change
unfolding override_fields
refuse_offers q ov [] = []
refuse_offers q ov (pe ∷ pes) =
    let rest = refuse_offers q ov pes in
    if contains (override_fields ov) pe
    then change refused q.name (codes "pe_list") ov [] ∷ rest
    else rest

unfoldable pub refuse_pe_overrides : Queue → List Bytes → List Bytes → List Change
unfolding refuse_offers
refuse_pe_overrides q ours [] = []
refuse_pe_overrides q ours (ov ∷ ovs) = refuse_offers q ov ours ++ refuse_pe_overrides q ours ovs

abbrev override_value : Bytes × Bytes × Bool → Option Bytes
override_value (host, v, false) = none
override_value (host, v, true) = some v

-- The value of a per-host entry `[host=value]`.
unfoldable pub host_value : Bytes → Option Bytes
unfolding trim_brackets_left trim_brackets_right cut
host_value ov = override_value (cut (trim_brackets_right (trim_brackets_left ov)) b'=')

abbrev pub override_in_tree : UninstallOptions → Option Bytes → Bool
override_in_tree o none = false
override_in_tree o (some v) = o.in_tree v

unfoldable pub refuse_starters : UninstallOptions → Queue → List Bytes → List Change
unfolding host_value
refuse_starters o q [] = []
refuse_starters o q (ov ∷ ovs) =
    let rest = refuse_starters o q ovs in
    if override_in_tree o (host_value ov)
    then change refused q.name (codes "starter_method") ov [] ∷ rest
    else rest

abbrev or_empty : Option Bytes → Bytes
or_empty none = []
or_empty (some v) = v

abbrev pub recorded_starter : Option State → Bytes → Bytes
unfolding replaced_value
recorded_starter st name =
    or_empty (replaced_value (records st) (codes "queue " ++ name) (codes "starter_method"))

unfoldable pub unwire : Option State → UninstallOptions → Queue → Bytes → List Change
unfolding recorded_starter
unwire st o q [] = []
unwire st o q (c ∷ m) =
    if o.in_tree (c ∷ m)
    then change set_starter q.name (codes "starter_method") (c ∷ m) (recorded_starter st q.name)
      ∷ []
    else []

-- One queue that is not deleted.
unfoldable pub queue_changes :
    Option State → UninstallOptions → List Bytes → List Bytes → Queue → List Change
unfolding remove_ours remove_added refuse_pe_overrides refuse_starters unwire
queue_changes st o ours restored q =
    remove_ours q ours
    ++ (remove_added st q restored
        ++ (refuse_pe_overrides q ours q.pe_list_overrides
            ++ (refuse_starters o q q.starter_overrides ++ unwire st o q q.starter_method)))

unfoldable pub queues_changes :
    Option State → UninstallOptions → List Bytes → List Bytes → Bytes → List Queue → List Change
unfolding queue_changes
queues_changes st o ours restored created [] = []
queues_changes st o ours restored created (q ∷ qs) =
    let rest = queues_changes st o ours restored created qs in
    let own = queue_changes st o ours restored q in
    if bytes_eq q.name created then rest else own ++ rest

unfoldable pub delete_created : Bytes → List Change
delete_created [] = []
delete_created (c ∷ name) = change delete_queue (c ∷ name) [] [] [] ∷ []

unfoldable pub delete_pes : List Bytes → List Change
delete_pes [] = []
delete_pes (pe ∷ pes) = change delete_pe pe [] [] [] ∷ delete_pes pes

abbrev forced_only : Option Complex → List Change
unfolding equal_fold change
forced_only none = []
forced_only (some c) =
    if equal_fold c.requestable (codes "FORCED")
    then change delete_complex shim_complex [] [] [] ∷ []
    else []

unfoldable pub delete_shim_complex : Facts → Option State → List Change
unfolding forced_only find_complex
delete_shim_complex f none = []
delete_shim_complex f (some st) =
    if bytes_eq st.created_complex shim_complex
    then forced_only (find_complex f.complexes shim_complex)
    else []

unfoldable pub restore_attrs : Bytes → List Replaced → List Change
unfolding runs_as_other_user
restore_attrs pe [] = []
restore_attrs pe (r ∷ rs) =
    (if runs_as_other_user r.old
      then change refused pe r.attr [] r.old
      else change set_pe_attr pe r.attr [] r.old)
    ∷ restore_attrs pe rs

unfoldable pub restore_pes : Option State → List Bytes → List Change
unfolding restore_attrs
restore_pes st [] = []
restore_pes st (pe ∷ pes) =
    restore_attrs pe (replaced_attrs (records st) (pe_object pe)) ++ restore_pes st pes

-- PlanUninstall
unfoldable pub plan_uninstall : Facts → Option State → UninstallOptions → List Change
unfolding our_pes restored_pes unknown_pes created_queue queues_changes delete_created delete_pes
    delete_shim_complex restore_pes
plan_uninstall f st o =
    let ours = our_pes st o f.pes in
    let restored = restored_pes st o f.pes in
    let created = created_queue f st o ours in
    unknown_pes st o f.pes
    ++ (queues_changes st o ours restored created f.queues
        ++ (delete_created created
            ++ (delete_pes ours ++ (delete_shim_complex f st ++ restore_pes st restored))))
