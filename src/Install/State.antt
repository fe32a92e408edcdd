-- ===== src/Install/State.antt =====
-- internal/install/state.go: Intend and Record, which keep what an installation did.
pub mod FirstOld
use slurm_shim.Common.{
  Bool, true, false, ◌&&◌, List, [], ◌∷◌, ◌++◌, Option, none, some, if◌then◌else◌,
}
use slurm_shim.Text.Bytes.{Bytes, codes, bytes_eq}
use slurm_shim.Install.Types.{ChangeKind, Change}
use slurm_shim.Install.Apply.{Outcome}

pub record PeListAdd : Type 0 where
  pub queue : Bytes
  pub pe : Bytes

pub record Replaced : Type 0 where
  pub object : Bytes
  pub attr : Bytes
  pub old : Bytes

-- State, without its schema version, prefix and config path, which these operations do not touch.
pub record State : Type 0 where
  pub created_queue : Bytes
  pub created_pe : Bytes
  pub created_complex : Bytes
  pub pe_list_adds : List PeListAdd
  pub replaced : List Replaced

intend_kind : ChangeKind → Change → State → State
intend_kind ChangeKind.add_queue c s = record {
  created_queue = c.object;
  created_pe = s.created_pe;
  created_complex = s.created_complex;
  pe_list_adds = s.pe_list_adds;
  replaced = s.replaced;
}
intend_kind ChangeKind.add_pe c s = record {
  created_queue = s.created_queue;
  created_pe = c.object;
  created_complex = s.created_complex;
  pe_list_adds = s.pe_list_adds;
  replaced = s.replaced;
}
intend_kind ChangeKind.add_complex c s = record {
  created_queue = s.created_queue;
  created_pe = s.created_pe;
  created_complex = c.object;
  pe_list_adds = s.pe_list_adds;
  replaced = s.replaced;
}
intend_kind _ c s = s

-- State.Intend
unfoldable pub intend : State → List Change → State
unfolding intend_kind
intend s [] = s
intend s (c ∷ cs) = intend (intend_kind c.kind c s) cs

-- The method `replaced`: the recorded old value of an attribute.
unfoldable pub replaced_value : List Replaced → Bytes → Bytes → Option Bytes
replaced_value [] object attr = none
replaced_value (r ∷ rs) object attr =
    let rest = replaced_value rs object attr in
    if bytes_eq r.object object && bytes_eq r.attr attr then some r.old else rest

replace_unless : Option Bytes → State → Bytes → Bytes → Bytes → State
replace_unless (some v) s object attr old = s
replace_unless none s object attr old = record {
  created_queue = s.created_queue;
  created_pe = s.created_pe;
  created_complex = s.created_complex;
  pe_list_adds = s.pe_list_adds;
  replaced = s.replaced ++ (record { object = object; attr = attr; old = old } ∷ []);
}

-- State.replace
unfoldable pub replace : State → Bytes → Bytes → Bytes → State
unfolding replaced_value replace_unless
replace s object attr old = replace_unless (replaced_value s.replaced object attr) s object attr old

-- The changes without an old value are not recorded.
replace_old : State → Bytes → Bytes → Bytes → State
unfolding replace
replace_old s object attr [] = s
replace_old s object attr (c ∷ old) = replace s object attr (c ∷ old)

unfoldable pub contains_add : List PeListAdd → Bytes → Bytes → Bool
contains_add [] queue pe = false
contains_add (a ∷ adds) queue pe =
    let rest = contains_add adds queue pe in
    if bytes_eq a.queue queue && bytes_eq a.pe pe then true else rest

record_add : Bool → Bytes → Bytes → State → State
record_add true queue pe s = s
record_add false queue pe s = record {
  created_queue = s.created_queue;
  created_pe = s.created_pe;
  created_complex = s.created_complex;
  pe_list_adds = s.pe_list_adds ++ (record { queue = queue; pe = pe } ∷ []);
  replaced = s.replaced;
}

record_kind : ChangeKind → Change → State → State
unfolding intend replace_old contains_add record_add
record_kind ChangeKind.add_queue c s = intend s (c ∷ [])
record_kind ChangeKind.add_pe c s = intend s (c ∷ [])
record_kind ChangeKind.add_complex c s = intend s (c ∷ [])
record_kind ChangeKind.add_to_pe_list c s =
    record_add (contains_add s.pe_list_adds c.object c.new) c.object c.new s
record_kind ChangeKind.set_starter c s =
    replace_old s (codes "queue " ++ c.object) (codes "starter_method") c.old
record_kind ChangeKind.set_pe_attr c s = replace_old s (codes "pe " ++ c.object) c.attr c.old
record_kind _ c s = s

-- An outcome with an error records nothing.
record_outcome : Option Bytes → Change → State → State
unfolding record_kind
record_outcome (some e) c s = s
record_outcome none c s = record_kind c.kind c s

-- State.Record
unfoldable pub record_report : State → List Outcome → State
unfolding record_outcome
record_report s [] = s
record_report s (o ∷ os) = record_report (record_outcome o.err o.change s) os
