-- ===== src/Install/Planning/Safety.antt =====
-- What the plan of internal/install/plan.go never overwrites without --force.
use slurm_shim.Common.{
  false, ◌||◌, not, List, [], ◌∷◌, Option, none, some, ◌≡◌, refl, Bool-cases, inl, inr, All, All-++,
  true, sym, ap, ==→eq, some_inj, In, All-In, ◌⊎◌,
}
use slurm_shim.Common.Int.{ℤ, pos, negsuc}
use slurm_shim.Text.Bytes.{Bytes, codes, bytes_eq, bytes_eq→eq}
use slurm_shim.Text.Decimal.{itoa}
use slurm_shim.Encoders.Rle.{int_eq}
use slurm_shim.Install.Types.{
  Pe, Queue, Complex, Facts, Options, ChangeKind, Change, add_complex, add_pe, add_queue,
  add_to_pe_list, refused, unchanged, set_pe_attr, set_starter, find_queue, find_pe, find_complex,
}
use slurm_shim.Install.Paths.{equal_fold}
use slurm_shim.Install.Selection.{
  default_queue_name, shim_complex, all_queues, contains, change, add_target, named_queues,
  wired_queues, new_queue, new_complex, default_queue, unnamed_queues, is_all, by_names,
  select_queues,
}
use slurm_shim.Install.Planning.{
  default_pe_name, pe_slots_no_cap, legacy_pe_slots, reference_pe, starter_path, Fix, fixes_of,
  raise_of, fix_changes, repair_of, plan_pe_repair, pe_changes, pe_list_change, starter_change,
  wire_queues, with_pe_name, plan_changes, make_plan,
}

-- A queue of the cluster, or the one that the plan makes because the cluster has none of its name.
abbrev pub IsTarget : Facts → Queue → Type 0
IsTarget f q =
    In q f.queues
    ⊎ ((q.name ≡ default_queue_name)
        × (find_queue f.queues default_queue_name ≡ none)
        × (q.starter_method ≡ []))

-- What a change may do to a cluster. A starter is set only of a queue that has none; of a parallel
-- environment only the slots are set, of the installer's own, where the cluster has it at its old
-- default, to no cap; and what is made is not there. Nothing is removed.
KindKeeps : Facts → ChangeKind → Change → Type 0
KindKeeps f set_starter c =
    (q : Queue) × IsTarget f q × (q.name ≡ c.object) × (q.starter_method ≡ [])
KindKeeps f set_pe_attr c =
    (pe : Pe) × In pe f.pes
    × (pe.name ≡ default_pe_name)
    × (pe.slots ≡ legacy_pe_slots)
    × (c.object ≡ default_pe_name)
    × (c.attr ≡ codes "slots")
    × (c.old ≡ itoa legacy_pe_slots)
    × (c.new ≡ itoa pe_slots_no_cap)
KindKeeps f add_pe c = find_pe f.pes c.object ≡ none
KindKeeps f add_queue c = find_queue f.queues c.object ≡ none
KindKeeps f add_complex c = find_complex f.complexes c.object ≡ none
KindKeeps f add_to_pe_list c = Unit
KindKeeps f refused c = Unit
KindKeeps f unchanged c = Unit
KindKeeps f _ c = ⊥

unfoldable pub KeepsSite : Facts → Change → Type 0
unfolding KindKeeps
KeepsSite f c = KindKeeps f c.kind c

find_pe-In : (pes : List Pe) (name : Bytes) (pe : Pe) → find_pe pes name ≡ some pe → In pe pes
unfolding find_pe
find_pe-In [] name pe h = cc
find_pe-In (p ∷ pes) name pe h = elim (Bool-cases (bytes_eq p.name name)) [
  | inl e ↦ inl (sym (some_inj (rw e at h)))
  | inr e ↦ inr (find_pe-In pes name pe (rw e at h))
]

find_queue-In : (qs : List Queue) (name : Bytes) (q : Queue) → find_queue qs name ≡ some q → In q qs
unfolding find_queue
find_queue-In [] name q h = cc
find_queue-In (p ∷ qs) name q h = elim (Bool-cases (bytes_eq p.name name)) [
  | inl e ↦ inl (sym (some_inj (rw e at h)))
  | inr e ↦ inr (find_queue-In qs name q (rw e at h))
]

int_eq→eq : (a b : ℤ) → int_eq a b ≡ true → a ≡ b
unfolding int_eq
int_eq→eq (pos a) (pos b) h = ap pos (==→eq a b h)
int_eq→eq (pos a) (negsuc b) h = cc
int_eq→eq (negsuc a) (pos b) h = cc
int_eq→eq (negsuc a) (negsuc b) h = ap negsuc (==→eq a b h)

-- The changes and the targets of selectQueues.
KeepsAll : Facts → List Change × List Queue → Type 0
KeepsAll f (changes, targets) = All (KeepsSite f) changes × All (IsTarget f) targets

new_queue_keeps :
    (f : Facts) (before : List Change)
    → find_queue f.queues default_queue_name ≡ none
    → All (KeepsSite f) before
    → KeepsAll f (new_queue f before)
unfolding new_queue KeepsSite change KeepsAll
new_queue_keeps f before absent h =
    (All-++ (KeepsSite f) before _ h (absent, tt), (inr (refl, absent, refl), tt))

new_complex_keeps :
    (f : Facts) (c : Option Complex)
    → find_complex f.complexes shim_complex ≡ c
    → find_queue f.queues default_queue_name ≡ none
    → KeepsAll f (new_complex f c)
unfolding new_complex
new_complex_keeps f none e absent =
    new_queue_keeps f (change add_complex shim_complex [] [] [] ∷ []) absent
      (unfold KeepsSite change in (e, tt))
new_complex_keeps f (some c) h absent =
    elim (Bool-cases
      (not (equal_fold c.type (codes "BOOL")) || not (equal_fold c.requestable (codes "FORCED")))) [
        | inl e ↦ rw e (unfold KeepsSite KeepsAll change in ((tt, tt), tt))
        | inr e ↦ rw e (new_queue_keeps f [] absent tt)
      ]

default_queue_keeps :
    (f : Facts) (o : Options) (q : Option Queue)
    → find_queue f.queues default_queue_name ≡ q
    → KeepsAll f (default_queue f o q)
unfolding default_queue KeepsSite change KeepsAll
default_queue_keeps f o (some q) h =
    elim (Bool-cases (bytes_eq o.created_queue default_queue_name)) [
      | inl e ↦ rw e (tt, (inl (find_queue-In f.queues default_queue_name q h), tt))
      | inr e ↦ rw e ((tt, tt), tt)
    ]
default_queue_keeps f o none h = new_complex_keeps f (find_complex f.complexes shim_complex) refl h

All-targets :
    (f : Facts) (qs : List Queue) → All (λ (q : Queue). In q f.queues) qs → All (IsTarget f) qs
All-targets f [] h = tt
All-targets f (q ∷ qs) (here, h) = (inl here, All-targets f qs h)

wired_queues-targets :
    (f : Facts) (starter : Bytes) (qs : List Queue)
    → All (IsTarget f) qs
    → All (IsTarget f) (wired_queues qs starter)
unfolding wired_queues
wired_queues-targets f starter [] h = tt
wired_queues-targets f starter (q ∷ qs) (here, h) =
    elim (Bool-cases (bytes_eq q.starter_method starter)) [
      | inl e ↦ rw e (here, wired_queues-targets f starter qs h)
      | inr e ↦ rw e (wired_queues-targets f starter qs h)
    ]

all_targets : (f : Facts) → All (IsTarget f) f.queues
all_targets f = All-targets f f.queues (All-In _ f.queues (λ q h. h))

unnamed_queues_keeps :
    (f : Facts) (o : Options) (qs : List Queue)
    → All (IsTarget f) qs
    → KeepsAll f (unnamed_queues f o qs)
unfolding unnamed_queues
unnamed_queues_keeps f o [] h =
    default_queue_keeps f o (find_queue f.queues default_queue_name) refl
unnamed_queues_keeps f o (q ∷ qs) h = unfold KeepsAll in (tt, h)

add_target_keeps :
    (f : Facts) (name : Bytes) (q : Option Queue) (rest : List Change × List Queue)
    → find_queue f.queues name ≡ q
    → KeepsAll f rest
    → KeepsAll f (add_target name q rest)
unfolding add_target KeepsSite change KeepsAll
add_target_keeps f name none rest e (h, t) = ((tt, h), t)
add_target_keeps f name (some q) rest e (h, t) = (h, (inl (find_queue-In f.queues name q e), t))

named_queues_keeps : (f : Facts) (names : List Bytes) → KeepsAll f (named_queues f names)
unfolding named_queues
named_queues_keeps f [] = unfold KeepsAll in (tt, tt)
named_queues_keeps f (name ∷ names) =
    add_target_keeps f name (find_queue f.queues name) (named_queues f names) refl
      (named_queues_keeps f names)

by_names_keep :
    (f : Facts) (o : Options) (starter : Bytes) (names : List Bytes)
    → KeepsAll f (by_names f o starter names)
unfolding by_names
by_names_keep f o starter [] =
    unnamed_queues_keeps f o (wired_queues f.queues starter)
      (wired_queues-targets f starter f.queues (all_targets f))
by_names_keep f o starter (name ∷ names) = named_queues_keeps f (name ∷ names)

select_queues_keeps :
    (f : Facts) (o : Options) (starter : Bytes) → KeepsAll f (select_queues f o starter)
unfolding select_queues KeepsSite change KeepsAll
select_queues_keeps f o starter = elim (Bool-cases (is_all o.queues)) [
  | inl e ↦ rw e (tt, all_targets f)
  | inr e ↦ elim (Bool-cases (contains o.queues all_queues)) [
    | inl e' ↦ rw (e, e') ((tt, tt), tt)
    | inr e' ↦ rw (e, e') (by_names_keep f o starter o.queues)
  ]
]

fix_changes_keep :
    (f : Facts) (object : Bytes) (fixes : List Fix)
    → All (KeepsSite f) (fix_changes object false fixes)
unfolding fix_changes KeepsSite change
fix_changes_keep f object [] = tt
fix_changes_keep f object ((attr, old, new) ∷ fixes) = (tt, fix_changes_keep f object fixes)

raise_of_keeps : (f : Facts) (have : Pe) → In have f.pes → All (KeepsSite f) (raise_of have)
unfolding raise_of KeepsSite change
raise_of_keeps f have here = elim (Bool-cases (bytes_eq have.name default_pe_name)) [
  | inl e ↦ elim (Bool-cases (int_eq have.slots legacy_pe_slots)) [
    | inl e' ↦
        let own = bytes_eq→eq have.name default_pe_name e in
        rw (e, e')
          ((have, here, own, int_eq→eq have.slots legacy_pe_slots e', own, refl, refl, refl), tt)
    | inr e' ↦ rw (e, e') tt
  ]
  | inr e ↦ rw e tt
]

repair_of_keeps :
    (f : Facts) (have : Pe) (raise : List Change) (fixes : List Fix)
    → All (KeepsSite f) raise
    → All (KeepsSite f) (repair_of have false raise fixes)
unfolding repair_of
repair_of_keeps f have [] [] h = unfold KeepsSite change in (tt, tt)
repair_of_keeps f have (c ∷ raise) [] h = h
repair_of_keeps f have [] (x ∷ fixes) h = fix_changes_keep f have.name (x ∷ fixes)
repair_of_keeps f have (c ∷ raise) (x ∷ fixes) h =
    All-++ (KeepsSite f) (c ∷ raise) _ h (fix_changes_keep f have.name (x ∷ fixes))

pe_changes_keep :
    (f : Facts) (o : Options) (want : Pe) (have : Option Pe)
    → find_pe f.pes o.pe_name ≡ have
    → o.force ≡ false
    → All (KeepsSite f) (pe_changes o want have)
unfolding pe_changes plan_pe_repair
pe_changes_keep f o want none e h = unfold KeepsSite in (e, tt)
pe_changes_keep f o want (some have) e h = rw h (
    repair_of_keeps f have (raise_of have) (fixes_of have want)
      (raise_of_keeps f have (find_pe-In f.pes o.pe_name have e)))

pe_list_change_keeps : (f : Facts) (o : Options) (q : Queue) → KeepsSite f (pe_list_change o q)
unfolding pe_list_change KeepsSite change
pe_list_change_keeps f o q = elim (Bool-cases (contains q.pe_list o.pe_name)) [
  | inl e ↦ rw e tt
  | inr e ↦ rw e tt
]

starter_change_keeps :
    (f : Facts) (o : Options) (starter : Bytes) (q : Queue)
    → IsTarget f q
    → o.force ≡ false
    → KeepsSite f (starter_change o starter q)
unfolding starter_change KeepsSite change
starter_change_keeps f o starter q target h =
    elim (Bool-cases (bytes_eq q.starter_method starter)) [
      | inl e ↦ rw e tt
      | inr e ↦ elim (Bool-cases (bytes_eq q.starter_method [])) [
        | inl e' ↦ rw (e, e') (q, target, refl, bytes_eq→eq q.starter_method [] e')
        | inr e' ↦ rw (e, e', h) tt
      ]
    ]

wire_queues_keeps :
    (f : Facts) (o : Options) (starter : Bytes) (qs : List Queue) (changes : List Change)
    → o.force ≡ false
    → All (IsTarget f) qs
    → All (KeepsSite f) changes
    → All (KeepsSite f) (wire_queues f o starter changes qs).0
unfolding wire_queues
wire_queues_keeps f o starter [] changes h t a = a
wire_queues_keeps f o starter (q ∷ qs) changes h (target, t) a =
    wire_queues_keeps f o starter qs _ h t (
      All-++ (KeepsSite f) changes _ a
        (pe_list_change_keeps f o q, (starter_change_keeps f o starter q target h, tt)))

plan_changes-KeepsSite :
    (f : Facts) (o : Options) → o.force ≡ false → All (KeepsSite f) (plan_changes f o).0
unfolding plan_changes KeepsAll
plan_changes-KeepsSite f o h =
    let (changes_keep, targets) = select_queues_keeps f o (starter_path o.prefix) in
    wire_queues_keeps f o (starter_path o.prefix) (select_queues f o (starter_path o.prefix)).1 _ h
      targets
      (All-++ (KeepsSite f)
        (pe_changes o (reference_pe o.pe_name o.prefix) (find_pe f.pes o.pe_name)) _
        (pe_changes_keep f o (reference_pe o.pe_name o.prefix) (find_pe f.pes o.pe_name) refl h)
        changes_keep)

-- Without --force, whatever the cluster holds, no planned change overwrites a setting of the site. A
-- starter_method is set only on a queue that has none: one of the cluster, or slurm.q where the
-- cluster has no queue of that name. An attribute of a parallel environment is set only on the
-- cluster's slurm-shim with 999 slots, and it is the slots, to no cap. A parallel environment, a
-- queue or a complex is added only where there is none of its name, and nothing is deleted.
pub make_plan-KeepsSite :
    (f : Facts) (o : Options) → o.force ≡ false → All (KeepsSite f) (make_plan f o).changes
unfolding make_plan with_pe_name
make_plan-KeepsSite f o h = plan_changes-KeepsSite f (with_pe_name o) h
