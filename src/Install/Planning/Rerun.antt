-- ===== src/Install/Planning/Rerun.antt =====
-- What a second run of the installation plans (internal/install/plan.go).
use slurm_shim.Common.{
  Bool, true, false, List, [], ◌∷◌, some, ◌≡◌, ◌≢◌, refl, Bool-cases, inl, inr, All, All-++, In,
  ◌⊎◌, ap, ◌∙◌, sym,
}
use slurm_shim.Text.Bytes.{Bytes, bytes_eq, bytes_eq_refl, bytes_eq→eq}
use slurm_shim.Encoders.Rle.{int_eq}
use slurm_shim.Install.Types.{Pe, Queue, Facts, Options, Change, unchanged, find_pe}
use slurm_shim.Install.Apply.{mutating, plan_mutating, refusals, is_refused}
use slurm_shim.Install.Selection.{
  contains, change, wired_queues, unnamed_queues, is_all, by_names, select_queues,
}
use slurm_shim.Install.Planning.{
  default_pe_name, legacy_pe_slots, reference_pe, starter_path, fixes_of, raise_of, repair_of,
  plan_pe_repair, pe_list_change, starter_change, wire_queues, with_pe_name, plan_changes,
  make_plan,
}

abbrev IsUnchanged : Change → Type 0
IsUnchanged c = c.kind ≡ unchanged

-- What an installation leaves in the cluster, for options that name no queue: its reference parallel
-- environment as it creates it, and queues that have its starter, at least one, all of which offer
-- the environment.
pub record IsInstalled (f : Facts) (o : Options) : Type 0 where
  pub found : find_pe f.pes o.pe_name ≡ some (reference_pe o.pe_name o.prefix)
  pub unnamed : o.queues ≡ []
  pub wired : Queue
  pub wired_here : In wired f.queues
  pub starts : wired.starter_method ≡ starter_path o.prefix
  pub offered :
      All
        (λ (q : Queue). (q.starter_method ≢ starter_path o.prefix) ⊎ In o.pe_name q.pe_list)
        f.queues

In-contains : (name : Bytes) (names : List Bytes) → In name names → contains names name ≡ true
unfolding contains
In-contains name [] here = absurd here
In-contains name (x ∷ xs) (inl same) =
    let e : bytes_eq x name ≡ true =
      ap (λ (n : Bytes). bytes_eq n name) (sym same) ∙ bytes_eq_refl name in
    rw e refl
In-contains name (x ∷ xs) (inr there) = elim (Bool-cases (bytes_eq x name)) [
  | inl same ↦ rw same refl
  | inr other ↦ rw other (In-contains name xs there)
]

In-wired_queues :
    (q : Queue) (qs : List Queue) (starter : Bytes)
    → In q qs
    → q.starter_method ≡ starter
    → wired_queues qs starter ≢ []
unfolding wired_queues
In-wired_queues q [] starter here e = absurd here
In-wired_queues q (p ∷ qs) starter here e = elim (Bool-cases (bytes_eq p.starter_method starter)) [
  | inl first ↦ rw first (λ h. cc)
  | inr other ↦ elim here [
    | inl same ↦
        let first : bytes_eq p.starter_method starter ≡ true =
          ap (λ (r : Queue). bytes_eq r.starter_method starter) (sym same)
          ∙ ap (λ (m : Bytes). bytes_eq m starter) e
          ∙ bytes_eq_refl starter in
        cc
    | inr there ↦ rw other (In-wired_queues q qs starter there e)
  ]
]

wired_queues_offer :
    (name starter : Bytes) (qs : List Queue)
    → All (λ (q : Queue). (q.starter_method ≢ starter) ⊎ In name q.pe_list) qs
    → All (λ (q : Queue). contains q.pe_list name ≡ true) (wired_queues qs starter)
unfolding wired_queues
wired_queues_offer name starter [] h = tt
wired_queues_offer name starter (q ∷ qs) (offer, h) =
    elim (Bool-cases (bytes_eq q.starter_method starter)) [
      | inr other ↦ rw other (wired_queues_offer name starter qs h)
      | inl started ↦ rw started (
        elim offer [
          | inl not_ours ↦ absurd (not_ours (bytes_eq→eq q.starter_method starter started))
          | inr here ↦ In-contains name q.pe_list here
        ],
        wired_queues_offer name starter qs h,
      )
    ]

wired_queues_started :
    (qs : List Queue) (starter : Bytes)
    → All (λ (q : Queue). bytes_eq q.starter_method starter ≡ true) (wired_queues qs starter)
unfolding wired_queues
wired_queues_started [] starter = tt
wired_queues_started (q ∷ qs) starter = elim (Bool-cases (bytes_eq q.starter_method starter)) [
  | inl e ↦ rw e (e, wired_queues_started qs starter)
  | inr e ↦ rw e (wired_queues_started qs starter)
]

fixes_of_none :
    (have want : Pe)
    → have.start_proc_args ≡ want.start_proc_args
    → have.control_slaves ≡ true
    → fixes_of have want ≡ []
unfolding fixes_of
fixes_of_none have want s c = rw (s, bytes_eq_refl want.start_proc_args, c) refl

raise_of_none : (have : Pe) → int_eq have.slots legacy_pe_slots ≡ false → raise_of have ≡ []
unfolding raise_of
raise_of_none have h = rw h (elim (Bool-cases (bytes_eq have.name default_pe_name)) [
  | inl e ↦ rw e refl
  | inr e ↦ rw e refl
])

pe-IsUnchanged :
    (have want : Pe) (force : Bool)
    → raise_of have ≡ []
    → fixes_of have want ≡ []
    → All IsUnchanged (plan_pe_repair have want force)
unfolding plan_pe_repair repair_of change
pe-IsUnchanged have want force r x = rw (r, x) (refl, tt)

wire_queues-IsUnchanged :
    (f : Facts) (o : Options) (starter : Bytes) (qs : List Queue) (changes : List Change)
    → All (λ (q : Queue). bytes_eq q.starter_method starter ≡ true) qs
    → All (λ (q : Queue). contains q.pe_list o.pe_name ≡ true) qs
    → All IsUnchanged changes
    → All IsUnchanged (wire_queues f o starter changes qs).0
unfolding wire_queues
wire_queues-IsUnchanged f o starter [] changes s l a = a
wire_queues-IsUnchanged f o starter (q ∷ qs) changes (s, ss) (l, ls) a =
    wire_queues-IsUnchanged f o starter qs _ ss ls (
      All-++ IsUnchanged changes _ a (
        unfold pe_list_change change in rw l refl,
        (unfold starter_change change in rw s refl, tt),
      ))

unnamed_wired :
    (f : Facts) (o : Options) (qs : List Queue) → qs ≢ [] → unnamed_queues f o qs ≡ ([], qs)
unfolding unnamed_queues
unnamed_wired f o [] h = absurd (h refl)
unnamed_wired f o (q ∷ qs) h = refl

select_wired :
    (f : Facts) (o : Options) (starter : Bytes)
    → o.queues ≡ []
    → wired_queues f.queues starter ≢ []
    → select_queues f o starter ≡ ([], wired_queues f.queues starter)
unfolding select_queues is_all contains by_names
select_wired f o starter e h = rw e (unnamed_wired f o (wired_queues f.queues starter) h)

IsUnchanged-idle :
    (cs : List Change) → All IsUnchanged cs → (plan_mutating cs ≡ false) × (refusals cs ≡ [])
unfolding plan_mutating refusals mutating is_refused
IsUnchanged-idle [] h = (refl, refl)
IsUnchanged-idle (c ∷ cs) (h, hs) = rw h (IsUnchanged-idle cs hs)

-- The reference needs no repair of itself.
reference_pe-raise : (name prefix : Bytes) → raise_of (reference_pe name prefix) ≡ []
unfolding reference_pe
reference_pe-raise name prefix = raise_of_none (reference_pe name prefix) (unfold int_eq in refl)

reference_pe-fixes :
    (name prefix : Bytes) → fixes_of (reference_pe name prefix) (reference_pe name prefix) ≡ []
unfolding reference_pe
reference_pe-fixes name prefix =
    fixes_of_none (reference_pe name prefix) (reference_pe name prefix) refl refl

plan_changes_idle :
    (f : Facts) (o : Options) → IsInstalled f o → All IsUnchanged (plan_changes f o).0
unfolding plan_changes
plan_changes_idle f o i =
    let reference : Pe = reference_pe o.pe_name o.prefix in
    let some_wired =
      In-wired_queues i.wired f.queues (starter_path o.prefix) i.wired_here i.starts in
    rw (i.found, select_wired f o (starter_path o.prefix) i.unnamed some_wired)
      (wire_queues-IsUnchanged f o (starter_path o.prefix)
        (wired_queues f.queues (starter_path o.prefix)) _
        (wired_queues_started f.queues (starter_path o.prefix))
        (wired_queues_offer o.pe_name (starter_path o.prefix) f.queues i.offered)
        (All-++ IsUnchanged (plan_pe_repair reference reference o.force) []
          (pe-IsUnchanged reference reference o.force (reference_pe-raise o.pe_name o.prefix)
            (reference_pe-fixes o.pe_name o.prefix))
          tt))

-- Running the installation again is idempotent: where the cluster has the parallel environment that
-- an installation creates, and queues with its starter, at least one and all with that environment on
-- offer, the plan for options that name no queue holds no change that would alter the cluster, and
-- it refuses nothing, with or without --force.
pub make_plan_rerun :
    (f : Facts) (o : Options)
    → IsInstalled f (with_pe_name o)
    → (plan_mutating (make_plan f o).changes ≡ false) × (refusals (make_plan f o).changes ≡ [])
unfolding make_plan with_pe_name
make_plan_rerun f o i =
    IsUnchanged-idle (plan_changes f (with_pe_name o)).0 (plan_changes_idle f (with_pe_name o) i)
