-- ===== src/Install/Uninstall/Complete.antt =====
-- What points into the tree is met by the plan of internal/install/uninstall.go.
use slurm_shim.Common.{
  Bool, true, false, List, [], ◌∷◌, ◌++◌, Option, ◌≡◌, sym, ap, ◌∙◌, subst, if◌then◌else◌, In,
  In-left, In-right, Bool-cases, if-false, ◌⊎◌, inl, inr, All, All-In,
}
use slurm_shim.Text.Bytes.{Bytes, codes, bytes_eq, bytes_eq→eq}
use slurm_shim.Install.Types.{
  Pe, Queue, Facts, Change, set_starter, set_pe_attr, delete_queue, delete_pe, refused,
}
use slurm_shim.Install.Selection.{change}
use slurm_shim.Install.State.{State, Replaced}
use slurm_shim.Install.Ownership.{
  UninstallOptions, runs_as_other_user, replaced_attrs, records, pe_object, has_attr, repaired,
  of_shim, unknown, class_of, is_named, classify, our_pes, restored_pes, unknown_pes,
}
use slurm_shim.Install.Uninstall.{
  created_queue, recorded_starter, queues_changes, delete_created, delete_pes, delete_shim_complex,
  restore_attrs, restore_pes, plan_uninstall,
}
use slurm_shim.Install.Uninstall.Targets.{IsRecorded, replaced_attrs-IsRecorded}
use slurm_shim.Install.Uninstall.Listed.{
  our_pes-In, restored_pes-In, unknown_pes-In, delete_pes-In, start_args,
}

-- The environment is deleted, refused, or has its start_proc_args set back to a recorded value, or
-- that value refused.
abbrev pub IsMet : Option State → List Change → Pe → Type 0
IsMet st plan pe =
    In (change delete_pe pe.name [] [] []) plan
    ⊎ (In (change refused pe.name (codes "start_proc_args") pe.start_proc_args []) plan
        ⊎ ((old : Bytes) × IsRecorded st (pe_object pe.name) (codes "start_proc_args") old
            × (In (change set_pe_attr pe.name (codes "start_proc_args") [] old) plan
                ⊎ In (change refused pe.name (codes "start_proc_args") [] old) plan)))

-- The queue gets its old starter back, or is deleted.
abbrev pub IsUnwired : Option State → List Change → Queue → Type 0
IsUnwired st plan q =
    In
      (change set_starter q.name (codes "starter_method") q.starter_method
        (recorded_starter st q.name))
      plan
    ⊎ In (change delete_queue q.name [] [] []) plan

module _ (st : Option State) (o : UninstallOptions) where
  -- The recorded value of an environment comes back, or is refused.
  Restores : Bytes → List Change → Type 0
  Restores name plan =
      (old : Bytes) × IsRecorded st (pe_object name) start_args old
      × (In (change set_pe_attr name start_args [] old) plan
          ⊎ In (change refused name start_args [] old) plan)

  restored_first :
      (b : Bool) (name attr old : Bytes) (rest : List Change)
      → attr ≡ start_args
      → In (change set_pe_attr name start_args [] old) (
          (if b then change refused name attr [] old else change set_pe_attr name attr [] old)
          ∷ rest)
        ⊎ In (change refused name start_args [] old) (
            (if b then change refused name attr [] old else change set_pe_attr name attr [] old)
            ∷ rest)
  restored_first true name attr old rest e =
      inr (inl (ap (λ a. change refused name a [] old) (sym e)))
  restored_first false name attr old rest e =
      inl (inl (ap (λ a. change set_pe_attr name a [] old) (sym e)))

  Restores-mono :
      (name : Bytes) (plan wider : List Change)
      → ((c : Change) → In c plan → In c wider)
      → Restores name plan
      → Restores name wider
  unfolding Restores
  Restores-mono name plan wider f (old, known, inl h) =
      (old, known, inl (f (change set_pe_attr name start_args [] old) h))
  Restores-mono name plan wider f (old, known, inr h) =
      (old, known, inr (f (change refused name start_args [] old) h))

  restore_attrs-In :
      (name : Bytes) (rs : List Replaced)
      → All (λ (r : Replaced). IsRecorded st (pe_object name) r.attr r.old) rs
      → has_attr start_args rs ≡ true
      → Restores name (restore_attrs name rs)
  unfolding restore_attrs has_attr Restores
  restore_attrs-In name [] known h = cc
  restore_attrs-In name (r ∷ rs) (known, all_known) h =
      elim (Bool-cases (bytes_eq r.attr start_args)) [
        | inl same ↦ (
          r.old,
          subst (λ (a : Bytes). IsRecorded st (pe_object name) a r.old)
              (bytes_eq→eq r.attr start_args same) known,
          restored_first (runs_as_other_user r.old) name r.attr r.old (restore_attrs name rs)
              (bytes_eq→eq r.attr start_args same),
        )
        | inr other ↦
            Restores-mono name (restore_attrs name rs) (restore_attrs name (r ∷ rs))
              (λ c there. inr there)
              (restore_attrs-In name rs all_known (
                sym (if-false (bytes_eq r.attr start_args) true (has_attr start_args rs) other)
                ∙ h))
      ]

  no_facts : Facts
  no_facts = record { queues = []; pes = []; complexes = [] }

  replaced_attrs-all :
      (object : Bytes)
      → All
          (λ (r : Replaced). IsRecorded st object r.attr r.old)
          (replaced_attrs (records st) object)
  replaced_attrs-all object =
      replaced_attrs-IsRecorded no_facts st o (records st) object (All-In _ (records st) (λ r h. h))

  restore_pes-In :
      (name : Bytes) (pes : List Bytes)
      → In name pes
      → has_attr start_args (replaced_attrs (records st) (pe_object name)) ≡ true
      → Restores name (restore_pes st pes)
  unfolding restore_pes
  restore_pes-In name [] here h = absurd here
  restore_pes-In name (p ∷ pes) (inl same) h =
      Restores-mono name (restore_attrs name (replaced_attrs (records st) (pe_object name)))
        (restore_attrs p (replaced_attrs (records st) (pe_object p)) ++ restore_pes st pes)
        (λ c there.
          In-left c (restore_attrs p (replaced_attrs (records st) (pe_object p)))
            (restore_pes st pes)
            (subst (λ n. In c (restore_attrs n (replaced_attrs (records st) (pe_object n)))) same
              there))
        (restore_attrs-In name (replaced_attrs (records st) (pe_object name))
          (replaced_attrs-all (pe_object name)) h)
  restore_pes-In name (p ∷ pes) (inr there) h =
      Restores-mono name (restore_pes st pes)
        (restore_attrs p (replaced_attrs (records st) (pe_object p)) ++ restore_pes st pes)
        (λ c in_rest.
          In-right c (restore_attrs p (replaced_attrs (records st) (pe_object p)))
            (restore_pes st pes) in_rest)
        (restore_pes-In name pes there h)

  classify-inside :
      (pe : Pe)
      → o.in_tree pe.start_proc_args ≡ true
      → ((classify st o pe ≡ repaired)
          × (has_attr start_args (replaced_attrs (records st) (pe_object pe.name)) ≡ true))
        ⊎ ((classify st o pe ≡ of_shim) ⊎ (classify st o pe ≡ unknown))
  unfolding classify
  classify-inside pe inside =
      let by_record =
        ap
          (λ b.
            class_of b (has_attr start_args (replaced_attrs (records st) (pe_object pe.name)))
              (is_named st o pe.name))
          inside in
      elim (Bool-cases (has_attr start_args (replaced_attrs (records st) (pe_object pe.name)))) [
        | inl recorded ↦
            inl (by_record ∙ ap (λ b. class_of true b (is_named st o pe.name)) recorded, recorded)
        | inr unrecorded ↦
            let by_name =
              by_record ∙ ap (λ b. class_of true b (is_named st o pe.name)) unrecorded in
            inr (named (is_named st o pe.name) by_name)
      ]
    where
      named :
          (b : Bool)
          → classify st o pe ≡ class_of true false b
          → (classify st o pe ≡ of_shim) ⊎ (classify st o pe ≡ unknown)
      named true e = inl e
      named false e = inr e

  abbrev starter_back : Queue → Change
  starter_back q =
      change set_starter q.name (codes "starter_method") q.starter_method
        (recorded_starter st q.name)

-- An environment that points into the tree is deleted by the plan, or refused by name, or its
-- start_proc_args is set back to a value that the record has for it, or that value is refused.
pub plan_uninstall-IsMet :
    (f : Facts) (st : Option State) (o : UninstallOptions) (pe : Pe)
    → In pe f.pes
    → o.in_tree pe.start_proc_args ≡ true
    → IsMet st (plan_uninstall f st o) pe
unfolding plan_uninstall Restores
plan_uninstall-IsMet f st o pe pe_here pe_inside =
    let ours : List Bytes = our_pes st o f.pes in
    let restored : List Bytes = restored_pes st o f.pes in
    let created : Bytes = created_queue f st o ours in
    let a : List Change = unknown_pes st o f.pes in
    let b : List Change = queues_changes st o ours restored created f.queues in
    let c : List Change = delete_created created in
    let d : List Change = delete_pes ours in
    let e : List Change = delete_shim_complex f st in
    let g : List Change = restore_pes st restored in
    elim (classify-inside st o pe pe_inside)
      as (λ _. IsMet st (a ++ (b ++ (c ++ (d ++ (e ++ g))))) pe) [
        | inl (k, recorded) ↦ inr (
            inr (
              Restores-mono st o pe.name g (a ++ (b ++ (c ++ (d ++ (e ++ g)))))
                (λ x h. In-right x a (b ++ (c ++ (d ++ (e ++ g)))) (
                  In-right x b (c ++ (d ++ (e ++ g)))
                    (In-right x c (d ++ (e ++ g)) (In-right x d (e ++ g) (In-right x e g h)))))
                (restore_pes-In st o pe.name restored (restored_pes-In st o pe f.pes pe_here k)
                  recorded)))
        | inr (inl k) ↦
            let x : Change = change delete_pe pe.name [] [] [] in
            inl (
              In-right x a (b ++ (c ++ (d ++ (e ++ g)))) (
                In-right x b (c ++ (d ++ (e ++ g))) (
                  In-right x c (d ++ (e ++ g)) (
                    In-left x d (e ++ g)
                      (delete_pes-In st o pe.name ours (our_pes-In st o pe f.pes pe_here k))))))
        | inr (inr k) ↦ inr (
            inl (
              In-left (change refused pe.name start_args pe.start_proc_args []) a
                (b ++ (c ++ (d ++ (e ++ g)))) (unknown_pes-In st o pe f.pes pe_here k)))
      ]
