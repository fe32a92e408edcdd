-- ===== src/Install/Uninstall/Safety.antt =====
-- What the plan of internal/install/uninstall.go may change: the shim's own objects, and objects that
-- point into the tree.
use slurm_shim.Common.{
  ◌&&◌, List, [], ◌∷◌, Option, none, some, ◌≡◌, refl, ap, ◌∙◌, subst, All, All-++, In, All-In,
  Bool-cases, inl, inr, and-true,
}
use slurm_shim.Text.Bytes.{Bytes, codes, bytes_eq, bytes_eq→eq}
use slurm_shim.Install.Types.{
  Pe, Queue, Complex, Facts, Change, set_starter, delete_queue, find_queue, find_complex,
}
use slurm_shim.Install.Paths.{equal_fold}
use slurm_shim.Install.Selection.{default_queue_name, shim_complex, contains, change}
use slurm_shim.Install.State.{State, Replaced, contains_add}
use slurm_shim.Install.Ownership.{
  UninstallOptions, runs_as_other_user, replaced_attrs, records, pe_object, PeClass, foreign,
  repaired, of_shim, unknown, classify, refuse_unknown, our_pes, restored_pes, unknown_pes,
}
use slurm_shim.Install.Uninstall.{
  created_by_shim, created_if, created_queue, override_fields, remove_ours, remove_added, adds,
  refuse_offers, refuse_pe_overrides, refuse_starters, host_value, override_in_tree,
  recorded_starter, unwire, queue_changes, queues_changes, delete_created, delete_pes, forced_only,
  delete_shim_complex, restore_attrs, restore_pes, plan_uninstall,
}
use slurm_shim.Install.Uninstall.Targets.{
  PointsIn, IsRecorded, MayUndo, refusal, own_pe, pe_attr, offer, starter, own_queue, own_complex,
  our_pes-PointsIn, restored_pes-PointsIn, replaced_attrs-IsRecorded,
}

module _ (f : Facts) (st : Option State) (o : UninstallOptions) where
  unknown_pes-MayUndo : (pes : List Pe) → All (MayUndo f st o) (unknown_pes st o pes)
  unfolding unknown_pes
  unknown_pes-MayUndo [] = tt
  unknown_pes-MayUndo (pe ∷ pes) =
      kept (classify st o pe) (unknown_pes st o pes) (unknown_pes-MayUndo pes)
    where
      kept :
          (k : PeClass) (rest : List Change)
          → All (MayUndo f st o) rest
          → All (MayUndo f st o) (refuse_unknown k pe rest)
      kept unknown rest hs = (refusal pe.name (codes "start_proc_args") pe.start_proc_args [], hs)
      kept foreign rest hs = hs
      kept of_shim rest hs = hs
      kept repaired rest hs = hs

  remove_ours-MayUndo :
      (q : Queue) (pes : List Bytes)
      → In q f.queues
      → All (PointsIn f o) pes
      → All (MayUndo f st o) (remove_ours q pes)
  unfolding remove_ours
  remove_ours-MayUndo q [] here h = tt
  remove_ours-MayUndo q (pe ∷ pes) here (hp, h) = elim (Bool-cases (contains q.pe_list pe)) [
    | inl offered ↦ rw offered (offer pe q here offered hp, remove_ours-MayUndo q pes here h)
    | inr missing ↦ rw missing (remove_ours-MayUndo q pes here h)
  ]

  remove_added-MayUndo :
      (q : Queue) (pes : List Bytes)
      → In q f.queues
      → All (PointsIn f o) pes
      → All (MayUndo f st o) (remove_added st q pes)
  unfolding remove_added
  remove_added-MayUndo q [] here h = tt
  remove_added-MayUndo q (pe ∷ pes) here (hp, h) =
      elim (Bool-cases (contains q.pe_list pe && contains_add (adds st) q.name pe)) [
        | inl added ↦ rw added (
          offer pe q here
              (and-true (contains q.pe_list pe) (contains_add (adds st) q.name pe) added).0 hp,
          remove_added-MayUndo q pes here h,
        )
        | inr other ↦ rw other (remove_added-MayUndo q pes here h)
      ]

  refuse_offers-MayUndo :
      (q : Queue) (ov : Bytes) (pes : List Bytes) → All (MayUndo f st o) (refuse_offers q ov pes)
  unfolding refuse_offers
  refuse_offers-MayUndo q ov [] = tt
  refuse_offers-MayUndo q ov (pe ∷ pes) = elim (Bool-cases (contains (override_fields ov) pe)) [
    | inl offered ↦
        rw offered (refusal q.name (codes "pe_list") ov [], refuse_offers-MayUndo q ov pes)
    | inr other ↦ rw other (refuse_offers-MayUndo q ov pes)
  ]

  refuse_pe_overrides-MayUndo :
      (q : Queue) (ours ovs : List Bytes) → All (MayUndo f st o) (refuse_pe_overrides q ours ovs)
  unfolding refuse_pe_overrides
  refuse_pe_overrides-MayUndo q ours [] = tt
  refuse_pe_overrides-MayUndo q ours (ov ∷ ovs) =
      All-++ (MayUndo f st o) (refuse_offers q ov ours) (refuse_pe_overrides q ours ovs)
        (refuse_offers-MayUndo q ov ours) (refuse_pe_overrides-MayUndo q ours ovs)

  refuse_starters-MayUndo :
      (q : Queue) (ovs : List Bytes) → All (MayUndo f st o) (refuse_starters o q ovs)
  unfolding refuse_starters
  refuse_starters-MayUndo q [] = tt
  refuse_starters-MayUndo q (ov ∷ ovs) = elim (Bool-cases (override_in_tree o (host_value ov))) [
    | inl inside ↦
        rw inside (refusal q.name (codes "starter_method") ov [], refuse_starters-MayUndo q ovs)
    | inr other ↦ rw other (refuse_starters-MayUndo q ovs)
  ]

  unwire-MayUndo :
      (q : Queue) (m : Bytes)
      → q.starter_method ≡ m
      → In q f.queues
      → All (MayUndo f st o) (unwire st o q m)
  unfolding unwire
  unwire-MayUndo q [] e here = tt
  unwire-MayUndo q (c ∷ m) e here = elim (Bool-cases (o.in_tree (c ∷ m))) [
    | inl inside ↦ rw inside (
      subst
          (λ v.
            MayUndo f st o
              (change set_starter q.name (codes "starter_method") v (recorded_starter st q.name)))
          e (starter q here (ap o.in_tree e ∙ inside)),
      tt,
    )
    | inr other ↦ rw other tt
  ]

  queue_changes-MayUndo :
      (q : Queue) (ours restored : List Bytes)
      → In q f.queues
      → All (PointsIn f o) ours
      → All (PointsIn f o) restored
      → All (MayUndo f st o) (queue_changes st o ours restored q)
  unfolding queue_changes
  queue_changes-MayUndo q ours restored here hs hr =
      All-++ (MayUndo f st o) _ _ (remove_ours-MayUndo q ours here hs) (
        All-++ (MayUndo f st o) _ _ (remove_added-MayUndo q restored here hr) (
          All-++ (MayUndo f st o) _ _ (refuse_pe_overrides-MayUndo q ours q.pe_list_overrides) (
            All-++ (MayUndo f st o) _ _ (refuse_starters-MayUndo q q.starter_overrides)
              (unwire-MayUndo q q.starter_method refl here))))

  queues_changes-MayUndo :
      (ours restored : List Bytes) (created : Bytes) (qs : List Queue)
      → All (λ (q : Queue). In q f.queues) qs
      → All (PointsIn f o) ours
      → All (PointsIn f o) restored
      → All (MayUndo f st o) (queues_changes st o ours restored created qs)
  unfolding queues_changes
  queues_changes-MayUndo ours restored created [] h hs hr = tt
  queues_changes-MayUndo ours restored created (q ∷ qs) (here, h) hs hr =
      elim (Bool-cases (bytes_eq q.name created)) [
        | inl deleted ↦ rw deleted (queues_changes-MayUndo ours restored created qs h hs hr)
        | inr kept ↦ rw kept (
            All-++ (MayUndo f st o) (queue_changes st o ours restored q)
              (queues_changes st o ours restored created qs)
              (queue_changes-MayUndo q ours restored here hs hr)
              (queues_changes-MayUndo ours restored created qs h hs hr))
      ]

  delete_pes-MayUndo :
      (ours : List Bytes) → All (PointsIn f o) ours → All (MayUndo f st o) (delete_pes ours)
  unfolding delete_pes
  delete_pes-MayUndo [] h = tt
  delete_pes-MayUndo (pe ∷ ours) (hp, h) = (own_pe pe hp, delete_pes-MayUndo ours h)

  delete_if :
      (s : State) (q : Option Queue)
      → st ≡ some s
      → s.created_queue ≡ default_queue_name
      → find_queue f.queues default_queue_name ≡ q
      → All (MayUndo f st o) (delete_created (created_if o (our_pes st o f.pes) q))
  unfolding delete_created created_if
  delete_if s none e named found = tt
  delete_if s (some q) e named found =
      elim (Bool-cases (created_by_shim o (our_pes st o f.pes) q)) [
        | inl own ↦ rw own (delete_named q.name (own_queue s q e named found own))
        | inr other ↦ rw other tt
      ]
    where
      delete_named :
          (name : Bytes)
          → MayUndo f st o (change delete_queue name [] [] [])
          → All (MayUndo f st o) (delete_created name)
      delete_named [] h = tt
      delete_named (c ∷ name) h = (h, tt)

  delete_created-MayUndo :
      (s : Option State)
      → st ≡ s
      → All (MayUndo f st o) (delete_created (created_queue f s o (our_pes st o f.pes)))
  unfolding delete_created created_queue
  delete_created-MayUndo none e = tt
  delete_created-MayUndo (some s) e =
      elim (Bool-cases (bytes_eq s.created_queue default_queue_name)) [
        | inl named ↦ rw named (
            delete_if s (find_queue f.queues default_queue_name) e
              (bytes_eq→eq s.created_queue default_queue_name named) refl)
        | inr other ↦ rw other tt
      ]

  delete_complex-MayUndo :
      (s : Option State) → st ≡ s → All (MayUndo f st o) (delete_shim_complex f s)
  unfolding delete_shim_complex forced_only
  delete_complex-MayUndo none e = tt
  delete_complex-MayUndo (some s) e = elim (Bool-cases (bytes_eq s.created_complex shim_complex)) [
    | inl named ↦ rw named (
        if_forced (find_complex f.complexes shim_complex) s e
          (bytes_eq→eq s.created_complex shim_complex named))
    | inr other ↦ rw other tt
  ]
    where
      if_forced :
          (c : Option Complex) (s : State)
          → st ≡ some s
          → s.created_complex ≡ shim_complex
          → All (MayUndo f st o) (forced_only c)
      if_forced none s e named = tt
      if_forced (some c) s e named = elim (Bool-cases (equal_fold c.requestable (codes "FORCED"))) [
        | inl forced ↦ rw forced (own_complex s e named, tt)
        | inr other ↦ rw other tt
      ]

  restore_attrs-MayUndo :
      (pe : Bytes) (rs : List Replaced)
      → PointsIn f o pe
      → All (λ (r : Replaced). IsRecorded st (pe_object pe) r.attr r.old) rs
      → All (MayUndo f st o) (restore_attrs pe rs)
  unfolding restore_attrs
  restore_attrs-MayUndo pe [] hp h = tt
  restore_attrs-MayUndo pe (r ∷ rs) hp (hr, h) = elim (Bool-cases (runs_as_other_user r.old)) [
    | inl other ↦ rw other (refusal pe r.attr [] r.old, restore_attrs-MayUndo pe rs hp h)
    | inr same ↦ rw same (pe_attr pe r.attr r.old hp hr same, restore_attrs-MayUndo pe rs hp h)
  ]

  restore_pes-MayUndo :
      (pes : List Bytes) → All (PointsIn f o) pes → All (MayUndo f st o) (restore_pes st pes)
  unfolding restore_pes
  restore_pes-MayUndo [] h = tt
  restore_pes-MayUndo (pe ∷ pes) (hp, h) =
      All-++ (MayUndo f st o) (restore_attrs pe (replaced_attrs (records st) (pe_object pe)))
        (restore_pes st pes)
        (restore_attrs-MayUndo pe (replaced_attrs (records st) (pe_object pe)) hp (
          replaced_attrs-IsRecorded f st o (records st) (pe_object pe)
            (All-In _ (records st) (λ r h. h))))
        (restore_pes-MayUndo pes h)

  -- Whatever the cluster, the record and the options are, each change of the plan is a refusal or
  -- undoes the shim: a parallel environment is deleted, or set back to a recorded value that does
  -- not run as another user, only where it points into the tree; a queue loses only the offer of
  -- such an environment, or a starter in the tree for the recorded one; the queue and the complex
  -- that are deleted are those of the record, and that queue still looks like the shim's.
  pub plan_uninstall-MayUndo : All (MayUndo f st o) (plan_uninstall f st o)
  unfolding plan_uninstall
  plan_uninstall-MayUndo =
      let ours = our_pes-PointsIn f st o f.pes (All-In _ f.pes (λ pe h. h)) in
      let restored = restored_pes-PointsIn f st o f.pes (All-In _ f.pes (λ pe h. h)) in
      All-++ (MayUndo f st o) _ _ (unknown_pes-MayUndo f.pes) (
        All-++ (MayUndo f st o) _ _
          (queues_changes-MayUndo (our_pes st o f.pes) (restored_pes st o f.pes)
            (created_queue f st o (our_pes st o f.pes)) f.queues (All-In _ f.queues (λ q h. h)) ours
            restored)
          (All-++ (MayUndo f st o) _ _ (delete_created-MayUndo st refl) (
            All-++ (MayUndo f st o) _ _ (delete_pes-MayUndo (our_pes st o f.pes) ours) (
              All-++ (MayUndo f st o) _ _ (delete_complex-MayUndo st refl)
                (restore_pes-MayUndo (restored_pes st o f.pes) restored)))))
