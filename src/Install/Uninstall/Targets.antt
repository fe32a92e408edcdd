-- ===== src/Install/Uninstall/Targets.antt =====
-- What an uninstallation may undo: which environments and which recorded values of
-- internal/install/uninstall.go count as the shim's, and the changes that these allow.
use slurm_shim.Common.{
  true, false, List, [], ◌∷◌, Option, some, ◌≡◌, ◌≢◌, refl, All, In, Bool-cases, inl, inr,
}
use slurm_shim.Text.Bytes.{Bytes, codes, bytes_eq, bytes_eq→eq}
use slurm_shim.Install.Types.{
  Pe, Queue, Facts, Change, set_starter, set_pe_attr, remove_from_pe_list, delete_queue, delete_pe,
  delete_complex, refused, find_queue,
}
use slurm_shim.Install.Selection.{default_queue_name, shim_complex, contains, change}
use slurm_shim.Install.State.{State, Replaced}
use slurm_shim.Install.Ownership.{
  UninstallOptions, runs_as_other_user, replaced_attrs, records, pe_object, PeClass, foreign,
  repaired, of_shim, unknown, classify, keep_of_shim, keep_repaired, our_pes, restored_pes,
}
use slurm_shim.Install.Uninstall.{created_by_shim, recorded_starter}

-- A parallel environment of the cluster that points into the tree.
abbrev pub PointsIn : Facts → UninstallOptions → Bytes → Type 0
PointsIn f o name =
    (pe : Pe) × In pe f.pes × (name ≡ pe.name) × (o.in_tree pe.start_proc_args ≡ true)

-- A recorded old value of an attribute.
abbrev pub IsRecorded : Option State → Bytes → Bytes → Bytes → Type 0
IsRecorded st object attr old =
    (r : Replaced) × In r (records st) × (r.object ≡ object) × (r.attr ≡ attr) × (r.old ≡ old)

-- The changes that an uninstallation may plan.
pub data MayUndo (f : Facts) (st : Option State) (o : UninstallOptions) : Change → Type 0 where
  refusal : (object attr old new : Bytes) → MayUndo f st o (change refused object attr old new)
  own_pe : (name : Bytes) → PointsIn f o name → MayUndo f st o (change delete_pe name [] [] [])
  pe_attr :
      (name attr old : Bytes)
      → PointsIn f o name
      → IsRecorded st (pe_object name) attr old
      → runs_as_other_user old ≡ false
      → MayUndo f st o (change set_pe_attr name attr [] old)
  offer :
      (name : Bytes) (q : Queue)
      → In q f.queues
      → contains q.pe_list name ≡ true
      → PointsIn f o name
      → MayUndo f st o (change remove_from_pe_list q.name (codes "pe_list") name [])
  starter :
      (q : Queue)
      → In q f.queues
      → o.in_tree q.starter_method ≡ true
      → MayUndo f st o (
          change set_starter q.name
            (codes "starter_method")
            q.starter_method
            (recorded_starter st q.name))
  own_queue :
      (s : State) (q : Queue)
      → st ≡ some s
      → s.created_queue ≡ default_queue_name
      → find_queue f.queues default_queue_name ≡ some q
      → created_by_shim o (our_pes st o f.pes) q ≡ true
      → MayUndo f st o (change delete_queue q.name [] [] [])
  own_complex :
      (s : State)
      → st ≡ some s
      → s.created_complex ≡ shim_complex
      → MayUndo f st o (change delete_complex shim_complex [] [] [])

classify-in_tree :
    (st : Option State) (o : UninstallOptions) (pe : Pe)
    → classify st o pe ≢ foreign
    → o.in_tree pe.start_proc_args ≡ true
unfolding classify
classify-in_tree st o pe = elim (Bool-cases (o.in_tree pe.start_proc_args)) [
  | inl inside ↦ λ h. inside
  | inr outside ↦ rw outside (λ h. absurd (h refl))
]

module _ (f : Facts) (st : Option State) (o : UninstallOptions) where
  pub our_pes-PointsIn :
      (pes : List Pe) → All (λ (pe : Pe). In pe f.pes) pes → All (PointsIn f o) (our_pes st o pes)
  unfolding our_pes
  our_pes-PointsIn [] h = tt
  our_pes-PointsIn (pe ∷ pes) (here, h) =
      kept (classify st o pe) refl (our_pes st o pes) (our_pes-PointsIn pes h)
    where
      kept :
          (k : PeClass)
          → classify st o pe ≡ k
          → (rest : List Bytes) → All (PointsIn f o) rest
          → All (PointsIn f o) (keep_of_shim k pe.name rest)
      kept of_shim e rest hs = ((pe, here, refl, classify-in_tree st o pe (λ g. cc)), hs)
      kept foreign e rest hs = hs
      kept repaired e rest hs = hs
      kept unknown e rest hs = hs

  pub restored_pes-PointsIn :
      (pes : List Pe)
      → All (λ (pe : Pe). In pe f.pes) pes
      → All (PointsIn f o) (restored_pes st o pes)
  unfolding restored_pes
  restored_pes-PointsIn [] h = tt
  restored_pes-PointsIn (pe ∷ pes) (here, h) =
      kept (classify st o pe) refl (restored_pes st o pes) (restored_pes-PointsIn pes h)
    where
      kept :
          (k : PeClass)
          → classify st o pe ≡ k
          → (rest : List Bytes) → All (PointsIn f o) rest
          → All (PointsIn f o) (keep_repaired k pe.name rest)
      kept repaired e rest hs = ((pe, here, refl, classify-in_tree st o pe (λ g. cc)), hs)
      kept foreign e rest hs = hs
      kept of_shim e rest hs = hs
      kept unknown e rest hs = hs

  pub replaced_attrs-IsRecorded :
      (rs : List Replaced) (object : Bytes)
      → All (λ (r : Replaced). In r (records st)) rs
      → All (λ (r : Replaced). IsRecorded st object r.attr r.old) (replaced_attrs rs object)
  unfolding replaced_attrs
  replaced_attrs-IsRecorded [] object h = tt
  replaced_attrs-IsRecorded (r ∷ rs) object (here, h) =
      elim (Bool-cases (bytes_eq r.object object)) [
        | inl same ↦ rw same (
          (r, here, bytes_eq→eq r.object object same, refl, refl),
          replaced_attrs-IsRecorded rs object h,
        )
        | inr other ↦ rw other (replaced_attrs-IsRecorded rs object h)
      ]
