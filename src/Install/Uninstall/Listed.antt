-- ===== src/Install/Uninstall/Listed.antt =====
-- Which environments of a cluster the lists of internal/install/uninstall.go hold.
use slurm_shim.Common.{List, [], ◌∷◌, Option, ◌≡◌, sym, ap, ◌∙◌, subst, In, inl, inr}
use slurm_shim.Text.Bytes.{Bytes, codes}
use slurm_shim.Install.Types.{Pe, Change, delete_pe, refused}
use slurm_shim.Install.Selection.{change}
use slurm_shim.Install.State.{State}
use slurm_shim.Install.Ownership.{
  UninstallOptions, PeClass, foreign, repaired, of_shim, unknown, classify, keep_of_shim,
  keep_repaired, refuse_unknown, our_pes, restored_pes, unknown_pes,
}
use slurm_shim.Install.Uninstall.{delete_pes}

abbrev pub start_args : Bytes
start_args = codes "start_proc_args"

module _ (st : Option State) (o : UninstallOptions) where
  pub our_pes-In :
      (pe : Pe) (pes : List Pe)
      → In pe pes
      → classify st o pe ≡ of_shim
      → In pe.name (our_pes st o pes)
  unfolding our_pes
  our_pes-In pe [] here e = absurd here
  our_pes-In pe (p ∷ pes) (inl same) e =
      subst (λ (k : PeClass). In pe.name (keep_of_shim k p.name (our_pes st o pes)))
        (sym e ∙ ap (classify st o) same) (inl (ap (λ (q : Pe). q.name) same))
  our_pes-In pe (p ∷ pes) (inr there) e =
      kept (classify st o p) (our_pes st o pes) (our_pes-In pe pes there e)
    where
      kept :
          (k : PeClass) (rest : List Bytes)
          → In pe.name rest
          → In pe.name (keep_of_shim k p.name rest)
      kept of_shim rest h = inr h
      kept foreign rest h = h
      kept repaired rest h = h
      kept unknown rest h = h

  pub restored_pes-In :
      (pe : Pe) (pes : List Pe)
      → In pe pes
      → classify st o pe ≡ repaired
      → In pe.name (restored_pes st o pes)
  unfolding restored_pes
  restored_pes-In pe [] here e = absurd here
  restored_pes-In pe (p ∷ pes) (inl same) e =
      subst (λ (k : PeClass). In pe.name (keep_repaired k p.name (restored_pes st o pes)))
        (sym e ∙ ap (classify st o) same) (inl (ap (λ (q : Pe). q.name) same))
  restored_pes-In pe (p ∷ pes) (inr there) e =
      kept (classify st o p) (restored_pes st o pes) (restored_pes-In pe pes there e)
    where
      kept :
          (k : PeClass) (rest : List Bytes)
          → In pe.name rest
          → In pe.name (keep_repaired k p.name rest)
      kept repaired rest h = inr h
      kept foreign rest h = h
      kept of_shim rest h = h
      kept unknown rest h = h

  pub unknown_pes-In :
      (pe : Pe) (pes : List Pe)
      → In pe pes
      → classify st o pe ≡ unknown
      → In (change refused pe.name start_args pe.start_proc_args []) (unknown_pes st o pes)
  unfolding unknown_pes
  unknown_pes-In pe [] here e = absurd here
  unknown_pes-In pe (p ∷ pes) (inl same) e =
      subst
        (λ (k : PeClass).
          In (change refused pe.name start_args pe.start_proc_args [])
            (refuse_unknown k p (unknown_pes st o pes)))
        (sym e ∙ ap (classify st o) same)
        (inl (ap (λ (q : Pe). change refused q.name start_args q.start_proc_args []) same))
  unknown_pes-In pe (p ∷ pes) (inr there) e =
      kept (classify st o p) (unknown_pes st o pes) (unknown_pes-In pe pes there e)
    where
      kept :
          (k : PeClass) (rest : List Change)
          → In (change refused pe.name start_args pe.start_proc_args []) rest
          → In (change refused pe.name start_args pe.start_proc_args []) (refuse_unknown k p rest)
      kept unknown rest h = inr h
      kept foreign rest h = h
      kept of_shim rest h = h
      kept repaired rest h = h

  pub delete_pes-In :
      (name : Bytes) (names : List Bytes)
      → In name names
      → In (change delete_pe name [] [] []) (delete_pes names)
  unfolding delete_pes
  delete_pes-In name [] h = absurd h
  delete_pes-In name (n ∷ names) (inl same) = inl (ap (λ k. change delete_pe k [] [] []) same)
  delete_pes-In name (n ∷ names) (inr h) = inr (delete_pes-In name names h)
