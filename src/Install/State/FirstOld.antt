-- ===== src/Install/State/FirstOld.antt =====
-- Which old values the record of internal/install/state.go keeps.
use slurm_shim.Common.{
  ℕ, Bool, true, false, ◌&&◌, List, [], ◌∷◌, ◌++◌, Option, none, some, ◌≡◌, refl, sym, ap, ◌∙◌,
  if◌then◌else◌, Bool-cases, and-true, Option-cases, inl, inr,
}
use slurm_shim.Text.Bytes.{Bytes, codes, bytes_eq, bytes_eq→eq}
use slurm_shim.Install.Types.{ChangeKind, Change}
use slurm_shim.Install.Apply.{Outcome}
use slurm_shim.Install.State.{
  Replaced, State, intend_kind, replaced_value, replace_unless, replace, replace_old, record_add,
  record_kind, record_outcome, record_report,
}

abbrev pub or_else : Option Bytes → Option Bytes → Option Bytes
or_else none y = y
or_else (some x) y = some x

-- What one attribute is overwritten from, if that is what an overwriting says.
value_at : Bytes → Bytes → Bytes → Bytes → Bytes → Option Bytes
value_at object attr object' attr' [] = none
value_at object attr object' attr' (c ∷ old) =
    if bytes_eq object' object && bytes_eq attr' attr then some (c ∷ old) else none

kind_overwrites : Bytes → Bytes → ChangeKind → Change → Option Bytes
unfolding value_at
kind_overwrites object attr ChangeKind.set_starter c =
    value_at object attr (codes "queue " ++ c.object) (codes "starter_method") c.old
kind_overwrites object attr ChangeKind.set_pe_attr c =
    value_at object attr (codes "pe " ++ c.object) c.attr c.old
kind_overwrites object attr _ c = none

outcome_overwrites : Bytes → Bytes → Option Bytes → Change → Option Bytes
unfolding kind_overwrites
outcome_overwrites object attr (some e) c = none
outcome_overwrites object attr none c = kind_overwrites object attr c.kind c

-- The value that the first successful change of a report overwrote in an attribute: a queue's
-- starter_method, or an attribute of a parallel environment.
unfoldable pub first_overwritten : Bytes → Bytes → List Outcome → Option Bytes
unfolding outcome_overwrites
first_overwritten object attr [] = none
first_overwritten object attr (o ∷ os) =
    or_else (outcome_overwrites object attr o.err o.change) (first_overwritten object attr os)

or_else_assoc : (x y z : Option Bytes) → or_else (or_else x y) z ≡ or_else x (or_else y z)
or_else_assoc none y z = refl
or_else_assoc (some x) y z = refl

or_else-none : (x : Option Bytes) → or_else x none ≡ x
or_else-none none = refl
or_else-none (some x) = refl

replaced_value-append :
    (rs ss : List Replaced) (object attr : Bytes)
    → replaced_value (rs ++ ss) object attr
      ≡ or_else (replaced_value rs object attr) (replaced_value ss object attr)
unfolding replaced_value
replaced_value-append [] ss object attr = refl
replaced_value-append (r ∷ rs) ss object attr =
    elim (Bool-cases (bytes_eq r.object object && bytes_eq r.attr attr)) [
      | inl e ↦ rw e refl
      | inr e ↦ rw e (replaced_value-append rs ss object attr)
    ]

same_key :
    (s t object attr : Bytes) (rs : List Replaced)
    → (bytes_eq s object && bytes_eq t attr) ≡ true
    → replaced_value rs s t ≡ replaced_value rs object attr
same_key s t object attr rs e =
    let (p, q) = and-true (bytes_eq s object) (bytes_eq t attr) e in
    let p' = bytes_eq→eq s object p in
    let q' = bytes_eq→eq t attr q in λ i. replaced_value rs (p' i) (q' i)

-- An overwriting that is recorded already adds nothing for any attribute.
recorded_already :
    (rs : List Replaced) (object attr s t old v : Bytes) (c : ℕ)
    → replaced_value rs s t ≡ some v
    → replaced_value rs object attr
      ≡ or_else (replaced_value rs object attr) (value_at object attr s t (c ∷ old))
unfolding value_at
recorded_already rs object attr s t old v c h =
    elim (Bool-cases (bytes_eq s object && bytes_eq t attr)) [
      | inl e ↦ let known = sym (same_key s t object attr rs e) ∙ h in rw (known) refl
      | inr e ↦ rw e (sym (or_else-none (replaced_value rs object attr)))
    ]

replace_old_lem :
    (s : State) (object attr ob at old : Bytes)
    → replaced_value (replace_old s ob at old).replaced object attr
      ≡ or_else (replaced_value s.replaced object attr) (value_at object attr ob at old)
unfolding replace_old replace value_at
replace_old_lem s object attr ob at [] = sym (or_else-none (replaced_value s.replaced object attr))
replace_old_lem s object attr ob at (c ∷ old) =
    elim (Option-cases (replaced_value s.replaced ob at)) [
      | inl e ↦ rw e (
          unfold replace_unless replaced_value value_at in
          replaced_value-append s.replaced _ object attr)
      | inr (v, e) ↦
          rw e (unfold replace_unless in recorded_already s.replaced object attr ob at old v c e)
    ]

replaced-record_add :
    (b : Bool) (queue pe : Bytes) (s : State) → (record_add b queue pe s).replaced ≡ s.replaced
unfolding record_add
replaced-record_add true queue pe s = refl
replaced-record_add false queue pe s = refl

replaced-intend_kind :
    (k : ChangeKind) (c : Change) (s : State) → (intend_kind k c s).replaced ≡ s.replaced
unfolding intend_kind
replaced-intend_kind ChangeKind.add_queue c s = refl
replaced-intend_kind ChangeKind.add_pe c s = refl
replaced-intend_kind ChangeKind.add_complex c s = refl
replaced-intend_kind _ c s = refl

intend_kind_lem :
    (c : Change) (s : State) (object attr : Bytes)
    → replaced_value (intend_kind c.kind c s).replaced object attr
      ≡ or_else (replaced_value s.replaced object attr) none
intend_kind_lem c s object attr =
    ap (λ (rs : List Replaced). replaced_value rs object attr) (replaced-intend_kind c.kind c s)
    ∙ sym (or_else-none (replaced_value s.replaced object attr))

record_kind_lem :
    (k : ChangeKind) (c : Change) (s : State) (object attr : Bytes)
    → replaced_value (record_kind k c s).replaced object attr
      ≡ or_else (replaced_value s.replaced object attr) (kind_overwrites object attr k c)
unfolding record_kind kind_overwrites
record_kind_lem ChangeKind.set_starter c s object attr = replace_old_lem s object attr _ _ c.old
record_kind_lem ChangeKind.set_pe_attr c s object attr = replace_old_lem s object attr _ _ c.old
record_kind_lem ChangeKind.add_to_pe_list c s object attr =
    ap (λ (rs : List Replaced). replaced_value rs object attr)
      (replaced-record_add _ c.object c.new s)
    ∙ sym (or_else-none (replaced_value s.replaced object attr))
record_kind_lem ChangeKind.add_queue c s object attr = intend_kind_lem c s object attr
record_kind_lem ChangeKind.add_pe c s object attr = intend_kind_lem c s object attr
record_kind_lem ChangeKind.add_complex c s object attr = intend_kind_lem c s object attr
record_kind_lem _ c s object attr = sym (or_else-none (replaced_value s.replaced object attr))

record_outcome_lem :
    (err : Option Bytes) (c : Change) (s : State) (object attr : Bytes)
    → replaced_value (record_outcome err c s).replaced object attr
      ≡ or_else (replaced_value s.replaced object attr) (outcome_overwrites object attr err c)
unfolding record_outcome outcome_overwrites
record_outcome_lem (some e) c s object attr =
    sym (or_else-none (replaced_value s.replaced object attr))
record_outcome_lem none c s object attr = record_kind_lem c.kind c s object attr

-- After a report is recorded, the recorded old value of an attribute is the one that was recorded
-- before, if there was one, and else the value that the first successful change of the report
-- overwrote in it. So a value that an installation wrote itself never takes the place of the site's.
pub record_keeps_first :
    (os : List Outcome) (s : State) (object attr : Bytes)
    → replaced_value (record_report s os).replaced object attr
      ≡ or_else (replaced_value s.replaced object attr) (first_overwritten object attr os)
unfolding record_report first_overwritten
record_keeps_first [] s object attr = sym (or_else-none (replaced_value s.replaced object attr))
record_keeps_first (o ∷ os) s object attr =
    record_keeps_first os (record_outcome o.err o.change s) object attr
    ∙ ap (λ (x : Option Bytes). or_else x (first_overwritten object attr os))
        (record_outcome_lem o.err o.change s object attr)
    ∙ or_else_assoc (replaced_value s.replaced object attr) _ _
