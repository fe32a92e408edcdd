-- ===== src/Fabricator/Quote/Shell/Script.antt =====
-- A reader of the script that RenderExports of internal/fabricator/emit.go writes.
use slurm_shim.Common.{
  ℕ, ◌+◌, true, false, List, [], ◌∷◌, ◌++◌, append_assoc, Option, none, some, ◌≡◌, refl, ap, ◌∙◌,
  arith, ◌==◌, if◌then◌else◌, All, length, zero, suc,
}
use slurm_shim.Text.Bytes.{Bytes, codes}
use slurm_shim.Fabricator.Quote.{
  newline, render_all, render_path, render_unset, FabricatorResult, render_exports,
}
use slurm_shim.Fabricator.Quote.Shell.{IsName}
use slurm_shim.Fabricator.Quote.Shell.Command.{
  Command, unset_variable, export_variable, path_tail, read_command, read_command-export,
  read_command-path, read_command-unset,
}

-- The commands of a script, each on a line that a newline ends.
abbrev pub add : Command → Option (List Command) → Option (List Command)
add c none = none
add c (some cs) = some (c ∷ cs)

-- The script behind one command, which `more` reads.
abbrev pub read_rest :
    (Bytes → Option (List Command)) → Option (Command × Bytes) → Option (List Command)
read_rest more none = none
read_rest more (some (c, [])) = none
read_rest more (some (c, b ∷ s)) = if b == newline then add c (more s) else none

unfoldable pub read_script : ℕ → Bytes → Bytes → Option (List Command)
unfolding read_command
read_script zero path [] = some []
read_script zero path (c ∷ s) = none
read_script (suc fuel) path [] = some []
read_script (suc fuel) path (c ∷ s) = read_rest (read_script fuel path) (read_command path (c ∷ s))

-- The commands that unset the names, put a directory in front of PATH and export the pairs.
abbrev pub unset_all : List Bytes → List Command → List Command
unset_all [] cs = cs
unset_all (k ∷ ks) cs = unset_variable k ∷ unset_all ks cs

abbrev pub export_path : Bytes → Bytes → List Command → List Command
export_path [] path cs = cs
export_path (c ∷ dir) path cs = export_variable (codes "PATH") (c ∷ dir ++ path_tail path) ∷ cs

abbrev pub export_all : List (Bytes × Bytes) → List Command
export_all [] = []
export_all ((k, v) ∷ es) = export_variable k v ∷ export_all es

abbrev pub commands : FabricatorResult → Bytes → List Command
commands r path =
    unset_all r.unset
      (if r.disabled then [] else export_path r.shim_bin_dir path (export_all r.exports))

abbrev pub HasNames : List (Bytes × Bytes) → Type 0
HasNames = All (λ (e : Bytes × Bytes). IsName (e.0))

read_script-nil : (fuel : ℕ) (path : Bytes) → read_script fuel path [] ≡ some []
unfolding read_script
read_script-nil zero path = refl
read_script-nil (suc fuel) path = refl

suc_plus : (a b : ℕ) → suc a + b ≡ suc (a + b)
suc_plus a b = omega arith

read_script-exports :
    (es : List (Bytes × Bytes)) (fuel : ℕ) (path : Bytes)
    → HasNames es
    → read_script (length es + fuel) path (render_all es) ≡ some (export_all es)
unfolding read_script render_all
read_script-exports [] fuel path h = read_script-nil (0 + fuel) path
read_script-exports ((k, v) ∷ es) fuel path (hk, hes) =
    ap (λ n. read_script n path (render_all ((k, v) ∷ es))) (suc_plus (length es) fuel)
    ∙ ap (read_rest (read_script (length es + fuel) path))
        (read_command-export k v (render_all es) path hk)
    ∙ ap (add (export_variable k v)) (read_script-exports es fuel path hes)

read_script-path :
    (dir : Bytes) (es : List (Bytes × Bytes)) (path : Bytes)
    → HasNames es
    → read_script (suc (length es)) path (render_path dir ++ render_all es)
      ≡ some (export_path dir path (export_all es))
unfolding read_script render_path
read_script-path [] es path h =
    ap (λ n. read_script n path (render_all es)) (plus_one (length es))
    ∙ read_script-exports es 1 path h
  where
    plus_one : (n : ℕ) → suc n ≡ n + 1
    plus_one n = omega arith
read_script-path (c ∷ dir) es path h =
    ap (read_rest (read_script (length es) path)) (read_command-path c dir (render_all es) path)
    ∙ ap
        (λ n.
          add (export_variable (codes "PATH") (c ∷ dir ++ path_tail path))
            (read_script n path (render_all es)))
        (plus_zero (length es))
    ∙ ap (add (export_variable (codes "PATH") (c ∷ dir ++ path_tail path)))
        (read_script-exports es 0 path h)
  where
    plus_zero : (n : ℕ) → n ≡ n + 0
    plus_zero n = omega arith

read_script-unset :
    (ks : List Bytes) (fuel : ℕ) (path s : Bytes) (cs : List Command)
    → All IsName ks
    → read_script fuel path s ≡ some cs
    → read_script (length ks + fuel) path (render_unset ks ++ s) ≡ some (unset_all ks cs)
unfolding read_script render_unset
read_script-unset [] fuel path s cs h e = ap (λ n. read_script n path s) (zero_plus fuel) ∙ e
  where
    zero_plus : (n : ℕ) → 0 + n ≡ n
    zero_plus n = omega arith
read_script-unset (k ∷ ks) fuel path s cs (hk, hks) e =
    ap (λ n. read_script n path (render_unset (k ∷ ks) ++ s)) (suc_plus (length ks) fuel)
    ∙ ap
        (λ r.
          read_rest (read_script (length ks + fuel) path) (read_command path (codes "unset " ++ r)))
        (append_assoc k (newline ∷ render_unset ks) s)
    ∙ ap (read_rest (read_script (length ks + fuel) path))
        (read_command-unset k (render_unset ks ++ s) path hk)
    ∙ ap (add (unset_variable k)) (read_script-unset ks fuel path s cs hks e)

-- A POSIX shell that evaluates the text of RenderExports, with any PATH, runs these commands in
-- their order and nothing else, whatever bytes the values and the bin directory hold: it unsets the
-- names of the scrub, and unless the result is disabled puts the bin directory in front of PATH,
-- where there is one, and exports each pair with its value unchanged. The variables' names are
-- letters, digits and underscores.
pub read_script-render_exports :
    (r : FabricatorResult) (path : Bytes)
    → All IsName r.unset
    → HasNames r.exports
    → read_script (length r.unset + suc (length r.exports)) path (render_exports r)
      ≡ some (commands r path)
unfolding render_exports
read_script-render_exports r path h hes =
    read_script-unset r.unset (suc (length r.exports)) path
      (if r.disabled then [] else render_path r.shim_bin_dir ++ render_all r.exports)
      (if r.disabled then [] else export_path r.shim_bin_dir path (export_all r.exports)) h
      (elim r.disabled
        as (λ b.
          read_script (suc (length r.exports)) path
            (if b then [] else render_path r.shim_bin_dir ++ render_all r.exports)
          ≡ some (if b then [] else export_path r.shim_bin_dir path (export_all r.exports))) [
            | true ↦ read_script-nil (suc (length r.exports)) path
            | false ↦ read_script-path r.shim_bin_dir r.exports path hes
          ])
