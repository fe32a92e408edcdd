-- ===== src/Fabricator/Quote/Shell/Command.antt =====
-- What a shell does with one line of the script that RenderExports of internal/fabricator/emit.go
-- writes.
use slurm_shim.Common.{
  ℕ, true, false, [], ◌∷◌, ◌++◌, append_assoc, append-nil, Option, none, some, ◌≡◌, refl, sym, ap,
  ◌∙◌, arith, ◌==◌, if◌then◌else◌, All, ==_refl,
}
use slurm_shim.Text.Bytes.{Bytes, codes, All-imp}
use slurm_shim.Fabricator.Quote.{newline, shell_quote, render_export, render_path}
use slurm_shim.Fabricator.Quote.Shell.{
  read_word, plain, before, before_all, before_all-some, read_word-shell_quote, read_word-literal,
  name-literal, is_literal, is_name, IsName,
}

-- The text behind a prefix, where the text starts with it.
abbrev pub behind : Bytes → Bytes → Option Bytes
behind [] s = some s
behind (p ∷ ps) [] = none
behind (p ∷ ps) (c ∷ s) = let rest = behind ps s in if p == c then rest else none

behind-append : (p s : Bytes) → behind p (p ++ s) ≡ some s
behind-append [] s = refl
behind-append (c ∷ p) s = rw (==_refl c) (behind-append p s)

-- An assignment word in two, at its first `=`.
abbrev pub assignment : Bytes → Bytes → Option (Bytes × Bytes)
assignment key [] = none
assignment key (c ∷ s) =
    let rest = assignment (key ++ (c ∷ [])) s in if c == b'=' then some (key, s) else rest

assignment-append :
    (key name value : Bytes)
    → All (λ c. is_name c ≡ true) name
    → assignment key (name ++ (b'=' ∷ value)) ≡ some (key ++ name, value)
assignment-append key [] value h = ap (λ k. some (k, value)) (sym (append-nil key))
assignment-append key (c ∷ name) value (hc, hs) =
    let other : (c == b'=') ≡ false = ground (arith, hc) in
    rw other (
      assignment-append (key ++ (c ∷ [])) name value hs
      ∙ ap (λ k. some (k, value)) (append_assoc key (c ∷ []) name))

pub data Command : Type 0 where
  unset_variable : Bytes → Command
  export_variable : Bytes → Bytes → Command

-- The value of `${PATH:+:"$PATH"}`: a colon and PATH, where PATH is not empty.
abbrev pub path_tail : Bytes → Bytes
path_tail [] = []
path_tail (c ∷ path) = b':' ∷ c ∷ path

abbrev pub path_expansion : Bytes
path_expansion = codes "${PATH:+:\"$PATH\"}"

-- A word and what follows it, with the expansion of PATH where that is next.
expanded : Bytes → Bytes → Bytes → Option Bytes → Option (Bytes × Bytes)
expanded path w rest none = some (w, rest)
expanded path w rest (some t) = some (w ++ path_tail path, t)

expand : Bytes → Option (Bytes × Bytes) → Option (Bytes × Bytes)
unfolding expanded
expand path none = none
expand path (some (w, rest)) = expanded path w rest (behind path_expansion rest)

-- The command of one line: what `unset` and `export` do with a word and with an assignment.
unset_of : Option (Bytes × Bytes) → Option (Command × Bytes)
unset_of none = none
unset_of (some (name, rest)) = some (unset_variable name, rest)

assign : Bytes → Option (Bytes × Bytes) → Option (Command × Bytes)
assign rest none = none
assign rest (some (key, value)) = some (export_variable key value, rest)

export_of : Option (Bytes × Bytes) → Option (Command × Bytes)
unfolding assign
export_of none = none
export_of (some (word, rest)) = assign rest (assignment [] word)

export_command : Bytes → Option Bytes → Option (Command × Bytes)
unfolding export_of expand read_word
export_command path none = none
export_command path (some s) = export_of (expand path (read_word plain s))

command_of : Bytes → Bytes → Option Bytes → Option (Command × Bytes)
unfolding unset_of export_command read_word
command_of path line none = export_command path (behind (codes "export ") line)
command_of path line (some s) = unset_of (read_word plain s)

unfoldable pub read_command : Bytes → Bytes → Option (Command × Bytes)
unfolding command_of
read_command path line = command_of path line (behind (codes "unset ") line)

names-literal : (k : Bytes) → IsName k → All (λ c. is_literal c ≡ true) k
names-literal = All-imp (λ c. is_name c ≡ true) (λ c. is_literal c ≡ true) name-literal

read_word-line :
    (k v t : Bytes)
    → IsName k
    → read_word plain t ≡ some ([], t)
    → read_word plain (k ++ (b'=' ∷ (shell_quote v ++ t))) ≡ some (k ++ (b'=' ∷ v), t)
unfolding read_word
read_word-line k v t names ends =
    read_word-literal k (b'=' ∷ (shell_quote v ++ t)) (names-literal k names)
    ∙ ap (λ r. before_all k (before b'=' r)) (read_word-shell_quote v t ends)
    ∙ before_all-some k (b'=' ∷ v) t

pub read_command-export :
    (k v t path : Bytes)
    → IsName k
    → read_command path (render_export (k, v) ++ t) ≡ some (export_variable k v, newline ∷ t)
unfolding read_command render_export shell_quote read_word
read_command-export k v t path names =
    ap (λ r. export_of (expand path (read_word plain r)))
      (append_assoc k (b'=' ∷ (shell_quote v ++ (newline ∷ []))) t
        ∙ ap (λ r. k ++ (b'=' ∷ r)) (append_assoc (shell_quote v) (newline ∷ []) t))
    ∙ ap (λ r. export_of (expand path r)) (read_word-line k v (newline ∷ t) names refl)
    ∙ ap (assign (newline ∷ t)) (assignment-append [] k v names)

pub read_command-path :
    (c : ℕ) (dir t path : Bytes)
    → read_command path (render_path (c ∷ dir) ++ t)
      ≡ some (export_variable (codes "PATH") (c ∷ dir ++ path_tail path), newline ∷ t)
unfolding read_command render_path shell_quote read_word
read_command-path c dir t path =
    ap (λ r. export_of (expand path (read_word plain (codes "PATH=" ++ r))))
      (append_assoc (shell_quote (c ∷ dir)) (path_expansion ++ (newline ∷ [])) t)
    ∙ ap (λ r. export_of (expand path r))
        (read_word-line (codes "PATH") (c ∷ dir) (path_expansion ++ (newline ∷ t))
          ((refl, (refl, (refl, (refl, tt))))) refl)

pub read_command-unset :
    (k t path : Bytes)
    → IsName k
    → read_command path (codes "unset " ++ (k ++ (newline ∷ t)))
      ≡ some (unset_variable k, newline ∷ t)
unfolding read_command read_word
read_command-unset k t path names = ap unset_of (
    read_word-literal k (newline ∷ t) (names-literal k names)
    ∙ before_all-some k [] (newline ∷ t)
    ∙ ap (λ w. some (w, newline ∷ t)) (append-nil k))
