-- ===== src/Fabricator/Quote/Shell.antt =====
-- What a POSIX shell reads back from the text of internal/fabricator/quote.go.
pub mod Command
pub mod Script
use slurm_shim.Common.{
  ℕ, ◌+◌, Bool, true, false, ◌&&◌, ◌||◌, List, [], ◌∷◌, ◌++◌, append_assoc, append-nil, Option,
  none, some, ◌≡◌, ◌≢◌, refl, sym, ap, ◌∙◌, arith, ◌==◌, leb, if◌then◌else◌, All, Bool-cases, inl,
  inr, length, map, replicate, take, drop, zero, suc, subst, ==→eq, ==_refl, and-true,
}
use slurm_shim.Text.Bytes.{Bytes, codes, All-imp}
use slurm_shim.Fabricator.Quote.{
  newline, escape_quotes, shell_quote, render_export, render_all, render_path, render_unset,
  FabricatorResult, render_exports, is_alnum, contains,
}

-- Where a reader of one shell word stands: outside quotes, behind a backslash there, or in single
-- quotes.
pub data Mode : Type 0 where
  plain : Mode
  escaped : Mode
  quoted : Mode

-- A byte that a shell takes as itself outside quotes.
abbrev pub is_literal : ℕ → Bool
is_literal c = is_alnum c || contains (codes "_/.-=") c

abbrev pub before : ℕ → Option (Bytes × Bytes) → Option (Bytes × Bytes)
before c none = none
before c (some (w, rest)) = some (c ∷ w, rest)

-- One word of a POSIX shell (XCU 2.2.1 and 2.2.2): single quotes keep every byte up to the next
-- one, a backslash outside them keeps the next byte, and an unquoted newline ends the word, as the
-- `$` of an expansion ends this part of it. `none` at any other byte that means something to a
-- shell, and where a quote is not closed.
unfoldable pub read_word : Mode → Bytes → Option (Bytes × Bytes)
read_word plain [] = some ([], [])
read_word escaped [] = none
read_word quoted [] = none
read_word plain (c ∷ s) =
    let in_quotes = read_word quoted s in
    let behind = read_word escaped s in
    let more = read_word plain s in
    if c == newline || c == b'$'
    then some ([], c ∷ s)
    else if c == b'\''
    then in_quotes
    else if c == b'\\'
    then behind
    else if is_literal c
    then before c more
    else none
read_word escaped (c ∷ s) = before c (read_word plain s)
read_word quoted (c ∷ s) =
    let out = read_word plain s in
    let more = read_word quoted s in if c == b'\'' then out else before c more

-- A text in front of a word.
abbrev pub before_all : Bytes → Option (Bytes × Bytes) → Option (Bytes × Bytes)
before_all [] m = m
before_all (c ∷ s) m = before c (before_all s m)

pub before_all-some : (s w t : Bytes) → before_all s (some (w, t)) ≡ some (s ++ w, t)
before_all-some [] w t = refl
before_all-some (c ∷ s) w t = ap (before c) (before_all-some s w t)

read_word-escape_quotes :
    (s t : Bytes)
    → read_word quoted (escape_quotes s ++ (b'\'' ∷ t)) ≡ before_all s (read_word plain t)
unfolding read_word escape_quotes
read_word-escape_quotes [] t = refl
read_word-escape_quotes (c ∷ s) t = elim (Bool-cases (c == b'\'')) [
  | inl e ↦ rw e (rw (==→eq c b'\'' e) (ap (before b'\'') (read_word-escape_quotes s t)))
  | inr e ↦ rw e (rw e (ap (before c) (read_word-escape_quotes s t)))
]

quote-then : (s t : Bytes) → shell_quote s ++ t ≡ b'\'' ∷ (escape_quotes s ++ (b'\'' ∷ t))
unfolding shell_quote
quote-then s t = ap (λ r. b'\'' ∷ r) (append_assoc (escape_quotes s) (b'\'' ∷ []) t)

-- A quoted text is read back, whatever its bytes, as one word that ends where it ends.
pub read_word-shell_quote :
    (s t : Bytes)
    → read_word plain t ≡ some ([], t)
    → read_word plain (shell_quote s ++ t) ≡ some (s, t)
unfolding read_word shell_quote
read_word-shell_quote s t ends =
    ap (read_word plain) (quote-then s t)
    ∙ read_word-escape_quotes s t
    ∙ ap (before_all s) ends
    ∙ before_all-some s [] t
    ∙ ap (λ w. some (w, t)) (append-nil s)

-- A byte of a variable's name.
abbrev pub is_name : ℕ → Bool
is_name c = is_alnum c || c == b'_'

abbrev pub IsName : Bytes → Type 0
IsName = All (λ c. is_name c ≡ true)

pub name-literal : (c : ℕ) → is_name c ≡ true → is_literal c ≡ true
name-literal c h = ground arith

pub read_word-literal :
    (s t : Bytes)
    → All (λ c. is_literal c ≡ true) s
    → read_word plain (s ++ t) ≡ before_all s (read_word plain t)
unfolding read_word
read_word-literal [] t h = refl
read_word-literal (c ∷ s) t (hc, hs) =
    let not_end : (c == newline || c == b'$') ≡ false = ground (arith, hc) in
    let no_quote : (c == b'\'') ≡ false = ground (arith, hc) in
    let no_escape : (c == b'\\') ≡ false = ground (arith, hc) in
    rw not_end (rw no_quote (rw no_escape (rw hc (ap (before c) (read_word-literal s t hs)))))

abbrev pub is_word : Bytes → Bool
is_word [] = true
is_word (c ∷ k) = is_name c && is_word k

pub is_word-IsName : (k : Bytes) → is_word k ≡ true → IsName k
is_word-IsName [] h = tt
is_word-IsName (c ∷ k) h =
    let (here, behind) = and-true (is_name c) (is_word k) h in (here, is_word-IsName k behind)
