-- ===== src/Fabricator/Quote.antt =====
-- internal/fabricator/quote.go, and RenderExports of emit.go. A text is its runes: each function
-- goes through a string rune by rune, or looks for bytes of ASCII only.
pub mod Shell
use slurm_shim.Common.{
  ℕ, Bool, true, false, ◌&&◌, ◌||◌, List, [], ◌∷◌, ◌++◌, ◌==◌, leb, if◌then◌else◌,
}
use slurm_shim.Text.Bytes.{Bytes, codes}

abbrev pub newline : ℕ
newline = 10

-- strings.ReplaceAll of a quote by quote, backslash, quote, quote.
unfoldable pub escape_quotes : Bytes → Bytes
escape_quotes [] = []
escape_quotes (c ∷ s) =
    let rest = escape_quotes s in
    if c == b'\'' then b'\'' ∷ b'\\' ∷ b'\'' ∷ b'\'' ∷ rest else c ∷ rest

-- shellQuote
unfoldable pub shell_quote : Bytes → Bytes
unfolding escape_quotes
shell_quote s = b'\'' ∷ (escape_quotes s ++ (b'\'' ∷ []))

abbrev pub is_alnum : ℕ → Bool
is_alnum c = leb b'A' c && leb c b'Z' || (leb b'a' c && leb c b'z') || (leb b'0' c && leb c b'9')

abbrev pub contains : Bytes → ℕ → Bool
contains [] c = false
contains (x ∷ xs) c = let rest = contains xs c in if x == c then true else rest

-- sanitizeFreeText
unfoldable pub sanitize_free_text : Bytes → Bytes
sanitize_free_text [] = []
sanitize_free_text (c ∷ s) =
    (if is_alnum c || contains (codes "._+-/") c then c else b'_') ∷ sanitize_free_text s

-- machineValueOK
unfoldable pub machine_value_ok : Bytes → Bool
machine_value_ok [] = true
machine_value_ok (c ∷ s) =
    let rest = machine_value_ok s in
    if is_alnum c || contains (codes "[](),.:=_-") c then rest else false

-- Result, the fields that RenderExports reads. An export is its key and its value.
pub record FabricatorResult : Type 0 where
  pub unset : List Bytes
  pub disabled : Bool
  pub shim_bin_dir : Bytes
  pub exports : List (Bytes × Bytes)

unfoldable pub render_unset : List Bytes → Bytes
render_unset [] = []
render_unset (k ∷ ks) = codes "unset " ++ (k ++ (newline ∷ render_unset ks))

unfoldable pub render_path : Bytes → Bytes
unfolding shell_quote
render_path [] = []
render_path (c ∷ dir) =
    codes "export PATH="
    ++ (shell_quote (c ∷ dir) ++ (codes "${PATH:+:\"$PATH\"}" ++ (newline ∷ [])))

unfoldable pub render_export : Bytes × Bytes → Bytes
unfolding shell_quote
render_export (k, v) = codes "export " ++ (k ++ (b'=' ∷ (shell_quote v ++ (newline ∷ []))))

unfoldable pub render_all : List (Bytes × Bytes) → Bytes
unfolding render_export
render_all [] = []
render_all (e ∷ es) = render_export e ++ render_all es

-- RenderExports
unfoldable pub render_exports : FabricatorResult → Bytes
unfolding render_unset render_path render_all
render_exports r =
    render_unset r.unset
    ++ (if r.disabled then [] else render_path r.shim_bin_dir ++ render_all r.exports)
