-- ===== src/Install/Paths.antt =====
-- filepath.Join and strings.EqualFold, as internal/install/plan.go calls them.
use slurm_shim.Common.{
  ℕ, ◌+◌, Bool, true, false, ◌&&◌, List, [], ◌∷◌, ◌≡◌, refl, leb, if◌then◌else◌, map,
}
use slurm_shim.Text.Bytes.{Bytes, codes, bytes_eq, has_prefix}
use slurm_shim.Text.Split.{split, join}

-- Upper-case letters of ASCII to lower case.
to_lower : ℕ → ℕ
to_lower c = if leb b'A' c && leb c b'Z' then c + 32 else c

-- strings.EqualFold, over ASCII.
unfoldable pub equal_fold : Bytes → Bytes → Bool
unfolding to_lower
equal_fold s t = bytes_eq (map to_lower s) (map to_lower t)

reverse_onto : List Bytes → List Bytes → List Bytes
reverse_onto [] out = out
reverse_onto (x ∷ xs) out = reverse_onto xs (x ∷ out)

-- A `..` takes the element before it away. At the root it is dropped, and behind another `..` it stays.
parent : Bool → List Bytes → List Bytes
parent true [] = []
parent false [] = codes ".." ∷ []
parent rooted (e ∷ es) = if bytes_eq e (codes "..") then codes ".." ∷ e ∷ es else es

-- The elements of a path without the empty ones, `.` and what `..` takes away, the last in front.
clean_loop : Bool → List Bytes → List Bytes → List Bytes
unfolding parent
clean_loop rooted [] kept = kept
clean_loop rooted (e ∷ es) kept =
    if bytes_eq e []
    then clean_loop rooted es kept
    else if bytes_eq e (codes ".")
    then clean_loop rooted es kept
    else if bytes_eq e (codes "..")
    then clean_loop rooted es (parent rooted kept)
    else clean_loop rooted es (e ∷ kept)

dot_if_empty : Bytes → Bytes
dot_if_empty [] = codes "."
dot_if_empty (c ∷ s) = c ∷ s

-- filepath.Clean on Unix.
unfoldable pub clean : Bytes → Bytes
unfolding clean_loop reverse_onto dot_if_empty
clean path =
    if has_prefix path (codes "/")
    then b'/' ∷ join (reverse_onto (clean_loop true (split path b'/') []) []) b'/'
    else dot_if_empty (join (reverse_onto (clean_loop false (split path b'/') []) []) b'/')

drop_empty : List Bytes → List Bytes
drop_empty [] = []
drop_empty ([] ∷ es) = drop_empty es
drop_empty ((c ∷ e) ∷ es) = (c ∷ e) ∷ drop_empty es

-- The empty elements in front are left out, which Clean does with those behind an element.
join_elements : List Bytes → Bytes
unfolding clean
join_elements [] = []
join_elements (e ∷ es) = clean (join (e ∷ es) b'/')

-- filepath.Join on Unix.
unfoldable pub join_path : List Bytes → Bytes
unfolding drop_empty join_elements
join_path es = join_elements (drop_empty es)

folded : equal_fold (codes "Bool") (codes "BOOL") ≡ true
unfolding equal_fold
folded = refl

below_prefix :
    join_path (codes "/opt/ocs/../shim/" ∷ codes "bin" ∷ codes "env" ∷ [])
    ≡ codes "/opt/shim/bin/env"
unfolding join_path slurm_shim.Text.Split.join slurm_shim.Text.Split.split
    slurm_shim.Text.Bytes.has_prefix
below_prefix = refl
