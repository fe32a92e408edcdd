-- ===== src/Install/Selection.antt =====
-- The queues to wire (selectQueues in internal/install/plan.go): the changes it appends, and the
-- targets.
use slurm_shim.Common.{
  Bool, true, false, ◌||◌, not, List, [], ◌∷◌, ◌++◌, Option, none, some, if◌then◌else◌,
}
use slurm_shim.Text.Bytes.{Bytes, codes, bytes_eq}
use slurm_shim.Install.Types.{
  Queue, Complex, Facts, Options, ChangeKind, Change, add_complex, add_queue, refused, find_queue,
  find_complex,
}
use slurm_shim.Install.Paths.{equal_fold}

abbrev pub default_queue_name : Bytes
default_queue_name = codes "slurm.q"

abbrev pub shim_complex : Bytes
shim_complex = codes "slurm_shim"

abbrev pub shim_request : Bytes
shim_request = codes "slurm_shim=TRUE"

abbrev pub all_queues : Bytes
all_queues = codes "all"

unfoldable pub contains : List Bytes → Bytes → Bool
contains [] s = false
contains (x ∷ xs) s = let rest = contains xs s in if bytes_eq x s then true else rest

unfoldable pub change : ChangeKind → Bytes → Bytes → Bytes → Bytes → Change
change k object attr old new = record {
  kind = k;
  object = object;
  attr = attr;
  old = old;
  new = new;
  pe = none;
}

-- A named queue is a target, or refused.
unfoldable pub add_target :
    Bytes → Option Queue → List Change × List Queue → List Change × List Queue
unfolding change
add_target name none (changes, targets) =
    (change refused name (codes "queue") [] [] ∷ changes, targets)
add_target name (some q) (changes, targets) = (changes, q ∷ targets)

-- The loop over named queues: the changes and the targets.
unfoldable pub named_queues : Facts → List Bytes → List Change × List Queue
unfolding find_queue add_target
named_queues f [] = ([], [])
named_queues f (name ∷ names) = add_target name (find_queue f.queues name) (named_queues f names)

unfoldable pub wired_queues : List Queue → Bytes → List Queue
wired_queues [] starter = []
wired_queues (q ∷ qs) starter =
    let rest = wired_queues qs starter in
    if bytes_eq q.starter_method starter then q ∷ rest else rest

-- A first install's own queue: a clone of all.q, where there is one.
unfoldable pub new_queue : Facts → List Change → List Change × List Queue
unfolding find_queue change
new_queue f before =
    let src : Bytes = elim (find_queue f.queues (codes "all.q")) [
      | none ↦ []
      | some q ↦ codes "all.q"
    ] in
    (
      before ++ (change add_queue default_queue_name [] src shim_request ∷ []),
      record {
        name = default_queue_name;
        pe_list = [];
        starter_method = [];
        pe_list_overrides = [];
        starter_overrides = [];
      }
          ∷ [],
    )

-- The complex that the new queue needs: added, accepted, or refused.
unfoldable pub new_complex : Facts → Option Complex → List Change × List Queue
unfolding new_queue change equal_fold
new_complex f none = new_queue f (change add_complex shim_complex [] [] [] ∷ [])
new_complex f (some c) =
    if not (equal_fold c.type (codes "BOOL")) || not (equal_fold c.requestable (codes "FORCED"))
    then (
      change refused shim_complex (codes "complex")
            (c.type ++ (codes " requestable " ++ c.requestable)) (codes "BOOL requestable FORCED")
          ∷ [],
      [],
    )
    else new_queue f []

-- The queue slurm.q: finished, refused, or made.
unfoldable pub default_queue : Facts → Options → Option Queue → List Change × List Queue
unfolding new_complex find_complex change
default_queue f o (some q) =
    if bytes_eq o.created_queue default_queue_name
    then ([], q ∷ [])
    else (change refused default_queue_name (codes "queue") [] [] ∷ [], [])
default_queue f o none = new_complex f (find_complex f.complexes shim_complex)

-- Without named queues: those wired already, or slurm.q.
unfoldable pub unnamed_queues : Facts → Options → List Queue → List Change × List Queue
unfolding default_queue find_queue
unnamed_queues f o (q ∷ qs) = ([], q ∷ qs)
unnamed_queues f o [] = default_queue f o (find_queue f.queues default_queue_name)

unfoldable pub is_all : List Bytes → Bool
is_all (name ∷ []) = bytes_eq name all_queues
is_all _ = false

-- The named queues are the targets, if there are any.
unfoldable pub by_names : Facts → Options → Bytes → List Bytes → List Change × List Queue
unfolding named_queues unnamed_queues wired_queues
by_names f o starter [] = unnamed_queues f o (wired_queues f.queues starter)
by_names f o starter (name ∷ names) = named_queues f (name ∷ names)

unfoldable pub select_queues : Facts → Options → Bytes → List Change × List Queue
unfolding by_names contains change is_all
select_queues f o starter =
    if is_all o.queues
    then ([], f.queues)
    else if contains o.queues all_queues
    then (change refused all_queues (codes "queue") [] [] ∷ [], [])
    else by_names f o starter o.queues
