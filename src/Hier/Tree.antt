-- ===== src/Hier/Tree.antt =====
-- The tree of a hierarchical resource: struct flom_rsrc_data_hier_element_s, and the functions of
-- src/flom_resource_hier.c that walk it, which take a name as its levels.
use mathlib.Core.Option
use text.Mathlib.Text.{◌==◌ as str_eq}
use flom.Prelude.{String, Bool, true, false, not, Option, none, some, List, [], ◌∷◌, if◌then◌else◌}
use flom.Rsrc.Types.{Rc, LockMode, Conn}
use flom.Rsrc.Env.{Env, World, node_added, emit}
use flom.Rsrc.Holders.{find_conn, remove_conn}
use flom.Simple.{ModeLock, can_lock as holders_allow}

mutual
  pub data Node : Type 0 where
    node : String → List ModeLock → Leaves → Node

  pub data Leaves : Type 0 where
    nil : Leaves
    cons : Node → Leaves → Leaves

abbrev pub name_of : Node → String
name_of (node n hs kids) = n

-- flom_resource_hier_can_lock: the asked name goes down level by level, and once it is at its end each
-- node below is checked.
unfoldable mutual
  pub can_lock : Node → LockMode → List String → Bool
  can_lock (node n hs kids) mode [] =
      let deeper = can_lock_leaves kids mode [] in if holders_allow hs mode then deeper else false
  can_lock (node n hs kids) mode (l ∷ path) =
      let deeper = can_lock_leaves kids mode path in
      if str_eq l n then if holders_allow hs mode then deeper else false else true

  pub can_lock_leaves : Leaves → LockMode → List String → Bool
  can_lock_leaves nil mode path = true
  can_lock_leaves (cons c rest) mode path =
      let others = can_lock_leaves rest mode path in if can_lock c mode path then others else false

-- What an addition to the tree leaves behind.
pub record Grown (T : Type 0) : Type 0 where
  pub rc : Rc
  pub tree : T
  pub world : World

-- The nodes for the levels of a name, one below the other, the last with the given holders. Each is
-- linked to its father as soon as it is there.
unfoldable pub chain : Env → String → List String → List ModeLock → World → Grown Leaves
unfolding emit
chain e l [] hs w =
    if e.try_malloc w.log
    then if e.strdup w.log
      then record { rc = Rc.ok; tree = cons (node l hs nil) nil; world = emit (node_added l) w }
      else record { rc = Rc.g_strdup_error; tree = nil; world = w }
    else record { rc = Rc.g_try_malloc_error; tree = nil; world = w }
chain e l (l' ∷ ls) hs w =
    let below = chain e l' ls hs (emit (node_added l) w) in
    if e.try_malloc w.log
    then if e.strdup w.log
      then record { rc = below.rc; tree = cons (node l [] below.tree) nil; world = below.world }
      else record { rc = Rc.g_strdup_error; tree = nil; world = w }
    else record { rc = Rc.g_try_malloc_error; tree = nil; world = w }

-- g_ptr_array_add
unfoldable pub add_leaves : Leaves → Leaves → Leaves
add_leaves nil new = new
add_leaves (cons c rest) new = cons c (add_leaves rest new)

abbrev pub has_leaves : Leaves → Bool
has_leaves nil = false
has_leaves (cons c rest) = true

-- The loop over the leaves of a node: `f` goes on at the first one of a name, which is in place of
-- `none` if *(level_name+1) is NULL or no leaf has it.
unfoldable pub behind : Node → Grown Leaves → Grown Leaves
behind c g = record g { tree = cons c g.tree }

unfoldable pub in_leaf : String → (Node → Grown Node) → Leaves → Option (Grown Leaves)
unfolding behind
in_leaf s f nil = none
in_leaf s f (cons c rest) =
    let g = f c in
    let others = in_leaf s f rest in
    if str_eq s (name_of c)
    then some (record { rc = g.rc; tree = cons g.tree rest; world = g.world })
    else Option.map (behind c) others

unfoldable pub in_next : List String → (Node → Grown Node) → Leaves → Option (Grown Leaves)
in_next [] f kids = none
in_next (s ∷ ls) f kids = in_leaf s f kids

-- The end of flom_resource_hier_add_locker: the levels that are left, and `node_is_leaf`.
unfoldable pub finish : Env → List String → Bool → ModeLock → Node → World → Grown Node
finish e [] is_leaf cl (node n hs kids) w = record {
  rc = Rc.ok;
  tree = node n (cl ∷ hs) kids;
  world = w;
}
finish e (l ∷ ls) true cl (node n hs kids) w =
    let g = chain e l ls (cl ∷ []) w in
    record { rc = g.rc; tree = node n hs (add_leaves kids g.tree); world = g.world }
finish e (l ∷ ls) false cl t w = record { rc = Rc.internal_error; tree = t; world = w }

-- The search of flom_resource_hier_add_locker, with its flags `continue_search` and `node_is_leaf`.
unfoldable pub pick : String → List ModeLock → Option (Grown Leaves) → Grown Node → Grown Node
pick n hs (some g) stay = record { rc = g.rc; tree = node n hs g.tree; world = g.world }
pick n hs none stay = stay

unfoldable pub descend : Env → List String → Bool → Bool → ModeLock → Node → World → Grown Node
unfolding pick
descend e [] go_on is_leaf cl t w = finish e [] is_leaf cl t w
descend e (l ∷ ls) false is_leaf cl t w = finish e (l ∷ ls) true cl t w
descend e (l ∷ ls) true is_leaf cl (node n hs kids) w =
    let found = in_next ls (λ leaf. descend e ls true false cl leaf w) kids in
    let stay = descend e ls false (not (has_leaves kids)) cl (node n hs kids) w in
    if str_eq l n then pick n hs found stay else finish e (l ∷ ls) true cl (node n hs kids) w

-- flom_resource_hier_add_locker
unfoldable pub add_locker : Env → List String → ModeLock → Node → World → Grown Node
unfolding descend
add_locker e ls cl root w = descend e ls true true cl root w

-- flom_resource_hier_gc: children first, and then each child that has neither children nor holders.
unfoldable pub is_empty : Node → Bool
is_empty (node n [] nil) = true
is_empty (node n [] (cons c rest)) = false
is_empty (node n (cl ∷ hs) kids) = false

unfoldable mutual
  unfolding is_empty

  pub gc : Node → Node
  gc (node n hs kids) = node n hs (gc_leaves kids)

  pub gc_leaves : Leaves → Leaves
  gc_leaves nil = nil
  gc_leaves (cons c rest) =
      let rest' = gc_leaves rest in if is_empty (gc c) then rest' else cons (gc c) rest'

-- The part of flom_resource_hier_clean that looks for the node of a name and takes the lock of a
-- connection off it. If a level has no node, the search ends at the last node that it found.
unfoldable pub take_here : Conn → Node → Option (ModeLock × Node)
take_here c (node n hs kids) =
    Option.map (λ cl. (cl, node n (remove_conn hs c) kids)) (find_conn hs c)

unfoldable pub put_back : Leaves → ModeLock × Node → ModeLock × Leaves
put_back rest (cl, c) = (cl, cons c rest)

unfoldable pub step_over : Node → ModeLock × Leaves → ModeLock × Leaves
step_over c (cl, rest) = (cl, cons c rest)

unfoldable pub take_leaf :
    String → (Node → Option (ModeLock × Node)) → Leaves → Option (Option (ModeLock × Leaves))
unfolding put_back step_over
take_leaf s f nil = none
take_leaf s f (cons c rest) =
    let others = take_leaf s f rest in
    if str_eq s (name_of c)
    then some (Option.map (put_back rest) (f c))
    else Option.map (Option.map (step_over c)) others

unfoldable pub take_next :
    List String → (Node → Option (ModeLock × Node)) → Leaves → Option (Option (ModeLock × Leaves))
take_next [] f kids = none
take_next (s ∷ ls) f kids = take_leaf s f kids

unfoldable pub relink : String → List ModeLock → ModeLock × Leaves → ModeLock × Node
relink n hs (cl, kids) = (cl, node n hs kids)

unfoldable pub taken :
    String
    → List ModeLock
    → Option (Option (ModeLock × Leaves))
    → Option (ModeLock × Node)
    → Option (ModeLock × Node)
unfolding relink
taken n hs (some below) here = Option.map (relink n hs) below
taken n hs none here = here

unfoldable pub take_lock : Conn → List String → Node → Option (ModeLock × Node)
unfolding take_here taken
take_lock c [] t = take_here c t
take_lock c (l ∷ ls) (node n hs kids) =
    let found = take_next ls (take_lock c ls) kids in
    let skipped = take_lock c ls (node n hs kids) in
    if str_eq l n then taken n hs found (take_here c (node n hs kids)) else skipped
