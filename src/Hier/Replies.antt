-- ===== src/Hier/Replies.antt =====
-- What a lock request is answered, on every branch of flom_resource_hier_inmsg.
use mathlib.Core.List.{Perm}
use mathlib.Core.Option
use text.Mathlib.Text.{◌==◌ as str_eq}
use flom.Prelude.{
  ℕ, ◌+◌, ◌≡◌, ◌∙◌, refl, sym, ap, subst, String, inl, inr, Bool, not, Bool-cases, true, false,
  Option, none, some, List, [], ◌∷◌, ◌++◌, arith, All,
}
use flom.Rsrc.Types.{Rc, is_ok, Conn, LockBody}
use flom.Rsrc.Env.{Env, World, IsReliable, emit, vfs_add_locker_conn, node_added}
use flom.Rsrc.Calls.{Outcome}
use flom.Rsrc.Calls.Answers.{IsAnswerStep, reply-reliable}
use flom.Simple.{ModeLock}
use flom.Hier.Tree.{
  Node, Leaves, node, nil, cons, name_of, Grown, can_lock, chain, finish, pick, behind, in_leaf,
  in_next, descend, has_leaves, add_locker,
}
use flom.Hier.Entries.{entries, IsAt, add_locker-Adds}
use flom.Hier.Compatible.{Tolerates, can_lock_paths_iff}
use flom.Hier.{Hier, Split, levels, enqueue, new_lock, request_added, request}

-- Went well, and no connection is at another step.
abbrev WentWell : {T : Type 0} → World → Grown T → Type 0
WentWell w g = (is_ok g.rc ≡ true) × (g.world.last_step ≡ w.last_step)

module _ (e : Env) (reliable : IsReliable e) where
  chain-WentWell :
      (l : String) (ls : List String) (hs : List ModeLock) (w : World)
      → WentWell w (chain e l ls hs w)
  unfolding chain emit
  chain-WentWell l [] hs w = ground (arith, reliable.mallocs w.log, reliable.strdups w.log)
  chain-WentWell l (l' ∷ ls) hs w = ground (
    arith,
    reliable.mallocs w.log,
    reliable.strdups w.log,
    chain-WentWell l' ls hs (emit (node_added l) w),
  )

  finish-WentWell :
      (ls : List String) (cl : ModeLock) (t : Node) (w : World)
      → WentWell w (finish e ls true cl t w)
  unfolding finish
  finish-WentWell [] cl (node n hs kids) w = (refl, refl)
  finish-WentWell (l ∷ ls) cl (node n hs kids) w = chain-WentWell l ls (cl ∷ []) w

  stay-WentWell :
      (ls : List String) (b : Bool) (cl : ModeLock) (t : Node) (w : World)
      → WentWell w (descend e ls false b cl t w)
  unfolding descend finish
  stay-WentWell [] b cl (node n hs kids) w = (refl, refl)
  stay-WentWell (l ∷ ls) b cl t w = finish-WentWell (l ∷ ls) cl t w

  abbrev IsFine : World → Option (Grown Leaves) → Type 0
  IsFine w none = Unit
  IsFine w (some g) = WentWell w g

  behind-IsFine :
      (w : World) (c : Node) (o : Option (Grown Leaves))
      → IsFine w o
      → IsFine w (Option.map (behind c) o)
  unfolding behind
  behind-IsFine w c none h = tt
  behind-IsFine w c (some g) h = h

  in_leaf-IsFine :
      (w : World) (s : String) (f : Node → Grown Node)
      → ((c : Node) → WentWell w (f c))
      → (kids : Leaves) → IsFine w (in_leaf s f kids)
  unfolding in_leaf
  in_leaf-IsFine w s f fine nil = tt
  in_leaf-IsFine w s f fine (cons c rest) = elim (Bool-cases (str_eq s (name_of c))) [
    | inl hit ↦ rw hit (fine c)
    | inr miss ↦ rw miss (behind-IsFine w c (in_leaf s f rest) (in_leaf-IsFine w s f fine rest))
  ]

  in_next-IsFine :
      (w : World) (ls : List String) (f : Node → Grown Node)
      → ((c : Node) → WentWell w (f c))
      → (kids : Leaves) → IsFine w (in_next ls f kids)
  unfolding in_next
  in_next-IsFine w [] f fine kids = tt
  in_next-IsFine w (s ∷ ls) f fine kids = in_leaf-IsFine w s f fine kids

  pick-WentWell :
      (w : World) (n : String) (hs : List ModeLock) (o : Option (Grown Leaves)) (stay : Grown Node)
      → IsFine w o
      → WentWell w stay
      → WentWell w (pick n hs o stay)
  unfolding pick
  pick-WentWell w n hs none stay found h = h
  pick-WentWell w n hs (some g) stay found h = found

  descend-WentWell :
      (ls : List String) (b : Bool) (cl : ModeLock) (t : Node) (w : World)
      → WentWell w (descend e ls true b cl t w)
  unfolding descend finish
  descend-WentWell [] b cl (node n hs kids) w = (refl, refl)
  descend-WentWell (l ∷ ls) b cl (node n hs kids) w = elim (Bool-cases (str_eq l n)) [
    | inl hit ↦ rw hit (
        pick-WentWell w n hs (in_next ls (λ leaf. descend e ls true false cl leaf w) kids)
          (descend e ls false (not (has_leaves kids)) cl (node n hs kids) w)
          (in_next-IsFine w ls _ (λ c. descend-WentWell ls false cl c w) kids)
          (stay-WentWell ls (not (has_leaves kids)) cl (node n hs kids) w))
    | inr miss ↦ rw miss (finish-WentWell (l ∷ ls) cl (node n hs kids) w)
  ]

  -- With memory, flom_resource_hier_add_locker does not fail.
  pub add_locker-WentWell :
      (ls : List String) (cl : ModeLock) (t : Node) (w : World)
      → WentWell w (add_locker e ls cl t w)
  unfolding add_locker
  add_locker-WentWell ls cl t w = descend-WentWell ls true cl t w

-- The answer `rc` at the next step of the connection.
abbrev pub IsAnswered : World → Conn → Outcome Hier → Rc → Type 0
IsAnswered w c o rc =
    (o.rc ≡ Rc.ok) × (o.reply ≡ some (record { step = w.last_step c + 8; rc = rc; element = none }))

request_added-reliable :
    (e : Env) (r : Hier) (uid : ℕ) (c : Conn) (g : Grown Node) (w : World)
    → IsReliable e
    → IsAnswerStep (w.last_step c + 8)
    → WentWell w g
    → IsAnswered w c (request_added e r uid c g) Rc.ok
      × ((request_added e r uid c g).resource ≡ record r { root = g.tree })
unfolding request_added emit
request_added-reliable e r uid c g w reliable h (ok, same) =
    let r' = record r { root = g.tree } in
    let step = sym (ap (λ f. f c) same) in
    let w' = emit (vfs_add_locker_conn uid c true) g.world in
    let answer =
      reply-reliable e reliable r' c Rc.ok none w' (subst (λ n. IsAnswerStep (n + 8)) step h) in
    rw (ok, answer)
      (
        (refl, ap (λ n. some (record { step = n + 8; rc = Rc.ok; element = none })) (sym step)),
        refl,
      )

-- With memory and a connection that awaits an answer, a request for a path that starts at the root is
-- granted, and a lock of the connection with the mode that it asked for is put in the tree at this path,
-- beside those that are there, if the lock table allows it beside each lock with a comparable path. Any
-- other request is put at the end of the queue, with its mode and its name, if the client waits, and else
-- is refused as busy. No other lock and no other field of the resource changes.
pub request_paths_replies :
    (split : Split) (e : Env) (r : Hier) (uid : ℕ) (c : Conn) (body : LockBody) (w : World)
    → IsReliable e
    → IsAnswerStep (w.last_step c + 8)
    → IsAt (levels split (some body.name)) r.root
    → let path = levels split (some body.name) in
      let o = request split e r uid c body w in
      let free = All (Tolerates path body.mode) (entries r.root) in
      (free
        → IsAnswered w c o Rc.ok
          × Perm (entries o.resource.root) (
              (path, record { info = body.mode; name = none; rollback = false; conn = c })
              ∷ entries r.root)
          × (o.resource ≡ record {
            name = r.name;
            root = o.resource.root;
            waitings = r.waitings;
            dangling = r.dangling;
          }))
      × (¬ free
          → body.wait ≡ true
          → IsAnswered w c o Rc.lock_enqueued
            × (o.resource ≡ record {
              name = r.name;
              root = r.root;
              waitings =
                  r.waitings
                  ++ record { info = body.mode; name = some body.name; rollback = false; conn = c }
                    ∷ [];
              dangling = r.dangling;
            }))
      × (¬ free → body.wait ≡ false → IsAnswered w c o Rc.lock_busy × (o.resource ≡ r))
unfolding request emit
request_paths_replies split e r uid c body w reliable h root = (
  λ free.
      let added =
        request_added-reliable e r uid c grown w reliable h
          (add_locker-WentWell e reliable path cl r.root w) in
      let (good, bad) = add_locker-Adds e path cl r.root w root in
      rw (taken free) (
        added.0,
        rw added.1 (good (add_locker-WentWell e reliable path cl r.root w).0),
        added.1 ∙ sym (ap (λ q. record r { root = q.root }) added.1),
      ),
  λ denied waits. ground (
    arith,
    cannot denied,
    reliable.mallocs w.log,
    reliable.strdups w.log,
    reliable.msg_frees w.log,
    reply-reliable e reliable (enqueue r (new_lock body.mode (some body.name) c)) c Rc.lock_enqueued
        none (emit (vfs_add_locker_conn uid c false) w) h,
  ),
  λ denied waits. ground (
    arith,
    cannot denied,
    reliable.strdups w.log,
    reliable.msg_frees w.log,
    reply-reliable e reliable r c Rc.lock_busy none w h,
  ),
)
  where
    path : List String
    path = levels split (some body.name)

    cl : ModeLock
    cl = new_lock body.mode none c

    grown : Grown Node
    grown = add_locker e path cl r.root w

    taken :
        All (Tolerates path body.mode) (entries r.root)
        → request split e r uid c body w ≡ request_added e r uid c grown
    taken free = ground (
      arith,
      (can_lock_paths_iff r.root body.mode path).1 free,
      reliable.mallocs w.log,
      reliable.strdups w.log,
      reliable.msg_frees w.log,
    )

    cannot :
        ¬ All (Tolerates path body.mode) (entries r.root) → can_lock r.root body.mode path ≡ false
    cannot denied = elim (Bool-cases (can_lock r.root body.mode path)) [
      | inl can ↦ absurd (denied ((can_lock_paths_iff r.root body.mode path).0 can))
      | inr no_lock ↦ no_lock
    ]
