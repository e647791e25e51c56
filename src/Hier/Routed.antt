-- ===== src/Hier/Routed.antt =====
-- What each function of src/flom_resource_hier.c keeps, if the paths that it is asked for start at the
-- root of the tree.
use text.Mathlib.Text.{◌==◌ as str_eq}
use flom.Prelude.{
  ℕ, ◌*◌, String, Bool, true, Option, none, some, List, [], ◌∷◌, ◌≡◌, ◌∙◌, sym, ap, subst, arith,
  inl, inr, Bool-cases, All, All-append,
}
use flom.Rsrc.Types.{Rc, Conn, Msg, lock, unlock, other_verb, LockBody, Answer, is_ok}
use flom.Rsrc.Env.{Env, World, build_answer, step_incr}
use flom.Rsrc.Holders.{All-remove_conn}
use flom.Rsrc.Scan.Rules.{After, scan-After, scan-All}
use flom.Rsrc.Calls.{Cleaned, reply, forget}
use flom.Rsrc.Calls.Answers.{forget_resource, release_msg_resource}
use flom.Simple.{ModeLock}
use flom.Hier.Tree.{Node, Grown, name_of, can_lock, add_locker, take_lock}
use flom.Hier.Entries.{entries}
use flom.Hier.Release.{Takes, entries-gc, take_lock-Takes}
use flom.Hier.Exclusive.{IsExclusive, add_locker-IsExclusive, Takes-IsExclusive}
use flom.Hier.Names.{KeepsName, name_of-add_locker, name_of-gc, take_lock-KeepsName}
use flom.Hier.{
  Hier, Split, levels, compare_name, change_name, new_lock, tell, grant_waiting, try_waiting,
  waitings, waitings-scan, clean_found, collect, clean, request_added, request, unlock_renamed,
  inmsg,
}

-- The root has the name `n`, and the locks of the tree can be held at once.
abbrev pub IsSafe : String → Node → Type 0
IsSafe n t = (name_of t ≡ n) × IsExclusive (entries t)

add_locker-IsSafe :
    (n : String) (e : Env) (l : String) (ls : List String) (cl : ModeLock) (t : Node) (w : World)
    → str_eq l n ≡ true
    → can_lock t cl.info (l ∷ ls) ≡ true
    → IsSafe n t
    → IsSafe n (add_locker e (l ∷ ls) cl t w).tree
add_locker-IsSafe n e l ls cl t w root allowed (name, h) = (
  name_of-add_locker e (l ∷ ls) cl t w ∙ name,
  add_locker-IsExclusive e (l ∷ ls) cl t w (ap (str_eq l) name ∙ root) allowed h,
)

module _ (split : Split) (n : String) where
  -- The path of a queued lock starts at the root.
  abbrev pub IsRouted : ModeLock → Type 0
  IsRouted cl = str_eq (split cl.name).0 n ≡ true

  tell-IsSafe :
      (e : Env) (r : Hier) (c : Conn) (w : World) (rc : Rc) (a : Option Answer)
      → IsSafe n r.root
      → After (λ s. IsSafe n s.0.root) (tell e r c w rc a)
  unfolding tell
  tell-IsSafe e r c w rc none h = h
  tell-IsSafe e r c w rc (some a) h = ground (arith, h)

  grant_waiting-IsSafe :
      (e : Env) (r : Hier) (c : Conn) (g : Grown Node)
      → IsSafe n g.tree
      → After (λ s. IsSafe n s.0.root) (grant_waiting e r c g)
  unfolding grant_waiting
  grant_waiting-IsSafe e r c g h =
      let b = build_answer e g.world.log (3 * step_incr) Rc.ok none in
      elim (Bool-cases (is_ok g.rc)) [
        | inl ok ↦ rw ok (tell-IsSafe e (record r { root = g.tree }) c g.world b.rc b.answer h)
        | inr bad ↦ rw bad h
      ]

  try_waiting-IsSafe :
      (e : Env) (s : Hier × World) (cl : ModeLock)
      → IsSafe n s.0.root
      → IsRouted cl
      → After (λ s. IsSafe n s.0.root) (try_waiting split e s cl)
  unfolding try_waiting
  try_waiting-IsSafe e (r, w) cl h root =
      elim (Bool-cases (can_lock r.root cl.info (levels split cl.name))) [
        | inl can ↦
            rw can (
              grant_waiting-IsSafe e r cl.conn _ (add_locker-IsSafe n e _ _ cl r.root w root can h))
        | inr cannot ↦ rw cannot h
      ]

  abbrev pub Inv : Hier → Type 0
  Inv r = IsSafe n r.root × All IsRouted r.waitings

  waitings-Inv : (e : Env) (r : Hier) (w : World) → Inv r → Inv (waitings split e r w).resource
  waitings-Inv e r w (h, q) = rw waitings-scan (
    scan-After (try_waiting split e) (λ s. IsSafe n s.0.root) IsRouted (try_waiting-IsSafe e) (r, w)
        r.waitings h q,
    scan-All (try_waiting split e) IsRouted (r, w) r.waitings q,
  )

  clean_found-Inv :
      (e : Env) (r : Hier) (c : Conn) (w : World) (o : Option (ModeLock × Node))
      → Takes c (entries r.root) o
      → KeepsName (name_of r.root) o
      → Inv r
      → Inv (clean_found split e r c w o).resource
  unfolding clean_found
  clean_found-Inv e r c w none t k (h, q) = (h, All-remove_conn IsRouted r.waitings c q)
  clean_found-Inv e r c w (some (cl, root)) t k ((name, h), q) =
      waitings-Inv e _ w ((k ∙ name, Takes-IsExclusive c (entries r.root) cl root t h), q)

  collect-Inv : (d : Cleaned Hier) → Inv d.resource → Inv (collect d).resource
  unfolding collect
  collect-Inv d ((name, h), q) = elim (Bool-cases (is_ok d.rc)) [
    | inl ok ↦ rw ok (
      (name_of-gc d.resource.root ∙ name, subst IsExclusive (sym (entries-gc d.resource.root)) h),
      q,
    )
    | inr bad ↦ rw bad ((name, h), q)
  ]

  pub clean-Inv :
      (e : Env) (r : Hier) (uid : ℕ) (c : Conn) (w : World)
      → Inv r
      → Inv (clean split e r uid c w).resource
  unfolding clean
  clean-Inv e r uid c w h =
      let o = take_lock c (levels split r.name) r.root in
      collect-Inv (forget c (clean_found split e r c w o)) (
        rw forget_resource (
          clean_found-Inv e r c w o (take_lock-Takes c (levels split r.name) r.root)
            (take_lock-KeepsName c (levels split r.name) r.root) h))

  request_added-Inv :
      (e : Env) (r : Hier) (uid : ℕ) (c : Conn) (g : Grown Node)
      → IsSafe n g.tree
      → All IsRouted r.waitings
      → Inv (request_added e r uid c g).resource
  unfolding request_added reply
  request_added-Inv e r uid c g h q = ground (arith, h, q)

  request-Inv :
      (e : Env) (r : Hier) (uid : ℕ) (c : Conn) (body : LockBody) (w : World)
      → str_eq (split (some body.name)).0 n ≡ true
      → Inv r
      → Inv (request split e r uid c body w).resource
  unfolding request reply
  request-Inv e r uid c body w root (h, q) =
      let path = levels split (some body.name) in
      let cl = new_lock body.mode none c in
      let added : can_lock r.root body.mode path ≡ true
          → Inv (request_added e r uid c (add_locker e path cl r.root w)).resource =
        λ can.
          request_added-Inv e r uid c (add_locker e path cl r.root w)
            (add_locker-IsSafe n e _ _ cl r.root w root can h) q in
      let queued =
        All-append IsRouted r.waitings (new_lock body.mode (some body.name) c ∷ []) q (root, tt) in
      ground (arith, added, queued, h, q)

  change_name-Inv :
      (e : Env) (w : World) (r : Hier) (name : String) → Inv r → Inv (change_name e w r name).1
  unfolding change_name
  change_name-Inv e w r name h = ground (arith, h)

  unlock_renamed-Inv :
      (e : Env) (uid : ℕ) (c : Conn) (w : World) (x : Rc × Hier)
      → Inv x.1
      → Inv (unlock_renamed split e uid c w x).resource
  unfolding unlock_renamed
  unlock_renamed-Inv e uid c w (rc, r) h = elim (Bool-cases (is_ok rc)) [
    | inl ok ↦ rw (ok, release_msg_resource) (clean-Inv e r uid c w h)
    | inr bad ↦ rw bad h
  ]

  -- The path of a lock message starts at the root.
  abbrev pub IsRoutedMsg : Msg → Type 0
  IsRoutedMsg (lock body) = str_eq (split (some body.name)).0 n ≡ true
  IsRoutedMsg (unlock body) = Unit
  IsRoutedMsg (other_verb v) = Unit

  pub inmsg-Inv :
      (starts : String → Bool) (e : Env) (r : Hier) (uid : ℕ) (c : Conn) (msg : Msg) (w : World)
      → IsRoutedMsg msg
      → Inv r
      → Inv (inmsg split starts e r uid c msg w).resource
  unfolding inmsg
  inmsg-Inv starts e r uid c (lock body) w root h = request-Inv e r uid c body w root h
  inmsg-Inv starts e r uid c (unlock body) w root h =
      elim (Bool-cases (compare_name split starts r body.name)) [
        | inl same ↦ rw same (
            unlock_renamed-Inv e uid c w (change_name e w r body.name)
              (change_name-Inv e w r body.name h))
        | inr other ↦ rw other h
      ]
  inmsg-Inv starts e r uid c (other_verb v) w root h = h
