-- ===== src/Daemon/Gathering.antt =====
-- The scan of the incubator by flom_accept_loop_transfer of src/flom_daemon.c.
use mathlib.Core.List.{Mem, mem-append_left, mem-append_right, mem-cons_self}
use flom.Prelude.{
  ℕ, zero, suc, ◌<◌, ◌≡◌, ◌≢◌, refl, sym, ap, subst, ◌∙◌, Bool, true, false, Bool-cases, inl, inr,
  ◌&&◌, Option, none, some, List, [], ◌∷◌, ◌++◌, append_assoc, append-nil, length, get_elem?, All,
  if-cases, arith,
}
use flom.Rsrc.Types.{Rc, is_ok}
use flom.Rsrc.Names.{RsrcType}
use flom.Msg.{Bytes}
use flom.Conns.{remove_index_fast, refill}
use flom.Conns.Sweep.{remove_index_fast-append, length-refill}
use flom.Daemon.{
  Client, Locker, Daemon, Calls, Done, ends, modify, transfer, transfer_conn, find_locker, sent_to,
  scan_incubator, new_locker, started, start_rc, transfer_new, transfer_absent,
}
use flom.Daemon.Arrays.{All-of_refill, All-others, OpenAt, sent_to-OpenAt, new-OpenAt}
use flom.Daemon.Working.{IsWorking, transfer_new-works}
use flom.Daemon.Sane.{
  delivered, transfer_conn-delivered, is_ok-ok, scan_end, scan_skips, scan-written, scan_moves,
}

-- A connection is in the pipe of the locker at a place.
unfoldable pub InPipe : ℕ → Client → List Locker → Type 0
InPipe i c [] = ⊥
InPipe zero c (l ∷ ls) = Mem c l.pipe
InPipe (suc i) c (l ∷ ls) = InPipe i c ls

sent_to-InPipe :
    (c : Client) (i : ℕ) (ls : List Locker) → OpenAt i ls → InPipe i c (modify i (sent_to c) ls)
unfolding InPipe OpenAt modify
sent_to-InPipe c i [] o = o
sent_to-InPipe c zero (l ∷ ls) o = mem-append_right l.pipe mem-cons_self
sent_to-InPipe c (suc i) (l ∷ ls) o = sent_to-InPipe c i ls o

sent_to-keeps :
    (c x : Client) (i : ℕ) (ls : List Locker) → InPipe i x ls → InPipe i x (modify i (sent_to c) ls)
unfolding InPipe modify
sent_to-keeps c x i [] h = h
sent_to-keeps c x zero (l ∷ ls) h = mem-append_left (c ∷ []) h
sent_to-keeps c x (suc i) (l ∷ ls) h = sent_to-keeps c x i ls h

module _ (covers : Bytes → Bytes → Bool) (type_of : Bytes → RsrcType) (k : Calls) (n : ℕ)
    (name : Bytes) where
  abbrev Takes : Daemon → Client → Type 0
  Takes d c = (c.wait && covers name c.wish.name) ≡ true → InPipe n c d.lockers

  -- A result has those of a list that the locker takes, and those that it had.
  abbrev Gathers : List Client → Daemon → Done → Type 0
  Gathers list d r =
      All (Takes r.daemon) list
      × ((x : Client) → InPipe n x d.lockers → InPipe n x r.daemon.lockers)

  scan-Gathers :
      (fuel : ℕ) (seen rest : List Client) (d : Daemon)
      → d.conns ≡ seen ++ rest
      → length rest < fuel
      → OpenAt n d.lockers
      → let r = scan_incubator covers k n fuel name (length seen) d in
        r.rc ≡ Rc.ok → Gathers rest d r
  unfolding scan_incubator
  scan-Gathers zero seen rest d e h o fine = absurd (omega (arith, h))
  scan-Gathers (suc fuel) seen [] d e h o fine =
      let whole : d.conns ≡ seen = e ∙ append-nil seen in
      rw (scan_end covers type_of k n name fuel seen d whole) (tt, λ x p. p)
  scan-Gathers (suc fuel) seen (c ∷ rest) d e h o fine =
      elim (Bool-cases (c.wait && covers name c.wish.name)) [
        | inr left ↦
            let next = scan_skips covers type_of k n name fuel seen rest c d e left in
            let later =
              scan-Gathers fuel (seen ++ c ∷ []) rest d (e ∙ sym (append_assoc seen (c ∷ []) rest))
                (omega (arith, h)) o (rw next at fine) in
            subst (Gathers (c ∷ rest) d) (sym next) ((λ goes. absurd (cc), later.0), later.1)
        | inl goes ↦
            let written = scan-written covers type_of k n name fuel seen rest c d e goes fine in
            let next = scan_moves covers type_of k n name fuel seen rest c d e goes written in
            let d' = delivered d (length seen) n c in
            let later =
              scan-Gathers fuel seen (refill rest) d' (rw e (remove_index_fast-append seen rest c))
                (rw length-refill (omega (arith, h))) (sent_to-OpenAt c n d.lockers o)
                (rw next at fine) in
            subst (Gathers (c ∷ rest) d) (sym next) (
              (
                λ goes. later.1 c (sent_to-InPipe c n d.lockers o),
                All-of_refill (Takes (scan_incubator covers k n fuel name (length seen) d').daemon)
                    rest later.0,
              ),
              λ x p. later.1 x (sent_to-keeps c x n d.lockers p),
            )
      ]

module _ (covers : Bytes → Bytes → Bool) (type_of : Bytes → RsrcType) (k : Calls) (d : Daemon)
    (id : ℕ) (c : Client) where
  -- The new locker has the connection, and the others that wait for its resource.
  abbrev Serves : Done → Type 0
  Serves r =
      r.rc ≡ Rc.ok
      → InPipe (length d.lockers) c r.daemon.lockers
        × All (Takes covers type_of k (length d.lockers) c.wish.name r.daemon)
            (remove_index_fast d.conns id)

  fails : (r : Done) → is_ok r.rc ≡ false → Serves r
  fails r bad fine = let no : is_ok r.rc ≡ true = rw fine refl in absurd (cc)

  scan-Serves :
      let n = length d.lockers in
      let r = transfer_conn k (started covers d c.wish.name) id n c in
      r.rc ≡ Rc.ok
      → Serves (scan_incubator covers k n (suc (length r.daemon.conns)) c.wish.name 0 r.daemon)
  scan-Serves well fine =
      let name = c.wish.name in
      let n = length d.lockers in
      let begun = started covers d name in
      let next = transfer_conn-delivered k begun id n c well in
      let live = new-OpenAt (new_locker covers (suc d.last_uid) name) d.lockers refl in
      let r = delivered begun id n c in
      let g =
        scan-Gathers covers type_of k n name (suc (length r.conns)) [] r.conns r refl (omega arith)
          (sent_to-OpenAt c n begun.lockers live) (rw next at fine) in
      rw next (g.1 c (sent_to-InPipe c n begun.lockers live), g.0)

  transfer_new-Serves : is_ok k.resource_init ≡ true → Serves (transfer_new covers k d id c)
  unfolding transfer_new
  transfer_new-Serves born =
      if-cases Serves (is_ok k.resource_init) _ _
        (λ e.
          if-cases Serves (is_ok (start_rc covers k)) _ _
            (λ begun.
              if-cases Serves _ _ _ (λ well. scan-Serves (is_ok-ok _ well))
                (λ lost.
                  fails (transfer_conn k (started covers d c.wish.name) id (length d.lockers) c)
                    lost))
            (λ failed.
              fails (ends (start_rc covers k) (record d { last_uid = suc d.last_uid })) failed))
        (λ unborn. let no = rw born at unborn in absurd (cc))

  absent-new :
      c.wish.create ≡ true
      → (transfer_absent covers k d id c).rc ≡ (transfer_new covers k d id c).rc
  unfolding transfer_absent
  absent-new creates =
      if-cases (λ (r : Done). r.rc ≡ (transfer_new covers k d id c).rc) c.wish.create _ _
        (λ e. refl) (λ uses. let no : true ≡ false = rw⁻¹ creates uses in absurd (cc))

  absent-Serves :
      c.wish.create ≡ true → is_ok k.resource_init ≡ true → Serves (transfer_absent covers k d id c)
  unfolding transfer_absent
  absent-Serves creates born =
      if-cases Serves c.wish.create _ _ (λ e. transfer_new-Serves born)
        (λ uses. let no : true ≡ false = rw⁻¹ creates uses in absurd (cc))

  abbrev found_or_not : Option ℕ → Done
  found_or_not found = elim found [
    | some i ↦ transfer_conn k d id i c
    | none ↦ transfer_absent covers k d id c
  ]

  by_type : RsrcType → Done
  by_type t = elim t [
    | RsrcType.null ↦ ends k.reply d
    | _ ↦ found_or_not (find_locker covers d.lockers c.wish.name)
  ]

  by_type-other :
      (t : RsrcType)
      → t ≢ RsrcType.null
      → by_type t ≡ found_or_not (find_locker covers d.lockers c.wish.name)
  unfolding by_type
  by_type-other RsrcType.null other = absurd (other refl)
  by_type-other _ other = refl

  transfer-absent :
      type_of c.wish.name ≢ RsrcType.null
      → find_locker covers d.lockers c.wish.name ≡ none
      → transfer covers type_of k d id c ≡ transfer_absent covers k d id c
  unfolding transfer by_type
  transfer-absent typed missing =
      by_type-other (type_of c.wish.name) typed ∙ ap found_or_not missing

-- A lock request that may create its resource, where no locker that is not terminating has it and the
-- calls succeed: flom_accept_loop_transfer returns FLOM_RC_OK, and the pipe of the new locker, behind all
-- others in the array, has the connection, and each other connection of the main thread that waited for
-- the resource, were its socket closed or not.
pub transfer-gathers :
    (covers : Bytes → Bytes → Bool) (type_of : Bytes → RsrcType) (k : Calls) (d : Daemon) (id j : ℕ)
    (c other : Client)
    → type_of c.wish.name ≢ RsrcType.null
    → find_locker covers d.lockers c.wish.name ≡ none
    → c.wish.create ≡ true
    → IsWorking k
    → get_elem? d.conns j ≡ some other
    → j ≢ id
    → other.wait ≡ true
    → covers c.wish.name other.wish.name ≡ true
    → let r = transfer covers type_of k d id c in
      (r.rc ≡ Rc.ok)
      × InPipe (length d.lockers) c r.daemon.lockers
      × InPipe (length d.lockers) other r.daemon.lockers
transfer-gathers covers type_of k d id j c other typed missing creates works there elsewhere waits
      wanted =
    let e = transfer-absent covers type_of k d id c typed missing in
    let fine =
      absent-new covers type_of k d id c creates
      ∙ transfer_new-works covers type_of k works d id c in
    let r = transfer_absent covers k d id c in
    let s = absent-Serves covers type_of k d id c creates works.resource fine in
    subst
      (λ (r : Done).
        (r.rc ≡ Rc.ok)
        × InPipe (length d.lockers) c r.daemon.lockers
        × InPipe (length d.lockers) other r.daemon.lockers)
      (sym e)
      (
        fine,
        s.0,
        All-others (Takes covers type_of k (length d.lockers) c.wish.name r.daemon) d.conns id j
            other s.1 there elsewhere (ground (arith, waits, wanted)),
      )
