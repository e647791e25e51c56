-- ===== src/Daemon/Working.antt =====
-- The start of a locker where the calls in it succeed (src/flom_daemon.c).
use flom.Prelude.{
  ℕ, zero, suc, ◌<◌, ◌≡◌, refl, sym, ap, ◌∙◌, Bool, true, Bool-cases, inl, inr, ◌&&◌, List, [], ◌∷◌,
  ◌++◌, append_assoc, append-nil, length, arith,
}
use flom.Rsrc.Types.{Rc, is_ok, Conn}
use flom.Rsrc.Names.{RsrcType}
use flom.Msg.{Bytes}
use flom.Conns.{refill}
use flom.Conns.Sweep.{remove_index_fast-append, length-refill}
use flom.Daemon.{
  Client, Daemon, Calls, Done, transfer_conn, scan_incubator, started, start_rc, transfer_new,
}
use flom.Daemon.Sane.{delivered, scan_end, scan_skips, scan_moves}

-- All calls that start a locker and hand connections to it succeed.
pub record IsWorking (k : Calls) : Type 0 where
  pub resource : is_ok k.resource_init ≡ true
  pub pipes : k.pipe ≡ true
  pub threads : k.thread_new ≡ true
  pub tokens : (conn : Conn) → k.write_token conn ≡ true
  pub conns : (conn : Conn) → k.write_conn conn ≡ true

module _ (covers : Bytes → Bytes → Bool) (type_of : Bytes → RsrcType) (k : Calls)
    (works : IsWorking k) where
  transfer_conn-works : (d : Daemon) (id n : ℕ) (c : Client) → (transfer_conn k d id n c).rc ≡ Rc.ok
  unfolding transfer_conn
  transfer_conn-works d id n c = rw (works.tokens c.conn, works.conns c.conn) refl

  start_rc-works : start_rc covers k ≡ Rc.ok
  unfolding start_rc
  start_rc-works = rw (works.resource, works.pipes, works.threads) refl

  scan-works :
      (n : ℕ) (name : Bytes) (fuel : ℕ) (seen rest : List Client) (d : Daemon)
      → d.conns ≡ seen ++ rest
      → length rest < fuel
      → (scan_incubator covers k n fuel name (length seen) d).rc ≡ Rc.ok
  unfolding scan_incubator
  scan-works n name zero seen rest d e h = absurd (omega (arith, h))
  scan-works n name (suc fuel) seen [] d e h =
      let whole : d.conns ≡ seen = e ∙ append-nil seen in
      ap (λ (r : Done). r.rc) (scan_end covers type_of k n name fuel seen d whole)
  scan-works n name (suc fuel) seen (c ∷ rest) d e h =
      elim (Bool-cases (c.wait && covers name c.wish.name)) [
        | inr left ↦
            ap (λ (r : Done). r.rc) (scan_skips covers type_of k n name fuel seen rest c d e left)
            ∙ scan-works n name fuel (seen ++ c ∷ []) rest d
                (e ∙ sym (append_assoc seen (c ∷ []) rest)) (omega (arith, h))
        | inl goes ↦
            let written = transfer_conn-works d (length seen) n c in
            ap (λ (r : Done). r.rc)
              (scan_moves covers type_of k n name fuel seen rest c d e goes written)
            ∙ scan-works n name fuel seen (refill rest) (delivered d (length seen) n c)
                (rw e (remove_index_fast-append seen rest c)) (rw length-refill (omega (arith, h)))
      ]

  pub transfer_new-works :
      (d : Daemon) (id : ℕ) (c : Client) → (transfer_new covers k d id c).rc ≡ Rc.ok
  unfolding transfer_new
  transfer_new-works d id c =
      let given = transfer_conn k (started covers d c.wish.name) id (length d.lockers) c in
      let sent = transfer_conn-works (started covers d c.wish.name) id (length d.lockers) c in
      rw (works.resource, start_rc-works, sent)
        (scan-works (length d.lockers) c.wish.name (suc (length given.daemon.conns)) []
          given.daemon.conns given.daemon refl (omega arith))
