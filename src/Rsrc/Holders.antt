-- ===== src/Rsrc/Holders.antt =====
-- Searching and removing lock records by their connection, as the `clean` functions do it.
use mathlib.Core.List.{Perm}
use mathlib.Core.List.Perm
use flom.Prelude.{
  ◌==◌, ==_iff, Bool-cases, inl, inr, map, ◌≡◌, if◌then◌else◌, Option, none, some, List, [], ◌∷◌,
  arith, All, subst, length, ◌≤◌, suc,
}
use flom.Rsrc.Types.{Conn, ConnLock}

module _ {ℓ} {A : Type ℓ} where
  -- flom_rsrc_conn_find, and the loop that the older resources repeat in place of it
  unfoldable pub find_conn : List (ConnLock A) → Conn → Option (ConnLock A)
  find_conn [] c = none
  find_conn (cl ∷ rest) c = if cl.conn == c then some cl else find_conn rest c

  -- g_slist_remove of the record found, and the peek and pop loop over the waiting queue: the first
  -- record of the connection goes, if there is one
  unfoldable pub remove_conn : List (ConnLock A) → Conn → List (ConnLock A)
  remove_conn [] c = []
  remove_conn (cl ∷ rest) c = if cl.conn == c then rest else cl ∷ remove_conn rest c

  pub All-remove_conn {κ} :
      (P : ConnLock A → Type κ) (xs : List (ConnLock A)) (c : Conn)
      → All P xs
      → All P (remove_conn xs c)
  unfolding remove_conn
  All-remove_conn P [] c h = tt
  All-remove_conn P (x ∷ xs) c h = ground (arith, All-remove_conn P xs c h.1)

  pub find_conn-All {κ} :
      (P : ConnLock A → Type κ) (xs : List (ConnLock A)) (c : Conn) (cl : ConnLock A)
      → find_conn xs c ≡ some cl
      → All P xs
      → P cl
  unfolding find_conn
  find_conn-All P [] c cl h q = cc
  find_conn-All P (x ∷ xs) c cl h q = elim (Bool-cases (x.conn == c)) [
    | inl hit ↦ subst P (ground arith) q.0
    | inr miss ↦ find_conn-All P xs c cl (rw miss at h) q.1
  ]

  pub length-remove_conn :
      (xs : List (ConnLock A)) (c : Conn) → length (remove_conn xs c) ≤ length xs
  unfolding remove_conn
  length-remove_conn [] c = omega arith
  length-remove_conn (x ∷ xs) c = ground (arith, length-remove_conn xs c)

  pub length-remove_conn-found :
      (xs : List (ConnLock A)) (c : Conn) (cl : ConnLock A)
      → find_conn xs c ≡ some cl
      → suc (length (remove_conn xs c)) ≡ length xs
  unfolding find_conn remove_conn
  length-remove_conn-found [] c cl h = cc
  length-remove_conn-found (x ∷ xs) c cl h = ground (arith, h, length-remove_conn-found xs c cl)

  abbrev pub conns_of : List (ConnLock A) → List Conn
  conns_of = map λ cl. cl.conn

  -- Exactly the record that is found goes.
  pub remove_conn-perm :
      (xs : List (ConnLock A)) (c : Conn) (cl : ConnLock A)
      → find_conn xs c ≡ some cl
      → Perm (c ∷ conns_of (remove_conn xs c)) (conns_of xs)
  unfolding find_conn remove_conn
  remove_conn-perm [] c cl h = cc
  remove_conn-perm (x ∷ xs) c cl h = elim (Bool-cases (x.conn == c)) [
    | inl hit ↦ rw hit (rw ((==_iff x.conn c).0 hit) (Perm.refl _))
    | inr miss ↦ rw miss (
        Perm.trans (Perm.swap x.conn c _)
          (Perm.cons x.conn (remove_conn-perm xs c cl (rw miss at h))))
  ]
