-- ===== src/Sequence/Release.antt =====
-- What the end of a lock does to the values in circulation: its value is rolled back, or goes out of use.
use mathlib.Core.List.{Perm, perm_append_singleton, append_assoc}
use mathlib.Core.List.Perm
use flom.Prelude.{
  ℕ, ◌≡◌, refl, inl, inr, Bool-cases, Bool, ◌==◌, true, false, Option, none, some, List, [], ◌∷◌,
  ◌++◌, map, arith,
}
use flom.Rsrc.Types.{Conn}
use flom.Rsrc.Holders.{find_conn, remove_conn}
use flom.Sequence.{Sequence, ValueLock, push_rolled_back, let_go}
use flom.Sequence.Values.{Sound, Sound-perm, Sound-tail, rolled, values}

abbrev pub infos : List ValueLock → List ℕ
infos = map λ cl. cl.info

infos-remove_conn-perm :
    (xs : List ValueLock) (c : Conn) (cl : ValueLock)
    → find_conn xs c ≡ some cl
    → Perm (infos xs) (cl.info ∷ infos (remove_conn xs c))
unfolding find_conn remove_conn
infos-remove_conn-perm [] c cl h = cc
infos-remove_conn-perm (x ∷ xs) c cl h = elim (Bool-cases (x.conn == c)) [
  | inl hit ↦ let e : x.info ≡ cl.info = ground arith in rw (hit, e) (Perm.refl _)
  | inr miss ↦ rw miss (
      Perm.trans (Perm.cons x.info (infos-remove_conn-perm xs c cl (rw miss at h)))
        (Perm.swap cl.info x.info _))
]

-- The value of a lock that ends goes to the rolled back ones, or out of use.
module _ (b : ℕ) (r : Sequence) (c : Conn) (cl : ValueLock)
    (found : find_conn r.holders c ≡ some cl) where
  gone :
      (o : Option (List ℕ))
      → Sound b r.next_value (infos r.holders ++ rolled o)
      → Sound b r.next_value (cl.info ∷ infos (remove_conn r.holders c) ++ rolled o)
  gone o s =
      Sound-perm b _
        (Perm.symm (Perm.append_right (rolled o) (infos-remove_conn-perm r.holders c cl found))) s

  push_rolled_back-Sound :
      (o : Option (List ℕ)) (rollback : Bool)
      → cl.rollback ≡ rollback
      → Sound b r.next_value (infos r.holders ++ rolled o)
      → Sound b r.next_value (infos (remove_conn r.holders c) ++ rolled (push_rolled_back o cl))
  unfolding push_rolled_back
  push_rolled_back-Sound none rollback e s = Sound-tail b _ cl.info _ (gone none s)
  push_rolled_back-Sound (some vs) true e s = rw e (
      Sound-perm b _
        (rw (← append_assoc (infos (remove_conn r.holders c)) vs (cl.info ∷ []))
          (perm_append_singleton cl.info _))
        (gone (some vs) s))
  push_rolled_back-Sound (some vs) false e s = rw e (Sound-tail b _ cl.info _ (gone (some vs) s))

  pub let_go-Sound :
      Sound b r.next_value (values r) → Sound b (let_go r c cl).next_value (values (let_go r c cl))
  unfolding let_go
  let_go-Sound s = push_rolled_back-Sound r.rolled_back cl.rollback refl s
