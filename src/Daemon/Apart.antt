-- ===== src/Daemon/Apart.antt =====
-- The resources of the lockers in the array of src/flom_daemon.c, and the search for one of them.
use flom.Prelude.{
  ℕ, zero, suc, ◌≡◌, refl, subst, Bool, true, false, Bool-cases, inl, inr, ◌&&◌, none, some,
  Option-cases, List, [], ◌∷◌, ◌++◌, All, All-append, All-imp, arith,
}
use flom.Rsrc.Types.{Rc}
use flom.Msg.{Bytes}
use flom.Daemon.{
  Client, Locker, modify, check_lockers, check_locker, Checked, find_locker, is_open, sent_to,
  close_write, is_idle,
}
use flom.Daemon.Threads.{LockerStep, locker_step}
use flom.Daemon.Arrays.{OpenAt, modify-All, check_lockers-All}

-- A change of a locker that keeps its name and opens no pipe
pub record IsTame (f : Locker → Locker) : Type 0 where
  pub names : (l : Locker) → (f l).name ≡ l.name
  pub opens : (l : Locker) → is_open (f l) ≡ true → is_open l ≡ true

pub sent_to-IsTame : (c : Client) → IsTame (sent_to c)
sent_to-IsTame c = record { names = λ l. refl; opens = λ l o. o }

pub close_write-IsTame : IsTame close_write
close_write-IsTame = record { names = λ l. refl; opens = λ l o. let no : false ≡ true = o in cc }

locker_step-names : (s : LockerStep) (l : Locker) → (locker_step s l).name ≡ l.name
unfolding locker_step
locker_step-names s l = ground arith

locker_step-opens :
    (s : LockerStep) (l : Locker) → is_open (locker_step s l) ≡ true → is_open l ≡ true
unfolding locker_step
locker_step-opens s l h = ground (arith, h)

pub locker_step-IsTame : (s : LockerStep) → IsTame (locker_step s)
locker_step-IsTame s = record { names = locker_step-names s; opens = locker_step-opens s }

module _ (covers : Bytes → Bytes → Bool) where
  -- An open locker does not have the resource of a later one.
  abbrev pub Free : Locker → Locker → Type 0
  Free l later = is_open l ≡ true → covers l.name later.name ≡ false

  unfoldable pub Apart : List Locker → Type 0
  Apart [] = Unit
  Apart (l ∷ ls) = All (Free l) ls × Apart ls

  module _ (f : Locker → Locker) (tame : IsTame f) where
    pub modify-Apart : (i : ℕ) (ls : List Locker) → Apart ls → Apart (modify i f ls)
    unfolding modify Apart
    modify-Apart i [] h = tt
    modify-Apart zero (l ∷ ls) h = (
      All-imp (Free l) (Free (f l)) (λ n free o. rw (tame.names l) (free (tame.opens l o))) ls h.0,
      h.1,
    )
    modify-Apart (suc i) (l ∷ ls) h = (
      modify-All (Free l) f (λ n free o. rw (tame.names n) (free o)) i ls h.0,
      modify-Apart i ls h.1,
    )

  check_locker-Apart :
      (l : Locker) (ls : List Locker) (rest : Rc × Checked) (idle write read close : Bool)
      → Apart (l ∷ ls)
      → All (Free l) rest.1.lockers
      → Apart rest.1.lockers
      → Apart (check_locker l ls rest idle write read close).1.lockers
  unfolding check_locker Apart
  check_locker-Apart l ls rest false write read close h f a = (f, a)
  check_locker-Apart l ls rest true true read true h f a = (
    All-imp (Free l) (Free (close_write l)) (λ n free o. let no : false ≡ true = o in cc)
        rest.1.lockers f,
    a,
  )
  check_locker-Apart l ls rest true true read false h f a = h
  check_locker-Apart l ls rest true false true close h f a = (f, a)
  check_locker-Apart l ls rest true false false close h f a = h.1

  pub check_lockers-Apart :
      (close : ℕ → Bool) (ls : List Locker) → Apart ls → Apart (check_lockers close ls).1.lockers
  unfolding check_lockers Apart
  check_lockers-Apart close [] h = tt
  check_lockers-Apart close (l ∷ ls) h =
      check_locker-Apart l ls (check_lockers close ls) (is_idle l) l.write_open l.read_open
        (close l.uid) h (check_lockers-All (Free l) (λ n e free. free) close ls h.0)
        (check_lockers-Apart close ls h.1)

  pub Apart-append :
      (ls : List Locker) (n : Locker) → All (λ l. Free l n) ls → Apart ls → Apart (ls ++ n ∷ [])
  unfolding Apart
  Apart-append [] n f h = (tt, tt)
  Apart-append (l ∷ ls) n f h =
      (All-append (Free l) ls (n ∷ []) h.0 (f.0, tt), Apart-append ls n f.1 h.1)

  -- What the search finds and does not find
  pub find_locker-OpenAt :
      (ls : List Locker) (name : Bytes) (i : ℕ) → find_locker covers ls name ≡ some i → OpenAt i ls
  unfolding find_locker OpenAt
  find_locker-OpenAt [] name i h = cc
  find_locker-OpenAt (l ∷ ls) name i h = elim (Bool-cases (is_open l && covers l.name name)) [
    | inl hit ↦
        let first = rw hit at h in
        let place : 0 ≡ i = ground (arith, first) in
        let live : is_open l ≡ true = ground (arith, hit) in
        subst (λ j. OpenAt j (l ∷ ls)) place live
    | inr miss ↦ elim (Option-cases (find_locker covers ls name)) [
      | inl missing ↦ let no = rw (miss, missing) at h in cc
      | inr (j, found) ↦
          let later = rw (miss, found) at h in
          let place : suc j ≡ i = ground (arith, later) in
          subst (λ k. OpenAt k (l ∷ ls)) place (find_locker-OpenAt ls name j found)
    ]
  ]

  pub find_locker-none :
      (ls : List Locker) (name : Bytes)
      → find_locker covers ls name ≡ none
      → All (λ l. is_open l ≡ true → covers l.name name ≡ false) ls
  unfolding find_locker
  find_locker-none [] name h = tt
  find_locker-none (l ∷ ls) name h = elim (Bool-cases (is_open l && covers l.name name)) [
    | inl hit ↦ let no = rw hit at h in cc
    | inr miss ↦ elim (Option-cases (find_locker covers ls name)) [
      | inl missing ↦ (λ o. ground (arith, miss, o), find_locker-none ls name missing)
      | inr (j, found) ↦ let no = rw (miss, found) at h in cc
    ]
  ]
