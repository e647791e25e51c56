-- ===== src/Sequence/Slots.antt =====
-- The slots of a sequence: as many are locked as there are holders, and never more than there are.
use flom.Prelude.{
  ℕ, suc, ◌≡◌, refl, inl, inr, Bool-cases, Option-cases, Bool, true, Option, none, some, List, [],
  ◌∷◌, arith, length, subst, ◌++◌, String,
}
use flom.Prelude.Int.{ℤ, pos, ◌+ℤ◌, ◌-ℤ◌, ◌≤ℤ◌, ltb_ℤ, int_laws, +ℤ_parts, -ℤ_parts}
use flom.Rsrc.Types.{Rc, is_ok, Conn, Msg, lock, unlock, other_verb, LockBody}
use flom.Rsrc.Env.{Env, World}
use flom.Rsrc.Holders.{find_conn, length-remove_conn-found}
use flom.Rsrc.Scan.Rules.{After, scan-After, units}
use flom.Rsrc.Calls.{Call, call, run, run-induction, message, closed, reply, reply_then, created}
use flom.Rsrc.Calls.Answers.{forget_resource, release_msg_resource}
use flom.Rsrc.Names.{RsrcType}
use flom.Sequence.{
  Sequence, ValueLock, init, init_number, can_lock, get, fresh, take_back, hold, new_lock,
  new_waiting, let_go, set_rollback, grant_waiting, try_waiting, waitings, waitings-scan,
  clean_found, clean, request, unlock_found, inmsg, methods,
}

abbrev pub IsNat : ℤ → Type 0
IsNat q = pos 0 ≤ℤ q

pub record IsCounted (r : Sequence) : Type 0 where
  pub counted : r.locked_quantity ≡ pos (length r.holders)
  pub within : r.locked_quantity ≤ℤ r.total_quantity

-- What `get` leaves as it is.
pub locked-get : (r : Sequence) → (get r).1.locked_quantity ≡ r.locked_quantity
unfolding get take_back fresh
locked-get r = ground arith

pub total-get : (r : Sequence) → (get r).1.total_quantity ≡ r.total_quantity
unfolding get take_back fresh
total-get r = ground arith

holders-get : (r : Sequence) → (get r).1.holders ≡ r.holders
unfolding get take_back fresh
holders-get r = ground arith

get-IsCounted : (r : Sequence) → IsCounted r → IsCounted (get r).1
get-IsCounted r v = record {
  counted = rw (locked-get, holders-get) v.counted;
  within = rw (locked-get, total-get) v.within;
}

count_one_more : (q : ℤ) (n : ℕ) → q ≡ pos n → q +ℤ pos 1 ≡ pos (suc n)
count_one_more q n h = rw h (omega int_laws)

count_one_less : (q : ℤ) (n : ℕ) → q ≡ pos (suc n) → q -ℤ pos 1 ≡ pos n
count_one_less q n h = rw h (omega int_laws)

room_for_one :
    (total locked : ℤ) → ltb_ℤ (pos 0) (total -ℤ locked) ≡ true → locked +ℤ pos 1 ≤ℤ total
room_for_one total locked h = ground (arith, +ℤ_parts locked (pos 1), -ℤ_parts total locked, h)

hold-IsCounted :
    (r : Sequence) (cl : ValueLock)
    → can_lock r ≡ true
    → IsCounted r
    → IsCounted (hold (get r).1 cl)
unfolding can_lock
hold-IsCounted r cl can v = record {
  counted = rw (locked-get, holders-get) (count_one_more r.locked_quantity _ v.counted);
  within = rw (locked-get, total-get) (room_for_one r.total_quantity r.locked_quantity can);
}

let_go-IsCounted :
    (r : Sequence) (c : Conn) (cl : ValueLock)
    → find_conn r.holders c ≡ some cl
    → IsCounted r
    → IsCounted (let_go r c cl)
unfolding let_go
let_go-IsCounted r c cl found v = record {
  counted =
      count_one_less r.locked_quantity _
        (rw (length-remove_conn-found r.holders c cl found) v.counted);
  within = omega (int_laws, v.within);
}

grant_waiting-IsCounted :
    (uid : ℕ) (r : Sequence) (cl : ValueLock) (element : String) (n : Rc × World)
    → can_lock r ≡ true
    → IsCounted r
    → After (λ s. IsCounted s.0) (grant_waiting uid (get r).1 cl element n)
unfolding grant_waiting
grant_waiting-IsCounted uid r cl element (rc, w) can v = elim (Bool-cases (is_ok rc)) [
  | inl fine ↦ rw fine (hold-IsCounted r cl can v)
  | inr broken ↦ rw broken (get-IsCounted r v)
]

try_waiting-IsCounted :
    (e : Env) (uid : ℕ) (s : Sequence × World) (cl : ValueLock)
    → IsCounted s.0
    → After (λ s. IsCounted s.0) (try_waiting e uid s cl)
unfolding try_waiting
try_waiting-IsCounted e uid (r, w) cl v = elim (Bool-cases (can_lock r)) [
  | inl can ↦ rw can (grant_waiting-IsCounted uid r _ _ _ can v)
  | inr cannot ↦ rw cannot v
]

queue-IsCounted :
    (r : Sequence) (q : List ValueLock) → IsCounted r → IsCounted (record r { waitings = q })
queue-IsCounted r q v = record { counted = v.counted; within = v.within }

waitings-IsCounted :
    (e : Env) (uid : ℕ) (r : Sequence) (w : World)
    → IsCounted r
    → IsCounted (waitings e uid r w).resource
waitings-IsCounted e uid r w v = rw waitings-scan (
    queue-IsCounted _ _ (
      scan-After (try_waiting e uid) (λ s. IsCounted s.0) (λ _. Unit)
        (λ s cl v _. try_waiting-IsCounted e uid s cl v) (r, w) r.waitings v (units r.waitings)))

clean-IsCounted :
    (e : Env) (r : Sequence) (uid : ℕ) (c : Conn) (w : World)
    → IsCounted r
    → IsCounted (clean e r uid c w).resource
unfolding clean
clean-IsCounted e r uid c w v = rw forget_resource (elim (Option-cases (find_conn r.holders c)) [
  | inl missing ↦ rw (missing, clean_found) (queue-IsCounted r _ v)
  | inr (cl, found) ↦
      rw (found, clean_found) (waitings-IsCounted e uid _ w (let_go-IsCounted r c cl found v))
])

request-IsCounted :
    (e : Env) (r : Sequence) (uid : ℕ) (c : Conn) (body : LockBody) (w : World)
    → IsCounted r
    → IsCounted (request e r uid c body w).resource
unfolding request reply reply_then
request-IsCounted e r uid c body w v = ground (
  arith,
  v,
  hold-IsCounted r (new_lock (get r).0 c),
  queue-IsCounted r (r.waitings ++ new_waiting c ∷ []) v,
)

length-set_rollback :
    (v : Bool) (c : Conn) (xs : List ValueLock) → length (set_rollback v c xs) ≡ length xs
unfolding set_rollback
length-set_rollback v c [] = refl
length-set_rollback v c (x ∷ xs) = ground (arith, length-set_rollback v c xs)

unlock_found-IsCounted :
    (e : Env) (r : Sequence) (uid : ℕ) (c : Conn) (b : Bool) (w : World) (o : Option ValueLock)
    → IsCounted r
    → IsCounted (unlock_found e r uid c b w o).resource
unfolding unlock_found
unlock_found-IsCounted e r uid c b w none v = v
unlock_found-IsCounted e r uid c b w (some cl) v = rw release_msg_resource (
    clean-IsCounted e _ uid c w
      (record { counted = rw length-set_rollback v.counted; within = v.within }))

inmsg-IsCounted :
    (e : Env) (r : Sequence) (uid : ℕ) (c : Conn) (msg : Msg) (w : World)
    → IsCounted r
    → IsCounted (inmsg e r uid c msg w).resource
unfolding inmsg
inmsg-IsCounted e r uid c (lock body) w v = request-IsCounted e r uid c body w v
inmsg-IsCounted e r uid c (unlock body) w v =
    ground (arith, v, unlock_found-IsCounted e r uid c body.rollback w (find_conn r.holders c) v)
inmsg-IsCounted e r uid c (other_verb o) w v = v

call-IsCounted :
    (s : Sequence × World) (c : Env × Call)
    → IsCounted s.0
    → Unit {0}
    → IsCounted (call methods s c).0
unfolding call
call-IsCounted (r, w) (e, message uid c msg) v u = inmsg-IsCounted e r uid c msg w v
call-IsCounted (r, w) (e, closed uid c) v u = clean-IsCounted e r uid c w v

no_holders-IsCounted :
    (r : Sequence)
    → r.holders ≡ []
    → r.locked_quantity ≡ pos 0
    → IsNat r.total_quantity
    → IsCounted r
no_holders-IsCounted r h q t = record { counted = rw (h, q) refl; within = rw q t }

init-IsCounted :
    (matches : RsrcType → String → Bool) (digits : String → Option (List ℕ)) (e : Env) (w : World)
    (name : String) (r : Sequence)
    → init matches digits e w name ≡ created r
    → IsNat r.total_quantity
    → IsCounted r
unfolding init init_number
init-IsCounted matches digits e w name r i t =
    no_holders-IsCounted r (ground arith) (ground arith) t

-- After `flom_resource_sequence_init` with a number that is not negative, and any messages and
-- disconnections, with any call to memory and network failing: the locked quantity is the number of
-- holders, and they are at most as many as the resource has slots.
pub run-init-slots :
    (matches : RsrcType → String → Bool) (digits : String → Option (List ℕ)) (e : Env) (w : World)
    (name : String) (r : Sequence) (cs : List (Env × Call))
    → init matches digits e w name ≡ created r
    → IsNat r.total_quantity
    → let s = (run methods (r, w) cs).0 in
      (s.locked_quantity ≡ pos (length s.holders)) × (pos (length s.holders) ≤ℤ s.total_quantity)
run-init-slots matches digits e w name r cs i t =
    let v : IsCounted (run methods (r, w) cs).0 =
      run-induction methods IsCounted (λ _. Unit) call-IsCounted (r, w) cs
        (init-IsCounted matches digits e w name r i t) (units cs) in
    (v.counted, subst (λ q. q ≤ℤ (run methods (r, w) cs).0.total_quantity) v.counted v.within)
