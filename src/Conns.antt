-- ===== src/Conns.antt =====
-- src/flom_conns.c: the array of the connections that a thread polls. GLib's arrays of pointers are lists.
pub mod Sweep
use flom.Prelude.{
  ℕ, zero, suc, Bool, true, false, Option, none, some, List, [], ◌∷◌, ◌++◌, length, get_elem?, set,
  if◌then◌else◌,
}
use flom.Rsrc.Types.{Rc, is_ok, Conn}

-- flom_conn_state_t
pub data ConnState : Type 0 where
  daemon locker remove : ConnState

-- The fields of flom_conn_t that these functions use; `fd` is `none` for FLOM_NULL_FD.
pub record Connection : Type 0 where
  pub conn : Conn
  pub state : ConnState
  pub fd : Option ℕ

-- FLOM_CONN_STATE_REMOVE == flom_conn_get_state(c)
unfoldable pub is_removed : Connection → Bool
is_removed c = elim c.state [
  | ConnState.daemon ↦ false
  | ConnState.locker ↦ false
  | ConnState.remove ↦ true
]

module _ {ℓ} {A : Type ℓ} where
  unfoldable pub last : A → List A → A
  last x [] = x
  last x (y ∷ ys) = last y ys

  unfoldable pub drop_last : A → List A → List A
  drop_last x [] = []
  drop_last x (y ∷ ys) = x ∷ drop_last y ys

  -- The last element takes the place that got free before these.
  unfoldable pub refill : List A → List A
  refill [] = []
  refill (x ∷ xs) = last x xs ∷ drop_last x xs

  -- g_ptr_array_remove_index_fast, as the manual of GLib has it
  unfoldable pub remove_index_fast : List A → ℕ → List A
  remove_index_fast [] i = []
  remove_index_fast (x ∷ xs) zero = refill xs
  remove_index_fast (x ∷ xs) (suc i) = x ∷ remove_index_fast xs i

-- flom_conns_import
unfoldable pub import_conn : List Connection → Connection → List Connection
import_conn array c = array ++ c ∷ []

-- flom_conn_terminate of src/flom_conn.c; `close` is the outcome of flom_tcp_close. A connection is
-- marked before its socket is closed.
close_socket : (ℕ → Rc) → Option ℕ → Rc
close_socket close none = Rc.ok
close_socket close (some fd) = close fd

abbrev pub marked : Connection → Option ℕ → Connection
marked c fd = record { conn = c.conn; state = ConnState.remove; fd = fd }

unfoldable pub terminate : (ℕ → Rc) → Connection → Rc × Connection
unfolding close_socket
terminate close c =
    let rc = close_socket close c.fd in
    if is_removed c then (Rc.ok, c) else (rc, marked c (if is_ok rc then none else c.fd))

-- flom_conns_close_fd; no element of the array is NULL.
unfoldable pub close_fd : (ℕ → Rc) → List Connection → ℕ → Rc × List Connection
close_fd close array id = elim (get_elem? array id) [
  | none ↦ (Rc.out_of_range, array)
  | some c ↦ let t = terminate close c in (t.0, set array id t.1)
]

-- flom_conns_trns_fd, with the connection that a locker will import
unfoldable pub trns_fd : List Connection → ℕ → Rc × List Connection × Option Connection
trns_fd array id = elim (get_elem? array id) [
  | none ↦ (Rc.out_of_range, array, none)
  | some c ↦ (
    Rc.ok,
    remove_index_fast array id,
    some (record { conn = c.conn; state = ConnState.locker; fd = c.fd }),
  )
]

-- What flom_conns_clean leaves: its code, the array, and the connections it deleted, newest first.
pub record Swept : Type 0 where
  pub rc : Rc
  pub array : List Connection
  pub deleted : List Connection

-- The loop of flom_conns_clean, on fuel: after a removal the same place is looked at again.
unfoldable pub clean_loop : ℕ → ℕ → List Connection → List Connection → Swept
clean_loop zero i array deleted = record {
  rc = Rc.internal_error;
  array = array;
  deleted = deleted;
}
clean_loop (suc fuel) i array deleted = elim (get_elem? array i) [
  | none ↦ record { rc = Rc.ok; array = array; deleted = deleted }
  | some c ↦
      let removed = clean_loop fuel i (remove_index_fast array i) (c ∷ deleted) in
      let next = clean_loop fuel (suc i) array deleted in if is_removed c then removed else next
]

-- flom_conns_clean: one round for each connection and one for the end are enough.
unfoldable pub clean : List Connection → Swept
clean array = clean_loop (suc (length array)) 0 array []

-- The loop of flom_conns_free over the connections from place i on, n of them.
unfoldable pub close_all : (ℕ → Rc) → ℕ → ℕ → List Connection → List Connection
close_all close zero i array = array
close_all close (suc n) i array = close_all close n (suc i) (close_fd close array i).1

-- flom_conns_free, up to the release of the arrays
unfoldable pub free : (ℕ → Rc) → List Connection → Swept
free close array = clean (close_all close (length array) 0 array)
