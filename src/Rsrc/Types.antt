-- ===== src/Rsrc/Types.antt =====
-- The data that all the resources share: return codes (src/flom_errors.h.in), lock modes
-- (src/flom_types.h), messages (src/flom_msg.h) and lock records (src/flom_rsrc.h).
use flom.Prelude.{ℕ, ◌^◌, String, Bool, true, false, Option}
use flom.Prelude.Int.{ℤ}

-- The codes that the modelled functions produce; `other` stands for any further code, all of them
-- errors, that a called function hands back.
pub data Rc : Type 0 where
  ok lock_enqueued lock_busy lock_impossible : Rc
  null_object g_strdup_error g_queue_new_error g_try_malloc_error : Rc
  g_array_new_error g_strsplit_error : Rc
  invalid_option invalid_resource_name obj_corrupted protocol_error send_error internal_error : Rc
  lock_wait_resource lock_cant_wait lock_cant_lock connection_closed_by_server : Rc
  protocol_level_mismatch msg_deserialize_error no_tls_connection : Rc
  g_markup_parse_context_new_error buffer_overflow realpath_error : Rc
  container_full g_markup_parse_context_parse_error g_base64_encode_error invalid_property_value
        out_of_range localtime_r_error invalid_timestamp_format api_invalid_sequence
        api_immutable_handle resource_is_not_transactional :
      Rc
  write_error pipe_error g_thread_new_error close_error resource_init_error : Rc
  connection_closed poll_error network_event_error read_error getnameinfo_error recv_error : Rc
  other : ℕ → Rc

-- FLOM_RC_OK == rc
abbrev pub is_ok : Rc → Bool
is_ok Rc.ok = true
is_ok _ = false

pub data LockMode : Type 0 where
  nl cr cw pr pw ex : LockMode

-- The range of a guint.
abbrev pub guint_mod : ℕ
guint_mod = 2 ^ 32

-- A connection is named by its address; its uid is a function of that.
abbrev pub Conn : Type 0
Conn = ℕ

-- struct flom_rsrc_conn_lock_s: `A` is the member of the union `info` that the resource uses.
pub record ConnLock {ℓ} (A : Type ℓ) : Type ℓ where
  pub info : A
  pub name : Option String
  pub rollback : Bool
  pub conn : Conn

-- The fields of the lock and unlock messages that a resource reads.
pub record LockBody : Type 0 where
  pub name : String
  pub mode : LockMode
  pub wait : Bool
  pub quantity : ℤ

pub record UnlockBody : Type 0 where
  pub name : String
  pub rollback : Bool

pub data Msg : Type 0 where
  lock : LockBody → Msg
  unlock : UnlockBody → Msg
  other_verb : ℕ → Msg

-- The answer that a lock verb gets, at its step.
pub record Answer : Type 0 where
  pub step : ℕ
  pub rc : Rc
  pub element : Option String
