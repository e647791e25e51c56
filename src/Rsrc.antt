-- ===== src/Rsrc.antt =====
-- src/flom_rsrc.h, src/flom_rsrc.c and what the resources use of src/flom_msg.c and src/flom_conn.h.
pub mod Types
pub mod Env
pub mod Holders
pub mod Scan
pub mod Calls
pub mod Modes
pub mod Names
