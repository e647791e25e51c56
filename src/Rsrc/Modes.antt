-- ===== src/Rsrc/Modes.antt =====
-- The compatibility of lock modes: the table `lock_table` of src/flom_resource_simple.c, which
-- src/flom_resource_hier.c repeats, with a row for the mode held and a column for the mode asked.
use flom.Prelude.{Bool, true, false, ◌≡◌, arith}
use flom.Rsrc.Types.{LockMode}

row : Bool → Bool → Bool → Bool → Bool → Bool → LockMode → Bool
row a b c d e f LockMode.nl = a
row a b c d e f LockMode.cr = b
row a b c d e f LockMode.cw = c
row a b c d e f LockMode.pr = d
row a b c d e f LockMode.pw = e
row a b c d e f LockMode.ex = f

unfoldable pub lock_table : LockMode → LockMode → Bool
unfolding row
lock_table LockMode.nl = row true true true true true true
lock_table LockMode.cr = row true true true true true false
lock_table LockMode.cw = row true true true false false false
lock_table LockMode.pr = row true true false true false false
lock_table LockMode.pw = row true true false false false false
lock_table LockMode.ex = row true false false false false false

pub lock_table_symm : (a b : LockMode) → lock_table a b ≡ lock_table b a
unfolding lock_table
lock_table_symm a b = ground arith
