-- ===== src/Simple/Compatible.antt =====
-- flom_resource_simple_can_lock against its description: the asked mode is compatible with each holder.
use mathlib.Core.Logic.{◌↔◌}
use flom.Prelude.{◌≡◌, refl, true, false, List, [], ◌∷◌, arith, All}
use flom.Rsrc.Types.{LockMode, Conn}
use flom.Rsrc.Holders.{remove_conn, All-remove_conn}
use flom.Rsrc.Modes.{lock_table}
use flom.Simple.{ModeLock, can_lock}

abbrev pub Allows : LockMode → ModeLock → Type 0
Allows mode cl = lock_table cl.info mode ≡ true

-- A mode can be locked exactly if the table allows it beside each of the holders.
pub can_lock_iff :
    (holders : List ModeLock) (mode : LockMode)
    → (can_lock holders mode ≡ true) ↔ All (Allows mode) holders
unfolding can_lock
can_lock_iff [] mode = (λ _. tt, λ _. refl)
can_lock_iff (cl ∷ rest) mode =
    let ih = can_lock_iff rest mode in (λ h. ground (arith, ih.0), λ h. ground (arith, ih.1))

-- Any two locks are compatible.
abbrev pub IsExclusive : List ModeLock → Type 0
IsExclusive [] = Unit
IsExclusive (cl ∷ rest) = All (Allows cl.info) rest × IsExclusive rest

pub IsExclusive-remove_conn :
    (holders : List ModeLock) (c : Conn) → IsExclusive holders → IsExclusive (remove_conn holders c)
unfolding remove_conn
IsExclusive-remove_conn [] c h = tt
IsExclusive-remove_conn (cl ∷ rest) c h =
    ground (arith, IsExclusive-remove_conn rest c h.1, All-remove_conn (Allows cl.info) rest c h.0)

-- A mode that is blocked stays blocked when another lock is granted.
pub can_lock-cons :
    (cl : ModeLock) (holders : List ModeLock) (mode : LockMode)
    → can_lock holders mode ≡ false
    → can_lock (cl ∷ holders) mode ≡ false
unfolding can_lock
can_lock-cons cl holders mode h = ground arith
