-- ===== src/Handle/Release.antt =====
-- What flom_handle_delete of src/flom_handle.c leaves behind of a handle that it frees.
use flom.Prelude.{String, true, false, Option, ◌≡◌, refl, inl, inr, Bool-cases}
use flom.Rsrc.Types.{Rc, is_ok}
use flom.Config.{Config, Matches}
use flom.Handle.{HandleState, Client, handle_lock, handle_delete}
use flom.Handle.Addresses.{configured}

module _ {ℓ} {S : Type ℓ} (client : Client S) (matches : Matches) (ready : Rc) where
  delete_connected :
      (g : Config) (element : Option String) (s : S)
      → handle_delete client matches ready (configured HandleState.connected g element) s
        ≡ (configured HandleState.connected g element, s)
  unfolding handle_delete
  delete_connected g element s = elim (Bool-cases (is_ok ready)) [
    | inl fine ↦ rw fine refl
    | inr bad ↦ rw bad refl
  ]

  lock_refused :
      (g : Config) (element el : Option String) (s s' s'' : S) (rc : Rc)
      → is_ok ready ≡ true
      → client.connect g s ≡ (Rc.ok, s')
      → client.lock g element s' ≡ (rc, el, s'')
      → is_ok rc ≡ false
      → handle_lock client ready (configured HandleState.init g element) s
        ≡ record { rc = rc; handle = configured HandleState.connected g el; net = s'' }
  unfolding handle_lock
  lock_refused g element el s s' s'' rc fine connects refuses bad =
      rw (fine, connects, refuses, bad) refl

  -- If a handle connects and the lock is then refused, flom_handle_delete frees the handle, but neither
  -- closes the connection nor frees the connection data, the configuration and the element.
  pub handle_lock-handle_delete-leaks :
      (g : Config) (element el : Option String) (s s' s'' : S) (rc : Rc)
      → is_ok ready ≡ true
      → client.connect g s ≡ (Rc.ok, s')
      → client.lock g element s' ≡ (rc, el, s'')
      → is_ok rc ≡ false
      → let d = handle_lock client ready (configured HandleState.init g element) s in
        (d.rc ≡ rc)
        × (handle_delete client matches ready d.handle d.net
            ≡ (configured HandleState.connected g el, s''))
  handle_lock-handle_delete-leaks g element el s s' s'' rc fine connects refuses bad =
      rw (lock_refused g element el s s' s'' rc fine connects refuses bad)
        (refl, delete_connected g el s'')
