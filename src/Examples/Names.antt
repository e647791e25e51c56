-- ===== src/Examples/Names.antt =====
-- The numbers in names, at concrete names.
use flom.Prelude.{◌≡◌, refl, [], ◌∷◌}
use flom.Rsrc.Names.Decimal.{digits}

digits-runs : digits 10 42 ≡ 52 ∷ 50 ∷ []
unfolding digits
digits-runs = refl
