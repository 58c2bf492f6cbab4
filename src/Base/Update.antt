-- ===== src/Base/Update.antt =====
-- Maps as functions: `std::map` and object fields by the object's number.
use Prim.Native.Nat.{ℕ}
use sipp.Base.Tests.{◌==◌, if◌then◌else◌}

module _ {ℓ} {A : Type ℓ} where
  abbrev pub update : (ℕ → A) → ℕ → A → ℕ → A
  update f k v j = if j == k then v else f j
