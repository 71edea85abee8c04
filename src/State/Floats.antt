-- ===== src/State/Floats.antt =====
-- Python's floats, as a parameter: the operations that the daemon uses, and laws of IEEE
-- comparison, which hold for NaN where they do not ask for a number.
use kai_daemon.Base.{◌≡◌, Bool, true, false, not, ◌⊎◌}

pub record Floats : Type 1 where
  pub Float : Type 0
  pub is_number : Float → Bool  -- not NaN
  pub gt : Float → Float → Bool
  pub le : Float → Float → Bool
  pub zero : Float
  pub minus_infinity : Float
  pub gt_irrefl : (a : Float) → gt a a ≡ false
  pub gt_trans : (a b c : Float) → gt a b ≡ true → gt b c ≡ true → gt a c ≡ true
  pub gt_split :
      (a b c : Float) → is_number c ≡ true → gt a b ≡ true → (gt c b ≡ true) ⊎ (gt a c ≡ true)
  pub gt_lowest : (a b : Float) → gt a b ≡ true → gt a minus_infinity ≡ true
  pub le-gt : (a b : Float) → is_number a ≡ true → is_number b ≡ true → le a b ≡ not (gt a b)
  pub is_number_zero : is_number zero ≡ true
