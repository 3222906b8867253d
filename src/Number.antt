-- ===== src/Number.antt =====
-- JavaScript numbers where the client computes with fractions (deck coordinates, rope lengths).
-- A floating-point type has no model in this logic, so it is an interface: its order, the literals
-- that the sources compare with, and division. The laws hold of every value but NaN, which no
-- coordinate is: the API sends finite numbers and `toNorm` divides by a constant.
use mooring_line_management.Base.{ℕ, ◌≡◌, Bool, true, false, if◌then◌else◌}

pub record Number (N : Type 0) : Type 0 where
  pub lt : N → N → Bool
  pub zero : N
  pub one : N
  pub half : N
  -- 0.45 and 0.55
  pub port_edge : N
  pub starboard_edge : N
  pub divide : N → ℕ → N
  pub lt_asymm : (a b : N) → lt a b ≡ true → lt b a ≡ false
  pub lt_antisymm : (a b : N) → lt a b ≡ false → lt b a ≡ false → a ≡ b
  pub zero-lt-one : lt zero one ≡ true
  pub zero-lt-half : lt zero half ≡ true
  pub half-lt-one : lt half one ≡ true
  pub edge-lt-half : lt port_edge half ≡ true
  pub half-lt-edge : lt half starboard_edge ≡ true
  pub edge-lt-edge : (a : N) → lt a port_edge ≡ true → lt starboard_edge a ≡ false

module _ {N : Type 0} ⦃num : Number N⦄ where
  -- `Math.max(a, b)`, `Math.min(a, b)`
  abbrev pub maximum : N → N → N
  maximum a b = if num.lt a b then b else a

  abbrev pub minimum : N → N → N
  minimum a b = if num.lt b a then b else a

  -- Not below 0 and not above 1.
  abbrev pub InUnit : N → Type 0
  InUnit a = (num.lt a num.zero ≡ false) × (num.lt num.one a ≡ false)
