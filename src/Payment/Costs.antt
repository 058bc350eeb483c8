-- ===== src/Payment/Costs.antt =====
-- Cost estimates (packages/node/src/core/payment-gate.ts). Costs are in units of 10^-8 Lux.
use Prim.Native.String.{String}
use text.Mathlib.Text.{◌==◌ as str_eq}
use pando.Common.{
  ℕ, ◌+◌, ◌*◌, ◌/◌, ◌≡◌, ◌≤◌, ◌⊎◌, ◌↔◌, refl, inl, inr, Bool, true, false, Option, none, some,
  Bool-cases, Option-cases, ◌||◌, arith, leb, if◌then◌else◌,
}
use pando.Ledger.Types.{lux}

pub data Tier : Type 0 where
  free basic standard premium : Tier

pub record CostEstimate : Type 0 where
  pub lux_amount : ℕ
  pub compute : ℕ
  pub storage : ℕ
  pub network : ℕ
  pub tier : Tier

-- what every object literal inherits from Object.prototype
unfoldable pub is_inherited : String → Bool
is_inherited key =
    str_eq key "constructor"
    || str_eq key "toString"
    || str_eq key "toLocaleString"
    || str_eq key "valueOf"
    || str_eq key "hasOwnProperty"
    || str_eq key "isPrototypeOf"
    || str_eq key "propertyIsEnumerable"
    || str_eq key "__proto__"
    || str_eq key "__defineGetter__"
    || str_eq key "__defineSetter__"
    || str_eq key "__lookupGetter__"
    || str_eq key "__lookupSetter__"

-- COMPLEXITY_COSTS, with the entry 'moderate' for any other key; the lookup of an inherited key gives
-- a member that is not a number
unfoldable pub complexity_cost : String → Option ℕ
complexity_cost complexity =
    if str_eq complexity "trivial"
    then some 0
    else if str_eq complexity "simple"
    then some (lux 1 / 10)
    else if str_eq complexity "moderate"
    then some (lux 1)
    else if str_eq complexity "complex"
    then some (lux 5)
    else if str_eq complexity "project"
    then some (lux 20)
    else if is_inherited complexity
    then none
    else some (lux 1)

-- FREE_CATEGORIES
unfoldable pub is_free_category : String → Bool
is_free_category category =
    str_eq category "search"
    || str_eq category "ledger"
    || str_eq category "network"
    || str_eq category "system"

unfoldable pub is_free_tier : String → String → Bool
is_free_tier category complexity =
    if is_free_category category then true else str_eq complexity "trivial"

-- `Math.round(base * p / 10)`, on the grid of 10^-8 Lux
abbrev pub tenths : ℕ → ℕ → ℕ
tenths p base = (base * p + 5) / 10

abbrev pub cost_tier : ℕ → Tier
cost_tier base =
    if leb base 0
    then free
    else if leb base (lux 1 / 2)
    then basic
    else if leb base (lux 5)
    then standard
    else premium

-- none stands for an estimate whose parts are NaN
unfoldable pub estimate_cost : String → String → Option CostEstimate
estimate_cost complexity category =
    if is_free_tier category complexity
    then some (record { lux_amount = 0; compute = 0; storage = 0; network = 0; tier = free })
    else elim (complexity_cost complexity) [
      | none ↦ none
      | some base ↦ some (record {
        lux_amount = base;
        compute = tenths 7 base;
        storage = tenths 1 base;
        network = tenths 2 base;
        tier = cost_tier base;
      })
    ]

-- the only costs there are
complexity_cost-cases :
    (complexity : String) (c : ℕ)
    → complexity_cost complexity ≡ some c
    → (c ≡ 0) ⊎ (c ≡ 10_000_000) ⊎ (c ≡ 100_000_000) ⊎ (c ≡ 500_000_000) ⊎ (c ≡ 2_000_000_000)
unfolding complexity_cost
complexity_cost-cases complexity c h = ground arith

complexity_cost-none :
    (complexity : String) → complexity_cost complexity ≡ none → is_inherited complexity ≡ true
unfolding complexity_cost
complexity_cost-none complexity h = ground arith

-- the total is the sum of the parts and at most 20 Lux, and nothing exactly in the free tier
pub record IsTotalled (e : CostEstimate) : Type 0 where
  pub parts : e.compute + e.storage + e.network ≡ e.lux_amount
  pub bounded : e.lux_amount ≤ 2_000_000_000
  pub free_tier : (e.tier ≡ free) ↔ (e.lux_amount ≡ 0)

base-IsTotalled :
    (base : ℕ)
    → (base ≡ 0)
      ⊎ (base ≡ 10_000_000)
      ⊎ (base ≡ 100_000_000)
      ⊎ (base ≡ 500_000_000)
      ⊎ (base ≡ 2_000_000_000)
    → IsTotalled (record {
      lux_amount = base;
      compute = tenths 7 base;
      storage = tenths 1 base;
      network = tenths 2 base;
      tier = cost_tier base;
    })
base-IsTotalled base h = record {
  parts = ground arith;
  bounded = ground arith;
  free_tier = ((λ e. ground arith), λ e. ground arith);
}

-- An estimate for a complexity that is no inherited name of an object is made of numbers: its three
-- parts add up to its total, which is at most 20 Lux, and it is nothing exactly when its tier is
-- free.
pub estimate_cost_adds_up :
    (complexity category : String)
    → is_inherited complexity ≡ false
    → (e : CostEstimate) × (estimate_cost complexity category ≡ some e) × IsTotalled e
unfolding estimate_cost
estimate_cost_adds_up complexity category own =
    elim (Bool-cases (is_free_tier category complexity)) [
      | inl no_cost ↦ (
        record { lux_amount = 0; compute = 0; storage = 0; network = 0; tier = free },
        rw no_cost refl,
        record { parts = refl; bounded = omega arith; free_tier = ((λ e. refl), λ e. refl) },
      )
      | inr paid ↦ elim (Option-cases (complexity_cost complexity)) [
        | inl inherited ↦ absurd (ground (arith, complexity_cost-none complexity inherited))
        | inr (base, found) ↦ (
          record {
            lux_amount = base;
            compute = tenths 7 base;
            storage = tenths 1 base;
            network = tenths 2 base;
            tier = cost_tier base;
          },
          rw (paid, found) refl,
          base-IsTotalled base (complexity_cost-cases complexity base found),
        )
      ]
    ]
