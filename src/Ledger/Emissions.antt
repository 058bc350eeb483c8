-- ===== src/Ledger/Emissions.antt =====
-- A successful emission: what is minted, who gets it, and the hard cap.
use pando.Common.{ℕ, ◌≡◌, inl, inr, true, false, ◌&&◌, List, arith, Bool-cases}
use pando.Common.Int.{ℤ, pos, ◌+ℤ◌, ◌-ℤ◌, ◌≤ℤ◌, ltb_ℤ, leb_ℤ, int_laws}
use pando.Common.Result.{ok}
use pando.Ledger.Types.{Transaction, WorkType, Ledger, lux_hard_cap}
use pando.Ledger.Accounts.{exists, add_balance}
use pando.Ledger.Transactions.{emit, clamp_emission, record_transaction, record_emission}

-- what a successful `emit` has done
pub record Minted (now to : ℕ) (amount : ℤ) (l : Ledger) (tx : Transaction) (l' : Ledger)
    : Type 0 where
  pub recipient : exists to l ≡ true
  pub tx_to : tx.to ≡ to
  pub tx_amount : tx.amount ≡ clamp_emission amount l.total_supply
  pub gains : pos 1 ≤ℤ tx.amount
  pub at_most : tx.amount ≤ℤ amount
  pub supply : l'.total_supply ≡ l.total_supply +ℤ tx.amount
  pub capped : l'.total_supply ≤ℤ lux_hard_cap
  pub deficits : l'.deficits ≡ l.deficits
  pub contributions : l'.contributions ≡ l.contributions
  pub accounts : l'.accounts ≡ (add_balance now to tx.amount l).accounts

-- what passes the two guards of the hard cap
clamp_emission_lem :
    (amount supply : ℤ)
    → leb_ℤ amount (pos 0) ≡ false
    → (ltb_ℤ lux_hard_cap (supply +ℤ amount) && leb_ℤ (lux_hard_cap -ℤ supply) (pos 0)) ≡ false
    → (pos 1 ≤ℤ clamp_emission amount supply)
      × (clamp_emission amount supply ≤ℤ amount)
      × (supply +ℤ clamp_emission amount supply ≤ℤ lux_hard_cap)
clamp_emission_lem amount supply p q = elim (Bool-cases (ltb_ℤ lux_hard_cap (supply +ℤ amount))) [
  | inl over ↦ rw over (grind int_laws)
  | inr within ↦ rw within (grind int_laws)
]

-- A successful emission mints at least one unit and at most what was asked for, namely what the
-- hard cap leaves; it raises the total supply and the recipient's balance by exactly that amount,
-- keeps the supply within the hard cap, and leaves deficits and contributions as they were.
pub emit-Minted :
    (now id to : ℕ) (amount : ℤ) (work : WorkType) (proof : List ℕ) (l : Ledger) (tx : Transaction)
    (l' : Ledger)
    → emit now id to amount work proof l ≡ ok (tx, l')
    → Minted now to amount l tx l'
unfolding emit add_balance record_transaction record_emission
emit-Minted now id to amount work proof l tx l' h =
    ground (arith, clamp_emission_lem amount l.total_supply)
