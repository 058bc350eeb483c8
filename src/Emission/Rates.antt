-- ===== src/Emission/Rates.antt =====
-- Rate limits and daily caps of `EmissionWitness` (packages/node/src/kernel/emission-witness.ts).
use pando.Common.{
  ℕ, ◌+◌, ◌/◌, Bool, false, Option, none, some, List, [], ◌∷◌, ◌++◌, length, ltb, ◌==◌,
  if◌then◌else◌, keep_if,
}
use pando.Common.Int.{ℤ, pos, ◌+ℤ◌, ltb_ℤ}
use pando.Common.Table.{find, put}
use pando.Ledger.Types.{daily_emission_cap}
use pando.Emission.State.{
  Witness, RateEntry, rate_key, rate_limit_per_hour, rate_limit_window_ms, bootstrap_daily_cap,
  day_ms,
}

-- `now - t < RATE_LIMIT_WINDOW_MS`
abbrev pub is_recent : ℕ → ℕ → Bool
is_recent now t = ltb now (t + rate_limit_window_ms)

-- the timestamps of a peer within the window
abbrev pub recent : ℕ → ℕ → Witness → List ℕ
recent now peer w = elim (find rate_key peer w.rate_limits) [
  | none ↦ []
  | some e ↦ keep_if (is_recent now) e.timestamps
]

unfoldable pub check_rate_limit : ℕ → ℕ → Witness → Bool
check_rate_limit now peer w = ltb (length (recent now peer w)) rate_limit_per_hour

unfoldable pub record_proposal : ℕ → ℕ → Witness → Witness
record_proposal now peer w =
    let entry : RateEntry = record { peer_id = peer; timestamps = recent now peer w ++ now ∷ [] } in
    record w { rate_limits = put rate_key entry w.rate_limits }

-- the date of a moment, as `toISOString().slice(0, 10)` tells days apart
abbrev pub today : ℕ → ℕ
today now = now / day_ms

abbrev pub is_date : ℕ → Option ℕ → Bool
is_date day none = false
is_date day (some d) = d == day

unfoldable pub reset_daily_counters : ℕ → Witness → Witness
reset_daily_counters now w =
    let day = today now in
    let same_emitted = is_date day w.daily_emitted_date in
    let same_bootstrap = is_date day w.daily_bootstrap_date in
    record w {
      daily_emitted_lux = if same_emitted then w.daily_emitted_lux else pos 0;
      daily_emitted_date = some day;
      daily_bootstrap_lux = if same_bootstrap then w.daily_bootstrap_lux else pos 0;
      daily_bootstrap_date = some day;
    }

-- the two cap tests, on counters that are reset
abbrev pub exceeds_daily_cap : ℤ → Witness → Bool
exceeds_daily_cap amount w = ltb_ℤ daily_emission_cap (w.daily_emitted_lux +ℤ amount)

abbrev pub exceeds_bootstrap_cap : ℤ → Witness → Bool
exceeds_bootstrap_cap amount w = ltb_ℤ bootstrap_daily_cap (w.daily_bootstrap_lux +ℤ amount)

unfoldable pub record_daily_emission : ℕ → ℤ → Bool → Witness → Witness
record_daily_emission now amount is_bootstrap w =
    let r = reset_daily_counters now w in
    record r {
      daily_emitted_lux = r.daily_emitted_lux +ℤ amount;
      daily_bootstrap_lux =
          if is_bootstrap then r.daily_bootstrap_lux +ℤ amount else r.daily_bootstrap_lux;
    }

-- the part of `cleanup` on the rate limits
unfoldable pub clean_rate_limits : ℕ → List RateEntry → List RateEntry
clean_rate_limits now [] = []
clean_rate_limits now (e ∷ es) =
    let kept = keep_if (is_recent now) e.timestamps in
    if length kept == 0
    then clean_rate_limits now es
    else record { peer_id = e.peer_id; timestamps = kept } ∷ clean_rate_limits now es
