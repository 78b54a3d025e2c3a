-- ===== src/Collector/Dates.antt =====
-- Times in milliseconds since 1970, and their texts. `toISOString` without its fraction and
-- `Date.parse` are taken by what the collector relies on: a whole second is read back from its text.
use nfm_dashboard.Prelude.{ℕ, ◌%◌, ◌≡◌}
use nfm_dashboard.Prelude.Text.{Str}

pub record Dates : Type 0 where
  pub iso : ℕ → Str
  pub parse : Str → ℕ
  pub parse-iso : (t : ℕ) → t % 1000 ≡ 0 → parse (iso t) ≡ t
