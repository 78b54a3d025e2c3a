-- ===== src/Dashboard/Settings.antt =====
-- The settings that a browser keeps: app/src/lib/settings.ts. `json_parse` and `json_stringify` stand
-- for those of `JSON`; of a parsed object the entries are seen as `typeof` tells them apart.
pub mod Reload
use nfm_dashboard.Prelude.{ℕ, Option, none, some, List, [], ◌∷◌, Bool, true, false, or_else}
use nfm_dashboard.Prelude.Text.{Str, codes, str_discrete, truthy}
use nfm_dashboard.Prelude.Ratio.{Ratio, whole}
use nfm_dashboard.Prelude.Map.{get}
use nfm_dashboard.Dashboard.Filters.{TimeRange, hour_1, range_text, time_ranges, find_by, all}

-- A number that is not NaN, which no text of JSON gives: with its sign.
pub data Number : Type 0 where
  finite : Bool → Ratio → Number
  infinite : Bool → Number

pub data Value : Type 0 where
  number : Number → Value
  string : Str → Value
  other : Value

-- What `JSON.parse` does: it throws, or returns an object or something else.
pub data Parsed : Type 0 where
  throws not_object : Parsed
  object : List (Str × Value) → Parsed

pub record AppSettings : Type 0 where
  pub default_range : TimeRange
  pub retrans_threshold : Number
  pub timeout_threshold : Number
  pub cost_per_gb : Number
  pub anomaly_sigma : Number
  pub monitor_filter : Str

abbrev pub default_settings : AppSettings
default_settings = record {
  default_range = hour_1;
  retrans_threshold = finite false (whole 10);
  timeout_threshold = finite false (whole 5);
  cost_per_gb = finite false (record { num = 1; den = 100 });
  anomaly_sigma = finite false (whole 3);
  monitor_filter = all;
}

-- `rec[key]`
unfoldable pub field_of : List (Str × Value) → Str → Value
field_of rec key = or_else (get str_discrete key rec) other

unfoldable pub number_or : Value → Number → Number
number_or (number (finite s r)) default = finite s r
number_or (number (infinite s)) default = default
number_or (string t) default = default
number_or other default = default

unfoldable pub range_or : Value → TimeRange → TimeRange
range_or (string t) default = or_else (find_by range_text time_ranges (some t)) default
range_or (number n) default = default
range_or other default = default

unfoldable pub text_or : Value → Str → Str
unfolding truthy
text_or (string t) default = or_else (truthy (some t)) default
text_or (number n) default = default
text_or other default = default

unfoldable pub settings_of : List (Str × Value) → AppSettings
unfolding field_of number_or range_or text_or
settings_of rec = record {
  default_range = range_or (field_of rec (codes "defaultRange")) default_settings.default_range;
  retrans_threshold =
      number_or (field_of rec (codes "retransThreshold")) default_settings.retrans_threshold;
  timeout_threshold =
      number_or (field_of rec (codes "timeoutThreshold")) default_settings.timeout_threshold;
  cost_per_gb = number_or (field_of rec (codes "costPerGb")) default_settings.cost_per_gb;
  anomaly_sigma = number_or (field_of rec (codes "anomalySigma")) default_settings.anomaly_sigma;
  monitor_filter = text_or (field_of rec (codes "monitorFilter")) default_settings.monitor_filter;
}

-- Text that `JSON.parse` refuses, and a value that is no object, count as an empty object.
unfoldable pub settings_from : Parsed → AppSettings
unfolding settings_of
settings_from throws = settings_of []
settings_from not_object = settings_of []
settings_from (object rec) = settings_of rec

-- A call of `setSetting`, by its key, or of `reset`.
pub data Change : Type 0 where
  set_default_range : TimeRange → Change
  set_retrans_threshold set_timeout_threshold set_cost_per_gb set_anomaly_sigma : Number → Change
  set_monitor_filter : Str → Change
  reset : Change

unfoldable pub changed : Change → AppSettings → AppSettings
changed (set_default_range r) s = record s { default_range = r }
changed (set_retrans_threshold n) s = record s { retrans_threshold = n }
changed (set_timeout_threshold n) s = record s { timeout_threshold = n }
changed (set_cost_per_gb n) s = record s { cost_per_gb = n }
changed (set_anomaly_sigma n) s = record s { anomaly_sigma = n }
changed (set_monitor_filter t) s = record s { monitor_filter = t }
changed reset s = default_settings

-- The settings of a page and the text that the browser keeps.
pub record Hook : Type 0 where
  pub settings : AppSettings
  pub stored : Option Str

module _ (json_parse : Str → Parsed) (json_stringify : AppSettings → Str) where
  unfoldable pub parse_settings : Option Str → AppSettings
  unfolding truthy settings_from settings_of
  parse_settings raw = elim (truthy raw) [
    | none ↦ settings_of []
    | some text ↦ settings_from (json_parse text)
  ]

  -- A page that has read the stored text.
  unfoldable pub hydrate : Option Str → Hook
  unfolding parse_settings
  hydrate stored = record { settings = parse_settings stored; stored = stored }

  unfoldable pub stored_after : Change → AppSettings → Option Str
  stored_after reset next = none
  stored_after _ next = some (json_stringify next)

  unfoldable pub change : Change → Hook → Hook
  unfolding changed stored_after
  change c h =
      let next = changed c h.settings in record { settings = next; stored = stored_after c next }

  unfoldable pub changes : List Change → Hook → Hook
  unfolding change
  changes [] h = h
  changes (c ∷ cs) h = changes cs (change c h)
