-- ===== src/Dashboard/Settings/Reload.antt =====
-- The settings of a page and those that a page loaded after it reads.
use nfm_dashboard.Prelude.{
  Option, none, some, List, [], ◌∷◌, Bool, true, false, ◌≡◌, ◌≢◌, refl, ap, All, Option-cases, inl,
  inr,
}
use nfm_dashboard.Prelude.Text.{Str, codes, str_discrete, truthy}
use nfm_dashboard.Prelude.Map.{get}
use nfm_dashboard.Dashboard.Filters.{TimeRange, range_text}
use nfm_dashboard.Dashboard.Filters.Bounds.{find_range}
use nfm_dashboard.Dashboard.Settings.{
  Number, finite, infinite, Value, number, string, other, Parsed, throws, not_object, object,
  AppSettings, default_settings, field_of, number_or, range_or, text_or, settings_of, settings_from,
  Change, set_default_range, set_retrans_threshold, set_timeout_threshold, set_cost_per_gb,
  set_anomaly_sigma, set_monitor_filter, reset, changed, Hook, parse_settings, hydrate,
  stored_after, change, changes,
}

-- The entries of the object that `JSON.stringify` writes.
unfoldable pub entries_of : AppSettings → List (Str × Value)
entries_of s =
    (codes "defaultRange", string (range_text s.default_range))
    ∷ (codes "retransThreshold", number s.retrans_threshold)
    ∷ (codes "timeoutThreshold", number s.timeout_threshold)
    ∷ (codes "costPerGb", number s.cost_per_gb)
    ∷ (codes "anomalySigma", number s.anomaly_sigma)
    ∷ (codes "monitorFilter", string s.monitor_filter)
    ∷ []

abbrev pub is_finite : Number → Bool
is_finite (finite s r) = true
is_finite (infinite s) = false

-- Settings with finite numbers and a monitor.
pub record IsSound (s : AppSettings) : Type 0 where
  pub retrans : is_finite s.retrans_threshold ≡ true
  pub timeout : is_finite s.timeout_threshold ≡ true
  pub cost : is_finite s.cost_per_gb ≡ true
  pub sigma : is_finite s.anomaly_sigma ≡ true
  pub monitor : s.monitor_filter ≢ []

-- A change to a finite number, and to a monitor that is not the empty text.
abbrev pub IsSoundChange : Change → Type 0
IsSoundChange (set_default_range r) = Unit
IsSoundChange (set_retrans_threshold n) = is_finite n ≡ true
IsSoundChange (set_timeout_threshold n) = is_finite n ≡ true
IsSoundChange (set_cost_per_gb n) = is_finite n ≡ true
IsSoundChange (set_anomaly_sigma n) = is_finite n ≡ true
IsSoundChange (set_monitor_filter t) = t ≢ []
IsSoundChange reset = Unit

default_settings-IsSound : IsSound default_settings
default_settings-IsSound = record {
  retrans = refl;
  timeout = refl;
  cost = refl;
  sigma = refl;
  monitor = λ e. cc;
}

changed-IsSound :
    (c : Change) (s : AppSettings) → IsSoundChange c → IsSound s → IsSound (changed c s)
unfolding changed
changed-IsSound (set_default_range r) s h k = record {
  retrans = k.retrans;
  timeout = k.timeout;
  cost = k.cost;
  sigma = k.sigma;
  monitor = k.monitor;
}
changed-IsSound (set_retrans_threshold n) s h k = record {
  retrans = h;
  timeout = k.timeout;
  cost = k.cost;
  sigma = k.sigma;
  monitor = k.monitor;
}
changed-IsSound (set_timeout_threshold n) s h k = record {
  retrans = k.retrans;
  timeout = h;
  cost = k.cost;
  sigma = k.sigma;
  monitor = k.monitor;
}
changed-IsSound (set_cost_per_gb n) s h k = record {
  retrans = k.retrans;
  timeout = k.timeout;
  cost = h;
  sigma = k.sigma;
  monitor = k.monitor;
}
changed-IsSound (set_anomaly_sigma n) s h k = record {
  retrans = k.retrans;
  timeout = k.timeout;
  cost = k.cost;
  sigma = h;
  monitor = k.monitor;
}
changed-IsSound (set_monitor_filter t) s h k = record {
  retrans = k.retrans;
  timeout = k.timeout;
  cost = k.cost;
  sigma = k.sigma;
  monitor = h;
}
changed-IsSound reset s h k = default_settings-IsSound

number_or-finite : (v : Value) (d : Number) → is_finite d ≡ true → is_finite (number_or v d) ≡ true
unfolding number_or
number_or-finite (number (finite s r)) d h = refl
number_or-finite (number (infinite s)) d h = h
number_or-finite (string t) d h = h
number_or-finite other d h = h

text_or-nonempty : (v : Value) (d : Str) → d ≢ [] → text_or v d ≢ []
unfolding text_or truthy
text_or-nonempty (number n) d h = h
text_or-nonempty (string []) d h = h
text_or-nonempty (string (c ∷ t)) d h = λ e. cc
text_or-nonempty other d h = h

-- Whatever an object holds, the settings that are read from it are sound.
settings_of-IsSound : (rec : List (Str × Value)) → IsSound (settings_of rec)
unfolding settings_of
settings_of-IsSound rec = record {
  retrans =
      number_or-finite (field_of rec (codes "retransThreshold")) default_settings.retrans_threshold
        refl;
  timeout =
      number_or-finite (field_of rec (codes "timeoutThreshold")) default_settings.timeout_threshold
        refl;
  cost = number_or-finite (field_of rec (codes "costPerGb")) default_settings.cost_per_gb refl;
  sigma =
      number_or-finite (field_of rec (codes "anomalySigma")) default_settings.anomaly_sigma refl;
  monitor =
      text_or-nonempty (field_of rec (codes "monitorFilter")) default_settings.monitor_filter
        (λ e. cc);
}

settings_from-IsSound : (p : Parsed) → IsSound (settings_from p)
unfolding settings_from
settings_from-IsSound throws = settings_of-IsSound []
settings_from-IsSound not_object = settings_of-IsSound []
settings_from-IsSound (object rec) = settings_of-IsSound rec

number_or-number : (n d : Number) → is_finite n ≡ true → number_or (number n) d ≡ n
unfolding number_or
number_or-number (finite s r) d h = refl
number_or-number (infinite s) d h = cc

range_or-range_text : (r d : TimeRange) → range_or (string (range_text r)) d ≡ r
unfolding range_or
range_or-range_text r d = rw (find_range r) refl

text_or-string : (t d : Str) → t ≢ [] → text_or (string t) d ≡ t
unfolding text_or truthy
text_or-string [] d h = elim (h refl) [ ]
text_or-string (c ∷ t) d h = refl

-- Sound settings are read back from their entries.
settings_of-entries_of : (s : AppSettings) → IsSound s → settings_of (entries_of s) ≡ s
unfolding settings_of entries_of field_of get str_discrete
settings_of-entries_of s h =
    rw
      (
        range_or-range_text s.default_range default_settings.default_range,
        number_or-number s.retrans_threshold default_settings.retrans_threshold h.retrans,
        number_or-number s.timeout_threshold default_settings.timeout_threshold h.timeout,
        number_or-number s.cost_per_gb default_settings.cost_per_gb h.cost,
        number_or-number s.anomaly_sigma default_settings.anomaly_sigma h.sigma,
        text_or-string s.monitor_filter default_settings.monitor_filter h.monitor,
      )
      refl

truthy-nonempty : (t : Str) → t ≢ [] → truthy (some t) ≡ some t
unfolding truthy
truthy-nonempty [] h = elim (h refl) [ ]
truthy-nonempty (c ∷ t) h = refl

-- What is used of `JSON`: the text of sound settings is not empty, and is parsed to their entries.
pub record IsJson (json_parse : Str → Parsed) (json_stringify : AppSettings → Str) : Type 0 where
  pub nonempty : (s : AppSettings) → json_stringify s ≢ []
  pub parses : (s : AppSettings) → IsSound s → json_parse (json_stringify s) ≡ object (entries_of s)

module _ (json_parse : Str → Parsed) (json_stringify : AppSettings → Str) where
  parse_settings-IsSound :
      (raw : Option Str) → IsSound (parse_settings json_parse json_stringify raw)
  unfolding parse_settings
  parse_settings-IsSound raw = elim (Option-cases (truthy raw)) [
    | inl e ↦ rw (e, parse_settings) (settings_of-IsSound [])
    | inr (text, e) ↦ rw (e, parse_settings) (settings_from-IsSound (json_parse text))
  ]

  -- The settings of a page are sound and those of its stored text.
  pub record IsKept (h : Hook) : Type 0 where
    pub sound : IsSound h.settings
    pub same : parse_settings json_parse json_stringify h.stored ≡ h.settings

  parse_settings-stored :
      (s : AppSettings)
      → IsJson json_parse json_stringify
      → IsSound s
      → parse_settings json_parse json_stringify (some (json_stringify s)) ≡ s
  unfolding parse_settings settings_from
  parse_settings-stored s law h =
      let e : truthy (some (json_stringify s)) ≡ some (json_stringify s) =
        truthy-nonempty (json_stringify s) (law.nonempty s) in
      rw (e, parse_settings, law.parses s h) (settings_of-entries_of s h)

  parse_settings-none : parse_settings json_parse json_stringify none ≡ default_settings
  unfolding parse_settings truthy settings_of field_of number_or range_or text_or get
  parse_settings-none = refl

  stored_after-same :
      (c : Change) (s : AppSettings)
      → IsJson json_parse json_stringify
      → IsSound (changed c s)
      → parse_settings json_parse json_stringify
          (stored_after json_parse json_stringify c (changed c s))
        ≡ changed c s
  unfolding stored_after changed
  stored_after-same (set_default_range r) s law h = parse_settings-stored _ law h
  stored_after-same (set_retrans_threshold n) s law h = parse_settings-stored _ law h
  stored_after-same (set_timeout_threshold n) s law h = parse_settings-stored _ law h
  stored_after-same (set_cost_per_gb n) s law h = parse_settings-stored _ law h
  stored_after-same (set_anomaly_sigma n) s law h = parse_settings-stored _ law h
  stored_after-same (set_monitor_filter t) s law h = parse_settings-stored _ law h
  stored_after-same reset s law h = parse_settings-none

  change-IsKept :
      (c : Change) (h : Hook)
      → IsJson json_parse json_stringify
      → IsSoundChange c
      → IsKept h
      → IsKept (change json_parse json_stringify c h)
  unfolding change
  change-IsKept c h law sound kept =
      let next = changed-IsSound c h.settings sound kept.sound in
      record { sound = next; same = stored_after-same c h.settings law next }

  changes-IsKept :
      (cs : List Change) (h : Hook)
      → IsJson json_parse json_stringify
      → All IsSoundChange cs
      → IsKept h
      → IsKept (changes json_parse json_stringify cs h)
  unfolding changes
  changes-IsKept [] h law sounds kept = kept
  changes-IsKept (c ∷ cs) h law (sound, sounds) kept =
      changes-IsKept cs (change json_parse json_stringify c h) law sounds
        (change-IsKept c h law sound kept)

  -- Whatever the browser holds at first, after any changes to finite numbers and to monitors that are
  -- not empty, with resets among them, a page that is loaded reads the settings of the page before it,
  -- and they are sound.
  pub hydrate-changes :
      (stored : Option Str) (cs : List Change)
      → IsJson json_parse json_stringify
      → All IsSoundChange cs
      → let last =
          changes json_parse json_stringify cs (hydrate json_parse json_stringify stored) in
        (hydrate json_parse json_stringify last.stored ≡ last) × IsSound last.settings
  unfolding hydrate
  hydrate-changes stored cs law sounds =
      let first : IsKept (hydrate json_parse json_stringify stored) = record {
        sound = parse_settings-IsSound stored;
        same = refl;
      } in
      let kept = changes-IsKept cs (hydrate json_parse json_stringify stored) law sounds first in
      let last = changes json_parse json_stringify cs (hydrate json_parse json_stringify stored) in
      let with_stored : AppSettings → Hook = λ s. record { settings = s; stored = last.stored } in
      (ap with_stored kept.same, kept.sound)
