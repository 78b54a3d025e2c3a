-- ===== src/Collector/Alerts/Alternation.antt =====
-- One ALARM when a breach begins and one OK when it ends, and a failed cycle loses nothing.
use nfm_dashboard.Prelude.{
  ℕ, Option, none, some, List, [], ◌∷◌, ◌++◌, map, Bool, true, false, not, ◌&&◌, filter, any, ◌≡◌,
  ◌≢◌, ◌↔◌, ◌⊎◌, refl, ◌∙◌, if◌then◌else◌, or_else, Distinct, arith,
}
use nfm_dashboard.Prelude.Text.{Str, str_discrete, truthy}
use nfm_dashboard.Prelude.Set.{contains, contains_of_not-Elem, contains→Elem, Elem→contains}
use nfm_dashboard.Collector.Types.{FlowEdge}
use nfm_dashboard.Collector.Reliability.{BreachRow, detect_reliability_breaches, diff_breach_state}
use nfm_dashboard.Collector.Reliability.Detect.{IsBreaching, detect_reliability_breaches_exact}
use nfm_dashboard.Collector.Alerts.{
  Notice, alarm, recovered, Services, Outcome, publishes, publish_reliability_alerts,
}

pub data AlertState : Type 0 where
  alarm_state ok_state : AlertState

-- The states that the messages announce for one key, in order.
pub states : Str → List Notice → List AlertState
states k [] = []
states k (alarm row ∷ notices) =
    if contains str_discrete k (row.key ∷ [])
    then alarm_state ∷ states k notices
    else states k notices
states k (recovered key ∷ notices) =
    if contains str_discrete k (key ∷ []) then ok_state ∷ states k notices else states k notices

-- Whether a key is in alarm after the states, where none of them repeats the one before.
pub follow : Bool → List AlertState → Option Bool
follow in_alarm [] = some in_alarm
follow false (alarm_state ∷ later) = follow true later
follow true (ok_state ∷ later) = follow false later
follow _ _ = none

states-append : (k : Str) (ms ns : List Notice) → states k (ms ++ ns) ≡ states k ms ++ states k ns
unfolding states
states-append k [] ns = refl
states-append k (alarm row ∷ ms) ns = ground (arith, states-append k ms ns)
states-append k (recovered key ∷ ms) ns = ground (arith, states-append k ms ns)

follow-append :
    (b c : Bool) (xs ys : List AlertState)
    → follow b xs ≡ some c
    → follow b (xs ++ ys) ≡ follow c ys
unfolding follow
follow-append b c [] ys h = ground arith
follow-append false c (alarm_state ∷ xs) ys h = follow-append true c xs ys h
follow-append true c (ok_state ∷ xs) ys h = follow-append false c xs ys h
follow-append false c (ok_state ∷ xs) ys h = cc
follow-append true c (alarm_state ∷ xs) ys h = cc

abbrev keys_of : List BreachRow → List Str
keys_of = map (λ r. r.key)

-- A list with distinct keys announces a key once, if it is there and passes the filter.
states-started :
    (k : Str) (p : Str → Bool) (rows : List BreachRow)
    → Distinct (keys_of rows)
    → states k (map alarm (filter (λ r. p r.key) rows))
      ≡ (if contains str_discrete k (keys_of rows) && p k then alarm_state ∷ [] else [])
unfolding states contains
states-started k p [] d = refl
states-started k p (row ∷ rows) (n, d) =
    let fresh = contains_of_not-Elem str_discrete row.key (keys_of rows) n in
    ground (arith, states-started k p rows d)

states-resolved :
    (k : Str) (p : Str → Bool) (ks : List Str)
    → Distinct ks
    → states k (map recovered (filter p ks))
      ≡ (if contains str_discrete k ks && p k then ok_state ∷ [] else [])
unfolding states contains
states-resolved k p [] d = refl
states-resolved k p (j ∷ ks) (n, d) =
    let fresh = contains_of_not-Elem str_discrete j ks n in ground (arith, states-resolved k p ks d)

one_change :
    (before after : Bool)
    → follow before (
        (if after && not before then alarm_state ∷ [] else [])
        ++ (if before && not after then ok_state ∷ [] else []))
      ≡ some after
unfolding follow
one_change false false = refl
one_change false true = refl
one_change true false = refl
one_change true true = refl

-- What one completed cycle announces of a key: the change of its state, if there is one.
states-publishes :
    (k : Str) (current : List BreachRow) (prior : List Str)
    → Distinct (keys_of current)
    → Distinct prior
    → follow
        (contains str_discrete k prior)
        (states k (publishes (diff_breach_state current prior)))
      ≡ some (contains str_discrete k (keys_of current))
unfolding publishes diff_breach_state
states-publishes k current prior d e =
    rw
      (
        states-append k _ (map recovered (diff_breach_state current prior).resolved),
        states-started k (λ j. not (contains str_discrete j prior)) current d,
        states-resolved k (λ j. not (contains str_discrete j (keys_of current))) prior e,
      )
      (one_change (contains str_discrete k prior) (contains str_discrete k (keys_of current)))

filter_of_all :
    (p : Notice → Bool) (ns : List Notice) → any (λ n. not (p n)) ns ≡ false → filter p ns ≡ ns
filter_of_all p [] h = refl
filter_of_all p (n ∷ ns) h = ground (arith, filter_of_all p ns)

-- Whether a key is among the stored ones.
abbrev pub in_alarm : Str → Option (List Str) → Bool
in_alarm k stored = contains str_discrete k (or_else stored [])

-- The messages of a cycle in which no call failed.
pub completed : Outcome → List Notice
completed o = if o.failed then [] else o.sent

module _ (locale_lt : Str → Str → Bool) where
  -- A service's answers and the edges of each cycle, in order: the messages of the completed cycles
  -- and the stored keys at the end.
  pub run :
      Option (List Str) → List (Services × List (FlowEdge ℕ)) → List Notice × Option (List Str)
  run stored [] = ([], stored)
  run stored ((services, edges) ∷ cycles) =
      let o = publish_reliability_alerts locale_lt services edges stored in
      let (later, final) = run o.stored cycles in (completed o ++ later, final)

  record IsTracked (k : Str) (stored : Option (List Str)) (o : Outcome) : Type 0 where
    distinct : Distinct (or_else o.stored [])
    follows : follow (in_alarm k stored) (states k (completed o)) ≡ some (in_alarm k o.stored)

  publish-IsTracked :
      (services : Services) (edges : List (FlowEdge ℕ)) (stored : Option (List Str)) (k : Str)
      → Distinct (or_else stored [])
      → IsTracked k stored (publish_reliability_alerts locale_lt services edges stored)
  unfolding publish_reliability_alerts completed
  publish-IsTracked services edges stored k d =
      let current = detect_reliability_breaches locale_lt edges in
      let distinct = (detect_reliability_breaches_exact locale_lt edges k).1 in
      let prior = or_else stored [] in
      let notices = publishes (diff_breach_state current prior) in
      let sent = filter_of_all services.send_succeeds notices in
      let step = states-publishes k current prior distinct d in
      let none_sent : follow (in_alarm k stored) (states k []) ≡ some (in_alarm k stored) =
        unfold follow states in refl in
      ground arith

  -- Over any sequence of cycles, with failures of the services anywhere in it, the messages of the
  -- completed cycles announce each key in turns, ALARM first if it was not among the stored keys,
  -- and the last of them agrees with the keys that are stored at the end.
  pub run_alternates :
      (cycles : List (Services × List (FlowEdge ℕ))) (stored : Option (List Str)) (k : Str)
      → Distinct (or_else stored [])
      → follow (in_alarm k stored) (states k (run stored cycles).0)
        ≡ some (in_alarm k (run stored cycles).1)
  unfolding run
  run_alternates [] stored k d = unfold follow states in refl
  run_alternates ((services, edges) ∷ cycles) stored k d =
      let o = publish_reliability_alerts locale_lt services edges stored in
      let t = publish-IsTracked services edges stored k d in
      let rest = run_alternates cycles o.stored k t.distinct in
      rw (states-append k (completed o) (run o.stored cycles).0)
        (follow-append (in_alarm k stored) (in_alarm k o.stored) _ _ t.follows ∙ rest)

-- Where a topic is configured, either a call fails and the stored keys stay as they were, or none
-- fails, every message is taken and the stored keys are exactly those that breach in this cycle.
pub publish_reliability_alerts_outcome :
    (locale_lt : Str → Str → Bool) (services : Services) (edges : List (FlowEdge ℕ))
    (stored : Option (List Str)) (k : Str)
    → truthy services.topic_arn ≢ none
    → let o = publish_reliability_alerts locale_lt services edges stored in
      let current = detect_reliability_breaches locale_lt edges in
      ((o.failed ≡ true) × (o.stored ≡ stored))
      ⊎ ((o.failed ≡ false)
          × ((in_alarm k o.stored ≡ true) ↔ IsBreaching k edges)
          × (o.sent ≡ publishes (diff_breach_state current (or_else stored []))))
unfolding publish_reliability_alerts
publish_reliability_alerts_outcome locale_lt services edges stored k topic =
    let current = detect_reliability_breaches locale_lt edges in
    let (sound, complete) = (detect_reliability_breaches_exact locale_lt edges k).0 in
    let inside = contains→Elem str_discrete k (keys_of current) in
    let outside = Elem→contains str_discrete k (keys_of current) in
    let notices = publishes (diff_breach_state current (or_else stored [])) in
    let all_sent = filter_of_all services.send_succeeds notices in
    let stays : (in_alarm k (some (keys_of current)) ≡ true) ↔ IsBreaching k edges =
      (λ h. sound (inside h), λ h. outside (complete h)) in
    ground arith
