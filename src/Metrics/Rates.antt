-- ===== src/Metrics/Rates.antt =====
-- The rate gauges show the number of entries of the last 60 seconds, in total and for each type.
use mathlib.Core.Option
use polymarket_indexer.Prelude.{
  ℕ, ◌+◌, ◌≤◌, String, ◌≡◌, refl, ap, ◌∙◌, none, some, List, [], ◌∷◌, ◌++◌, map, arith, All,
  All-map, All-append, Bool-cases, Option-cases, inl, inr, length, str_eq, eq_iff,
}
use polymarket_indexer.Prelude.Dict.{
  Dict, lookup, insert, lookup-insert, insert-NodupKeys, NodupKeys,
}
use polymarket_indexer.Metrics.{
  RateState, FrontfillMetrics, registered, prune_front, prune_old_entries, set_rates, recalculate,
  observe_log, increment, push_back, observe_decoded_type, rate_tick,
}
use polymarket_indexer.Metrics.Window.{
  recent, IsOrdered, prune_front-eq-recent, prune_front-IsOrdered, All-prune_front,
  append-IsOrdered,
}

-- In order of time, and none later than `now`.
abbrev pub IsTimely : ℕ → List ℕ → Type 0
IsTimely now ts = IsOrdered ts × All (λ t. t ≤ now) ts

IsTimely-later : (now later : ℕ) (ts : List ℕ) → now ≤ later → IsTimely now ts → IsTimely later ts
IsTimely-later now later ts h t =
    (t.0, All-map (λ u. u ≤ now) (λ u. u ≤ later) ts (λ u le. omega arith) t.1)

IsTimely-prune_front :
    (now at : ℕ) (ts : List ℕ) → IsTimely now ts → IsTimely now (prune_front at ts)
IsTimely-prune_front now at ts t =
    (prune_front-IsOrdered at ts t.0, All-prune_front (λ u. u ≤ now) at ts t.1)

IsTimely-append : (now : ℕ) (ts : List ℕ) → IsTimely now ts → IsTimely now (ts ++ now ∷ [])
IsTimely-append now ts t =
    (append-IsOrdered ts now t.0 t.1, All-append (λ u. u ≤ now) ts (now ∷ []) t.1 (omega arith, tt))

abbrev pruned : ℕ → Dict (List ℕ) → Dict (List ℕ)
pruned now m = map (λ (k, ts). (k, prune_front now ts)) m

lookup-pruned :
    (now : ℕ) (k : String) (m : Dict (List ℕ))
    → lookup k (pruned now m) ≡ Option.map (prune_front now) (lookup k m)
unfolding lookup
lookup-pruned now k [] = refl
lookup-pruned now k ((j, ts) ∷ m) = ground (arith, lookup-pruned now k m)

pruned-NodupKeys : (now : ℕ) (m : Dict (List ℕ)) → NodupKeys m → NodupKeys (pruned now m)
pruned-NodupKeys now [] u = tt
pruned-NodupKeys now ((j, ts) ∷ m) u =
    (lookup-pruned now j m ∙ ap (Option.map (prune_front now)) u.0, pruned-NodupKeys now m u.1)

lookup-set_rates :
    (k : String) (m : Dict (List ℕ)) (gauges : Dict ℕ)
    → NodupKeys m
    → lookup k (set_rates m gauges)
      ≡ elim (lookup k m) [ none ↦ lookup k gauges | some ts ↦ some (length ts) ]
unfolding set_rates lookup
lookup-set_rates k [] gauges u = refl
lookup-set_rates k ((j, ts) ∷ m) gauges u = ground (
  arith,
  lookup-set_rates k m (insert j (length ts) gauges) u.1,
  lookup-insert j k (length ts) gauges,
  eq_iff j k,
  u.0,
)

-- What the metrics keep: the queues are in order of time, and the gauges are their lengths.
pub record IsAccurate (now : ℕ) (m : FrontfillMetrics) : Type 0 where
  pub total_timely : IsTimely now m.rate_state.total
  pub type_timely :
      (k : String) (ts : List ℕ) → lookup k m.rate_state.by_type ≡ some ts → IsTimely now ts
  pub nodup : NodupKeys m.rate_state.by_type
  pub total_rate : m.logs_per_minute ≡ length m.rate_state.total
  pub type_rate :
      (k : String)
      → lookup k m.logs_per_minute_by_type ≡ Option.map length (lookup k m.rate_state.by_type)

pub registered-IsAccurate : (now : ℕ) → IsAccurate now registered
unfolding lookup
registered-IsAccurate now = record {
  total_timely = (tt, tt);
  type_timely = λ k ts h. cc;
  nodup = tt;
  total_rate = refl;
  type_rate = λ k. refl;
}

-- A recalculation publishes the state that it is given, if no gauge belongs to a type without entry.
recalculate-IsAccurate :
    (now later : ℕ) (s : RateState) (m : FrontfillMetrics)
    → IsTimely now s.total
    → ((k : String) (ts : List ℕ) → lookup k s.by_type ≡ some ts → IsTimely now ts)
    → NodupKeys s.by_type
    → ((k : String) → lookup k s.by_type ≡ none → lookup k m.logs_per_minute_by_type ≡ none)
    → IsAccurate now (recalculate later s m)
unfolding recalculate prune_old_entries
recalculate-IsAccurate now later s m t ts u g = record {
  total_timely = IsTimely-prune_front now later s.total t;
  type_timely = λ k l h. elim (Option-cases (lookup k s.by_type)) [
    | inl e ↦ ground (arith, lookup-pruned later k s.by_type)
    | inr (l', e) ↦
        let p : l ≡ prune_front later l' = ground (arith, lookup-pruned later k s.by_type) in
        rw p (IsTimely-prune_front now later l' (ts k l' e))
  ];
  nodup = pruned-NodupKeys later s.by_type u;
  total_rate = refl;
  type_rate = λ k. elim (Option-cases (lookup k s.by_type)) [
    | inl e ↦ ground (
      arith,
      lookup-set_rates k (pruned later s.by_type) m.logs_per_minute_by_type
          (pruned-NodupKeys later s.by_type u),
      lookup-pruned later k s.by_type,
      g k e,
    )
    | inr (l, e) ↦ ground (
      arith,
      lookup-set_rates k (pruned later s.by_type) m.logs_per_minute_by_type
          (pruned-NodupKeys later s.by_type u),
      lookup-pruned later k s.by_type,
    )
  ];
}

module _ (last now later : ℕ) (m : FrontfillMetrics) (a : IsAccurate last m) (h : last ≤ now) where
  types_at_now :
      (k : String) (ts : List ℕ) → lookup k m.rate_state.by_type ≡ some ts → IsTimely now ts
  types_at_now k ts e = IsTimely-later last now ts h (a.type_timely k ts e)

  gauge_free :
      (k : String)
      → lookup k m.rate_state.by_type ≡ none
      → lookup k m.logs_per_minute_by_type ≡ none
  gauge_free k e = a.type_rate k ∙ ap (Option.map length) e

  -- Observing a log keeps the gauges accurate.
  pub observe_log-IsAccurate :
      (block_number unix : ℕ) → IsAccurate now (observe_log block_number unix now later m)
  unfolding observe_log
  observe_log-IsAccurate block_number unix =
      recalculate-IsAccurate now later _
        (record m {
          logs_total = m.logs_total + 1;
          current_block_number = block_number;
          last_log_unix_seconds = unix;
        })
        (IsTimely-append now m.rate_state.total
          (IsTimely-later last now m.rate_state.total h a.total_timely))
        types_at_now a.nodup gauge_free

  -- After a log is observed, the total gauge is the number of logs of the last 60 seconds, with it.
  pub logs_per_minute-observe_log :
      (block_number unix : ℕ)
      → (observe_log block_number unix now later m).logs_per_minute
        ≡ length (recent later (m.rate_state.total ++ now ∷ []))
  unfolding observe_log recalculate prune_old_entries
  logs_per_minute-observe_log block_number unix = ap length (
      prune_front-eq-recent later _
        (IsTimely-append now m.rate_state.total
          (IsTimely-later last now m.rate_state.total h a.total_timely)).0)

  push_back-cases :
      (event_type k : String) (ts : List ℕ)
      → lookup k (push_back event_type now m.rate_state.by_type) ≡ some ts
      → IsTimely now ts
  unfolding push_back
  push_back-cases event_type k ts e = elim (Option-cases (lookup event_type m.rate_state.by_type)) [
    | inl fresh ↦ elim (Bool-cases (str_eq event_type k)) [
      | inl same ↦
          let p : ts ≡ now ∷ [] =
            ground (arith, lookup-insert event_type k (now ∷ []) m.rate_state.by_type) in
          rw p (IsTimely-append now [] (tt, tt))
      | inr differs ↦
          types_at_now k ts
            (ground (arith, lookup-insert event_type k (now ∷ []) m.rate_state.by_type))
    ]
    | inr (old, there) ↦ elim (Bool-cases (str_eq event_type k)) [
      | inl same ↦
          let p : ts ≡ old ++ now ∷ [] =
            ground (arith, lookup-insert event_type k (old ++ now ∷ []) m.rate_state.by_type) in
          rw p (IsTimely-append now old (types_at_now event_type old there))
      | inr differs ↦
          types_at_now k ts
            (ground (arith, lookup-insert event_type k (old ++ now ∷ []) m.rate_state.by_type))
    ]
  ]

  push_back-NodupKeys :
      (event_type : String) → NodupKeys (push_back event_type now m.rate_state.by_type)
  unfolding push_back
  push_back-NodupKeys event_type = elim (Option-cases (lookup event_type m.rate_state.by_type)) [
    | inl e ↦ rw (e, push_back) (insert-NodupKeys event_type _ _ a.nodup)
    | inr (old, e) ↦ rw (e, push_back) (insert-NodupKeys event_type _ _ a.nodup)
  ]

  push_back-gauge_free :
      (event_type k : String)
      → lookup k (push_back event_type now m.rate_state.by_type) ≡ none
      → lookup k m.logs_per_minute_by_type ≡ none
  unfolding push_back
  push_back-gauge_free event_type k e =
      elim (Option-cases (lookup event_type m.rate_state.by_type)) [
        | inl fresh ↦
            gauge_free k
              (ground (arith, lookup-insert event_type k (now ∷ []) m.rate_state.by_type))
        | inr (old, there) ↦
            gauge_free k
              (ground (arith, lookup-insert event_type k (old ++ now ∷ []) m.rate_state.by_type))
      ]

  -- Observing a decoded event keeps the gauges accurate.
  pub observe_decoded_type-IsAccurate :
      (event_type : String) → IsAccurate now (observe_decoded_type event_type now later m)
  unfolding observe_decoded_type
  observe_decoded_type-IsAccurate event_type =
      recalculate-IsAccurate now later _
        (record m { logs_by_type_total = increment event_type m.logs_by_type_total })
        (IsTimely-later last now m.rate_state.total h a.total_timely) (push_back-cases event_type)
        (push_back-NodupKeys event_type) (push_back-gauge_free event_type)

  -- A tick of the background task keeps the gauges accurate.
  pub rate_tick-IsAccurate : IsAccurate now (rate_tick later m)
  unfolding rate_tick
  rate_tick-IsAccurate =
      recalculate-IsAccurate now later m.rate_state m
        (IsTimely-later last now m.rate_state.total h a.total_timely) types_at_now a.nodup
        gauge_free
