-- ===== src/Metrics/Registry/Registration.antt =====
-- The names of the metrics clash neither with one another nor with what an empty registry has.
use polymarket_indexer.Prelude.{
  String, ◌≡◌, refl, ap, sym, ◌∙◌, Bool, true, false, not, ◌&&◌, List, [], ◌∷◌, ◌++◌, map, str_eq,
  arith, All,
}
use mathlib.Core.List.{append_assoc, append-nil}
use polymarket_indexer.Prelude.Identifiers.{is_name}
use polymarket_indexer.Prelude.Dict.{contains}
use polymarket_indexer.Prelude.Outcome.{ok}
use polymarket_indexer.Metrics.{registered}
use polymarket_indexer.Metrics.Registry.{
  Opts, Prometheus, frontfill_opts, new_metrics, register_all, register,
}

-- Names that are registered one after another are new each time.
fresh : List String → List String → Bool
unfolding contains
fresh taken [] = true
fresh taken (x ∷ xs) = not (contains x taken) && fresh (taken ++ x ∷ []) xs

abbrev pub names_of : List Opts → List String
names_of os = map (λ (o : Opts). o.name) os

-- Labels that are identifiers, no two of them the same, and none of them `le`, which a histogram has
-- for itself.
unfoldable pub are_labels : List String → Bool
unfolding contains
are_labels [] = true
are_labels (label ∷ labels) =
    is_name label && not (str_eq label "le") && not (contains label labels) && are_labels labels

-- What `prometheus` asks of a metric: a name and labels of that form, and a help text.
unfoldable pub is_acceptable : Opts → Bool
unfolding are_labels
is_acceptable o = is_name o.name && not (str_eq o.help "") && are_labels o.labels

-- What the program relies on of `prometheus`: an acceptable metric is made, and a registry takes a
-- metric whose name it does not have.
pub record RegistryLaws (P : Prometheus) : Type 1 where
  pub name_of : P.Metric → String
  pub names : P.Registry → List String
  pub names-new_registry : names P.new_registry ≡ []
  pub new_metric-ok :
      (o : Opts)
      → is_acceptable o ≡ true
      → (metric : P.Metric) × (P.new_metric o ≡ ok metric) × (name_of metric ≡ o.name)
  pub register_metric-ok :
      (metric : P.Metric) (r : P.Registry)
      → contains (name_of metric) (names r) ≡ false
      → ((P.register_metric metric r).0 ≡ ok tt)
        × (names (P.register_metric metric r).1 ≡ names r ++ name_of metric ∷ [])

module _ (P : Prometheus) (L : RegistryLaws P) where
  new_metrics-ok :
      (os : List Opts)
      → All (λ o. is_acceptable o ≡ true) os
      → (metrics : List P.Metric) × (new_metrics P os ≡ ok metrics)
        × (map L.name_of metrics ≡ names_of os)
  unfolding new_metrics
  new_metrics-ok [] h = ([], refl, refl)
  new_metrics-ok (o ∷ os) (h, hs) =
      let (metric, made, name) = L.new_metric-ok o h in
      let (metrics, all_made, all_names) = new_metrics-ok os hs in
      (metric ∷ metrics, rw (made, all_made) refl, λ i. name i ∷ all_names i)

  register_all-ok :
      (metrics : List P.Metric) (r : P.Registry)
      → fresh (L.names r) (map L.name_of metrics) ≡ true
      → ((register_all P metrics r).0 ≡ ok tt)
        × (L.names (register_all P metrics r).1 ≡ L.names r ++ map L.name_of metrics)
  unfolding register_all fresh
  register_all-ok [] r h = (refl, sym (append-nil (L.names r)))
  register_all-ok (metric ∷ metrics) r h =
      let new : contains (L.name_of metric) (L.names r) ≡ false = ground arith in
      let later : fresh (L.names r ++ L.name_of metric ∷ []) (map L.name_of metrics) ≡ true =
        ground arith in
      let (taken, names) = L.register_metric-ok metric r new in
      let (all_taken, all_names) =
        register_all-ok metrics (P.register_metric metric r).1 (rw names later) in
      rw taken (
        all_taken,
        all_names
            ∙ ap (λ l. l ++ map L.name_of metrics) names
            ∙ append_assoc (L.names r) (L.name_of metric ∷ []) (map L.name_of metrics),
      )

  names-fresh : fresh [] (names_of frontfill_opts) ≡ true
  unfolding fresh contains frontfill_opts
  names-fresh = refl

  frontfill_opts-is_acceptable : All (λ o. is_acceptable o ≡ true) frontfill_opts
  unfolding is_acceptable are_labels is_name contains frontfill_opts
  frontfill_opts-is_acceptable = (
    refl,
    (
      refl,
      (refl, (refl, (refl, (refl, (refl, (refl, (refl, (refl, (refl, (refl, (refl, tt))))))))))),
    ),
  )

  -- On a new registry the registration returns, since the options of the metrics are acceptable and
  -- no two of the names are the same; the registry then has the thirteen names.
  pub register-ok :
      ((register P P.new_registry).0 ≡ ok registered)
      × (L.names (register P P.new_registry).1 ≡ names_of frontfill_opts)
  unfolding register
  register-ok =
      let (metrics, made, names) = new_metrics-ok frontfill_opts frontfill_opts-is_acceptable in
      let free : fresh (L.names P.new_registry) (map L.name_of metrics) ≡ true =
        rw (L.names-new_registry, names) names-fresh in
      let (taken, all_names) = register_all-ok metrics P.new_registry free in
      rw (made, register, taken) (refl, all_names ∙ (λ i. L.names-new_registry i ++ names i))
