-- ===== src/Decode/Dispatch.antt =====
-- Which branch of `decode_log` a log takes, and what the result says of the log.
use polymarket_indexer.Prelude.{
  ◌≡◌, refl, ◌≢◌, ◌↔◌, ◌⊎◌, Option, none, some, List, [], ◌∷◌, arith, ==_iff, ◌==◌, Bool-cases,
  Option-cases, sym, ap, ◌∙◌, inl, inr, All, if◌then◌else◌,
}
use mathlib.Core.Option.{some-injective}
use polymarket_indexer.Prelude.Outcome.{Result, ok, >>=-eq-ok}
use polymarket_indexer.Contracts.{
  B256, EventKind, condition_preparation, position_split, positions_merge, payout_redemption,
  order_filled, orders_matched, order_cancelled, market_prepared, question_prepared,
  positions_converted,
}
use polymarket_indexer.Decode.{
  Log, DecodedEvent, Codec, topic0, fields, to_columns, decode_as, route, decode_log,
}
use polymarket_indexer.Decode.Columns.{IsOfKind, decode_as-IsOfKind, column_names, column_names-eq}

-- No two events have one signature hash.
abbrev pub HasDistinctHashes : Codec → Type 0
HasDistinctHashes c = (j k : EventKind) → c.signature_hash j ≡ c.signature_hash k → j ≡ k

abbrev kinds : List EventKind
kinds =
    condition_preparation ∷ position_split ∷ positions_merge ∷ payout_redemption ∷ order_filled
    ∷ orders_matched ∷ order_cancelled ∷ market_prepared ∷ question_prepared ∷ positions_converted
    ∷ []

of_all {ℓ} : (P : EventKind → Type ℓ) (k : EventKind) → All P kinds → P k
of_all P condition_preparation h = h.0
of_all P position_split h = h.1.0
of_all P positions_merge h = h.1.1.0
of_all P payout_redemption h = h.1.1.1.0
of_all P order_filled h = h.1.1.1.1.0
of_all P orders_matched h = h.1.1.1.1.1.0
of_all P order_cancelled h = h.1.1.1.1.1.1.0
of_all P market_prepared h = h.1.1.1.1.1.1.1.0
of_all P question_prepared h = h.1.1.1.1.1.1.1.1.0
of_all P positions_converted h = h.1.1.1.1.1.1.1.1.1.0

module _ (c : Codec) where
  decode_as-ne-none : (k : EventKind) (log : Log) → decode_as c k log ≢ ok none
  unfolding decode_as
  decode_as-ne-none k log h =
      let (event, e, h') = >>=-eq-ok (c.log_decode k log) _ h in
      let (cols, e', h'') = >>=-eq-ok (to_columns c (fields k event)) _ h' in cc

  -- The chain of tests as a search through a list of kinds.
  route_among : List EventKind → B256 → Log → Result (Option DecodedEvent)
  route_among [] t log = ok none
  route_among (k ∷ ks) t log =
      if t == c.signature_hash k then decode_as c k log else route_among ks t log

  route-eq-route_among : (t : B256) (log : Log) → route c t log ≡ route_among kinds t log
  unfolding route route_among
  route-eq-route_among t log = refl

  -- A search stops at a kind that has the topic, or passes all of them.
  route_among-cases :
      (ks : List EventKind) (t : B256) (log : Log)
      → ((k : EventKind) × (t ≡ c.signature_hash k) × (route_among ks t log ≡ decode_as c k log))
        ⊎ (All (λ k. t ≢ c.signature_hash k) ks × (route_among ks t log ≡ ok none))
  unfolding route_among
  route_among-cases [] t log = inr (tt, refl)
  route_among-cases (k ∷ ks) t log = elim (Bool-cases (t == c.signature_hash k)) [
    | inl same ↦ inl (k, (==_iff _ _).0 same, rw same)
    | inr differs ↦ rw differs (ground (arith, route_among-cases ks t log))
  ]

  pub route-cases :
      (t : B256) (log : Log)
      → ((k : EventKind) × (t ≡ c.signature_hash k) × (route c t log ≡ decode_as c k log))
        ⊎ (((k : EventKind) → t ≢ c.signature_hash k) × (route c t log ≡ ok none))
  route-cases t log = rw route-eq-route_among (elim (route_among-cases kinds t log) [
    | inl found ↦ inl found
    | inr (passed, e) ↦ inr (λ k. of_all (λ j. t ≢ c.signature_hash j) k passed, e)
  ])

  decode_log-cases :
      (log : Log)
      → ((k : EventKind) × (topic0 log ≡ some (c.signature_hash k))
          × (decode_log c log ≡ decode_as c k log))
        ⊎ (((k : EventKind) → topic0 log ≢ some (c.signature_hash k))
            × (decode_log c log ≡ ok none))
  unfolding decode_log
  decode_log-cases log = elim (Option-cases (topic0 log)) [
    | inl e ↦ inr (λ k h. cc, rw (e, decode_log))
    | inr (t, e) ↦ elim (route-cases t log) [
      | inl (k, same, r) ↦ inl (k, cc, rw (e, decode_log) r)
      | inr (differ, r) ↦ inr (λ k h. differ k (cc), rw (e, decode_log) r)
    ]
  ]

  -- With distinct signature hashes, a log whose first topic is the hash of an event is decoded as
  -- that event.
  pub decode_log-eq-decode_as :
      HasDistinctHashes c
      → (k : EventKind) (log : Log) → topic0 log ≡ some (c.signature_hash k)
      → decode_log c log ≡ decode_as c k log
  decode_log-eq-decode_as distinct k log h = elim (decode_log-cases log) [
    | inl (j, hj, e) ↦
        let same : j ≡ k = distinct j k (some-injective _ _ (sym hj ∙ h)) in
        e ∙ ap (λ i. decode_as c i log) same
    | inr (unknown, e) ↦ absurd (unknown k h)
  ]

  -- A log is passed over exactly when its first topic is missing or is no event's signature hash.
  pub decode_log-none_iff :
      (log : Log)
      → (decode_log c log ≡ ok none) ↔ ((k : EventKind) → topic0 log ≢ some (c.signature_hash k))
  decode_log-none_iff log = elim (decode_log-cases log) [
    | inl (k, h, e) ↦ (λ n. absurd (decode_as-ne-none k log (sym e ∙ n)), λ u. absurd (u k h))
    | inr (unknown, e) ↦ (λ _. unknown, λ _. e)
  ]

  -- A decoded event is of a kind whose signature hash is the first topic of the log: it has the
  -- name and the columns of that kind.
  pub decode_log-IsOfKind :
      (log : Log) (d : DecodedEvent)
      → decode_log c log ≡ ok (some d)
      → (k : EventKind) × (topic0 log ≡ some (c.signature_hash k)) × IsOfKind k d
  decode_log-IsOfKind log d h = elim (decode_log-cases log) [
    | inl (k, hk, e) ↦ (k, hk, decode_as-IsOfKind c k log d (sym e ∙ h))
    | inr (unknown, e) ↦ cc
  ]

  -- Two decoded events with one name have the same columns in the same order.
  pub decode_log-same_columns :
      (log log' : Log) (d e : DecodedEvent)
      → decode_log c log ≡ ok (some d)
      → decode_log c log' ≡ ok (some e)
      → d.event_type ≡ e.event_type
      → column_names d ≡ column_names e
  decode_log-same_columns log log' d e hd he same =
      let (j, _, dj) = decode_log-IsOfKind log d hd in
      let (k, _, ek) = decode_log-IsOfKind log' e he in column_names-eq j k d e dj ek same
