-- ===== src/Frontfill/Live/Delivery.antt =====
-- The calls on the sink that handling one log amounts to.
use polymarket_indexer.Prelude.{
  length, ◌≤◌, ℕ, String, ◌≡◌, refl, ap, sym, ◌∙◌, Option, none, some, List, [], ◌∷◌, ◌++◌, map,
  leb, arith, Option-cases, Bool-cases, inl, inr, if◌then◌else◌,
}
use polymarket_indexer.Storage.Calls.{
  NoClose, events_of, SinkEvent, Call, write, rotate, call, run_calls, Reaches, Reaches-append,
}
use polymarket_indexer.Prelude.Outcome.{ok, err, Result-cases}
use polymarket_indexer.Prelude.Exec.{bind-eq-ok, ◌>>=◌}
use polymarket_indexer.Storage.Sink.{EventSink}
use polymarket_indexer.Contracts.{B256}
use polymarket_indexer.Decode.{Log, DecodedEvent, Codec, decode_log}
use polymarket_indexer.Metrics.{observe_log}
use polymarket_indexer.Frontfill.Live.{
  Live, Clock, with_metrics, rotate_at, rotate_if_due, decode, finish_write, store, ingest,
  handle_log,
}
use polymarket_indexer.Frontfill.Live.Safety.{handle_log-cases}

-- A rotation is due where the block that was set has been reached.
pub rotations : Option ℕ → ℕ → List Call
rotations none block = []
rotations (some target) block = if leb target block then rotate ∷ [] else []

pub event_at : ℕ → String → ℕ → DecodedEvent → SinkEvent
event_at block tx i d = record {
  event_type = d.event_type;
  block_number = block;
  tx_hash = tx;
  log_index = i;
  columns = d.columns;
}

pub writes_at : ℕ → String → ℕ → Option DecodedEvent → List SinkEvent
unfolding event_at
writes_at block tx i none = []
writes_at block tx i (some d) = event_at block tx i d ∷ []

pub rotations-NoClose : (next : Option ℕ) (block : ℕ) → NoClose (rotations next block)
unfolding rotations
rotations-NoClose none block = tt
rotations-NoClose (some t) block = elim (Bool-cases (leb t block)) [
  | inl e ↦ rw (e, rotations) tt
  | inr e ↦ rw (e, rotations) tt
]

pub length-rotations : (next : Option ℕ) (block : ℕ) → length (rotations next block) ≤ 1
unfolding rotations
length-rotations none block = omega arith
length-rotations (some t) block = ground arith

pub writes-NoClose : (es : List SinkEvent) → NoClose (map write es)
writes-NoClose [] = tt
writes-NoClose (e ∷ es) = writes-NoClose es

length-writes_at :
    (block : ℕ) (tx : String) (i : ℕ) (o : Option DecodedEvent)
    → length (writes_at block tx i o) ≤ 1
unfolding writes_at
length-writes_at block tx i none = omega arith
length-writes_at block tx i (some d) = omega arith

module _ (C : Codec) where
  -- The event of a log that has all its metadata and decodes to one.
  pub log_events : Log → List SinkEvent
  unfolding writes_at
  log_events log = elim log.block_number [
    | none ↦ []
    | some block ↦ elim log.transaction_hash [
      | none ↦ []
      | some tx ↦ elim log.log_index [
        | none ↦ []
        | some i ↦ elim (decode_log C log) [
          | err _ ↦ []
          | ok d ↦ writes_at block (C.hash_text tx) i d
        ]
      ]
    ]
  ]

module _ (C : Codec) where
  pub length-log_events : (log : Log) → length (log_events C log) ≤ 1
  unfolding log_events
  length-log_events log = elim (Option-cases log.block_number) [
    | inl e ↦ rw (e, log_events) (omega arith)
    | inr (block, e) ↦ elim (Option-cases log.transaction_hash) [
      | inl f ↦ rw (e, log_events, f) (omega arith)
      | inr (tx, f) ↦ elim (Option-cases log.log_index) [
        | inl g ↦ rw (e, log_events, f, g) (omega arith)
        | inr (i, g) ↦ elim (Result-cases (decode_log C log)) [
          | inr (_, d) ↦ rw (e, log_events, f, g, d) (omega arith)
          | inl (o, d) ↦ rw (e, log_events, f, g, d) (length-writes_at block (C.hash_text tx) i o)
        ]
      ]
    ]
  ]

pub events_of-rotations : (next : Option ℕ) (block : ℕ) → events_of (rotations next block) ≡ []
unfolding rotations events_of
events_of-rotations none block = refl
events_of-rotations (some t) block = ground arith

pub events_of-writes : (es : List SinkEvent) → events_of (map write es) ≡ es
unfolding events_of
events_of-writes [] = refl
events_of-writes (e ∷ es) = ap (λ l. e ∷ l) (events_of-writes es)

module _ (S : EventSink) (C : Codec) (flush_blocks : ℕ) where
  rotate_if_due-Reaches :
      (block : ℕ) (w : Live S.State)
      → (rotate_if_due S C flush_blocks block w).0 ≡ ok tt
      → Reaches S
          (rotations w.next_rotation_block block)
          w.storage
          (rotate_if_due S C flush_blocks block w).1.storage
  unfolding rotate_if_due rotate_at rotations run_calls call
  rotate_if_due-Reaches block w h = elim (Option-cases w.next_rotation_block) [
    | inl n ↦ rw (n, rotate_if_due, rotations) refl
    | inr (t, n) ↦ elim (Bool-cases (leb t block)) [
      | inl due ↦ elim (Result-cases (S.rotate w.storage).0) [
        | inl (_, r) ↦ rw (n, due, r, rotate_if_due, rotate_at, rotations) refl
        | inr (_, r) ↦ let absurd : ⊥ = ground arith in elim absurd [ ]
      ]
      | inr early ↦ rw (n, early, rotate_if_due, rotations) refl
    ]
  ]

  decode-ok :
      (log : Log) (w : Live S.State) (d : Option DecodedEvent)
      → (decode S C flush_blocks log w).0 ≡ ok d
      → (decode_log C log ≡ ok d) × ((decode S C flush_blocks log w).1 ≡ w)
  unfolding decode
  decode-ok log w d h = elim (Result-cases (decode_log C log)) [
    | inl (d', r) ↦ ground arith
    | inr (_, r) ↦ let absurd : ⊥ = ground arith in elim absurd [ ]
  ]

  store-Reaches :
      (clock : Clock) (d : Option DecodedEvent) (block : ℕ) (tx : String) (i : ℕ) (w : Live S.State)
      → (store S C flush_blocks clock d block tx i w).0 ≡ ok tt
      → Reaches S
          (map write (writes_at block tx i d))
          w.storage
          (store S C flush_blocks clock d block tx i w).1.storage
  unfolding store finish_write writes_at run_calls call
  store-Reaches clock none block tx i w h = refl
  store-Reaches clock (some d) block tx i w h =
      elim (Result-cases (S.write_event d.event_type block tx i d.columns w.storage).0) [
        | inl (_, r) ↦ rw (r, finish_write) refl
        | inr (_, r) ↦ let absurd : ⊥ = ground arith in elim absurd [ ]
      ]

  ingest-Reaches :
      (clock : Clock) (log : Log) (block : ℕ) (tx : String) (i : ℕ) (w : Live S.State)
      → (ingest S C flush_blocks clock log block tx i w).0 ≡ ok tt
      → (d : Option DecodedEvent) × (decode_log C log ≡ ok d)
        × Reaches S
            (rotations w.next_rotation_block block ++ map write (writes_at block tx i d))
            w.storage
            (ingest S C flush_blocks clock log block tx i w).1.storage
  unfolding ingest
  ingest-Reaches clock log block tx i w h =
      let then_store = λ (d : Option DecodedEvent). store S C flush_blocks clock d block tx i in
      let (_, rotated, h₁, s₁) =
        bind-eq-ok (rotate_if_due S C flush_blocks block)
          (λ _. decode S C flush_blocks log >>= then_store) w h in
      let w₁ = (rotate_if_due S C flush_blocks block w).1 in
      let (d, decoded, h₂, s₂) = bind-eq-ok (decode S C flush_blocks log) then_store w₁ h₁ in
      let (e, kept) = decode-ok log w₁ d decoded in
      let w₂ = (decode S C flush_blocks log w₁).1 in
      (
        d,
        e,
        rw (s₁ ∙ s₂) (
            Reaches-append S (rotations w.next_rotation_block block)
              (map write (writes_at block tx i d)) w.storage w₁.storage (then_store d w₂).1.storage
              (rotate_if_due-Reaches block w rotated)
              (rw (← ap (λ (x : Live S.State). x.storage) kept)
                (store-Reaches clock d block tx i w₂ h₂))),
      )

  log_events-eq :
      (log : Log) (block i : ℕ) (tx : B256) (d : Option DecodedEvent)
      → log.block_number ≡ some block
      → log.transaction_hash ≡ some tx
      → log.log_index ≡ some i
      → decode_log C log ≡ ok d
      → log_events C log ≡ writes_at block (C.hash_text tx) i d
  unfolding log_events
  log_events-eq log block i tx d b t x e = ground arith

  -- Handling a log is a rotation of the sink, if one is due, and a write of its event, if it has
  -- one, in that order, and no other call.
  pub handle_log-Reaches :
      (clock : Clock) (log : Log) (w : Live S.State)
      → (handle_log S C flush_blocks clock log w).0 ≡ ok tt
      → (block : ℕ) × (log.block_number ≡ some block)
        × Reaches S
            (rotations w.next_rotation_block block ++ map write (log_events C log))
            w.storage
            (handle_log S C flush_blocks clock log w).1.storage
  handle_log-Reaches clock log w h = elim (handle_log-cases S C flush_blocks clock log w) [
    | inl (block, tx, i, e, t, x, run) ↦
        let w' = with_metrics (observe_log block clock.unix clock.seen clock.seen_pruned) w in
        let (d, decoded, reach) =
          ingest-Reaches clock log block (C.hash_text tx) i w' (rw (sym run) h) in
        (block, e, rw (run, log_events-eq log block i tx d e t x decoded) reach)
    | inr (m, failed, _) ↦ cc
  ]
