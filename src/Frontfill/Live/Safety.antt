-- ===== src/Frontfill/Live/Safety.antt =====
-- What handling one log, and the shutdown, leave behind.
use polymarket_indexer.Prelude.{
  ℕ, ◌+◌, ◌-◌, ◌<◌, String, ◌<>◌, ◌≡◌, ◌⊎◌, ◌↔◌, inl, inr, refl, ap, sym, ◌∙◌, Option, none, some,
  leb, u64_mod, saturating_add64, arith, Option-cases, Bool-cases,
}
use polymarket_indexer.Prelude.Outcome.{Result, ok, err, Result-cases}
use polymarket_indexer.Prelude.Exec.{bind-eq-ok, ◌>>=◌}
use polymarket_indexer.Storage.Sink.{EventSink}
use polymarket_indexer.Contracts.{B256}
use polymarket_indexer.Decode.{Log, DecodedEvent, Codec, decode_log}
use polymarket_indexer.Metrics.{FrontfillMetrics, observe_log}
use polymarket_indexer.Frontfill.Live.{
  Live, Clock, rotate_at, rotate_if_due, decode, finish_write, store, with_metrics, ingest,
  handle_log, shut_down,
}

-- The first of the three positions that the log lacks, by the name that the message gives it.
abbrev pub IsFirstMissing : Log → String → Type 0
IsFirstMissing log what =
    ((log.block_number ≡ none) × (what ≡ "block_number"))
    ⊎ (((block : ℕ) × (log.block_number ≡ some block)
          × (log.transaction_hash ≡ none)
          × (what ≡ "transaction_hash"))
        ⊎ ((block : ℕ) × (tx : B256) × (log.block_number ≡ some block)
            × (log.transaction_hash ≡ some tx)
            × (log.log_index ≡ none)
            × (what ≡ "log_index")))

-- The metrics that a runtime leaves when it is taken down for such a log.
abbrev pub after_miss : Option FrontfillMetrics → Option FrontfillMetrics → Option FrontfillMetrics
after_miss none stopped = stopped
after_miss (some m) stopped =
    some (record m { missing_metadata_total = m.missing_metadata_total + 1; ws_connected = 0 })

module _ (S : EventSink) (C : Codec) (flush_blocks : ℕ) where
  -- A log without one of the three positions is an error that names the first that is missing. The
  -- sink and the next rotation are as they were, and the metrics runtime, if there is one, is taken
  -- down, disconnected, with the miss counted.
  pub handle_log-missing :
      (clock : Clock) (log : Log) (w : Live S.State) (what : String)
      → IsFirstMissing log what
      → handle_log S C flush_blocks clock log w ≡ (
        err ("frontfill received log missing " <> what),
        record w { metrics_runtime = none; stopped = after_miss w.metrics_runtime w.stopped },
      )
  unfolding handle_log
  handle_log-missing clock log w what (inl (b, is)) = elim (Option-cases w.metrics_runtime) [
    | inl none_up ↦ rw (b, is, none_up) refl
    | inr (m, up) ↦ rw (b, is, up) refl
  ]
  handle_log-missing clock log w what (inr (inl (block, b, t, is))) =
      elim (Option-cases w.metrics_runtime) [
        | inl none_up ↦ rw (b, t, is, none_up) refl
        | inr (m, up) ↦ rw (b, t, is, up) refl
      ]
  handle_log-missing clock log w what (inr (inr (block, tx, b, t, i, is))) =
      elim (Option-cases w.metrics_runtime) [
        | inl none_up ↦ rw (b, t, i, is, none_up) refl
        | inr (m, up) ↦ rw (b, t, i, is, up) refl
      ]

  pub handle_log-cases :
      (clock : Clock) (log : Log) (w : Live S.State)
      → ((block : ℕ) × (tx : B256) × (i : ℕ) × (log.block_number ≡ some block)
          × (log.transaction_hash ≡ some tx)
          × (log.log_index ≡ some i)
          × (handle_log S C flush_blocks clock log w
              ≡ ingest S C flush_blocks clock log block
                  (C.hash_text tx)
                  i
                  (with_metrics (observe_log block clock.unix clock.seen clock.seen_pruned) w)))
        ⊎ ((e : String) × ((handle_log S C flush_blocks clock log w).0 ≡ err e)
            × ((handle_log S C flush_blocks clock log w).1.metrics_runtime ≡ none))
  unfolding handle_log
  handle_log-cases clock log w = elim (Option-cases log.block_number) [
    | inl b ↦ inr ("frontfill received log missing block_number", rw b refl, rw b refl)
    | inr (block, b) ↦ elim (Option-cases log.transaction_hash) [
      | inl t ↦
          inr ("frontfill received log missing transaction_hash", rw (b, t) refl, rw (b, t) refl)
      | inr (tx, t) ↦ elim (Option-cases log.log_index) [
        | inl i ↦
            inr ("frontfill received log missing log_index", rw (b, t, i) refl, rw (b, t, i) refl)
        | inr (index, i) ↦ inl (block, tx, index, b, t, i, rw (b, t, i) refl)
      ]
    ]
  ]

  rotate_if_due_later :
      (block : ℕ) (w : Live S.State)
      → 0 < flush_blocks
      → block < u64_mod - 1
      → (rotate_if_due S C flush_blocks block w).0 ≡ ok tt
      → (target : ℕ) × ((rotate_if_due S C flush_blocks block w).1.next_rotation_block
          ≡ some target)
        × (block < target)
  unfolding rotate_if_due rotate_at
  rotate_if_due_later block w f b h = elim (Option-cases w.next_rotation_block) [
    | inl n ↦ (saturating_add64 block flush_blocks, rw (n, rotate_if_due) refl, omega arith)
    | inr (t, n) ↦ elim (Bool-cases (leb t block)) [
      | inl due ↦ elim (Result-cases (S.rotate w.storage).0) [
        | inl (_, r) ↦ (
          saturating_add64 block flush_blocks,
          rw (n, due, r, rotate_if_due, rotate_at) refl,
          omega arith,
        )
        | inr (_, r) ↦ ground arith
      ]
      | inr early ↦ (t, rw (n, early, rotate_if_due) n, ground arith)
    ]
  ]

  decode-next :
      (log : Log) (w : Live S.State)
      → (decode S C flush_blocks log w).1.next_rotation_block ≡ w.next_rotation_block
  unfolding decode
  decode-next log w = elim (Result-cases (decode_log C log)) [
    | inl (d, e) ↦ rw (e, decode) refl
    | inr (_, e) ↦ rw (e, decode) refl
  ]

  finish_write-next :
      (r : Result (Unit {0})) (w : Live S.State)
      → (finish_write S C flush_blocks r w).1.next_rotation_block ≡ w.next_rotation_block
  unfolding finish_write
  finish_write-next (ok _) w = refl
  finish_write-next (err e) w = refl

  store-next :
      (clock : Clock) (d : Option DecodedEvent) (block : ℕ) (tx : String) (i : ℕ) (w : Live S.State)
      → (store S C flush_blocks clock d block tx i w).1.next_rotation_block ≡ w.next_rotation_block
  unfolding store
  store-next clock none block tx i w = refl
  store-next clock (some d) block tx i w = finish_write-next _ _

  ingest-next :
      (clock : Clock) (log : Log) (block : ℕ) (tx : String) (i : ℕ) (w : Live S.State)
      → 0 < flush_blocks
      → block < u64_mod - 1
      → (ingest S C flush_blocks clock log block tx i w).0 ≡ ok tt
      → (target : ℕ) × ((ingest S C flush_blocks clock log block tx i w).1.next_rotation_block
          ≡ some target)
        × (block < target)
  unfolding ingest
  ingest-next clock log block tx i w f b h =
      let (_, rotated, h', e') =
        bind-eq-ok (rotate_if_due S C flush_blocks block)
          (λ _. decode S C flush_blocks log >>= λ d. store S C flush_blocks clock d block tx i) w
          h in
      let (d, decoded, h'', e'') =
        bind-eq-ok (decode S C flush_blocks log) (λ d. store S C flush_blocks clock d block tx i) _
          h' in
      let (target, next, later) = rotate_if_due_later block w f b rotated in
      (
        target,
        ap (λ x. x.next_rotation_block) (e' ∙ e'')
            ∙ store-next clock d block tx i _
            ∙ decode-next log _
            ∙ next,
        later,
      )

  -- A log that was handled leaves a block for the next rotation, beyond the log's own.
  pub handle_log-next_rotation_block :
      (clock : Clock) (log : Log) (w : Live S.State)
      → 0 < flush_blocks
      → ((b : ℕ) → log.block_number ≡ some b → b < u64_mod - 1)
      → (handle_log S C flush_blocks clock log w).0 ≡ ok tt
      → (block : ℕ) × (log.block_number ≡ some block)
        × (target : ℕ) × ((handle_log S C flush_blocks clock log w).1.next_rotation_block
            ≡ some target)
        × (block < target)
  handle_log-next_rotation_block clock log w f b h = elim (handle_log-cases clock log w) [
    | inl (block, tx, i, e, _, _, run) ↦
        let (target, next, later) =
          ingest-next clock log block (C.hash_text tx) i _ f (b block e) (rw (sym run) h) in
        (block, e, target, ap (λ x. x.1.next_rotation_block) run ∙ next, later)
    | inr (m, failed, _) ↦ cc
  ]

  -- The shutdown succeeds exactly if the signal arrived and the sink closed, and the sink is then in
  -- the state that `close` left.
  pub shut_down-ok_iff :
      (signal : Result (Unit {0})) (w : Live S.State)
      → ((shut_down S C flush_blocks signal w).0 ≡ ok tt)
        ↔ ((signal ≡ ok tt) × ((S.close w.storage).0 ≡ ok tt))
  unfolding shut_down
  shut_down-ok_iff (ok tt) w = ground (arith, Result-cases (S.close w.storage).0)
  shut_down-ok_iff (err e) w = ground arith
