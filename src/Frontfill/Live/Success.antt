-- ===== src/Frontfill/Live/Success.antt =====
-- A log that is in order is handled, where the sink works.
use mathlib.Core.Path.{subst}
use polymarket_indexer.Prelude.{
  ℕ, String, ◌≡◌, refl, ap, sym, ◌∙◌, Option, none, some, leb, Option-cases, Bool-cases, inl, inr,
}
use polymarket_indexer.Prelude.Outcome.{Result, ok}
use polymarket_indexer.Prelude.Exec.{bind-of-ok, bind-of-eq}
use polymarket_indexer.Storage.Sink.{EventSink}
use polymarket_indexer.Storage.Calls.{SinkEvent, IsProper}
use polymarket_indexer.Contracts.{B256}
use polymarket_indexer.Decode.{Log, DecodedEvent, Codec, decode_log}
use polymarket_indexer.Decode.Dispatch.{decode_log-IsOfKind}
use polymarket_indexer.Metrics.{observe_log}
use polymarket_indexer.Frontfill.Live.{
  Live, Clock, require, rotate_at, rotate_if_due, decode, finish_write, store, with_metrics, ingest,
  handle_log, shut_down,
}

-- In a good state, the calls of the sink return, on events of the contracts, and lead to a good state.
pub record Works (S : EventSink) : Type 1 where
  pub IsGood : S.State → Type 0
  pub write_event-IsGood :
      (e : SinkEvent) (s : S.State)
      → IsProper e
      → IsGood s
      → ((S.write_event e.event_type e.block_number e.tx_hash e.log_index e.columns s).0 ≡ ok tt)
        × IsGood (S.write_event e.event_type e.block_number e.tx_hash e.log_index e.columns s).1
  pub rotate-IsGood : (s : S.State) → IsGood s → ((S.rotate s).0 ≡ ok tt) × IsGood (S.rotate s).1
  pub close-ok : (s : S.State) → IsGood s → (S.close s).0 ≡ ok tt

-- The log has its metadata, and does not fail to decode.
pub record IsInOrder (C : Codec) (log : Log) : Type 0 where
  pub block : ℕ
  pub placed : log.block_number ≡ some block
  pub tx : B256
  pub hashed : log.transaction_hash ≡ some tx
  pub index : ℕ
  pub indexed : log.log_index ≡ some index
  pub decoded : Option DecodedEvent
  pub decodes : decode_log C log ≡ ok decoded

module _ (S : EventSink) (works : Works S) (C : Codec) (flush_blocks : ℕ) where
  open works use {IsGood, write_event-IsGood, rotate-IsGood, close-ok}

  abbrev Succeeds : Result (Unit {0}) × Live S.State → Type 0
  Succeeds r = (r.0 ≡ ok tt) × IsGood r.1.storage

  rotate_if_due-IsGood :
      (block : ℕ) (w : Live S.State)
      → IsGood w.storage
      → Succeeds (rotate_if_due S C flush_blocks block w)
  unfolding rotate_if_due rotate_at
  rotate_if_due-IsGood block w good = elim (Option-cases w.next_rotation_block) [
    | inl e ↦ rw (e, rotate_if_due) (refl, good)
    | inr (target, e) ↦ elim (Bool-cases (leb target block)) [
      | inl due ↦
          let (returned, after) = rotate-IsGood w.storage good in
          rw (e, due, returned, rotate_if_due, rotate_at) (refl, after)
      | inr not_due ↦ rw (e, not_due, rotate_if_due) (refl, good)
    ]
  ]

  store-IsGood :
      (clock : Clock) (log : Log) (o : Option DecodedEvent) (block : ℕ) (tx : String) (index : ℕ)
      (w : Live S.State)
      → decode_log C log ≡ ok o
      → IsGood w.storage
      → Succeeds (store S C flush_blocks clock o block tx index w)
  unfolding store finish_write
  store-IsGood clock log none block tx index w e good = (refl, good)
  store-IsGood clock log (some d) block tx index w e good =
      let (k, _, kind) = decode_log-IsOfKind C log d e in
      let event : SinkEvent = record {
        event_type = d.event_type;
        block_number = block;
        tx_hash = tx;
        log_index = index;
        columns = d.columns;
      } in
      let (returned, after) =
        write_event-IsGood event w.storage (k, kind.named, kind.shaped) good in
      rw (returned, store, finish_write) (refl, after)

  ingest-IsGood :
      (clock : Clock) (log : Log) (o : Option DecodedEvent) (block : ℕ) (tx : String) (index : ℕ)
      (w : Live S.State)
      → decode_log C log ≡ ok o
      → IsGood w.storage
      → Succeeds (ingest S C flush_blocks clock log block tx index w)
  unfolding ingest decode
  ingest-IsGood clock log o block tx index w e good =
      let (rotated, good₁) = rotate_if_due-IsGood block w good in
      let w₁ = (rotate_if_due S C flush_blocks block w).1 in
      let decoded : decode S C flush_blocks log w₁ ≡ (ok o, w₁) = rw (e, decode) refl in
      let same : ingest S C flush_blocks clock log block tx index w
          ≡ store S C flush_blocks clock o block tx index w₁ =
        bind-of-ok (rotate_if_due S C flush_blocks block) _ w rotated
        ∙ bind-of-eq (decode S C flush_blocks log)
            (λ d. store S C flush_blocks clock d block tx index) w₁ decoded in
      subst Succeeds (sym same) (store-IsGood clock log o block tx index w₁ e good₁)

  -- Such a log is handled, and leaves the sink in a good state.
  pub handle_log-IsGood :
      (clock : Clock) (log : Log) (w : Live S.State)
      → IsInOrder C log
      → IsGood w.storage
      → Succeeds (handle_log S C flush_blocks clock log w)
  unfolding handle_log
  handle_log-IsGood clock log w h good =
      let seen = with_metrics (observe_log h.block clock.unix clock.seen clock.seen_pruned) w in
      let same : handle_log S C flush_blocks clock log w
          ≡ ingest S C flush_blocks clock log h.block (C.hash_text h.tx) h.index seen =
        bind-of-eq (require "block_number" log.block_number) _ w
          (ap (λ o. require "block_number" o w) h.placed)
        ∙ bind-of-eq (require "transaction_hash" log.transaction_hash) _ w
            (ap (λ o. require "transaction_hash" o w) h.hashed)
        ∙ bind-of-eq (require "log_index" log.log_index) _ w
            (ap (λ o. require "log_index" o w) h.indexed) in
      subst Succeeds (sym same)
        (ingest-IsGood clock log h.decoded h.block (C.hash_text h.tx) h.index seen h.decodes good)

  pub shut_down-ok :
      (w : Live S.State) → IsGood w.storage → (shut_down S C flush_blocks (ok tt) w).0 ≡ ok tt
  unfolding shut_down
  shut_down-ok w good = rw (close-ok w.storage good, shut_down) refl
