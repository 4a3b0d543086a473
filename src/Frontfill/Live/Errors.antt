-- ===== src/Frontfill/Live/Errors.antt =====
-- What an error leaves behind.
use polymarket_indexer.Prelude.{
  ℕ, String, ◌≡◌, ◌⊎◌, inl, inr, refl, ap, sym, ◌∙◌, Option, none, some, leb, arith, Option-cases,
  Bool-cases,
}
use polymarket_indexer.Prelude.Outcome.{Result, ok, err, Result-cases}
use polymarket_indexer.Prelude.Exec.{bind-eq-err, ◌>>=◌}
use polymarket_indexer.Storage.Sink.{EventSink}
use polymarket_indexer.Decode.{Log, DecodedEvent, Codec, decode_log}
use polymarket_indexer.Frontfill.Live.Safety.{handle_log-cases}
use polymarket_indexer.Frontfill.Live.{
  Live, Clock, rotate_at, rotate_if_due, decode, finish_write, store, ingest, handle_log,
}

module _ (S : EventSink) (C : Codec) (flush_blocks : ℕ) where
  rotate_if_due-err :
      (block : ℕ) (w : Live S.State) (e : String)
      → (rotate_if_due S C flush_blocks block w).0 ≡ err e
      → ((S.rotate w.storage).0 ≡ err e)
        × ((rotate_if_due S C flush_blocks block w).1.storage ≡ (S.rotate w.storage).1)
  unfolding rotate_if_due rotate_at
  rotate_if_due-err block w e h = elim (Option-cases w.next_rotation_block) [
    | inl n ↦ ground arith
    | inr (t, n) ↦ elim (Bool-cases (leb t block)) [
      | inl due ↦ elim (Result-cases (S.rotate w.storage).0) [
        | inl (_, r) ↦ ground arith
        | inr (e', r) ↦ (ground arith, rw (n, due, r, rotate_if_due, rotate_at) refl)
      ]
      | inr early ↦ ground arith
    ]
  ]

  decode-err :
      (log : Log) (w : Live S.State) (e : String)
      → (decode S C flush_blocks log w).0 ≡ err e
      → (decode S C flush_blocks log w).1.metrics_runtime ≡ none
  unfolding decode
  decode-err log w e h = elim (Result-cases (decode_log C log)) [
    | inl (d, r) ↦ ground arith
    | inr (_, r) ↦ rw (r, decode) refl
  ]

  finish_write-err :
      (r : Result (Unit {0})) (w : Live S.State) (e : String)
      → (finish_write S C flush_blocks r w).0 ≡ err e
      → (finish_write S C flush_blocks r w).1.metrics_runtime ≡ none
  unfolding finish_write
  finish_write-err (ok _) w e h = cc
  finish_write-err (err _) w e h = refl

  store-err :
      (clock : Clock) (d : Option DecodedEvent) (block : ℕ) (tx : String) (i : ℕ) (w : Live S.State)
      (e : String)
      → (store S C flush_blocks clock d block tx i w).0 ≡ err e
      → (store S C flush_blocks clock d block tx i w).1.metrics_runtime ≡ none
  unfolding store
  store-err clock none block tx i w e h = cc
  store-err clock (some d) block tx i w e h = finish_write-err _ _ e h

  ingest-err :
      (clock : Clock) (log : Log) (block : ℕ) (tx : String) (i : ℕ) (w : Live S.State) (e : String)
      → (ingest S C flush_blocks clock log block tx i w).0 ≡ err e
      → ((ingest S C flush_blocks clock log block tx i w).1.metrics_runtime ≡ none)
        ⊎ (((S.rotate w.storage).0 ≡ err e)
            × ((ingest S C flush_blocks clock log block tx i w).1.storage ≡ (S.rotate w.storage).1))
  unfolding ingest
  ingest-err clock log block tx i w e h =
      elim (bind-eq-err (rotate_if_due S C flush_blocks block)
        (λ _. decode S C flush_blocks log >>= λ d. store S C flush_blocks clock d block tx i) w h) [
          | inl (failed, last) ↦
              let (r, s) = rotate_if_due-err block w e failed in
              inr (r, ap (λ x. x.storage) last ∙ s)
          | inr (_, _, h', e') ↦
              elim (bind-eq-err (decode S C flush_blocks log)
                (λ d. store S C flush_blocks clock d block tx i) _ h') [
                  | inl (failed, last) ↦
                      inl (ap (λ x. x.metrics_runtime) (e' ∙ last) ∙ decode-err log _ e failed)
                  | inr (d, _, h'', e'') ↦ inl (
                      ap (λ x. x.metrics_runtime) (e' ∙ e'') ∙ store-err clock d block tx i _ e h'')
                ]
        ]

  -- A log that could not be handled leaves the metrics runtime taken down, except where a rotation
  -- failed: then the error is the one of the sink, whose state is the one after the rotation.
  pub handle_log-err :
      (clock : Clock) (log : Log) (w : Live S.State) (e : String)
      → (handle_log S C flush_blocks clock log w).0 ≡ err e
      → ((handle_log S C flush_blocks clock log w).1.metrics_runtime ≡ none)
        ⊎ (((S.rotate w.storage).0 ≡ err e)
            × ((handle_log S C flush_blocks clock log w).1.storage ≡ (S.rotate w.storage).1))
  handle_log-err clock log w e h = elim (handle_log-cases S C flush_blocks clock log w) [
    | inl (block, tx, i, _, _, _, run) ↦
        rw run (ingest-err clock log block (C.hash_text tx) i _ e (rw (sym run) h))
    | inr (_, _, gone) ↦ inl gone
  ]
