-- ===== src/Backfill/Run/Coverage.antt =====
-- What `Ok` says of the blocks of the range.
use native.Mathlib.Nat.{ℕ_set}
use mathlib.Core.List.{Perm, Permᴰ, append-nil}
use mathlib.Core.Logic.{∥∥₁_elim}
use polymarket_indexer.Prelude.{
  ℕ, ◌+◌, ◌≤◌, String, ◌≡◌, refl, ap, sym, ◌∙◌, none, some, List, [], ◌∷◌, ◌++◌, arith, All, leb,
  ◌&&◌, if◌then◌else◌, inl, inr, Bool-cases, List-cases, is_empty, u64_mod,
}
use polymarket_indexer.Prelude.Outcome.{Result-cases, ok, err, >>=-eq-ok}
use polymarket_indexer.Prelude.Exec.{Exec}
use polymarket_indexer.Contracts.{Address}
use polymarket_indexer.Storage.Arrow.{Disk}
use polymarket_indexer.Decode.{Log, Codec}
use polymarket_indexer.Backfill.Chunks.{chunk_ranges}
use polymarket_indexer.Backfill.Chunks.Cover.{covering, covering-chunk_ranges}
use polymarket_indexer.Backfill.Provider.{Http, Provider}
use polymarket_indexer.Backfill.Run.{
  BackfillConfig, check_config, conclude, Pool, Event, start_pool, run_pool, finish_run, prepare,
  run_chunks, run,
}
use polymarket_indexer.Backfill.Run.Verdict.{check_config-ok_iff}
use polymarket_indexer.Backfill.Run.Schedule.{chunks, run_pool-start_pool-IsOrderly}
use polymarket_indexer.Backfill.Run.Complete.{IsIngested, conclude-IsIngested}

abbrev hits : ℕ → ℕ × ℕ → ℕ
hits n r = if leb r.0 n && leb n r.1 then 1 else 0

module _ (n : ℕ) where
  covering-Permᴰ : {xs ys : List (ℕ × ℕ)} → Permᴰ xs ys → covering n xs ≡ covering n ys
  unfolding covering
  covering-Permᴰ Permᴰ.nil = refl
  covering-Permᴰ (Permᴰ.cons e p) = omega (arith, ap (hits n) e, covering-Permᴰ p)
  covering-Permᴰ (Permᴰ.swap e f) = omega (arith, ap (hits n) e, ap (hits n) f)
  covering-Permᴰ (Permᴰ.trans p q) = covering-Permᴰ p ∙ covering-Permᴰ q

  covering-Perm : {xs ys : List (ℕ × ℕ)} → Perm xs ys → covering n xs ≡ covering n ys
  covering-Perm p = ∥∥₁_elim p (ℕ_set _ _) covering-Permᴰ

covered-All :
    (P : ℕ × ℕ → Type 0) (n : ℕ) (xs : List (ℕ × ℕ))
    → All P xs
    → covering n xs ≡ 1
    → (r : ℕ × ℕ) × (r.0 ≤ n) × (n ≤ r.1) × P r
unfolding covering
covered-All P n [] h e = ground arith
covered-All P n (r ∷ rs) h e = elim (Bool-cases (leb r.0 n && leb n r.1)) [
  | inl t ↦ (r, ground arith, ground arith, h.0)
  | inr f ↦ covered-All P n rs h.1 (ground arith)
]

pub drained :
    {World : Type 0} (p : Pool World)
    → (if is_empty p.pending && is_empty p.running
        then some (conclude p.progress.failures)
        else none)
      ≡ some (ok tt)
    → (p.pending ≡ []) × (p.running ≡ []) × (conclude p.progress.failures ≡ ok tt)
drained p e = elim (List-cases p.pending) [
  | inl pending ↦ elim (List-cases p.running) [
    | inl running ↦ (pending, running, ground arith)
    | inr (_, _, r) ↦ ground arith
  ]
  | inr (_, _, r) ↦ ground arith
]

pub chunks-drained :
    {World : Type 0} (p : Pool World) → p.pending ≡ [] → p.running ≡ [] → chunks p ≡ p.finished
chunks-drained p pending running =
    rw (pending, running) (append-nil (p.finished ++ []) ∙ append-nil p.finished)

pub prepare-check_config :
    (H : Http) (config : BackfillConfig) (prepared : Provider H × List Address)
    → prepare H config ≡ ok prepared
    → check_config config ≡ ok tt
unfolding prepare
prepare-check_config H config prepared e =
    let (_, checked, _) = >>=-eq-ok (check_config config) _ e in checked

module _ (D : Disk) (c : Codec) (config : BackfillConfig) (world : D.World)
    (events : List Event) where
  module _ (get_logs : List Address → ℕ → ℕ → Exec D.World (List Log)) (addresses : List Address)
      (n : ℕ) where
    finish_run-IsIngested :
        (ranges : List (ℕ × ℕ))
        → covering n ranges ≡ 1
        → finish_run D c config.output_dir get_logs addresses config.parallelism
            (start_pool config ranges world)
            events
          ≡ some (ok tt)
        → (range : ℕ × ℕ) × (range.0 ≤ n)
          × (n ≤ range.1)
          × IsIngested D c config.output_dir get_logs addresses range
    unfolding finish_run
    finish_run-IsIngested ranges once e =
        let p : Pool D.World =
          run_pool D c config.output_dir get_logs addresses config.parallelism events
            (start_pool config ranges world) in
        let orderly =
          run_pool-start_pool-IsOrderly D c config.output_dir get_logs addresses config.parallelism
            ranges config world events in
        let (pending, running, done) = drained p e in
        let same : covering n p.finished ≡ 1 =
          ap (covering n) (sym (chunks-drained p pending running))
          ∙ covering-Perm n orderly.conserved
          ∙ once in
        covered-All (IsIngested D c config.output_dir get_logs addresses) n p.finished
          (conclude-IsIngested D c config.output_dir get_logs addresses config.parallelism config
            ranges world events done)
          same

module _ (H : Http) (D : Disk) (c : Codec)
    (get_logs : Provider H → List Address → ℕ → ℕ → Exec D.World (List Log))
    (config : BackfillConfig) (world : D.World) (events : List Event) where
  pub run-eq-finish_run :
      (provider : Provider H) (addresses : List Address) (ranges : List (ℕ × ℕ))
      → prepare H config ≡ ok (provider, addresses)
      → chunk_ranges config.start_block config.end_block config.chunk_size_by_block_number
        ≡ some ranges
      → run H D c get_logs config events world
        ≡ finish_run D c config.output_dir
            (get_logs provider)
            addresses
            config.parallelism
            (start_pool config ranges world)
            events
  unfolding run run_chunks
  run-eq-finish_run provider addresses ranges prepared cut =
      rw (prepared, cut, run, run_chunks) refl

  pub run-eq-err :
      (m : String)
      → prepare H config ≡ err m
      → run H D c get_logs config events world ≡ some (err m)
  unfolding run
  run-eq-err m failed = rw (failed, run) refl

  -- If a run returns `Ok`, on a range whose end is at least one chunk below 2^64, then every block of
  -- the range lies in a chunk that was fetched, lost no decoded log to missing metadata, and had all
  -- its files written.
  pub run-IsIngested :
      (n : ℕ)
      → config.start_block ≤ n
      → n ≤ config.end_block
      → config.end_block + config.chunk_size_by_block_number ≤ u64_mod
      → run H D c get_logs config events world ≡ some (ok tt)
      → (provider : Provider H) × (addresses : List Address) × (range : ℕ × ℕ) × (prepare H config
          ≡ ok (provider, addresses))
        × (range.0 ≤ n)
        × (n ≤ range.1)
        × IsIngested D c config.output_dir (get_logs provider) addresses range
  run-IsIngested n low high fits e = elim (Result-cases (prepare H config)) [
    | inl ((provider, addresses), prepared) ↦
        let (ordered, positive_size, _, _) =
          (check_config-ok_iff config).0
            (prepare-check_config H config (provider, addresses) prepared) in
        let (ranges, cut, once) =
          covering-chunk_ranges n config.start_block config.end_block
            config.chunk_size_by_block_number ordered positive_size fits in
        let (range, above, below, ingested) =
          finish_run-IsIngested D c config world events (get_logs provider) addresses n ranges
            (ground (arith, once))
            (sym (run-eq-finish_run provider addresses ranges prepared cut) ∙ e) in
        (provider, addresses, range, prepared, above, below, ingested)
    | inr (m, failed) ↦ let absurd : ⊥ = cc (run-eq-err m failed, e) in elim absurd [ ]
  ]
