-- ===== src/Backfill/Run/Files/Leaving.antt =====
-- The files that a task leaves when it finishes.
use mathlib.Core.List.{append-nil}
use polymarket_indexer.Prelude.{
  ℕ, String, ◌≡◌, ap, sym, ◌∙◌, List, [], ◌∷◌, ◌++◌, arith, All-map, length,
}
use polymarket_indexer.Prelude.Exec.{Exec}
use polymarket_indexer.Contracts.{Address}
use polymarket_indexer.Storage.Arrow.{Disk}
use polymarket_indexer.Storage.Parquet.Paths.{DiskLaws}
use polymarket_indexer.Decode.{Log, Codec}
use polymarket_indexer.Backfill.Chunk.Outcomes.{
  count-fetch_failed, count-process_logs-le, process_logs-clean_iff,
}
use polymarket_indexer.Backfill.Group.{no_rows, group_logs}
use polymarket_indexer.Backfill.Group.Described.{group_logs-AreGroups}
use polymarket_indexer.Backfill.Chunk.{Progress, push_failure, process_logs, fetch_failed}
use polymarket_indexer.Backfill.Chunk.Described.{HoldsGroups-HoldsLogs, IsOfGroup-HoldsType}
use polymarket_indexer.Backfill.Chunk.Files.{IsFree, IsOfGroup, process_logs-Adds}
use polymarket_indexer.Backfill.Run.{fetched, Task, Pool}
use polymarket_indexer.Backfill.Run.Complete.{IsFetched, no_length}
use polymarket_indexer.Backfill.Run.Files.{ProviderLaws, IsFileOf, Leaves}

module _ (D : Disk) (L : DiskLaws D) (c : Codec) (output_dir : String)
    (get_logs : List Address → ℕ → ℕ → Exec D.World (List Log)) (addresses : List Address)
    (provider : ProviderLaws D L get_logs) (before_run : List D.Writer) where
  -- A request that fails leaves no file.
  pub fetch_failed-Leaves :
      (t : Task) (error : String) (p q : Pool D.World)
      → q.finished ≡ p.finished ++ t.range ∷ []
      → q.progress
        ≡ fetch_failed D c output_dir t.range.0 t.range.1 error (record (p.progress) {
          world = (get_logs addresses t.range.0 t.range.1 p.progress.world).1;
        })
      → Leaves D L c output_dir get_logs addresses before_run t.range p q []
  unfolding fetch_failed push_failure
  fetch_failed-Leaves t error p q finished progress =
      let w = (get_logs addresses t.range.0 t.range.1 p.progress.world).1 in
      let world : q.progress.world ≡ w = ap (λ (x : Progress D.World). x.world) progress in
      record {
        finished = finished;
        sound = tt;
        whole = λ none. absurd (
            omega (
              arith,
              ap length none,
              ap (λ (x : Progress D.World). length x.failures) progress,
              count-fetch_failed D c output_dir t.range.0 t.range.1 error
                  (record (p.progress) { world = w }),
            ));
        grows =
            ap L.closing.closed world
            ∙ provider.closed-get_logs addresses _ _ p.progress.world
            ∙ sym (append-nil _);
        spares = λ r other free event_type.
            ap (D.exists _) world
            ∙ provider.exists-get_logs addresses _ _ p.progress.world _
            ∙ free event_type;
      }

  -- A chunk that is written leaves its files.
  pub process_logs-Leaves :
      (t : Task) (logs : List Log) (p q : Pool D.World)
      → q.finished ≡ p.finished ++ t.range ∷ []
      → q.progress ≡ process_logs D c output_dir t.range.0 t.range.1 logs p.progress
      → IsFetched D c output_dir get_logs addresses t
      → t.stage ≡ fetched logs
      → IsFree D output_dir p.progress.world t.range
      → (more : List D.Writer) × Leaves D L c output_dir get_logs addresses before_run t.range p q
          more
  process_logs-Leaves t logs p q finished progress fetch s free =
      let adds = process_logs-Adds D L c output_dir t.range.0 t.range.1 logs p.progress free in
      let (asked, returned) = fetch logs s in
      let world : q.progress.world
          ≡ (process_logs D c output_dir t.range.0 t.range.1 logs p.progress).world =
        ap (λ (x : Progress D.World). x.world) progress in
      let count : length q.progress.failures
          ≡ length (process_logs D c output_dir t.range.0 t.range.1 logs p.progress).failures =
        ap (λ (x : Progress D.World). length x.failures) progress in
      (
        adds.files,
        record {
          finished = finished;
          sound =
              All-map
                (IsOfGroup D L c output_dir t.range.0 t.range.1
                  (group_logs c logs no_rows).by_event)
                (IsFileOf D L c output_dir get_logs addresses t.range) adds.files
                (λ x h.
                  let (event_type, held) =
                    IsOfGroup-HoldsType D L c output_dir t.range logs
                      (group_logs c logs no_rows).by_event x (group_logs-AreGroups c logs) h in
                  record {
                    logs = logs;
                    asked = asked;
                    fetch = returned;
                    event_type = event_type;
                    held = held;
                  })
                adds.sound;
          whole = λ none.
              let none_before : p.progress.failures ≡ [] = no_length p.progress.failures (
                omega (
                  arith,
                  ap length none,
                  count,
                  count-process_logs-le D c output_dir t.range.0 t.range.1 logs p.progress,
                )) in
              let (complete, wrote) =
                (process_logs-clean_iff D c output_dir t.range.0 t.range.1 logs p.progress).0
                  (sym count ∙ ap length none ∙ sym (ap length none_before)) in
              (
                none_before,
                record {
                  logs = logs;
                  asked = asked;
                  fetch = returned;
                  complete = complete;
                  held =
                      HoldsGroups-HoldsLogs D L c output_dir t.range logs adds.files
                        (adds.held wrote);
                },
              );
          grows = ap L.closing.closed world ∙ adds.grows;
          spares = λ r other free event_type.
              ap (D.exists _) world ∙ adds.spares r other free event_type;
        },
      )
