-- ===== src/Backfill/Chunk/Outcomes.antt =====
-- A chunk reports nothing exactly when all of its parts succeeded.
use mathlib.Core.Path.{subst}
use polymarket_indexer.Prelude.{
  ℕ, suc, ◌<◌, ◌≤◌, String, ◌≡◌, ◌≢◌, refl, sym, ap, ◌∙◌, ◌↔◌, ◌⊎◌, List, [], ◌∷◌, arith, length,
  length-append, Bool-cases, ltb, ltb→lt, inl, inr,
}
use polymarket_indexer.Prelude.Dict.{Dict}
use polymarket_indexer.Prelude.Outcome.{ok, Result-cases}
use polymarket_indexer.Prelude.Exec.{Exec}
use polymarket_indexer.Contracts.{Address}
use polymarket_indexer.Storage.Arrow.{Disk}
use polymarket_indexer.Decode.{Log, Codec}
use polymarket_indexer.Backfill.Rows.{EventRow, sort_rows}
use polymarket_indexer.Backfill.Group.{Grouping, no_rows, group_logs}
use polymarket_indexer.Backfill.File.{write_parquet_file}
use polymarket_indexer.Backfill.Chunk.{
  Progress, push_failure, write_group, write_groups, report_missing, process_logs, fetch_failed,
  process_chunk,
}

module _ (D : Disk) (c : Codec) (output_dir : String) (chunk_start chunk_end : ℕ) where
  -- Each group in turn was sorted and written to its file, and every write returned.
  abbrev pub WroteAll : Dict (List String × List EventRow) → D.World → Type 0
  WroteAll [] w = Unit
  WroteAll ((event_type, (columns, rows)) ∷ m) w =
      ((write_parquet_file D output_dir event_type columns (sort_rows rows) chunk_start chunk_end
          w).0
        ≡ ok tt)
      × WroteAll m
          (write_parquet_file D output_dir event_type columns (sort_rows rows) chunk_start chunk_end
            w).1

  abbrev count_failures : Progress D.World → ℕ
  count_failures p = length p.failures

  count-push_failure :
      (message : String) (p : Progress D.World)
      → count_failures (push_failure D c output_dir chunk_start chunk_end message p)
        ≡ suc (count_failures p)
  unfolding push_failure
  count-push_failure message p = omega (arith, length-append p.failures (message ∷ []))

  world-push_failure :
      (message : String) (p : Progress D.World)
      → (push_failure D c output_dir chunk_start chunk_end message p).world ≡ p.world
  unfolding push_failure
  world-push_failure message p = refl

  -- A round of the loop adds a failure exactly if its write fails.
  pub write_group-cases :
      (k : String) (columns : List String) (rows : List EventRow) (p : Progress D.World)
      → let q = write_group D c output_dir chunk_start chunk_end k columns rows p in
        let run =
          write_parquet_file D output_dir k columns
            (sort_rows rows)
            chunk_start
            chunk_end
            p.world in
        (q.world ≡ run.1)
        × (((run.0 ≡ ok tt) × (q.failures ≡ p.failures))
            ⊎ ((run.0 ≢ ok tt) × (count_failures q ≡ suc (count_failures p))))
  unfolding write_group
  write_group-cases k columns rows p =
      let run =
        write_parquet_file D output_dir k columns (sort_rows rows) chunk_start chunk_end p.world in
      elim (Result-cases run.0) [
        | inl (_, e) ↦ ground arith
        | inr (message, e) ↦
            rw (e, write_group) (world-push_failure _ _, inr (λ h. cc, count-push_failure _ _))
      ]

  count-write_groups-le :
      (m : Dict (List String × List EventRow)) (p : Progress D.World)
      → count_failures p ≤ count_failures (write_groups D c output_dir chunk_start chunk_end m p)
  unfolding write_groups
  count-write_groups-le [] p = omega arith
  count-write_groups-le ((k, (columns, rows)) ∷ m) p =
      let q = write_group D c output_dir chunk_start chunk_end k columns rows p in
      let ih = count-write_groups-le m q in
      elim ((write_group-cases k columns rows p).1) [
        | inl (_, same) ↦ omega (arith, ih, ap length same)
        | inr (_, more) ↦ omega (arith, ih, more)
      ]

  write_groups-WroteAll_iff :
      (m : Dict (List String × List EventRow)) (p : Progress D.World)
      → (count_failures (write_groups D c output_dir chunk_start chunk_end m p) ≡ count_failures p)
        ↔ WroteAll m p.world
  unfolding write_groups
  write_groups-WroteAll_iff [] p = (λ _. tt, λ _. refl)
  write_groups-WroteAll_iff ((k, (columns, rows)) ∷ m) p =
      let q = write_group D c output_dir chunk_start chunk_end k columns rows p in
      let (world, outcome) = write_group-cases k columns rows p in
      let ih = write_groups-WroteAll_iff m q in
      elim outcome [
        | inl (returned, same) ↦ (
          λ h. (returned, subst (WroteAll m) world (ih.0 (h ∙ sym (ap length same)))),
          λ h. ih.1 (subst (WroteAll m) (sym world) h.1) ∙ ap length same,
        )
        | inr (failed, more) ↦ (
          λ h. absurd (omega (arith, h, more, count-write_groups-le m q)),
          λ h. absurd (failed h.0),
        )
      ]

  report_missing-cases :
      (n : ℕ) (p : Progress D.World)
      → ((n ≡ 0) × (report_missing D c output_dir chunk_start chunk_end n p ≡ p))
        ⊎ ((0 < n)
            × (count_failures (report_missing D c output_dir chunk_start chunk_end n p)
                ≡ suc (count_failures p)))
  unfolding report_missing
  report_missing-cases n p = elim (Bool-cases (ltb 0 n)) [
    | inl t ↦ inr (ltb→lt 0 n t, rw (t, report_missing) (count-push_failure _ p))
    | inr f ↦ inl (ground arith, rw (f, report_missing) refl)
  ]

  pub process_logs-clean_iff :
      (logs : List Log) (p : Progress D.World)
      → (count_failures (process_logs D c output_dir chunk_start chunk_end logs p)
          ≡ count_failures p)
        ↔ (((group_logs c logs no_rows).missing_metadata_count ≡ 0)
            × WroteAll (group_logs c logs no_rows).by_event p.world)
  unfolding process_logs
  process_logs-clean_iff logs p =
      let g : Grouping = group_logs c logs no_rows in
      let q = write_groups D c output_dir chunk_start chunk_end g.by_event p in
      let wrote = write_groups-WroteAll_iff g.by_event p in
      elim (report_missing-cases g.missing_metadata_count q) [
        | inl (none_missing, same) ↦ (
          λ h. (none_missing, wrote.0 (sym (ap count_failures same) ∙ h)),
          λ h. ap count_failures same ∙ wrote.1 h.1,
        )
        | inr (missing, more) ↦ (
          λ h. absurd (omega (arith, h, more, count-write_groups-le g.by_event p)),
          λ h. absurd (omega (arith, missing, h.0)),
        )
      ]

  -- Failures are never taken back.
  pub count-process_logs-le :
      (logs : List Log) (p : Progress D.World)
      → length p.failures
        ≤ length (process_logs D c output_dir chunk_start chunk_end logs p).failures
  unfolding process_logs
  count-process_logs-le logs p =
      let g : Grouping = group_logs c logs no_rows in
      let q = write_groups D c output_dir chunk_start chunk_end g.by_event p in
      let wrote = count-write_groups-le g.by_event p in
      elim (report_missing-cases g.missing_metadata_count q) [
        | inl (_, same) ↦ omega (arith, wrote, ap count_failures same)
        | inr (_, more) ↦ omega (arith, wrote, more)
      ]

  pub count-fetch_failed :
      (error : String) (p : Progress D.World)
      → length (fetch_failed D c output_dir chunk_start chunk_end error p).failures
        ≡ suc (length p.failures)
  unfolding fetch_failed
  count-fetch_failed error p = count-push_failure _ p

  -- The fetch returned, no decoded log lacked metadata, and every file was written.
  pub record IsClean (fetch : Exec D.World (List Log)) (w : D.World) : Type 0 where
    pub logs : List Log
    pub fetched : (fetch w).0 ≡ ok logs
    pub complete : (group_logs c logs no_rows).missing_metadata_count ≡ 0
    pub wrote : WroteAll (group_logs c logs no_rows).by_event (fetch w).1

  -- A chunk adds a failure exactly if its fetch fails, or a decoded log lacks metadata, or a file
  -- cannot be written.
  pub process_chunk-IsClean_iff :
      (get_logs : List Address → ℕ → ℕ → Exec D.World (List Log)) (addresses : List Address)
      (p : Progress D.World)
      → (length (process_chunk D c output_dir chunk_start chunk_end get_logs addresses p).failures
          ≡ length p.failures)
        ↔ IsClean (get_logs addresses chunk_start chunk_end) p.world
  unfolding process_chunk fetch_failed
  process_chunk-IsClean_iff get_logs addresses p =
      let fetch = get_logs addresses chunk_start chunk_end in
      let q : Progress D.World = record p { world = (fetch p.world).1 } in
      elim (Result-cases (fetch p.world).0) [
        | inl (logs, e) ↦
            let done = process_logs-clean_iff logs q in
            rw (e, process_chunk)
              (
                λ h.
                    let (complete, wrote) = done.0 h in
                    record { logs = logs; fetched = e; complete = complete; wrote = wrote },
                λ h.
                    let same : h.logs ≡ logs = cc (h.fetched, e) in
                    done.1 (
                      subst
                        (λ l.
                          ((group_logs c l no_rows).missing_metadata_count ≡ 0)
                          × WroteAll (group_logs c l no_rows).by_event (fetch p.world).1)
                        same (h.complete, h.wrote)),
              )
        | inr (message, e) ↦
            rw (e, process_chunk)
              (λ h. absurd (omega (arith, h, count-push_failure _ q)), λ h. cc (h.fetched))
      ]
