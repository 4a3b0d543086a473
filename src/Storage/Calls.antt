-- ===== src/Storage/Calls.antt =====
-- A run of calls on an `EventSink`, as a client sees it.
use polymarket_indexer.Prelude.{ℕ, String, List, [], ◌∷◌, ◌++◌, map, ◌≡◌, refl, ap, sym, ◌∙◌}
use polymarket_indexer.Prelude.Outcome.{ok}
use polymarket_indexer.Prelude.Exec.{Exec, pure, ◌>>◌, bind-eq-ok}
use polymarket_indexer.Contracts.{EventKind}
use polymarket_indexer.Decode.{event_name}
use polymarket_indexer.Decode.Columns.{schema}
use polymarket_indexer.Storage.Sink.{EventSink}

-- The arguments of `write_event`.
pub record SinkEvent : Type 0 where
  pub event_type : String
  pub block_number : ℕ
  pub tx_hash : String
  pub log_index : ℕ
  pub columns : List (String × String)

-- The event is of a kind of the contracts, with the kind's name and columns.
abbrev pub IsProper : SinkEvent → Type 0
IsProper e =
    (kind : EventKind) × (e.event_type ≡ event_name kind)
    × (map (λ ((name, _) : String × String). name) e.columns ≡ schema kind)

pub data Call : Type 0 where
  write : SinkEvent → Call
  rotate close : Call

-- The events that a run of calls writes, in order.
unfoldable pub events_of : List Call → List SinkEvent
events_of [] = []
events_of (write e ∷ calls) = e ∷ events_of calls
events_of (_ ∷ calls) = events_of calls

-- No call closes the sink.
abbrev pub NoClose : List Call → Type 0
NoClose [] = Unit
NoClose (write e ∷ calls) = NoClose calls
NoClose (rotate ∷ calls) = NoClose calls
NoClose (close ∷ calls) = ⊥

pub NoClose-append :
    (first second : List Call) → NoClose first → NoClose second → NoClose (first ++ second)
NoClose-append [] second f s = s
NoClose-append (write e ∷ first) second f s = NoClose-append first second f s
NoClose-append (rotate ∷ first) second f s = NoClose-append first second f s
NoClose-append (close ∷ first) second f s = f

module _ (S : EventSink) where
  unfoldable pub call : Call → Exec S.State (Unit {0})
  call (write e) = S.write_event e.event_type e.block_number e.tx_hash e.log_index e.columns
  call rotate = S.rotate
  call close = S.close

  -- The calls are made one after another, up to the first that fails.
  unfoldable pub run_calls : List Call → Exec S.State (Unit {0})
  unfolding call
  run_calls [] = pure tt
  run_calls (c ∷ calls) = do call c; run_calls calls

  -- The calls take the sink from one state to another, and each returns.
  abbrev pub Reaches : List Call → S.State → S.State → Type 0
  Reaches calls s t = run_calls calls s ≡ (ok tt, t)

  pub Reaches-nil : (s : S.State) → Reaches [] s s
  unfolding run_calls
  Reaches-nil s = refl

  pub Reaches-cons :
      (c : Call) (calls : List Call) (s t u : S.State)
      → call c s ≡ (ok tt, t)
      → Reaches calls t u
      → Reaches (c ∷ calls) s u
  unfolding run_calls
  Reaches-cons c calls s t u e r = rw e r

  pub Reaches-uncons :
      (c : Call) (calls : List Call) (s u : S.State)
      → Reaches (c ∷ calls) s u
      → (t : S.State) × (call c s ≡ (ok tt, t)) × Reaches calls t u
  unfolding run_calls
  Reaches-uncons c calls s u r =
      let (_, first, second, same) =
        bind-eq-ok (call c) (λ _. run_calls calls) s (ap (λ x. x.0) r) in
      let t = (call c s).1 in
      (t, λ i. (first i, t), λ i. (second i, (sym same ∙ ap (λ x. x.1) r) i))

  pub Reaches-append :
      (first second : List Call) (s t u : S.State)
      → Reaches first s t
      → Reaches second t u
      → Reaches (first ++ second) s u
  unfolding run_calls
  Reaches-append [] second s t u e r = rw (ap (λ x. x.1) e) r
  Reaches-append (c ∷ first) second s t u e r =
      let (m, first_call, rest) = Reaches-uncons c first s t e in
      Reaches-cons c (first ++ second) s m u first_call (Reaches-append first second m t u rest r)

  pub Reaches-split :
      (first second : List Call) (s u : S.State)
      → Reaches (first ++ second) s u
      → (t : S.State) × Reaches first s t × Reaches second t u
  unfolding run_calls
  Reaches-split [] second s u r = (s, refl, r)
  Reaches-split (c ∷ first) second s u r =
      let (m, first_call, rest) = Reaches-uncons c (first ++ second) s u r in
      let (t, left, right) = Reaches-split first second m u rest in
      (t, Reaches-cons c first s m t first_call left, right)

pub events_of-append :
    (first second : List Call) → events_of (first ++ second) ≡ events_of first ++ events_of second
unfolding events_of
events_of-append [] second = refl
events_of-append (write e ∷ first) second = ap (λ es. e ∷ es) (events_of-append first second)
events_of-append (rotate ∷ first) second = events_of-append first second
events_of-append (close ∷ first) second = events_of-append first second
