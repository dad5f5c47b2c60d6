-- ===== src/Snapshot/Aggregated.antt =====
-- snapshot/writer.go and snapshot/aggregated_writer.go: an aggregate passes every snapshot on to each
-- of its writers, and joins their errors.
use Prim.Native.String.{◌++◌ as ◌^^◌}
use sigbench.Prelude.{ℕ, ◌≡◌, refl, String, List, [], ◌∷◌, map, Option, none, some}
use sigbench.Counters.{Counters}

-- SnapshotWriter: one write, with the text of its error. A writer is the value behind the interface.
pub record WriterApi : Type 1 where
  pub Writer : Type 0
  pub write_counters : ℕ → Counters → Writer → Writer × Option String

-- strings.Join(errs, ";")
unfoldable pub join_errors : List String → String
join_errors [] = ""
join_errors (e ∷ []) = e
join_errors (e ∷ f ∷ es) = ◌^^◌ e (◌^^◌ ";" (join_errors (f ∷ es)))

-- `errs = append(errs, err.Error())`
abbrev pub cons_error : Option String → List String → List String
cons_error none es = es
cons_error (some e) es = e ∷ es

module _ (api : WriterApi) where
  open api use {Writer, write_counters}

  unfoldable pub write_each : ℕ → Counters → List Writer → List Writer × List String
  write_each now counters [] = ([], [])
  write_each now counters (w ∷ ws) =
      let (w', e) = write_counters now counters w in
      let (ws', es) = write_each now counters ws in (w' ∷ ws', cons_error e es)

  report : List String → Option String
  report [] = none
  report (e ∷ es) = some (◌^^◌ "AggregatedSnapshotWriter.WriteCounters:" (join_errors (e ∷ es)))

  unfoldable pub write_aggregated : ℕ → Counters → List Writer → List Writer × Option String
  unfolding write_each report
  write_aggregated now counters ws =
      let (ws', errs) = write_each now counters ws in (ws', report errs)

  abbrev pub errors_of : ℕ → Counters → List Writer → List String
  errors_of now counters [] = []
  errors_of now counters (w ∷ ws) =
      cons_error (write_counters now counters w).1 (errors_of now counters ws)

  abbrev pub IsReport : List String → Option String → Type 0
  IsReport [] o = o ≡ none
  IsReport (e ∷ es) o =
      o ≡ some (◌^^◌ "AggregatedSnapshotWriter.WriteCounters:" (join_errors (e ∷ es)))

  write_each_lem :
      (now : ℕ) (counters : Counters) (ws : List Writer)
      → write_each now counters ws
        ≡ (map (λ w. (write_counters now counters w).0) ws, errors_of now counters ws)
  unfolding write_each
  write_each_lem now counters [] = refl
  write_each_lem now counters (w ∷ ws) = rw (write_each_lem now counters ws)

  report-IsReport : (es : List String) → IsReport es (report es)
  unfolding report
  report-IsReport [] = refl
  report-IsReport (e ∷ es) = refl

  -- Every writer is given the snapshot, also behind one that fails; the aggregate's error is nil
  -- exactly if no writer fails, and else holds the writers' messages in their order.
  pub write_aggregated-all :
      (now : ℕ) (counters : Counters) (ws : List Writer)
      → ((write_aggregated now counters ws).0 ≡ map (λ w. (write_counters now counters w).0) ws)
        × IsReport (errors_of now counters ws) (write_aggregated now counters ws).1
  unfolding write_aggregated
  write_aggregated-all now counters ws =
      rw (write_each_lem now counters ws) (refl, report-IsReport (errors_of now counters ws))
