-- ===== src/Cycle/Runner/Loop.antt =====
-- The loop over the cycles: how many there are, and what each of them is.
use carbon_ops_parser.Prelude.{
  ℕ, zero, suc, ◌+◌, ◌-◌, ◌<◌, String, false, Option, none, some, List, [], ◌∷◌, ◌++◌, length, ◌≡◌,
  refl, ◌∙◌, sym, arith, ltb, Bool-cases, inl, inr,
}
use mathlib.Core.List.{append_assoc, append-nil}
use carbon_ops_parser.Exec.{Result, ok, raised}
use carbon_ops_parser.Exec.Ensures.{Ensures, Ensures-bind}
use carbon_ops_parser.Year.Run.{run_production_e2e_year_orchestrator}
use carbon_ops_parser.Year.Summary.{IsRun, run_production_e2e_year_orchestrator-IsRun}
use carbon_ops_parser.History.Records.{HistoryStatus, HistoryIssue, HistoryPersistResult}
use carbon_ops_parser.Cycle.Command.{CycleResult}
use carbon_ops_parser.Cycle.History.{with_history, persist_configured_cycle_history}
use carbon_ops_parser.Cycle.History.Kept.{
  IsOutcome, IsOutcomeOf, Emits, persist_configured_cycle_history-IsOutcome,
}
use carbon_ops_parser.Cycle.Runner.{
  RunnerConfig, Runtime, cycle_request, cycle_run_id, cycle_of, emit_summary_if, run_cycle,
  sleep_if, run_cycles,
}

-- The same cycle, up to the outcome of its history.
abbrev SameCycle : {O : Type 0} → CycleResult O → CycleResult O → Type 0
SameCycle cycle kept = (status : String) × (n : ℕ) × (kept ≡ with_history cycle status n)

IsOutcomeOf-SameCycle :
    {O : Type 0} (cycle kept : CycleResult O) (issues : List HistoryIssue) (status : HistoryStatus)
    → IsOutcomeOf cycle kept issues status
    → SameCycle cycle kept
IsOutcomeOf-SameCycle cycle kept issues HistoryStatus.declared h = ("declared", length issues, h)
IsOutcomeOf-SameCycle cycle kept issues HistoryStatus.failed_validation (n, h, counted) =
    ("failed", n, h)
IsOutcomeOf-SameCycle cycle kept issues HistoryStatus.failed_database (n, h, counted) =
    ("failed", n, h)

IsOutcome-SameCycle :
    {O : Type 0} (cycle kept : CycleResult O) (p : Result HistoryPersistResult)
    → IsOutcome cycle kept p
    → SameCycle cycle kept
IsOutcome-SameCycle cycle kept (ok p) h = IsOutcomeOf-SameCycle cycle kept p.issues p.status h
IsOutcome-SameCycle cycle kept (raised e) h = ("failed", 1, h)

module _ {O F : Type 0} (config : RunnerConfig F) where
  -- The cycle's number, its run's id with that number, and the result of a run with that id for the
  -- configured families and initial year.
  abbrev pub IsCycle : ℕ → CycleResult O → Type 0
  IsCycle number cycle =
      (cycle.cycle_number ≡ number)
      × ((hex : String) × (cycle.run_id ≡ cycle_run_id number hex))
      × IsRun O
          (record {
            run_id = cycle.run_id;
            enabled_source_families = config.enabled_source_families;
            initial_year = config.initial_year;
            correlation_id = none;
          })
          cycle.result

  -- Cycles with consecutive numbers.
  abbrev pub AreCycles : ℕ → List (CycleResult O) → Type 0
  AreCycles number [] = Unit
  AreCycles number (cycle ∷ cycles) = IsCycle number cycle × AreCycles (number + 1) cycles

  -- What the loop returns, from the number `k` on, under the limit `m`: the cycles so far, and one more
  -- for each number up to the limit.
  abbrev pub AfterCycles :
      ℕ → ℕ → List (CycleResult O) → Result (Option (List (CycleResult O))) → Type 0
  AfterCycles m k cycles (ok none) = ⊥
  AfterCycles m k cycles (ok (some all)) =
      (added : List (CycleResult O)) × (all ≡ cycles ++ added)
      × AreCycles k added
      × (length added ≡ suc m - k)
  AfterCycles m k cycles (raised e) = Unit

  AfterCycles-cons :
      (m k : ℕ) (cycles : List (CycleResult O)) (cycle : CycleResult O)
      (r : Result (Option (List (CycleResult O))))
      → ltb m (k + 1) ≡ false
      → IsCycle k cycle
      → AfterCycles m (k + 1) (cycles ++ cycle ∷ []) r
      → AfterCycles m k cycles r
  AfterCycles-cons m k cycles cycle (ok none) more is_cycle h = h
  AfterCycles-cons m k cycles cycle (ok (some all)) more is_cycle (added, same, are, counted) = (
    cycle ∷ added,
    same ∙ append_assoc cycles (cycle ∷ []) added,
    (is_cycle, are),
    ground (arith, counted),
  )
  AfterCycles-cons m k cycles cycle (raised e) more is_cycle h = tt

module _ {W O F : Type 0} (config : RunnerConfig F) (runtime : Runtime W O F) where
  abbrev CycleOf : ℕ → Result (CycleResult O) → Type 0
  CycleOf number (ok cycle) = IsCycle config number cycle
  CycleOf number (raised e) = Unit

  persist-CycleOf :
      (number : ℕ) (cycle : CycleResult O) (started_at finished_at : O) (w : W)
      → IsCycle config number cycle
      → Ensures
          (persist_configured_cycle_history runtime.redact_sensitive_text runtime.history_repository
            runtime.emit started_at finished_at cycle)
          w
          (λ r w'. CycleOf number r)
  persist-CycleOf number cycle started_at finished_at w is_cycle = go _ _ _ (
      persist_configured_cycle_history-IsOutcome runtime.redact_sensitive_text
        runtime.history_repository runtime.emit started_at finished_at cycle w)
    where
      go :
          (p : Result HistoryPersistResult) (r : Result (CycleResult O)) (w' : W)
          → Emits runtime.emit (λ kept. IsOutcome cycle kept p) r w'
          → CycleOf number r
      go p (ok kept) w' h =
          let (status, n, same) = IsOutcome-SameCycle cycle kept p h in rw same is_cycle
      go p (raised e) w' h = tt

  run_cycle-CycleOf :
      (number : ℕ) (w : W) → Ensures (run_cycle config runtime number) w (λ r w'. CycleOf number r)
  unfolding run_cycle
  run_cycle-CycleOf number w =
      let Q : Result (CycleResult O) → W → Type 0 = λ r w'. CycleOf number r in
      Ensures-bind runtime.uuid4_hex _ w Q (λ e h. tt)
        λ hex h.
          Ensures-bind runtime.now _ _ Q (λ e h'. tt)
            λ started_at h'.
              let run =
                run_production_e2e_year_orchestrator
                  (cycle_request config (cycle_run_id number hex)) runtime.dependencies in
              Ensures-bind run _ _ Q (λ e k. tt)
                λ result k.
                  let is_run = run_production_e2e_year_orchestrator-IsRun _ _ _ result k in
                  Ensures-bind runtime.now _ _ Q (λ e k'. tt)
                    λ finished_at k'.
                      let cycle = cycle_of number (cycle_run_id number hex) result in
                      Ensures-bind (emit_summary_if config runtime runtime.emit cycle) _ _ Q
                        (λ e k''. tt)
                        λ u k''.
                          persist-CycleOf number cycle started_at finished_at _
                            (refl, (hex, refl), is_run)

  -- The loop with a limit ends, if it has a round for each number up to the limit.
  pub run_cycles-AfterCycles :
      (m rounds k : ℕ) (cycles : List (CycleResult O)) (w : W)
      → config.max_cycles ≡ some m
      → 0 < rounds
      → m < k + rounds
      → Ensures
          (run_cycles config runtime rounds k cycles)
          w
          (λ r w'. AfterCycles config m k cycles r)
  unfolding run_cycles
  run_cycles-AfterCycles m zero k cycles w limit some_rounds enough = absurd (omega arith)
  run_cycles-AfterCycles m (suc rounds) k cycles w limit some_rounds enough =
      let Q : Result (Option (List (CycleResult O))) → W → Type 0 =
        λ r w'. AfterCycles config m k cycles r in
      rw limit (elim (Bool-cases (ltb m k)) [
        | inl over ↦ rw over ([], sym (append-nil cycles), tt, ground arith)
        | inr within ↦ rw within (
            let step = run_cycle-CycleOf k w in
            Ensures-bind (run_cycle config runtime k) _ w Q (λ e h. tt)
              λ cycle h. elim (Bool-cases (ltb m (k + 1))) [
                | inl last ↦ rw last (cycle ∷ [], refl, (rw h at step, tt), ground arith)
                | inr more ↦ rw more (
                    Ensures-bind
                      (sleep_if config runtime (runtime.is_positive config.cycle_interval_seconds))
                      (λ u. run_cycles config runtime rounds (k + 1) (cycles ++ cycle ∷ []))
                      (run_cycle config runtime k w).1 Q (λ e h'. tt)
                      λ u h'. AfterCycles-cons config m k cycles cycle _ more (rw h at step) (
                        run_cycles-AfterCycles m rounds (k + 1) (cycles ++ cycle ∷ []) _ limit
                          (ground (arith, more)) (ground (arith, more))))
              ])
      ])
