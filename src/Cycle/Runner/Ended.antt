-- ===== src/Cycle/Runner/Ended.antt =====
-- When the cycle runner ends, and with which result.
use mathlib.Core.Option
use carbon_ops_parser.Prelude.{
  ℕ, zero, suc, ◌+◌, ◌≤◌, ◌<◌, ◌++◌, true, false, not, Option, none, some, List, [], ◌∷◌, length,
  any_of, All, ◌≡◌, ◌≢◌, ◌↔◌, refl, ◌∙◌, ap, arith, Bool-cases, inl, inr,
}
use carbon_ops_parser.Exec.{Result, ok, raised}
use carbon_ops_parser.Exec.Ensures.{Ensures, Ensures-bind}
use carbon_ops_parser.Year.Types.{RunStatus}
use carbon_ops_parser.Cycle.Command.{CycleResult}
use carbon_ops_parser.Cycle.Runner.{
  RunnerConfig, Runtime, RunnerResult, RunnerStatus, is_run_completed, runner_status, run_cycle,
  sleep_if, run_cycles, emit_startup_if, runner_result, run_configured_cycle_runner,
}
use carbon_ops_parser.Cycle.Runner.Loop.{AreCycles, AfterCycles, run_cycles-AfterCycles}

is_run_completed_iff : (s : RunStatus) → (is_run_completed s ≡ true) ↔ (s ≡ RunStatus.completed)
is_run_completed_iff RunStatus.completed = (λ h. refl, λ h. refl)
is_run_completed_iff RunStatus.completed_with_failures = (λ h. absurd (cc), λ h. absurd (cc))
is_run_completed_iff RunStatus.failed = (λ h. absurd (cc), λ h. absurd (cc))

-- No run of the cycles has a failure.
abbrev pub NoFailures : {O : Type 0} → List (CycleResult O) → Type 0
NoFailures cycles = All (λ cycle. cycle.result.failures ≡ []) cycles

module _ {O F : Type 0} (config : RunnerConfig F) where
  unfailed :
      (k : ℕ) (cycles : List (CycleResult O))
      → AreCycles config k cycles
      → (any_of (λ cycle. not (is_run_completed cycle.result.status)) cycles ≡ false)
        ↔ NoFailures cycles
  unfailed k [] are = (λ h. tt, λ h. refl)
  unfailed k (cycle ∷ cycles) ((number, run_id, is_run), are) =
      let rest = unfailed (k + 1) cycles are in
      let status = is_run_completed_iff cycle.result.status in
      let iff = is_run.summary.completed_iff in
      elim (Bool-cases (is_run_completed cycle.result.status)) [
        | inl yes' ↦ rw yes' (λ h. (iff.0 (status.0 yes'), rest.0 h), λ h. rest.1 h.1)
        | inr no' ↦ rw no' (λ h. absurd (cc), λ h. absurd (ground (arith, status.1 (iff.1 h.0))))
      ]

  runner_status-NoFailures :
      (k : ℕ) (cycles : List (CycleResult O))
      → AreCycles config k cycles
      → (runner_status cycles ≡ RunnerStatus.completed) ↔ NoFailures cycles
  runner_status-NoFailures k cycles are =
      let iff = unfailed k cycles are in
      elim (Bool-cases (any_of (λ cycle. not (is_run_completed cycle.result.status)) cycles)) [
        | inl bad ↦ rw bad (λ h. absurd (cc), λ h. absurd (ground (arith, iff.1 h)))
        | inr good ↦ rw good (λ h. iff.0 good, λ h. refl)
      ]

-- No result: an exception, or an unfinished loop.
abbrev Endless : {A : Type 0} → Result (Option A) → Type 0
Endless (ok none) = Unit
Endless (ok (some a)) = ⊥
Endless (raised e) = Unit

-- The result of a runner with the limit `m`: as many cycles, numbered from 1, and a status that tells
-- whether any of their runs had a failure.
pub record IsRunnerResult (W O F : Type 0) (config : RunnerConfig F) (runtime : Runtime W O F)
    (m : ℕ) (result : RunnerResult O) : Type 0 where
  pub cycles : AreCycles config 1 result.cycles
  pub count : length result.cycles ≡ m
  pub status : (result.status ≡ RunnerStatus.completed) ↔ NoFailures result.cycles
  pub created : result.schema_created_table_names ≡ runtime.created_table_names
  pub missing : result.schema_missing_table_names ≡ runtime.missing_table_names

module _ {W O F : Type 0} (config : RunnerConfig F) (runtime : Runtime W O F) where
  -- A result, or an exception, but no unfinished loop.
  abbrev pub Ended : ℕ → Result (Option (RunnerResult O)) → Type 0
  Ended m (ok none) = ⊥
  Ended m (ok (some result)) = IsRunnerResult W O F config runtime m result
  Ended m (raised e) = Unit

  cycles-Ended :
      (m : ℕ) (cycles : Option (List (CycleResult O)))
      → AfterCycles config m 1 [] (ok cycles)
      → Ended m (ok (Option.map (runner_result config runtime) cycles))
  cycles-Ended m none h = h
  cycles-Ended m (some cycles) (added, same, are, counted) =
      let are_cycles : AreCycles config 1 cycles = rw same are in
      record {
        cycles = are_cycles;
        count = ap length same ∙ ground (arith, counted);
        status = runner_status-NoFailures config 1 cycles are_cycles;
        created = refl;
        missing = refl;
      }

  -- Without a limit no round is the last.
  run_cycles-Endless :
      (rounds k : ℕ) (cycles : List (CycleResult O)) (w : W)
      → config.max_cycles ≡ none
      → Ensures (run_cycles config runtime rounds k cycles) w (λ r w'. Endless r)
  unfolding run_cycles
  run_cycles-Endless zero k cycles w unlimited = tt
  run_cycles-Endless (suc rounds) k cycles w unlimited =
      let Q : Result (Option (List (CycleResult O))) → W → Type 0 = λ r w'. Endless r in
      rw unlimited (
        Ensures-bind (run_cycle config runtime k) _ w Q (λ e h. tt)
          λ cycle h.
            Ensures-bind
              (sleep_if config runtime (runtime.is_positive config.cycle_interval_seconds))
              (λ u. run_cycles config runtime rounds (k + 1) (cycles ++ cycle ∷ []))
              (run_cycle config runtime k w).1 Q (λ e h'. tt)
              λ u h'. run_cycles-Endless rounds (k + 1) (cycles ++ cycle ∷ []) _ unlimited)

-- With a limit of `m` cycles the runner ends within `m` rounds of its loop (one, if `m` is 0), unless
-- a boundary raises: it has run exactly `m` cycles with the numbers from 1 on, each a consistent run
-- for the configured families under a run id with its number, and its status is completed exactly if
-- no run had a failure.
pub run_configured_cycle_runner-Ended :
    {W O F : Type 0} (config : RunnerConfig F) (runtime : Runtime W O F) (m rounds : ℕ) (w : W)
    → config.max_cycles ≡ some m
    → 0 < rounds
    → m ≤ rounds
    → Ensures
        (run_configured_cycle_runner config runtime rounds)
        w
        (λ r w'. Ended config runtime m r)
unfolding run_configured_cycle_runner
run_configured_cycle_runner-Ended {W} {O} config runtime m rounds w limit some_rounds enough =
    let Q : Result (Option (RunnerResult O)) → W → Type 0 = λ r w'. Ended config runtime m r in
    Ensures-bind (emit_startup_if config runtime runtime.emit) _ w Q (λ e h. tt)
      λ u h.
        let after =
          run_cycles-AfterCycles config runtime m rounds 1 []
            (emit_startup_if config runtime runtime.emit w).1 limit some_rounds (omega arith) in
        Ensures-bind (run_cycles config runtime rounds 1 []) _ _ Q (λ e k. tt)
          λ cycles k. cycles-Ended config runtime m cycles (rw k at after)

-- Without a limit the runner never returns: after any number of rounds it is still running or a
-- boundary has raised.
pub run_configured_cycle_runner_unlimited :
    {W O F : Type 0} (config : RunnerConfig F) (runtime : Runtime W O F) (rounds : ℕ) (w : W)
    (result : RunnerResult O)
    → config.max_cycles ≡ none
    → (run_configured_cycle_runner config runtime rounds w).0 ≢ ok (some result)
unfolding run_configured_cycle_runner
run_configured_cycle_runner_unlimited {W} {O} config runtime rounds w result unlimited =
    let Q : Result (Option (RunnerResult O)) → W → Type 0 = λ r w'. r ≢ ok (some result) in
    Ensures-bind (emit_startup_if config runtime runtime.emit) _ w Q (λ e h. cc)
      λ u h.
        let after =
          run_cycles-Endless config runtime rounds 1 []
            (emit_startup_if config runtime runtime.emit w).1 unlimited in
        Ensures-bind (run_cycles config runtime rounds 1 []) _ _ Q (λ e k. cc)
          λ cycles k. go cycles (rw k at after)
  where
    go :
        (cycles : Option (List (CycleResult O)))
        → Endless (ok cycles)
        → ok (Option.map (runner_result config runtime) cycles) ≢ ok (some result)
    go none h = cc
    go (some cycles) h = absurd h
