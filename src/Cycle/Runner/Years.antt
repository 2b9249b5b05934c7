-- ===== src/Cycle/Runner/Years.antt =====
-- What the cycles do to the ledger of ingested years.
use carbon_ops_parser.Prelude.{
  ℕ, zero, suc, ◌+◌, ◌≤◌, String, Bool, true, false, Option, none, some, List, [], ◌∷◌, ◌++◌, ◌≡◌,
  refl, ◌∙◌, ap, arith, Bool-cases, inl, inr, ◌⊎◌,
}
use carbon_ops_parser.Exec.{Exec, pure, ◌>>=◌}
use carbon_ops_parser.Exec.Ensures.{Ensures-bind}
use carbon_ops_parser.Catalog.{SourceFamily}
use carbon_ops_parser.Year.Run.{run_production_e2e_year_orchestrator}
use carbon_ops_parser.Year.Ledger.{Years, IsLedger}
use carbon_ops_parser.Year.Progress.{Follows, years_never_skip}
use carbon_ops_parser.History.Records.{HistoryCommand}
use carbon_ops_parser.Cycle.Command.{CycleResult}
use carbon_ops_parser.Cycle.Runner.{
  RunnerConfig, Runtime, cycle_request, cycle_run_id, cycle_of, is_over, emit_summary_if, run_cycle,
  sleep_if, run_cycles, emit_startup_summary, emit_startup_if, run_configured_cycle_runner,
}
use carbon_ops_parser.Cycle.Runner.Keeps.{
  Keeps, Keeps-pure, Keeps-bind, KeepsLinesIf, emit_configured_cycle_summary-Keeps,
  persist_configured_cycle_history-Keeps,
}

-- The latest year after `n` more years, each one more than the one before, from the initial year on.
abbrev pub years_on : ℕ → ℕ → Option ℕ → Option ℕ
years_on initial zero year = year
years_on initial (suc n) none = some (initial + n)
years_on initial (suc n) (some year) = some (year + suc n)

-- At most `n` years were ingested in between.
abbrev pub Within : ℕ → ℕ → Option ℕ → Option ℕ → Type 0
Within initial n year year' = (j : ℕ) × (j ≤ n) × (year' ≡ years_on initial j year)

years_on-add :
    (initial i j : ℕ) (year : Option ℕ)
    → years_on initial j (years_on initial i year) ≡ years_on initial (i + j) year
years_on-add initial zero j year = let e : 0 + j ≡ j = omega arith in rw e refl
years_on-add initial (suc i) zero none = let e : suc i + zero ≡ suc i = omega arith in rw e refl
years_on-add initial (suc i) zero (some year) =
    let e : suc i + zero ≡ suc i = omega arith in rw e refl
years_on-add initial (suc i) (suc j) none =
    let e : suc i + suc j ≡ suc (i + suc j) = omega arith in rw e (ap some (omega arith))
years_on-add initial (suc i) (suc j) (some year) =
    let e : suc i + suc j ≡ suc (i + suc j) = omega arith in rw e (ap some (omega arith))

Follows-years_on :
    (initial : ℕ) (year next : Option ℕ)
    → Follows initial year next
    → next ≡ years_on initial 1 year
Follows-years_on initial none next h = h ∙ ap some (omega arith)
Follows-years_on initial (some y) next h = h

Within-trans :
    (initial m n : ℕ) (a b c : Option ℕ)
    → Within initial m a b
    → Within initial n b c
    → Within initial (m + n) a c
Within-trans initial m n a b c (i, few, there) (j, few', there') =
    (i + j, omega arith, there' ∙ ap (years_on initial j) there ∙ years_on-add initial i j a)

-- However the action ends, it ingests at most `n` years of the family.
record MovesSeen (W A : Type 0) (seen : W → Option ℕ) (initial n : ℕ) (m : Exec W A) : Type 0 where
  from : (w : W) → Within initial n (seen w) (seen (m w).1)

module _ {W : Type 0} (seen : W → Option ℕ) (initial : ℕ) where
  abbrev Moves : {A : Type 0} → ℕ → Exec W A → Type 0
  Moves {A} n m = MovesSeen W A seen initial n m

  Moves-weaken : {A : Type 0} (m n : ℕ) (a : Exec W A) → m ≤ n → Moves m a → Moves n a
  Moves-weaken m n a more moves = record {
    from = λ w. let (j, few, there) = moves.from w in (j, omega arith, there);
  }

  Keeps-Moves : {A : Type 0} (m : Exec W A) → Keeps seen m → Moves 0 m
  Keeps-Moves m keeps = record { from = λ w. (0, omega arith, keeps.from w) }

  Moves-bind :
      {A B : Type 0} (i j : ℕ) (m : Exec W A) (f : A → Exec W B)
      → Moves i m
      → ((a : A) → Moves j (f a))
      → Moves (i + j) (m >>= f)
  Moves-bind i j m f first rest = record {
    from = λ w.
        Ensures-bind m f w (λ r w'. Within initial (i + j) (seen w) (seen w'))
          (λ e h. let (k, few, there) = first.from w in (k, omega arith, there))
          (λ a h. Within-trans initial i j _ _ _ (first.from w) ((rest a).from (m w).1));
  }

  -- An action that keeps it, and then others.
  Keeps-then :
      {A B : Type 0} (n : ℕ) (m : Exec W A) (f : A → Exec W B)
      → Keeps seen m
      → ((a : A) → Moves n (f a))
      → Moves n (m >>= f)
  Keeps-then n m f keeps rest =
      Moves-weaken (0 + n) n (m >>= f) (omega arith) (Moves-bind 0 n m f (Keeps-Moves m keeps) rest)

-- The clock, random ids, sleeping, emitted lines and the history leave the years alone.
pub record RuntimeKeeps (W O F : Type 0) (runtime : Runtime W O F) (latest : W → Years)
    : Type 0 where
  pub now : Keeps latest runtime.now
  pub uuid4_hex : Keeps latest runtime.uuid4_hex
  pub sleep : (seconds : F) → Keeps latest (runtime.sleep seconds)
  pub emit : KeepsLinesIf latest runtime.emit
  pub persist :
      (command : HistoryCommand O)
      → Keeps latest (runtime.history_repository.persist_ingestion_run_history command)

module _ {W O F : Type 0} (config : RunnerConfig F) (runtime : Runtime W O F) (latest : W → Years)
    (ledger : IsLedger runtime.dependencies latest) (keeps : RuntimeKeeps W O F runtime latest)
    (g : SourceFamily) where
  abbrev seen : W → Option ℕ
  seen w = latest w g

  at : {A : Type 0} (m : Exec W A) → Keeps latest m → Keeps seen m
  at m kept = record { from = λ w. ap (λ (y : Years). y g) (kept.from w) }

  run-Moves :
      (run_id : String)
      → Moves seen config.initial_year 1
          (run_production_e2e_year_orchestrator (cycle_request config run_id) runtime.dependencies)
  run-Moves run_id = record {
    from = λ w.
        go w
          (years_never_skip (cycle_request config run_id) runtime.dependencies latest ledger w g);
  }
    where
      go :
          {y : Option ℕ} (w : W)
          → (y ≡ seen w) ⊎ Follows config.initial_year (seen w) y
          → Within config.initial_year 1 (seen w) y
      go w (inl same) = (0, omega arith, same)
      go w (inr next) = (1, omega arith, Follows-years_on config.initial_year (seen w) _ next)

  run_cycle-Moves :
      (number : ℕ) → Moves seen config.initial_year 1 (run_cycle config runtime number)
  unfolding run_cycle
  run_cycle-Moves number = Keeps-then seen config.initial_year 1 _ _ (at _ keeps.uuid4_hex) λ hex.
      Keeps-then seen config.initial_year 1 _ _ (at _ keeps.now) λ started_at.
        Moves-bind seen config.initial_year 1 0 _ _ (run-Moves (cycle_run_id number hex)) λ result.
          Keeps-then seen config.initial_year 0 _ _ (at _ keeps.now) λ finished_at.
            Keeps-then seen config.initial_year 0 _ _
              (at _
                (shown runtime.emit keeps.emit (cycle_of number (cycle_run_id number hex) result)))
              λ u. Keeps-Moves seen config.initial_year _ (
                at _ (
                  persist_configured_cycle_history-Keeps latest runtime.redact_sensitive_text
                    runtime.history_repository runtime.emit started_at finished_at
                    (cycle_of number (cycle_run_id number hex) result) keeps.persist keeps.emit))
    where
      shown :
          (emit : Option (String → Exec W (Unit {0})))
          → KeepsLinesIf latest emit
          → (cycle : CycleResult O) → Keeps latest (emit_summary_if config runtime emit cycle)
      shown none kept cycle = Keeps-pure latest tt
      shown (some emit) kept cycle =
          emit_configured_cycle_summary-Keeps latest runtime.redact_sensitive_text emit kept cycle

  sleep_if-Keeps : (positive : Bool) → Keeps latest (sleep_if config runtime positive)
  sleep_if-Keeps false = Keeps-pure latest tt
  sleep_if-Keeps true = keeps.sleep config.cycle_interval_seconds

  returned : {A : Type 0} (n : ℕ) (a : A) → Moves seen config.initial_year n (pure a)
  returned n a =
      Moves-weaken seen config.initial_year 0 n (pure a) (omega arith)
        (Keeps-Moves seen config.initial_year (pure a) (Keeps-pure seen a))

  run_cycles-Moves :
      (rounds k : ℕ) (cycles : List (CycleResult O))
      → Moves seen config.initial_year rounds (run_cycles config runtime rounds k cycles)
  unfolding run_cycles
  run_cycles-Moves zero k cycles = Keeps-Moves seen config.initial_year _ (Keeps-pure seen none)
  run_cycles-Moves (suc rounds) k cycles = elim (Bool-cases (is_over config.max_cycles k)) [
    | inl over ↦ rw over (returned (suc rounds) (some cycles))
    | inr within ↦ rw within (
        Moves-weaken seen config.initial_year (1 + rounds) (suc rounds) _ (omega arith) (
          Moves-bind seen config.initial_year 1 rounds (run_cycle config runtime k) _
            (run_cycle-Moves k)
            λ cycle. elim (Bool-cases (is_over config.max_cycles (k + 1))) [
              | inl last ↦ rw last (returned rounds (some (cycles ++ cycle ∷ [])))
              | inr more ↦ rw more (
                  Keeps-then seen config.initial_year rounds _ _ (at _ (sleep_if-Keeps _))
                    (λ u. run_cycles-Moves rounds (k + 1) (cycles ++ cycle ∷ [])))
            ]))
  ]

  emit_startup_if-Keeps :
      (emit : Option (String → Exec W (Unit {0})))
      → KeepsLinesIf latest emit
      → Keeps latest (emit_startup_if config runtime emit)
  unfolding emit_startup_summary
  emit_startup_if-Keeps none kept = Keeps-pure latest tt
  emit_startup_if-Keeps (some emit) kept = Keeps-bind latest _ _ (kept _) λ u.
      Keeps-bind latest _ _ (kept _) λ u. Keeps-bind latest _ _ (kept _) λ u.
        Keeps-bind latest _ _ (kept _) λ u.
          Keeps-bind latest _ _ (kept _)
            λ u. Keeps-bind latest _ _ (kept _) λ u. Keeps-bind latest _ _ (kept _) λ u. kept _

  runner-Moves :
      (rounds : ℕ)
      → Moves seen config.initial_year rounds (run_configured_cycle_runner config runtime rounds)
  unfolding run_configured_cycle_runner
  runner-Moves rounds =
      Keeps-then seen config.initial_year rounds _ _
        (at _ (emit_startup_if-Keeps runtime.emit keeps.emit))
        λ u. Moves-weaken seen config.initial_year (rounds + 0) rounds _ (omega arith) (
          Moves-bind seen config.initial_year rounds 0 _ _ (run_cycles-Moves rounds 1 [])
            λ cycles. Keeps-Moves seen config.initial_year _ (Keeps-pure seen _))

-- However the runner ends, each family's latest ingested year has moved on by at most one year for
-- each round of the loop, with no year left out: the year after the latest one, or the initial year,
-- and so on. The boundaries are those of a ledger of years that the clock, random ids, sleeping,
-- emitted lines and the history leave alone.
pub years_per_cycle :
    {W O F : Type 0} (config : RunnerConfig F) (runtime : Runtime W O F) (latest : W → Years)
    (ledger : IsLedger runtime.dependencies latest) (keeps : RuntimeKeeps W O F runtime latest)
    (rounds : ℕ) (w : W) (g : SourceFamily)
    → Within config.initial_year rounds
        (latest w g)
        (latest (run_configured_cycle_runner config runtime rounds w).1 g)
years_per_cycle config runtime latest ledger keeps rounds w g =
    (runner-Moves config runtime latest ledger keeps g rounds).from w
