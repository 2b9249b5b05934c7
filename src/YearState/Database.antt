-- ===== src/YearState/Database.antt =====
-- What the repository relies on in PostgreSQL, as laws of a connection.
use carbon_ops_parser.Prelude.{ℕ, String, Option, none, some, ltb, ◌==◌, ◌≡◌, ◌⊎◌, if◌then◌else◌}
use carbon_ops_parser.Exec.{Exec, ok, raised, PyException}
use carbon_ops_parser.YearState.{Connection}

-- The greatest recorded year of each identifier.
abbrev pub MaxYears : Type 0
MaxYears = String → Option ℕ

abbrev pub later : ℕ → Option ℕ → ℕ
later y none = y
later y (some m) = if ltb m y then y else m

-- A row for `s` and `y` is there.
abbrev pub add_year : MaxYears → String → ℕ → MaxYears
add_year m s y = λ j. if s == j then some (later y (m s)) else m j

-- `rows` is what the connection sees, with its own writes that are not committed yet
-- (YearState/Durable has what is committed). The `SELECT` reads the greatest year and changes
-- nothing; the upsert adds a row or fails with no change; `COMMIT` keeps what was written, or fails
-- and may undo the upsert before it.
pub record IsDatabase (C : Type 0) (connection : Connection C) (rows : C → MaxYears) : Type 0 where
  pub select_value :
      (s : String) (c : C) (year : Option ℕ)
      → (connection.select_max_year s c).0 ≡ ok year
      → year ≡ rows c s
  pub select_keeps : (s : String) (c : C) → rows (connection.select_max_year s c).1 ≡ rows c
  pub upsert_ok :
      (s : String) (y : ℕ) (c : C)
      → (connection.upsert_year s y c).0 ≡ ok tt
      → rows (connection.upsert_year s y c).1 ≡ add_year (rows c) s y
  pub upsert_raised :
      (s : String) (y : ℕ) (c : C) (e : PyException)
      → (connection.upsert_year s y c).0 ≡ raised e
      → rows (connection.upsert_year s y c).1 ≡ rows c
  pub commit_ok :
      (commit : Exec C (Unit {0})) (c : C)
      → connection.commit ≡ some commit
      → (commit c).0 ≡ ok tt
      → rows (commit c).1 ≡ rows c
  pub commit_raised :
      (commit : Exec C (Unit {0})) (s : String) (y : ℕ) (c : C) (e : PyException)
      → connection.commit ≡ some commit
      → (commit (connection.upsert_year s y c).1).0 ≡ raised e
      → (rows (commit (connection.upsert_year s y c).1).1 ≡ rows c)
        ⊎ (rows (commit (connection.upsert_year s y c).1).1 ≡ rows (connection.upsert_year s y c).1)
