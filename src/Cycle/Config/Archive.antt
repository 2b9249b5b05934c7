-- ===== src/Cycle/Config/Archive.antt =====
-- `_validated_archive_root`.
use carbon_ops_parser.Prelude.{String, Bool, true, false, not, if◌then◌else◌}
use carbon_ops_parser.Exec.{PyException, Exec, pure, raise, value_error, ◌>>=◌, ◌>>◌, try_except}
use carbon_ops_parser.Cycle.Config.Json.{Json, string}

-- The operations of `pathlib` that are used, on the texts of paths: `str(Path(text))`, `path.exists()`,
-- `path.is_dir()`, `path.mkdir(parents=True, exist_ok=True)` and `path.stat()`, and whether an
-- exception is an `OSError`.
pub record Files (W : Type 0) : Type 0 where
  pub path_of : String → String
  pub exists : String → Exec W Bool
  pub is_dir : String → Exec W Bool
  pub mkdir : String → Exec W (Unit {0})
  pub stat : String → Exec W Bool
  pub is_os_error : PyException → Bool

module _ {W : Type 0} (files : Files W) where
  abbrev pub archive_error : {A : Type 0} → String → Exec W A
  archive_error text = raise (value_error text)

  -- `a() and not b()`
  abbrev pub and_not : Exec W Bool → Exec W Bool → Exec W Bool
  and_not a b = a >>= λ x. if x then (b >>= λ y. pure (not y)) else pure false

  -- `not a() or not b()`
  abbrev pub neither : Exec W Bool → Exec W Bool → Exec W Bool
  neither a b = a >>= λ x. if x then (b >>= λ y. pure (not y)) else pure true

  -- `except OSError as exc: raise ValueError(…) from exc`
  abbrev not_created : PyException → Exec W (Unit {0})
  not_created e =
      if files.is_os_error e then archive_error "archive_root could not be created." else raise e

  abbrev pub create_if_missing : String → Bool → Exec W (Unit {0})
  create_if_missing path true = pure tt
  create_if_missing path false = try_except (files.mkdir path) not_created pure

  abbrev pub checked_access : String → Exec W String
  checked_access path = neither (files.exists path) (files.stat path) >>= λ lost.
      if lost then archive_error "archive_root is not accessible." else pure path

  abbrev pub checked_directory : String → Bool → Exec W String
  checked_directory path true = checked_access path
  checked_directory path false = archive_error "archive_root must resolve to a directory."

  unfoldable pub validated_path : String → Exec W String
  validated_path path = do
    other ← and_not (files.exists path) (files.is_dir path)
    if other then archive_error "archive_root must be a directory path." else pure tt
    there ← files.exists path
    create_if_missing path there
    directory ← files.is_dir path
    checked_directory path directory

  -- `_validated_archive_root`
  unfoldable pub validated_archive_root : {F : Type 0} → Json F → Exec W String
  unfolding validated_path
  validated_archive_root (string text) = validated_path (files.path_of text)
  validated_archive_root _ = archive_error "archive_root must be a string path."
