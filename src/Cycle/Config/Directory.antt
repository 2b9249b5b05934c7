-- ===== src/Cycle/Config/Directory.antt =====
-- The archive root of a configuration.
use carbon_ops_parser.Prelude.{String, Bool, true, false, not, if◌then◌else◌, ◌≡◌}
use carbon_ops_parser.Exec.{Result, ok, raised, Exec, pure, raise, ◌>>=◌}
use carbon_ops_parser.Exec.Ensures.{Ensures, Ensures-bind}
use carbon_ops_parser.Cycle.Config.Json.{
  Json, none_value, boolean, integer, float, string, array, mapping,
}
use carbon_ops_parser.Cycle.Config.Archive.{
  Files, neither, checked_access, checked_directory, validated_path, validated_archive_root,
}

-- `path.is_dir()` says truly that a directory is there, and `path.exists()` and `path.stat()` leave it
-- there.
pub record AreFiles {W : Type 0} (files : Files W) (IsDirectory : String → W → Type 0)
    : Type 0 where
  pub is_dir_true :
      (path : String) (w : W)
      → (files.is_dir path w).0 ≡ ok true
      → IsDirectory path (files.is_dir path w).1
  pub exists_keeps :
      (path : String) (w : W) → IsDirectory path w → IsDirectory path (files.exists path w).1
  pub stat_keeps :
      (path : String) (w : W) → IsDirectory path w → IsDirectory path (files.stat path w).1

module _ {W : Type 0} (IsDirectory : String → W → Type 0) where
  -- What is returned is the path of a directory.
  abbrev pub IsRoot : Result String → W → Type 0
  IsRoot (ok path) w = IsDirectory path w
  IsRoot (raised e) w = Unit

  if-IsRoot :
      (lost : Bool) (path text : String) (w : W)
      → IsDirectory path w
      → Ensures
          (if lost then raise (record { class_name = "ValueError"; text = text }) else pure path)
          w
          IsRoot
  if-IsRoot true path text w h = tt
  if-IsRoot false path text w h = h

module _ {W : Type 0} (files : Files W) (IsDirectory : String → W → Type 0)
    (are : AreFiles files IsDirectory) where
  stat-keeps :
      (path : String) (w : W) (there : Bool)
      → IsDirectory path w
      → Ensures
          (if there then (files.stat path >>= λ y. pure (not y)) else pure true)
          w
          (λ r w'. IsDirectory path w')
  stat-keeps path w true h =
      Ensures-bind (files.stat path) _ w (λ r w'. IsDirectory path w')
        (λ e k. are.stat_keeps path w h) (λ a k. are.stat_keeps path w h)
  stat-keeps path w false h = h

  neither-keeps :
      (path : String) (w : W)
      → IsDirectory path w
      → Ensures
          (neither files (files.exists path) (files.stat path))
          w
          (λ r w'. IsDirectory path w')
  neither-keeps path w h =
      Ensures-bind (files.exists path) _ w (λ r w'. IsDirectory path w')
        (λ e k. are.exists_keeps path w h)
        (λ there k. stat-keeps path (files.exists path w).1 there (are.exists_keeps path w h))

  checked_access-IsRoot :
      (path : String) (w : W)
      → IsDirectory path w
      → Ensures (checked_access files path) w (IsRoot IsDirectory)
  checked_access-IsRoot path w h =
      Ensures-bind (neither files (files.exists path) (files.stat path)) _ w (IsRoot IsDirectory)
        (λ e k. tt)
        (λ lost k.
          if-IsRoot IsDirectory lost path "archive_root is not accessible." _
            (neither-keeps path w h))

  checked_directory-IsRoot :
      (path : String) (w : W) (directory : Bool)
      → (files.is_dir path w).0 ≡ ok directory
      → Ensures
          (checked_directory files path directory)
          (files.is_dir path w).1
          (IsRoot IsDirectory)
  checked_directory-IsRoot path w true h =
      checked_access-IsRoot path (files.is_dir path w).1 (are.is_dir_true path w h)
  checked_directory-IsRoot path w false h = tt

  -- From every world the action returns the path of a directory, if it returns.
  record FindsRoot (m : Exec W String) : Type 0 where
    finds : (w : W) → Ensures m w (IsRoot IsDirectory)

  bind-FindsRoot :
      {A : Type 0} (m : Exec W A) {f : A → Exec W String}
      → ((a : A) → FindsRoot (f a))
      → FindsRoot (m >>= f)
  bind-FindsRoot m {f} h = record {
    finds = λ w. Ensures-bind m f w (IsRoot IsDirectory) (λ e k. tt) (λ a k. (h a).finds (m w).1);
  }

  is_dir-FindsRoot :
      (path : String) → FindsRoot (files.is_dir path >>= checked_directory files path)
  is_dir-FindsRoot path = record {
    finds = λ w.
        Ensures-bind (files.is_dir path) (checked_directory files path) w (IsRoot IsDirectory)
          (λ e k. tt) (λ directory k. checked_directory-IsRoot path w directory k);
  }

  validated_path-FindsRoot : (path : String) → FindsRoot (validated_path files path)
  unfolding validated_path
  validated_path-FindsRoot path = bind-FindsRoot _ (λ other.
      bind-FindsRoot _
        (λ u. bind-FindsRoot _ (λ there. bind-FindsRoot _ (λ v. is_dir-FindsRoot path))))

  -- Over a file system whose directories are found and not removed by a look at them, the archive
  -- root that is returned is the path of a directory, also when the root had to be created.
  pub validated_archive_root-IsRoot :
      {F : Type 0} (value : Json F) (w : W)
      → Ensures (validated_archive_root files value) w (IsRoot IsDirectory)
  unfolding validated_archive_root
  validated_archive_root-IsRoot (string text) w =
      (validated_path-FindsRoot (files.path_of text)).finds w
  validated_archive_root-IsRoot none_value w = tt
  validated_archive_root-IsRoot (boolean b) w = tt
  validated_archive_root-IsRoot (integer n) w = tt
  validated_archive_root-IsRoot (float x) w = tt
  validated_archive_root-IsRoot (array xs) w = tt
  validated_archive_root-IsRoot (mapping xs) w = tt
