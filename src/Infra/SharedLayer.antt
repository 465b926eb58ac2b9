-- ===== src/Infra/SharedLayer.antt =====
-- infra/scripts/build_shared_layer.py: the directory that is zipped as the shared layer.
pub mod Builds
use Prim.Native.String.{◌++◌ as ◌<>◌}
use text.Mathlib.Text.{starts_with}
use pay_ledger.Prelude.{
  String, Option, none, some, List, [], ◌∷◌, ◌++◌, map, Bool, true, false, not, ◌==◌, if◌then◌else◌,
}

-- A file by its path, relative to the directory that is named, with its contents.
abbrev pub Files : Type 0
Files = List (String × String)

-- How `uv pip install` into an empty directory ends, with what it has written there.
pub data Installed : Type 0 where
  installed : Files → Installed
  failed : Files → Installed

-- uv, SHA-256 and `str.strip`.
pub record Tools : Type 0 where
  pub pip_install : (python_platform python_version requirements : String) → Installed
  pub sha256_hexdigest : String → String
  pub strip : String → String

-- The JSON query, with the contents of the files that it names: `requirements`, and the modules
-- below `shared_dir`.
pub record Query : Type 0 where
  pub shared_modules : Files
  pub requirements : String
  pub architecture : String
  pub python_version : String

-- `output_dir`: the directory `python`, if it is there, and the marker file.
pub record Output : Type 0 where
  pub python_dir : Option Files
  pub marker : Option String

pub data BuildError : Type 0 where
  key_error : String → BuildError
  called_process_error : BuildError

pub data Built : Type 0 where
  built : Output → Built
  raised : BuildError → Output → Built

-- `PYTHON_PLATFORMS[architecture]`
unfoldable pub python_platform : String → Option String
python_platform architecture =
    if architecture == "arm64"
    then some "aarch64-manylinux2014"
    else if architecture == "x86_64"
    then some "x86_64-manylinux2014"
    else none

-- A path below `python/shared`.
abbrev pub in_shared : String → Bool
in_shared path = starts_with path "shared/"

-- `shutil.rmtree(shared_target)`
unfoldable pub without_shared : Files → Files
without_shared [] = []
without_shared ((path, text) ∷ files) =
    let rest = without_shared files in if in_shared path then rest else (path, text) ∷ rest

-- The copies of the modules, below `shared`.
unfoldable pub copies : Files → Files
copies [] = []
copies ((path, text) ∷ files) = ("shared/" <> path, text) ∷ copies files

-- The last part of `main`, on the directory `python`: the first-party code is copied again, whether
-- or not the rest was installed. A directory that is not there is made for a copy.
unfoldable pub refreshed : Option Files → Files → Option Files
unfolding without_shared copies
refreshed none [] = none
refreshed none (m ∷ modules) = some (copies (m ∷ modules))
refreshed (some files) modules = some (without_shared files ++ copies modules)

abbrev pub refresh_shared : Query → Output → Output
refresh_shared query output = record output {
  python_dir = refreshed output.python_dir query.shared_modules;
}

module _ (tools : Tools) where
  -- `not marker.exists() or marker.read_text().strip() != requirements_hash`
  abbrev pub is_stale : Option String → String → Bool
  is_stale none requirements_hash = true
  is_stale (some text) requirements_hash = not (tools.strip text == requirements_hash)

  abbrev pub after_install : Query → Output → Installed → Built
  after_install query output (installed files) = built (
      refresh_shared query (record {
        python_dir = some files;
        marker = some (tools.sha256_hexdigest query.requirements);
      }))
  after_install query output (failed files) =
      raised called_process_error (record { python_dir = some files; marker = output.marker })

  -- The directory is emptied before the platform is looked up.
  unfoldable pub install : Query → Output → Built
  install query output = elim (python_platform query.architecture) [
    | none ↦
        raised (key_error query.architecture)
          (record { python_dir = some []; marker = output.marker })
    | some platform ↦
        after_install query output
          (tools.pip_install platform query.python_version query.requirements)
  ]

  unfoldable pub main : Query → Output → Built
  main query output =
      if is_stale output.marker (tools.sha256_hexdigest query.requirements)
      then install query output
      else built (refresh_shared query output)
