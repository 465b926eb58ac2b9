-- ===== src/Tests/Builds.antt =====
-- Builds of the shared layer with a small pip.
use Prim.Native.String.{◌++◌ as ◌<>◌}
use pay_ledger.Prelude.{String, ◌≡◌, refl, none, [], ◌∷◌, ◌==◌, if◌then◌else◌, inl}
use pay_ledger.Infra.SharedLayer.{
  Files, installed, failed, Tools, Query, Output, built, raised, called_process_error,
  python_platform, without_shared, copies, refresh_shared, install, main,
}
use pay_ledger.Infra.SharedLayer.Builds.{
  IsBuilt, main-install, main-IsBuilt, installed_output, main-failed, partly_installed,
}

abbrev wheels : String → String → String → Files
wheels python_platform python_version requirements =
    ("wheel", python_platform <> python_version <> requirements) ∷ []

-- A hash of this pip is the text itself. The requirements "broken" are not installed.
abbrev tools : Tools
tools = record {
  pip_install =
      λ p v r. if r == "broken" then failed (("half", "") ∷ []) else installed (wheels p v r);
  sha256_hexdigest = λ text. text;
  strip = λ text. text;
}

abbrev modules : Files
modules = ("utils.py", "import json") ∷ []

abbrev asks : String → String → Query
asks architecture requirements = record {
  shared_modules = modules;
  requirements = requirements;
  architecture = architecture;
  python_version = "3.13";
}

abbrev fresh_output : Output
fresh_output = record { python_dir = none; marker = none }

abbrev arm_output : Output
arm_output =
    installed_output tools (asks "arm64" "boto3") (wheels "aarch64-manylinux2014" "3.13" "boto3")

arm_output-IsBuilt : IsBuilt tools "arm64" "3.13" "boto3" arm_output
unfolding python_platform without_shared copies
arm_output-IsBuilt =
    (main-IsBuilt tools "boto3" (asks "arm64" "boto3") fresh_output "aarch64-manylinux2014"
      (wheels "aarch64-manylinux2014" "3.13" "boto3") (inl refl) refl (λ e. e) refl refl).1

main-install_example :
    main tools (asks "arm64" "boto3") arm_output ≡ install tools (asks "arm64" "boto3") arm_output
main-install_example =
    main-install tools "boto3" (asks "arm64" "boto3") arm_output arm_output-IsBuilt refl (λ e. e)

main-failed_example :
    (main tools (asks "arm64" "broken") arm_output
      ≡ raised called_process_error (partly_installed tools (("half", "") ∷ []) arm_output))
    × (main tools (asks "arm64" "boto3") (partly_installed tools (("half", "") ∷ []) arm_output)
        ≡ built (
            refresh_shared
              (asks "arm64" "boto3")
              (partly_installed tools (("half", "") ∷ []) arm_output)))
unfolding python_platform
main-failed_example =
    main-failed tools "arm64" "3.13" (asks "arm64" "broken") (asks "arm64" "boto3") arm_output
      "aarch64-manylinux2014" (("half", "") ∷ []) arm_output-IsBuilt refl refl refl refl
