-- ===== src/Infra/SharedLayer/Builds.antt =====
-- Builds one after another: what is installed again, and what is kept.
use mathlib.Core.List.{append-nil}
use pay_ledger.Prelude.{
  String, ◌≡◌, refl, sym, ◌∙◌, subst, ◌⊎◌, none, some, [], ◌∷◌, ◌++◌, true, false, ◌==◌, eq_refl,
  eq_iff, inl, inr, Bool-cases, arith,
}
use text.Mathlib.TextPositions.{starts_with-append}
use pay_ledger.Infra.SharedLayer.{
  Files, installed, failed, called_process_error, Tools, Query, Output, built, raised,
  python_platform, in_shared, without_shared, copies, refreshed, refresh_shared, is_stale, install,
  main,
}

without_shared-append :
    (xs ys : Files) → without_shared (xs ++ ys) ≡ without_shared xs ++ without_shared ys
unfolding without_shared
without_shared-append [] ys = refl
without_shared-append ((p, c) ∷ xs) ys = elim (Bool-cases (in_shared p)) [
  | inl e ↦ ground (arith, without_shared-append xs ys)
  | inr e ↦ ground (arith, without_shared-append xs ys)
]

without_shared-copies : (xs : Files) → without_shared (copies xs) ≡ []
unfolding without_shared copies
without_shared-copies [] = refl
without_shared-copies ((p, c) ∷ xs) = rw (starts_with-append "shared/" p) (without_shared-copies xs)

without_shared_idem : (xs : Files) → without_shared (without_shared xs) ≡ without_shared xs
unfolding without_shared
without_shared_idem [] = refl
without_shared_idem ((p, c) ∷ xs) = elim (Bool-cases (in_shared p)) [
  | inl e ↦ ground (arith, without_shared_idem xs)
  | inr e ↦ ground (arith, without_shared_idem xs)
]

-- Copying again on top of copies leaves the copies alone.
without_shared-refreshed :
    (files modules : Files)
    → without_shared (without_shared files ++ copies modules) ≡ without_shared files
without_shared-refreshed files modules =
    without_shared-append (without_shared files) (copies modules)
    ∙ rw (without_shared-copies modules, append-nil) (without_shared_idem files)

module _ (tools : Tools) where
  -- The directory of a successful build for an architecture, a Python version and requirements: the
  -- marker has their hash, and what is not first-party is what pip has installed for them.
  pub record IsBuilt (architecture python_version requirements : String) (output : Output)
      : Type 0 where
    pub platform : String
    pub known : python_platform architecture ≡ some platform
    pub dependencies : Files
    pub by_pip : tools.pip_install platform python_version requirements ≡ installed dependencies
    pub files : Files
    pub there : output.python_dir ≡ some files
    pub same : without_shared files ≡ without_shared dependencies
    pub marked : output.marker ≡ some (tools.sha256_hexdigest requirements)

  fresh-marker :
      (output : Output) (requirements : String)
      → output.marker ≡ some (tools.sha256_hexdigest requirements)
      → tools.strip (tools.sha256_hexdigest requirements) ≡ tools.sha256_hexdigest requirements
      → is_stale tools output.marker (tools.sha256_hexdigest requirements) ≡ false
  fresh-marker output requirements marked plain =
      rw (marked, plain, eq_refl (tools.sha256_hexdigest requirements)) refl

  main-stale :
      (query : Query) (output : Output)
      → is_stale tools output.marker (tools.sha256_hexdigest query.requirements) ≡ true
      → main tools query output ≡ install tools query output
  unfolding main
  main-stale query output stale = rw stale refl

  -- Where the directory is that of a successful build for the requirements of the query, the marker
  -- is found and pip is not run, whatever architecture and Python version the query names: the
  -- dependencies stay those of the earlier build.
  main-marked :
      (architecture python_version : String) (query : Query) (output : Output)
      → IsBuilt architecture python_version query.requirements output
      → tools.strip (tools.sha256_hexdigest query.requirements)
        ≡ tools.sha256_hexdigest query.requirements
      → main tools query output ≡ built (refresh_shared query output)
  unfolding main
  main-marked architecture python_version query output b plain =
      rw (fresh-marker output query.requirements b.marked plain) refl

  install-installed :
      (query : Query) (output : Output) {platform : String} {dependencies : Files}
      → python_platform query.architecture ≡ some platform
      → tools.pip_install platform query.python_version query.requirements ≡ installed dependencies
      → install tools query output
        ≡ built (record {
          python_dir = refreshed (some dependencies) query.shared_modules;
          marker = some (tools.sha256_hexdigest query.requirements);
        })
  unfolding install
  install-installed query output known by_pip = simp (install, known, by_pip)

  refresh-installed :
      (query : Query) (output : Output)
      → IsBuilt query.architecture query.python_version query.requirements output
      → install tools query output ≡ built (refresh_shared query output)
  unfolding refreshed
  refresh-installed query output b =
      install-installed query output b.known b.by_pip ∙ rw (b.there, b.marked, b.same) refl

  -- Skipping pip is right where the marker is that of a successful build for the architecture and
  -- the Python version of the query: where SHA-256 tells the two requirements apart, and a hash has
  -- no white space around it, `main` ends as if it had installed everything again.
  pub main-install :
      (requirements : String) (query : Query) (output : Output)
      → IsBuilt query.architecture query.python_version requirements output
      → tools.strip (tools.sha256_hexdigest requirements) ≡ tools.sha256_hexdigest requirements
      → (tools.sha256_hexdigest requirements ≡ tools.sha256_hexdigest query.requirements
          → requirements ≡ query.requirements)
      → main tools query output ≡ install tools query output
  unfolding main
  main-install requirements query output b plain distinct =
      elim (Bool-cases
        (tools.sha256_hexdigest requirements == tools.sha256_hexdigest query.requirements)) [
          | inl e ↦
              let same = distinct (
                (eq_iff (tools.sha256_hexdigest requirements)
                    (tools.sha256_hexdigest query.requirements)).0
                  e) in
              let again =
                subst (λ r. IsBuilt query.architecture query.python_version r output) same b in
              main-marked query.architecture query.python_version query output again (
                subst (λ r. tools.strip (tools.sha256_hexdigest r) ≡ tools.sha256_hexdigest r) same
                  plain)
              ∙ sym (refresh-installed query output again)
          | inr e ↦ main-stale query output (rw (b.marked, plain, e) refl)
        ]

  abbrev pub installed_output : Query → Files → Output
  installed_output query dependencies = record {
    python_dir = some (without_shared dependencies ++ copies query.shared_modules);
    marker = some (tools.sha256_hexdigest query.requirements);
  }

  install-IsBuilt :
      (query : Query) (output : Output) {platform : String} {dependencies : Files}
      → python_platform query.architecture ≡ some platform
      → tools.pip_install platform query.python_version query.requirements ≡ installed dependencies
      → IsBuilt query.architecture query.python_version query.requirements
          (installed_output query dependencies)
  install-IsBuilt query output {platform} {dependencies} known by_pip = record {
    platform = platform;
    known = known;
    dependencies = dependencies;
    by_pip = by_pip;
    files = without_shared dependencies ++ copies query.shared_modules;
    there = refl;
    same = without_shared-refreshed dependencies query.shared_modules;
    marked = refl;
  }

  -- Where there is no marker, or the directory is that of a successful build for the architecture
  -- and the Python version of the query, SHA-256 tells the requirements apart, and a hash has no
  -- white space around it: where pip installs the requirements, `main` ends well, and the directory
  -- is that of a successful build for the query, with the first-party modules of the query.
  pub main-IsBuilt :
      (requirements : String) (query : Query) (output : Output) (platform : String)
      (dependencies : Files)
      → (output.marker ≡ none) ⊎ IsBuilt query.architecture query.python_version requirements output
      → tools.strip (tools.sha256_hexdigest requirements) ≡ tools.sha256_hexdigest requirements
      → (tools.sha256_hexdigest requirements ≡ tools.sha256_hexdigest query.requirements
          → requirements ≡ query.requirements)
      → python_platform query.architecture ≡ some platform
      → tools.pip_install platform query.python_version query.requirements ≡ installed dependencies
      → (main tools query output ≡ built (installed_output query dependencies))
        × IsBuilt query.architecture query.python_version query.requirements
            (installed_output query dependencies)
  unfolding main refreshed
  main-IsBuilt requirements query output platform dependencies before plain distinct known by_pip =
      (
        elim before [
          | inl missing ↦
              main-stale query output (rw missing refl)
              ∙ install-installed query output known by_pip
          | inr b ↦
              main-install requirements query output b plain distinct
              ∙ install-installed query output known by_pip
        ],
        install-IsBuilt query output known by_pip,
      )

  -- What is left where pip fails after it has written some files.
  abbrev pub partly_installed : Files → Output → Output
  partly_installed files output = record output { python_dir = some files }

  install-failed :
      (query : Query) (output : Output) {platform : String} {files : Files}
      → python_platform query.architecture ≡ some platform
      → tools.pip_install platform query.python_version query.requirements ≡ failed files
      → install tools query output ≡ raised called_process_error (partly_installed files output)
  unfolding install
  install-failed query output known by_pip = simp (install, known, by_pip)

  -- A build for new requirements, whose hash is another one, at which pip fails keeps the marker of
  -- the old requirements, over what pip has left. Where these are built again, `main` ends well
  -- without running pip.
  pub main-failed :
      (architecture python_version : String) (new old : Query) (output : Output) (platform : String)
      (files : Files)
      → IsBuilt architecture python_version old.requirements output
      → tools.strip (tools.sha256_hexdigest old.requirements)
        ≡ tools.sha256_hexdigest old.requirements
      → (tools.sha256_hexdigest old.requirements == tools.sha256_hexdigest new.requirements) ≡ false
      → python_platform new.architecture ≡ some platform
      → tools.pip_install platform new.python_version new.requirements ≡ failed files
      → (main tools new output ≡ raised called_process_error (partly_installed files output))
        × (main tools old (partly_installed files output)
            ≡ built (refresh_shared old (partly_installed files output)))
  unfolding main
  main-failed architecture python_version new old output platform files b plain other known by_pip =
      (
        main-stale new output (rw (b.marked, plain, other) refl)
            ∙ install-failed new output known by_pip,
        rw (fresh-marker (partly_installed files output) old.requirements b.marked plain) refl,
      )
