-- ===== src/Compliance/Exec.antt =====
-- `run_cmd`, `try_compile_run`, `_test_one` and `build_runtime_archive`: the commands that run, and
-- what they leave behind. The operating system is the parameter `spawn`.
pub mod Outcomes
mod Tests
use psychicstd.Base.{ℕ, zero, suc, ◌⊎◌, inl, inr, Bool, true, false, not, Option, none, some}
use psychicstd.Base.{List, [], ◌∷◌, ◌++◌, map, Text, codes, contains, keep, ends_with, length}
use psychicstd.Base.{if◌then◌else◌, ◌==◌, nat_eq, text_eq}
use psychicstd.Compliance.Markers.{extra_flags}
use psychicstd.Compliance.Classify.{stem_suffix}
use psychicstd.Compliance.Results.{Entry, entry_of, pass, rfail, cfail}

abbrev pub Command : Type 0
Command = List Text

-- How `subprocess.run` ends.
pub data Outcome : Type 0 where
  exited : ℕ → Outcome
  timed_out : Outcome
  not_found : Outcome
  -- any other exception, such as a `PermissionError`, with its name
  raised : Text → Outcome

-- The files that exist, and the commands that were started, the first one first.
pub record System : Type 0 where
  pub files : List Text
  pub log : List Command

-- The settings of the module that the commands depend on.
pub record Settings : Type 0 where
  pub cxx_cmd : List Text
  pub ar : Text
  pub include_dir : Text
  pub support_dir : Text
  pub sanitize : Bool

abbrev pub standard_flag : Text
standard_flag = codes "-std=c++20"

-- `r.returncode == 0`, where the run neither timed out nor failed to start.
abbrev pub succeeded : Outcome → Bool
succeeded (exited zero) = true
succeeded _ = false

-- The exception that no handler of the commands catches.
abbrev pub escaped : Outcome → Option Text
escaped (raised e) = some e
escaped _ = none

-- Why a build ends here: the exception, or `sys.exit` for what could not be built.
abbrev pub reason : Outcome → Text → Text
reason (raised e) target = e
reason _ target = target

abbrev pub remove_file : Text → System → System
remove_file name s = record s { files = keep (λ f. not (f == name)) s.files }

-- `spawn sanitized command files` is how the command ends, and the files after it. `temp_name` is
-- the name that `NamedTemporaryFile` picks.
module _ (settings : Settings) (spawn : Bool → Command → List Text → Outcome × List Text)
    (temp_name : List Text → Text) where
  unfoldable pub start : Bool → Command → System → Outcome × System
  start sanitized command s =
      let (outcome, files) = spawn sanitized command s.files in
      (outcome, record { files = files; log = s.log ++ (command ∷ []) })

  abbrev pub compile_command : Text → List Text → List Text → Text → Command
  compile_command src flags xflags obj =
      settings.cxx_cmd
      ++ (standard_flag
          ∷ (flags
              ++ (xflags
                  ++ ((codes "-I" ++ settings.support_dir)
                      ∷ codes "-c"
                      ∷ src
                      ∷ codes "-o"
                      ∷ obj
                      ∷ []))))

  abbrev pub link_command : List Text → List Text → Text → List Text → Text → Command
  link_command flags xflags obj link_inputs exe =
      settings.cxx_cmd ++ (flags ++ (xflags ++ (obj ∷ (link_inputs ++ (codes "-o" ∷ exe ∷ [])))))

  -- The run of the program, under `run_cmd`.
  run_program : Text → System → (Text ⊎ Text) × System
  unfolding start
  run_program exe s =
      let (outcome, t) = start settings.sanitize (exe ∷ []) s in
      elim (escaped outcome) [
        | some e ↦ (inl e, t)
        | none ↦ (inr (if succeeded outcome then pass else rfail), t)
      ]

  link_and_run :
      List Text → List Text → List Text → Bool → Text → Text → System → (Text ⊎ Text) × System
  unfolding start run_program
  link_and_run flags xflags link_inputs run_exe exe obj s =
      let (outcome, t) = start false (link_command flags xflags obj link_inputs exe) s in
      elim (escaped outcome) [
        | some e ↦ (inl e, t)
        | none ↦
            if not (succeeded outcome)
            then (inr cfail, t)
            else if not run_exe
            then (inr pass, t)
            else run_program exe t
      ]

  -- The body of the `try` block: the status, or the exception that leaves it.
  unfoldable pub compile_link_run :
      Text
      → List Text
      → List Text
      → List Text
      → Bool
      → Text
      → Text
      → System
      → (Text ⊎ Text) × System
  unfolding start link_and_run
  compile_link_run src flags xflags link_inputs run_exe exe obj s =
      let (outcome, t) = start false (compile_command src flags xflags obj) s in
      elim (escaped outcome) [
        | some e ↦ (inl e, t)
        | none ↦
            if not (succeeded outcome)
            then (inr cfail, t)
            else link_and_run flags xflags link_inputs run_exe exe obj t
      ]

  -- `can_unlink` is whether `os.unlink` removes a file that exists; an `OSError` is ignored.
  module _ (can_unlink : Text → List Text → Bool) where
    unlink : Text → System → System
    unlink name s = if can_unlink name s.files then remove_file name s else s

    -- `try_compile_run`: the `finally` block tries to remove both files on every path.
    unfoldable pub try_compile_run :
        Text → List Text → List Text → List Text → Bool → System → (Text ⊎ Text) × System
    unfolding compile_link_run unlink
    try_compile_run src flags xflags link_inputs run_exe s =
        let exe = temp_name s.files in
        let obj = exe ++ codes ".o" in
        let (status, t) =
          compile_link_run src flags xflags link_inputs run_exe exe obj
            (record s { files = exe ∷ s.files }) in
        (status, unlink obj (unlink exe t))

    -- `_test_one`
    unfoldable pub test_one :
        Text → Text → List Text → List Text → Text → System → (Text ⊎ Entry) × System
    unfolding try_compile_run
    test_one src text sys_flags psy_flags archive s =
        let xf = extra_flags text in
        let is_exec = not (ends_with (stem_suffix src).0 (codes ".compile.pass")) in
        let (sys, t) = try_compile_run src sys_flags xf [] is_exec s in
        let (psy, u) = try_compile_run src psy_flags xf (archive ∷ []) is_exec t in
        elim sys [
          | inl e ↦ (inl e, t)
          | inr system ↦ elim psy [
            | inl e ↦ (inl e, u)
            | inr psychic ↦ (inr (entry_of (system, psychic)), u)
          ]
        ]

  abbrev pub runtime_flags : List Text → List Text
  runtime_flags flags =
      standard_flag
      ∷ codes "-nostdinc++"
      ∷ codes "-fvisibility=hidden"
      ∷ (codes "-I" ++ settings.include_dir)
      ∷ flags

  abbrev pub object_of : Text → Text → Text
  object_of build_dir source = build_dir ++ (codes "/" ++ ((stem_suffix source).0 ++ codes ".o"))

  -- The loop over `RUNTIME_SOURCES`: the objects, or why it ends.
  compile_sources : List Text → Text → List Text → System → (Text ⊎ List Text) × System
  unfolding start
  compile_sources flags build_dir [] s = (inr [], s)
  compile_sources flags build_dir (source ∷ sources) s =
      let obj = object_of build_dir source in
      let (outcome, t) =
        start false
          (settings.cxx_cmd
            ++ (runtime_flags flags ++ (codes "-c" ∷ source ∷ codes "-o" ∷ obj ∷ [])))
          s in
      let (result, u) = compile_sources flags build_dir sources t in
      if not (succeeded outcome)
      then (inl (reason outcome source), t)
      else (elim result [ inl failed ↦ inl failed | inr objects ↦ inr (obj ∷ objects) ], u)

  -- `build_runtime_archive`: the archive, or why there is none.
  unfoldable pub build_runtime_archive :
      List Text → Text → List Text → System → (Text ⊎ Text) × System
  unfolding compile_sources start
  build_runtime_archive sources build_dir flags s =
      let (result, t) = compile_sources flags build_dir sources s in
      elim result [
        | inl failed ↦ (inl failed, t)
        | inr objects ↦
            let archive = build_dir ++ codes "/libpsychicstd.a" in
            let (outcome, u) = start false (settings.ar ∷ codes "rcs" ∷ archive ∷ objects) t in
            if not (succeeded outcome) then (inl (reason outcome archive), u) else (inr archive, u)
      ]
