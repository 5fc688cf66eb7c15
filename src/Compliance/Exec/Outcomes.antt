-- ===== src/Compliance/Exec/Outcomes.antt =====
-- What a test's status says, and what a built archive stands for.
use mathlib.Core.List.{append_assoc, append-nil}
use psychicstd.Base.{
  ℕ, zero, ◌⊎◌, ◌≡◌, refl, ap, Bool-cases, Sum-cases, Bool, true, false, ◌&&◌, not, ◌||◌, ◌↔◌, ◌≢◌,
  inl, inr, arith, map,
}
use psychicstd.Base.{List, [], ◌∷◌, ◌++◌, Text, codes, text_eq, if◌then◌else◌}
use psychicstd.Compliance.Results.{pass, rfail, cfail}
use psychicstd.Compliance.Exec.{
  Command, Outcome, exited, raised, System, Settings, succeeded, start, compile_command,
  link_command, try_compile_run, compile_sources, object_of, runtime_flags, build_runtime_archive,
}

abbrev first : Text → ℕ
first [] = 0
first (c ∷ s) = c

pass-ne-others : (pass ≢ rfail) × (pass ≢ cfail) × (rfail ≢ cfail)
unfolding pass rfail cfail
pass-ne-others =
    (λ e. omega (arith, ap first e), λ e. omega (arith, ap first e), λ e. omega (arith, ap first e))

-- The command ended, in time or not, or was not found, and did not end with status 0.
abbrev pub is_failure : Outcome → Bool
is_failure (exited zero) = false
is_failure (raised e) = false
is_failure _ = true

module _ (settings : Settings) (spawn : Bool → Command → List Text → Outcome × List Text)
    (temp_name : List Text → Text) where
  -- `pass` means that the test compiled, linked and, where it is to run, ended with status 0;
  -- `rfail` that it was to run, compiled and linked but did not end with status 0 in time; any
  -- other end of the compiler or the linker but an exception is `cfail`. An exception of a command
  -- that is not caught there is what `try_compile_run` raises. The linker is started only where the
  -- compiler succeeded, and the program only where both did.
  pub try_compile_run-status :
      (can_unlink : Text → List Text → Bool) (src : Text) (flags xflags link_inputs : List Text)
      (run_exe : Bool) (s : System)
      → let exe = temp_name s.files in
        let obj = exe ++ codes ".o" in
        let compile = compile_command settings spawn temp_name src flags xflags obj in
        let link = link_command settings spawn temp_name flags xflags obj link_inputs exe in
        let compiled = spawn false compile (exe ∷ s.files) in
        let linked = spawn false link compiled.1 in
        let ran = spawn settings.sanitize (exe ∷ []) linked.1 in
        let built = succeeded compiled.0 && succeeded linked.0 in
        let r =
          try_compile_run settings spawn temp_name can_unlink src flags xflags link_inputs run_exe
            s in
        ((r.0 ≡ inr pass) ↔ ((built && (not run_exe || succeeded ran.0)) ≡ true))
        × ((r.0 ≡ inr rfail) ↔ ((built && (run_exe && is_failure ran.0)) ≡ true))
        × ((r.0 ≡ inr cfail)
            ↔ ((is_failure compiled.0 || (succeeded compiled.0 && is_failure linked.0)) ≡ true))
        × ((e : Text)
            → (r.0 ≡ inl e) ↔ (
                (compiled.0 ≡ raised e)
                ⊎ (((succeeded compiled.0 ≡ true) × (linked.0 ≡ raised e))
                    ⊎ (((built && run_exe) ≡ true) × (ran.0 ≡ raised e)))))
        × (r.1.log
            ≡ s.log
              ++ (compile
                  ∷ (if succeeded compiled.0
                      then link ∷ (if succeeded linked.0 && run_exe then (exe ∷ []) ∷ [] else [])
                      else [])))
  unfolding try_compile_run
  try_compile_run-status can_unlink src flags xflags link_inputs run_exe s =
      grind (arith, pass-ne-others, append_assoc)

  abbrev pub source_command : List Text → Text → Text → Command
  source_command flags build_dir source =
      settings.cxx_cmd
      ++ (runtime_flags settings spawn temp_name flags
          ++ (codes "-c"
              ∷ source
              ∷ codes "-o"
              ∷ object_of settings spawn temp_name build_dir source
              ∷ []))

  -- Whether the commands, started one after the other where these files exist, all end with
  -- status 0.
  abbrev pub all_succeed : List Command → List Text → Bool
  all_succeed [] files = true
  all_succeed (command ∷ commands) files =
      let (outcome, files') = spawn false command files in
      succeeded outcome && all_succeed commands files'

  -- The files after these commands.
  abbrev pub files_after : List Command → List Text → List Text
  files_after [] files = files
  files_after (command ∷ commands) files = files_after commands (spawn false command files).1

  all_succeed-append :
      (commands more : List Command) (files : List Text)
      → all_succeed (commands ++ more) files
        ≡ (all_succeed commands files && all_succeed more (files_after commands files))
  all_succeed-append [] more files = refl
  all_succeed-append (command ∷ commands) more files =
      ground (arith, all_succeed-append commands more (spawn false command files).1)

  abbrev pub archive_command : Text → List Text → Command
  archive_command build_dir sources =
      settings.ar
      ∷ codes "rcs"
      ∷ (build_dir ++ codes "/libpsychicstd.a")
      ∷ map (object_of settings spawn temp_name build_dir) sources

  compile_sources-inr :
      (flags : List Text) (build_dir : Text) (sources : List Text) (s : System)
      (objects : List Text)
      → (compile_sources settings spawn temp_name flags build_dir sources s).0 ≡ inr objects
      → (objects ≡ map (object_of settings spawn temp_name build_dir) sources)
        × (all_succeed (map (source_command flags build_dir) sources) s.files ≡ true)
        × ((compile_sources settings spawn temp_name flags build_dir sources s).1 ≡ record {
          files = files_after (map (source_command flags build_dir) sources) s.files;
          log = s.log ++ map (source_command flags build_dir) sources;
        })
  unfolding compile_sources
  compile_sources-inr flags build_dir [] s objects h = (cc, refl, ground (arith, append-nil s.log))
  compile_sources-inr flags build_dir (source ∷ sources) s objects h =
      let (outcome, t) =
        start settings spawn temp_name false (source_command flags build_dir source) s in
      let rest = compile_sources settings spawn temp_name flags build_dir sources t in
      elim (Bool-cases (succeeded outcome)) [
        | inr failed ↦ absurd (ground arith)
        | inl fine ↦ elim (Sum-cases rest.0) [
          | inl (source', e) ↦ absurd (ground arith)
          | inr (others, e) ↦
              let ih = compile_sources-inr flags build_dir sources t others e in
              ground (
                arith,
                ih.0,
                ih.1,
                ih.2,
                append_assoc s.log (source_command flags build_dir source ∷ [])
                    (map (source_command flags build_dir) sources),
              )
        ]
      ]

  -- An archive is returned only if each source was compiled, in the order of the sources, the
  -- archiver was then given the object of every one of them, and each of these commands ended with
  -- status 0; no other command was started. The archive is the one that the archiver was told to
  -- write.
  pub build_runtime_archive-inr :
      (sources : List Text) (build_dir : Text) (flags : List Text) (s : System) (archive : Text)
      → (build_runtime_archive settings spawn temp_name sources build_dir flags s).0 ≡ inr archive
      → let commands =
          map (source_command flags build_dir) sources
          ++ (archive_command build_dir sources ∷ []) in
        (archive ≡ build_dir ++ codes "/libpsychicstd.a")
        × (all_succeed commands s.files ≡ true)
        × ((build_runtime_archive settings spawn temp_name sources build_dir flags s).1.log
            ≡ s.log ++ commands)
  unfolding build_runtime_archive
  build_runtime_archive-inr sources build_dir flags s archive h =
      elim (Sum-cases (compile_sources settings spawn temp_name flags build_dir sources s).0) [
        | inl (source, e) ↦ absurd (ground arith)
        | inr (objects, e) ↦
            let (same, fine, after) = compile_sources-inr flags build_dir sources s objects e in
            ground (
              arith,
              same,
              fine,
              after,
              all_succeed-append (map (source_command flags build_dir) sources)
                  (archive_command build_dir sources ∷ []) s.files,
              append_assoc s.log (map (source_command flags build_dir) sources)
                  (archive_command build_dir sources ∷ []),
            )
      ]
