-- ===== src/Compliance/Exec/Tests.antt =====
-- `try_compile_run` and `build_runtime_archive` with a compiler that writes its output file, and
-- their theorems there.
use psychicstd.Base.{◌≡◌, ◌↔◌, refl, Bool, true, false, inr, inl, ◌⊎◌, not, ℕ_discrete, ◌==◌}
use psychicstd.Base.{List, [], ◌∷◌, Text, codes, if◌then◌else◌, text_eq}
use psychicstd.Compliance.Results.{pass, rfail, cfail}
use psychicstd.Compliance.Exec.{
  Command, Outcome, exited, timed_out, raised, System, Settings, compile_command, link_command,
  try_compile_run, build_runtime_archive,
}
use psychicstd.Compliance.Exec.Outcomes.{
  try_compile_run-status, build_runtime_archive-inr, source_command, archive_command, all_succeed,
}

abbrev settings : Settings
settings = record {
  cxx_cmd = codes "c++" ∷ [];
  ar = codes "ar";
  include_dir = codes "include";
  support_dir = codes "support";
  sanitize = true;
}

-- Each command ends well and leaves one more file; a sanitized one does not end in time.
abbrev spawn : Bool → Command → List Text → Outcome × List Text
spawn sanitized command files =
    if sanitized then (timed_out, files) else (exited 0, codes "t.o" ∷ files)

abbrev temp_name : List Text → Text
temp_name files = codes "t"

abbrev empty : System
empty = record { files = []; log = [] }

-- The object file cannot be removed.
abbrev can_unlink : Text → List Text → Bool
can_unlink name files = not (name == codes "t.o")

timeout_run :
    (try_compile_run settings spawn temp_name can_unlink (codes "a.cpp") [] [] [] true empty).0
    ≡ inr rfail
unfolding try_compile_run
timeout_run = refl

-- A compiler that may not be started.
abbrev forbidden : Bool → Command → List Text → Outcome × List Text
forbidden sanitized command files = (raised (codes "PermissionError"), files)

forbidden_run :
    try_compile_run settings forbidden temp_name can_unlink (codes "a.cpp") [] [] [] true empty ≡ (
      inl (codes "PermissionError"),
      record {
        files = [];
        log = compile_command settings spawn temp_name (codes "a.cpp") [] [] (codes "t.o") ∷ [];
      },
    )
unfolding try_compile_run text_eq ℕ_discrete
forbidden_run = refl

left_run :
    (try_compile_run settings spawn temp_name can_unlink
      (codes "a.cpp")
      []
      []
      []
      true
      empty).1.files
    ≡ codes "t.o" ∷ codes "t.o" ∷ []
unfolding try_compile_run text_eq ℕ_discrete
left_run = refl

try_compile_run-status_example :
    let compile = compile_command settings spawn temp_name (codes "a.cpp") [] [] (codes "t.o") in
    let link = link_command settings spawn temp_name [] [] (codes "t.o") [] (codes "t") in
    let r =
      try_compile_run settings spawn temp_name can_unlink (codes "a.cpp") [] [] [] true empty in
    ((r.0 ≡ inr pass) ↔ (false ≡ true))
    × ((r.0 ≡ inr rfail) ↔ (true ≡ true))
    × ((r.0 ≡ inr cfail) ↔ (false ≡ true))
    × ((e : Text)
        → (r.0 ≡ inl e) ↔ (
            (exited 0 ≡ raised e)
            ⊎ (((true ≡ true) × (exited 0 ≡ raised e)) ⊎ ((true ≡ true) × (timed_out ≡ raised e)))))
    × (r.1.log ≡ compile ∷ link ∷ (codes "t" ∷ []) ∷ [])
try_compile_run-status_example =
    try_compile_run-status settings spawn temp_name can_unlink (codes "a.cpp") [] [] [] true empty

built :
    (build_runtime_archive settings spawn temp_name (codes "a.cpp" ∷ []) (codes "d") [] empty).0
    ≡ inr (codes "d/libpsychicstd.a")
unfolding build_runtime_archive
built = refl

build_runtime_archive-inr_example :
    let commands =
      source_command settings spawn temp_name [] (codes "d") (codes "a.cpp")
      ∷ archive_command settings spawn temp_name (codes "d") (codes "a.cpp" ∷ [])
      ∷ [] in
    (codes "d/libpsychicstd.a" ≡ codes "d/libpsychicstd.a")
    × (all_succeed settings spawn temp_name commands [] ≡ true)
    × ((build_runtime_archive settings spawn temp_name
          (codes "a.cpp" ∷ [])
          (codes "d")
          []
          empty).1.log
        ≡ commands)
build_runtime_archive-inr_example =
    build_runtime_archive-inr settings spawn temp_name (codes "a.cpp" ∷ []) (codes "d") [] empty
      (codes "d/libpsychicstd.a") built
