-- ===== src/Recipes/Verified.antt =====
-- Nothing of a download is used before its checksum has been compared.
use psychicstd.Base.{
  ◌≡◌, refl, ap, Bool, true, false, some, inl, inr, text_eq, ℕ_discrete, contains, ◌==◌, arith,
  Bool-cases, eq→≡,
}
use psychicstd.Base.{List, [], ◌∷◌, Text, codes, lookup, values, All}
use psychicstd.Recipes.World.{World, Host, Action, text, ◌/◌}
use psychicstd.Recipes.Core.{Toolchain, Project, Timings, with_source}
use psychicstd.Recipes.Cmake.{
  catch2, catch2_build, date, date_build, ctre, ctre_build, flatbuffers, flatbuffers_build, fmt,
  fmt_build, zancle, zancle_build,
}
use psychicstd.Recipes.Wrapped.{
  googletest, googletest_build, godot, godot_build, cmake, cmake_build, cppcheck,
  cppcheck_build_impl, harfbuzz, harfbuzz_build,
}
use psychicstd.Recipes.Suites.{
  simdutf, simdutf_build, strong_type, strong_type_build, trompeloeil, trompeloeil_build, rdfind,
  rdfind_build, with_catch_header,
}
use psychicstd.Recipes.Single.{
  single_source_project, single_source_build, pocketfft, inipp, nlohmann, nlohmann_build,
}
use psychicstd.Recipes.Registry.{modelled_projects, All-lookup}
use psychicstd.Recipes.Refusal.{
  has_failed, Refuses, >>=-Refuses, ask_then-Refuses, fetch-Refuses, IsUnmatched,
}

-- The SHA-256 sums of the archives that the modelled projects are built from.
abbrev pub pinned_checksums : List Text
pinned_checksums =
    codes "1ab2de20460d4641553addfdfe6acd4109d871d5531f8f519a52ea4926303087"
    ∷ codes "1db9e61e60b6e0874c86386340b910382f3c5e75b9fbfb44d122063129a2789d"
    ∷ codes "f028ff75ca5372738f3737c8b3e8611426a6526b6aea2ef01301ab0f5902f044"
    ∷ codes "7d4b30d0bdd8864a47cceb2ab8e7c4d1846f0ec62383f8c45122435d32f19530"
    ∷ codes "56e05531ee8994124eeb498d0e6a5e1c3b9d4fccbecdf555fe266631368fb55f"
    ∷ codes "f81c3162b1046fe8b84b9a0dbdd383e24fdbcf88583b9cb6028f90d04d90696a"
    ∷ codes "ea7de4299689e12b6dddd392f9896f08fb0777ac7168897a244a6d6085043fea"
    ∷ codes "fa22b5f974125057087c9ef725eae582dbc5e39385dc377e8d5dbc295b367e1c"
    ∷ codes "78c676fc63881529bf97bf9d45948d905a66833fbfa5318ea2cd7478cb98f399"
    ∷ codes "3c2a9006a7e1bf58737e557014d7882c554c628fb379a9f00008f5ea53dbbdfb"
    ∷ codes "656c5d82db48f4da8ed70482839ad0da95ea1d576a3c890c272e9b9e0fb89571"
    ∷ codes "4b92eb0c06d10683f7447ce9406cb97cd4b453be18d7279320f7b2f025c10187"
    ∷ codes "2d90016da31a8cc1dd0ac0c89c1f2fb55df8f4ccc3f0386dcfbad09ac6d1c3ba"
    ∷ codes "49d2b1458e91168aea5540d438ac91ca0d97f651d587632d21aca3c91fae1202"
    ∷ codes "fc6053688d67dc6b90f4dfaea12c06d8fd8254fc56fe62b9ef00942ef19cdf33"
    ∷ codes "b0582ff8ebff7a909464216e4686cdba90a5924dc261672aa6ed0407cd53f5f1"
    ∷ codes "2523571fb7920b2813cbc23b46e60294aba8ead7eba434bfec69c24408615593"
    ∷ codes "f1e868c458d0c422df6d84d11b2e60718bbae10913e4c6182505eac8307461dd"
    ∷ []

-- Bytes whose checksum is not among the pinned ones do not have a pinned checksum.
other_checksum :
    (h : Host) (checksum s : Text)
    → contains pinned_checksums checksum ≡ true
    → contains pinned_checksums (h.sha256 s) ≡ false
    → (h.sha256 s == checksum) ≡ false
other_checksum h checksum s pinned untrusted = elim (Bool-cases (h.sha256 s == checksum)) [
  | inl e ↦ ground (arith, untrusted, pinned, ap (contains pinned_checksums) (eq→≡ _ _ e))
  | inr e ↦ e
]

with_source-Refuses :
    (ignore : Bool) (h : Host) (w : World) (file url checksum prefix : Text)
    (body : Text → Action Timings)
    → IsUnmatched h w url (h.rw_dir / file) checksum
    → Refuses h w (with_source ignore file url checksum prefix body)
unfolding with_source
with_source-Refuses ignore h w file url checksum prefix body wrong =
    ask_then-Refuses h w _ _ (>>=-Refuses h w _ _ (fetch-Refuses h w _ _ _ wrong))

with_catch_header-Refuses :
    (h : Host) (w : World)
    (file url checksum prefix source_dir catch_file catch_url catch_checksum bundled : Text)
    (body : Text → Text → Action Timings)
    → IsUnmatched h w url (h.rw_dir / file) checksum
    → Refuses h w (
        with_catch_header file url checksum prefix source_dir catch_file catch_url catch_checksum
          bundled body)
unfolding with_catch_header
with_catch_header-Refuses h w file url checksum prefix source_dir catch_file catch_url
      catch_checksum bundled body wrong =
    ask_then-Refuses h w _ _ (>>=-Refuses h w _ _ (fetch-Refuses h w _ _ _ wrong))

module _ (h : Host) (w : World)
    (on_disk : (path s : Text)
      → lookup path w.files ≡ some (text s)
      → contains pinned_checksums (h.sha256 s) ≡ false)
    (remote : (url s : Text)
      → h.retrieve url ≡ some s
      → contains pinned_checksums (h.sha256 s) ≡ false) where
  abbrev Refused : Project → Type 0
  Refused p = (tc : Toolchain) → Refuses h w (p.build tc)

  pinned-IsUnmatched :
      (url dest checksum : Text)
      → contains pinned_checksums checksum ≡ true
      → IsUnmatched h w url dest checksum
  pinned-IsUnmatched url dest checksum pinned = record {
    on_disk = λ s e. other_checksum h checksum s pinned (on_disk dest s e);
    remote = λ s e. other_checksum h checksum s pinned (remote url s e);
  }

  source-Refused :
      (ignore : Bool) (file url checksum prefix : Text) (body : Text → Action Timings)
      → contains pinned_checksums checksum ≡ true
      → Refuses h w (with_source ignore file url checksum prefix body)
  source-Refused ignore file url checksum prefix body pinned =
      with_source-Refuses _ h w _ _ _ _ _ (pinned-IsUnmatched _ _ _ pinned)

  header-Refused :
      (file url checksum prefix source_dir catch_file catch_url catch_checksum bundled : Text)
      (body : Text → Text → Action Timings)
      → contains pinned_checksums checksum ≡ true
      → Refuses h w (
          with_catch_header file url checksum prefix source_dir catch_file catch_url catch_checksum
            bundled body)
  header-Refused file url checksum prefix source_dir catch_file catch_url catch_checksum bundled
        body pinned =
      with_catch_header-Refuses h w _ _ _ _ _ _ _ _ _ _ (pinned-IsUnmatched _ _ _ pinned)

  -- The builds all begin with the download of a pinned archive.
  All-Refused : All Refused (values modelled_projects)
  unfolding modelled_projects text_eq ℕ_discrete catch2 catch2_build cmake cmake_build cppcheck
      cppcheck_build_impl ctre ctre_build date date_build flatbuffers flatbuffers_build fmt
      fmt_build godot godot_build googletest googletest_build harfbuzz harfbuzz_build inipp
      single_source_project single_source_build nlohmann nlohmann_build pocketfft rdfind
      rdfind_build simdutf simdutf_build strong_type strong_type_build trompeloeil trompeloeil_build
      zancle zancle_build
  All-Refused = (
    (λ tc. source-Refused _ _ _ _ _ _ refl),
    (
      (λ tc. source-Refused _ _ _ _ _ _ refl),
      (
        (λ tc. source-Refused _ _ _ _ _ _ refl),
        (
          (λ tc. source-Refused _ _ _ _ _ _ refl),
          (
            (λ tc. source-Refused _ _ _ _ _ _ refl),
            (
              (λ tc. source-Refused _ _ _ _ _ _ refl),
              (
                (λ tc. source-Refused _ _ _ _ _ _ refl),
                (
                  (λ tc. source-Refused _ _ _ _ _ _ refl),
                  (
                    (λ tc. source-Refused _ _ _ _ _ _ refl),
                    (
                      (λ tc. source-Refused _ _ _ _ _ _ refl),
                      (
                        (λ tc. source-Refused _ _ _ _ _ _ refl),
                        (
                          (λ tc. source-Refused _ _ _ _ _ _ refl),
                          (
                            (λ tc. source-Refused _ _ _ _ _ _ refl),
                            (
                              (λ tc. source-Refused _ _ _ _ _ _ refl),
                              (
                                (λ tc. source-Refused _ _ _ _ _ _ refl),
                                (
                                  (λ tc. source-Refused _ _ _ _ _ _ refl),
                                  (
                                    (λ tc. source-Refused _ _ _ _ _ _ refl),
                                    (
                                      (λ tc. source-Refused _ _ _ _ _ _ refl),
                                      (
                                        (λ tc. source-Refused _ _ _ _ _ _ refl),
                                        (
                                          (λ tc. source-Refused _ _ _ _ _ _ refl),
                                          (
                                            (λ tc. header-Refused _ _ _ _ _ _ _ _ _ _ refl),
                                            (
                                              (λ tc. header-Refused _ _ _ _ _ _ _ _ _ _ refl),
                                              ((λ tc. source-Refused _ _ _ _ _ _ refl), tt),
                                            ),
                                          ),
                                        ),
                                      ),
                                    ),
                                  ),
                                ),
                              ),
                            ),
                          ),
                        ),
                      ),
                    ),
                  ),
                ),
              ),
            ),
          ),
        ),
      ),
    ),
  )

-- If no file that is there and no download has one of the pinned checksums, then no build of a
-- modelled project starts a command, and each raises.
pub modelled_projects-verified :
    (name : Text) (p : Project) (tc : Toolchain) (h : Host) (w : World)
    → ((path s : Text)
        → lookup path w.files ≡ some (text s)
        → contains pinned_checksums (h.sha256 s) ≡ false)
    → ((url s : Text) → h.retrieve url ≡ some s → contains pinned_checksums (h.sha256 s) ≡ false)
    → lookup name modelled_projects ≡ some p
    → ((p.build tc h w).1.log ≡ w.log) × (has_failed (p.build tc h w).0 ≡ true)
modelled_projects-verified name p tc h w on_disk remote found =
    (All-lookup (Refused h w on_disk remote) name p modelled_projects
      (All-Refused h w on_disk remote) found tc).refuses
