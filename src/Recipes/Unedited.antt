-- ===== src/Recipes/Unedited.antt =====
-- The projects that are built as they are unpacked, and that their builds return.
use psychicstd.Base.{◌≡◌, true, false, text_eq, List, [], ◌∷◌, Text, codes, Dict}
use psychicstd.Recipes.World.{World, Host, Files}
use psychicstd.Recipes.Core.{Toolchain, Project}
use psychicstd.Recipes.Refusal.{has_failed}
use psychicstd.Recipes.Success.{IsAvailable}
use psychicstd.Recipes.Cmake.{catch2, ctre, fmt}
use psychicstd.Recipes.Suites.{simdutf}
use psychicstd.Recipes.Single.{nlohmann}

-- What a recipe fetches, and the prefix of its directory.
pub record Source : Type 0 where
  pub file : Text
  pub url : Text
  pub checksum : Text
  pub prefix : Text

-- The projects whose recipes neither edit a file nor split the toolchain's flags.
unfoldable pub unedited_projects : Dict Text (Source × Project)
unedited_projects =
    (
      codes "catch2",
      (
        record {
          file = codes "Catch2-v3.8.0.tar.gz";
          url = codes "https://github.com/catchorg/Catch2/archive/refs/tags/v3.8.0.tar.gz";
          checksum = codes "1ab2de20460d4641553addfdfe6acd4109d871d5531f8f519a52ea4926303087";
          prefix = codes "rw-catch2-";
        },
        catch2,
      ),
    )
    ∷ (
      codes "ctre",
      (
        record {
          file = codes "ctre-v3.11.0.tar.gz";
          url =
              codes
                "https://github.com/hanickadot/compile-time-regular-expressions/archive/refs/tags/v3.11.0.tar.gz";
          checksum = codes "7d4b30d0bdd8864a47cceb2ab8e7c4d1846f0ec62383f8c45122435d32f19530";
          prefix = codes "rw-ctre-";
        },
        ctre,
      ),
    )
    ∷ (
      codes "fmt",
      (
        record {
          file = codes "fmt-12.1.0.tar.gz";
          url = codes "https://github.com/fmtlib/fmt/archive/refs/tags/12.1.0.tar.gz";
          checksum = codes "ea7de4299689e12b6dddd392f9896f08fb0777ac7168897a244a6d6085043fea";
          prefix = codes "rw-fmt-";
        },
        fmt,
      ),
    )
    ∷ (
      codes "nlohmann",
      (
        record {
          file = codes "nlohmann-3.12.0.tar.gz";
          url = codes "https://github.com/nlohmann/json/archive/refs/tags/v3.12.0.tar.gz";
          checksum = codes "4b92eb0c06d10683f7447ce9406cb97cd4b453be18d7279320f7b2f025c10187";
          prefix = codes "rw-nlohmann-";
        },
        nlohmann false,
      ),
    )
    ∷ (
      codes "simdutf",
      (
        record {
          file = codes "simdutf-f542909a257bb3a9947f8e9fcaaba68a3e1f3b8b.tar.gz";
          url =
              codes
                "https://github.com/simdutf/simdutf/archive/f542909a257bb3a9947f8e9fcaaba68a3e1f3b8b.tar.gz";
          checksum = codes "fc6053688d67dc6b90f4dfaea12c06d8fd8254fc56fe62b9ef00942ef19cdf33";
          prefix = codes "rw-simdutf-";
        },
        simdutf true (codes "strict"),
      ),
    )
    ∷ []

module _ (h : Host)
    (ok : (cmd : List Text) (cwd : Text) (env : Dict Text Text) (files : Files)
      → (h.spawn cmd cwd env files).0 ≡ 0) where
  abbrev Builds : Source × Project → Type 0
  Builds (s, p) =
      (tc : Toolchain) (w : World)
      → IsAvailable h w s.file s.url s.checksum s.prefix
      → has_failed (p.build tc h w).0 ≡ false
