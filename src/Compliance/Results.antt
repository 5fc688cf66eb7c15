-- ===== src/Compliance/Results.antt =====
-- The per-test results, their counts and the summary of a header; the cache file.
pub mod Tally
pub mod Cache
use psychicstd.Base.{ℕ, suc, ◌+◌, ◌*◌, Bool, true, false, ◌&&◌, ◌||◌, Option, none, some}
use psychicstd.Base.{List, [], ◌∷◌, Text, codes, Dict, values, insert, contains, keys, lookup}
use psychicstd.Base.{if◌then◌else◌, ◌==◌, text_eq, nat_eq, ltb, leb}

-- What `try_compile_run` returns.
unfoldable pub pass : Text
pass = codes "pass"

unfoldable pub rfail : Text
rfail = codes "rfail"

unfoldable pub cfail : Text
cfail = codes "cfail"

-- `{"sys": ..., "psy": ...}`; `none` is a missing key or `None`.
pub record Entry : Type 0 where
  pub sys : Option Text
  pub psy : Option Text

-- The entry that `_test_one` builds of the two statuses.
abbrev pub entry_of : Text × Text → Entry
entry_of (system, psychic) = record { sys = some system; psy = some psychic }

-- `e.get(k) == status`
abbrev pub has_status : Text → Option Text → Bool
has_status status none = false
has_status status (some s) = s == status

pub record Counts : Type 0 where
  pub both_pass : ℕ
  pub system_only : ℕ
  pub psychic_only : ℕ
  pub both_fail : ℕ

abbrev pub zero_counts : Counts
zero_counts = record { both_pass = 0; system_only = 0; psychic_only = 0; both_fail = 0 }

-- One round of the loop of `_result_counts`.
unfoldable pub count_result : Counts → Entry → Counts
count_result c e = elim e.psy [
  | none ↦ c
  | some status ↦
      let system = has_status pass e.sys in
      let psychic = status == pass in
      if system && psychic
      then record c { both_pass = suc c.both_pass }
      else if system
      then record c { system_only = suc c.system_only }
      else if psychic
      then record c { psychic_only = suc c.psychic_only }
      else record c { both_fail = suc c.both_fail }
]

unfoldable pub count_from : Counts → List Entry → Counts
count_from c [] = c
count_from c (e ∷ es) = count_from (count_result c e) es

-- `_result_counts`
unfoldable pub result_counts : Dict Text Entry → Counts
unfolding count_from count_result
result_counts tests = count_from zero_counts (values tests)

-- A header's part of the cache, with every key that `check_header` writes.
pub record HeaderCache : Type 0 where
  pub tests : Dict Text Entry
  pub lines : ℕ
  pub eligible : ℕ
  pub ignored : ℕ
  pub standard : ℕ

pub record Summary : Type 0 where
  pub header : Text
  pub eligible : ℕ
  pub ignored : ℕ
  pub tested : ℕ
  pub psychic_passes : ℕ
  pub counts : Counts
  pub lines : ℕ

-- `_summary_from_cache`
unfoldable pub summary_from_cache : Text → HeaderCache → Summary
summary_from_cache header hc =
    let counts = result_counts hc.tests in
    record {
      header = header;
      eligible = hc.eligible;
      ignored = hc.ignored;
      tested = counts.both_pass + counts.system_only + counts.psychic_only + counts.both_fail;
      psychic_passes = counts.both_pass + counts.psychic_only;
      counts = counts;
      lines = hc.lines;
    }

-- `_empty_header_cache`, at the language standard 20
abbrev pub empty_header_cache : HeaderCache
empty_header_cache = record { tests = []; lines = 0; eligible = 0; ignored = 0; standard = 20 }

pub data Emoji : Type 0 where
  white green yellow red : Emoji

-- `compliance_emoji`. The quotient is compared exactly: as a double it is on the same side of 0.8
-- and of 0.2 while the counts are below 2 ^ 50.
unfoldable pub compliance_emoji : ℕ → ℕ → ℕ → Emoji
compliance_emoji n_pass tested relevant =
    if relevant == 0 || tested == 0
    then white
    else if leb (4 * relevant) (5 * n_pass)
    then green
    else if ltb (5 * n_pass) relevant
    then red
    else yellow
