-- ===== src/Compliance/Gate/Tests.antt =====
-- The sanitizer gate on a small cache, and its theorems there.
use psychicstd.Base.{◌≡◌, ◌↔◌, refl, true, ◌&&◌, not, some}
use psychicstd.Base.{
  List, [], ◌∷◌, Text, codes, Dict, contains, All, IsSorted, NoDup, text_leb, text_eq, ℕ_discrete,
}
use psychicstd.Base.{strip}
use psychicstd.Compliance.Results.{Entry, HeaderCache, pass, rfail, cfail, entry_of}
use psychicstd.Compliance.Baseline.{test_id, load_baseline, save_baseline, is_id}
use psychicstd.Base.{is_line_break}
use psychicstd.Compliance.Baseline.Lines.{IsClean, load_baseline-save_baseline}
use psychicstd.Compliance.Gate.{is_failing, failing_ids, ran_ids, gate}
use psychicstd.Compliance.Gate.Regressions.{
  AllCached, gate-status_iff, gate-lists, gate-save_baseline,
}

abbrev tests : Dict Text Entry
tests =
    (codes "/x/libcxx/test/a", entry_of (pass, rfail))
    ∷ (codes "/x/libcxx/test/b", entry_of (pass, pass))
    ∷ (codes "/x/libcxx/test/c", entry_of (rfail, rfail))
    ∷ []

abbrev cache : Dict Text HeaderCache
cache =
    (codes "map", record { tests = tests; lines = 9; eligible = 4; ignored = 1; standard = 20 })
    ∷ []

abbrev baseline : List Text
baseline = codes "b" ∷ []

failing_run : failing_ids cache ≡ codes "a" ∷ []
unfolding failing_ids test_id text_eq pass rfail cfail
failing_run = refl

gate_run :
    gate cache baseline
    ≡ record { known = []; fixed = codes "b" ∷ []; new = codes "a" ∷ []; status = 1 }
unfolding gate test_id text_eq pass rfail cfail
gate_run = refl

failing-IsClean : All IsClean (failing_ids cache)
unfolding failing_ids test_id text_eq pass rfail cfail is_line_break strip is_id ℕ_discrete
failing-IsClean = (record { one_line = (refl, tt); trimmed = refl; named = refl }, tt)

gate-status_iff_example :
    ((gate cache baseline).status ≡ 0)
    ↔ AllCached (λ path e. is_failing e ≡ true → contains baseline (test_id path) ≡ true) cache
gate-status_iff_example = gate-status_iff cache baseline

gate-lists_example :
    let v = gate cache baseline in
    (IsSorted text_leb v.known × IsSorted text_leb v.new × IsSorted text_leb v.fixed)
    × (NoDup v.known × NoDup v.new)
    × ((id : Text)
        → contains v.known id ≡ (contains baseline id && contains (failing_ids cache) id))
    × ((id : Text)
        → contains v.new id ≡ (not (contains baseline id) && contains (failing_ids cache) id))
    × ((id : Text)
        → contains v.fixed id ≡ (
            contains baseline id
            && contains (ran_ids cache) id
            && not (contains (failing_ids cache) id)))
gate-lists_example = gate-lists cache baseline

gate-save_baseline_example :
    let v = gate cache (load_baseline (some (save_baseline (failing_ids cache)))) in
    (v.status ≡ 0) × (v.new ≡ []) × (v.fixed ≡ [])
gate-save_baseline_example = gate-save_baseline cache failing-IsClean

load_baseline-save_baseline_example :
    contains (load_baseline (some (save_baseline (failing_ids cache)))) (codes "a")
    ≡ contains (failing_ids cache) (codes "a")
load_baseline-save_baseline_example =
    load_baseline-save_baseline (failing_ids cache) (codes "a") failing-IsClean
