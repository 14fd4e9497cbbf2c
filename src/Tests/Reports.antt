-- ===== src/Tests/Reports.antt =====
-- Runs of the test runner's reading of pytest.
use url_copilot.Prelude.{[], codes, refl, true, ℕ, ◌↔◌, ◌∷◌, ◌≡◌}
use url_copilot.Agents.Testing.{parse_pytest_summary, run_tests, search_count}
use url_copilot.Agents.Testing.Summary.{run_tests_reads}

-- a process that could not start pytest counts as a success
missing_pytest :
    (run_tests (record { returncode = 1; stdout = ""; stderr = "No module named pytest" })).success
    ≡ true
unfolding run_tests parse_pytest_summary search_count
missing_pytest = refl

run_tests_reads_example :
    let report = run_tests (record {
      returncode = 1;
      stdout = "== 12 passed, 3 failed, 0 errors in 0.45s ==";
      stderr = "";
    }) in
    (report.passed ≡ 12)
    × (report.failed ≡ 3)
    × (report.errors ≡ 0)
    × ((report.success ≡ true) ↔ (◌≡◌ {A = ℕ} 3 0 × ◌≡◌ {A = ℕ} 0 0))
run_tests_reads_example =
    run_tests_reads 1 b'1' b'3' b'0' (codes "== ") (b'2' ∷ []) [] [] (codes "s in 0.45s ==")
      "== 12 passed, 3 failed, 0 errors in 0.45s ==" "" (refl, (refl, (refl, tt)))
      (refl, (refl, tt)) (refl, tt) (refl, tt) refl
