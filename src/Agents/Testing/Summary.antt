-- ===== src/Agents/Testing/Summary.antt =====
-- The counts in the summary that pytest prints.
use url_copilot.Prelude.{
  All, List, String, [], ap, arith, codes, concat, false, nat_beq_iff, none, refl, some, true, ℕ,
  ◌*◌, ◌++◌, ◌+◌, ◌-◌, ◌↔◌, ◌∙◌, ◌∷◌, ◌≡◌,
}
use url_copilot.Agents.Testing.{
  count_here, is_decimal, or_zero, parse_pytest_summary, run_tests, search_count,
}

-- the number that decimal digits write
abbrev pub value_of : ℕ → List ℕ → ℕ
value_of n [] = n
value_of n (d ∷ ds) = value_of (10 * n + (d - b'0')) ds

abbrev pub AllDecimal : List ℕ → Type 0
AllDecimal = All (λ d. is_decimal d ≡ true)

count_here-digits :
    (label : List ℕ) (n : ℕ) (ds t : List ℕ)
    → AllDecimal ds
    → count_here label n (ds ++ t) ≡ count_here label (value_of n ds) t
unfolding count_here
count_here-digits label n [] t h = refl
count_here-digits label n (d ∷ ds) t h =
    ground (arith, h.0, count_here-digits label (10 * n + (d - b'0')) ds t h.1)

-- digits that another word follows are passed over
search_count-pass :
    (label ds t : List ℕ)
    → AllDecimal ds
    → ((n : ℕ) → count_here label n t ≡ none)
    → search_count label (ds ++ t) ≡ search_count label t
unfolding search_count
search_count-pass label [] t h other_word = refl
search_count-pass label (d ∷ ds) t h other_word = ground (
  arith,
  h.0,
  count_here-digits label 0 (d ∷ ds) t h,
  other_word (value_of 0 (d ∷ ds)),
  search_count-pass label ds t h.1 other_word,
)

-- digits that the label follows are read
search_count-read :
    (label : List ℕ) (d : ℕ) (ds t : List ℕ)
    → AllDecimal (d ∷ ds)
    → ((n : ℕ) → count_here label n t ≡ some n)
    → search_count label ((d ∷ ds) ++ t) ≡ some (value_of 0 (d ∷ ds))
unfolding search_count
search_count-read label d ds t h follows =
    ground (arith, h.0, count_here-digits label 0 (d ∷ ds) t h, follows (value_of 0 (d ∷ ds)))

-- text without digits is passed over
search_count-skip :
    (label before t : List ℕ)
    → All (λ c. is_decimal c ≡ false) before
    → search_count label (before ++ t) ≡ search_count label t
unfolding search_count
search_count-skip label [] t h = refl
search_count-skip label (c ∷ before) t h = ground (arith, h.0, search_count-skip label before t h.1)

-- "12 passed, 3 failed, 1 error" and what comes after it
abbrev pub summary_line : List ℕ → List ℕ → List ℕ → List ℕ → List ℕ
summary_line p f e rest =
    p ++ (codes " passed, " ++ (f ++ (codes " failed, " ++ (e ++ (codes " error" ++ rest)))))

module _ (before : List ℕ) (quiet : All (λ c. is_decimal c ≡ false) before) (p f e : ℕ)
    (ps fs es rest : List ℕ) (passed_digits : AllDecimal (p ∷ ps))
    (failed_digits : AllDecimal (f ∷ fs)) (error_digits : AllDecimal (e ∷ es)) where
  abbrev after_failed : List ℕ
  after_failed = codes " failed, " ++ ((e ∷ es) ++ (codes " error" ++ rest))

  abbrev after_passed : List ℕ
  after_passed = codes " passed, " ++ ((f ∷ fs) ++ after_failed)

  abbrev printed : List ℕ
  printed = before ++ summary_line (p ∷ ps) (f ∷ fs) (e ∷ es) rest

  passed_read : search_count (codes "passed") printed ≡ some (value_of 0 (p ∷ ps))
  unfolding count_here
  passed_read =
      search_count-skip (codes "passed") before ((p ∷ ps) ++ after_passed) quiet
      ∙ search_count-read (codes "passed") p ps after_passed passed_digits (λ n. refl)

  failed_read : search_count (codes "failed") printed ≡ some (value_of 0 (f ∷ fs))
  unfolding count_here search_count
  failed_read =
      search_count-skip (codes "failed") before ((p ∷ ps) ++ after_passed) quiet
      ∙ (search_count-pass (codes "failed") (p ∷ ps) after_passed passed_digits (λ n. refl)
          ∙ search_count-read (codes "failed") f fs after_failed failed_digits (λ n. refl))

  error_read : search_count (codes "error") printed ≡ some (value_of 0 (e ∷ es))
  unfolding count_here search_count
  error_read =
      search_count-skip (codes "error") before ((p ∷ ps) ++ after_passed) quiet
      ∙ (search_count-pass (codes "error") (p ∷ ps) after_passed passed_digits (λ n. refl)
          ∙ (search_count-pass (codes "error") (f ∷ fs) after_failed failed_digits (λ n. refl)
              ∙ search_count-read (codes "error") e es (codes " error" ++ rest) error_digits
                  (λ n. refl)))

pub run_tests_reads :
    (code p f e : ℕ) (before ps fs es rest : List ℕ) (output errors : String)
    → All (λ c. is_decimal c ≡ false) before
    → AllDecimal (p ∷ ps)
    → AllDecimal (f ∷ fs)
    → AllDecimal (e ∷ es)
    → codes (concat output errors) ≡ before ++ summary_line (p ∷ ps) (f ∷ fs) (e ∷ es) rest
    → let report = run_tests (record { returncode = code; stdout = output; stderr = errors }) in
      (report.passed ≡ value_of 0 (p ∷ ps))
      × (report.failed ≡ value_of 0 (f ∷ fs))
      × (report.errors ≡ value_of 0 (e ∷ es))
      × ((report.success ≡ true) ↔ ((value_of 0 (f ∷ fs) ≡ 0) × (value_of 0 (e ∷ es) ≡ 0)))
unfolding run_tests parse_pytest_summary
run_tests_reads code p f e before ps fs es rest output errors quiet passed_digits failed_digits
      error_digits same =
    let one =
      passed_read before quiet p f e ps fs es rest passed_digits failed_digits error_digits in
    let two =
      failed_read before quiet p f e ps fs es rest passed_digits failed_digits error_digits in
    let three =
      error_read before quiet p f e ps fs es rest passed_digits failed_digits error_digits in
    let first_count = ap (search_count (codes "passed")) same ∙ one in
    let second_count = ap (search_count (codes "failed")) same ∙ two in
    let third_count = ap (search_count (codes "error")) same ∙ three in
    (
      ap or_zero first_count,
      ap or_zero second_count,
      ap or_zero third_count,
      ground (
        arith,
        ap or_zero second_count,
        ap or_zero third_count,
        nat_beq_iff (value_of 0 (f ∷ fs)) 0,
        nat_beq_iff (value_of 0 (e ∷ es)) 0,
      ),
    )
