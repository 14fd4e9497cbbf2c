-- ===== src/Gateway/RateLimiter/Window.antt =====
-- The limit holds over every span of the window's length, and not only at the calls.
use url_copilot.Prelude.{
  Bool, Bool-cases, List, String, [], ap, arith, eq_iff, if◌then◌else◌, inl, inr, insert, leb,
  length, length-append, length-select-le, lookup-insert, nat_eq, refl, select, string_eq, true, ℕ,
  ◌&&◌, ◌++◌, ◌+◌, ◌<◌, ◌==◌, ◌↔◌, ◌∷◌, ◌≡◌, ◌≤◌,
}
use url_copilot.Gateway.RateLimiter.{Windows, check, is_recent, max_calls, window_of}

-- `calls` in the order in which they are made, each with its instant and its user; the result lists
-- those that were let through, the latest first.
module _ (ticks : ℕ) where
  unfoldable pub run : List (ℕ × String) → Windows × List (ℕ × String) → Windows × List (ℕ × String)
  run [] s = s
  run ((now, login) ∷ calls) (windows, passed) =
      let (let_through, windows') = check ticks now login windows in
      run calls (windows', if let_through then (now, login) ∷ passed else passed)

  -- the calls of a user that count at the instant `t`
  abbrev pub in_span : ℕ → String → ℕ × String → Bool
  in_span t login (ts, who) = who == login && is_recent ticks t ts

-- The clock never goes back.
abbrev pub IsMonotone : ℕ → List (ℕ × String) → Type 0
IsMonotone last [] = Unit
IsMonotone last ((now, login) ∷ calls) = (last ≤ now) × IsMonotone now calls

-- the instant of the last call
abbrev pub last_instant : ℕ → List (ℕ × String) → ℕ
last_instant last [] = last
last_instant last ((now, login) ∷ calls) = last_instant now calls

module _ (ticks : ℕ) where
  -- What the windows know at the instant `last`: of every later span, exactly the calls let through.
  abbrev Counts : ℕ → Windows × List (ℕ × String) → Type 0
  Counts last (windows, passed) =
      (login : String)
      → (length (window_of login windows) ≤ max_calls)
        × ((t : ℕ)
            → last ≤ t
            → length (select (in_span ticks t login) passed)
              ≡ length (select (is_recent ticks t) (window_of login windows)))

  select-select :
      (now t : ℕ) (w : List ℕ)
      → now ≤ t
      → select (is_recent ticks t) (select (is_recent ticks now) w) ≡ select (is_recent ticks t) w
  select-select now t [] h = refl
  select-select now t (x ∷ w) h = ground (arith, select-select now t w h)

  select-append :
      (t now : ℕ) (w : List ℕ)
      → length (select (is_recent ticks t) (w ++ now ∷ []))
        ≡ length (select (is_recent ticks t) w) + (if is_recent ticks t now then 1 else 0)
  select-append t now [] = ground arith
  select-append t now (x ∷ w) = ground (arith, select-append t now w)

  window_of-insert :
      (who login : String) (w : List ℕ) (windows : Windows)
      → window_of who (insert login w windows) ≡ (if who == login then w else window_of who windows)
  window_of-insert who login w windows = ground (arith, lookup-insert login who w windows)

  module _ (last now : ℕ) (login : String) (windows : Windows) (passed : List (ℕ × String)) where
    abbrev recent : List ℕ
    recent = select (is_recent ticks now) (window_of login windows)

    abbrev let_in : Windows × List (ℕ × String)
    let_in = (insert login (recent ++ now ∷ []) windows, (now, login) ∷ passed)

    let_in-Counts :
        last ≤ now → length recent < max_calls → Counts last (windows, passed) → Counts now let_in
    let_in-Counts later room c who = elim (Bool-cases (who == login)) [
      | inl same ↦
          let e = (eq_iff who login).0 same in
          (
            rw (window_of-insert, same) (omega (arith, length-append recent (now ∷ []))),
            λ t h.
                rw (window_of-insert, same)
                  (ground (
                    arith,
                    select-append t now recent,
                    select-select now t (window_of login windows) h,
                    (c login).1 t,
                    ap (λ (l : String). length (select (in_span ticks t l) passed)) e,
                    eq_iff login who,
                  )),
          )
      | inr other ↦ (
        rw (window_of-insert, other) (c who).0,
        λ t h.
            rw (window_of-insert, other)
              (ground (arith, (c who).1 t, eq_iff login who, eq_iff who login)),
      )
    ]

    check-Counts :
        last ≤ now
        → Counts last (windows, passed)
        → let (let_through, windows') = check ticks now login windows in
          Counts now (windows', if let_through then (now, login) ∷ passed else passed)
    unfolding check
    check-Counts later c = elim (Bool-cases (leb max_calls (length recent))) [
      | inl full ↦ rw full (λ who. ((c who).0, λ t h. (c who).1 t (omega arith)))
      | inr room ↦ rw room (let_in-Counts later (ground arith) c)
    ]

  run-Counts :
      (last : ℕ) (calls : List (ℕ × String)) (windows : Windows) (passed : List (ℕ × String))
      → IsMonotone last calls
      → Counts last (windows, passed)
      → Counts (last_instant last calls) (run ticks calls (windows, passed))
  unfolding run
  run-Counts last [] windows passed m c = c
  run-Counts last ((now, login) ∷ calls) windows passed m c =
      let (let_through, windows') = check ticks now login windows in
      run-Counts now calls windows' (if let_through then (now, login) ∷ passed else passed) m.1
        (check-Counts last now login windows passed m.0 c)

  check_iff :
      (t : ℕ) (login : String) (windows : Windows)
      → ((check ticks t login windows).0 ≡ true)
        ↔ (length (select (is_recent ticks t) (window_of login windows)) < max_calls)
  unfolding check
  check_iff t login windows = ground arith

  -- Whatever the calls made, by whatever users, with a clock that never goes back: at each instant
  -- `t` from the last call on at most 200 of a user's calls were let through in the 60 seconds up to
  -- `t`; and the user's next call at `t` is let through exactly if there were fewer than 200.
  pub run_exact :
      (calls : List (ℕ × String)) (login : String) (t : ℕ)
      → IsMonotone 0 calls
      → last_instant 0 calls ≤ t
      → let (windows, passed) = run ticks calls ([], []) in
        (length (select (in_span ticks t login) passed) ≤ max_calls)
        × (((check ticks t login windows).0 ≡ true)
            ↔ (length (select (in_span ticks t login) passed) < max_calls))
  run_exact calls login t m later =
      let (windows, passed) = run ticks calls ([], []) in
      let (bound, same) = run-Counts 0 calls [] [] m (λ who. (omega arith, λ t h. refl)) login in
      let fewer = length-select-le (is_recent ticks t) (window_of login windows) in
      (omega (arith, same t later), rw (same t later) (check_iff t login windows))
