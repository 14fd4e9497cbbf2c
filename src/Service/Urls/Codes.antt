-- ===== src/Service/Urls/Codes.antt =====
-- How `create_short_url` chooses a code.
use url_copilot.Prelude.{
  List, Option, String, [], arith, err, false, first, none, not, ok, or_raise, refl, some, suc,
  zero, ℕ, ◌+◌, ◌∷◌, ◌≡◌, ◌≢◌,
}
use url_copilot.Service.Db.{Db, integrity_error, no_unique_code}
use url_copilot.Service.Urls.{choose_code, generate_unique_code, max_attempts, taken}

-- the `k` codes that are drawn from the n-th on
abbrev pub draws : (ℕ → String) → ℕ → ℕ → List String
draws draw n zero = []
draws draw n (suc k) = draw n ∷ draws draw (n + 1) k

-- The code is the first of the codes drawn that no row has, active or not; it raises exactly if
-- every one of them is taken.
pub generate_unique_code-first :
    (draw : ℕ → String) (n attempts : ℕ) (db : Db)
    → generate_unique_code draw n attempts db
      ≡ or_raise (first (λ c. not (taken c db)) (draws draw n attempts)) no_unique_code
unfolding generate_unique_code
generate_unique_code-first draw n zero db = refl
generate_unique_code-first draw n (suc k) db =
    ground (arith, generate_unique_code-first draw (n + 1) k db)

pub generate_unique_code-free :
    (draw : ℕ → String) (n attempts : ℕ) (db : Db) {c : String}
    → generate_unique_code draw n attempts db ≡ ok c
    → taken c db ≡ false
unfolding generate_unique_code
generate_unique_code-free draw n zero db h = cc
generate_unique_code-free draw n (suc k) db {c} h =
    ground (arith, generate_unique_code-free draw (n + 1) k db {c = c})

pub choose_code-free :
    (draw : ℕ → String) (alias : Option String) (db : Db) {c : String}
    → choose_code draw alias db ≡ ok c
    → taken c db ≡ false
unfolding choose_code
choose_code-free draw none db h = generate_unique_code-free draw 0 max_attempts db h
choose_code-free draw (some alias) db {c} h = ground arith

generate_unique_code_error :
    (draw : ℕ → String) (n attempts : ℕ) (db : Db)
    → generate_unique_code draw n attempts db ≢ err integrity_error
unfolding generate_unique_code
generate_unique_code_error draw n zero db = λ h. cc
generate_unique_code_error draw n (suc k) db =
    ground (arith, generate_unique_code_error draw (n + 1) k db)

pub choose_code_error :
    (draw : ℕ → String) (alias : Option String) (db : Db)
    → choose_code draw alias db ≢ err integrity_error
unfolding choose_code
choose_code_error draw none db = generate_unique_code_error draw 0 max_attempts db
choose_code_error draw (some alias) db = ground arith
