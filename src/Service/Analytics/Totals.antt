-- ===== src/Service/Analytics/Totals.antt =====
-- The groups of a dashboard add up to its totals.
use url_copilot.Prelude.{
  List, Option, Option-cases, String, [], arith, inl, inr, length, length-take-le, map, refl, suc,
  take, zero, ℕ, ◌+◌, ◌∙◌, ◌∷◌, ◌≡◌, ◌≤◌,
}
use url_copilot.Service.Db.{ClickEvent, Db, ShortUrl}
use url_copilot.Service.Urls.{Parsers}
use url_copilot.Service.Analytics.{
  Counter, bump, count_from, events_of, get_analytics, insert_by_key, insert_common, ip_hashes,
  most_common, normalise_referrer, or_else, sort_by_key,
}

abbrev pub total : Counter → ℕ
total [] = 0
total (p ∷ c) = p.1 + total c

total-bump : (key : String) (c : Counter) → total (bump key c) ≡ total c + 1
unfolding bump
total-bump key [] = omega arith
total-bump key ((k, n) ∷ c) = ground (arith, total-bump key c)

total-count_from :
    (c : Counter) (keys : List String) → total (count_from c keys) ≡ total c + length keys
unfolding count_from
total-count_from c [] = omega arith
total-count_from c (key ∷ keys) =
    omega (arith, total-count_from (bump key c) keys, total-bump key c)

total-insert_common : (p : String × ℕ) (c : Counter) → total (insert_common p c) ≡ p.1 + total c
total-insert_common p [] = refl
total-insert_common p (q ∷ c) = ground (arith, total-insert_common p c)

total-most_common : (c : Counter) → total (most_common c) ≡ total c
unfolding most_common
total-most_common [] = refl
total-most_common (p ∷ c) =
    omega (arith, total-insert_common p (most_common c), total-most_common c)

total-insert_by_key : (p : String × ℕ) (c : Counter) → total (insert_by_key p c) ≡ p.1 + total c
total-insert_by_key p [] = refl
total-insert_by_key p (q ∷ c) = ground (arith, total-insert_by_key p c)

total-sort_by_key : (c : Counter) → total (sort_by_key c) ≡ total c
unfolding sort_by_key
total-sort_by_key [] = refl
total-sort_by_key (p ∷ c) =
    omega (arith, total-insert_by_key p (sort_by_key c), total-sort_by_key c)

total-take-le : (n : ℕ) (c : Counter) → total (take n c) ≤ total c
total-take-le zero c = omega arith
total-take-le (suc n) [] = omega arith
total-take-le (suc n) (p ∷ c) = omega (arith, total-take-le n c)

length-map : {A : Type 0} (f : A → String) (xs : List A) → length (map f xs) ≡ length xs
length-map f [] = refl
length-map f (x ∷ xs) = omega (arith, length-map f xs)

length-ip_hashes-le : (es : List ClickEvent) → length (ip_hashes es) ≤ length es
unfolding ip_hashes
length-ip_hashes-le [] = omega arith
length-ip_hashes-le (e ∷ es) = elim (Option-cases e.ip_hash) [
  | inl anonymous ↦ ground (arith, length-ip_hashes-le es)
  | inr (hash, known) ↦ ground (arith, length-ip_hashes-le es)
]

total-grouped :
    (f : ClickEvent → String) (es : List ClickEvent) → total (count_from [] (map f es)) ≡ length es
total-grouped f es = omega (arith, total-count_from [] (map f es), length-map f es)

-- The clicks by date, by country and by device each add up to the total of the dashboard; the top
-- referrers are at most ten and account for at most the total, and so do the unique clicks.
pub get_analytics_totals :
    (date_of : ℕ → String) (py : Parsers) (db : Db) (u : ShortUrl) (from_date to_date : Option ℕ)
    → let a = get_analytics date_of py db u from_date to_date in
      (total a.clicks_by_date ≡ a.total_clicks)
      × (total a.clicks_by_country ≡ a.total_clicks)
      × (total a.clicks_by_device ≡ a.total_clicks)
      × (total a.top_referrers ≤ a.total_clicks)
      × (length a.top_referrers ≤ 10)
      × (a.unique_clicks ≤ a.total_clicks)
unfolding get_analytics
get_analytics_totals date_of py db u from_date to_date =
    let es = events_of db u from_date to_date in
    let by = λ (f : ClickEvent → String). count_from [] (map f es) in
    let dates = by (λ e. date_of e.clicked_at) in
    let countries = by (λ e. or_else "unknown" e.country_code) in
    let devices = by (λ e. or_else "unknown" e.device_type) in
    let referrers = by (λ e. normalise_referrer py e.referrer) in
    (
      total-sort_by_key dates ∙ total-grouped _ es,
      total-most_common countries ∙ total-grouped _ es,
      total-most_common devices ∙ total-grouped _ es,
      omega (
        arith,
        total-take-le 10 (most_common referrers),
        total-most_common referrers,
        total-grouped (λ e. normalise_referrer py e.referrer) es,
      ),
      length-take-le 10 (most_common referrers),
      length-ip_hashes-le es,
    )
