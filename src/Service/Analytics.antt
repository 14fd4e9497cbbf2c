-- ===== src/Service/Analytics.antt =====
-- service/services/analytics_service.py. `strftime("%Y-%m-%d")` and `urlparse` are parameters.
pub mod Totals
use Prim.Native.String.{compare}
use Prim.Native.Nat.{Ordering}
use url_copilot.Prelude.{
  Bool, Dict, List, Option, String, [], contains, if◌then◌else◌, leb, length, ltb, map, nat_eq,
  none, select, some, string_eq, take, true, ℕ, ◌&&◌, ◌+◌, ◌==◌, ◌∷◌,
}
use url_copilot.Service.Db.{ClickEvent, Db, ShortUrl}
use url_copilot.Service.Urls.{Parsers}

-- `collections.Counter`, in the order in which the keys were first met
abbrev pub Counter : Type 0
Counter = Dict String ℕ

-- `counter[key] += 1`
unfoldable pub bump : String → Counter → Counter
bump key [] = (key, 1) ∷ []
bump key ((k, n) ∷ c) = if key == k then (k, n + 1) ∷ c else (k, n) ∷ bump key c

unfoldable pub count_from : Counter → List String → Counter
count_from c [] = c
count_from c (key ∷ keys) = count_from (bump key c) keys

-- `most_common()`: the larger counts first, equal counts in the order of the counter
abbrev pub insert_common : String × ℕ → Counter → Counter
insert_common p [] = p ∷ []
insert_common p (q ∷ c) = if ltb p.1 q.1 then q ∷ insert_common p c else p ∷ q ∷ c

unfoldable pub most_common : Counter → Counter
most_common [] = []
most_common (p ∷ c) = insert_common p (most_common c)

-- `sorted(counter.items())`, whose keys are distinct
abbrev pub insert_by_key : String × ℕ → Counter → Counter
insert_by_key p [] = p ∷ []
insert_by_key p (q ∷ c) = elim (compare p.0 q.0) [
  | Ordering.lt ↦ p ∷ q ∷ c
  | Ordering.eq ↦ p ∷ q ∷ c
  | Ordering.gt ↦ q ∷ insert_by_key p c
]

unfoldable pub sort_by_key : Counter → Counter
sort_by_key [] = []
sort_by_key (p ∷ c) = insert_by_key p (sort_by_key c)

-- `x or "unknown"`
abbrev pub or_else : String → Option String → String
or_else other none = other
or_else other (some s) = if s == "" then other else s

-- `_normalise_referrer`
unfoldable pub normalise_referrer : Parsers → Option String → String
normalise_referrer py none = "direct"
normalise_referrer py (some referrer) =
    if referrer == "" then "direct" else elim (py.urlparse referrer) [
      | none ↦ "direct"
      | some parsed ↦ if parsed.1 == "" then "direct" else parsed.1
    ]

-- the rows of `query`: `from_date` and `to_date` are both inclusive
abbrev pub from_then : Option ℕ → ℕ → Bool
from_then none t = true
from_then (some from) t = leb from t

abbrev pub to_then : Option ℕ → ℕ → Bool
to_then none t = true
to_then (some to) t = leb t to

unfoldable pub events_of : Db → ShortUrl → Option ℕ → Option ℕ → List ClickEvent
events_of db u from_date to_date =
    select
      (λ e.
        e.short_url_id == u.id
        && (from_then from_date e.clicked_at && to_then to_date e.clicked_at))
      db.click_events

-- `{e.ip_hash for e in events if e.ip_hash}`
abbrev pub add_once : String → List String → List String
add_once s xs = if contains s xs then xs else s ∷ xs

unfoldable pub ip_hashes : List ClickEvent → List String
ip_hashes [] = []
ip_hashes (e ∷ es) =
    let rest = ip_hashes es in
    elim e.ip_hash [ none ↦ rest | some hash ↦ if hash == "" then rest else add_once hash rest ]

pub record Analytics : Type 0 where
  pub short_url_id : ℕ
  pub short_code : String
  pub total_clicks : ℕ
  pub unique_clicks : ℕ
  pub clicks_by_date : Counter
  pub clicks_by_country : Counter
  pub clicks_by_device : Counter
  pub top_referrers : Counter

unfoldable pub get_analytics :
    (ℕ → String) → Parsers → Db → ShortUrl → Option ℕ → Option ℕ → Analytics
get_analytics date_of py db u from_date to_date =
    let events = events_of db u from_date to_date in
    record {
      short_url_id = u.id;
      short_code = u.short_code;
      total_clicks = length events;
      unique_clicks = length (ip_hashes events);
      clicks_by_date = sort_by_key (count_from [] (map (λ e. date_of e.clicked_at) events));
      clicks_by_country =
          most_common (count_from [] (map (λ e. or_else "unknown" e.country_code) events));
      clicks_by_device =
          most_common (count_from [] (map (λ e. or_else "unknown" e.device_type) events));
      top_referrers =
          take 10
            (most_common (count_from [] (map (λ e. normalise_referrer py e.referrer) events)));
    }

-- `record_click`: an event at the instant of its insertion
unfoldable pub record_click :
    Db
    → ℕ
    → ShortUrl
    → Option String
    → Option String
    → Option String
    → Option String
    → Option String
    → Db
record_click db now u ip_hash user_agent device_type referrer country_code = record db {
  click_events =
      record {
        short_url_id = u.id;
        clicked_at = now;
        ip_hash = ip_hash;
        user_agent = user_agent;
        device_type = device_type;
        referrer = referrer;
        country_code = country_code;
      }
      ∷ db.click_events;
}
