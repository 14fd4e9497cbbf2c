-- ===== src/Tests/Visits.antt =====
-- Runs of the redirect, of the analytics and of the service's rate limiter.
use url_copilot.Prelude.{
  Dict, In, Option, String, [], concat, false, if◌then◌else◌, insert, lookup, lookup-insert_self,
  nat_eq, none, refl, some, string_eq, true, ℕ, ◌+◌, ◌==◌, ◌↔◌, ◌∷◌, ◌≡◌, ◌≤◌,
}
use url_copilot.Service.Db.{Db, ShortUrl}
use url_copilot.Service.Urls.{get_short_url_by_code, is_expired}
use url_copilot.Service.Analytics.{
  bump, count_from, events_of, get_analytics, most_common, normalise_referrer,
}
use url_copilot.Service.Analytics.Totals.{get_analytics_totals, total}
use url_copilot.Service.Redirect.{
  Agent, Visit, click_lost, count_lost, found, gone, no_fault, redirect,
}
use url_copilot.Service.Redirect.Answers.{clicks_on, redirect_answer, redirect_counts}
use url_copilot.Service.Limiter.{Redis}
use url_copilot.Service.Limiter.Quota.{RedisLaws, count_of}
use url_copilot.Tests.Links.{db, db-AllDistinct, first_link, py}

abbrev sha256 : String → String
sha256 s = concat "#" s

abbrev parse : String → Option Agent
parse s =
    if s == "bad"
    then none
    else some (record { is_bot = false; is_mobile = s == "phone"; is_tablet = false })

abbrev visit : Visit
visit = record { host = some "10.0.0.1"; user_agent = some "phone"; referer = none }

sends_on : (redirect sha256 parse click_lost 50 visit db "abc").0 ≡ found "https://a.io/x"
unfolding redirect get_short_url_by_code is_expired
sends_on = refl

expired_link : (redirect sha256 parse no_fault 101 visit db "abc").0 ≡ gone
unfolding redirect get_short_url_by_code is_expired
expired_link = refl

redirect_answer_example :
    ((redirect sha256 parse count_lost 50 visit db "abc").0 ≡ found "https://a.io/x") ↔ (
      (u : ShortUrl) × In u db.short_urls
      × (u.short_code ≡ "abc")
      × (u.is_active ≡ true)
      × (u.original_url ≡ "https://a.io/x")
      × ((t : ℕ) → u.expires_at ≡ some t → 50 ≤ t))
redirect_answer_example =
    redirect_answer sha256 parse 50 visit db "abc" count_lost "https://a.io/x" db-AllDistinct

finds_link : get_short_url_by_code db "abc" ≡ some first_link
unfolding get_short_url_by_code
finds_link = refl

link_fresh : is_expired first_link 50 ≡ false
unfolding is_expired
link_fresh = refl

redirect_counts_example :
    clicks_on 1 (redirect sha256 parse no_fault 50 visit db "abc").1.click_events ≡ 1
redirect_counts_example =
    (redirect_counts sha256 parse 50 visit db "abc" first_link finds_link link_fresh).0

abbrev visited : Db
visited = record db {
  click_events =
      record {
        short_url_id = 1;
        clicked_at = 50;
        ip_hash = some "#10.0.0.1";
        user_agent = none;
        device_type = some "mobile";
        referrer = some "https://a.io/x";
        country_code = none;
      }
      ∷ [];
}

one_referrer :
    (get_analytics (λ t. "2026-08-03") py visited first_link none (some 60)).top_referrers
    ≡ ("a.io", 1) ∷ []
unfolding get_analytics events_of count_from bump most_common normalise_referrer
one_referrer = refl

get_analytics_totals_example :
    total (get_analytics (λ t. "2026-08-03") py visited first_link none (some 60)).clicks_by_date
    ≡ (get_analytics (λ t. "2026-08-03") py visited first_link none (some 60)).total_clicks
get_analytics_totals_example =
    (get_analytics_totals (λ t. "2026-08-03") py visited first_link none (some 60)).0

-- a Redis that forgets nothing
abbrev redis : Redis (Dict String ℕ)
redis = record {
  incr = λ k s. (count_of (lookup k s) + 1, insert k (count_of (lookup k s) + 1) s);
  expire = λ k ttl s. s;
  get = λ k s. lookup k s;
}

redis_laws : RedisLaws redis
redis_laws = record {
  incr_result = λ k s. refl;
  get-incr = λ k s. lookup-insert_self k (count_of (lookup k s) + 1) s;
  get-expire = λ k j ttl s. refl;
}
