-- ===== src/Service/Redirect/Answers.antt =====
-- What a visitor gets, and what is left of the visit.
use url_copilot.Service.Urls.Writes.{AllDistinct, Clashes}
use url_copilot.Service.Urls.Saves.{resolves}
use url_copilot.Prelude.{
  All-In, Bool-cases, In, List, Option, Option-cases, String, [], arith, eq_iff, false, first,
  first-In, first_sound, if◌then◌else◌, inl, inr, nat_beq_iff, nat_eq, some, string_eq, suc, sym,
  true, ℕ, ◌+◌, ◌==◌, ◌↔◌, ◌∙◌, ◌∷◌, ◌≡◌, ◌≢◌, ◌≤◌,
}
use url_copilot.Service.Db.{ClickEvent, Db, ShortUrl, save_short_url}
use url_copilot.Service.Urls.{get_short_url_by_code, increment_click_count, is_expired}
use url_copilot.Service.Analytics.{record_click}
use url_copilot.Service.Redirect.{
  Agent, Fault, Visit, click_lost, count_lost, found, no_fault, record_visit, redirect,
}

-- how many events of the table belong to the link with this id
abbrev pub clicks_on : ℕ → List ClickEvent → ℕ
clicks_on id [] = 0
clicks_on id (e ∷ es) =
    let rest = clicks_on id es in if e.short_url_id == id then suc rest else rest

is_expired_iff :
    (u : ShortUrl) (now : ℕ)
    → (is_expired u now ≡ false) ↔ ((t : ℕ) → u.expires_at ≡ some t → now ≤ t)
unfolding is_expired
is_expired_iff u now = elim (Option-cases u.expires_at) [
  | inl never ↦ (λ h t e. absurd (ground arith), λ h. ground arith)
  | inr (at, e) ↦ (λ h t e'. ground arith, λ h. let le = h at e in ground arith)
]

first-resolves :
    (code : String) (u : ShortUrl) (us : List ShortUrl)
    → AllDistinct us
    → In u us
    → u.short_code ≡ code
    → u.is_active ≡ true
    → first (resolves code) us ≡ some u
first-resolves code u [] d i named active = absurd i
first-resolves code u (v ∷ us) d (inl e) named active =
    ground (arith, (eq_iff u.short_code code).1 named)
first-resolves code u (v ∷ us) d (inr i) named active =
    let apart : v.short_code ≢ code =
      λ e. All-In (λ w. ¬ Clashes v w) us u d.0 i (inr (named ∙ sym e)) in
    ground (arith, apart, eq_iff v.short_code code, first-resolves code u us d.1 i named active)

module _ (sha256 : String → String) (parse : String → Option Agent) (now : ℕ) (visit : Visit)
    (db : Db) (code : String) where
  pub redirect_answer :
      (fault : Fault) (url : String)
      → AllDistinct db.short_urls
      → ((redirect sha256 parse fault now visit db code).0 ≡ found url) ↔ (
          (u : ShortUrl) × In u db.short_urls
          × (u.short_code ≡ code)
          × (u.is_active ≡ true)
          × (u.original_url ≡ url)
          × ((t : ℕ) → u.expires_at ≡ some t → now ≤ t))
  unfolding redirect get_short_url_by_code
  redirect_answer fault url distinct = (
    λ h. elim (Option-cases (get_short_url_by_code db code)) [
      | inl missing ↦ absurd (ground arith)
      | inr (u, here) ↦ elim (Bool-cases (is_expired u now)) [
        | inl late ↦ absurd (ground arith)
        | inr fresh ↦
            let sound = first_sound (resolves code) db.short_urls here in
            (
              u,
              first-In (resolves code) db.short_urls here,
              (eq_iff u.short_code code).0 (ground arith),
              ground arith,
              ground arith,
              (is_expired_iff u now).0 fresh,
            )
      ]
    ],
    λ (u, i, named, active, target, unexpired).
        let here = first-resolves code u db.short_urls distinct i named active in
        let fresh = (is_expired_iff u now).1 unexpired in ground arith,
  )

  pub redirect_counts :
      (u : ShortUrl)
      → get_short_url_by_code db code ≡ some u
      → is_expired u now ≡ false
      → let clean = (redirect sha256 parse no_fault now visit db code).1 in
        let partly = (redirect sha256 parse count_lost now visit db code).1 in
        (clicks_on u.id clean.click_events ≡ clicks_on u.id db.click_events + 1)
        × (clean.short_urls ≡ (increment_click_count db u).short_urls)
        × (clicks_on u.id partly.click_events ≡ clicks_on u.id db.click_events + 1)
        × (partly.short_urls ≡ db.short_urls)
        × ((redirect sha256 parse click_lost now visit db code).1 ≡ db)
  unfolding redirect record_visit record_click increment_click_count save_short_url
  redirect_counts u here fresh = ground (arith, nat_beq_iff u.id u.id)
