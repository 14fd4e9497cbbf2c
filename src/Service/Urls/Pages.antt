-- ===== src/Service/Urls/Pages.antt =====
-- The pages of `list_short_urls`.
use mathlib.Core.List.{Perm, append-nil, append_assoc}
use mathlib.Core.List.Perm
use native.Mathlib.Nat.{zero-add, suc-add, add-zero, zero-mul}
use url_copilot.Prelude.{
  All, Bool, Bool-cases, List, [], ap, arith, drop, inl, inr, length, ltb, refl, suc, sym, take,
  zero, ℕ, ◌*◌, ◌++◌, ◌+◌, ◌-◌, ◌∙◌, ◌∷◌, ◌≡◌, ◌≤◌,
}
use url_copilot.Service.Db.{Db, ShortUrl, User}
use url_copilot.Service.Urls.{insert_newest, list_short_urls, newest_first, owned}

-- The pages from the `page`-th on, `n` of them, one after the other.
unfoldable pub pages : Db → User → ℕ → Bool → ℕ → ℕ → List ShortUrl
pages db owner limit active_only page zero = []
pages db owner limit active_only page (suc n) =
    (list_short_urls db owner page limit active_only).0
    ++ pages db owner limit active_only (page + 1) n

take-drop {ℓ} : {A : Type ℓ} (n : ℕ) (xs : List A) → take n xs ++ drop n xs ≡ xs
take-drop zero xs = refl
take-drop (suc n) [] = refl
take-drop (suc n) (x ∷ xs) = ap (◌∷◌ x) (take-drop n xs)

drop-nil {ℓ} : {A : Type ℓ} (n : ℕ) → drop {A = A} n [] ≡ []
drop-nil zero = refl
drop-nil (suc n) = refl

drop-drop {ℓ} : {A : Type ℓ} (m n : ℕ) (xs : List A) → drop n (drop m xs) ≡ drop (m + n) xs
drop-drop zero n xs = rw zero-add refl
drop-drop (suc m) n [] = drop-nil n ∙ sym (drop-nil (suc m + n))
drop-drop (suc m) n (x ∷ xs) = rw suc-add (drop-drop m n xs)

drop_all {ℓ} : {A : Type ℓ} (n : ℕ) (xs : List A) → length xs ≤ n → drop n xs ≡ []
drop_all zero [] h = refl
drop_all zero (x ∷ xs) h = absurd (omega arith)
drop_all (suc n) [] h = refl
drop_all (suc n) (x ∷ xs) h = drop_all n xs (omega arith)

insert_newest-length :
    (u : ShortUrl) (us : List ShortUrl) → length (insert_newest u us) ≡ suc (length us)
insert_newest-length u [] = refl
insert_newest-length u (v ∷ vs) = ground (arith, insert_newest-length u vs)

newest_first-length : (us : List ShortUrl) → length (newest_first us) ≡ length us
newest_first-length [] = refl
newest_first-length (u ∷ us) =
    insert_newest-length u (newest_first us) ∙ ap suc (newest_first-length us)

insert_newest-perm : (u : ShortUrl) (us : List ShortUrl) → Perm (insert_newest u us) (u ∷ us)
insert_newest-perm u [] = Perm.refl (u ∷ [])
insert_newest-perm u (v ∷ vs) = elim (Bool-cases (ltb u.created_at v.created_at)) [
  | inl older ↦ rw older (Perm.trans (Perm.cons v (insert_newest-perm u vs)) (Perm.swap u v vs))
  | inr newer ↦ rw newer (Perm.refl (u ∷ v ∷ vs))
]

newest_first-perm : (us : List ShortUrl) → Perm (newest_first us) us
newest_first-perm [] = Perm.refl []
newest_first-perm (u ∷ us) =
    Perm.trans (insert_newest-perm u (newest_first us)) (Perm.cons u (newest_first-perm us))

-- No row is newer than one before it.
abbrev pub IsNewestFirst : List ShortUrl → Type 0
IsNewestFirst [] = Unit
IsNewestFirst (u ∷ us) = All (λ v. v.created_at ≤ u.created_at) us × IsNewestFirst us

insert_newest-All :
    (t : ℕ) (u : ShortUrl) (us : List ShortUrl)
    → u.created_at ≤ t
    → All (λ v. v.created_at ≤ t) us
    → All (λ v. v.created_at ≤ t) (insert_newest u us)
insert_newest-All t u [] h a = (h, tt)
insert_newest-All t u (v ∷ vs) h a = ground (arith, insert_newest-All t u vs h a.1)

All-le :
    (s t : ℕ) (us : List ShortUrl)
    → s ≤ t
    → All (λ v. v.created_at ≤ s) us
    → All (λ v. v.created_at ≤ t) us
All-le s t [] h a = tt
All-le s t (v ∷ vs) h a = (omega arith, All-le s t vs h a.1)

insert_newest-IsNewestFirst :
    (u : ShortUrl) (us : List ShortUrl) → IsNewestFirst us → IsNewestFirst (insert_newest u us)
insert_newest-IsNewestFirst u [] s = (tt, tt)
insert_newest-IsNewestFirst u (v ∷ vs) s = elim (Bool-cases (ltb u.created_at v.created_at)) [
  | inl older ↦
      rw older (
        insert_newest-All v.created_at u vs (ground arith) s.0,
        insert_newest-IsNewestFirst u vs s.1,
      )
  | inr newer ↦ rw newer ((ground arith, All-le v.created_at u.created_at vs (ground arith) s.0), s)
]

newest_first-IsNewestFirst : (us : List ShortUrl) → IsNewestFirst (newest_first us)
newest_first-IsNewestFirst [] = tt
newest_first-IsNewestFirst (u ∷ us) =
    insert_newest-IsNewestFirst u (newest_first us) (newest_first-IsNewestFirst us)

module _ (db : Db) (owner : User) (limit : ℕ) (active_only : Bool) where
  abbrev rows : List ShortUrl
  rows = newest_first (owned db owner active_only)

  pages-drop :
      (p n : ℕ)
      → pages db owner limit active_only (suc p) n ++ drop ((p + n) * limit) rows
        ≡ drop (p * limit) rows
  unfolding pages list_short_urls
  pages-drop p zero = rw add-zero refl
  pages-drop p (suc n) =
      let before : suc p - 1 ≡ p = omega arith in
      let after : suc p + 1 ≡ suc (suc p) = omega arith in
      let total : p + suc n ≡ suc p + n = omega arith in
      let next : suc p * limit ≡ p * limit + limit = omega arith in
      rw (before, after, total, append_assoc, pages-drop (suc p) n, next)
        (rw (← drop-drop (p * limit) limit rows) (take-drop limit (drop (p * limit) rows)))

  pub pages_cover :
      (n : ℕ)
      → (list_short_urls db owner 1 limit active_only).1 ≤ n * limit
      → Perm (pages db owner limit active_only 1 n) (owned db owner active_only)
        × IsNewestFirst (pages db owner limit active_only 1 n)
        × ((page : ℕ)
            → (list_short_urls db owner page limit active_only).1
              ≡ length (pages db owner limit active_only 1 n))
  unfolding list_short_urls
  pages_cover n enough =
      let all : pages db owner limit active_only 1 n ≡ rows =
        sym (append-nil _)
        ∙ ap (λ r. pages db owner limit active_only 1 n ++ r)
            (sym (
              drop_all ((0 + n) * limit) rows
                (rw zero-add (omega (arith, newest_first-length (owned db owner active_only))))))
        ∙ pages-drop 0 n
        ∙ rw zero-mul refl in
      rw all (
        newest_first-perm (owned db owner active_only),
        newest_first-IsNewestFirst (owned db owner active_only),
        λ page. sym (newest_first-length (owned db owner active_only)),
      )
