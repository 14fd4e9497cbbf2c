-- ===== src/Service/Urls/Saves.antt =====
-- The operations that change one link in place: update, soft delete and the click counter.
use mathlib.Core.List.{append-nil}
use mathlib.Core.Path.{subst}
use url_copilot.Prelude.{
  All, Bool, Bool-cases, In, List, String, [], any_of, ap, arith, eq_iff, false, first,
  if◌then◌else◌, inl, inr, nat_beq_iff, nat_eq, none, refl, some, string_eq, sym, update_where, ℕ,
  ◌&&◌, ◌++◌, ◌==◌, ◌∷◌, ◌≡◌,
}
use url_copilot.Service.Db.{Db, ShortUrl, save_short_url}
use url_copilot.Service.Urls.Writes.{AllDistinct, Clashes}
use url_copilot.Service.Urls.{get_short_url_by_code, taken}

abbrev NoClash : ShortUrl → List ShortUrl → Type 0
NoClash u = All (λ v. ¬ Clashes u v)

-- A change that leaves alone what the table's constraints are about.
abbrev pub KeepsKeys : (ShortUrl → ShortUrl) → Type 0
KeepsKeys f = (v : ShortUrl) → ((f v).id ≡ v.id) × ((f v).short_code ≡ v.short_code)

abbrev has_id : ℕ → ShortUrl → Bool
has_id id v = v.id == id

abbrev pub resolves : String → ShortUrl → Bool
resolves c v = v.short_code == c && v.is_active

save_absent :
    (u : ShortUrl) (f : ShortUrl → ShortUrl) (xs : List ShortUrl)
    → NoClash u xs
    → update_where (has_id u.id) f xs ≡ xs
save_absent u f [] n = refl
save_absent u f (x ∷ xs) n = elim (Bool-cases (has_id u.id x)) [
  | inl same ↦ absurd (n.0 (inl ((nat_beq_iff x.id u.id).0 same)))
  | inr other ↦ ground (arith, save_absent u f xs n.1)
]

NoClash-In : (x u : ShortUrl) (xs : List ShortUrl) → NoClash x xs → In u xs → ¬ Clashes x u
NoClash-In x u [] n i = absurd i
NoClash-In x u (v ∷ xs) n (inl e) = rw e n.0
NoClash-In x u (v ∷ xs) n (inr i) = NoClash-In x u xs n.1 i

Clashes-symm : (u v : ShortUrl) → Clashes u v → Clashes v u
Clashes-symm u v (inl e) = inl (sym e)
Clashes-symm u v (inr e) = inr (sym e)

-- A save touches the one row, in place.
save_splits :
    (u : ShortUrl) (f : ShortUrl → ShortUrl) (xs : List ShortUrl)
    → AllDistinct xs
    → In u xs
    → (before after : List ShortUrl) × (xs ≡ before ++ u ∷ after)
      × (update_where (has_id u.id) f xs ≡ before ++ f u ∷ after)
      × NoClash u before
      × NoClash u after
save_splits u f [] d i = absurd i
save_splits u f (x ∷ xs) d (inl e) =
    let apart : NoClash u xs = subst (λ v. NoClash v xs) (sym e) d.0 in
    ([], xs, rw e refl, ground (arith, save_absent u f xs apart, nat_beq_iff x.id u.id), tt, apart)
save_splits u f (x ∷ xs) d (inr i) =
    let (before, after, e, saved, nb, na) = save_splits u f xs d.1 i in
    let apart = NoClash-In x u xs d.0 i in
    (
      x ∷ before,
      after,
      ap (◌∷◌ x) e,
      elim (Bool-cases (has_id u.id x)) [
        | inl same ↦ absurd (apart (inl (sym ((nat_beq_iff x.id u.id).0 same))))
        | inr other ↦ ground arith
      ],
      (λ c. apart (Clashes-symm u x c), nb),
      na,
    )

none_resolves :
    (u : ShortUrl) (xs ys : List ShortUrl)
    → NoClash u xs
    → first (resolves u.short_code) (xs ++ ys) ≡ first (resolves u.short_code) ys
none_resolves u [] ys n = refl
none_resolves u (x ∷ xs) ys n = elim (Bool-cases (x.short_code == u.short_code)) [
  | inl same ↦ absurd (n.0 (inr ((eq_iff x.short_code u.short_code).0 same)))
  | inr other ↦ ground (arith, none_resolves u xs ys n.1)
]

none_after :
    (u : ShortUrl) (xs : List ShortUrl) → NoClash u xs → first (resolves u.short_code) xs ≡ none
none_after u xs n = rw (← append-nil xs) (none_resolves u xs [] n)

passes_over :
    (c : String) (u v : ShortUrl) (xs ys : List ShortUrl)
    → resolves c u ≡ false
    → resolves c v ≡ false
    → first (resolves c) (xs ++ u ∷ ys) ≡ first (resolves c) (xs ++ v ∷ ys)
passes_over c u v [] ys hu hv = ground arith
passes_over c u v (x ∷ xs) ys hu hv = ground (arith, passes_over c u v xs ys hu hv)

any_of-save :
    (c : String) (id : ℕ) (f : ShortUrl → ShortUrl) (xs : List ShortUrl)
    → KeepsKeys f
    → any_of (λ v. v.short_code == c) (update_where (has_id id) f xs)
      ≡ any_of (λ v. v.short_code == c) xs
any_of-save c id f [] k = refl
any_of-save c id f (x ∷ xs) k = ground (arith, any_of-save c id f xs k, k x)

NoClash-save :
    (u w : ShortUrl) (id : ℕ) (f : ShortUrl → ShortUrl) (xs : List ShortUrl)
    → w.id ≡ u.id
    → w.short_code ≡ u.short_code
    → KeepsKeys f
    → NoClash u xs
    → NoClash w (update_where (has_id id) f xs)
NoClash-save u w id f [] ei ec k n = tt
NoClash-save u w id f (x ∷ xs) ei ec k n =
    (λ c. n.0 (ground (arith, k x)), NoClash-save u w id f xs ei ec k n.1)

save-AllDistinct :
    (id : ℕ) (f : ShortUrl → ShortUrl) (xs : List ShortUrl)
    → KeepsKeys f
    → AllDistinct xs
    → AllDistinct (update_where (has_id id) f xs)
save-AllDistinct id f [] k d = tt
save-AllDistinct id f (x ∷ xs) k d = (
  NoClash-save x (if has_id id x then f x else x) id f xs (ground (arith, k x))
      (ground (arith, k x)) k d.0,
  save-AllDistinct id f xs k d.1,
)

module _ (u : ShortUrl) (f : ShortUrl → ShortUrl) (k : KeepsKeys f) where
  -- The lookup in the two halves that `save_splits` gives.
  lookup_halves :
      (before after : List ShortUrl) (c : String)
      → NoClash u before
      → NoClash u after
      → first (resolves c) (before ++ f u ∷ after) ≡ (
          if c == u.short_code
          then (if (f u).is_active then some (f u) else none)
          else first (resolves c) (before ++ u ∷ after))
  lookup_halves before after c nb na = elim (Bool-cases (c == u.short_code)) [
    | inl same ↦
        let e : c ≡ u.short_code = (eq_iff c u.short_code).0 same in
        subst
          (λ c. first (resolves c) (before ++ f u ∷ after) ≡ (
            if c == u.short_code
            then (if (f u).is_active then some (f u) else none)
            else first (resolves c) (before ++ u ∷ after)))
          (sym e)
          (rw (none_resolves u before (f u ∷ after) nb)
            (ground (arith, none_after u after na, k u, eq_iff u.short_code u.short_code)))
    | inr other ↦ rw other (
        sym (
          passes_over c u (f u) before after
            (ground (arith, eq_iff c u.short_code, eq_iff u.short_code c))
            (ground (arith, k u, eq_iff c u.short_code, eq_iff (f u).short_code c))))
  ]

  module _ (db : Db) where
    -- A lookup by code after a save.
    pub get_short_url_by_code-save :
        (c : String)
        → AllDistinct db.short_urls
        → In u db.short_urls
        → get_short_url_by_code (save_short_url u.id f db) c ≡ (
            if c == u.short_code
            then (if (f u).is_active then some (f u) else none)
            else get_short_url_by_code db c)
    unfolding get_short_url_by_code save_short_url
    get_short_url_by_code-save c d i =
        let (before, after, e, saved, nb, na) = save_splits u f db.short_urls d i in
        rw (saved, e) (lookup_halves before after c nb na)

    pub save_keeps_table :
        AllDistinct db.short_urls
        → AllDistinct (save_short_url u.id f db).short_urls
          × ((c : String) → taken c (save_short_url u.id f db) ≡ taken c db)
    unfolding save_short_url
    save_keeps_table d =
        (save-AllDistinct u.id f db.short_urls k d, λ c. any_of-save c u.id f db.short_urls k)
