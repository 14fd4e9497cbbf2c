-- ===== src/Agents/Cache/Reads.antt =====
-- What a cached response answers, and until when.
use url_copilot.Prelude.{
  Bool-cases, String, ap, arith, false, if◌then◌else◌, inl, inr, leb, lookup, lookup-insert_self,
  nat_eq, none, refl, some, string_eq, suc, true, zero, ℕ, ◌*◌, ◌+◌, ◌∙◌, ◌≡◌,
}
use url_copilot.Agents.Cache.{Entries, Entry, get, hit_count_of, prompt_hash, set}

module _ (sha256 : String → String) where
  -- so many reads of one prompt at one instant
  abbrev pub after_reads : ℕ → ℕ → String → String → Entries → Entries
  after_reads zero now prompt model c = c
  after_reads (suc n) now prompt model c =
      (get sha256 now prompt model (after_reads n now prompt model c)).1

  get-live :
      (now : ℕ) (prompt model : String) (c : Entries) (e : Entry)
      → lookup (prompt_hash sha256 prompt model) c ≡ some e
      → leb e.expires_at now ≡ false
      → ((get sha256 now prompt model c).0 ≡ some e.response)
        × (lookup (prompt_hash sha256 prompt model) (get sha256 now prompt model c).1
            ≡ some (record e { hit_count = e.hit_count + 1 }))
  unfolding get
  get-live now prompt model c e here live =
      let key = prompt_hash sha256 prompt model in
      let kept = lookup-insert_self key (record e { hit_count = e.hit_count + 1 }) c in
      (ground arith, ground arith)

  entry_after :
      (n now : ℕ) (prompt model : String) (c : Entries) (e : Entry)
      → lookup (prompt_hash sha256 prompt model) c ≡ some e
      → leb e.expires_at now ≡ false
      → lookup (prompt_hash sha256 prompt model) (after_reads n now prompt model c)
        ≡ some (record e { hit_count = e.hit_count + n })
  entry_after zero now prompt model c e here live =
      here ∙ ap (λ k. some (record e { hit_count = k })) (omega arith)
  entry_after (suc n) now prompt model c e here live =
      let counted = record e { hit_count = e.hit_count + n } in
      let before = entry_after n now prompt model c e here live in
      (get-live now prompt model (after_reads n now prompt model c) counted before live).1
      ∙ ap (λ k. some (record e { hit_count = k })) (omega arith)

  entry_stays :
      (n now : ℕ) (prompt model : String) (c : Entries) (e : Entry)
      → lookup (prompt_hash sha256 prompt model) c ≡ some e
      → leb e.expires_at now ≡ true
      → after_reads n now prompt model c ≡ c
  unfolding get
  entry_stays zero now prompt model c e here over = refl
  entry_stays (suc n) now prompt model c e here over =
      ground (arith, entry_stays n now prompt model c e here over)

  -- A response that was stored is what each later read within its time to live returns, however many
  -- reads came before, which is also its hit count then; from the end of that time on a read returns
  -- nothing.
  pub set-get :
      (n now later : ℕ) (prompt model response : String) (ttl : ℕ) (c : Entries)
      → let stored = set sha256 now prompt model response ttl c in
        let read = after_reads n later prompt model stored in
        ((get sha256 later prompt model read).0
          ≡ (if leb (now + ttl * 3_600) later then none else some response))
        × (hit_count_of sha256 prompt model read ≡ (if leb (now + ttl * 3_600) later then 0 else n))
  unfolding get set hit_count_of
  set-get n now later prompt model response ttl c =
      let key = prompt_hash sha256 prompt model in
      let stored = set sha256 now prompt model response ttl c in
      let e : Entry = record {
        model_used = model;
        response = response;
        hit_count = 0;
        expires_at = now + ttl * 3_600;
      } in
      let here : lookup key stored ≡ some e = lookup-insert_self key e c in
      elim (Bool-cases (leb (now + ttl * 3_600) later)) [
        | inl over ↦
            let same = entry_stays n later prompt model stored e here over in
            let found : lookup key (after_reads n later prompt model stored) ≡ some e =
              ap (lookup key) same ∙ here in
            (ground arith, ground arith)
        | inr live ↦
            let found = entry_after n later prompt model stored e here live in
            let answer =
              (get-live later prompt model (after_reads n later prompt model stored)
                (record e { hit_count = 0 + n }) found live).0 in
            (ground arith, ground arith)
      ]
