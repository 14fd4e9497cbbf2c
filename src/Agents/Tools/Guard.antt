-- ===== src/Agents/Tools/Guard.antt =====
-- What the tools can write.
use url_copilot.Prelude.{
  Bool-cases, In, In→contains, IsPrefix, IsPrefix→starts_with, String, arith, codes, contains,
  contains→In, false, if◌then◌else◌, inl, inr, insert, lookup, lookup-insert, nat_eq, ok, some,
  starts_with, starts_with→IsPrefix, string_eq, ◌==◌, ◌↔◌, ◌≡◌, ◌⊎◌,
}
use url_copilot.Agents.Tools.{Files, Layout, write_file}

-- Where the guard of `write_file` lets a write through.
abbrev pub MayWrite : Layout → String → Type 0
MayWrite l resolved =
    (IsPrefix (codes l.service_dir) (codes resolved) ⊎ In resolved l.allowed_root_files)
    × (¬ In resolved l.readonly_paths)

module _ (l : Layout) (resolve_path : String → String) (path content : String) (files : Files) where
  absent :
      ¬ In (resolve_path path) l.readonly_paths
      → contains (resolve_path path) l.readonly_paths ≡ false
  absent free = elim (Bool-cases (contains (resolve_path path) l.readonly_paths)) [
    | inl kept ↦ absurd (free (contains→In (resolve_path path) l.readonly_paths kept))
    | inr open_path ↦ open_path
  ]

  present :
      contains (resolve_path path) l.readonly_paths ≡ false
      → ¬ In (resolve_path path) l.readonly_paths
  present free i = ground (arith, In→contains (resolve_path path) l.readonly_paths i)

  may_write :
      MayWrite l (resolve_path path)
      → write_file l resolve_path path content files ≡ ok (insert (resolve_path path) content files)
  unfolding write_file
  may_write (inl inside, free) =
      let within = IsPrefix→starts_with (codes l.service_dir) (codes (resolve_path path)) inside in
      let open_path = absent free in ground arith
  may_write (inr listed, free) =
      let within = In→contains (resolve_path path) l.allowed_root_files listed in
      let open_path = absent free in ground arith

  pub write_file_guard :
      ((files' : Files) × (write_file l resolve_path path content files ≡ ok files')
        × ((q : String)
            → lookup q files' ≡ (if q == resolve_path path then some content else lookup q files)))
      ↔ MayWrite l (resolve_path path)
  unfolding write_file
  write_file_guard = (
    λ (files', written, _). elim (Bool-cases (contains (resolve_path path) l.readonly_paths)) [
      | inl kept ↦ absurd (ground arith)
      | inr free ↦
          elim (Bool-cases (starts_with (codes l.service_dir) (codes (resolve_path path)))) [
            | inl inside ↦ (inl (starts_with→IsPrefix _ _ inside), present free)
            | inr outside ↦ (inr (contains→In _ l.allowed_root_files (ground arith)), present free)
          ]
    ],
    λ may. (
      insert (resolve_path path) content files,
      may_write may,
      λ q. lookup-insert (resolve_path path) q content files,
    ),
  )
