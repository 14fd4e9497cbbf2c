-- ===== src/Agents/Github/Push.antt =====
-- What `commit_and_push` leaves in the repository, for a git that does what its manual says.
use mathlib.Core.Path.{subst}
use url_copilot.Prelude.{
  Bool-cases, List, Option, Result, String, ap, arith, concat, err, false, inl, inr, nat_eq, ok,
  refl, some, string_eq, sym, true, ◌==◌, ◌∙◌, ◌≡◌, ◌⊎◌,
}
use url_copilot.Agents.Github.{
  GitError, Output, add_command, commit_and_push, commit_command, diff_command, git_failed,
  nothing_staged, push_and_reset, push_command, reset_command, run_git, sha_command,
}

-- git with the commit that HEAD names, the parent of a commit, and the branches of the remote
pub record Repository (W : Type 0) : Type 0 where
  pub git : List String → W → Output × W
  pub head : W → String
  pub parent : String → String
  pub remote : W → String → Option String
  pub add_keeps :
      (w : W) → (head (git add_command w).1 ≡ head w) × (remote (git add_command w).1 ≡ remote w)
  pub diff_keeps :
      (w : W) → (head (git diff_command w).1 ≡ head w) × (remote (git diff_command w).1 ≡ remote w)
  pub sha_keeps :
      (w : W) → (head (git sha_command w).1 ≡ head w) × (remote (git sha_command w).1 ≡ remote w)
  pub commit_remote : (m : String) (w : W) → remote (git (commit_command m) w).1 ≡ remote w
  pub commit_succeeds :
      (m : String) (w : W)
      → (git (commit_command m) w).0.succeeded ≡ true
      → parent (head (git (commit_command m) w).1) ≡ head w
  pub commit_fails :
      (m : String) (w : W)
      → (git (commit_command m) w).0.succeeded ≡ false
      → head (git (commit_command m) w).1 ≡ head w
  pub push_head : (b : String) (w : W) → head (git (push_command b) w).1 ≡ head w
  pub push_succeeds :
      (b : String) (w : W)
      → (git (push_command b) w).0.succeeded ≡ true
      → remote (git (push_command b) w).1 b ≡ some (head w)
  pub push_fails :
      (b : String) (w : W)
      → (git (push_command b) w).0.succeeded ≡ false
      → remote (git (push_command b) w).1 ≡ remote w
  pub reset_remote : (w : W) → remote (git reset_command w).1 ≡ remote w
  pub reset_succeeds :
      (w : W)
      → (git reset_command w).0.succeeded ≡ true
      → head (git reset_command w).1 ≡ parent (head w)
  pub reset_fails :
      (w : W) → (git reset_command w).0.succeeded ≡ false → head (git reset_command w).1 ≡ head w

module _ {W : Type 0} (r : Repository W) (strip : String → String) where
  -- HEAD and the remote are as before
  abbrev pub Untouched : W → W → Type 0
  Untouched w w' = (r.head w' ≡ r.head w) × (r.remote w' ≡ r.remote w)

  -- HEAD is as before, and the remote branch is at a child of it
  abbrev pub Published : String → W → W → Type 0
  Published branch w w' =
      (r.head w' ≡ r.head w)
      × (commit : String) × (r.remote w' branch ≡ some commit)
      × (r.parent commit ≡ r.head w)

  -- HEAD is at a child of what it was, which the remote does not have
  abbrev pub LeftBehind : W → W → Type 0
  LeftBehind w w' = (r.parent (r.head w') ≡ r.head w) × (r.remote w' ≡ r.remote w)

  -- HEAD and the remote branch are at a child of what HEAD was
  abbrev pub LeftPublished : String → W → W → Type 0
  LeftPublished branch w w' =
      (r.parent (r.head w') ≡ r.head w) × (r.remote w' branch ≡ some (r.head w'))

  abbrev pub PushOutcome : String → W → Result GitError String → W → Type 0
  PushOutcome branch w result w' =
      ((text : String) × (result ≡ ok text)
        × (r.head w' ≡ r.parent (r.head w))
        × (r.remote w' branch ≡ some (r.head w)))
      ⊎ (((result ≡ err (git_failed (push_command branch))) × Untouched w w')
          ⊎ (((result ≡ err (git_failed sha_command)) ⊎ (result ≡ err (git_failed reset_command)))
              × (r.head w' ≡ r.head w)
              × (r.remote w' branch ≡ some (r.head w))))

  push_and_reset-outcome :
      (branch : String) (w : W)
      → let (result, w') = push_and_reset r.git strip branch w in PushOutcome branch w result w'
  unfolding push_and_reset run_git
  push_and_reset-outcome branch w =
      let w1 = (r.git (push_command branch) w).1 in
      let w2 = (r.git sha_command w1).1 in
      let w3 = (r.git reset_command w2).1 in
      let sha = strip (r.git sha_command w1).0.stdout in
      let (sha_head, sha_remote) = r.sha_keeps w1 in
      let same = push_and_reset r.git strip branch w in
      elim (Bool-cases (r.git (push_command branch) w).0.succeeded) [
        | inr failed ↦
            let e : same ≡ (err (git_failed (push_command branch)), w1) = ground (arith, failed) in
            subst (λ p. PushOutcome branch w p.0 p.1) (sym e)
              (inr (inl (refl, (r.push_head branch w, r.push_fails branch w failed))))
        | inl pushed ↦
            let named = r.push_succeeds branch w pushed in
            elim (Bool-cases (r.git sha_command w1).0.succeeded) [
              | inr failed ↦
                  let e : same ≡ (err (git_failed sha_command), w2) =
                    ground (arith, pushed, failed) in
                  subst (λ p. PushOutcome branch w p.0 p.1) (sym e)
                    (inr (
                      inr (
                        inl refl,
                        sha_head ∙ r.push_head branch w,
                        ap (λ f. f branch) sha_remote ∙ named,
                      )))
              | inl shown ↦ elim (Bool-cases (r.git reset_command w2).0.succeeded) [
                | inr failed ↦
                    let e : same ≡ (err (git_failed reset_command), w3) =
                      ground (arith, pushed, shown, failed) in
                    subst (λ p. PushOutcome branch w p.0 p.1) (sym e)
                      (inr (
                        inr (
                          inr refl,
                          r.reset_fails w2 failed ∙ (sha_head ∙ r.push_head branch w),
                          ap (λ f. f branch) (r.reset_remote w2 ∙ sha_remote) ∙ named,
                        )))
                | inl undone ↦
                    let text =
                      concat "Committed and pushed to " (concat branch (concat ": " sha)) in
                    let e : same ≡ (ok text, w3) = ground (arith, pushed, shown, undone) in
                    subst (λ p. PushOutcome branch w p.0 p.1) (sym e)
                      (inl (
                        text,
                        refl,
                        r.reset_succeeds w2 undone ∙ ap r.parent (sha_head ∙ r.push_head branch w),
                        ap (λ f. f branch) (r.reset_remote w2 ∙ sha_remote) ∙ named,
                      ))
              ]
            ]
      ]

  abbrev pub Outcome : String → String → W → Result GitError String → W → Type 0
  Outcome branch message w result w' =
      ((text : String) × (result ≡ ok text) × Published branch w w')
      ⊎ ((((result ≡ err nothing_staged)
              ⊎ ((result ≡ err (git_failed add_command))
                  ⊎ (result ≡ err (git_failed (commit_command message)))))
            × Untouched w w')
          ⊎ (((result ≡ err (git_failed (push_command branch))) × LeftBehind w w')
              ⊎ (((result ≡ err (git_failed sha_command))
                    ⊎ (result ≡ err (git_failed reset_command)))
                  × LeftPublished branch w w')))

  -- from a commit on top of what HEAD was
  committed-outcome :
      (branch message : String) (w w1 : W)
      → r.parent (r.head w1) ≡ r.head w
      → r.remote w1 ≡ r.remote w
      → let (result, w') = push_and_reset r.git strip branch w1 in
        Outcome branch message w result w'
  committed-outcome branch message w w1 child same = elim (push_and_reset-outcome branch w1) [
    | inl (text, e, undone, published) ↦
        inl (text, e, (undone ∙ child, r.head w1, published, child))
    | inr (inl (e, (head, remote))) ↦ inr (inr (inl (e, (ap r.parent head ∙ child, remote ∙ same))))
    | inr (inr (e, head, published)) ↦
        inr (inr (inr (e, (ap r.parent head ∙ child, published ∙ ap some (sym head)))))
  ]

  -- Where `commit_and_push` returns, HEAD is as before and the branch of the remote is at a commit on
  -- top of it. It raises with the repository as before if adding or committing fails or nothing is
  -- staged; if the push fails, the commit stays on the local branch and the remote is as before; and
  -- if a command after the push fails, the commit stays on both.
  pub commit_and_push_outcome :
      (branch message : String) (w : W)
      → let (result, w') = commit_and_push r.git strip branch message w in
        Outcome branch message w result w'
  unfolding commit_and_push run_git
  commit_and_push_outcome branch message w =
      let all = commit_and_push r.git strip branch message w in
      let (added, w1) = r.git add_command w in
      let (staged, w2) = r.git diff_command w1 in
      let (committed, w3) = r.git (commit_command message) w2 in
      let (add_head, add_remote) = r.add_keeps w in
      let (diff_head, diff_remote) = r.diff_keeps w1 in
      let before = diff_head ∙ add_head in
      let remote = r.commit_remote message w2 ∙ (diff_remote ∙ add_remote) in
      elim (Bool-cases added.succeeded) [
        | inr failed ↦
            let e : all ≡ (err (git_failed add_command), w1) = ground (arith, failed) in
            subst (λ p. Outcome branch message w p.0 p.1) (sym e)
              (inr (inl (inr (inl refl), (add_head, add_remote))))
        | inl ready ↦ elim (Bool-cases (strip staged.stdout == "")) [
          | inl empty ↦
              let e : all ≡ (err nothing_staged, w2) = ground (arith, ready, empty) in
              subst (λ p. Outcome branch message w p.0 p.1) (sym e)
                (inr (inl (inl refl, (before, diff_remote ∙ add_remote))))
          | inr some_staged ↦ elim (Bool-cases committed.succeeded) [
            | inr failed ↦
                let e : all ≡ (err (git_failed (commit_command message)), w3) =
                  ground (arith, ready, some_staged, failed) in
                subst (λ p. Outcome branch message w p.0 p.1) (sym e)
                  (inr (inl (inr (inr refl), (r.commit_fails message w2 failed ∙ before, remote))))
            | inl done ↦
                let rest = push_and_reset r.git strip branch w3 in
                let e : all ≡ rest = ground (arith, ready, some_staged, done) in
                subst (λ p. Outcome branch message w p.0 p.1) (sym e)
                  (committed-outcome branch message w w3
                    (r.commit_succeeds message w2 done ∙ before) remote)
          ]
        ]
      ]
