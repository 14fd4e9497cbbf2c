-- ===== src/Agents/Github.antt =====
-- orchestrator/tools/github_client.py. `git` runs a command of git in the repository's root and the
-- API of PyGithub acts on the same world `W`; both are arguments, with `str.strip` and the environment.
pub mod Push
use url_copilot.Prelude.{
  Bool, List, Option, Result, String, [], concat, err, if◌then◌else◌, nat_eq, none, ok, some,
  string_eq, ℕ, ◌==◌, ◌∷◌,
}

-- a finished command: whether its return code is 0, and what it printed
pub record Output : Type 0 where
  pub succeeded : Bool
  pub stdout : String

pub data GitError : Type 0 where
  git_failed : List String → GitError
  nothing_staged : GitError

abbrev pub add_command : List String
add_command = "git" ∷ "add" ∷ "service/" ∷ []

abbrev pub diff_command : List String
diff_command = "git" ∷ "diff" ∷ "--cached" ∷ "--name-only" ∷ []

abbrev pub commit_command : String → List String
commit_command message = "git" ∷ "commit" ∷ "-m" ∷ message ∷ []

abbrev pub push_command : String → List String
push_command branch = "git" ∷ "push" ∷ "origin" ∷ concat "HEAD:refs/heads/" branch ∷ []

abbrev pub sha_command : List String
sha_command = "git" ∷ "rev-parse" ∷ "--short" ∷ "HEAD" ∷ []

abbrev pub reset_command : List String
reset_command = "git" ∷ "reset" ∷ "--mixed" ∷ "HEAD~1" ∷ []

module _ {W : Type 0} (git : List String → W → Output × W) (strip : String → String) where
  -- `_run`
  unfoldable pub run_git : List String → W → Result GitError String × W
  run_git command w =
      let (output, w') = git command w in
      (if output.succeeded then ok (strip output.stdout) else err (git_failed command), w')

  -- the commands after the commit
  unfoldable pub push_and_reset : String → W → Result GitError String × W
  push_and_reset branch w =
      let (pushed, w1) = run_git (push_command branch) w in
      elim pushed [
        | err x ↦ (err x, w1)
        | ok _ ↦
            let (short_sha, w2) = run_git sha_command w1 in
            elim short_sha [
              | err x ↦ (err x, w2)
              | ok sha ↦
                  let (undone, w3) = run_git reset_command w2 in
                  (
                    elim undone [
                      | err x ↦ err x
                      | ok _ ↦
                          ok (concat "Committed and pushed to " (concat branch (concat ": " sha)))
                    ],
                    w3,
                  )
            ]
      ]

  unfoldable pub commit_and_push : String → String → W → Result GitError String × W
  commit_and_push branch message w =
      let (added, w1) = run_git add_command w in
      elim added [
        | err x ↦ (err x, w1)
        | ok _ ↦
            let (staged, w2) = git diff_command w1 in
            if strip staged.stdout == ""
            then (err nothing_staged, w2)
            else (let (committed, w3) = run_git (commit_command message) w2 in
                elim committed [ err x ↦ (err x, w3) | ok _ ↦ push_and_reset branch w3 ])
      ]

pub data ApiError : Type 0 where
  no_repo_name no_token : ApiError
  -- GithubException, with its status
  github_error : ℕ → ApiError

pub record PullRequest : Type 0 where
  pub number : ℕ
  pub html_url : String
  pub merged : Bool
  pub merged_by : Option String
  pub state : String

-- the variables GITHUB_REPO and GITHUB_TOKEN, and the calls of PyGithub, with the status where one raises
pub record Api (W : Type 0) : Type 0 where
  pub github_repo : Option String
  pub github_token : Option String
  pub get_repo : String → W → Result ℕ String × W
  pub get_branch : String → String → W → Result ℕ String × W
  pub create_git_ref : String → String → String → W → Result ℕ (Unit {0}) × W
  pub create_pull : String → String → String → String → String → W → Result ℕ PullRequest × W
  pub get_pull : String → ℕ → W → Result ℕ PullRequest × W

-- `if not os.getenv(name)`
abbrev pub filled : Option String → ApiError → Result ApiError String
filled none x = err x
filled (some s) x = if s == "" then err x else ok s

pub record PrStatus : Type 0 where
  pub merged : Bool
  pub merged_by : Option String
  pub closed : Bool
  pub state : String

module _ {W : Type 0} (api : Api W) where
  abbrev pub raised : {A : Type 0} → Result ℕ A × W → Result ApiError A × W
  raised (ok a, w) = (ok a, w)
  raised (err status, w) = (err (github_error status), w)

  -- `_repo` with `_client`: the full name of the repository
  unfoldable pub repo : W → Result ApiError String × W
  repo w = elim (filled api.github_repo no_repo_name) [
    | err x ↦ (err x, w)
    | ok name ↦ elim (filled api.github_token no_token) [
      | err x ↦ (err x, w)
      | ok token ↦ raised (api.get_repo name w)
    ]
  ]

  abbrev pub branch_url : String → String → String
  branch_url full_name branch =
      concat "https://github.com/" (concat full_name (concat "/tree/" branch))

  -- a branch that exists already, status 422, is as good as a new one
  unfoldable pub create_branch : String → String → W → Result ApiError String × W
  create_branch branch from_branch w =
      let (found, w1) = repo w in
      elim found [
        | err x ↦ (err x, w1)
        | ok full_name ↦
            let (source, w2) = api.get_branch full_name from_branch w1 in
            elim source [
              | err status ↦ (err (github_error status), w2)
              | ok sha ↦
                  let (created, w3) =
                    api.create_git_ref full_name (concat "refs/heads/" branch) sha w2 in
                  (
                    elim created [
                      | ok _ ↦ ok (branch_url full_name branch)
                      | err status ↦
                          if status == 422
                          then ok (branch_url full_name branch)
                          else err (github_error status)
                    ],
                    w3,
                  )
            ]
      ]

  unfoldable pub create_pr :
      String → String → String → String → W → Result ApiError (ℕ × String) × W
  create_pr title body branch base w =
      let (found, w1) = repo w in
      elim found [
        | err x ↦ (err x, w1)
        | ok full_name ↦
            let (created, w2) = raised (api.create_pull full_name title body branch base w1) in
            (elim created [ err x ↦ err x | ok pr ↦ ok (pr.number, pr.html_url) ], w2)
      ]

  unfoldable pub poll_pr_status : ℕ → W → Result ApiError PrStatus × W
  poll_pr_status number w =
      let (found, w1) = repo w in
      elim found [
        | err x ↦ (err x, w1)
        | ok full_name ↦
            let (read, w2) = raised (api.get_pull full_name number w1) in
            (
              elim read [
                | err x ↦ err x
                | ok pr ↦ ok (record {
                  merged = pr.merged;
                  merged_by = pr.merged_by;
                  closed = pr.state == "closed";
                  state = pr.state;
                })
              ],
              w2,
            )
      ]
