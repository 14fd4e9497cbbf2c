-- ===== src/Tests/Pushes.antt =====
-- Runs of commit_and_push against a small repository.
use url_copilot.Prelude.{
  ==_refl, Bool, List, Option, String, [], arith, concat, err, false, if◌then◌else◌, nat_eq, none,
  ok, refl, some, string_eq, true, ◌==◌, ◌∷◌, ◌≡◌,
}
use url_copilot.Agents.Github.{
  Output, commit_and_push, git_failed, push_and_reset, push_command, run_git,
}
use url_copilot.Agents.Github.Push.{Outcome, Repository, commit_and_push_outcome}

-- HEAD, a commit being one letter longer than its parent, and the branches of the remote
abbrev State : Type 0
State = String × (String → Option String)

abbrev tail_of : String → String
tail_of String.[] = ""
tail_of (String.◌∷◌ c s) = s

abbrev pushed_to : Bool → String → State → State
pushed_to true refspec (commit, remote) =
    (commit, λ b. if concat "HEAD:refs/heads/" b == refspec then some commit else remote b)
pushed_to false refspec (commit, remote) = (commit, remote)

-- the word after "git", and the last of the command
abbrev verb_of : List String → String
verb_of [] = ""
verb_of (a ∷ []) = ""
verb_of (a ∷ verb ∷ rest) = verb

abbrev last_of : List String → String
last_of [] = ""
last_of (a ∷ []) = a
last_of (a ∷ b ∷ rest) = last_of (b ∷ rest)

-- a git where a push succeeds or not
abbrev small_git : Bool → List String → State → Output × State
small_git works command s =
    if verb_of command == "push"
    then (record { succeeded = works; stdout = "" }, pushed_to works (last_of command) s)
    else if verb_of command == "commit"
    then (record { succeeded = true; stdout = "" }, (concat "c" s.0, s.1))
    else if verb_of command == "reset"
    then (record { succeeded = true; stdout = "" }, (tail_of s.0, s.1))
    else (record { succeeded = true; stdout = "service/a.py" }, s)

never : {A : Type 0} → true ≡ false → A
never h = absurd (ground (arith, h))

abbrev repository : Repository State
repository = record {
  git = small_git true;
  head = λ s. s.0;
  parent = tail_of;
  remote = λ s. s.1;
  add_keeps = λ w. (refl, refl);
  diff_keeps = λ w. (refl, refl);
  sha_keeps = λ w. (refl, refl);
  commit_remote = λ m w. refl;
  commit_succeeds = λ m w h. refl;
  commit_fails = λ m w h. never h;
  push_head = λ b w. refl;
  push_succeeds = λ b w h. rw (==_refl (concat "HEAD:refs/heads/" b)) refl;
  push_fails = λ b w h. never h;
  reset_remote = λ w. refl;
  reset_succeeds = λ w h. refl;
  reset_fails = λ w h. never h;
}

abbrev fresh : State
fresh = ("c", λ b. none)

abbrev stays : String → String
stays s = s

publishes :
    (commit_and_push (small_git true) stays "feature/a" "feat: a" fresh).0
    ≡ ok "Committed and pushed to feature/a: service/a.py"
unfolding commit_and_push run_git push_and_reset
publishes = refl

-- after a push that fails, HEAD has the commit
leaves_commit :
    commit_and_push (small_git false) stays "feature/a" "feat: a" fresh
    ≡ (err (git_failed (push_command "feature/a")), ("cc", λ b. none))
unfolding commit_and_push run_git push_and_reset
leaves_commit = refl

commit_and_push_outcome_example :
    Outcome repository stays "feature/a" "feat: a" fresh
      (commit_and_push (small_git true) stays "feature/a" "feat: a" fresh).0
      (commit_and_push (small_git true) stays "feature/a" "feat: a" fresh).1
commit_and_push_outcome_example =
    commit_and_push_outcome repository stays "feature/a" "feat: a" fresh
