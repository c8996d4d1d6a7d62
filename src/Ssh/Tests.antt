-- ===== src/Ssh/Tests.antt =====
-- Files, commands and deployments as crates/tepegoz-ssh handles them.
use tepegoz.Prelude.{
  ℕ, ◌+◌, ◌≡◌, ◌≢◌, refl, Bool, true, false, some, List, [], ◌∷◌, arith, All, if◌then◌else◌, not,
  ◌&&◌, ◌==◌, Bool-cases, inl, inr,
}
use tepegoz.Text.{to_string}
use tepegoz.Text.Same.{same_text}
use tepegoz.Ssh.Chars.{
  chars, lines, carriage_return, is_whitespace, trim_start, until_whitespace, after_token,
  first_token, other_tokens,
}
use tepegoz.Ssh.Shell.{
  shell_words, read_words, class_of, onto_words, mkdir_command, upload_command, cleanup_command,
  finalize_command, shell_words-commands, hash_command, presence_command, stat_command,
}
use tepegoz.Ssh.KnownHosts.{holds, done, forget}
use tepegoz.Ssh.KnownHosts.Entries.{IsNameOf, with_port, IsName}
use tepegoz.Ssh.KnownHosts.Forget.{Forgets, lines_of, forget-lines}
use tepegoz.Ssh.Deploy.{
  ExecOutput, DeployOutcome, ok, parse_uname_sm, parse_hash_output, parse_token, trim_end,
  is_hexdigit, lower_hexdigit, all_hexdigits, triple_of,
}
use tepegoz.Ssh.Deploy.Exec.{Exec, ◌>>=◌, Succeeds}
use tepegoz.Ssh.Deploy.Pipeline.{
  must, detect_target, resolve_remote_home, inspect_remote_agent, inspect_hash, deploy_agent,
}
use tepegoz.Ssh.Deploy.Verified.{IsVerified, deploy_agent-IsVerified}

abbrev path : List ℕ
path = chars "/home/o'neil b/.cache/tepegoz"

shell_words-commands_example :
    (shell_words (mkdir_command path) ≡ some (chars "mkdir" ∷ chars "-p" ∷ path ∷ []))
    × (shell_words (upload_command path) ≡ some (chars "cat" ∷ chars ">" ∷ path ∷ []))
    × (shell_words (cleanup_command path) ≡ some (chars "rm" ∷ chars "-f" ∷ path ∷ []))
    × (shell_words (finalize_command path path)
        ≡ some (chars "mv" ∷ path ∷ path ∷ chars "&&" ∷ chars "chmod" ∷ chars "+x" ∷ path ∷ []))
shell_words-commands_example = shell_words-commands path path path

-- `spawn_agent_channel` sends the path as it is: a blank in it ends the word.
path_splits : shell_words (chars "/home/o b/agent") ≡ some (chars "/home/o" ∷ chars "b/agent" ∷ [])
unfolding shell_words read_words class_of onto_words
path_splits = refl

abbrev file : List ℕ
file = chars "# mine\nbox ssh-ed25519 AAAA\n[box]:2222 ssh-ed25519 BBBB\nother ssh-ed25519 CCCC\n"

no_return : List ℕ → Bool
no_return [] = true
no_return (c ∷ cs) = not (c == carriage_return) && no_return cs

no_return_lem : (cs : List ℕ) → no_return cs ≡ true → All (λ c. c ≢ carriage_return) cs
unfolding no_return
no_return_lem [] h = tt
no_return_lem (c ∷ cs) h = elim (Bool-cases (c == carriage_return)) [
  | inl e ↦ let no : false ≡ true = rw e at h in cc
  | inr e ↦ (λ q. ground (arith, q, e), no_return_lem cs (rw e at h))
]

file_plain : All (λ c. c ≢ carriage_return) file
unfolding no_return
file_plain = no_return_lem file refl

abbrev box_2222 : List ℕ
box_2222 = chars "[box]:2222"

box_2222-IsNameOf : IsNameOf (chars "box") 2222 box_2222
unfolding to_string
box_2222-IsNameOf = with_port 2222 (omega arith)

chars-All : All (λ c. is_whitespace c ≡ false) (chars "box]:2222")
unfolding is_whitespace
chars-All = (refl, (refl, (refl, (refl, (refl, (refl, (refl, (refl, (refl, tt)))))))))

box_2222-IsName : IsName box_2222
unfolding is_whitespace
box_2222-IsName = (omega arith, refl, chars-All)

forget-lines_example :
    let r = forget (chars "box") 2222 true (holds file) in
    (n : ℕ) × (r.0 ≡ done n) × Forgets box_2222 (lines file) (lines_of r.1) n
forget-lines_example =
    forget-lines (chars "box") 2222 box_2222 file box_2222-IsNameOf box_2222-IsName file_plain

-- A remote host that has the agent already. It counts the commands.
abbrev digest : List ℕ
digest = chars "aaaaaaaaaaaaaaaaaaaaaaaaaaaaaaaaaaaaaaaaaaaaaaaaaaaaaaaaaaaaaaaa"

-- What tells the commands apart.
abbrev mark : List ℕ → ℕ
mark [] = 0
mark (a ∷ []) = a
mark (a ∷ b ∷ cs) = if a == b's' then 1000 + b else a

abbrev answer : List ℕ → List ℕ
answer command =
    if mark command == b'u'
    then chars "Linux x86_64"
    else if mark command == b'e'
    then chars "/root"
    else if mark command == b'['
    then chars "present"
    else if mark command == 1104
    then digest
    else chars "5 6"

abbrev host : List ℕ → List ℕ → Exec ℕ ExecOutput
host command stdin count = (ok (record { stdout = answer command; exit_status = 0 }), count + 1)

abbrev lowered : List ℕ → List ℕ
lowered text = chars "linux"

abbrev hashed : List ℕ → List ℕ
hashed bytes = digest

abbrev deployed : DeployOutcome
deployed = record {
  target = record {
    os = chars "linux";
    arch = chars "x86_64";
    target_triple = chars "x86_64-unknown-linux-musl";
  };
  remote_path = chars "/root/.cache/tepegoz/agent-v12";
  sha256_hex = digest;
  deployed_now = false;
}

deployed_run : Succeeds (deploy_agent lowered hashed 4242 host (1 ∷ []) 12) 0 deployed 5
unfolding deploy_agent must detect_target resolve_remote_home inspect_remote_agent inspect_hash
    ◌>>=◌ parse_uname_sm parse_hash_output parse_token trim_end trim_start until_whitespace
    after_token first_token other_tokens is_whitespace is_hexdigit lower_hexdigit all_hexdigits
    triple_of same_text hash_command presence_command stat_command to_string
deployed_run = record { result = refl }

deploy_agent-IsVerified_example : IsVerified lowered hashed 4242 host (1 ∷ []) 0 5 deployed
deploy_agent-IsVerified_example =
    deploy_agent-IsVerified lowered hashed 4242 host (1 ∷ []) 12 deployed_run
