-- ===== src/Ssh/Deploy/Printed.antt =====
-- When the remote host has printed the digest of the agent: the inspection and the hash of
-- crates/tepegoz-ssh/src/deploy.rs.
use mathlib.Core.Path.{subst}
use tepegoz.Prelude.{ℕ, ◌≡◌, ap, ◌∙◌, true, false, List, [], ◌==◌, Bool-cases, inl, inr, ==_iff}
use tepegoz.Text.Same.{same_text, same_text_iff}
use tepegoz.Ssh.Chars.{chars}
use tepegoz.Ssh.Shell.{hash_command, stat_command, presence_command}
use tepegoz.Ssh.Deploy.{
  ExecOutput, DetectedTarget, Result, ok, err, RemoteAgentStatus, absent, parse_hash_output, trim,
  deploy_failed,
}
use tepegoz.Ssh.Deploy.Exec.{Exec, give, Succeeds, >>=-Succeeds}
use tepegoz.Ssh.Deploy.Pipeline.{
  must, inspect_hash, inspect_remote_agent, compute_remote_hash, is_cached,
}
use tepegoz.Ssh.Deploy.Ran.{give-Succeeds, Ran, nothing, ran}

pub ok-same : {A : Type 0} {x y : A} → ok x ≡ ok y → x ≡ y
ok-same e = cc

module _ {Remote : Type 0} (to_lowercase : List ℕ → List ℕ) (sha256_hex : List ℕ → List ℕ) (pid : ℕ)
    (run_exec : List ℕ → List ℕ → Exec Remote ExecOutput) where
  -- The command that prints the digest of the file leads from one state of the remote host to another,
  -- and has printed this digest.
  abbrev pub HasPrinted : DetectedTarget → List ℕ → List ℕ → Remote → Remote → Type 0
  HasPrinted target remote_path digest before after =
      (out : ExecOutput) × Succeeds (run_exec (hash_command target.os remote_path) []) before out
        after
      × (out.exit_status ≡ 0)
      × (parse_hash_output out.stdout ≡ ok digest)

  pub give-same :
      {A : Type 0} (result : Result A) {r r' : Remote} {a : A}
      → Succeeds (give result) r a r'
      → r ≡ r'
  give-same result h = ap (λ q. q.1) h.result

  must-Succeeds :
      (stage : List ℕ) (out : ExecOutput) {r r' : Remote} {a : ExecOutput}
      → Succeeds (must to_lowercase sha256_hex pid run_exec stage out) r a r'
      → (out.exit_status ≡ 0) × (r ≡ r')
  unfolding must
  must-Succeeds stage out h = elim (Bool-cases (out.exit_status == 0)) [
    | inl e ↦ ((==_iff out.exit_status 0).0 e, ap (λ q. q.1) h.result)
    | inr e ↦ let no = rw e at (ap (λ q. q.0) h.result) in cc
  ]

  pub compute_remote_hash-Succeeds :
      (remote_path : List ℕ) (target : DetectedTarget) {r r' : Remote} {digest : List ℕ}
      → Succeeds
          (compute_remote_hash to_lowercase sha256_hex pid run_exec remote_path target)
          r
          digest
          r'
      → HasPrinted target remote_path digest r r'
  unfolding compute_remote_hash
  compute_remote_hash-Succeeds remote_path target {r} {digest = digest} h =
      let (out, after, h1, k1) = >>=-Succeeds _ _ h in
      let (out', after', h2, k2) = >>=-Succeeds _ _ k1 in
      let (fine, same) = must-Succeeds (chars "verify_hash") out h2 in
      subst (HasPrinted target remote_path digest r) (same ∙ give-same _ k2)
        (out, h1, fine, give-Succeeds _ k2)

  -- After some commands the digest of the file has been printed, and a command that shows the size
  -- and the time of the file was the only one after it.
  abbrev pub PrintedBefore : DetectedTarget → List ℕ → List ℕ → Remote → Remote → Type 0
  PrintedBefore target remote_path digest r r' =
      (before : Remote) × (after : Remote) × (out : ExecOutput) × Ran to_lowercase sha256_hex pid
        run_exec r before
      × HasPrinted target remote_path digest before after
      × Succeeds (run_exec (stat_command target.os remote_path) []) after out r'

  inspect_hash-Succeeds :
      (remote_path expected : List ℕ) (target : DetectedTarget) {r r' : Remote}
      {status : RemoteAgentStatus}
      → Succeeds
          (inspect_hash to_lowercase sha256_hex pid run_exec remote_path expected target)
          r
          status
          r'
      → is_cached status ≡ true
      → PrintedBefore target remote_path expected r r'
  unfolding inspect_hash
  inspect_hash-Succeeds remote_path expected target {r} {status = status} h cached =
      let (out, after, h1, k1) = >>=-Succeeds _ _ h in
      let (out', after', h2, k2) = >>=-Succeeds _ _ k1 in
      let (sha256, s3, h3, k3) = >>=-Succeeds _ _ k2 in
      let (stat, s4, h4, k4) = >>=-Succeeds _ _ k3 in
      let same : same_text sha256 expected ≡ true =
        ap is_cached (ok-same (give-Succeeds _ k4)) ∙ cached in
      let digest = (same_text_iff sha256 expected).0 same in
      let (fine, same_1) = must-Succeeds (chars "inspect_hash") out h2 in
      let printed : HasPrinted target remote_path expected r after = (
        out,
        h1,
        fine,
        subst (λ d. parse_hash_output out.stdout ≡ ok d) digest (give-Succeeds _ h3),
      ) in
      (
        r,
        s3,
        stat,
        nothing r,
        subst (HasPrinted target remote_path expected r) (same_1 ∙ give-same _ h3) printed,
        subst (Succeeds (run_exec (stat_command target.os remote_path) []) s3 stat) (give-same _ k4)
            h4,
      )

  pub inspect-Succeeds :
      (remote_path expected : List ℕ) (target : DetectedTarget) {r r' : Remote}
      {status : RemoteAgentStatus}
      → Succeeds
          (inspect_remote_agent to_lowercase sha256_hex pid run_exec remote_path expected target)
          r
          status
          r'
      → is_cached status ≡ true
      → PrintedBefore target remote_path expected r r'
  unfolding inspect_remote_agent
  inspect-Succeeds remote_path expected target {r} {status = status} h cached =
      let (out, after, h1, k1) = >>=-Succeeds _ _ h in
      elim (Bool-cases (same_text (trim out.stdout) (chars "absent"))) [
        | inl e ↦
            let none_there = give-Succeeds (ok absent) (rw e at k1) in
            let no : false ≡ true = ap is_cached (ok-same none_there) ∙ cached in cc
        | inr e ↦ elim (Bool-cases (same_text (trim out.stdout) (chars "present"))) [
          | inl f ↦
              let (before, s1, stat, steps, printed, shown) =
                inspect_hash-Succeeds remote_path expected target (rw (e, f) at k1) cached in
              (before, s1, stat, ran (presence_command remote_path) [] h1 steps, printed, shown)
          | inr f ↦
              let no = give-Succeeds (err (deploy_failed (chars "inspect"))) (rw (e, f) at k1) in cc
        ]
      ]
