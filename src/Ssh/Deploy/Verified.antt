-- ===== src/Ssh/Deploy/Verified.antt =====
-- No deployment is reported without a matching digest of the remote file: `deploy_agent` of
-- crates/tepegoz-ssh/src/deploy.rs.
use mathlib.Core.Path.{subst}
use tepegoz.Prelude.{ℕ, ◌≡◌, refl, Bool, true, false, List, ◌++◌, Bool-cases, inl, inr}
use tepegoz.Text.Same.{same_text, same_text_iff}
use tepegoz.Text.{to_string}
use tepegoz.Ssh.Chars.{chars}
use tepegoz.Ssh.Deploy.{ExecOutput, DetectedTarget, ok, err, DeployOutcome, checksum_mismatch}
use tepegoz.Ssh.Deploy.Exec.{Exec, give, Succeeds, >>=-Succeeds}
use tepegoz.Ssh.Deploy.Pipeline.{
  compute_remote_hash, is_cached, outcome, redeploy, deploy, deploy_agent, upload_binary,
}
use tepegoz.Ssh.Deploy.Ran.{
  give-Succeeds, Ran, Ran-trans, detect_target-IsRun, resolve_remote_home-IsRun,
  inspect_remote_agent-IsRun, upload_binary-IsRun, compute_remote_hash-IsRun,
}
use tepegoz.Ssh.Deploy.Printed.{
  ok-same, HasPrinted, PrintedBefore, give-same, compute_remote_hash-Succeeds, inspect-Succeeds,
}

module _ {Remote : Type 0} (to_lowercase : List ℕ → List ℕ) (sha256_hex : List ℕ → List ℕ) (pid : ℕ)
    (run_exec : List ℕ → List ℕ → Exec Remote ExecOutput) where
  -- After some commands an upload of the bytes to the path has succeeded, and the command right after
  -- it, the last of all, has printed the digest of the file.
  abbrev pub UploadedThenPrinted : List ℕ → DetectedTarget → List ℕ → Remote → Remote → Type 0
  UploadedThenPrinted bytes target remote_path r r' =
      (remote_dir : List ℕ) × (before : Remote) × (out : ExecOutput) × (uploaded : Remote) × Ran
        to_lowercase sha256_hex pid run_exec r before
      × Succeeds (upload_binary to_lowercase sha256_hex pid run_exec bytes remote_dir remote_path)
          before out uploaded
      × HasPrinted to_lowercase sha256_hex pid run_exec target remote_path (sha256_hex bytes)
          uploaded r'

  -- Which of the two a deployment has behind it.
  abbrev pub Verified : Bool → List ℕ → DetectedTarget → List ℕ → Remote → Remote → Type 0
  Verified true bytes target remote_path = UploadedThenPrinted bytes target remote_path
  Verified false bytes target remote_path =
      PrintedBefore to_lowercase sha256_hex pid run_exec target remote_path (sha256_hex bytes)

  -- A deployment that is reported has been verified, on the way from one state to the other.
  abbrev pub IsVerified : List ℕ → Remote → Remote → DeployOutcome → Type 0
  IsVerified bytes r r' o =
      (o.sha256_hex ≡ sha256_hex bytes) × Verified o.deployed_now bytes o.target o.remote_path r r'

  told-IsVerified :
      (bytes remote_path : List ℕ) (target : DetectedTarget) (now : Bool) (r s s' : Remote)
      {o : DeployOutcome}
      → Verified now bytes target remote_path r s
      → Succeeds (give (ok (outcome target remote_path (sha256_hex bytes) now))) s o s'
      → IsVerified bytes r s' o
  told-IsVerified bytes remote_path target now r s s' {o} v k =
      subst (λ s'. IsVerified bytes r s' o) (give-same to_lowercase sha256_hex pid run_exec _ k)
        (subst (IsVerified bytes r s) (ok-same (give-Succeeds _ k)) (refl, v))

  matched-IsVerified :
      (bytes remote_dir remote_path digest : List ℕ) (target : DetectedTarget)
      {r before uploaded s s' : Remote} {out : ExecOutput} {o : DeployOutcome}
      → Ran to_lowercase sha256_hex pid run_exec r before
      → Succeeds
          (upload_binary to_lowercase sha256_hex pid run_exec bytes remote_dir remote_path)
          before
          out
          uploaded
      → Succeeds
          (compute_remote_hash to_lowercase sha256_hex pid run_exec remote_path target)
          uploaded
          digest
          s
      → same_text digest (sha256_hex bytes) ≡ true
      → Succeeds (give (ok (outcome target remote_path (sha256_hex bytes) true))) s o s'
      → IsVerified bytes r s' o
  matched-IsVerified bytes remote_dir remote_path digest target {r} {before} {uploaded} {s} {s'}
        {out = out} steps up h e k =
      let same = (same_text_iff digest (sha256_hex bytes)).0 e in
      told-IsVerified bytes remote_path target true r s s'
        (
          remote_dir,
          before,
          out,
          uploaded,
          steps,
          up,
          subst
              (λ d. HasPrinted to_lowercase sha256_hex pid run_exec target remote_path d uploaded s)
              same
              (compute_remote_hash-Succeeds to_lowercase sha256_hex pid run_exec remote_path target
                h),
        )
        k

  redeploy-IsVerified :
      (bytes remote_dir remote_path : List ℕ) (target : DetectedTarget) {r s r' : Remote}
      {o : DeployOutcome}
      → Ran to_lowercase sha256_hex pid run_exec r s
      → Succeeds
          (redeploy to_lowercase sha256_hex pid run_exec bytes remote_dir remote_path
            (sha256_hex bytes)
            target)
          s
          o
          r'
      → IsVerified bytes r r' o
  unfolding redeploy
  redeploy-IsVerified bytes remote_dir remote_path target steps h =
      let (out, s1, h1, k1) = >>=-Succeeds _ _ h in
      let (digest, s2, h2, k2) = >>=-Succeeds _ _ k1 in
      elim (Bool-cases (same_text digest (sha256_hex bytes))) [
        | inl e ↦
            matched-IsVerified bytes remote_dir remote_path digest target steps h1 h2 e (rw e at k2)
        | inr e ↦
            let no =
              give-Succeeds (err (checksum_mismatch remote_path (sha256_hex bytes) digest))
                (rw e at k2) in
            cc
      ]

  deploy-IsVerified :
      (bytes remote_dir remote_path : List ℕ) (target : DetectedTarget) {r s r' : Remote}
      {o : DeployOutcome}
      → Ran to_lowercase sha256_hex pid run_exec r s
      → Succeeds
          (deploy to_lowercase sha256_hex pid run_exec bytes remote_dir remote_path
            (sha256_hex bytes)
            target)
          s
          o
          r'
      → IsVerified bytes r r' o
  unfolding deploy
  deploy-IsVerified bytes remote_dir remote_path target {s = s} steps h =
      let (out, s1, h1, k1) = >>=-Succeeds _ _ h in
      let (digest, s2, h2, k2) = >>=-Succeeds _ _ k1 in
      elim (Bool-cases (same_text digest (sha256_hex bytes))) [
        | inl e ↦
            matched-IsVerified bytes remote_dir remote_path digest target steps h1 h2 e (rw e at k2)
        | inr e ↦
            let uploaded =
              upload_binary-IsRun to_lowercase sha256_hex pid run_exec bytes remote_dir remote_path
                s s1 out h1 in
            let hashed =
              compute_remote_hash-IsRun to_lowercase sha256_hex pid run_exec remote_path target s1
                s2 digest h2 in
            redeploy-IsVerified bytes remote_dir remote_path target
              (Ran-trans to_lowercase sha256_hex pid run_exec steps
                (Ran-trans to_lowercase sha256_hex pid run_exec uploaded hashed))
              (rw e at k2)
      ]

  -- A deployment that succeeds names the digest of the agent that is built in. Where it has uploaded the
  -- agent, the last upload of the bytes to the path that it names has succeeded, and the very next command,
  -- the last of the deployment, has printed that digest of the file. Where it has uploaded nothing, the
  -- host has printed that digest of the file, and only the size and the time were asked for after that.
  pub deploy_agent-IsVerified :
      (bytes : List ℕ) (protocol_version : ℕ) {r r' : Remote} {o : DeployOutcome}
      → Succeeds (deploy_agent to_lowercase sha256_hex pid run_exec bytes protocol_version) r o r'
      → IsVerified bytes r r' o
  unfolding deploy_agent
  deploy_agent-IsVerified bytes protocol_version {r} {r'} h =
      let (target, s1, h1, k1) = >>=-Succeeds _ _ h in
      let (home, s2, h2, k2) = >>=-Succeeds _ _ k1 in
      let (status, s3, h3, k3) = >>=-Succeeds _ _ k2 in
      let dir = home ++ chars "/.cache/tepegoz" in
      let path = dir ++ (chars "/agent-v" ++ to_string protocol_version) in
      let detected = detect_target-IsRun to_lowercase sha256_hex pid run_exec r s1 target h1 in
      let at_home = resolve_remote_home-IsRun to_lowercase sha256_hex pid run_exec s1 s2 home h2 in
      let steps = Ran-trans to_lowercase sha256_hex pid run_exec detected at_home in
      elim (Bool-cases (is_cached status)) [
        | inl e ↦
            let (before, after, stat, more, printed, shown) =
              inspect-Succeeds to_lowercase sha256_hex pid run_exec path (sha256_hex bytes) target
                h3 e in
            told-IsVerified bytes path target false r s3 r'
              (
                before,
                after,
                stat,
                Ran-trans to_lowercase sha256_hex pid run_exec steps more,
                printed,
                shown,
              )
              (rw e at k3)
        | inr e ↦
            let inspected =
              inspect_remote_agent-IsRun to_lowercase sha256_hex pid run_exec path
                (sha256_hex bytes) target s2 s3 status h3 in
            deploy-IsVerified bytes dir path target
              (Ran-trans to_lowercase sha256_hex pid run_exec steps inspected) (rw e at k3)
      ]
