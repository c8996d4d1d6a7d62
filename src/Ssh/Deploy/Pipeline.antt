-- ===== src/Ssh/Deploy/Pipeline.antt =====
-- The steps of a deployment on the remote host: crates/tepegoz-ssh/src/deploy.rs.
use tepegoz.Prelude.{ℕ, Bool, true, false, none, List, [], ◌++◌, ◌==◌, if◌then◌else◌, is_empty}
use tepegoz.Text.{to_string}
use tepegoz.Text.Same.{same_text}
use tepegoz.Ssh.Chars.{chars}
use tepegoz.Ssh.Shell.{
  mkdir_command, upload_command, cleanup_command, finalize_command, presence_command, hash_command,
  stat_command,
}
use tepegoz.Ssh.Deploy.{
  ExecOutput, DetectedTarget, deploy_failed, checksum_mismatch, ok, err, RemoteAgentStatus, absent,
  present, DeployOutcome, trim, parse_hash_output, parse_stat_output, or_zeros, parse_uname_sm,
}
use tepegoz.Ssh.Deploy.Exec.{Exec, ◌>>=◌, ◌>>◌, give}

abbrev pub is_cached : RemoteAgentStatus → Bool
is_cached absent = false
is_cached (present sha256 matches size mtime) = matches

abbrev pub outcome : DetectedTarget → List ℕ → List ℕ → Bool → DeployOutcome
outcome target remote_path local_hash deployed_now = record {
  target = target;
  remote_path = remote_path;
  sha256_hex = local_hash;
  deployed_now = deployed_now;
}

module _ {Remote : Type 0} (to_lowercase : List ℕ → List ℕ) (sha256_hex : List ℕ → List ℕ) (pid : ℕ)
    (run_exec : List ℕ → List ℕ → Exec Remote ExecOutput) where
  -- A command without input that must exit with 0.
  unfoldable pub must : List ℕ → ExecOutput → Exec Remote ExecOutput
  must stage out = give (if out.exit_status == 0 then ok out else err (deploy_failed stage))

  unfoldable pub detect_target : Exec Remote DetectedTarget
  detect_target = do
    out ← run_exec (chars "uname -sm") []
    must (chars "detect_target") out
    give (parse_uname_sm to_lowercase (trim out.stdout))

  unfoldable pub resolve_remote_home : Exec Remote (List ℕ)
  resolve_remote_home = do
    out ← run_exec (chars "echo \"$HOME\"") []
    must (chars "resolve_home") out
    give (
        if is_empty (trim out.stdout)
        then err (deploy_failed (chars "resolve_home"))
        else ok (trim out.stdout))

  unfoldable pub inspect_hash : List ℕ → List ℕ → DetectedTarget → Exec Remote RemoteAgentStatus
  inspect_hash remote_path expected target = do
    hash_out ← run_exec (hash_command target.os remote_path) []
    must (chars "inspect_hash") hash_out
    sha256 ← give (parse_hash_output hash_out.stdout)
    stat_out ← run_exec (stat_command target.os remote_path) []
    let (size, mtime) =
        or_zeros (if stat_out.exit_status == 0 then parse_stat_output stat_out.stdout else none)
    give (ok (present sha256 (same_text sha256 expected) size mtime))

  unfoldable pub inspect_remote_agent :
      List ℕ → List ℕ → DetectedTarget → Exec Remote RemoteAgentStatus
  inspect_remote_agent remote_path expected target = do
    presence ← run_exec (presence_command remote_path) []
    if same_text (trim presence.stdout) (chars "absent")
        then give (ok absent)
        else if same_text (trim presence.stdout) (chars "present")
        then inspect_hash remote_path expected target
        else give (err (deploy_failed (chars "inspect")))

  -- A failed upload is cleaned up, whatever comes of it.
  unfoldable pub clean_up : List ℕ → Exec Remote ExecOutput
  clean_up tmp_path remote =
      (err (deploy_failed (chars "upload")), (run_exec (cleanup_command tmp_path) [] remote).1)

  unfoldable pub upload_binary : List ℕ → List ℕ → List ℕ → Exec Remote ExecOutput
  upload_binary bytes remote_dir final_path = do
    let tmp_path = final_path ++ (chars ".tmp." ++ to_string pid)
    mkdir ← run_exec (mkdir_command remote_dir) []
    must (chars "mkdir") mkdir
    upload ← run_exec (upload_command tmp_path) bytes
    if upload.exit_status == 0 then give (ok upload) else clean_up tmp_path
    finalize ← run_exec (finalize_command tmp_path final_path) []
    must (chars "finalize") finalize

  unfoldable pub compute_remote_hash : List ℕ → DetectedTarget → Exec Remote (List ℕ)
  compute_remote_hash remote_path target = do
    out ← run_exec (hash_command target.os remote_path) []
    must (chars "verify_hash") out
    give (parse_hash_output out.stdout)

  -- The second and last attempt.
  unfoldable pub redeploy :
      List ℕ → List ℕ → List ℕ → List ℕ → DetectedTarget → Exec Remote DeployOutcome
  redeploy bytes remote_dir remote_path local_hash target = do
    upload_binary bytes remote_dir remote_path
    retry_hash ← compute_remote_hash remote_path target
    give (
        if same_text retry_hash local_hash
        then ok (outcome target remote_path local_hash true)
        else err (checksum_mismatch remote_path local_hash retry_hash))

  unfoldable pub deploy :
      List ℕ → List ℕ → List ℕ → List ℕ → DetectedTarget → Exec Remote DeployOutcome
  deploy bytes remote_dir remote_path local_hash target = do
    upload_binary bytes remote_dir remote_path
    uploaded_hash ← compute_remote_hash remote_path target
    if same_text uploaded_hash local_hash
        then give (ok (outcome target remote_path local_hash true))
        else redeploy bytes remote_dir remote_path local_hash target

  unfoldable pub deploy_agent : List ℕ → ℕ → Exec Remote DeployOutcome
  deploy_agent bytes protocol_version = do
    target ← detect_target
    let local_hash = sha256_hex bytes
    home ← resolve_remote_home
    let remote_dir = home ++ chars "/.cache/tepegoz"
    let remote_path = remote_dir ++ (chars "/agent-v" ++ to_string protocol_version)
    status ← inspect_remote_agent remote_path local_hash target
    if is_cached status
        then give (ok (outcome target remote_path local_hash false))
        else deploy bytes remote_dir remote_path local_hash target
