-- ===== src/Ssh/Deploy/Ran.antt =====
-- The commands that a step of a deployment runs on the remote host lead from its state before to its state
-- after: crates/tepegoz-ssh/src/deploy.rs.
use mathlib.Core.Path.{subst}
use tepegoz.Prelude.{ℕ, ◌≡◌, ap, Bool, true, false, List, ◌++◌, ◌==◌, if◌then◌else◌}
use tepegoz.Text.{to_string}
use tepegoz.Text.Same.{same_text}
use tepegoz.Ssh.Chars.{chars}
use tepegoz.Ssh.Deploy.{ExecOutput, DetectedTarget, Result, ok, err, absent, trim, deploy_failed}
use tepegoz.Ssh.Deploy.Exec.{Exec, ◌>>=◌, give, Succeeds, >>=-Succeeds}
use tepegoz.Ssh.Deploy.Pipeline.{
  must, detect_target, resolve_remote_home, inspect_hash, inspect_remote_agent, clean_up,
  upload_binary, compute_remote_hash,
}

pub give-Succeeds :
    {Remote A : Type 0} (result : Result A) {r r' : Remote} {a : A}
    → Succeeds (give result) r a r'
    → result ≡ ok a
give-Succeeds result h = ap (λ q. q.0) h.result

module _ {Remote : Type 0} (to_lowercase : List ℕ → List ℕ) (sha256_hex : List ℕ → List ℕ) (pid : ℕ)
    (run_exec : List ℕ → List ℕ → Exec Remote ExecOutput) where
  -- Commands lead from one state of the remote host to another.
  pub data Ran : Remote → Remote → Type 0 where
    nothing : (r : Remote) → Ran r r
    ran :
        {r r' r'' : Remote} {out : ExecOutput} (command stdin : List ℕ)
        → Succeeds (run_exec command stdin) r out r'
        → Ran r' r''
        → Ran r r''

  pub Ran-trans : {r r' r'' : Remote} → Ran r r' → Ran r' r'' → Ran r r''
  Ran-trans (nothing r) k = k
  Ran-trans (ran command stdin h more) k = ran command stdin h (Ran-trans more k)

  -- A step that succeeds has only run commands.
  abbrev pub IsRun : {A : Type 0} → Exec Remote A → Type 0
  IsRun {A} m = (r r' : Remote) (a : A) → Succeeds m r a r' → Ran r r'

  give-IsRun : {A : Type 0} (result : Result A) → IsRun (give result)
  give-IsRun result r r' a h =
      let same : r ≡ r' = ap (λ q. q.1) h.result in subst (Ran r) same (nothing r)

  exec-IsRun : (command stdin : List ℕ) → IsRun (run_exec command stdin)
  exec-IsRun command stdin r r' out h = ran command stdin h (nothing r')

  bind-IsRun :
      {A B : Type 0} (m : Exec Remote A) (f : A → Exec Remote B)
      → IsRun m
      → ((a : A) → IsRun (f a))
      → IsRun (m >>= f)
  bind-IsRun m f h k r r' b run =
      let (a, s, first, rest) = >>=-Succeeds m f run in Ran-trans (h r s a first) (k a s r' b rest)

  if-IsRun :
      {A : Type 0} (b : Bool) (m n : Exec Remote A) → IsRun m → IsRun n → IsRun (if b then m else n)
  if-IsRun true m n h k = h
  if-IsRun false m n h k = k

  -- A command whose output goes to a step that runs nothing more than commands.
  then_IsRun :
      {B : Type 0} (command stdin : List ℕ) (f : ExecOutput → Exec Remote B)
      → ((out : ExecOutput) → IsRun (f out))
      → IsRun (run_exec command stdin >>= f)
  then_IsRun command stdin f k = bind-IsRun _ f (exec-IsRun command stdin) k

  pub detect_target-IsRun : IsRun (detect_target to_lowercase sha256_hex pid run_exec)
  unfolding detect_target must
  detect_target-IsRun = then_IsRun _ _ _ λ out. bind-IsRun _ _ (give-IsRun _) λ _. give-IsRun _

  pub resolve_remote_home-IsRun : IsRun (resolve_remote_home to_lowercase sha256_hex pid run_exec)
  unfolding resolve_remote_home must
  resolve_remote_home-IsRun =
      then_IsRun _ _ _ λ out. bind-IsRun _ _ (give-IsRun _) λ _. give-IsRun _

  inspect_hash-IsRun :
      (remote_path expected : List ℕ) (target : DetectedTarget)
      → IsRun (inspect_hash to_lowercase sha256_hex pid run_exec remote_path expected target)
  unfolding inspect_hash must
  inspect_hash-IsRun remote_path expected target = then_IsRun _ _ _ λ out.
      bind-IsRun _ _ (give-IsRun _)
        λ _. bind-IsRun _ _ (give-IsRun _) λ _. then_IsRun _ _ _ λ stat. give-IsRun _

  pub inspect_remote_agent-IsRun :
      (remote_path expected : List ℕ) (target : DetectedTarget)
      → IsRun
          (inspect_remote_agent to_lowercase sha256_hex pid run_exec remote_path expected target)
  unfolding inspect_remote_agent
  inspect_remote_agent-IsRun remote_path expected target = then_IsRun _ _ _ λ presence.
      if-IsRun (same_text (trim presence.stdout) (chars "absent")) _ _ (give-IsRun (ok absent)) (
        if-IsRun (same_text (trim presence.stdout) (chars "present")) _ _
          (inspect_hash-IsRun remote_path expected target)
          (give-IsRun (err (deploy_failed (chars "inspect")))))

  clean_up-IsRun :
      (tmp_path : List ℕ) → IsRun (clean_up to_lowercase sha256_hex pid run_exec tmp_path)
  unfolding clean_up
  clean_up-IsRun tmp_path r r' a h = let no = ap (λ q. q.0) h.result in cc

  pub upload_binary-IsRun :
      (bytes remote_dir final_path : List ℕ)
      → IsRun (upload_binary to_lowercase sha256_hex pid run_exec bytes remote_dir final_path)
  unfolding upload_binary must
  upload_binary-IsRun bytes remote_dir final_path =
      let tmp_path = final_path ++ (chars ".tmp." ++ to_string pid) in
      then_IsRun _ _ _ λ mkdir. bind-IsRun _ _ (give-IsRun _) λ _. then_IsRun _ _ _ λ upload.
        bind-IsRun _ _
          (if-IsRun (upload.exit_status == 0) _ _ (give-IsRun (ok upload))
            (clean_up-IsRun tmp_path))
          λ _. then_IsRun _ _ _ λ finalize. give-IsRun _

  pub compute_remote_hash-IsRun :
      (remote_path : List ℕ) (target : DetectedTarget)
      → IsRun (compute_remote_hash to_lowercase sha256_hex pid run_exec remote_path target)
  unfolding compute_remote_hash must
  compute_remote_hash-IsRun remote_path target =
      then_IsRun _ _ _ λ out. bind-IsRun _ _ (give-IsRun _) λ _. give-IsRun _
