-- ===== src/Ssh/Deploy.antt =====
-- The deployment of the agent: `detect_target`, `inspect_remote_agent`, `upload_binary` and
-- `deploy_agent` of crates/tepegoz-ssh/src/deploy.rs. The exec channel, the SHA-256 digest in
-- hexadecimal, `str::to_lowercase` and the process id are parameters. An error keeps its stage; the
-- sentences of the errors are left out.
pub mod Exec
pub mod Pipeline
pub mod Ran
pub mod Printed
pub mod Verified
use tepegoz.Prelude.{
  ℕ, zero, suc, ◌+◌, ◌-◌, ◌*◌, ◌≡◌, refl, sym, ap, ◌∙◌, Bool, true, false, not, ◌&&◌, ◌||◌, Option,
  none, some, List, [], ◌∷◌, ◌++◌, leb, ltb, ◌==◌, if◌then◌else◌, is_empty, length, ◌>>=◌,
}
use tepegoz.Text.{to_string}
use tepegoz.Text.Same.{same_text}
use tepegoz.Ssh.Chars.{
  chars, is_whitespace, trim_start, first_token, other_tokens, unwrap_or_empty, until_whitespace,
}
use tepegoz.Ssh.Shell.{
  mkdir_command, upload_command, cleanup_command, finalize_command, presence_command, hash_command,
  stat_command,
}

pub record ExecOutput : Type 0 where
  pub stdout : List ℕ
  pub exit_status : ℕ

pub record DetectedTarget : Type 0 where
  pub os : List ℕ
  pub arch : List ℕ
  pub target_triple : List ℕ

pub data DeployError : Type 0 where
  deploy_failed : List ℕ → DeployError
  unsupported_platform : List ℕ → List ℕ → DeployError
  checksum_mismatch : List ℕ → List ℕ → List ℕ → DeployError

pub data Result (A : Type 0) : Type 0 where
  ok : A → Result A
  err : DeployError → Result A

pub data RemoteAgentStatus : Type 0 where
  absent : RemoteAgentStatus
  present : List ℕ → Bool → ℕ → ℕ → RemoteAgentStatus

pub record DeployOutcome : Type 0 where
  pub target : DetectedTarget
  pub remote_path : List ℕ
  pub sha256_hex : List ℕ
  pub deployed_now : Bool

-- `str::trim`
unfoldable pub trim_end : List ℕ → List ℕ
trim_end [] = []
trim_end (c ∷ cs) = onto c (trim_end cs)
  where
    onto : ℕ → List ℕ → List ℕ
    onto c [] = if is_whitespace c then [] else c ∷ []
    onto c (d ∷ ds) = c ∷ d ∷ ds

abbrev pub trim : List ℕ → List ℕ
trim text = trim_end (trim_start text)

unfoldable pub is_hexdigit : ℕ → Bool
is_hexdigit c =
    (leb b'0' c && leb c b'9') || ((leb b'a' c && leb c b'f') || (leb b'A' c && leb c b'F'))

unfoldable pub lower_hexdigit : ℕ → ℕ
lower_hexdigit c = if leb b'A' c && leb c b'F' then c + 32 else c

unfoldable pub all_hexdigits : List ℕ → Bool
all_hexdigits [] = true
all_hexdigits (c ∷ cs) = is_hexdigit c && all_hexdigits cs

abbrev pub lower_all : List ℕ → List ℕ
lower_all [] = []
lower_all (c ∷ cs) = lower_hexdigit c ∷ lower_all cs

unfoldable pub parse_token : Option (List ℕ) → Result (List ℕ)
parse_token none = err (deploy_failed (chars "hash_parse"))
parse_token (some token) =
    if not (length token == 64) || not (all_hexdigits token)
    then err (deploy_failed (chars "hash_parse"))
    else ok (lower_all token)

unfoldable pub parse_hash_output : List ℕ → Result (List ℕ)
parse_hash_output raw = parse_token (first_token raw)

abbrev pub u64_max : ℕ
u64_max = 18446744073709551615

-- `str::parse::<u64>`, a leading plus sign included.
unfoldable pub digits_u64 : ℕ → List ℕ → Option ℕ
digits_u64 acc [] = some acc
digits_u64 acc (b ∷ bs) =
    let next = acc * 10 + (b - b'0') in
    let rest = digits_u64 next bs in
    if leb b'0' b && (leb b b'9' && leb next u64_max) then rest else none

unfoldable pub parse_u64 : List ℕ → Option ℕ
parse_u64 [] = none
parse_u64 (b ∷ []) = if b == b'+' then none else digits_u64 0 (b ∷ [])
parse_u64 (b ∷ c ∷ bs) = if b == b'+' then digits_u64 0 (c ∷ bs) else digits_u64 0 (b ∷ c ∷ bs)

-- The size and the time, or nothing where one of them cannot be read.
unfoldable pub parse_stat_output : List ℕ → Option (ℕ × ℕ)
parse_stat_output raw =
    (first_token raw >>= parse_u64)
    >>= (λ size. (first_token (other_tokens raw) >>= parse_u64) >>= (λ mtime. some (size, mtime)))

abbrev pub or_zeros : Option (ℕ × ℕ) → ℕ × ℕ
or_zeros none = (0, 0)
or_zeros (some r) = r

unfoldable pub triple_of : List ℕ → List ℕ → Option (List ℕ)
triple_of os arch =
    let is_os = same_text os in
    let is_arch = same_text arch in
    if is_os (chars "linux") && (is_arch (chars "x86_64") || is_arch (chars "amd64"))
    then some (chars "x86_64-unknown-linux-musl")
    else if is_os (chars "linux") && (is_arch (chars "aarch64") || is_arch (chars "arm64"))
    then some (chars "aarch64-unknown-linux-musl")
    else if is_os (chars "darwin") && is_arch (chars "x86_64")
    then some (chars "x86_64-apple-darwin")
    else if is_os (chars "darwin") && (is_arch (chars "arm64") || is_arch (chars "aarch64"))
    then some (chars "aarch64-apple-darwin")
    else none

abbrev pub target_or_error : List ℕ → List ℕ → List ℕ → Option (List ℕ) → Result DetectedTarget
target_or_error os_raw os arch none = err (unsupported_platform os_raw arch)
target_or_error os_raw os arch (some triple) =
    ok (record { os = os; arch = arch; target_triple = triple })

module _ (to_lowercase : List ℕ → List ℕ) where
  unfoldable pub parse_uname_sm : List ℕ → Result DetectedTarget
  parse_uname_sm line =
      let os_raw = unwrap_or_empty (first_token line) in
      let arch_raw = unwrap_or_empty (first_token (other_tokens line)) in
      let os_norm = to_lowercase os_raw in
      target_or_error os_raw os_norm arch_raw (triple_of os_norm arch_raw)
