-- ===== src/Ssh/Deploy/Exec.antt =====
-- Calls that may fail on a remote host whose state they change, as the functions of
-- crates/tepegoz-ssh/src/deploy.rs chain them with `?`.
use mathlib.Core.Path.{subst}
use tepegoz.Prelude.{◌≡◌, refl}
use tepegoz.Ssh.Deploy.{Result, ok, err}

abbrev pub Exec : Type 0 → Type 0 → Type 0
Exec Remote A = Remote → Result A × Remote

infixl 5 ◌>>=◌ ◌>>◌
unfoldable pub ◌>>=◌ : {Remote A B : Type 0} → Exec Remote A → (A → Exec Remote B) → Exec Remote B
◌>>=◌ m f remote =
    let (result, remote') = m remote in
    elim result [ ok a ↦ f a remote' | err e ↦ (err e, remote') ]

abbrev pub ◌>>◌ : {Remote A B : Type 0} → Exec Remote A → Exec Remote B → Exec Remote B
m >> k = m >>= λ _. k

abbrev pub give : {Remote A : Type 0} → Result A → Exec Remote A
give result remote = (result, remote)

-- A chain that succeeds has succeeded at each of its links.
pub record Succeeds {Remote A : Type 0} (m : Exec Remote A) (before : Remote) (a : A)
    (after : Remote) : Type 0 where
  pub result : m before ≡ (ok a, after)

pub >>=-Succeeds :
    {Remote A B : Type 0} (m : Exec Remote A) (f : A → Exec Remote B) {r r' : Remote} {b : B}
    → Succeeds (m >>= f) r b r'
    → (a : A) × (s : Remote) × Succeeds m r a s × Succeeds (f a) s b r'
unfolding ◌>>=◌
>>=-Succeeds {Remote = Remote} {A = A} {B = B} m f {r} {r'} {b} h = split (m r) refl
  where
    goes_on : Result A × Remote → Result B × Remote
    goes_on q = elim q.0 [ ok a ↦ f a q.1 | err e ↦ (err e, q.1) ]

    split :
        (q : Result A × Remote)
        → m r ≡ q
        → (a : A) × (s : Remote) × Succeeds m r a s × Succeeds (f a) s b r'
    split (ok a, s) e =
        let rest = subst (λ q. goes_on q ≡ (ok b, r')) e h.result in
        (a, s, record { result = e }, record { result = rest })
    split (err error, s) e = let no = subst (λ q. goes_on q ≡ (ok b, r')) e h.result in cc
