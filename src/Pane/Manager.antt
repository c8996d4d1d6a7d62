-- ===== src/Pane/Manager.antt =====
-- The pane tables: `PtyManager` of crates/tepegoz-pty/src/lib.rs and `RemotePaneManager` of
-- crates/tepegoz-core/src/remote_pane.rs. A table is an association list with one entry for a key;
-- a pane stands in it by a value of `P`.
pub mod Ids
pub mod Runs
use tepegoz.Prelude.{
  ℕ, suc, ◌+◌, ◌*◌, ◌%◌, ◌≤◌, ◌<◌, ◌≡◌, ◌≢◌, refl, sym, ap, ◌∙◌, Bool, true, false, Option, none,
  some, List, [], ◌∷◌, arith, length, map, ◌==◌, if◌then◌else◌, All, Bool-cases, inl, inr,
}

module _ {ℓ} {P : Type ℓ} where
  unfoldable pub lookup : ℕ → List (ℕ × P) → Option P
  lookup id [] = none
  lookup id ((k, p) ∷ t) = if k == id then some p else lookup id t

  unfoldable pub remove : ℕ → List (ℕ × P) → List (ℕ × P)
  remove id [] = []
  remove id ((k, p) ∷ t) = let rest = remove id t in if k == id then rest else (k, p) ∷ rest

abbrev pub u64_mod : ℕ
u64_mod = 18446744073709551616

-- The first id of a remote pane, 2^32.
abbrev pub remote_base : ℕ
remote_base = 4294967296

pub record Manager {ℓ} (P : Type ℓ) : Type ℓ where
  pub panes : List (ℕ × P)
  pub next_id : ℕ

module _ {ℓ} {P : Type ℓ} where
  unfoldable pub new_local : Manager P
  new_local = record { panes = []; next_id = 1 }

  unfoldable pub new_remote : Manager P
  new_remote = record { panes = []; next_id = remote_base }

  -- `self.next_id.fetch_add(1)`
  unfoldable pub take_id : Manager P → Manager P
  take_id m = record m { next_id = (m.next_id + 1) % u64_mod }

  unfoldable pub insert : Manager P → ℕ → P → Manager P
  unfolding remove
  insert m id p = record m { panes = (id, p) ∷ remove id m.panes }

  -- `PtyManager::open`: the id is taken before the pty and the shell are started, which may fail.
  unfoldable pub open_local : Manager P → Option P → Manager P × Option ℕ
  unfolding take_id insert
  open_local m none = (take_id m, none)
  open_local m (some p) = (insert (take_id m) m.next_id p, some m.next_id)

  -- `RemotePaneManager::open`: the id is taken after the connection, the pty and the shell.
  unfoldable pub open_remote : Manager P → Option P → Manager P × Option ℕ
  unfolding take_id insert
  open_remote m none = (m, none)
  open_remote m (some p) = (insert (take_id m) m.next_id p, some m.next_id)

  unfoldable pub get : Manager P → ℕ → Option P
  unfolding lookup
  get m id = lookup id m.panes

  -- Also `contains`: an error where there is no such pane.
  unfoldable pub close : Manager P → ℕ → Option (Manager P)
  unfolding remove
  close m id = elim (lookup id m.panes) [
    | none ↦ none
    | some p ↦ some (record m { panes = remove id m.panes })
  ]

  unfoldable pub count : Manager P → ℕ
  count m = length m.panes
