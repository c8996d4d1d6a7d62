-- ===== src/Tile/Present.antt =====
-- Focus stays on the tiles of the layout, whatever the layout: tile.rs, `next_focus`, `cycle_focus`.
use tepegoz.Prelude.{
  ℕ, zero, suc, ◌+◌, ◌≡◌, ◌≢◌, refl, Bool, true, false, Option, none, some, List, [], ◌∷◌, arith,
  All, find?, filter_by, position, Option-cases, Bool-cases, ◌>>=◌, >>=-eq-some, inl, inr,
  if◌then◌else◌,
}
use tepegoz.Ratatui.{Rect}
use tepegoz.Tile.{
  TileId, TileDef, TileLayout, FocusDir, same_tile, tile, rect_of, next_focus, cycle_focus,
  cycle_steps, cycle_order, least, min_by_key, before, candidates, beside, key,
}

abbrev HasId : List TileDef → TileId → Type 0
HasId ts id = (d : TileDef) × (find? (λ (t : TileDef). same_tile t.id id) ts ≡ some d)

-- The layout shows the tile.
pub record HasTile (l : TileLayout) (id : TileId) : Type 0 where
  pub def : TileDef
  pub found : tile l id ≡ some def

same_tile_refl : (id : TileId) → same_tile id id ≡ true
same_tile_refl TileId.pty = refl
same_tile_refl _ = refl

HasId-cons : (x : TileDef) (ts : List TileDef) (id : TileId) → HasId ts id → HasId (x ∷ ts) id
HasId-cons x ts id (d, e) = elim (Bool-cases (same_tile x.id id)) [
  | inl p ↦ (x, rw p)
  | inr p ↦ (d, rw p e)
]

All-imp :
    {P Q : TileDef → Type 0} (ts : List TileDef) → ((t : TileDef) → P t → Q t) → All P ts → All Q ts
All-imp [] f h = tt
All-imp (t ∷ ts) f h = (f t h.0, All-imp ts f h.1)

All-HasId : (ts : List TileDef) → All (λ (t : TileDef). HasId ts t.id) ts
All-HasId [] = tt
All-HasId (x ∷ ts) = ((x, rw same_tile_refl), All-imp ts (λ t. HasId-cons x ts t.id) (All-HasId ts))

All-filter_by :
    (P : TileDef → Type 0) (p : TileDef → Bool) (ts : List TileDef)
    → All P ts
    → All (λ t. (p t ≡ true) × P t) (filter_by p ts)
All-filter_by P p [] h = tt
All-filter_by P p (t ∷ ts) h = elim (Bool-cases (p t)) [
  | inl e ↦ rw e ((e, h.0), All-filter_by P p ts h.1)
  | inr e ↦ rw e (All-filter_by P p ts h.1)
]

All-if : (P : TileDef → Type 0) (b : Bool) (t u : TileDef) → P t → P u → P (if b then t else u)
All-if P true t u p q = p
All-if P false t u p q = q

least-All :
    (P : TileDef → Type 0) (k : TileDef → ℕ × ℕ) (best : TileDef) (ts : List TileDef)
    → P best
    → All P ts
    → P (least k best ts)
unfolding least
least-All P k best [] b h = b
least-All P k best (t ∷ ts) b h =
    least-All P k (if before (k t) (k best) then t else best) ts
      (All-if P (before (k t) (k best)) t best h.0 b) h.1

min_by_key-All :
    (P : TileDef → Type 0) (k : TileDef → ℕ × ℕ) (ts : List TileDef) (t : TileDef)
    → All P ts
    → min_by_key k ts ≡ some t
    → P t
unfolding min_by_key
min_by_key-All P k [] t h e = cc
min_by_key-All P k (u ∷ ts) t h e =
    let e' : least k u ts ≡ t = cc in rw (← e') (least-All P k u ts h.0 h.1)

-- What the candidates of a move have in common.
record IsCandidate (l : TileLayout) (from : TileId) (dir : FocusDir) (r : Rect) (t : TileDef)
    : Type 0 where
  there : HasId l.tiles t.id
  another : same_tile t.id from ≡ false
  side : beside dir r t.rect ≡ true

All-candidates :
    (l : TileLayout) (from : TileId) (dir : FocusDir) (r : Rect)
    → All (IsCandidate l from dir r) (candidates l from dir r)
unfolding candidates
All-candidates l from dir r =
    All-imp _ (λ t h. record { there = h.1.1; another = ground (arith, h.1.0); side = h.0 })
      (All-filter_by _ _ _ (All-filter_by _ _ l.tiles (All-HasId l.tiles)))

-- `next_focus` is a choice among the candidates.
abbrev choice : TileLayout → TileId → FocusDir → Rect → Option TileDef
choice l from dir r = min_by_key (λ (t : TileDef). key dir r t.rect) (candidates l from dir r)

next_focus-choice :
    (l : TileLayout) (from : TileId) (dir : FocusDir) (t : TileId)
    → next_focus l from dir ≡ some t
    → (r : Rect) × (d : TileDef) × (choice l from dir r ≡ some d) × (d.id ≡ t)
unfolding next_focus
next_focus-choice l from dir t h = elim (Bool-cases (same_tile from TileId.too_small)) [
  | inl e ↦ cc (rw e at h)
  | inr e ↦
      let (r, er, h₁) =
        >>=-eq-some (rect_of l from) (λ r. do d ← choice l from dir r; some d.id) (rw e at h) in
      let (d, ed, h₂) = >>=-eq-some (choice l from dir r) (λ d. some d.id) h₁ in (r, d, ed, cc h₂)
]

ne_of_same_tile : (a b : TileId) → same_tile a b ≡ false → a ≢ b
ne_of_same_tile a b h e = let p : same_tile a b ≡ true = rw e (same_tile_refl b) in cc (h, p)

-- Whatever the layout, a directional move leads to a tile that the layout shows, and that is not
-- the tile it comes from.
pub next_focus-HasTile :
    (l : TileLayout) (from : TileId) (dir : FocusDir) (t : TileId)
    → next_focus l from dir ≡ some t
    → HasTile l t × (t ≢ from)
next_focus-HasTile l from dir t h =
    let (r, d, ed, e) = next_focus-choice l from dir t h in
    let c : IsCandidate l from dir r d = min_by_key-All _ _ _ d (All-candidates l from dir r) ed in
    let (def, found) = c.there in
    (
      record { def = def; found = rw (← e) (unfold tile in found) },
      rw (← e) (ne_of_same_tile d.id from c.another),
    )

HasTile-step :
    (l : TileLayout) (o later : Option TileId) (t : TileId)
    → (later ≡ some t → HasTile l t)
    → elim o [ none ↦ none | some c ↦ elim (tile l c) [ some _ ↦ some c | none ↦ later ] ] ≡ some t
    → HasTile l t
HasTile-step l none later t ih h = cc
HasTile-step l (some c) later t ih h = elim (Option-cases (tile l c)) [
  | inl e ↦ ih (rw e at h)
  | inr (d, e) ↦ let p : c ≡ t = cc (rw e at h) in record { def = d; found = rw (← p) e }
]

cycle_steps-HasTile :
    (l : TileLayout) (forward : Bool) (start step rounds : ℕ) (t : TileId)
    → cycle_steps l forward start step rounds ≡ some t
    → HasTile l t
unfolding cycle_steps
cycle_steps-HasTile l forward start step zero t h = cc
cycle_steps-HasTile l forward start step (suc rounds) t h =
    HasTile-step l _ (cycle_steps l forward start (step + 1) rounds) t
      (cycle_steps-HasTile l forward start (step + 1) rounds t) h

-- Whatever the layout, the cycle leads to a tile that the layout shows.
pub cycle_focus-HasTile :
    (l : TileLayout) (from : TileId) (forward : Bool) (t : TileId)
    → cycle_focus l from forward ≡ some t
    → HasTile l t
unfolding cycle_focus
cycle_focus-HasTile l from forward t h = elim (Bool-cases (same_tile from TileId.too_small)) [
  | inl e ↦ cc (rw e at h)
  | inr e ↦
      let (start, es, h₁) =
        >>=-eq-some (position (λ id. same_tile id from) cycle_order)
          (λ start. cycle_steps l forward start 1 5) (rw e at h) in
      cycle_steps-HasTile l forward start 1 5 t h₁
]
