-- ===== src/App/Subs.antt =====
-- The subscription ids of the panes and of the requests for panes: they grow from the first pane to
-- the last request.
use tepegoz.Prelude.{ℕ, zero, suc, ◌+◌, ◌≡◌, refl, ap, Option, List, [], ◌∷◌, ◌++◌, arith, map}
use tepegoz.App.{App, PaneEntry, PendingOpen}
use tepegoz.App.Panes.{remove_at, update_at}
use tepegoz.App.Reach.{Increasing, subs_of}
use tepegoz.App.Keeps.{Increasing-weaker, Increasing-fresh}

module _ {Parser : Type 0} where
  pub subs_of-opens :
      (panes : List (PaneEntry Parser)) (opens : List PendingOpen) (o : PendingOpen)
      → subs_of panes (opens ++ o ∷ []) ≡ subs_of panes opens ++ o.sub_id ∷ []
  subs_of-opens [] [] o = refl
  subs_of-opens [] (p ∷ opens) o = ap (λ l. p.sub_id ∷ l) (subs_of-opens [] opens o)
  subs_of-opens (p ∷ panes) opens o = ap (λ l. p.sub_id ∷ l) (subs_of-opens panes opens o)

  -- The oldest request becomes the last pane.
  pub subs_of-opened :
      (panes : List (PaneEntry Parser)) (entry : PaneEntry Parser) (o : PendingOpen)
      (opens : List PendingOpen)
      → entry.sub_id ≡ o.sub_id
      → subs_of (panes ++ entry ∷ []) opens ≡ subs_of panes (o ∷ opens)
  subs_of-opened [] entry o opens e = ap (λ s. s ∷ subs_of {Parser = Parser} [] opens) e
  subs_of-opened (p ∷ panes) entry o opens e =
      ap (λ l. p.sub_id ∷ l) (subs_of-opened panes entry o opens e)

  pub subs_of-map :
      (f : PaneEntry Parser → PaneEntry Parser) (panes : List (PaneEntry Parser))
      (opens : List PendingOpen)
      → ((p : PaneEntry Parser) → (f p).sub_id ≡ p.sub_id)
      → subs_of (map f panes) opens ≡ subs_of panes opens
  subs_of-map f [] opens h = refl
  subs_of-map f (p ∷ panes) opens h = rw (h p, subs_of-map f panes opens h) refl

  pub subs_of-update_at :
      (i : ℕ) (f : PaneEntry Parser → PaneEntry Parser) (panes : List (PaneEntry Parser))
      (opens : List PendingOpen)
      → ((p : PaneEntry Parser) → (f p).sub_id ≡ p.sub_id)
      → subs_of (update_at i f panes) opens ≡ subs_of panes opens
  unfolding update_at
  subs_of-update_at i f [] opens h = refl
  subs_of-update_at zero f (p ∷ panes) opens h = ap (λ s. s ∷ subs_of panes opens) (h p)
  subs_of-update_at (suc i) f (p ∷ panes) opens h =
      ap (λ l. p.sub_id ∷ l) (subs_of-update_at i f panes opens h)

  pub Increasing-remove_at :
      (i lo hi : ℕ) (panes : List (PaneEntry Parser)) (opens : List PendingOpen)
      → Increasing lo (subs_of panes opens) hi
      → Increasing lo (subs_of (remove_at i panes) opens) hi
  unfolding remove_at
  Increasing-remove_at i lo hi [] opens inc = inc
  Increasing-remove_at zero lo hi (p ∷ panes) opens inc =
      Increasing-weaker (suc p.sub_id) lo (subs_of panes opens) hi (omega (arith, inc.0)) inc.1
  Increasing-remove_at (suc i) lo hi (p ∷ panes) opens inc =
      (inc.0, Increasing-remove_at i (suc p.sub_id) hi panes opens inc.1)

  pub Increasing-tail :
      (lo hi : ℕ) (panes : List (PaneEntry Parser)) (o : PendingOpen) (opens : List PendingOpen)
      → Increasing lo (subs_of panes (o ∷ opens)) hi
      → Increasing lo (subs_of panes opens) hi
  Increasing-tail lo hi [] o opens inc =
      Increasing-weaker (suc o.sub_id) lo (subs_of {Parser = Parser} [] opens) hi
        (omega (arith, inc.0)) inc.1
  Increasing-tail lo hi (p ∷ panes) o opens inc =
      (inc.0, Increasing-tail (suc p.sub_id) hi panes o opens inc.1)

  pub Increasing-ask :
      (app : App Parser) (alias : Option (List ℕ))
      → Increasing 1 (subs_of app.pane_stack app.pending_opens) app.next_sub_id
      → Increasing 1
          (subs_of app.pane_stack
            (app.pending_opens ++ record { sub_id = app.next_sub_id; alias = alias } ∷ []))
          (app.next_sub_id + 1)
  Increasing-ask app alias grows =
      rw
        (subs_of-opens app.pane_stack app.pending_opens
          (record { sub_id = app.next_sub_id; alias = alias }))
        (Increasing-fresh 1 (subs_of app.pane_stack app.pending_opens) app.next_sub_id grows)
