-- ===== src/Pane/Ring.antt =====
-- The scrollback ring: `Scrollback` of crates/tepegoz-pty/src/lib.rs.
use tepegoz.Prelude.{
  ℕ, ◌+◌, ◌-◌, ◌≤◌, ◌≡◌, refl, sym, ap, ◌∙◌, List, [], ◌∷◌, ◌++◌, arith, append-nil, append_assoc,
  length, ltb, if◌then◌else◌, is_empty, Bool-cases, inl, inr,
}
use tepegoz.Pane.{Scrollback, new_scrollback, evict, append, concat, snapshot}

abbrev pub total : List (List ℕ) → ℕ
total [] = 0
total (chunk ∷ chunks) = length chunk + total chunks

-- The count is right, and within the capacity.
pub record IsValid (sb : Scrollback) : Type 0 where
  pub counted : sb.total_bytes ≡ total sb.chunks
  pub bounded : sb.total_bytes ≤ sb.capacity

total-append : (xs ys : List (List ℕ)) → total (xs ++ ys) ≡ total xs + total ys
total-append [] ys = omega arith
total-append (x ∷ xs) ys = omega (arith, total-append xs ys)

concat-append : (xs ys : List (List ℕ)) → concat (xs ++ ys) ≡ concat xs ++ concat ys
unfolding concat
concat-append [] ys = refl
concat-append (x ∷ xs) ys = rw (concat-append xs ys, append_assoc)

evict_count :
    (capacity : ℕ) (chunks : List (List ℕ)) (n : ℕ)
    → n ≡ total chunks
    → ((evict capacity chunks n).1 ≡ total (evict capacity chunks n).0)
      × ((evict capacity chunks n).1 ≤ capacity)
unfolding evict
evict_count capacity [] n h = (h, omega arith)
evict_count capacity (chunk ∷ chunks) n h =
    ground (arith, evict_count capacity chunks (n - length chunk))

evict_suffix :
    (capacity : ℕ) (chunks : List (List ℕ)) (n : ℕ)
    → (gone : List (List ℕ)) × (gone ++ (evict capacity chunks n).0 ≡ chunks)
unfolding evict
evict_suffix capacity [] n = ([], refl)
evict_suffix capacity (chunk ∷ chunks) n = elim (Bool-cases (ltb capacity n)) [
  | inl e ↦
      let (gone, p) = evict_suffix capacity chunks (n - length chunk) in
      (chunk ∷ gone, rw e (ap (λ l. chunk ∷ l) p))
  | inr e ↦ ([], rw e)
]

evict_longest :
    (capacity : ℕ) (gone kept : List (List ℕ)) (n : ℕ)
    → n ≡ total (gone ++ kept)
    → total kept ≤ capacity
    → total kept ≤ (evict capacity (gone ++ kept) n).1
unfolding evict
evict_longest capacity [] [] n h k = omega arith
evict_longest capacity [] (chunk ∷ kept) n h k = ground arith
evict_longest capacity (chunk ∷ gone) kept n h k =
    ground (arith, total-append gone kept, evict_longest capacity gone kept (n - length chunk))

evict_fits :
    (capacity : ℕ) (chunks : List (List ℕ)) (last : List ℕ) (n : ℕ)
    → n ≡ total (chunks ++ last ∷ [])
    → length last ≤ capacity
    → (kept : List (List ℕ)) × ((evict capacity (chunks ++ last ∷ []) n).0 ≡ kept ++ last ∷ [])
unfolding evict
evict_fits capacity [] last n h fits = ([], ground arith)
evict_fits capacity (chunk ∷ chunks) last n h fits = elim (Bool-cases (ltb capacity n)) [
  | inl e ↦
      let (kept, p) = evict_fits capacity chunks last (n - length chunk) (omega arith) fits in
      (kept, rw e p)
  | inr e ↦ (chunk ∷ chunks, rw e)
]

append_lem :
    (sb : Scrollback) (b : ℕ) (bs : List ℕ)
    → append sb (b ∷ bs) ≡ (
        let r = evict sb.capacity (sb.chunks ++ (b ∷ bs) ∷ []) (sb.total_bytes + length (b ∷ bs)) in
        record { chunks = r.0; total_bytes = r.1; capacity = sb.capacity })
unfolding append
append_lem sb b bs = refl

pushed_count :
    (sb : Scrollback) (bytes : List ℕ)
    → IsValid sb
    → sb.total_bytes + length bytes ≡ total (sb.chunks ++ bytes ∷ [])
pushed_count sb bytes v = omega (arith, total-append sb.chunks (bytes ∷ []), v.counted)

-- Every append keeps the byte count right and within the capacity.
pub append-IsValid : (sb : Scrollback) (bytes : List ℕ) → IsValid sb → IsValid (append sb bytes)
append-IsValid sb [] v = unfold append in v
append-IsValid sb (b ∷ bs) v =
    let (counted, bounded) = evict_count sb.capacity _ _ (pushed_count sb (b ∷ bs) v) in
    rw (append_lem sb b bs) (record { counted = counted; bounded = bounded })

pub new_scrollback-IsValid : (capacity : ℕ) → IsValid (new_scrollback capacity)
unfolding new_scrollback
new_scrollback-IsValid capacity = omega arith

concat_if : (l : List (List ℕ)) → (if is_empty l then [] else concat l) ≡ concat l
unfolding concat
concat_if [] = refl
concat_if (c ∷ l) = refl

snapshot_lem : (sb : Scrollback) → snapshot sb ≡ concat sb.chunks
unfolding snapshot
snapshot_lem sb = concat_if sb.chunks

concat-push :
    (chunks : List (List ℕ)) (bytes : List ℕ)
    → concat (chunks ++ bytes ∷ []) ≡ concat chunks ++ bytes
unfolding concat
concat-push chunks bytes =
    concat-append chunks (bytes ∷ []) ∙ ap (λ l. concat chunks ++ l) (append-nil bytes)

-- After an append the snapshot is what it was, followed by the new bytes, with some bytes dropped
-- from the front.
pub snapshot-append :
    (sb : Scrollback) (bytes : List ℕ)
    → (gone : List ℕ) × (gone ++ snapshot (append sb bytes) ≡ snapshot sb ++ bytes)
snapshot-append sb [] = ([], unfold append in sym (append-nil (snapshot sb)))
snapshot-append sb (b ∷ bs) =
    let pushed = sb.chunks ++ (b ∷ bs) ∷ [] in
    let (gone, p) = evict_suffix sb.capacity pushed (sb.total_bytes + length (b ∷ bs)) in
    (
      concat gone,
      rw (append_lem sb b bs, snapshot_lem)
          (sym (concat-append gone _)
            ∙ (ap concat p
                ∙ (concat-push sb.chunks (b ∷ bs)
                    ∙ sym (ap (λ l. l ++ b ∷ bs) (snapshot_lem sb))))),
    )

-- An append to a ring with a right count within the capacity keeps as much as it can: no run of
-- whole chunks at the end of what was there and a new chunk, which is not empty, is longer than
-- what is kept, if it fits the capacity.
pub append_longest :
    (sb : Scrollback) (b : ℕ) (bs : List ℕ) (gone kept : List (List ℕ))
    → IsValid sb
    → gone ++ kept ≡ sb.chunks ++ (b ∷ bs) ∷ []
    → total kept ≤ sb.capacity
    → total kept ≤ (append sb (b ∷ bs)).total_bytes
append_longest sb b bs gone kept v e fits =
    rw (append_lem sb b bs, ← e)
      (evict_longest sb.capacity gone kept (sb.total_bytes + length (b ∷ bs))
        (rw e (pushed_count sb (b ∷ bs) v)) fits)

-- A chunk that fits is the last of the snapshot.
pub append_fits :
    (sb : Scrollback) (bytes : List ℕ)
    → IsValid sb
    → length bytes ≤ sb.capacity
    → (kept : List ℕ) × (snapshot (append sb bytes) ≡ kept ++ bytes)
append_fits sb [] v fits = (snapshot sb, unfold append in sym (append-nil (snapshot sb)))
append_fits sb (b ∷ bs) v fits =
    let (kept, e) = evict_fits sb.capacity sb.chunks (b ∷ bs) _ (pushed_count sb (b ∷ bs) v) fits in
    (concat kept, rw (append_lem sb b bs, snapshot_lem, e) (concat-push kept (b ∷ bs)))
