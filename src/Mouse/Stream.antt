-- ===== src/Mouse/Stream.antt =====
-- How bytes flow through `MouseParser::parse` of mouse.rs.
use tepegoz.Prelude.{ℕ, ◌≡◌, refl, sym, ◌∙◌, ap, List, [], ◌∷◌, ◌++◌, append-nil, append_assoc}
use tepegoz.Mouse.{MouseEvent, MouseState, mouse_turn, read, parse}

abbrev pub Output : Type 0
Output = List ℕ × List MouseEvent × MouseState

-- Two outputs in a row.
abbrev pub joined : Output → Output → Output
joined (o, e, s) (o', e', s') = (o ++ o', e ++ e', s')

joined_assoc : (a b c : Output) → joined (joined a b) c ≡ joined a (joined b c)
joined_assoc (o, e, s) (o', e', s') (o'', e'', s'') = simp append_assoc

read_from :
    (s : MouseState) (out : List ℕ) (events : List MouseEvent) (input : List ℕ)
    → read s out events input ≡ joined (out, events, s) (parse s input)
unfolding read parse
read_from s out events [] = rw (append-nil, append-nil)
read_from s out events (b ∷ input) =
    let (o, e, s') = mouse_turn s b in
    read_from s' (out ++ o) (events ++ e) input
    ∙ (joined_assoc (out, events, s) (o, e, s') (parse s' input)
        ∙ sym (ap (joined (out, events, s)) (read_from s' o e input)))

pub parse-cons :
    (s : MouseState) (b : ℕ) (input : List ℕ)
    → parse s (b ∷ input) ≡ joined (mouse_turn s b) (parse (mouse_turn s b).2 input)
parse-cons s b input =
    let (o, e, s') = mouse_turn s b in unfold parse read in read_from s' o e input

-- Where a stream is cut into chunks makes no difference to the bytes passed on, the events and the
-- state: the parse of two joined chunks is that of the first, then that of the second from the
-- state that the first left.
pub parse-append :
    (s : MouseState) (xs ys : List ℕ)
    → parse s (xs ++ ys) ≡ joined (parse s xs) (parse (parse s xs).2 ys)
parse-append s [] ys = unfold parse read in refl
parse-append s (b ∷ xs) ys =
    let t = mouse_turn s b in
    parse-cons s b (xs ++ ys)
    ∙ (ap (joined t) (parse-append t.2 xs ys)
        ∙ (sym (joined_assoc t (parse t.2 xs) (parse (parse t.2 xs).2 ys))
            ∙ sym (ap (λ (r : Output). joined r (parse r.2 ys)) (parse-cons s b xs))))
