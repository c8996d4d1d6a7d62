-- ===== src/Mouse/Reports.antt =====
-- What a mouse report that the terminal sends comes to: mouse.rs, `parse` and `parse_sgr_params`.
use tepegoz.Prelude.{
  ℕ, ◌+◌, ◌-◌, ◌≤◌, ◌≡◌, ◌≢◌, refl, ◌∙◌, ap, Bool, some, List, [], ◌∷◌, ◌++◌, arith, append-nil,
  append_assoc, All, All-append, ◌==◌,
}
use tepegoz.Text.{split, u16_max, u32_max, to_string}
use tepegoz.Text.Split.{split-cons, split-one}
use tepegoz.Text.Ascii.{from_utf8-ascii}
use tepegoz.Text.Decimal.{IsDigit, to_string_digits, parse_u32-to_string}
use tepegoz.Mouse.{
  idle, params, mouse_turn, parse, to_list, event_of, parse_sgr_params, try_u16, esc, csi_open,
  sgr_marker, sgr_press, read,
}
use tepegoz.Mouse.Stream.{Output, joined, parse-cons}
use tepegoz.Mouse.Stripped.{NotFinal, IsFinal}

-- `Cb;Cx;Cy` for the cell (x, y): the terminal counts columns and rows from 1.
abbrev pub fields : ℕ → ℕ → ℕ → List ℕ
fields cb x y = to_string cb ++ b';' ∷ (to_string (x + 1) ++ b';' ∷ to_string (y + 1))

abbrev pub report : ℕ → ℕ → ℕ → ℕ → List ℕ
report cb x y final = esc ∷ csi_open ∷ sgr_marker ∷ fields cb x y ++ final ∷ []

All-imp : {P Q : ℕ → Type 0} (l : List ℕ) → ((b : ℕ) → P b → Q b) → All P l → All Q l
All-imp [] f h = tt
All-imp (b ∷ l) f h = (f b h.0, All-imp l f h.1)

to_string-IsDigit : (n : ℕ) → All IsDigit (to_string n)
to_string-IsDigit n = let (b, bs, e, all) = to_string_digits n in rw e all

mouse_turn-params :
    (buf : List ℕ) (b : ℕ)
    → NotFinal b
    → mouse_turn (params buf) b ≡ ([], [], params (buf ++ b ∷ []))
unfolding mouse_turn
mouse_turn-params buf b h = ground (arith, h.0, h.1)

mouse_turn-final :
    (buf : List ℕ) (b : ℕ)
    → IsFinal b
    → mouse_turn (params buf) b ≡ ([], to_list (parse_sgr_params buf (b == sgr_press)), idle)
unfolding mouse_turn
mouse_turn-final buf b h = ground arith

parse-params :
    (buf bs rest : List ℕ)
    → All NotFinal bs
    → parse (params buf) (bs ++ rest) ≡ parse (params (buf ++ bs)) rest
parse-params buf [] rest h = rw append-nil
parse-params buf (b ∷ bs) rest h =
    parse-cons (params buf) b (bs ++ rest)
    ∙ (ap (λ (t : Output). joined t (parse t.2 (bs ++ rest))) (mouse_turn-params buf b h.0)
        ∙ (parse-params (buf ++ b ∷ []) bs rest h.1
            ∙ ap (λ l. parse (params l) rest) (append_assoc buf (b ∷ []) bs)))

All-fields :
    {P : ℕ → Type 0} (cb x y : ℕ) → ((b : ℕ) → IsDigit b → P b) → P b';' → All P (fields cb x y)
All-fields {P} cb x y f p = All-append P (to_string cb) _ (All-imp _ f (to_string-IsDigit cb)) (
  p,
  All-append P (to_string (x + 1)) _ (All-imp _ f (to_string-IsDigit (x + 1)))
      (p, All-imp _ f (to_string-IsDigit (y + 1))),
)

split-fields :
    (cb x y : ℕ)
    → split b';' (fields cb x y) ≡ to_string cb ∷ to_string (x + 1) ∷ to_string (y + 1) ∷ []
split-fields cb x y =
    split-cons b';' (to_string cb) _ (no_semicolon cb)
    ∙ (ap (λ l. to_string cb ∷ l) (split-cons b';' (to_string (x + 1)) _ (no_semicolon (x + 1)))
        ∙ ap (λ l. to_string cb ∷ to_string (x + 1) ∷ l)
            (split-one b';' (to_string (y + 1)) (no_semicolon (y + 1))))
  where
    no_semicolon : (n : ℕ) → All (λ b. b ≢ b';') (to_string n)
    no_semicolon n = All-imp _ (λ b h. omega arith) (to_string-IsDigit n)

try_u16_pred : (n : ℕ) → n ≤ u16_max → try_u16 (n + 1 - 1) ≡ some n
unfolding try_u16
try_u16_pred n h = let e : n + 1 - 1 ≡ n = omega arith in rw e (ground arith)

parse_sgr_params-fields :
    (cb x y : ℕ) (is_press : Bool)
    → cb ≤ u32_max
    → x ≤ u16_max
    → y ≤ u16_max
    → parse_sgr_params (fields cb x y) is_press ≡ event_of cb is_press x y
unfolding parse_sgr_params
parse_sgr_params-fields cb x y is_press hc hx hy =
    rw (from_utf8-ascii (fields cb x y) (All-fields cb x y (λ b h. omega arith) (omega arith))) (
      rw (split-fields cb x y) (
        rw
          (
            parse_u32-to_string cb hc,
            parse_u32-to_string (x + 1) (omega arith),
            parse_u32-to_string (y + 1) (omega arith),
          )
          (rw (try_u16_pred x hx, try_u16_pred y hy) refl)))

-- A report of a cell with 16-bit coordinates, in its decimal form and with any 32-bit button code,
-- is taken out of the stream whole and gives the event of that cell: a hover if the motion bit is
-- set, else nothing for the wheel, else a click for a press of the left button, else nothing.
pub parse-report :
    (cb x y final : ℕ)
    → IsFinal final
    → cb ≤ u32_max
    → x ≤ u16_max
    → y ≤ u16_max
    → parse idle (report cb x y final) ≡ ([], to_list (event_of cb (final == sgr_press) x y), idle)
parse-report cb x y final hf hc hx hy =
    open_report (fields cb x y ++ final ∷ [])
    ∙ (parse-params [] (fields cb x y) (final ∷ [])
          (All-fields cb x y (λ b h. (omega arith, omega arith)) (omega arith, omega arith))
        ∙ (parse-cons (params (fields cb x y)) final []
            ∙ (ap (λ (t : Output). joined t (parse t.2 []))
                  (mouse_turn-final (fields cb x y) final hf)
                ∙ (unfold parse read in
                    simp append-nil (
                      ap (λ o. ([], to_list o, idle))
                        (parse_sgr_params-fields cb x y (final == sgr_press) hc hx hy))))))
  where
    open_report : (l : List ℕ) → parse idle (esc ∷ csi_open ∷ sgr_marker ∷ l) ≡ parse (params []) l
    open_report l = unfold parse read mouse_turn in refl
