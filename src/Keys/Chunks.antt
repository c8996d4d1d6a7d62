-- ===== src/Keys/Chunks.antt =====
-- Chunks of key presses: `ScopeKeyParser::parse` of crates/tepegoz-tui/src/app.rs, call after call.
use tepegoz.Prelude.{
  ℕ, ◌+◌, ◌≤◌, ◌≡◌, refl, sym, ap, ◌∙◌, List, [], ◌∷◌, ◌++◌, append_assoc, arith, length,
  length-append,
}
use tepegoz.Keys.{
  ScopeKey, escape, KeyParserState, normal, in_escape, in_csi, key_turn, csi_turn, tilde, read_keys,
  flush_escape, parse_keys,
}

abbrev pub Keys : Type 0
Keys = List ScopeKey × KeyParserState

-- A parser that is between two calls.
abbrev pub Settled : KeyParserState → Type 0
Settled in_escape = ⊥
Settled normal = Unit
Settled (in_csi accum) = Unit

abbrev pub resume_keys : Keys → (KeyParserState → Keys) → Keys
resume_keys (keys, st) f = (keys ++ (f st).0, (f st).1)

pub read_keys-append :
    (st : KeyParserState) (xs ys : List ℕ)
    → read_keys st (xs ++ ys) ≡ resume_keys (read_keys st xs) (λ st'. read_keys st' ys)
unfolding read_keys
read_keys-append st [] ys = refl
read_keys-append st (b ∷ xs) ys =
    let turn = key_turn st b in rw (read_keys-append turn.1 xs ys, append_assoc) refl

flush_escape-Settled : (r : Keys) → Settled (flush_escape r).1
unfolding flush_escape
flush_escape-Settled (keys, normal) = tt
flush_escape-Settled (keys, in_escape) = tt
flush_escape-Settled (keys, in_csi accum) = tt

flush_escape-rest : (r : Keys) → Settled r.1 → flush_escape r ≡ r
unfolding flush_escape
flush_escape-rest (keys, normal) h = refl
flush_escape-rest (keys, in_escape) h = absurd h
flush_escape-rest (keys, in_csi accum) h = refl

flush_escape-after :
    (keys : List ScopeKey) (r : Keys)
    → flush_escape (keys ++ r.0, r.1) ≡ (keys ++ (flush_escape r).0, (flush_escape r).1)
unfolding flush_escape
flush_escape-after keys (more, normal) = refl
flush_escape-after keys (more, in_escape) = rw append_assoc refl
flush_escape-after keys (more, in_csi accum) = refl

flush_escape-resume :
    (r : Keys) (f : KeyParserState → Keys)
    → flush_escape (resume_keys r f) ≡ resume_keys r (λ st. flush_escape (f st))
unfolding flush_escape
flush_escape-resume (keys, st) f = flush_escape-after keys (f st)

-- No call leaves the parser on an ESC.
pub parse_keys-Settled : (st : KeyParserState) (bytes : List ℕ) → Settled (parse_keys st bytes).1
unfolding parse_keys
parse_keys-Settled st bytes = flush_escape-Settled (read_keys st bytes)

-- A cut between two chunks makes no difference unless it falls right after an ESC: two calls give
-- the keys and the state that one call gives on the joined chunk.
pub parse_keys-append :
    (st : KeyParserState) (xs ys : List ℕ)
    → Settled (read_keys st xs).1
    → parse_keys st (xs ++ ys) ≡ resume_keys (parse_keys st xs) (λ st'. parse_keys st' ys)
unfolding parse_keys
parse_keys-append st xs ys h =
    ap flush_escape (read_keys-append st xs ys)
    ∙ (flush_escape-resume (read_keys st xs) (λ st'. read_keys st' ys)
        ∙ ap (λ r. resume_keys r (λ st'. flush_escape (read_keys st' ys)))
            (sym (flush_escape-rest (read_keys st xs) h)))

-- A press that is held back.
abbrev held : KeyParserState → ℕ
held normal = 0
held in_escape = 1
held (in_csi accum) = 0

tilde-length : (accum : List ℕ) → length (tilde accum) ≤ 1
unfolding tilde
tilde-length [] = omega arith
tilde-length (b ∷ []) = ground arith
tilde-length (b ∷ c ∷ bs) = omega arith

csi_turn-length :
    (accum : List ℕ) (b : ℕ) → length (csi_turn accum b).0 + held (csi_turn accum b).1 ≤ 1
unfolding csi_turn
csi_turn-length accum b = ground (arith, tilde-length accum)

key_turn-length :
    (st : KeyParserState) (b : ℕ) → length (key_turn st b).0 + held (key_turn st b).1 ≤ held st + 1
unfolding key_turn
key_turn-length normal b = ground arith
key_turn-length in_escape b = ground arith
key_turn-length (in_csi accum) b = csi_turn-length accum b

read_keys-length :
    (st : KeyParserState) (bytes : List ℕ)
    → length (read_keys st bytes).0 + held (read_keys st bytes).1 ≤ held st + length bytes
unfolding read_keys
read_keys-length st [] = omega arith
read_keys-length st (b ∷ bytes) =
    let turn = key_turn st b in
    rw length-append (omega (arith, key_turn-length st b, read_keys-length turn.1 bytes))

flush_escape-length : (r : Keys) → length (flush_escape r).0 ≡ length r.0 + held r.1
unfolding flush_escape
flush_escape-length (keys, normal) = omega arith
flush_escape-length (keys, in_escape) = length-append keys (escape ∷ [])
flush_escape-length (keys, in_csi accum) = omega arith

Settled-held : (st : KeyParserState) → Settled st → held st ≡ 0
Settled-held normal h = refl
Settled-held in_escape h = absurd h
Settled-held (in_csi accum) h = refl

-- A call of a parser that holds back no ESC gives at most one key for each byte.
pub parse_keys-length :
    (st : KeyParserState) (bytes : List ℕ)
    → Settled st
    → length (parse_keys st bytes).0 ≤ length bytes
unfolding parse_keys
parse_keys-length st bytes h =
    omega (
      arith,
      flush_escape-length (read_keys st bytes),
      read_keys-length st bytes,
      Settled-held st h,
    )
