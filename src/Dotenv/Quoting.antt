-- ===== src/Dotenv/Quoting.antt =====
-- A value survives QuoteValue and parseValue, and its quoted form fits on one line.
use thimble.Base.{
  ℕ, ◌≡◌, refl, ap, ◌∙◌, inl, inr, true, false, [], ◌∷◌, ◌++◌, ◌==◌, ◌||◌, arith, Bytes, Bool-cases,
  append-nil, append_assoc, all_of, all_of_head, all_of_last, split_last, all_of-append, all_of_imp,
  contains, differs,
}
use thimble.Base.Space.{Solid, solid, trim_space-nil}
use thimble.Errors.{ok}
use thimble.Dotenv.{
  quoted_loop, parse_value, is_safe_rune, is_unquoted_safe, escape_byte, escape, quote_value,
}

quoted_loop-escape_byte :
    (c : ℕ) (rest out : Bytes)
    → quoted_loop (escape_byte c ++ rest) false out ≡ quoted_loop rest false (out ++ (c ∷ []))
unfolding quoted_loop escape_byte
quoted_loop-escape_byte c rest out = ground arith

quoted_loop-escape :
    (v out : Bytes) → quoted_loop (escape v ++ (b'"' ∷ [])) false out ≡ ok (out ++ v)
unfolding escape
quoted_loop-escape [] out = rw append-nil (unfold quoted_loop in rw trim_space-nil)
quoted_loop-escape (c ∷ cs) out =
    ap (λ t. quoted_loop t false out) (append_assoc (escape_byte c) (escape cs) (b'"' ∷ []))
    ∙ quoted_loop-escape_byte c (escape cs ++ (b'"' ∷ [])) out
    ∙ quoted_loop-escape cs (out ++ (c ∷ []))
    ∙ ap ok (append_assoc out (c ∷ []) cs)

safe_solid : (c : ℕ) → is_safe_rune c ≡ true → solid c ≡ true
unfolding is_safe_rune solid contains
safe_solid c h = ground arith

safe_differs_quote : (c : ℕ) → is_safe_rune c ≡ true → differs b'"' c ≡ true
unfolding is_safe_rune contains
safe_differs_quote c h = ground arith

safe_no_line_end :
    (s : Bytes) → all_of is_safe_rune s ≡ true → contains (λ c. c == b'\r' || c == b'\n') s ≡ false
unfolding is_safe_rune contains all_of
safe_no_line_end [] h = refl
safe_no_line_end (c ∷ cs) h = ground (arith, safe_no_line_end cs)

parse_safe :
    (c : ℕ) (cs : Bytes) → all_of is_safe_rune (c ∷ cs) ≡ true → parse_value (c ∷ cs) ≡ ok (c ∷ cs)
unfolding parse_value
parse_safe c cs h =
    rw (safe_differs_quote c (all_of_head is_safe_rune c cs h)) (rw (safe_no_line_end (c ∷ cs) h))

-- The value that is read from a quoted value is the value that was quoted.
pub parse_value-quote_value : (v : Bytes) → parse_value (quote_value v) ≡ ok v
unfolding parse_value quote_value
parse_value-quote_value [] = unfold quoted_loop in rw trim_space-nil
parse_value-quote_value (c ∷ cs) = elim (Bool-cases (is_unquoted_safe (c ∷ cs))) [
  | inl safe ↦ rw safe (parse_safe c cs safe)
  | inr other ↦ rw other (quoted_loop-escape (c ∷ cs) [])
]

pub quote_value-Solid : (v : Bytes) → Solid (quote_value v)
unfolding quote_value
quote_value-Solid [] = record {
  head = b'"';
  tail = b'"' ∷ [];
  body = b'"' ∷ [];
  last = b'"';
  from_head = refl;
  to_last = refl;
  head_solid = unfold solid in refl;
  last_solid = unfold solid in refl;
}
quote_value-Solid (c ∷ cs) = elim (Bool-cases (is_unquoted_safe (c ∷ cs))) [
  | inl safe ↦
      let (body, d, p) = split_last c cs in
      record {
        head = c;
        tail = cs;
        body = body;
        last = d;
        from_head = rw safe;
        to_last = rw safe p;
        head_solid = safe_solid c (all_of_head is_safe_rune c cs safe);
        last_solid = safe_solid d (all_of_last is_safe_rune body d (rw p at safe));
      }
  | inr other ↦ record {
    head = b'"';
    tail = escape (c ∷ cs) ++ (b'"' ∷ []);
    body = b'"' ∷ escape (c ∷ cs);
    last = b'"';
    from_head = rw other;
    to_last = rw other;
    head_solid = unfold solid in refl;
    last_solid = unfold solid in refl;
  }
]

differs_newline_escape_byte : (c : ℕ) → all_of (differs b'\n') (escape_byte c) ≡ true
unfolding escape_byte all_of
differs_newline_escape_byte c = ground arith

no_newline_escape : (v : Bytes) → all_of (differs b'\n') (escape v) ≡ true
unfolding escape
no_newline_escape [] = unfold all_of in refl
no_newline_escape (c ∷ cs) =
    rw (all_of-append (differs b'\n') (escape_byte c) (escape cs))
      (rw (differs_newline_escape_byte c) (no_newline_escape cs))

no_newline_quoted : (v : Bytes) → all_of (differs b'\n') (b'"' ∷ (escape v ++ (b'"' ∷ []))) ≡ true
no_newline_quoted v =
    unfold all_of in
    rw (all_of-append (differs b'\n') (escape v) (b'"' ∷ [])) (rw (no_newline_escape v))

safe_differs_newline : (c : ℕ) → is_safe_rune c ≡ true → differs b'\n' c ≡ true
unfolding is_safe_rune contains
safe_differs_newline c h = ground arith

pub no_newline_quote_value : (v : Bytes) → all_of (differs b'\n') (quote_value v) ≡ true
unfolding quote_value
no_newline_quote_value [] = unfold all_of in refl
no_newline_quote_value (c ∷ cs) = elim (Bool-cases (is_unquoted_safe (c ∷ cs))) [
  | inl safe ↦ rw safe (all_of_imp is_safe_rune (differs b'\n') safe_differs_newline (c ∷ cs) safe)
  | inr other ↦ rw other (no_newline_quoted (c ∷ cs))
]
