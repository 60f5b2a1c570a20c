-- ===== src/Expression/Brackets.antt =====
-- breUtils/NifixExpression.hpp: the translation of an expression with brackets around every part.
use bre_utils.Prelude.{
  ℕ, ◌+◌, ◌≤◌, ◌<◌, Bool, true, false, ◌||◌, [], ◌∷◌, ◌++◌, Bytes, length, length-append, lt→ltb,
  ◌==◌, is_digit, IsDigit, All, to_decimal, to_decimal-starts, starts, to_decimal-IsDigit, ok,
  append_assoc, append-nil, ◌≡◌, refl, subst, sym, ap, ◌∙◌, arith,
}
use bre_utils.Expression.{
  symcmp, write, last_char, write_space, write_operator, pop_bracket, pop_higher, transplant_char,
  transplant_chars,
}
use bre_utils.Expression.Postfix.{Expr, number, apply, postfix, is_digit_lem}

-- The text of an expression with brackets around every part.
unfoldable pub bracketed : Expr → Bytes
bracketed (number n) = b'(' ∷ (to_decimal n ++ (b')' ∷ []))
bracketed (apply c l r) = b'(' ∷ (bracketed l ++ (c ∷ (bracketed r ++ (b')' ∷ []))))

abbrev pub is_operator : ℕ → Bool
is_operator c = c == b'+' || (c == b'-' || (c == b'*' || c == b'/'))

abbrev pub HasOperators : Expr → Type 0
HasOperators (number n) = Unit
HasOperators (apply c l r) = (is_operator c ≡ true) × HasOperators l × HasOperators r

write_lem : (c : ℕ) (out : Bytes) → length out < 100 → write c out ≡ ok (out ++ (c ∷ []))
unfolding write
write_lem c out h = rw (lt→ltb (length out) 100 h) refl

pub last_char-append : (out : Bytes) (c : ℕ) → last_char (out ++ (c ∷ [])) ≡ ok c
last_char-append [] c = refl
last_char-append (b ∷ []) c = refl
last_char-append (b ∷ d ∷ out) c = last_char-append (d ∷ out) c

abbrev pub EndsInSpace : Bytes → Type 0
EndsInSpace out = last_char out ≡ ok b' '

pub postfix-EndsInSpace : (out : Bytes) (e : Expr) → EndsInSpace (out ++ postfix e)
unfolding postfix
postfix-EndsInSpace out (number n) =
    subst EndsInSpace (append_assoc out (to_decimal n) (b' ' ∷ []))
      (last_char-append (out ++ to_decimal n) b' ')
postfix-EndsInSpace out (apply c l r) = subst EndsInSpace (append_assoc out (postfix l) _) (
    subst EndsInSpace (append_assoc (out ++ postfix l) (postfix r) (c ∷ b' ' ∷ [])) (
      subst EndsInSpace (append_assoc ((out ++ postfix l) ++ postfix r) (c ∷ []) (b' ' ∷ []))
        (last_char-append (((out ++ postfix l) ++ postfix r) ++ (c ∷ [])) b' ')))

pub write_space-EndsInSpace : (out : Bytes) → EndsInSpace out → write_space out ≡ ok out
unfolding write_space
write_space-EndsInSpace out h = rw h refl

pub write_operator_lem :
    (c : ℕ) (out : Bytes)
    → length out + 2 ≤ 100
    → write_operator c out ≡ ok (out ++ (c ∷ b' ' ∷ []))
unfolding write_operator
write_operator_lem c out h =
    rw
      (
        write_lem c out (omega (arith, h)),
        write_lem b' ' (out ++ (c ∷ [])) (omega (arith, h, length-append out (c ∷ []))),
        append_assoc out (c ∷ []) (b' ' ∷ []),
      )
      refl

pub transplant-digit :
    (first : Bool) (c : ℕ) (rest out stack : Bytes)
    → IsDigit c
    → length out < 100
    → transplant_chars first (c ∷ rest) out stack
      ≡ transplant_chars false rest (out ++ (c ∷ [])) stack
unfolding transplant_chars transplant_char
transplant-digit first c rest out stack h k = rw (is_digit_lem c h, write_lem c out k) refl

pub transplant-digits :
    (ds rest out stack : Bytes)
    → All IsDigit ds
    → length out + length ds ≤ 100
    → transplant_chars false (ds ++ rest) out stack ≡ transplant_chars false rest (out ++ ds) stack
transplant-digits [] rest out stack h k =
    ap (λ t. transplant_chars false rest t stack) (sym (append-nil out))
transplant-digits (c ∷ ds) rest out stack (h, hs) k =
    transplant-digit false c (ds ++ rest) out stack h (omega (arith, k))
    ∙ transplant-digits ds rest (out ++ (c ∷ [])) stack hs
        (omega (arith, k, length-append out (c ∷ [])))
    ∙ ap (λ t. transplant_chars false rest t stack) (append_assoc out (c ∷ []) ds)

pop_higher-bracket : (out stack : Bytes) → pop_higher b'(' out stack ≡ ok (out, stack)
unfolding pop_higher symcmp
pop_higher-bracket out [] = refl
pop_higher-bracket out (top ∷ stack) = refl

transplant-open :
    (rest out stack : Bytes)
    → EndsInSpace out
    → transplant_chars false (b'(' ∷ rest) out stack
      ≡ transplant_chars false rest out (b'(' ∷ stack)
unfolding transplant_chars transplant_char
transplant-open rest out stack h =
    rw (write_space-EndsInSpace out h, pop_higher-bracket out stack) refl

-- An operator behind an opening bracket.
transplant-operator :
    (c : ℕ) (rest out stack : Bytes)
    → is_operator c ≡ true
    → EndsInSpace out
    → transplant_chars false (c ∷ rest) out (b'(' ∷ stack)
      ≡ transplant_chars false rest out (c ∷ b'(' ∷ stack)
unfolding transplant_chars transplant_char pop_higher symcmp
transplant-operator c rest out stack o h = rw (write_space-EndsInSpace out h) (ground (arith, o))

last_char-digits :
    (out ds : Bytes)
    → starts is_digit ds ≡ true
    → All IsDigit ds
    → (c : ℕ) × (last_char (out ++ ds) ≡ ok c) × IsDigit c
last_char-digits out [] h k = absurd cc
last_char-digits out (c ∷ []) h (k, _) = (c, last_char-append out c, k)
last_char-digits out (c ∷ d ∷ ds) h (_, ks) =
    let (last, e, digit) = last_char-digits (out ++ (c ∷ [])) (d ∷ ds) (is_digit_lem d ks.0) ks in
    (last, ap last_char (sym (append_assoc out (c ∷ []) (d ∷ ds))) ∙ e, digit)

pub write_space-digits :
    (out ds : Bytes)
    → starts is_digit ds ≡ true
    → All IsDigit ds
    → length (out ++ ds) < 100
    → write_space (out ++ ds) ≡ ok ((out ++ ds) ++ (b' ' ∷ []))
unfolding write_space
write_space-digits out ds h k le =
    let (last, e, digit) = last_char-digits out ds h k in
    rw (e, write_lem b' ' (out ++ ds) le) (ground (arith, digit))

transplant-close_number :
    (ds rest out stack : Bytes)
    → starts is_digit ds ≡ true
    → All IsDigit ds
    → length (out ++ ds) < 100
    → transplant_chars false (b')' ∷ rest) (out ++ ds) (b'(' ∷ stack)
      ≡ transplant_chars false rest ((out ++ ds) ++ (b' ' ∷ [])) stack
unfolding transplant_chars transplant_char pop_bracket
transplant-close_number ds rest out stack h k le = rw (write_space-digits out ds h k le) refl

transplant-close_operator :
    (c : ℕ) (rest out stack : Bytes)
    → is_operator c ≡ true
    → EndsInSpace out
    → length out + 2 ≤ 100
    → transplant_chars false (b')' ∷ rest) out (c ∷ b'(' ∷ stack)
      ≡ transplant_chars false rest (out ++ (c ∷ b' ' ∷ [])) stack
unfolding transplant_chars transplant_char pop_bracket
transplant-close_operator c rest out stack o h le =
    rw (write_space-EndsInSpace out h, write_operator_lem c out le) (ground (arith, o))

pub transplant-bracketed :
    (e : Expr) (rest out stack : Bytes)
    → HasOperators e
    → EndsInSpace out
    → length out + length (postfix e) ≤ 100
    → transplant_chars false (bracketed e ++ rest) out stack
      ≡ transplant_chars false rest (out ++ postfix e) stack
unfolding bracketed postfix
transplant-bracketed (number n) rest out stack h s le =
    let ds = to_decimal n in
    let len : length (out ++ ds) < 100 =
      omega (arith, le, length-append out ds, length-append ds (b' ' ∷ [])) in
    ap (λ t. transplant_chars false (b'(' ∷ t) out stack) (append_assoc ds (b')' ∷ []) rest)
    ∙ transplant-open (ds ++ (b')' ∷ rest)) out stack s
    ∙ transplant-digits ds (b')' ∷ rest) out (b'(' ∷ stack) (to_decimal-IsDigit n)
        (omega (arith, len, length-append out ds))
    ∙ transplant-close_number ds rest out stack (to_decimal-starts n) (to_decimal-IsDigit n) len
    ∙ ap (λ t. transplant_chars false rest t stack) (append_assoc out ds (b' ' ∷ []))
transplant-bracketed (apply c l r) rest out stack (o, hl, hr) s le =
    let one = out ++ postfix l in
    let two = one ++ postfix r in
    let tail = c ∷ b' ' ∷ [] in
    let len_l = length-append out (postfix l) in
    let len_r = length-append one (postfix r) in
    let len_e = length-append (postfix l) (postfix r ++ tail) in
    let len_t = length-append (postfix r) tail in
    ap (λ t. transplant_chars false (b'(' ∷ t) out stack)
      (append_assoc (bracketed l) (c ∷ (bracketed r ++ (b')' ∷ []))) rest
        ∙ ap (λ t. bracketed l ++ (c ∷ t)) (append_assoc (bracketed r) (b')' ∷ []) rest))
    ∙ transplant-open _ out stack s
    ∙ transplant-bracketed l _ out (b'(' ∷ stack) hl s (omega (arith, le, len_e))
    ∙ transplant-operator c _ one stack o (postfix-EndsInSpace out l)
    ∙ transplant-bracketed r (b')' ∷ rest) one (c ∷ b'(' ∷ stack) hr (postfix-EndsInSpace out l)
        (omega (arith, le, len_l, len_e, len_t))
    ∙ transplant-close_operator c rest two stack o (postfix-EndsInSpace one r)
        (omega (arith, le, len_l, len_r, len_e, len_t))
    ∙ ap (λ t. transplant_chars false rest t stack)
        (append_assoc one (postfix r) tail ∙ append_assoc out (postfix l) (postfix r ++ tail))
