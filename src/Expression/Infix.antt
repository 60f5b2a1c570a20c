-- ===== src/Expression/Infix.antt =====
-- breUtils/NifixExpression.hpp: the value of an expression that is written with its brackets.
use bre_utils.Prelude.{
  ℕ, ◌-◌, ◌≤◌, ◌<◌, true, false, [], ◌∷◌, ◌++◌, Bytes, length, length-append, is_digit, IsDigit,
  All, to_decimal, to_decimal-starts, starts, to_decimal-IsDigit, ok, append_assoc, append-nil, ◌≡◌,
  sym, ap, ◌∙◌, arith,
}
use bre_utils.Expression.{
  pop_higher, pop_all, transplant_char, transplant_chars, exp_transplant, caught,
  calculate_expression,
}
use bre_utils.Expression.Postfix.{Expr, number, apply, value, postfix, IsReadable, cal_s-postfix}
use bre_utils.Expression.Brackets.{
  bracketed, is_operator, HasOperators, last_char-append, postfix-EndsInSpace,
  write_space-EndsInSpace, write_operator_lem, transplant-digit, transplant-digits,
  write_space-digits, transplant-bracketed,
}

transplant-first_number :
    (ds rest : Bytes)
    → starts is_digit ds ≡ true
    → All IsDigit ds
    → length ds ≤ 100
    → transplant_chars true (ds ++ rest) [] [] ≡ transplant_chars false rest ds []
transplant-first_number [] rest h k le = absurd cc
transplant-first_number (c ∷ ds) rest h (k, ks) le =
    transplant-digit true c (ds ++ rest) [] [] k (omega arith)
    ∙ transplant-digits ds rest (c ∷ []) [] ks (omega (arith, le))

transplant-first_operator :
    (c : ℕ) (ds rest : Bytes)
    → is_operator c ≡ true
    → starts is_digit ds ≡ true
    → All IsDigit ds
    → length ds < 100
    → transplant_chars false (c ∷ rest) ds []
      ≡ transplant_chars false rest (ds ++ (b' ' ∷ [])) (c ∷ [])
unfolding transplant_chars transplant_char pop_higher
transplant-first_operator c ds rest o h k le =
    rw (write_space-digits [] ds h k le) (ground (arith, o))

-- The text of an operator between a number and a bracketed expression.
abbrev pub infix_text : ℕ → ℕ → Expr → Bytes
infix_text c n r = to_decimal n ++ (c ∷ bracketed r)

exp_transplant-infix_text :
    (c n : ℕ) (r : Expr)
    → HasOperators (apply c (number n) r)
    → length (postfix (apply c (number n) r)) ≤ 100
    → exp_transplant (infix_text c n r) ≡ ok (postfix (apply c (number n) r))
unfolding exp_transplant transplant_chars pop_all postfix
exp_transplant-infix_text c n r (o, _, hr) le =
    let ds = to_decimal n in
    let first = ds ++ (b' ' ∷ []) in
    let out = first ++ postfix r in
    let tail = c ∷ b' ' ∷ [] in
    let len_1 = length-append ds (b' ' ∷ []) in
    let len_2 = length-append first (postfix r) in
    let len_3 = length-append first (postfix r ++ tail) in
    let len_4 = length-append (postfix r) tail in
    let read : transplant_chars true (infix_text c n r) [] [] ≡ ok (out, c ∷ []) =
      transplant-first_number ds (c ∷ bracketed r) (to_decimal-starts n) (to_decimal-IsDigit n)
        (omega (arith, le, len_1, len_3))
      ∙ transplant-first_operator c ds (bracketed r) o (to_decimal-starts n) (to_decimal-IsDigit n)
          (omega (arith, le, len_1, len_3))
      ∙ ap (λ t. transplant_chars false t first (c ∷ [])) (sym (append-nil (bracketed r)))
      ∙ transplant-bracketed r [] first (c ∷ []) hr (last_char-append ds b' ')
          (omega (arith, le, len_3, len_4)) in
    rw
      (
        read,
        write_space-EndsInSpace out (postfix-EndsInSpace first r),
        write_operator_lem c out (omega (arith, le, len_2, len_3, len_4)),
      )
      (ap ok (append_assoc first (postfix r) tail))

-- A number, an operator and an expression with all its brackets evaluate to what the tree of it does;
-- its exceptions give 0. The numbers are small enough to be read, the operators are the four that
-- there are, and the postfix text fits the buffer.
pub calculate_expression-infix_text :
    (c n : ℕ) (r : Expr)
    → IsReadable (apply c (number n) r)
    → HasOperators (apply c (number n) r)
    → length (postfix (apply c (number n) r)) ≤ 100
    → calculate_expression (infix_text c n r) ≡ caught (value (apply c (number n) r))
unfolding calculate_expression
calculate_expression-infix_text c n r readable h le = rw (exp_transplant-infix_text c n r h le) (
    ap caught (
      cal_s-postfix (apply c (number n) r) (100 - length (postfix (apply c (number n) r)))
        readable))
