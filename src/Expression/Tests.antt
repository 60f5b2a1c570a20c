-- ===== src/Expression/Tests.antt =====
-- breUtils/NifixExpression.hpp: runs.
use bre_utils.Prelude.{codes, pos, negsuc, to_decimal, ok, err, ◌≡◌, refl, arith}
use bre_utils.Expression.{undefined, division_by_zero, exp_transplant, cal_s, calculate_expression}
use bre_utils.Expression.Postfix.{Expr, number, apply, value, postfix}
use bre_utils.Expression.Brackets.{bracketed}
use bre_utils.Expression.Infix.{calculate_expression-infix_text}

exp_transplant-precedence : exp_transplant (codes "10-2*(3+4)") ≡ ok (codes "10 2 3 4 + * - ")
unfolding exp_transplant
exp_transplant-precedence = refl

calculate_expression-precedence : calculate_expression (codes "10-2*(3+4)") ≡ ok (negsuc 3)
unfolding calculate_expression
calculate_expression-precedence = refl

calculate_expression-left : calculate_expression (codes "10-4-3") ≡ ok (pos 3)
unfolding calculate_expression
calculate_expression-left = refl

-- An exception is printed and gives 0.
calculate_expression-zero : calculate_expression (codes "7/0") ≡ ok (pos 0)
unfolding calculate_expression
calculate_expression-zero = refl

-- `str2[j - 1]` is read before the first character.
calculate_expression-brackets : calculate_expression (codes "((1+2))") ≡ err undefined
unfolding calculate_expression
calculate_expression-brackets = refl

cal_s-division : cal_s (codes "7 9 - 0 /     ") ≡ err division_by_zero
unfolding cal_s
cal_s-division = refl

-- (7 - 9) * 12
abbrev product : Expr
product = apply b'*' (apply b'-' (number 7) (number 9)) (number 12)

calculate_expression-infix_text_example :
    calculate_expression (codes "100+(((7)-(9))*(12))") ≡ ok (pos 76)
unfolding bracketed postfix value to_decimal
calculate_expression-infix_text_example =
    calculate_expression-infix_text b'+' 100 product
      (
        refl,
        λ e. absurd (omega (arith, e)),
        omega arith,
        (
          refl,
          λ e. absurd (omega (arith, e)),
          (refl, λ e. absurd (omega (arith, e)), omega arith, omega arith),
          omega arith,
        ),
      )
      (refl, tt, (refl, (refl, tt, tt), tt)) (omega arith)
