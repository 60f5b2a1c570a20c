-- ===== src/Expression.antt =====
-- breUtils/NifixExpression.hpp: `NifixExpression`. `str2` is the text that is written so far, and `j` its
-- length; what lies behind it are the spaces of its 100 characters. An `int` that leaves its range, and
-- a place out of the text, are undefined.
pub mod Postfix
pub mod Brackets
pub mod Infix
mod Tests
use bre_utils.Prelude.{
  ℕ, zero, suc, ◌+◌, ◌-◌, ◌*◌, ◌/◌, ◌^◌, Bool, true, false, not, ◌&&◌, ◌||◌, List, [], ◌∷◌, ◌++◌,
  Bytes, length, replicate, ltb, leb, ◌==◌, if◌then◌else◌, ℤ, pos, negsuc, minus, is_digit, Result,
  ok, err, ◌>>=◌,
}

pub data Error : Type 0 where
  undefined insufficient_operands division_by_zero invalid_operator : Error

-- Does the operator on the stack stay below the new one?
unfoldable pub symcmp : ℕ → ℕ → Bool
symcmp a b =
    b == b'('
    || (((b == b'*' || b == b'/') && (a == b'+' || a == b'-' || a == b'('))
        || ((b == b'+' || b == b'-') && a == b'('))

-- `str2[j++] = c`
unfoldable pub write : ℕ → Bytes → Result Error Bytes
write c out = if ltb (length out) 100 then ok (out ++ (c ∷ [])) else err undefined

-- `str2[j - 1]`; there is none before the first character.
abbrev pub last_char : Bytes → Result Error ℕ
last_char [] = err undefined
last_char (c ∷ []) = ok c
last_char (c ∷ d ∷ out) = last_char (d ∷ out)

unfoldable pub write_space : Bytes → Result Error Bytes
unfolding write
write_space out = last_char out >>= λ c. if c == b' ' then ok out else write b' ' out

-- An operator and a space.
unfoldable pub write_operator : ℕ → Bytes → Result Error Bytes
unfolding write
write_operator c out = write c out >>= λ more. write b' ' more

-- The stack down to the opening bracket, which goes too.
unfoldable pub pop_bracket : Bytes → Bytes → Result Error (Bytes × Bytes)
unfolding write_operator
pop_bracket out [] = ok (out, [])
pop_bracket out (top ∷ stack) =
    let more = write_operator top out >>= λ next. pop_bracket next stack in
    if top == b'(' then ok (out, stack) else more

-- The operators that do not stay below the new one.
unfoldable pub pop_higher : ℕ → Bytes → Bytes → Result Error (Bytes × Bytes)
unfolding write_operator symcmp
pop_higher c out [] = ok (out, [])
pop_higher c out (top ∷ stack) =
    let more = write_operator top out >>= λ next. pop_higher c next stack in
    if symcmp top c then ok (out, top ∷ stack) else more

unfoldable pub pop_all : Bytes → Bytes → Result Error Bytes
unfolding write_operator
pop_all out [] = ok out
pop_all out (top ∷ stack) = write_operator top out >>= λ next. pop_all next stack

-- One round of the first loop; `first` is the round of `i == 0`.
unfoldable pub transplant_char : Bool → ℕ → Bytes → Bytes → Result Error (Bytes × Bytes)
unfolding write write_space pop_bracket pop_higher
transplant_char first c out stack =
    if is_digit c
    then (write c out >>= λ next. ok (next, stack))
    else (if first then ok out else write_space out) >>= λ spaced.
        if c == b')'
        then pop_bracket spaced stack
        else (pop_higher c spaced stack >>= λ (next, rest). ok (next, c ∷ rest))

unfoldable pub transplant_chars : Bool → Bytes → Bytes → Bytes → Result Error (Bytes × Bytes)
unfolding transplant_char
transplant_chars first [] out stack = ok (out, stack)
transplant_chars first (c ∷ cs) out stack =
    transplant_char first c out stack >>= λ (next, rest). transplant_chars false cs next rest

unfoldable pub exp_transplant : Bytes → Result Error Bytes
unfolding transplant_chars write_space pop_all
exp_transplant str1 = transplant_chars true str1 [] [] >>= λ (out, stack).
    write_space out >>= λ spaced. pop_all spaced stack

-- `int`
abbrev pub in_int : ℤ → Bool
in_int (pos n) = ltb n (2 ^ 31)
in_int (negsuc n) = ltb n (2 ^ 31)

abbrev pub checked : ℤ → Result Error ℤ
checked i = if in_int i then ok i else err undefined

abbrev pub difference : ℕ → ℕ → ℤ
difference m n = if leb n m then pos (m - n) else minus (n - m)

abbrev pub add : ℤ → ℤ → ℤ
add (pos m) (pos n) = pos (m + n)
add (pos m) (negsuc n) = difference m (suc n)
add (negsuc m) (pos n) = difference n (suc m)
add (negsuc m) (negsuc n) = negsuc (suc (m + n))

abbrev pub negated : ℤ → ℤ
negated (pos n) = minus n
negated (negsuc n) = pos (suc n)

abbrev pub magnitude : ℤ → ℕ
magnitude (pos n) = n
magnitude (negsuc n) = suc n

abbrev pub is_negative : ℤ → Bool
is_negative (pos n) = false
is_negative (negsuc n) = true

-- The sign of a product or a quotient.
abbrev pub signed_by : ℤ → ℤ → ℕ → ℤ
signed_by a b n =
    if is_negative a
    then (if is_negative b then pos n else minus n)
    else (if is_negative b then minus n else pos n)

abbrev pub times : ℤ → ℤ → ℤ
times a b = signed_by a b (magnitude a * magnitude b)

-- The `switch` of `cal_s`.
unfoldable pub operate : ℕ → ℤ → ℤ → Result Error ℤ
operate c a b =
    if c == b'+'
    then checked (add a b)
    else if c == b'-'
    then checked (add a (negated b))
    else if c == b'*'
    then checked (times a b)
    else if c == b'/'
    then (if magnitude b == 0
        then err division_by_zero
        else checked (signed_by a b (magnitude a / magnitude b)))
    else err invalid_operator

-- `tmp * 10 + c - '0'`
unfoldable pub next_digit : ℤ → ℕ → Result Error ℤ
next_digit tmp c = checked (times tmp (pos 10)) >>= λ ten.
    checked (add ten (pos c)) >>= λ sum. checked (add sum (negated (pos b'0')))

abbrev pub operate_top : ℕ → List ℤ → Result Error (List ℤ × ℤ)
operate_top c (operand2 ∷ operand1 ∷ stack) = operate c operand1 operand2 >>= λ tmp. ok (stack, tmp)
operate_top c stack = err insufficient_operands

unfoldable pub cal_char : ℕ → List ℤ → ℤ → Result Error (List ℤ × ℤ)
unfolding next_digit operate
cal_char c stack tmp =
    if is_digit c
    then (next_digit tmp c >>= λ next. ok (stack, next))
    else if c == b' '
    then ok (tmp ∷ stack, pos 0)
    else operate_top c stack

unfoldable pub cal_chars : Bytes → List ℤ → ℤ → Result Error (List ℤ)
unfolding cal_char
cal_chars [] stack tmp = ok stack
cal_chars (c ∷ cs) stack tmp = cal_char c stack tmp >>= λ (rest, next). cal_chars cs rest next

-- The first from the top that is not 0.
abbrev pub first_value : List ℤ → ℤ
first_value [] = pos 0
first_value (v ∷ stack) = if magnitude v == 0 then first_value stack else v

unfoldable pub cal_s : Bytes → Result Error ℤ
unfolding cal_chars
cal_s str = cal_chars str [] (pos 0) >>= λ stack. ok (first_value stack)

-- An exception is printed, and gives 0.
abbrev pub caught : Result Error ℤ → Result Error ℤ
caught (ok v) = ok v
caught (err undefined) = err undefined
caught (err other) = ok (pos 0)

unfoldable pub calculate_expression : Bytes → Result Error ℤ
unfolding exp_transplant cal_s
calculate_expression str =
    caught (exp_transplant str >>= λ out. cal_s (out ++ replicate (100 - length out) b' '))
