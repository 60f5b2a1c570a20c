-- ===== src/Expression/Postfix.antt =====
-- breUtils/NifixExpression.hpp: `cal_s` on the postfix text of an expression.
use bre_utils.Prelude.{
  ℕ, zero, suc, ◌+◌, ◌-◌, ◌*◌, ◌≤◌, ◌<◌, ◌^◌, true, false, List, [], ◌∷◌, ◌++◌, Bytes, replicate,
  leb, ◌==◌, lt→ltb, ℤ, pos, negsuc, is_digit, IsDigit, All, decimal_value, to_decimal,
  to_decimal-IsDigit, decimal_value-to_decimal, Result, ok, err, ◌>>=◌, append_assoc, ◌≡◌, ◌≢◌,
  refl, subst, sym, ap, ◌∙◌, arith,
}
use bre_utils.Expression.{Error, operate, next_digit, cal_char, cal_chars, cal_s, first_value}

le→leb : (a b : ℕ) → a ≤ b → leb a b ≡ true
le→leb a b h = ground arith

ne→== : (a b : ℕ) → a ≢ b → (a == b) ≡ false
ne→== a b h = ground arith

-- An expression, its value by the operations of the code, and its text with each operator behind its
-- operands.
pub data Expr : Type 0 where
  number : ℕ → Expr
  apply : ℕ → Expr → Expr → Expr

unfoldable pub value : Expr → Result Error ℤ
unfolding operate
value (number n) = ok (pos n)
value (apply c l r) = value l >>= λ a. value r >>= λ b. operate c a b

unfoldable pub postfix : Expr → Bytes
postfix (number n) = to_decimal n ++ (b' ' ∷ [])
postfix (apply c l r) = postfix l ++ (postfix r ++ (c ∷ b' ' ∷ []))

-- The numbers stay in the range while they are read, and the operators are neither digits nor spaces.
abbrev pub IsReadable : Expr → Type 0
IsReadable (number n) = n + b'0' < 2 ^ 31
IsReadable (apply c l r) = (is_digit c ≡ false) × (c ≢ b' ') × IsReadable l × IsReadable r

decimal_value-le : (ds : Bytes) (n : ℕ) → n ≤ decimal_value n ds
decimal_value-le [] n = omega arith
decimal_value-le (c ∷ ds) n = omega (arith, decimal_value-le ds (n * 10 + (c - b'0')))

next_digit_lem :
    (n c : ℕ)
    → IsDigit c
    → n * 10 + (c - b'0') + b'0' < 2 ^ 31
    → next_digit (pos n) c ≡ ok (pos (n * 10 + (c - b'0')))
unfolding next_digit
next_digit_lem n c (h, k) le =
    let ten = lt→ltb (n * 10) (2 ^ 31) (omega arith) in
    let sum = lt→ltb (n * 10 + c) (2 ^ 31) (omega arith) in
    let less = le→leb b'0' (n * 10 + c) (omega arith) in
    let digit = lt→ltb (n * 10 + c - b'0') (2 ^ 31) (omega arith) in
    rw (ten, sum, less, digit)
      (ap (λ k. ok (pos k)) {x = n * 10 + c - b'0'} {y = n * 10 + (c - b'0')} (omega arith))

pub is_digit_lem : (c : ℕ) → IsDigit c → is_digit c ≡ true
is_digit_lem c (h, k) = ground (arith, h, k)

cal_chars-digits :
    (ds rest : Bytes) (stack : List ℤ) (n : ℕ)
    → All IsDigit ds
    → decimal_value n ds + b'0' < 2 ^ 31
    → cal_chars (ds ++ rest) stack (pos n) ≡ cal_chars rest stack (pos (decimal_value n ds))
unfolding cal_chars cal_char
cal_chars-digits [] rest stack n h le = refl
cal_chars-digits (c ∷ ds) rest stack n (h, hs) le =
    let small : n * 10 + (c - b'0') + b'0' < 2 ^ 31 =
      omega (arith, le, decimal_value-le ds (n * 10 + (c - b'0'))) in
    rw (is_digit_lem c h, next_digit_lem n c h small)
      (cal_chars-digits ds rest stack (n * 10 + (c - b'0')) hs le)

cal_chars-space :
    (rest : Bytes) (stack : List ℤ) (tmp : ℤ)
    → cal_chars (b' ' ∷ rest) stack tmp ≡ cal_chars rest (tmp ∷ stack) (pos 0)
unfolding cal_chars cal_char
cal_chars-space rest stack tmp = refl

after_operator :
    (m : Result Error ℤ) (rest : Bytes) (stack : List ℤ)
    → ((m >>= λ tmp. ok (stack, tmp)) >>= λ (left, next). cal_chars (b' ' ∷ rest) left next)
      ≡ (m >>= λ v. cal_chars rest (v ∷ stack) (pos 0))
after_operator (ok v) rest stack = cal_chars-space rest stack v
after_operator (err e) rest stack = refl

cal_chars-operator :
    (c : ℕ) (rest : Bytes) (a b : ℤ) (stack : List ℤ)
    → is_digit c ≡ false
    → c ≢ b' '
    → cal_chars (c ∷ b' ' ∷ rest) (b ∷ a ∷ stack) (pos 0)
      ≡ (operate c a b >>= λ v. cal_chars rest (v ∷ stack) (pos 0))
unfolding cal_chars cal_char
cal_chars-operator c rest a b stack digit space =
    rw (digit, ne→== c b' ' space) (after_operator (operate c a b) rest stack)

bind_congruence :
    {A B : Type 0} (m : Result Error A) (f g : A → Result Error B)
    → ((a : A) → f a ≡ g a)
    → (m >>= f) ≡ (m >>= g)
bind_congruence (ok a) f g h = h a
bind_congruence (err e) f g h = refl

bind_assoc :
    {A B C : Type 0} (m : Result Error A) (f : A → Result Error B) (g : B → Result Error C)
    → ((m >>= f) >>= g) ≡ (m >>= λ a. f a >>= g)
bind_assoc (ok a) f g = refl
bind_assoc (err e) f g = refl

bind_ok : {A : Type 0} (m : Result Error A) → (m >>= ok) ≡ m
bind_ok (ok a) = refl
bind_ok (err e) = refl

cal_chars-postfix :
    (e : Expr) (rest : Bytes) (stack : List ℤ)
    → IsReadable e
    → cal_chars (postfix e ++ rest) stack (pos 0)
      ≡ (value e >>= λ v. cal_chars rest (v ∷ stack) (pos 0))
unfolding postfix value
cal_chars-postfix (number n) rest stack h =
    let read = decimal_value-to_decimal n (omega (arith, h)) in
    ap (λ t. cal_chars t stack (pos 0)) (append_assoc (to_decimal n) (b' ' ∷ []) rest)
    ∙ cal_chars-digits (to_decimal n) (b' ' ∷ rest) stack 0 (to_decimal-IsDigit n)
        (subst (λ k. k + b'0' < 2 ^ 31) (sym read) h)
    ∙ ap (λ k. cal_chars (b' ' ∷ rest) stack (pos k)) read
    ∙ cal_chars-space rest stack (pos n)
cal_chars-postfix (apply c l r) rest stack (digit, space, hl, hr) =
    let tail = c ∷ b' ' ∷ rest in
    let text : postfix (apply c l r) ++ rest ≡ postfix l ++ (postfix r ++ tail) =
      append_assoc (postfix l) (postfix r ++ (c ∷ b' ' ∷ [])) rest
      ∙ ap (λ t. postfix l ++ t) (append_assoc (postfix r) (c ∷ b' ' ∷ []) rest) in
    ap (λ t. cal_chars t stack (pos 0)) text
    ∙ cal_chars-postfix l (postfix r ++ tail) stack hl
    ∙ bind_congruence (value l) _ _ (λ a.
      cal_chars-postfix r tail (a ∷ stack) hr
      ∙ bind_congruence (value r) _ _ (λ b. cal_chars-operator c rest a b stack digit space)
      ∙ sym (bind_assoc (value r) (λ b. operate c a b) (λ v. cal_chars rest (v ∷ stack) (pos 0))))
    ∙ sym (
        bind_assoc (value l) (λ a. value r >>= λ b. operate c a b)
          (λ v. cal_chars rest (v ∷ stack) (pos 0)))

cal_chars-spaces :
    (n : ℕ) (stack : List ℤ)
    → (cal_chars (replicate n b' ') stack (pos 0) >>= λ left. ok (first_value left))
      ≡ ok (first_value stack)
unfolding cal_chars cal_char
cal_chars-spaces zero stack = refl
cal_chars-spaces (suc n) stack = cal_chars-spaces n (pos 0 ∷ stack)

first_value-one : (v : ℤ) → first_value (v ∷ []) ≡ v
first_value-one (pos n) = ground arith
first_value-one (negsuc n) = ground arith

-- The postfix text of an expression, with the spaces that fill the buffer behind it, evaluates to the
-- expression's value or to its error.
pub cal_s-postfix :
    (e : Expr) (spaces : ℕ) → IsReadable e → cal_s (postfix e ++ replicate spaces b' ') ≡ value e
unfolding cal_s
cal_s-postfix e spaces h =
    ap (λ m. m >>= λ stack. ok (first_value stack))
      (cal_chars-postfix e (replicate spaces b' ') [] h)
    ∙ bind_assoc (value e) _ _
    ∙ bind_congruence (value e) _ ok
        (λ v. cal_chars-spaces spaces (v ∷ []) ∙ ap ok (first_value-one v))
    ∙ bind_ok (value e)
