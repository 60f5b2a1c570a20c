-- ===== src/RedisMgr/Replies.antt =====
-- What the handlers of `RedisMgr` do with an answer is what the tables say.
use bre_utils.Prelude.{
  ℤ, pos, ℕ, zero, suc, ◌≡◌, refl, ap, ◌∙◌, Bool, true, false, Option, none, some, [], ◌∷◌, not,
  Bytes,
}
use bre_utils.RedisMgr.{
  Kind, is_string, is_integer, is_nil, is_status, Reply, Answer, no_reply, replied, Manager,
  Command, pure, ◌>>◌, allocate, text, give_context, free_reply, free_null, continue,
}
use bre_utils.RedisMgr.Handlers.{
  got_string, got_status, got_length, got_element, got_integer, got_value, got_deleted, got_found,
  when, status_ok, deletion,
}
use bre_utils.RedisMgr.Contract.{
  addresses, given, conclude, judged, Handles, field-bind, finish, finish_late, free-bind,
}
use bre_utils.RedisMgr.Verdicts.{
  string_verdict, status_verdict, positive_verdict, element_verdict, integer_verdict, value_verdict,
  found_verdict,
}

abbrev made : Kind → Option Bytes → ℤ → Reply
made kind str integer = record { kind = kind; str = str; integer = integer }

-- A handler that has no reply to look at gives the context back.
module _ {A : Type 0} (default : A) (verdict : Reply → Option A)
    (handler : ℕ → Answer → Command A) where
  handles :
      ((c : ℕ) (n : Manager) → handler c no_reply n ≡ (give_context c >> pure default) n)
      → ((c a : ℕ) (n : Manager) (kind : Kind) (str : Option Bytes) (integer : ℤ)
          → let reply = made kind str integer in
            handler c (replied a reply) (allocate n (replied a reply))
            ≡ conclude (given c (replied a reply) n) (verdict reply))
      → Handles default verdict handler
  unfolding judged conclude given allocate give_context addresses
  handles null body c no_reply n = null c n
  handles null body c (replied a reply) n = body c a n reply.kind reply.str reply.integer

got_string_lem :
    (c a : ℕ) (n : Manager) (kind : Kind) (str : Option Bytes) (integer : ℤ)
    → let reply = made kind str integer in
      got_string c (replied a reply) (allocate n (replied a reply))
      ≡ conclude (given c (replied a reply) n) (string_verdict reply)
unfolding got_string conclude string_verdict text
got_string_lem c a n is_string (some s) i =
    let r = made is_string (some s) i in
    field-bind a _ _ r n ∙ field-bind a _ _ r n ∙ finish a c _ r n
got_string_lem c a n is_string none i =
    let r = made is_string none i in field-bind a _ _ r n ∙ field-bind a _ _ r n
got_string_lem c a n kind str i = let r = made kind str i in field-bind a _ _ r n ∙ finish a c _ r n

pub got_string-Handles : Handles (false, none) string_verdict got_string
unfolding got_string
got_string-Handles = handles _ _ got_string (λ c n. refl) got_string_lem

-- A Boolean result behind the test on it.
tested : ℕ → ℕ → Bool → Command Bool
tested c a fine =
    when (not fine) (free_reply a >> give_context c >> pure false)
      (free_reply a >> give_context c >> pure true)

tested_lem :
    (c a : ℕ) (reply : Reply) (n : Manager) (verdict : Option Bool)
    → continue (conclude (allocate n (replied a reply)) verdict) (tested c a)
      ≡ conclude (given c (replied a reply) n) verdict
unfolding tested conclude
tested_lem c a reply n none = refl
tested_lem c a reply n (some true) = finish a c true reply n
tested_lem c a reply n (some false) = finish a c false reply n

status_ok_lem :
    (a : ℕ) (n : Manager) (kind : Kind) (str : Option Bytes) (integer : ℤ)
    → let reply = made kind str integer in
      status_ok a reply (allocate n (replied a reply))
      ≡ conclude (allocate n (replied a reply)) (status_verdict reply)
unfolding status_ok conclude status_verdict text
status_ok_lem a n is_status (some s) i =
    let r = made is_status (some s) i in field-bind a _ _ r n ∙ field-bind a _ _ r n
status_ok_lem a n is_status none i =
    let r = made is_status none i in field-bind a _ _ r n ∙ field-bind a _ _ r n
status_ok_lem a n kind str i = field-bind a _ _ (made kind str i) n

pub got_status-Handles : Handles false status_verdict got_status
unfolding got_status tested
got_status-Handles =
    handles _ _ got_status (λ c n. refl)
      λ c a n kind str i.
        let r = made kind str i in
        ap (λ o. continue o (tested c a)) (status_ok_lem a n kind str i)
        ∙ tested_lem c a r n (status_verdict r)

deletion_lem :
    (a : ℕ) (n : Manager) (kind : Kind) (str : Option Bytes) (integer : ℤ)
    → let reply = made kind str integer in
      deletion a reply (allocate n (replied a reply))
      ≡ conclude (record n { released = a ∷ n.released }) (positive_verdict reply)
unfolding deletion conclude positive_verdict
deletion_lem a n is_integer str (pos (suc k)) =
    let r = made is_integer str (pos (suc k)) in
    field-bind a _ _ r n ∙ field-bind a _ _ r n ∙ free-bind a _ r n
deletion_lem a n is_integer str i =
    let r = made is_integer str i in field-bind a _ _ r n ∙ field-bind a _ _ r n ∙ free-bind a _ r n
deletion_lem a n kind str i = let r = made kind str i in field-bind a _ _ r n ∙ free-bind a _ r n

given_last :
    (c a : ℕ) (reply : Reply) (n : Manager) (verdict : Option Bool)
    → continue
        (conclude (record n { released = a ∷ n.released }) verdict)
        (λ success. give_context c >> pure success)
      ≡ conclude (given c (replied a reply) n) verdict
unfolding conclude give_context given addresses
given_last c a reply n none = refl
given_last c a reply n (some b) = refl

pub got_deleted-Handles : Handles false positive_verdict got_deleted
unfolding got_deleted
got_deleted-Handles =
    handles _ _ got_deleted (λ c n. refl)
      λ c a n kind str i.
        let r = made kind str i in
        ap (λ o. continue o (λ success. give_context c >> pure success))
          (deletion_lem a n kind str i)
        ∙ given_last c a r n (positive_verdict r)

got_length_lem :
    (c a : ℕ) (n : Manager) (kind : Kind) (str : Option Bytes) (integer : ℤ)
    → let reply = made kind str integer in
      got_length c (replied a reply) (allocate n (replied a reply))
      ≡ conclude (given c (replied a reply) n) (positive_verdict reply)
unfolding got_length conclude positive_verdict
got_length_lem c a n is_integer str (pos (suc k)) =
    let r = made is_integer str (pos (suc k)) in
    field-bind a _ _ r n ∙ field-bind a _ _ r n ∙ finish a c _ r n
got_length_lem c a n is_integer str i =
    let r = made is_integer str i in field-bind a _ _ r n ∙ field-bind a _ _ r n ∙ finish a c _ r n
got_length_lem c a n kind str i =
    let r = made kind str i in field-bind a _ _ r n ∙ field-bind a _ _ r n ∙ finish a c _ r n

got_element_lem :
    (c a : ℕ) (n : Manager) (kind : Kind) (str : Option Bytes) (integer : ℤ)
    → let reply = made kind str integer in
      got_element c (replied a reply) (allocate n (replied a reply))
      ≡ conclude (given c (replied a reply) n) (element_verdict reply)
unfolding got_element conclude element_verdict text
got_element_lem c a n is_nil str i =
    let r = made is_nil str i in field-bind a _ _ r n ∙ finish a c _ r n
got_element_lem c a n kind (some s) i =
    let r = made kind (some s) i in field-bind a _ _ r n ∙ field-bind a _ _ r n ∙ finish a c _ r n
got_element_lem c a n kind none i =
    let r = made kind none i in field-bind a _ _ r n ∙ field-bind a _ _ r n

got_value_lem :
    (c a : ℕ) (n : Manager) (kind : Kind) (str : Option Bytes) (integer : ℤ)
    → let reply = made kind str integer in
      got_value c (replied a reply) (allocate n (replied a reply))
      ≡ conclude (given c (replied a reply) n) (value_verdict reply)
unfolding got_value conclude value_verdict text
got_value_lem c a n is_nil str i =
    let r = made is_nil str i in field-bind a _ _ r n ∙ finish a c _ r n
got_value_lem c a n kind (some s) i =
    let r = made kind (some s) i in field-bind a _ _ r n ∙ field-bind a _ _ r n ∙ finish a c _ r n
got_value_lem c a n kind none i =
    let r = made kind none i in field-bind a _ _ r n ∙ field-bind a _ _ r n

got_integer_lem :
    (c a : ℕ) (n : Manager) (kind : Kind) (str : Option Bytes) (integer : ℤ)
    → let reply = made kind str integer in
      got_integer c (replied a reply) (allocate n (replied a reply))
      ≡ conclude (given c (replied a reply) n) (integer_verdict reply)
unfolding got_integer conclude integer_verdict
got_integer_lem c a n is_integer str i =
    let r = made is_integer str i in field-bind a _ _ r n ∙ finish a c _ r n
got_integer_lem c a n kind str i =
    let r = made kind str i in field-bind a _ _ r n ∙ finish a c _ r n

got_found_lem :
    (c a : ℕ) (n : Manager) (kind : Kind) (str : Option Bytes) (integer : ℤ)
    → let reply = made kind str integer in
      got_found c (replied a reply) (allocate n (replied a reply))
      ≡ conclude (given c (replied a reply) n) (found_verdict reply)
unfolding got_found conclude found_verdict
got_found_lem c a n is_integer str (pos zero) =
    let r = made is_integer str (pos zero) in
    field-bind a _ _ r n ∙ field-bind a _ _ r n ∙ finish_late a c _ r n
got_found_lem c a n is_integer str i =
    let r = made is_integer str i in field-bind a _ _ r n ∙ field-bind a _ _ r n ∙ finish a c _ r n
got_found_lem c a n kind str i =
    let r = made kind str i in field-bind a _ _ r n ∙ field-bind a _ _ r n ∙ finish_late a c _ r n

pub got_length-Handles : Handles false positive_verdict got_length
unfolding got_length free_null
got_length-Handles = handles _ _ got_length (λ c n. refl) got_length_lem

pub got_element-Handles : Handles (false, none) element_verdict got_element
unfolding got_element
got_element-Handles = handles _ _ got_element (λ c n. refl) got_element_lem

pub got_integer-Handles : Handles false integer_verdict got_integer
unfolding got_integer
got_integer-Handles = handles _ _ got_integer (λ c n. refl) got_integer_lem

pub got_value-Handles : Handles [] value_verdict got_value
unfolding got_value
got_value-Handles = handles _ _ got_value (λ c n. refl) got_value_lem

pub got_found-Handles : Handles false found_verdict got_found
unfolding got_found
got_found-Handles = handles _ _ got_found (λ c n. refl) got_found_lem
