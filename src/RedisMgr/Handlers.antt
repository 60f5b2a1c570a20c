-- ===== src/RedisMgr/Handlers.antt =====
-- breUtils/database/RedisMgr.hpp: what the commands do with the answer, in the order in which the
-- source reads the reply, frees it and gives the context back.
use bre_utils.Prelude.{
  ℕ, zero, suc, ℤ, pos, negsuc, not, ◌||◌, Bool, true, false, Option, none, some, [], Bytes, codes,
  equal, if◌then◌else◌,
}
use bre_utils.RedisMgr.{
  Kind, is_string, is_integer, is_nil, is_status, Reply, Answer, no_reply, replied, Command, pure,
  ◌>>=◌, ◌>>◌, get_context, give_context, field, text, free_reply, free_null,
}

-- Whether a call succeeded, and what it wrote to its argument.
abbrev pub Fetched : Type 0
Fetched = Bool × Option Bytes

abbrev pub string_kind : Kind → Bool
string_kind is_string = true
string_kind _ = false

abbrev pub integer_kind : Kind → Bool
integer_kind is_integer = true
integer_kind _ = false

abbrev pub nil_kind : Kind → Bool
nil_kind is_nil = true
nil_kind _ = false

abbrev pub status_kind : Kind → Bool
status_kind is_status = true
status_kind _ = false

-- `integer <= 0`
abbrev pub not_positive : ℤ → Bool
not_positive (pos zero) = true
not_positive (pos (suc n)) = false
not_positive (negsuc n) = true

abbrev pub is_zero : ℤ → Bool
is_zero (pos zero) = true
is_zero _ = false

module _ {A : Type 0} where
  -- The early return on a null context.
  abbrev pub on_context : A → (ℕ → Command A) → Option ℕ → Command A
  on_context default body none = pure default
  on_context default body (some c) = body c

  abbrev pub with_context : A → (ℕ → Command A) → Command A
  with_context default body = get_context >>= on_context default body

  -- A reply that is NULL, and one that is not.
  abbrev pub answered : Command A → (ℕ → Reply → Command A) → Answer → Command A
  answered null body no_reply = null
  answered null body (replied a reply) = body a reply

  abbrev pub when : Bool → Command A → Command A → Command A
  when test c d m = if test then c m else d m

-- What `Get` does with the answer.
unfoldable pub got_string : ℕ → Answer → Command Fetched
got_string c = answered (give_context c >> pure (false, none)) (λ a reply. do
  kind ← field a reply.kind
  when (not (string_kind kind)) (free_reply a >> give_context c >> pure (false, none)) (do
    str ← field a reply.str
    value ← text str
    free_reply a
    give_context c
    pure (true, some value)))

-- The condition that `Set` has for a reply.
unfoldable pub status_ok : ℕ → Reply → Command Bool
status_ok a reply = do
  kind ← field a reply.kind
  when (status_kind kind)
      (do
        str ← field a reply.str
        s ← text str
        pure (equal s (codes "OK") || equal s (codes "ok")))
      (pure false)

-- What `Set` does with the answer.
unfoldable pub got_status : ℕ → Answer → Command Bool
got_status c = answered (give_context c >> pure false) (λ a reply. do
  fine ← status_ok a reply
  when (not fine) (free_reply a >> give_context c >> pure false)
      (free_reply a >> give_context c >> pure true))

-- What `LPush` and `RPush` do with the answer.
unfoldable pub got_length : ℕ → Answer → Command Bool
got_length c = answered (free_null >> give_context c >> pure false) (λ a reply. do
  kind ← field a reply.kind
  integer ← field a reply.integer
  when (not (integer_kind kind) || not_positive integer)
      (free_reply a >> give_context c >> pure false) (free_reply a >> give_context c >> pure true))

-- What `LPop` and `RPop` do with the answer.
unfoldable pub got_element : ℕ → Answer → Command Fetched
got_element c = answered (give_context c >> pure (false, none)) (λ a reply. do
  kind ← field a reply.kind
  when (nil_kind kind) (free_reply a >> give_context c >> pure (false, none)) (do
    str ← field a reply.str
    value ← text str
    free_reply a
    give_context c
    pure (true, some value)))

-- What `HSet`, in both its forms, and `Del` do with the answer.
unfoldable pub got_integer : ℕ → Answer → Command Bool
got_integer c = answered (give_context c >> pure false) (λ a reply. do
  kind ← field a reply.kind
  when (not (integer_kind kind)) (free_reply a >> give_context c >> pure false)
      (free_reply a >> give_context c >> pure true))

-- What `HGet` does with the answer.
unfoldable pub got_value : ℕ → Answer → Command Bytes
got_value c = answered (give_context c >> pure []) (λ a reply. do
  kind ← field a reply.kind
  when (nil_kind kind) (free_reply a >> give_context c >> pure [])
      (do str ← field a reply.str; value ← text str; free_reply a; give_context c; pure value))

-- Whether the reply says that something was deleted; it is freed.
unfoldable pub deletion : ℕ → Reply → Command Bool
deletion a reply = do
  kind ← field a reply.kind
  when (integer_kind kind)
      (do integer ← field a reply.integer; free_reply a; pure (not (not_positive integer)))
      (do free_reply a; pure false)

-- What `HDel` does with the answer; the destructor of `defer` gives the context back at the end.
unfoldable pub got_deleted : ℕ → Answer → Command Bool
got_deleted c answer = do
  success ← answered (pure false) deletion answer
  give_context c
  pure success

-- What `ExistsKey` does with the answer; without the key, the reply is freed after the context is back.
unfoldable pub got_found : ℕ → Answer → Command Bool
got_found c = answered (give_context c >> pure false) (λ a reply. do
  kind ← field a reply.kind
  integer ← field a reply.integer
  when (not (integer_kind kind) || is_zero integer) (give_context c >> free_reply a >> pure false)
      (free_reply a >> give_context c >> pure true))
