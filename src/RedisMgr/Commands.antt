-- ===== src/RedisMgr/Commands.antt =====
-- breUtils/database/RedisMgr.hpp: the commands, each in the order in which the source takes the
-- context, asks, reads the reply, frees it and gives the context back. A command that fills an
-- argument says what it wrote; `none` leaves the argument alone.
use bre_utils.Prelude.{ℕ, Bool, false, none, [], ◌∷◌, Bytes, codes, take}
use bre_utils.RedisMgr.{formatted, arguments, Exchange, Command, ◌>>=◌, c_str, request}
use bre_utils.RedisMgr.Handlers.{
  Fetched, with_context, got_string, got_status, got_length, got_element, got_integer, got_value,
  got_deleted, got_found,
}

unfoldable pub get : Exchange → Bytes → Command Fetched
get x key =
    with_context (false, none)
      (λ c. do
        answer ← request x c (formatted (codes "GET %s") (c_str key ∷ []))
        got_string c answer)

unfoldable pub set_key : Exchange → Bytes → Bytes → Command Bool
set_key x key value = with_context false (λ c. do
  answer ← request x c (formatted (codes "SET %s %s") (c_str key ∷ c_str value ∷ []))
  got_status c answer)

unfoldable pub l_push : Exchange → Bytes → Bytes → Command Bool
l_push x key value = with_context false (λ c. do
  answer ← request x c (formatted (codes "LPUSH %s %s") (c_str key ∷ c_str value ∷ []))
  got_length c answer)

unfoldable pub r_push : Exchange → Bytes → Bytes → Command Bool
r_push x key value = with_context false (λ c. do
  answer ← request x c (formatted (codes "RPUSH %s %s") (c_str key ∷ c_str value ∷ []))
  got_length c answer)

unfoldable pub l_pop : Exchange → Bytes → Command Fetched
l_pop x key =
    with_context (false, none)
      (λ c. do
        answer ← request x c (formatted (codes "LPOP %s ") (c_str key ∷ []))
        got_element c answer)

unfoldable pub r_pop : Exchange → Bytes → Command Fetched
r_pop x key =
    with_context (false, none)
      (λ c. do
        answer ← request x c (formatted (codes "RPOP %s ") (c_str key ∷ []))
        got_element c answer)

unfoldable pub h_set : Exchange → Bytes → Bytes → Bytes → Command Bool
h_set x key hkey value = with_context false (λ c. do
  answer ←
      request x c (formatted (codes "HSET %s %s %s") (c_str key ∷ c_str hkey ∷ c_str value ∷ []))
  got_integer c answer)

-- `HSet` of a buffer, of which `hvaluelen` bytes are read; all of them are to be in the buffer.
unfoldable pub h_set_buffer : Exchange → Bytes → Bytes → Bytes → ℕ → Command Bool
h_set_buffer x key hkey hvalue hvaluelen = with_context false (λ c. do
  answer ←
      request x c (arguments (codes "HSET" ∷ c_str key ∷ c_str hkey ∷ take hvaluelen hvalue ∷ []))
  got_integer c answer)

unfoldable pub h_get : Exchange → Bytes → Bytes → Command Bytes
h_get x key hkey =
    with_context [] (λ c. do
      answer ← request x c (arguments (codes "HGET" ∷ key ∷ hkey ∷ []))
      got_value c answer)

unfoldable pub h_del : Exchange → Bytes → Bytes → Command Bool
h_del x key name = with_context false (λ c. do
  answer ← request x c (formatted (codes "HDEL %s %s") (c_str key ∷ c_str name ∷ []))
  got_deleted c answer)

unfoldable pub del : Exchange → Bytes → Command Bool
del x key = with_context false (λ c. do
  answer ← request x c (formatted (codes "DEL %s") (c_str key ∷ []))
  got_integer c answer)

unfoldable pub exists_key : Exchange → Bytes → Command Bool
exists_key x key = with_context false (λ c. do
  answer ← request x c (formatted (codes "exists %s") (c_str key ∷ []))
  got_found c answer)
