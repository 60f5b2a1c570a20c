-- ===== src/RedisMgr/Calls.antt =====
-- Every command of `RedisMgr` follows the one scheme, with its request and its table.
use bre_utils.Prelude.{
  ℕ, ◌≡◌, refl, ap, ◌∙◌, Bool, true, false, Option, none, some, [], ◌∷◌, Bytes, codes, take, List,
  if◌then◌else◌,
}
use mathlib.Core.Option
use bre_utils.RedisMgr.{
  Reply, Answer, no_reply, replied, Request, formatted, arguments, Exchange, Manager, Command,
  returns, pure, ◌>>=◌, c_str, continue,
}
use bre_utils.RedisMgr.Commands.{
  get, set_key, l_push, r_push, l_pop, r_pop, h_set, h_set_buffer, h_get, h_del, del, exists_key,
}
use bre_utils.RedisMgr.Handlers.{
  Fetched, got_string, got_status, got_length, got_element, got_integer, got_value, got_deleted,
  got_found,
}
use bre_utils.RedisMgr.Contract.{transact, transact_with, conclude, judged, command_lem}
use bre_utils.RedisMgr.Verdicts.{
  string_verdict, status_verdict, positive_verdict, element_verdict, integer_verdict, value_verdict,
  found_verdict,
}
use bre_utils.RedisMgr.Replies.{
  got_string-Handles, got_status-Handles, got_length-Handles, got_element-Handles,
  got_integer-Handles, got_value-Handles, got_deleted-Handles, got_found-Handles,
}

pub data Call : Type 0 where
  gets l_pops r_pops dels exists : Bytes → Call
  sets l_pushes r_pushes h_gets h_dels : Bytes → Bytes → Call
  h_sets : Bytes → Bytes → Bytes → Call
  h_sets_buffer : Bytes → Bytes → Bytes → ℕ → Call

-- What a call tells its caller.
pub data Said : Type 0 where
  flag : Bool → Said
  fetched : Fetched → Said
  value : Bytes → Said

unfoldable pub execute : Call → Exchange → Command Said
execute (gets key) x = get x key >>= λ r. pure (fetched r)
execute (l_pops key) x = l_pop x key >>= λ r. pure (fetched r)
execute (r_pops key) x = r_pop x key >>= λ r. pure (fetched r)
execute (dels key) x = del x key >>= λ r. pure (flag r)
execute (exists key) x = exists_key x key >>= λ r. pure (flag r)
execute (sets key v) x = set_key x key v >>= λ r. pure (flag r)
execute (l_pushes key v) x = l_push x key v >>= λ r. pure (flag r)
execute (r_pushes key v) x = r_push x key v >>= λ r. pure (flag r)
execute (h_gets key hkey) x = h_get x key hkey >>= λ r. pure (value r)
execute (h_dels key hkey) x = h_del x key hkey >>= λ r. pure (flag r)
execute (h_sets key hkey v) x = h_set x key hkey v >>= λ r. pure (flag r)
execute (h_sets_buffer key hkey v n) x = h_set_buffer x key hkey v n >>= λ r. pure (flag r)

-- What a call says without a reply.
unfoldable pub failed : Call → Said
failed (gets key) = fetched (false, none)
failed (l_pops key) = fetched (false, none)
failed (r_pops key) = fetched (false, none)
failed (h_gets key hkey) = value []
failed _ = flag false

unfoldable pub request_of : Call → Request
request_of (gets key) = formatted (codes "GET %s") (c_str key ∷ [])
request_of (l_pops key) = formatted (codes "LPOP %s ") (c_str key ∷ [])
request_of (r_pops key) = formatted (codes "RPOP %s ") (c_str key ∷ [])
request_of (dels key) = formatted (codes "DEL %s") (c_str key ∷ [])
request_of (exists key) = formatted (codes "exists %s") (c_str key ∷ [])
request_of (sets key v) = formatted (codes "SET %s %s") (c_str key ∷ c_str v ∷ [])
request_of (l_pushes key v) = formatted (codes "LPUSH %s %s") (c_str key ∷ c_str v ∷ [])
request_of (r_pushes key v) = formatted (codes "RPUSH %s %s") (c_str key ∷ c_str v ∷ [])
request_of (h_gets key hkey) = arguments (codes "HGET" ∷ key ∷ hkey ∷ [])
request_of (h_dels key hkey) = formatted (codes "HDEL %s %s") (c_str key ∷ c_str hkey ∷ [])
request_of (h_sets key hkey v) =
    formatted (codes "HSET %s %s %s") (c_str key ∷ c_str hkey ∷ c_str v ∷ [])
request_of (h_sets_buffer key hkey v n) =
    arguments (codes "HSET" ∷ c_str key ∷ c_str hkey ∷ take n v ∷ [])

unfoldable pub verdict_of : Call → Reply → Option Said
verdict_of (gets key) reply = Option.map fetched (string_verdict reply)
verdict_of (l_pops key) reply = Option.map fetched (element_verdict reply)
verdict_of (r_pops key) reply = Option.map fetched (element_verdict reply)
verdict_of (dels key) reply = Option.map flag (integer_verdict reply)
verdict_of (exists key) reply = Option.map flag (found_verdict reply)
verdict_of (sets key v) reply = Option.map flag (status_verdict reply)
verdict_of (l_pushes key v) reply = Option.map flag (positive_verdict reply)
verdict_of (r_pushes key v) reply = Option.map flag (positive_verdict reply)
verdict_of (h_gets key hkey) reply = Option.map value (value_verdict reply)
verdict_of (h_dels key hkey) reply = Option.map flag (positive_verdict reply)
verdict_of (h_sets key hkey v) reply = Option.map flag (integer_verdict reply)
verdict_of (h_sets_buffer key hkey v n) reply = Option.map flag (integer_verdict reply)

module _ {A B : Type 0} (f : A → B) (default : A) (verdict : Reply → Option A) where
  mapped :
      (m : Manager) (o : Option A)
      → continue (conclude m o) (λ r. pure (f r)) ≡ conclude m (Option.map f o)
  unfolding conclude
  mapped m none = refl
  mapped m (some a) = refl

  map-conclude :
      (m : Manager) (answer : Answer)
      → continue (conclude m (judged default verdict answer)) (λ r. pure (f r))
        ≡ conclude m (judged (f default) (λ reply. Option.map f (verdict reply)) answer)
  unfolding judged
  map-conclude m no_reply = mapped m (some default)
  map-conclude m (replied a reply) = mapped m (verdict reply)

  map-transact :
      (what : Request) (x : Exchange) (m : Manager) (stopped : Bool) (cs : List ℕ)
      → continue
          (if stopped then returns default m else transact_with default what verdict x m cs)
          (λ r. pure (f r))
        ≡ (if stopped
            then returns (f default) m
            else transact_with (f default) what (λ reply. Option.map f (verdict reply)) x m cs)
  unfolding transact_with
  map-transact what x m true cs = refl
  map-transact what x m false [] = refl
  map-transact what x m false (c ∷ cs) = map-conclude _ (x.answer c what)

  -- A command that follows the scheme, and what is said of its result.
  says :
      (c : Command A) (what : Request) (x : Exchange) (m : Manager)
      → c m ≡ transact default what verdict x m
      → (c >>= λ r. pure (f r)) m
        ≡ transact (f default) what (λ reply. Option.map f (verdict reply)) x m
  unfolding transact
  says c what x m h =
      ap (λ o. continue o (λ r. pure (f r))) h
      ∙ map-transact what x m m.contexts.shared.b_stop m.contexts.shared.connections

-- Every command with every answer: on a stopped pool it fails and changes nothing; on an empty one it
-- waits; else it takes the front context, sends its one request, and, whether there is no reply, one
-- of the wrong kind or a good one, says what the table says, with the context given back and the reply
-- freed once, and read before that only. Only a null text that a table reads is undefined.
pub execute_lem :
    (call : Call) (x : Exchange) (m : Manager)
    → execute call x m ≡ transact (failed call) (request_of call) (verdict_of call) x m
unfolding execute failed request_of verdict_of get set_key l_push r_push l_pop r_pop h_set
    h_set_buffer h_get h_del del exists_key
execute_lem (gets key) x m =
    says fetched _ _ (get x key) _ x m (command_lem _ _ got_string got_string-Handles _ x m)
execute_lem (l_pops key) x m =
    says fetched _ _ (l_pop x key) _ x m (command_lem _ _ got_element got_element-Handles _ x m)
execute_lem (r_pops key) x m =
    says fetched _ _ (r_pop x key) _ x m (command_lem _ _ got_element got_element-Handles _ x m)
execute_lem (dels key) x m =
    says flag _ _ (del x key) _ x m (command_lem _ _ got_integer got_integer-Handles _ x m)
execute_lem (exists key) x m =
    says flag _ _ (exists_key x key) _ x m (command_lem _ _ got_found got_found-Handles _ x m)
execute_lem (sets key v) x m =
    says flag _ _ (set_key x key v) _ x m (command_lem _ _ got_status got_status-Handles _ x m)
execute_lem (l_pushes key v) x m =
    says flag _ _ (l_push x key v) _ x m (command_lem _ _ got_length got_length-Handles _ x m)
execute_lem (r_pushes key v) x m =
    says flag _ _ (r_push x key v) _ x m (command_lem _ _ got_length got_length-Handles _ x m)
execute_lem (h_gets key hkey) x m =
    says value _ _ (h_get x key hkey) _ x m (command_lem _ _ got_value got_value-Handles _ x m)
execute_lem (h_dels key hkey) x m =
    says flag _ _ (h_del x key hkey) _ x m (command_lem _ _ got_deleted got_deleted-Handles _ x m)
execute_lem (h_sets key hkey v) x m =
    says flag _ _ (h_set x key hkey v) _ x m (command_lem _ _ got_integer got_integer-Handles _ x m)
execute_lem (h_sets_buffer key hkey v n) x m =
    says flag _ _ (h_set_buffer x key hkey v n) _ x m
      (command_lem _ _ got_integer got_integer-Handles _ x m)
