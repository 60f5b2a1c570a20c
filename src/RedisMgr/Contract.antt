-- ===== src/RedisMgr/Contract.antt =====
-- What a command of `RedisMgr` does, in one scheme: it takes the front context, asks once, and gives
-- the context back; the reply is read, and freed.
use bre_utils.Prelude.{
  ℕ, ◌≡◌, refl, ap, ◌∙◌, Bool, true, false, Option, none, some, List, [], ◌∷◌, ◌++◌, if◌then◌else◌,
  arith,
}
use bre_utils.RedisPool.{get_connection, return_connection, run}
use bre_utils.RedisMgr.{
  Reply, Answer, no_reply, replied, Request, Exchange, Manager, Command, Outcome, waits, undefined,
  returns, pure, ◌>>=◌, ◌>>◌, member, remove, take_front, get_context, give_context, request,
  allocate, field, free_reply, continue, defined_if,
}
use bre_utils.RedisMgr.Handlers.{with_context, on_context}

-- The addresses of the answer's reply.
unfoldable pub addresses : Answer → List ℕ
addresses no_reply = []
addresses (replied a reply) = a ∷ []

-- The manager while the request is out.
unfoldable pub asked : Exchange → ℕ → Request → Manager → Manager
asked x c what m = record m { contexts = run m.contexts x.others; sent = (c, what) ∷ m.sent }

-- The context goes back, and the reply is freed.
unfoldable pub given : ℕ → Answer → Manager → Manager
given c answer m =
    let w = m.contexts in
    record m {
      contexts = return_connection (record w { lent = remove c w.lent }) c;
      released = addresses answer ++ m.released;
    }

-- The manager when the context `c` has been taken, used for the request and given back.
unfoldable pub settled : Exchange → ℕ → Request → Manager → Manager
settled x c what m =
    given c (x.answer c what) (asked x c what (record m { contexts = get_connection m.contexts }))

module _ {A : Type 0} where
  unfoldable pub conclude : Manager → Option A → Outcome A
  conclude m none = undefined
  conclude m (some a) = returns a m

  -- What a verdict on replies says of an answer.
  unfoldable pub judged : A → (Reply → Option A) → Answer → Option A
  judged default verdict no_reply = some default
  judged default verdict (replied a reply) = verdict reply

  unfoldable pub transact_with :
      A → Request → (Reply → Option A) → Exchange → Manager → List ℕ → Outcome A
  transact_with default what verdict x m [] = waits
  transact_with default what verdict x m (c ∷ cs) =
      conclude (settled x c what m) (judged default verdict (x.answer c what))

  -- The scheme: a stopped pool gives the default, an empty one makes the call wait, and else the
  -- verdict on the reply decides; `none` is what C++ leaves undefined.
  unfoldable pub transact : A → Request → (Reply → Option A) → Exchange → Command A
  transact default what verdict x m =
      if m.contexts.shared.b_stop
      then returns default m
      else transact_with default what verdict x m m.contexts.shared.connections

member_first : (a : ℕ) (bs : List ℕ) → member a (a ∷ bs) ≡ true
unfolding member
member_first a bs = ground arith

remove_first : (a : ℕ) (bs : List ℕ) → remove a (a ∷ bs) ≡ bs
unfolding remove
remove_first a bs = ground arith

module _ {A : Type 0} (default : A) (what : Request) (verdict : Reply → Option A)
    (x : Exchange) where
  -- What a body does that has its context.
  abbrev Transacts : (ℕ → Command A) → Type 0
  Transacts body =
      (c : ℕ) (n : Manager)
      → body c n
        ≡ conclude (given c (x.answer c what) (asked x c what n))
            (judged default verdict (x.answer c what))

  begun :
      (body : ℕ → Command A) (m : Manager)
      → Transacts body
      → (stopped : Bool) (cs : List ℕ)
      → ((λ n. if stopped then returns none n else take_front n cs) >>= on_context default body) m
        ≡ (if stopped then returns default m else transact_with default what verdict x m cs)
  unfolding take_front transact_with settled
  begun body m h true cs = refl
  begun body m h false [] = refl
  begun body m h false (c ∷ cs) = h c (record m { contexts = get_connection m.contexts })

  with_context_lem :
      (body : ℕ → Command A)
      → Transacts body
      → (m : Manager) → with_context default body m ≡ transact default what verdict x m
  unfolding get_context transact
  with_context_lem body h m = begun body m h m.contexts.shared.b_stop m.contexts.shared.connections

-- A handler of answers does what the verdict says.
abbrev pub Handles : {A : Type 0} → A → (Reply → Option A) → (ℕ → Answer → Command A) → Type 0
Handles default verdict handler =
    (c : ℕ) (answer : Answer) (n : Manager)
    → handler c answer (allocate n answer)
      ≡ conclude (given c answer n) (judged default verdict answer)

-- A reply that has just come can be read and freed.
field_lem :
    {A : Type 0} (a : ℕ) (value : A) (reply : Reply) (n : Manager)
    → field a value (allocate n (replied a reply)) ≡ returns value (allocate n (replied a reply))
unfolding field allocate
field_lem a value reply n =
    let live : Manager = record n { allocated = a ∷ n.allocated } in
    ap (λ b. defined_if b (returns value live)) (member_first a n.allocated)

pub field-bind :
    {A B : Type 0} (a : ℕ) (value : A) (f : A → Command B) (reply : Reply) (n : Manager)
    → (field a value >>= f) (allocate n (replied a reply)) ≡ f value (allocate n (replied a reply))
field-bind a value f reply n = ap (λ o. continue o f) (field_lem a value reply n)

pub free-bind :
    {A : Type 0} (a : ℕ) (k : Command A) (reply : Reply) (n : Manager)
    → (free_reply a >> k) (allocate n (replied a reply))
      ≡ k (record n { released = a ∷ n.released })
unfolding free_reply allocate
free-bind a k reply n =
    let live : Manager = record n { allocated = a ∷ n.allocated } in
    ap
      (λ b.
        continue
          (defined_if b (
            returns tt
              (record n { allocated = remove a live.allocated; released = a ∷ n.released })))
          (λ u. k))
      (member_first a n.allocated)
    ∙ ap (λ bs. k (record n { allocated = bs; released = a ∷ n.released }))
        (remove_first a n.allocated)

pub finish :
    {A : Type 0} (a c : ℕ) (value : A) (reply : Reply) (n : Manager)
    → (free_reply a >> give_context c >> pure value) (allocate n (replied a reply))
      ≡ returns value (given c (replied a reply) n)
unfolding give_context given addresses
finish a c value reply n = free-bind a (give_context c >> pure value) reply n

-- The same with the context first.
pub finish_late :
    {A : Type 0} (a c : ℕ) (value : A) (reply : Reply) (n : Manager)
    → (give_context c >> free_reply a >> pure value) (allocate n (replied a reply))
      ≡ returns value (given c (replied a reply) n)
unfolding allocate give_context given addresses
finish_late a c value reply n = free-bind a (pure value) reply (given c no_reply n)

module _ {A : Type 0} (default : A) (verdict : Reply → Option A)
    (handler : ℕ → Answer → Command A) where
  -- A command whose handler does what the verdict says follows the scheme.
  pub command_lem :
      Handles default verdict handler
      → (what : Request) (x : Exchange) (m : Manager)
      → with_context default (λ c. request x c what >>= handler c) m
        ≡ transact default what verdict x m
  unfolding request asked
  command_lem h what x m =
      with_context_lem default what verdict x (λ c. request x c what >>= handler c)
        (λ c n. h c (x.answer c what) (asked x c what n)) m
