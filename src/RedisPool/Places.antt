-- ===== src/RedisPool/Places.antt =====
-- Every context is in one place: in the pool, with a caller, freed or lost.
use bre_utils.Prelude.{
  ℕ, zero, suc, ◌+◌, ◌≡◌, refl, ap, sym, ◌∙◌, Bool, true, false, Option, none, some, List, [], ◌∷◌,
  ◌++◌, append_assoc, append-nil, length, ◌==◌, if◌then◌else◌, arith,
}
use bre_utils.RedisPool.{
  World, Event, gets, gives, closes, checks, clears, closes_in_check, rotate, pick, get_connection,
  lend_front, Connect, no_context, broken, refused, connected, connect, connect_all, nothing,
  new_pool, return_connection, clear_connections, check_thread, check_rounds, close, give_back,
  step, run,
}

unfoldable pub count : ℕ → List ℕ → ℕ
count c [] = 0
count c (d ∷ ds) = (if d == c then 1 else 0) + count c ds

-- In how many places the context is.
abbrev pub places : ℕ → World → ℕ
places c w = count c w.shared.connections + count c w.lent + count c w.freed + count c w.lost

pub count-append : (c : ℕ) (xs ys : List ℕ) → count c (xs ++ ys) ≡ count c xs + count c ys
unfolding count
count-append c [] ys = omega arith
count-append c (x ∷ xs) ys = omega (arith, count-append c xs ys)

count-rotate : (c n : ℕ) (xs : List ℕ) → count c (rotate n xs) ≡ count c xs
unfolding rotate count
count-rotate c zero xs = refl
count-rotate c (suc n) [] = refl
count-rotate c (suc n) (x ∷ xs) =
    omega (arith, count-rotate c n (xs ++ x ∷ []), count-append c xs (x ∷ []))

rotate-append : (xs ys : List ℕ) → rotate (length xs) (xs ++ ys) ≡ ys ++ xs
unfolding rotate
rotate-append [] ys = sym (append-nil ys)
rotate-append (x ∷ xs) ys =
    ap (rotate (length xs)) (append_assoc xs ys (x ∷ []))
    ∙ rotate-append xs (ys ++ x ∷ [])
    ∙ append_assoc ys (x ∷ []) xs

abbrev pub counted : ℕ → Option ℕ → ℕ
counted c none = 0
counted c (some d) = if d == c then 1 else 0

pub count-pick :
    (c : ℕ) (xs : List ℕ) (i : ℕ) → counted c (pick xs i).0 + count c (pick xs i).1 ≡ count c xs
unfolding pick count
count-pick c [] i = refl
count-pick c (x ∷ xs) zero = refl
count-pick c (x ∷ xs) (suc i) = omega (arith, count-pick c xs i)

places-lend_front :
    (c : ℕ) (w : World) (xs : List ℕ)
    → w.shared.connections ≡ xs
    → places c (lend_front w xs) ≡ places c w
unfolding lend_front count
places-lend_front c w [] e = refl
places-lend_front c w (x ∷ xs) e = omega (arith, ap (count c) e)

pub places-give_back :
    (c : ℕ) (w : World) (found : Option ℕ)
    → places c (give_back w found) ≡ counted c found + places c w
unfolding give_back return_connection count
places-give_back c w none = omega arith
places-give_back c w (some d) = ground (arith, count-append c w.shared.connections (d ∷ []))

pub places-step : (c : ℕ) (w : World) (e : Event) → places c (step w e) ≡ places c w
unfolding step get_connection close check_thread check_rounds clear_connections count
places-step c w gets = ground (arith, places-lend_front c w w.shared.connections refl)
places-step c w closes = refl
places-step c w checks =
    ground (arith, count-rotate c (length w.shared.connections) w.shared.connections)
places-step c w clears = omega (arith, count-append c w.shared.connections w.freed)
places-step c w (gives i) = omega (
  arith,
  places-give_back c (record w { lent = (pick w.lent i).1 }) (pick w.lent i).0,
  count-pick c w.lent i,
)
places-step c w (closes_in_check n) = ground (arith, count-rotate c n w.shared.connections)

pub places-run : (c : ℕ) (es : List Event) (w : World) → places c (run w es) ≡ places c w
unfolding run
places-run c [] w = refl
places-run c (e ∷ es) w = places-run c es (step w e) ∙ places-step c w e

-- The contexts that the connects hand out.
unfoldable pub handed_out : List Connect → List ℕ
handed_out [] = []
handed_out (no_context ∷ attempts) = handed_out attempts
handed_out (broken c ∷ attempts) = c ∷ handed_out attempts
handed_out (refused c ∷ attempts) = c ∷ handed_out attempts
handed_out (connected c ∷ attempts) = c ∷ handed_out attempts

pub places-connect_all :
    (c : ℕ) (attempts : List Connect) (w : World)
    → places c (connect_all w attempts) ≡ places c w + count c (handed_out attempts)
unfolding connect_all connect handed_out count
places-connect_all c [] w = omega arith
places-connect_all c (no_context ∷ attempts) w = places-connect_all c attempts w
places-connect_all c (broken d ∷ attempts) w =
    omega (arith, places-connect_all c attempts (record w { freed = d ∷ w.freed }))
places-connect_all c (refused d ∷ attempts) w =
    omega (arith, places-connect_all c attempts (record w { lost = d ∷ w.lost }))
places-connect_all c (connected d ∷ attempts) w = omega (
  arith,
  places-connect_all c attempts (connect w (connected d)),
  count-append c w.shared.connections (d ∷ []),
)

-- For every interleaving of the threads' turns after the constructor, of `Close` in the middle of a
-- check and of `ClearConnections` too: a context is as often in the pool, with a caller, freed or
-- lost, all together, as `redisConnect` handed it out. One that it handed out once is never freed
-- twice, nor freed while it is in the pool or with a caller.
pub places-new_pool :
    (c : ℕ) (attempts : List Connect) (es : List Event)
    → places c (run (new_pool attempts) es) ≡ count c (handed_out attempts)
unfolding new_pool count
places-new_pool c attempts es =
    places-run c es (new_pool attempts) ∙ places-connect_all c attempts nothing ∙ omega arith

stays :
    (w : World) (stopped : Bool)
    → (if stopped then w else check_rounds (length w.shared.connections) w) ≡ w
unfolding check_rounds
stays w true = refl
stays w false =
    let cs = w.shared.connections in
    ap (λ ds. record w { shared = record w.shared { connections = ds } })
      (ap (rotate (length cs)) (sym (append-nil cs)) ∙ rotate-append cs [])

-- A `checkThread` that no `Close` interrupts takes every context out and puts it back, and leaves the
-- pool as it was, order included.
check_thread_lem : (w : World) → check_thread w ≡ w
unfolding check_thread
check_thread_lem w = stays w w.shared.b_stop
