-- ===== src/RedisMgr/Ledger.antt =====
-- breUtils/database/RedisMgr.hpp and RedisPool.hpp: what each turn does to the contexts that are lent and
-- to those that are lost.
use bre_utils.Prelude.{
  ℕ, ◌+◌, ◌≤◌, ◌==◌, ◌≡◌, refl, ap, Bool, true, false, Option, none, some, List, [], ◌∷◌,
  if◌then◌else◌, arith, Bool-cases, inl, inr,
}
use bre_utils.RedisPool.{
  World, Event, Connect, get_connection, lend_front, return_connection, clear_connections, close,
  check_thread, check_rounds, pick, run, step, give_back, gets, gives, closes, clears, checks,
  closes_in_check, no_context, broken, refused, connected, connect, connect_all,
}
use bre_utils.RedisPool.Places.{count, counted, count-pick}
use bre_utils.RedisMgr.{remove}
use bre_utils.RedisMgr.Sessions.{refused_of, at_front, takes, gives_back, loses, along}

pub count-remove :
    (c d : ℕ) (xs : List ℕ)
    → 1 ≤ count c xs
    → (if c == d then 1 else 0) + count d (remove c xs) ≡ count d xs
unfolding count remove
count-remove c d [] h = absurd (omega arith)
count-remove c d (x ∷ xs) h = elim (Bool-cases (c == x)) [
  | inl same ↦ ground arith
  | inr other ↦
      let later : 1 ≤ count c xs = ground arith in
      let rest : (if c == d then 1 else 0) + count d (remove c xs) ≡ count d xs =
        count-remove c d xs later in
      ground arith
]

lent-lend_front :
    (d : ℕ) (w : World) (stopped : Bool) (cs : List ℕ)
    → count d (if stopped then w else lend_front w cs).lent
      ≡ count d w.lent + at_front stopped cs (λ c. counted d (some c))
unfolding lend_front count
lent-lend_front d w true cs = omega arith
lent-lend_front d w false [] = omega arith
lent-lend_front d w false (c ∷ cs) = omega arith

lost-lend_front :
    (w : World) (stopped : Bool) (cs : List ℕ)
    → (if stopped then w else lend_front w cs).lost ≡ w.lost
unfolding lend_front
lost-lend_front w true cs = refl
lost-lend_front w false [] = refl
lost-lend_front w false (c ∷ cs) = refl

pub lent-give_back : (w : World) (o : Option ℕ) → (give_back w o).lent ≡ w.lent
unfolding give_back return_connection
lent-give_back w none = refl
lent-give_back w (some c) = elim (Bool-cases w.shared.b_stop) [
  | inl stopped ↦ rw stopped refl
  | inr open_pool ↦ rw open_pool refl
]

pub lost-give_back :
    (d : ℕ) (w : World) (o : Option ℕ)
    → count d (give_back w o).lost ≡ count d w.lost + (if w.shared.b_stop then counted d o else 0)
unfolding give_back return_connection count
lost-give_back d w none = ground arith
lost-give_back d w (some c) = ground arith

pub lent-step :
    (d : ℕ) (w : World) (e : Event)
    → count d (step w e).lent + gives_back d w e ≡ count d w.lent + takes d w e
unfolding step get_connection close check_thread check_rounds clear_connections takes gives_back
lent-step d w gets = omega (arith, lent-lend_front d w w.shared.b_stop w.shared.connections)
lent-step d w closes = refl
lent-step d w checks = ground arith
lent-step d w clears = refl
lent-step d w (gives i) = omega (
  arith,
  ap (count d) (lent-give_back (record w { lent = (pick w.lent i).1 }) (pick w.lent i).0),
  count-pick d w.lent i,
)
lent-step d w (closes_in_check n) = ground arith

pub lost-step :
    (d : ℕ) (w : World) (e : Event) → count d (step w e).lost ≡ count d w.lost + loses d w e
unfolding step get_connection close check_thread check_rounds clear_connections loses
lost-step d w gets =
    omega (arith, ap (count d) (lost-lend_front w w.shared.b_stop w.shared.connections))
lost-step d w closes = omega arith
lost-step d w checks = ground arith
lost-step d w clears = omega arith
lost-step d w (gives i) = lost-give_back d (record w { lent = (pick w.lent i).1 }) (pick w.lent i).0
lost-step d w (closes_in_check n) = ground arith

pub lent-run :
    (d : ℕ) (es : List Event) (w : World)
    → count d (run w es).lent + along (gives_back d) w es ≡ count d w.lent + along (takes d) w es
unfolding run along
lent-run d [] w = refl
lent-run d (e ∷ es) w = omega (arith, lent-run d es (step w e), lent-step d w e)

pub lost-run :
    (d : ℕ) (es : List Event) (w : World)
    → count d (run w es).lost ≡ count d w.lost + along (loses d) w es
unfolding run along
lost-run d [] w = omega arith
lost-run d (e ∷ es) w = omega (arith, lost-run d es (step w e), lost-step d w e)

pub lost-connect_all :
    (d : ℕ) (attempts : List Connect) (w : World)
    → count d (connect_all w attempts).lost ≡ count d w.lost + count d (refused_of attempts)
unfolding connect_all connect refused_of count
lost-connect_all d [] w = omega arith
lost-connect_all d (no_context ∷ attempts) w = lost-connect_all d attempts w
lost-connect_all d (broken c ∷ attempts) w = lost-connect_all d attempts (connect w (broken c))
lost-connect_all d (refused c ∷ attempts) w =
    omega (arith, lost-connect_all d attempts (connect w (refused c)))
lost-connect_all d (connected c ∷ attempts) w =
    lost-connect_all d attempts (connect w (connected c))
