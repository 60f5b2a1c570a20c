-- ===== src/SqlPool/Owners.antt =====
-- Every connection is in one place: in the pool, with one caller, or with `checkConnection`.
use bre_utils.Prelude.{
  ℕ, zero, suc, ◌+◌, ◌≤◌, ◌≡◌, refl, ap, ◌∙◌, Bool, true, false, Option, none, some, List, [], ◌∷◌,
  ◌++◌, leb, ◌==◌, if◌then◌else◌, Bool-cases, inl, inr, arith,
}
use bre_utils.SqlPool.{
  SqlConnection, MySqlPool, World, Event, Ping, answers, reconnects, null, gets, gives, closes,
  begins, takes, puts_back, pick, beside, front_of, get_connection, return_connection, close,
  check_begin, check_front, check_take, refresh, check_give, lend, give_back, connect_all, new_pool,
  step, run,
}

abbrev pub one_if : Bool → ℕ
one_if b = if b then 1 else 0

module _ {S : Type 0} where
  -- How often the object stands in the list.
  unfoldable pub occurs : ℕ → List (SqlConnection S) → ℕ
  occurs s [] = 0
  occurs s (c ∷ cs) = one_if (c.slot == s) + occurs s cs

  abbrev pub occurs_in : ℕ → Option (SqlConnection S) → ℕ
  occurs_in s none = 0
  occurs_in s (some c) = one_if (c.slot == s)

  -- How many owners the object has.
  abbrev pub in_pool : ℕ → MySqlPool S → ℕ
  in_pool s p = occurs s p.pool + occurs_in s p.checked

  abbrev pub owners : ℕ → World S → ℕ
  owners s w = in_pool s w.shared + occurs s w.lent

  occurs-append :
      (s : ℕ) (xs : List (SqlConnection S)) (c : SqlConnection S)
      → occurs s (xs ++ c ∷ []) ≡ occurs s xs + one_if (c.slot == s)
  unfolding occurs
  occurs-append s [] c = omega arith
  occurs-append s (x ∷ xs) c = omega (arith, occurs-append s xs c)

  -- After a turn no object has more owners, and just as many if the pool is not stopped.
  record Conserves (s : ℕ) (w w' : World S) : Type 0 where
    most : owners s w' ≤ owners s w
    open_before : w'.shared.b_stop ≡ false → w.shared.b_stop ≡ false
    all_of : w'.shared.b_stop ≡ false → owners s w' ≡ owners s w

  abbrev occurs_picked : ℕ → Option (SqlConnection S × List (SqlConnection S)) → ℕ
  occurs_picked s none = 0
  occurs_picked s (some (c, others)) = one_if (c.slot == s) + occurs s others

  beside_lem :
      (s : ℕ) (x : SqlConnection S) (n : ℕ) (o : Option (SqlConnection S × List (SqlConnection S)))
      (c : SqlConnection S) (others : List (SqlConnection S))
      → ((y : SqlConnection S) (ys : List (SqlConnection S))
          → o ≡ some (y, ys)
          → n ≡ one_if (y.slot == s) + occurs s ys)
      → beside x o ≡ some (c, others)
      → one_if (x.slot == s) + n ≡ one_if (c.slot == s) + occurs s others
  unfolding occurs
  beside_lem s x n none c others k h = cc
  beside_lem s x n (some (y, ys)) c others k h = omega (arith, k y ys refl, ap (occurs_picked s) h)

  occurs-pick :
      (s : ℕ) (xs : List (SqlConnection S)) (i : ℕ) (c : SqlConnection S)
      (others : List (SqlConnection S))
      → pick xs i ≡ some (c, others)
      → occurs s xs ≡ one_if (c.slot == s) + occurs s others
  unfolding occurs pick
  occurs-pick s [] i c others h = cc
  occurs-pick s (x ∷ xs) zero c others h = ap (occurs_picked s) h
  occurs-pick s (x ∷ xs) (suc i) c others h =
      beside_lem s x (occurs s xs) (pick xs i) c others (λ y ys. occurs-pick s xs i y ys) h

  slot-refresh :
      (now : ℕ) (ping : Ping S) (c : SqlConnection S) → (refresh now ping c).slot ≡ c.slot
  unfolding refresh
  slot-refresh now answers c = ground arith
  slot-refresh now (reconnects s) c = ground arith

  next_gets :
      (s : ℕ) (w : World S) (xs : List (SqlConnection S))
      → w.shared.pool ≡ xs
      → Conserves s w (lend w.lent (front_of w.shared xs))
  unfolding lend front_of occurs
  next_gets s w [] e = record { most = omega arith; open_before = λ h. h; all_of = λ h. refl }
  next_gets s w (c ∷ cs) e =
      let n = ap (occurs s) e in
      record { most = omega (arith, n); open_before = λ h. h; all_of = λ h. omega (arith, n) }

  next_takes :
      (s n : ℕ) (w : World S) (xs : List (SqlConnection S))
      → w.shared.checked ≡ none
      → w.shared.pool ≡ xs
      → Conserves s w (record w { shared = check_front w.shared n xs })
  unfolding check_front occurs
  next_takes s n w [] c e = record { most = omega arith; open_before = λ h. h; all_of = λ h. refl }
  next_takes s n w (x ∷ xs) c e =
      let n = ap (occurs s) e in
      let m = ap (occurs_in s) c in
      record { most = omega (arith, n, m); open_before = λ h. h; all_of = λ h. omega (arith, n, m) }

  next_same : (s : ℕ) (w : World S) → Conserves s w w
  next_same s w = record { most = omega arith; open_before = λ h. h; all_of = λ h. refl }

  next_gives :
      (s i : ℕ) (w : World S) (c : SqlConnection S) (others : List (SqlConnection S))
      → pick w.lent i ≡ some (c, others)
      → Conserves s w (give_back w (some (c, others)))
  unfolding give_back return_connection
  next_gives s i w c others e =
      let n = occurs-pick s w.lent i c others e in
      let m = occurs-append s w.shared.pool c in
      elim (Bool-cases w.shared.b_stop) [
        | inl stopped ↦
            rw stopped
              (record { most = omega (arith, n); open_before = λ h. h; all_of = λ h. absurd (cc) })
        | inr open_ ↦ rw open_ (record {
          most = omega (arith, n, m);
          open_before = λ h. refl;
          all_of = λ h. omega (arith, n, m);
        })
      ]

  next_got :
      (s : ℕ) (w : World S) (stopped : Bool)
      → Conserves s w
          (lend w.lent (if stopped then (null, w.shared) else front_of w.shared w.shared.pool))
  unfolding lend
  next_got s w true = next_same s w
  next_got s w false = next_gets s w w.shared.pool refl

  next_given :
      (s i : ℕ) (w : World S) (o : Option (SqlConnection S × List (SqlConnection S)))
      → pick w.lent i ≡ o
      → Conserves s w (give_back w o)
  unfolding give_back
  next_given s i w none e = next_same s w
  next_given s i w (some (c, others)) e = next_gives s i w c others e

  next_begins :
      (s : ℕ) (w : World S) (o : Option (SqlConnection S))
      → Conserves s w
          (record w { shared = elim o [ none ↦ check_begin w.shared | some c ↦ w.shared ] })
  unfolding check_begin
  next_begins s w none = record { most = omega arith; open_before = λ h. h; all_of = λ h. refl }
  next_begins s w (some c) = next_same s w

  next_round :
      (s n : ℕ) (w : World S) (stopped : Bool)
      → w.shared.checked ≡ none
      → Conserves s w (record w {
        shared =
            if stopped
            then record w.shared { to_check = 0 }
            else check_front w.shared n w.shared.pool;
      })
  next_round s n w true e = record { most = omega arith; open_before = λ h. h; all_of = λ h. refl }
  next_round s n w false e = next_takes s n w w.shared.pool e refl

  next_check_take :
      (s n : ℕ) (w : World S)
      → w.shared.checked ≡ none
      → Conserves s w (record w { shared = check_take w.shared n })
  unfolding check_take
  next_check_take s zero w e = next_same s w
  next_check_take s (suc n) w e = next_round s n w w.shared.b_stop e

  next_taken :
      (s : ℕ) (w : World S) (o : Option (SqlConnection S))
      → w.shared.checked ≡ o
      → Conserves s w (record w {
        shared = elim o [ none ↦ check_take w.shared w.shared.to_check | some c ↦ w.shared ];
      })
  next_taken s w none e = next_check_take s w.shared.to_check w e
  next_taken s w (some c) e = next_same s w

  next_puts_back :
      (s now : ℕ) (ping : Ping S) (w : World S) (o : Option (SqlConnection S))
      → w.shared.checked ≡ o
      → Conserves s w (record w { shared = check_give now ping o w.shared })
  unfolding check_give
  next_puts_back s now ping w none e = next_same s w
  next_puts_back s now ping w (some c) e =
      let n = occurs-append s w.shared.pool (refresh now ping c) in
      let m = ap (occurs_in s) e in
      let same = ap (λ t. one_if (t == s)) (slot-refresh now ping c) in
      record {
        most = omega (arith, n, m, same);
        open_before = λ h. h;
        all_of = λ h. omega (arith, n, m, same);
      }

  step-Conserves : (s : ℕ) (w : World S) (e : Event S) → Conserves s w (step w e)
  unfolding step get_connection close
  step-Conserves s w gets = next_got s w w.shared.b_stop
  step-Conserves s w (gives i) = next_given s i w (pick w.lent i) refl
  step-Conserves s w closes = record {
    most = omega arith;
    open_before = λ h. absurd (cc);
    all_of = λ h. absurd (cc);
  }
  step-Conserves s w begins = next_begins s w w.shared.checked
  step-Conserves s w takes = next_taken s w w.shared.checked refl
  step-Conserves s w (puts_back now ping) = next_puts_back s now ping w w.shared.checked refl

  run-Conserves : (s : ℕ) (es : List (Event S)) (w : World S) → Conserves s w (run w es)
  unfolding run
  run-Conserves s [] w = next_same s w
  run-Conserves s (e ∷ es) w =
      let now = step-Conserves s w e in
      let later = run-Conserves s es (step w e) in
      record {
        most = omega (arith, now.most, later.most);
        open_before = λ h. now.open_before (later.open_before h);
        all_of = λ h. later.all_of h ∙ now.all_of (later.open_before h);
      }

  -- For every interleaving of the threads' turns, from any state on: a connection has at most as many
  -- owners (the pool, a caller, the check) as it had, and exactly as many if the pool is not closed by
  -- then: no connection is lost before `Close`.
  owners-run :
      (s : ℕ) (w : World S) (es : List (Event S))
      → (owners s (run w es) ≤ owners s w)
        × ((run w es).shared.b_stop ≡ false → owners s (run w es) ≡ owners s w)
  owners-run s w es = let r = run-Conserves s es w in (r.most, r.all_of)

  occurs-connect_all :
      (s slot now : ℕ) (attempts : List (Option S))
      → occurs s (connect_all slot now attempts) ≤ (if leb slot s then 1 else 0)
  unfolding occurs connect_all
  occurs-connect_all s slot now [] = omega arith
  occurs-connect_all s slot now (none ∷ attempts) = omega arith
  occurs-connect_all s slot now (some c ∷ attempts) =
      ground (arith, occurs-connect_all s (suc slot) now attempts)

  -- However many connects of the constructor succeed, and for every interleaving of the threads'
  -- turns after it: no connection has two owners. So while it is lent to one caller, it is neither in
  -- the pool nor with the check nor lent to another.
  pub owners-new_pool :
      (s now : ℕ) (attempts : List (Option S)) (es : List (Event S))
      → owners s (run (record { shared = new_pool now attempts; lent = [] }) es) ≤ 1
  unfolding new_pool occurs
  owners-new_pool s now attempts es =
      let w : World S = record { shared = new_pool now attempts; lent = [] } in
      ground (arith, (owners-run s w es).0, occurs-connect_all s 0 now attempts)
