-- ===== src/Uuid/Singleton.antt =====
-- `IdGenerator`: the flag of its `call_once` is local, so every call starts from a new worker, and
-- nothing of the calls before is left.
use bre_utils.Prelude.{ℕ, ◌+◌, ◌-◌, ◌*◌, ◌^◌, ◌≤◌, ◌<◌, ◌≡◌, ◌∙◌, sym, arith, ok}
use bre_utils.Prelude.Bits.{bit_or-shifted}
use bre_utils.Uuid.{IdGenerator, set_options, next_id}

-- Whatever the generator has handed out before, a call in the millisecond `now` gives the first
-- id of that millisecond.
pub next_id_lem :
    (start now : ℕ) (g : IdGenerator)
    → 631123200000 ≤ start
    → start ≤ now
    → 631123200000 < now
    → now - 631123200000 < 2 ^ 55
    → (next_id start now g).0 ≡ ok ((now - 631123200000) * 256 + 5)
unfolding next_id set_options
next_id_lem start now g h k n fits = ground (arith, bit_or-shifted 8 (now - 631123200000) 5)

-- Two calls in a row of `IdGenerator::Next` in one millisecond, which is after the base time and
-- fewer than 2 ^ 55 milliseconds after it, give the same id, whatever came before.
pub next_id_repeats :
    (start now start' : ℕ) (g : IdGenerator)
    → 631123200000 ≤ start
    → start ≤ start'
    → start' ≤ now
    → 631123200000 < now
    → now - 631123200000 < 2 ^ 55
    → (next_id start' now (next_id start now g).1).0 ≡ (next_id start now g).0
next_id_repeats start now start' g h k m n fits =
    next_id_lem start' now (next_id start now g).1 (omega arith) m n fits
    ∙ sym (next_id_lem start now g h (omega arith) n fits)
