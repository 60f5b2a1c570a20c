-- ===== src/Uuid/Tests.antt =====
-- Runs of the id generator, and the theorems at inputs that meet their hypotheses.
use bre_utils.Prelude.{ℕ, ◌+◌, ◌≡◌, refl, none, List, [], ◌∷◌, arith, err}
use bre_utils.Uuid.{
  IdGenOptions, IdGenerator, SnowWorker, fresh, set_options, next, next_id, seq_bit_length_error,
}
use bre_utils.Uuid.Inv.{IsAccepted, fresh-IsValid}
use bre_utils.Uuid.Order.{mark, run, IsAscending, run-IsAscending}
use bre_utils.Uuid.Singleton.{next_id_repeats}

abbrev base : ℕ
base = 631123200000

-- Two bits: the numbers 1 to 3 below the minimum of 5 leave no choice, so three bits.
abbrev three_bits : IdGenOptions
three_bits = record { base_time = base; seq_bit_length = 3; max_seq_number = 0; min_seq_number = 5 }

abbrev worker : SnowWorker
worker = fresh three_bits

three_bits-IsAccepted : IsAccepted (base + 9) three_bits
three_bits-IsAccepted = omega arith

one_bit :
    set_options (base + 9) (record three_bits { seq_bit_length = 1 }) ≡ err seq_bit_length_error
unfolding set_options
one_bit = refl

-- Three numbers a tick; then the tick runs ahead of the clock, which goes back.
times : List ℕ
times = (base + 2) ∷ (base + 2) ∷ (base + 2) ∷ (base + 1) ∷ (base + 4) ∷ []

ids_of_times : run times worker ≡ 21 ∷ 22 ∷ 23 ∷ 29 ∷ 37 ∷ []
unfolding run next times
ids_of_times = refl

run-IsAscending_example : IsAscending (mark worker) (run times worker)
unfolding times
run-IsAscending_example =
    run-IsAscending times 4 (fresh-IsValid three_bits-IsAccepted) (omega arith) (omega arith)
      (omega arith)

next_id_repeats_example :
    let g : IdGenerator = record { worker = none } in
    (next_id (base + 8) (base + 9) (next_id (base + 7) (base + 9) g).1).0
    ≡ (next_id (base + 7) (base + 9) g).0
next_id_repeats_example =
    next_id_repeats (base + 7) (base + 9) (base + 8) (record { worker = none }) (omega arith)
      (omega arith) (omega arith) (omega arith) (omega arith)
