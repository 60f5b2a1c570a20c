-- ===== src/Buffer/Tests.antt =====
-- Runs of `Buffer` on small inputs, and the theorems at inputs that meet their hypotheses.
use bre_utils.Prelude.{◌≡◌, refl, List, [], ◌∷◌, codes, arith, ok, err}
use bre_utils.Buffer.{Buffer, out_of_range, init, append, retrieve_until, retrieve_all}
use bre_utils.Buffer.Inv.{IsValid, init-IsValid}
use bre_utils.Prelude.{find?}
use bre_utils.Buffer.Run.{Op, put, get, get_until, get_all, run, queue_run, run_refines}

-- "ab\ncd" behind two bytes that were read, in a vector of eight.
abbrev lines : Buffer
lines = record { buffer = codes "xxab\ncd."; read_pos = 2; write_pos = 7 }

lines-IsValid : IsValid lines
lines-IsValid = omega arith

-- The bytes do not fit behind the write offset: the unread ones move to the front.
append_moves :
    append lines (codes "EF")
    ≡ ok (record { buffer = codes "ab\ncdEF."; read_pos = 0; write_pos = 7 })
unfolding append
append_moves = refl

-- They do not fit at all: the vector grows.
append_grows :
    append lines (codes "EFGH")
    ≡ ok (record { buffer = codes "xxab\ncdEFGH"; read_pos = 2; write_pos = 11 })
unfolding append
append_grows = refl

abbrev script : List Op
script =
    put (codes "e\nf")
    ∷ get_until (codes "\n")
    ∷ get 1
    ∷ get_until (codes "\n")
    ∷ get 9
    ∷ get_all
    ∷ []

run-lines :
    run lines script
    ≡ ok []
      ∷ ok (codes "ab\n")
      ∷ ok (codes "c")
      ∷ ok (codes "de\n")
      ∷ err out_of_range
      ∷ ok (codes "f")
      ∷ []
unfolding run append retrieve_until find? retrieve_all
run-lines = refl

init-IsValid_example : IsValid (init 1024)
init-IsValid_example = init-IsValid 1024 (omega arith)

run_refines_example : run lines script ≡ queue_run (codes "ab\ncd") script
run_refines_example = run_refines script lines-IsValid (omega arith)
