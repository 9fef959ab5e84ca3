-- ===== src/Terminal/Tests.antt =====
-- Runs of the terminal's buffers and keys, and the theorems at concrete input.
use fbbs.Common.{
  length-replicate, ℕ, ◌≤◌, ◌≡◌, refl, true, false, none, some, List, [], ◌∷◌, arith, replicate,
}
use fbbs.Common.Run.{ok, fault, bad_access, ◌>>=◌}
use fbbs.Terminal.Output.{Output, buffer_size, putchar, write_cached}
use fbbs.Terminal.Output.Stream.{IsOutput, level_after}
use fbbs.Terminal.Output.Refine.{
  put, write, run, spec_run, spec_step, Refines, run-Refines, full_overflows,
}
use fbbs.Terminal.Input.{iac_step, handle_iac, igetch, igetch_loop, plain_step, redraw}
use fbbs.Terminal.Input.Lines.{Ending, keys, cr, cr_lf, cr_nul, text, text_keys, keys-text}

-- A buffer that holds n bytes.
abbrev ready : ℕ → Output
ready n = record { ptr = replicate buffer_size 0; size = n; sent = [] }

ready-IsOutput : (n : ℕ) → n ≤ buffer_size → IsOutput (ready n)
ready-IsOutput n h = record { whole = length-replicate {A = ℕ} buffer_size 0; within = h }

run-Refines_example :
    (w : Output) × (run (ready 0) (put 321 ∷ write (66 ∷ 67 ∷ []) ∷ []) ≡ ok w)
    × Refines w (record { bytes = 65 ∷ 66 ∷ 67 ∷ []; level = 3 })
unfolding spec_run spec_step level_after
run-Refines_example =
    run-Refines (ready 0) (record { bytes = []; level = 0 }) (put 321 ∷ write (66 ∷ 67 ∷ []) ∷ [])
      (record { valid = ready-IsOutput 0 (omega arith); same = refl; level = refl })

full_overflows_example :
    (write_cached (ready 4086) (65 ∷ 66 ∷ []) >>= λ w. putchar w 67) ≡ fault bad_access
full_overflows_example =
    full_overflows (ready 4086) (65 ∷ 66 ∷ []) 67 (ready-IsOutput 4086 (omega arith)) refl

-- NOP, which has no option, takes the byte behind it; a request to redraw is no key.
command_takes :
    (igetch false (255 ∷ 241 ∷ 65 ∷ 66 ∷ [])
      ≡ ok (some (record { key = 66; cr = false; arg = none; calls = []; rest = [] })))
    × (igetch false (12 ∷ 13 ∷ 10 ∷ [])
        ≡ ok (
            some (record { key = 10; cr = true; arg = none; calls = redraw ∷ []; rest = 10 ∷ [] })))
unfolding igetch igetch_loop handle_iac iac_step plain_step
command_takes = (refl, refl)

abbrev two_lines : List (List ℕ × Ending)
two_lines = (65 ∷ 66 ∷ [], cr_lf) ∷ ([], cr) ∷ (67 ∷ [], cr_nul) ∷ []

keys-text_example :
    keys 9 false (65 ∷ 66 ∷ 13 ∷ 10 ∷ 13 ∷ 67 ∷ 13 ∷ 0 ∷ []) ≡ ok (65 ∷ 66 ∷ 10 ∷ 10 ∷ 67 ∷ 10 ∷ [])
unfolding text text_keys
keys-text_example = keys-text false two_lines ((refl, (refl, tt)), (tt, ((refl, tt), tt)))
