-- ===== src/ReadMark/Buffer/Find.antt =====
-- The loop of `brc_init` over a packed buffer is a search in the list of its records.
use fbbs.Common.{
  inr, inl, ℕ, zero, suc, ◌+◌, ◌≤◌, ◌<◌, ◌≡◌, Bool, true, false, List, [], ◌∷◌, arith, length,
  if◌then◌else◌, Bool-cases,
}
use fbbs.Common.Run.{ok}
use fbbs.ReadMark.{Brc}
use fbbs.ReadMark.Record.RoundTrip.{get_record_lem, record_size}
use fbbs.ReadMark.Buffer.{same_name, find_loop}
use fbbs.ReadMark.Buffer.Packed.{Packed, Packed-end, more_records-cons, more_records-end}

-- `brc` after `b` was read into it.
abbrev pub now : Brc → Brc → Brc
now old b = record old { name = b.name; items = b.items }

-- The record of the board, or the last one.
unfoldable pub search_records : Brc → List Brc → List ℕ → Bool × Brc
search_records old [] name = (false, old)
search_records old (b ∷ bs) name =
    if same_name b.name name then (true, now old b) else search_records (now old b) bs name

-- On a packed buffer the loop of `brc_init` ends, and finds what a search in the list of its records
-- finds.
pub find_loop_lem :
    (fuel : ℕ) (block : List ℕ) (ptr : ℕ) (bs : List Brc) (end : ℕ) (old : Brc) (name : List ℕ)
    → Packed block ptr bs end
    → end ≤ length block
    → end < ptr + fuel
    → find_loop fuel block ptr end old name ≡ ok (search_records old bs name)
unfolding find_loop search_records
find_loop_lem zero block ptr bs end old name h k f =
    absurd (omega (arith, Packed-end block ptr bs end h))
find_loop_lem (suc fuel) block ptr [] end old name h k f = rw (h, more_records-end block end)
find_loop_lem (suc fuel) block ptr (b ∷ bs) end old name h k f =
    rw
      (
        more_records-cons block ptr b bs end h,
        get_record_lem block ptr b old h.0 h.2 (omega (arith, Packed-end block ptr (b ∷ bs) end h)),
      )
      (elim (Bool-cases (same_name b.name name)) [
        | inl here ↦ rw here
        | inr further ↦ rw further (
            find_loop_lem fuel block (ptr + record_size b) bs end (now old b) name h.3 k
              (omega arith))
      ])
