-- ===== src/Hash/Tests.antt =====
-- Runs of the hash table, and the theorems at concrete tables.
use fbbs.Common.{ℕ, ◌≡◌, refl, true, none, some, List, [], ◌∷◌, arith, if◌then◌else◌}
use fbbs.Common.Run.{ok, ◌>>=◌}
use fbbs.Hash.{
  Entry, Table, hash_func_default, hash_loop, same_bytes, find_in, put_in, remove_in, chain_at,
  take_entry, entry_for, hash_set, hash_get, expand, move_all, move_chain,
}
use fbbs.Hash.Iterate.{entries, visit, hash_begin, hash_begin_lem}
use fbbs.Hash.Lookup.{IsSlots, hash_set-get}

hashes : hash_func_default (97 ∷ 98 ∷ []) ≡ 3396
unfolding hash_func_default hash_loop
hashes = refl

abbrev entry_99 : Entry
entry_99 = record { key = 99 ∷ []; hash = 99; val = 5 }

-- Four slots and one entry, which stands in the slot 3.
abbrev small : Table
small = record { count = 1; max = 3; array = [] ∷ [] ∷ [] ∷ (entry_99 ∷ []) ∷ []; free = 0 }

small-IsSlots : IsSlots small
small-IsSlots = record { width = 2; mask = refl; size = refl }

abbrev first_byte : List ℕ → ℕ
first_byte key = elim key [ [] ↦ 0 | c ∷ cs ↦ c ]

set_runs :
    hash_set first_byte true true small (2 ∷ []) (some 7)
    ≡ ok (
      true,
      record small {
        count = 2;
        array = [] ∷ [] ∷ (record { key = 2 ∷ []; hash = 2; val = 7 } ∷ []) ∷ (entry_99 ∷ []) ∷ [];
      },
    )
unfolding hash_set entry_for take_entry find_in put_in chain_at
set_runs = refl

-- A table that has grown still has the entry.
grows :
    (hash_set first_byte true true (record small { count = 3 }) (2 ∷ []) (some 7) >>= λ r.
    hash_get first_byte r.1 (2 ∷ []))
    ≡ ok (some 7)
unfolding hash_set hash_get entry_for take_entry find_in put_in chain_at expand move_all move_chain
    same_bytes
grows = refl

removes : (hash_set first_byte true true small (99 ∷ []) none >>= λ r. ok r.1.free) ≡ ok 1
unfolding hash_set find_in same_bytes chain_at remove_in
removes = refl

hash_set-get_example :
    (w : Table) × (hash_set first_byte true true small (2 ∷ []) (some 7) ≡ ok (true, w))
    × IsSlots w
    × (hash_get first_byte w (2 ∷ []) ≡ (
        if same_bytes (2 ∷ []) (2 ∷ []) then ok (some 7) else hash_get first_byte small (2 ∷ [])))
hash_set-get_example =
    hash_set-get first_byte true small (2 ∷ []) 7 (2 ∷ []) small-IsSlots (omega arith)

missing : hash_get first_byte small (2 ∷ []) ≡ ok none
unfolding hash_get find_in chain_at
missing = refl

hash_begin_lem_example : (hash_begin true small >>= λ r. visit 1 small r) ≡ ok (entry_99 ∷ [])
unfolding entries
hash_begin_lem_example = hash_begin_lem small small-IsSlots (omega arith)
