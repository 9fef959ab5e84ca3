-- ===== src/Parcel/Tests.antt =====
-- Runs of the parcel, and the theorems at a concrete parcel.
use fbbs.Common.{ℕ, ◌≡◌, refl, ◌⊎◌, true, false, some, List, [], ◌∷◌, ◌++◌, arith, replicate}
use fbbs.Common.Alloc.{zeroing, exhausted, zeroing-IsAllocator}
use fbbs.Common.Memory.{StandsAt, copy_in}
use fbbs.Common.Run.{ok, fault, bad_shift, ◌>>=◌}
use fbbs.Parcel.{
  Parcel, double, make_room, append_bytes, write, groups, write_varuint64, write_varint,
  write_varint64, write_string, read_new, byte_at, read_uchar, read_loop, read_varuint64,
  read_varint64, read_varint, read_string_and_size,
}
use fbbs.Parcel.RoundTrip.{reader_of, ReadsBack, varuint64_round_trip, varint64_round_trip}
use fbbs.Parcel.Texts.{string_round_trip}
use fbbs.Parcel.Write.{OutOfMemory, IsOpen, Written, write_lem}

abbrev small : Parcel
small = record { size = 1; capacity = 4; ptr = some (9 ∷ 0 ∷ 0 ∷ 0 ∷ []); error = false }

small-IsOpen : IsOpen small
small-IsOpen = record {
  within = omega arith;
  positive = omega arith;
  bounded = omega arith;
  clean = refl;
  block = (9 ∷ 0 ∷ 0 ∷ 0 ∷ [], refl, refl);
}

groups_runs : (groups 10 300 ≡ ok (172 ∷ 2 ∷ [])) × (groups 10 0 ≡ ok (0 ∷ []))
unfolding groups
groups_runs = (refl, refl)

write_grows :
    write zeroing small (1 ∷ 2 ∷ 3 ∷ 4 ∷ [])
    ≡ ok (record {
      size = 5;
      capacity = 8;
      ptr = some (9 ∷ 1 ∷ 2 ∷ 3 ∷ 4 ∷ 0 ∷ 0 ∷ 0 ∷ []);
      error = false;
    })
unfolding write make_room double append_bytes copy_in
write_grows = refl

write_out_of_memory : (write exhausted small (1 ∷ 2 ∷ 3 ∷ 4 ∷ []) >>= λ p. ok p.error) ≡ ok true
unfolding write make_room double append_bytes copy_in
write_out_of_memory = refl

-- 3 is packed into one byte.
varint_runs :
    (write_varint zeroing small (3) >>= λ q. read_varint (reader_of q 1) >>= λ r. ok r.0) ≡ ok (3)
unfolding write_varint write_varuint64 groups write make_room double append_bytes copy_in
    read_varint read_varint64 read_varuint64 read_loop read_uchar byte_at
varint_runs = refl

abbrev endless_groups : Parcel
endless_groups = read_new (replicate 12 0x80) 12

-- A value with more than ten groups shifts by 70.
shift_too_far : read_varuint64 endless_groups ≡ fault bad_shift
unfolding read_varuint64 read_loop read_uchar byte_at read_new
shift_too_far = refl

write_lem_example :
    (q : Parcel) × (write zeroing small (1 ∷ 2 ∷ []) ≡ ok q)
    × (OutOfMemory zeroing q ⊎ Written small (1 ∷ 2 ∷ []) q)
write_lem_example =
    write_lem zeroing small (1 ∷ 2 ∷ []) zeroing-IsAllocator small-IsOpen (omega arith)

varuint64_round_trip_example :
    (q : Parcel) × (write_varuint64 zeroing small 300 ≡ ok q)
    × (OutOfMemory zeroing q ⊎ (IsOpen q × ReadsBack read_varuint64 q 1 300))
varuint64_round_trip_example =
    varuint64_round_trip zeroing zeroing-IsAllocator small small-IsOpen 300 (omega arith)
      (omega arith)

varint64_round_trip_example :
    (q : Parcel) × (write_varint64 zeroing small 5 ≡ ok q)
    × (OutOfMemory zeroing q ⊎ (IsOpen q × ReadsBack read_varint64 q 1 5))
varint64_round_trip_example =
    varint64_round_trip zeroing zeroing-IsAllocator small small-IsOpen 5 (omega arith) (omega arith)

abbrev hi : List ℕ
hi = 104 ∷ 105 ∷ []

string_round_trip_example :
    (q : Parcel) × (write_string zeroing small (some (hi ++ 0 ∷ 7 ∷ [])) ≡ ok q)
    × (OutOfMemory zeroing q
        ⊎ ((b : List ℕ) × (offset : ℕ) × (q.ptr ≡ some b)
            × StandsAt b offset (hi ++ 0 ∷ [])
            × (read_string_and_size (reader_of q 1)
                ≡ ok (some (offset, 2), record (reader_of q 1) { size = q.size }))))
string_round_trip_example =
    string_round_trip zeroing zeroing-IsAllocator small small-IsOpen hi (7 ∷ []) (omega arith)
      (refl, (refl, tt))
