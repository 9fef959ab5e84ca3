-- ===== src/Parcel/Fixed.antt =====
-- Booleans and integers of fixed size: what is written is what is read.
use fbbs.Common.{
  ℕ, ◌+◌, ◌^◌, ◌≤◌, ◌<◌, ◌≡◌, refl, ap, ◌∙◌, ◌⊎◌, inl, inr, Bool, some, List, [], ◌∷◌, arith,
  length, get_elem?, if◌then◌else◌,
}
use fbbs.Common.Alloc.{Allocator, IsAllocator}
use fbbs.Common.Endian.{little_endian, of_little_endian_lem}
use fbbs.Common.Memory.{copy_out, take-drop_at}
use fbbs.Common.Run.{ok}
use fbbs.Parcel.{Parcel, write_bool, write_int, write_int64, read, read_bool, read_int, read_int64}
use fbbs.Parcel.Read.{read_uchar-byte}
use fbbs.Parcel.RoundTrip.{reader_of, ReadsBack}
use fbbs.Parcel.Write.{OutOfMemory, IsOpen, Written, write_lem}

module _ (al : Allocator) (lawful : IsAllocator al) (p : Parcel) (v : IsOpen p) where
  read-Written :
      (bytes : List ℕ) (q : Parcel)
      → Written p bytes q
      → read (reader_of q p.size) (length bytes)
        ≡ ok (some bytes, record (reader_of q p.size) { size = q.size })
  unfolding read copy_out
  read-Written bytes q w =
      let (b, is, size) = w.valid.block in
      rw is (
        ground (
          arith,
          w.size,
          w.valid.within,
          w.valid.bounded,
          take-drop_at b p.size bytes (w.new_bytes b is) (omega (arith, w.size, w.valid.within)),
        ))

  -- A Boolean reads back, unless the allocator failed.
  pub bool_round_trip :
      (val : Bool)
      → p.size + 1 ≤ 2 ^ 62
      → (q : Parcel) × (write_bool al p val ≡ ok q)
        × (OutOfMemory al q ⊎ (IsOpen q × ReadsBack read_bool q p.size val))
  unfolding write_bool
  bool_round_trip val room =
      let (q, run, r) = write_lem al p ((if val then 1 else 0) ∷ []) lawful v (omega arith) in
      (q, run, result q r)
    where
      result :
          (q : Parcel)
          → OutOfMemory al q ⊎ Written p ((if val then 1 else 0) ∷ []) q
          → OutOfMemory al q ⊎ (IsOpen q × ReadsBack read_bool q p.size val)
      result q (inl bad) = inl bad
      result q (inr w) =
          let (b, is, size) = w.valid.block in
          let here : get_elem? b p.size ≡ some (if val then 1 else 0) =
            ap (get_elem? b) (omega arith) ∙ w.new_bytes b is 0 (omega arith) in
          let byte =
            read_uchar-byte (record (reader_of q p.size) { ptr = some b }) b (if val then 1 else 0)
              refl here (omega (arith, w.size)) (omega (arith, w.valid.within, w.valid.bounded)) in
          inr (w.valid, rw is (unfold read_bool in rw byte (ground (arith, w.size))))

  -- The four bytes of an integer read back, unless the allocator failed.
  pub int_round_trip :
      (val : ℕ)
      → p.size + 8 ≤ 2 ^ 62
      → val < 2 ^ 32
      → (q : Parcel) × (write_int al p val ≡ ok q)
        × (OutOfMemory al q ⊎ (IsOpen q × ReadsBack read_int q p.size val))
  unfolding write_int read_int
  int_round_trip val room small =
      let (q, run, r) = write_lem al p (little_endian 4 val) lawful v (omega arith) in
      (q, run, result q r)
    where
      result :
          (q : Parcel)
          → OutOfMemory al q ⊎ Written p (little_endian 4 val) q
          → OutOfMemory al q ⊎ (IsOpen q × ReadsBack read_int q p.size val)
      result q (inl bad) = inl bad
      result q (inr w) =
          inr
            (w.valid, rw (read-Written (little_endian 4 val) q w, of_little_endian_lem 4 val small))

  -- The eight bytes of an integer read back, unless the allocator failed.
  pub int64_round_trip :
      (val : ℕ)
      → p.size + 8 ≤ 2 ^ 62
      → val < 2 ^ 64
      → (q : Parcel) × (write_int64 al p val ≡ ok q)
        × (OutOfMemory al q ⊎ (IsOpen q × ReadsBack read_int64 q p.size val))
  unfolding write_int64 read_int64
  int64_round_trip val room small =
      let (q, run, r) = write_lem al p (little_endian 8 val) lawful v (omega arith) in
      (q, run, result q r)
    where
      result :
          (q : Parcel)
          → OutOfMemory al q ⊎ Written p (little_endian 8 val) q
          → OutOfMemory al q ⊎ (IsOpen q × ReadsBack read_int64 q p.size val)
      result q (inl bad) = inl bad
      result q (inr w) =
          inr
            (w.valid, rw (read-Written (little_endian 8 val) q w, of_little_endian_lem 8 val small))
