-- ===== src/Parcel/Texts.antt =====
-- `parcel_write_string` and `parcel_read_string_and_size`, and the NULL string.
use fbbs.Common.{
  ℕ, ◌+◌, ◌^◌, ◌≤◌, ◌<◌, ◌≡◌, refl, ap, subst, ◌∙◌, ◌⊎◌, inl, inr, some, List, [], ◌∷◌, ◌++◌, arith,
  length, get_elem?, length-append, get_elem?-append, get_elem?-append_left, append_assoc,
  take-length-append,
}
use fbbs.Common.Alloc.{Allocator, IsAllocator}
use fbbs.Common.CString.{IsText, strlen-text}
use fbbs.Common.Memory.{StandsAt, copy_out}
use fbbs.Common.Run.{Run, ok, ◌>>=◌, bind_assoc}
use fbbs.Parcel.{
  Parcel, groups, write, write_bool, write_varuint64, write_text, write_string_with_size,
  write_string, read_bool, read_varuint64, read_string_and_size,
}
use fbbs.Parcel.Read.{read_uchar-byte}
use fbbs.Parcel.RoundTrip.{reader_of}
use fbbs.Parcel.Sequence.{Appends, write-Appends, then-Appends}
use fbbs.Parcel.Varint.{groups-total, read_groups, reader}
use fbbs.Parcel.Write.{OutOfMemory, IsOpen, Written}

copy_out-text : (s rest : List ℕ) → copy_out (s ++ rest) 0 (length s) ≡ ok s
unfolding copy_out
copy_out-text s rest =
    let room : length s ≤ length (s ++ rest) = omega (arith, length-append s rest) in
    ground (arith, take-length-append s rest)

-- Parts of a run of bytes.
StandsAt-left : (b : List ℕ) (n : ℕ) (xs ys : List ℕ) → StandsAt b n (xs ++ ys) → StandsAt b n xs
StandsAt-left b n xs ys h i lt =
    h i (omega (arith, length-append xs ys)) ∙ get_elem?-append_left xs ys i lt

StandsAt-right :
    (b : List ℕ) (n : ℕ) (xs ys : List ℕ) → StandsAt b n (xs ++ ys) → StandsAt b (n + length xs) ys
StandsAt-right b n xs ys h i lt =
    ap (get_elem? b) (omega arith)
    ∙ h (length xs + i) (omega (arith, length-append xs ys))
    ∙ ground (arith, get_elem?-append xs ys (length xs + i))

-- The bytes that a text of length `length s` becomes.
abbrev packed : (size s : List ℕ) → List ℕ
packed size s = (((0 ∷ []) ++ size) ++ s) ++ (0 ∷ [])

module _ (al : Allocator) (lawful : IsAllocator al) (p : Parcel) (v : IsOpen p) (s rest : List ℕ)
    (room : p.size + length s + 12 ≤ 2 ^ 62) where
  text-Appends :
      (bs : List ℕ)
      → groups 10 (length s) ≡ ok bs
      → length bs ≤ 10
      → Appends al p (packed bs s) (write_text al p (s ++ 0 ∷ rest) (length s))
  unfolding write_text write_bool write_varuint64
  text-Appends bs e n =
      rw (e, copy_out-text s (0 ∷ rest))
        (subst (Appends al p (packed bs s)) chain (
          then-Appends al lawful p v _ ((0 ∷ bs) ++ s) (0 ∷ []) (omega (arith, length-append bs s))
            (then-Appends al lawful p v _ (0 ∷ bs) s (omega arith) (
              then-Appends al lawful p v _ (0 ∷ []) bs (omega arith)
                (write-Appends al lawful p v (0 ∷ []) (omega arith))))))
    where
      put : List ℕ → Parcel → Run Parcel
      put bytes q = write al q bytes

      chain :
          (write al p (0 ∷ []) >>= (λ q. write al q bs) >>= (λ q. write al q s) >>= λ q.
          write al q (0 ∷ []))
          ≡ (write al p (0 ∷ []) >>= λ q.
              write al q bs >>= λ q. write al q s >>= λ q. write al q (0 ∷ []))
      chain =
          bind_assoc _ (λ q. write al q s) (λ q. write al q (0 ∷ []))
          ∙ bind_assoc (write al p (0 ∷ [])) (λ q. write al q bs)
              (λ q. write al q s >>= λ q. write al q (0 ∷ []))

  read_packed :
      (bs b : List ℕ) (q : Parcel)
      → groups 10 (length s) ≡ ok bs
      → q.ptr ≡ some b
      → StandsAt b p.size (packed bs s)
      → q.size ≡ p.size + length (packed bs s)
      → q.size + 1 < 2 ^ 64
      → read_string_and_size (reader_of q p.size)
        ≡ ok
            (some (p.size + 1 + length bs, length s), record (reader_of q p.size) { size = q.size })
  unfolding read_string_and_size read_bool read_varuint64
  read_packed bs b q e is at size top =
      rw
        (
          is,
          read_uchar-byte (reader b q.size bound p.size) b 0 refl (at0) within top,
          read_groups b q.size top 10 11 (p.size + 1) (length s) 0 0 bs e (omega arith) groups_at
              inside (omega arith) (omega arith) (omega arith),
        )
        (ground (arith, sizes))
    where
      bound : q.size + 1 < 2 ^ 64
      bound = top

      sizes : q.size ≡ p.size + 2 + length bs + length s
      sizes = omega (arith, size, length-append (bs ++ s) (0 ∷ []), length-append bs s)

      within : p.size ≤ q.size
      within = omega (arith, sizes)

      inside : p.size + 1 + length bs ≤ q.size
      inside = omega (arith, sizes)

      at0 : get_elem? b p.size ≡ some 0
      at0 = ap (get_elem? b) (omega arith) ∙ at 0 (omega arith)

      groups_at : StandsAt b (p.size + 1) bs
      groups_at = StandsAt-left b (p.size + 1) bs s (
          StandsAt-left b (p.size + 1) (bs ++ s) (0 ∷ [])
            (StandsAt-right b p.size (0 ∷ []) (bs ++ s ++ 0 ∷ []) at))

  -- A text that was written comes back as the offset at which it stands, its NUL behind it, and its
  -- length; or the parcel reports an error, and the allocator failed.
  pub string_round_trip :
      IsText s
      → (q : Parcel) × (write_string al p (some (s ++ 0 ∷ rest)) ≡ ok q)
        × (OutOfMemory al q
            ⊎ ((b : List ℕ) × (offset : ℕ) × (q.ptr ≡ some b)
                × StandsAt b offset (s ++ 0 ∷ [])
                × (read_string_and_size (reader_of q p.size)
                    ≡ ok (some (offset, length s), record (reader_of q p.size) { size = q.size }))))
  unfolding write_string write_string_with_size
  string_round_trip t =
      let (bs, e, n) = groups-total 9 (length s) (omega arith) in
      let (q, run, r) = text-Appends bs e n in (q, rw (strlen-text s rest t) run, result bs q e r)
    where
      result :
          (bs : List ℕ) (q : Parcel)
          → groups 10 (length s) ≡ ok bs
          → OutOfMemory al q ⊎ Written p (packed bs s) q
          → OutOfMemory al q
            ⊎ ((b : List ℕ) × (offset : ℕ) × (q.ptr ≡ some b)
                × StandsAt b offset (s ++ 0 ∷ [])
                × (read_string_and_size (reader_of q p.size)
                    ≡ ok (some (offset, length s), record (reader_of q p.size) { size = q.size })))
      result bs q e (inl bad) = inl bad
      result bs q e (inr w) =
          let (b, is, size) = w.valid.block in
          let here = w.new_bytes b is in
          inr (
            b,
            p.size + 1 + length bs,
            is,
            StandsAt-right b (p.size + 1) bs (s ++ 0 ∷ []) (
                subst (StandsAt b (p.size + 1)) (append_assoc bs s (0 ∷ []))
                  (StandsAt-right b p.size (0 ∷ []) (bs ++ s ++ 0 ∷ []) here)),
            read_packed bs b q e is here w.size (omega (arith, w.valid.within, w.valid.bounded)),
          )
