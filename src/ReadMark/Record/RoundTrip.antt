-- ===== src/ReadMark/Record/RoundTrip.antt =====
-- A record that was put into a buffer is the record that is got from there.
use fbbs.Common.{
  subst, false, ◌==◌, append_assoc, take-append-drop, ◌∙◌, some, sym, ℕ, ◌+◌, ◌*◌, ◌^◌, ◌≤◌, ◌<◌,
  ◌≡◌, ap, List, [], ◌∷◌, ◌++◌, arith, length, take, drop, All, length-append, take-all, get_elem?,
  min,
}
use fbbs.Common.CString.{IsText, contents, contents-text}
use fbbs.Common.Memory.{
  copy_out-StandsAt, StandsAt, overlay, copy_in-fits, copy_out, take-drop_at, overlay-StandsAt,
  overlay-StandsAt_before, length-overlay,
}
use fbbs.Common.Run.{ok}
use fbbs.ReadMark.{Brc, max_num}
use fbbs.ReadMark.Record.{pack, clip, put_record, byte_at, get_record}
use fbbs.ReadMark.Record.Bytes.{length-pack, unpack-pack}

-- A record that fits into its fields.
pub record IsRecord (b : Brc) : Type 0 where
  pub name_size : length b.name ≤ 19
  pub name_text : IsText b.name
  pub some_items : 0 < length b.items
  pub few_items : length b.items ≤ max_num
  pub item_size : All (λ x. x < 2 ^ 32) b.items

abbrev pub record_size : Brc → ℕ
record_size b = 21 + length b.items * 4

-- The bytes of the record stand at `ptr`.
pub record HasRecord (block : List ℕ) (ptr : ℕ) (b : Brc) : Type 0 where
  pub name_at : StandsAt block ptr (b.name ++ 0 ∷ [])
  pub count_at : StandsAt block (ptr + 20) (length b.items ∷ [])
  pub items_at : StandsAt block (ptr + 21) (pack b.items)

contents-StandsAt :
    (block : List ℕ) (n : ℕ) (s : List ℕ)
    → IsText s
    → StandsAt block n (s ++ 0 ∷ [])
    → n + length s + 1 ≤ length block
    → contents (drop n block) ≡ ok s
contents-StandsAt block n s t at h =
    let whole : length (s ++ 0 ∷ []) ≡ length s + 1 = omega (arith, length-append s (0 ∷ [])) in
    let here = take-drop_at block n (s ++ 0 ∷ []) at (omega (arith, whole)) in
    ap contents (
      sym (take-append-drop (length (s ++ 0 ∷ [])) (drop n block))
      ∙ ap (λ xs. xs ++ drop (length (s ++ 0 ∷ [])) (drop n block)) here
      ∙ append_assoc s (0 ∷ []) (drop (length (s ++ 0 ∷ [])) (drop n block)))
    ∙ contents-text s (drop (length (s ++ 0 ∷ [])) (drop n block)) t

byte_at-StandsAt : (block : List ℕ) (n x : ℕ) → StandsAt block n (x ∷ []) → byte_at block n ≡ ok x
unfolding byte_at
byte_at-StandsAt block n x at =
    let here : get_elem? block n ≡ some x =
      ap (get_elem? block) (omega arith) ∙ at 0 (omega arith) in
    ground arith

pub get_record_lem :
    (block : List ℕ) (ptr : ℕ) (b old : Brc)
    → IsRecord b
    → HasRecord block ptr b
    → ptr + record_size b ≤ length block
    → get_record block ptr old
      ≡ ok (record old { name = b.name; items = b.items }, ptr + record_size b)
unfolding get_record
get_record_lem block ptr b old v h room =
    rw
      (
        contents-StandsAt block ptr b.name v.name_text h.name_at (omega (arith, v.name_size)),
        byte_at-StandsAt block (ptr + 20) (length b.items) h.count_at,
        few,
        bytes,
        name,
        unpack-pack b.items v.item_size,
      )
      (ap (λ (n : ℕ). ok (record old { name = b.name; items = b.items }, n)) (omega arith))
  where
    few : min (length b.items) max_num ≡ length b.items
    few = omega (arith, v.few_items)

    size : length b.items * 4 ≡ length (pack b.items)
    size = omega (arith, length-pack b.items)

    bytes : copy_out block (ptr + 20 + 1) (length b.items * 4) ≡ ok (pack b.items)
    bytes =
        let at : ptr + 20 + 1 ≡ ptr + 21 = omega arith in
        rw at (
          copy_out-StandsAt block (ptr + 21) (length b.items * 4) (pack b.items) h.items_at size
            (omega arith))

    name : clip b.name ≡ b.name
    name = take-all 19 b.name v.name_size

-- What `put_record` leaves: the record stands at the pointer, the bytes in front of it stay.
pub record HasPut (block : List ℕ) (ptr : ℕ) (b : Brc) (after : List ℕ) : Type 0 where
  pub stands : HasRecord after ptr b
  pub size : length after ≡ length block
  pub before :
      (n : ℕ) (xs : List ℕ) → n + length xs ≤ ptr → StandsAt block n xs → StandsAt after n xs

pub put_record_lem :
    (block : List ℕ) (ptr : ℕ) (b : Brc)
    → IsRecord b
    → ptr + record_size b ≤ length block
    → (after : List ℕ) × (put_record block ptr b ≡ ok (after, ptr + record_size b))
      × HasPut block ptr b after
unfolding put_record
put_record_lem block ptr b v room = (
  full,
  rw
      (
        nonempty,
        name,
        few,
        items,
        copy_in-fits block ptr (b.name ++ 0 ∷ []) name_room,
        copy_in-fits named (ptr + 20) (length b.items ∷ []) count_room,
        copy_in-fits sized (ptr + 20 + 1) (pack b.items) items_room,
      )
      (ap (λ (n : ℕ). ok (full, n)) (omega arith)),
  record {
    stands = record {
      name_at = over_items ptr (b.name ++ 0 ∷ []) (omega (arith, name_size)) (
          over_count ptr (b.name ++ 0 ∷ []) name_fits
            (overlay-StandsAt block ptr (b.name ++ 0 ∷ []) name_room));
      count_at =
          over_items (ptr + 20) (length b.items ∷ []) (omega arith)
            (overlay-StandsAt named (ptr + 20) (length b.items ∷ []) count_room);
      items_at =
          let at : ptr + 20 + 1 ≡ ptr + 21 = omega arith in
          subst (λ (n : ℕ). StandsAt full n (pack b.items)) at
            (overlay-StandsAt sized (ptr + 20 + 1) (pack b.items) items_room);
    };
    size = length-overlay sized (ptr + 20 + 1) (pack b.items) items_room ∙ sized_size;
    before = λ n xs h at. over_items n xs (omega arith) (
        over_count n xs (omega arith)
          (overlay-StandsAt_before block ptr (b.name ++ 0 ∷ []) name_room n xs h at));
  },
)
  where
    named : List ℕ
    named = overlay block ptr (b.name ++ 0 ∷ [])

    sized : List ℕ
    sized = overlay named (ptr + 20) (length b.items ∷ [])

    full : List ℕ
    full = overlay sized (ptr + 20 + 1) (pack b.items)

    nonempty : (length b.items == 0) ≡ false
    nonempty = ground (arith, v.some_items)

    name : clip b.name ≡ b.name
    name = take-all 19 b.name v.name_size

    few : min (length b.items) max_num ≡ length b.items
    few = omega (arith, v.few_items)

    items : take (length b.items) b.items ≡ b.items
    items = take-all (length b.items) b.items (omega arith)

    name_size : length (b.name ++ 0 ∷ []) ≤ 20
    name_size = omega (arith, length-append b.name (0 ∷ []), v.name_size)

    name_room : ptr + length (b.name ++ 0 ∷ []) ≤ length block
    name_room = omega (arith, name_size)

    named_size : length named ≡ length block
    named_size = length-overlay block ptr (b.name ++ 0 ∷ []) name_room

    count_room : ptr + 20 + 1 ≤ length named
    count_room = omega (arith, named_size)

    sized_size : length sized ≡ length block
    sized_size = length-overlay named (ptr + 20) (length b.items ∷ []) count_room ∙ named_size

    items_room : ptr + 20 + 1 + length (pack b.items) ≤ length sized
    items_room = omega (arith, sized_size, length-pack b.items)

    name_fits : ptr + length (b.name ++ 0 ∷ []) ≤ ptr + 20
    name_fits = omega (arith, name_size)

    over_count :
        (n : ℕ) (xs : List ℕ) → n + length xs ≤ ptr + 20 → StandsAt named n xs → StandsAt sized n xs
    over_count = overlay-StandsAt_before named (ptr + 20) (length b.items ∷ []) count_room

    over_items :
        (n : ℕ) (xs : List ℕ)
        → n + length xs ≤ ptr + 20 + 1
        → StandsAt sized n xs
        → StandsAt full n xs
    over_items = overlay-StandsAt_before sized (ptr + 20 + 1) (pack b.items) items_room

-- A record that fits its fields, put into a block with room for it, is the record that is got from
-- there, and both pointers end behind it.
pub record_round_trip :
    (block : List ℕ) (ptr : ℕ) (b old : Brc)
    → IsRecord b
    → ptr + record_size b ≤ length block
    → (after : List ℕ) × (put_record block ptr b ≡ ok (after, ptr + record_size b))
      × (get_record after ptr old
          ≡ ok (record old { name = b.name; items = b.items }, ptr + record_size b))
record_round_trip block ptr b old v room =
    let (after, e, put) = put_record_lem block ptr b v room in
    (after, e, get_record_lem after ptr b old v put.stands (omega (arith, put.size)))
