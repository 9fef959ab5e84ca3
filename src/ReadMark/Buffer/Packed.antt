-- ===== src/ReadMark/Buffer/Packed.antt =====
-- A buffer seen as the list of the records that it holds.
use fbbs.Common.{
  ◌∙◌, ap, some, get_elem?, sym, subst, length-append, ℕ, ◌+◌, ◌≤◌, ◌≡◌, true, false, List, [], ◌∷◌,
  ◌++◌, arith, length, ltb,
}
use fbbs.Common.Memory.{StandsAt}
use fbbs.Common.Run.{ok}
use fbbs.ReadMark.{Brc}
use fbbs.ReadMark.Record.{pack, byte_at}
use fbbs.ReadMark.Record.Bytes.{length-pack}
use fbbs.ReadMark.Record.RoundTrip.{IsRecord, HasRecord, HasPut, record_size}
use fbbs.ReadMark.Buffer.{printable, more_records}

abbrev pub StartsPrintable : List ℕ → Type 0
StartsPrintable [] = ⊥
StartsPrintable (c ∷ cs) = printable c ≡ true

-- The records `bs` stand in `block` from `ptr` to `end`, one behind the other.
abbrev pub Packed : List ℕ → (ptr : ℕ) → List Brc → (end : ℕ) → Type 0
Packed block ptr [] end = ptr ≡ end
Packed block ptr (b ∷ bs) end =
    IsRecord b
    × StartsPrintable b.name
    × HasRecord block ptr b
    × Packed block (ptr + record_size b) bs end

abbrev pub total_size : List Brc → ℕ
total_size [] = 0
total_size (b ∷ bs) = record_size b + total_size bs

pub Packed-end :
    (block : List ℕ) (ptr : ℕ) (bs : List Brc) (end : ℕ)
    → Packed block ptr bs end
    → ptr + total_size bs ≡ end
Packed-end block ptr [] end h = omega arith
Packed-end block ptr (b ∷ bs) end h =
    omega (arith, Packed-end block (ptr + record_size b) bs end h.3)

-- The loops see each record of a packed buffer, and then stop.
pub more_records-cons :
    (block : List ℕ) (ptr : ℕ) (b : Brc) (bs : List Brc) (end : ℕ)
    → Packed block ptr (b ∷ bs) end
    → more_records block ptr end ≡ ok true
unfolding more_records byte_at
more_records-cons block ptr b bs end h = go b.name h.1 h.2.name_at
  where
    before : ltb ptr end ≡ true
    before = ground (arith, Packed-end block ptr (b ∷ bs) end h)

    go :
        (name : List ℕ)
        → StartsPrintable name
        → StandsAt block ptr (name ++ 0 ∷ [])
        → more_records block ptr end ≡ ok true
    go [] p at = absurd p
    go (c ∷ cs) p at =
        let here : get_elem? block ptr ≡ some c =
          ap (get_elem? block) (omega arith) ∙ at 0 (omega arith) in
        ground (arith, before)

pub more_records-end : (block : List ℕ) (end : ℕ) → more_records block end end ≡ ok false
unfolding more_records
more_records-end block end = ground arith

-- Putting one more record behind a packed buffer.
HasRecord-before :
    (block after : List ℕ) (ptr n : ℕ) (b c : Brc)
    → HasPut block ptr c after
    → IsRecord b
    → n + record_size b ≤ ptr
    → HasRecord block n b
    → HasRecord after n b
HasRecord-before block after ptr n b c p v h r = record {
  name_at =
      p.before n (b.name ++ 0 ∷ []) (omega (arith, length-append b.name (0 ∷ []), v.name_size))
        r.name_at;
  count_at = p.before (n + 20) (length b.items ∷ []) (omega arith) r.count_at;
  items_at = p.before (n + 21) (pack b.items) (omega (arith, length-pack b.items)) r.items_at;
}

pub Packed-put :
    (block after : List ℕ) (start ptr : ℕ) (bs : List Brc) (c : Brc)
    → Packed block start bs ptr
    → IsRecord c
    → StartsPrintable c.name
    → HasPut block ptr c after
    → Packed after start (bs ++ c ∷ []) (ptr + record_size c)
Packed-put block after start ptr [] c h v p put =
    (v, p, subst (λ (n : ℕ). HasRecord after n c) (sym h) put.stands, omega arith)
Packed-put block after start ptr (b ∷ bs) c h v p put = (
  h.0,
  h.1,
  HasRecord-before block after ptr start b c put h.0
      (omega (arith, Packed-end block start (b ∷ bs) ptr h)) h.2,
  Packed-put block after (start + record_size b) ptr bs c h.3 v p put,
)
