-- ===== src/ReadMark/Buffer/Merge.antt =====
-- `brc_merge`: the record of the current board, then those of the other boards.
use fbbs.Common.{
  ◌-◌, sym, ◌∙◌, subst, inr, ◌++◌, inl, ℕ, zero, suc, ◌+◌, ◌≤◌, ◌<◌, ◌≡◌, refl, true, false, List,
  [], ◌∷◌, arith, length, if◌then◌else◌, Bool-cases, append_assoc, append-nil,
}
use fbbs.Common.Run.{Run, ok}
use fbbs.ReadMark.{Brc}
use fbbs.ReadMark.Record.{put_record}
use fbbs.ReadMark.Record.RoundTrip.{IsRecord, get_record_lem, put_record_lem, record_size}
use fbbs.ReadMark.Buffer.{
  State, Buf, same_name, merge_loop, merge, merged_end, no_record, buf_size, item_size,
}
use fbbs.ReadMark.Buffer.Packed.{
  Packed, Packed-end, Packed-put, StartsPrintable, more_records-cons, more_records-end, total_size,
}
use fbbs.ReadMark.Buffer.Find.{now}

-- The records of the other boards.
unfoldable pub others : Brc → List Brc → List Brc
others own [] = []
others own (b ∷ bs) =
    let rest = others own bs in if same_name b.name own.name then rest else b ∷ rest

put_record-now :
    (block : List ℕ) (ptr : ℕ) (old b : Brc)
    → put_record block ptr (now old b) ≡ put_record block ptr b
unfolding put_record
put_record-now block ptr old b = refl

-- What a run of the loop from `ws` over `bs` returns.
abbrev Merged : Brc → (out : List ℕ) → (ptr : ℕ) → (ws bs : List Brc) → Run (List ℕ × ℕ) → Type 0
Merged own out ptr ws bs m =
    (r : List ℕ × ℕ) × (m ≡ ok r)
    × Packed r.0 0 (ws ++ others own bs) r.1
    × (r.1 ≤ ptr + total_size bs)
    × (length r.0 ≡ length out)

module _ (own : Brc) where
  Merged-skip :
      (out : List ℕ) (ptr : ℕ) (ws bs : List Brc) (b : Brc) (m : Run (List ℕ × ℕ))
      → same_name b.name own.name ≡ true
      → Merged own out ptr ws bs m
      → Merged own out ptr ws (b ∷ bs) m
  unfolding others
  Merged-skip out ptr ws bs b m same (r, e, p, le, n) = (r, e, rw same p, omega arith, n)

  Merged-put :
      (out after : List ℕ) (ptr : ℕ) (ws bs : List Brc) (b : Brc) (m : Run (List ℕ × ℕ))
      → same_name b.name own.name ≡ false
      → length after ≡ length out
      → Merged own after (ptr + record_size b) (ws ++ b ∷ []) bs m
      → Merged own out ptr ws (b ∷ bs) m
  unfolding others
  Merged-put out after ptr ws bs b m other size (r, e, p, le, n) = (
    r,
    e,
    rw other (subst (λ xs. Packed r.0 0 xs r.1) (append_assoc ws (b ∷ []) (others own bs)) p),
    omega arith,
    n ∙ size,
  )

  merge_loop_lem :
      (fuel : ℕ) (out : List ℕ) (ptr : ℕ) (from : List ℕ) (tmp end : ℕ) (old : Brc)
      (ws bs : List Brc)
      → Packed from tmp bs end
      → end ≤ length from
      → end < tmp + fuel
      → Packed out 0 ws ptr
      → ptr + total_size bs ≤ length out
      → Merged own out ptr ws bs (merge_loop fuel own out ptr from tmp end old)
  unfolding merge_loop
  merge_loop_lem zero out ptr from tmp end old ws bs h k f p room =
      absurd (omega (arith, Packed-end from tmp bs end h))
  merge_loop_lem (suc fuel) out ptr from tmp end old ws [] h k f p room = (
    (out, ptr),
    rw (h, more_records-end from end),
    unfold others in subst (λ xs. Packed out 0 xs ptr) (sym (append-nil ws)) p,
    omega arith,
    refl,
  )
  merge_loop_lem (suc fuel) out ptr from tmp end old ws (b ∷ bs) h k f p room =
      rw
        (
          more_records-cons from tmp b bs end h,
          get_record_lem from tmp b old h.0 h.2 (omega (arith, Packed-end from tmp (b ∷ bs) end h)),
        )
        (elim (Bool-cases (same_name b.name own.name)) [
          | inl same ↦ rw same (
              Merged-skip out ptr ws bs b _ same (
                merge_loop_lem fuel out ptr from (tmp + record_size b) end (now old b) ws bs h.3 k
                  (omega arith) p (omega arith)))
          | inr other ↦
              let (after, e, put) = put_record_lem out ptr b h.0 (omega arith) in
              rw (other, put_record-now out ptr old b, e)
                (Merged-put out after ptr ws bs b _ other put.size (
                  merge_loop_lem fuel after (ptr + record_size b) from (tmp + record_size b) end
                    (now old b) (ws ++ b ∷ []) bs h.3 k (omega arith)
                    (Packed-put out after 0 ptr ws b p h.0 h.1 put) (omega (arith, put.size))))
        ])

merge-steps :
    (s : State) (other : Buf) (first out : List ℕ) (ptr end : ℕ)
    → put_record s.buf.ptr 0 s.brc ≡ ok (first, 0 + record_size s.brc)
    → merged_end other.size ≡ end
    → merge_loop (end + 1) s.brc first (0 + record_size s.brc) other.ptr 0 end no_record
      ≡ ok (out, ptr)
    → merge s other
      ≡ ok (record {
        buf = record s.buf { size = ptr; dirty = true; ptr = out };
        brc = record s.brc { dirty = false };
      })
unfolding merge
merge-steps s other first out ptr end e same run = rw (e, same, run)

-- Merging the current record into a packed buffer that leaves room for it gives a packed buffer: the
-- current record first, then the records of the other boards in their order.
pub merge_lem :
    (s : State) (other : Buf) (bs : List Brc)
    → IsRecord s.brc
    → StartsPrintable s.brc.name
    → Packed other.ptr 0 bs other.size
    → other.size ≤ buf_size - item_size
    → other.size ≤ length other.ptr
    → length s.buf.ptr ≡ buf_size
    → (t : State) × (merge s other ≡ ok t)
      × Packed t.buf.ptr 0 (s.brc ∷ others s.brc bs) t.buf.size
      × (t.buf.size ≤ buf_size)
      × (length t.buf.ptr ≡ buf_size)
      × (t.brc ≡ record s.brc { dirty = false })
unfolding merge
merge_lem s other bs v p h room whole size =
    let own_size : record_size s.brc ≤ item_size = omega (arith, v.few_items) in
    let (first, e, put) = put_record_lem s.buf.ptr 0 s.brc v (omega arith) in
    let end : merged_end other.size ≡ other.size = ground arith in
    let (r, run, packed, le, n) =
      merge_loop_lem s.brc (other.size + 1) first (0 + record_size s.brc) other.ptr 0 other.size
        no_record (s.brc ∷ []) bs h whole (omega arith)
        (Packed-put s.buf.ptr first 0 0 [] s.brc refl v p put)
        (omega (arith, put.size, Packed-end other.ptr 0 bs other.size h)) in
    (
      record {
        buf = record s.buf { size = r.1; dirty = true; ptr = r.0 };
        brc = record s.brc { dirty = false };
      },
      merge-steps s other first r.0 r.1 other.size e end run,
      packed,
      omega (arith, Packed-end other.ptr 0 bs other.size h),
      n ∙ put.size ∙ size,
      refl,
    )
