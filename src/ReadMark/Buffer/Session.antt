-- ===== src/ReadMark/Buffer/Session.antt =====
-- `brc_sync` in one session and `brc_init` in the next.
use fbbs.Common.{
  sym, subst, get_elem?-take, length-take, take-all, length-append, ◌++◌, ◌∙◌, ℕ, ◌+◌, ◌-◌, ◌≤◌,
  ◌<◌, ◌≡◌, refl, true, false, Option, some, List, [], ◌∷◌, arith, length, get_elem?, take,
  length-replicate,
}
use fbbs.Common.Memory.{length-overlay, StandsAt, overlay, copy_in, copy_in-fits, get_elem?-overlay}
use fbbs.Common.Run.{ok}
use fbbs.ReadMark.{Brc}
use fbbs.ReadMark.Record.{pack}
use fbbs.ReadMark.Record.Bytes.{length-pack}
use fbbs.ReadMark.Record.RoundTrip.{IsRecord, record_size}
use fbbs.ReadMark.Buffer.{
  no_record, State, Buf, same_name, merge, load, saved, sync, init, reset, fresh_buf, buf_size,
  item_size,
}
use fbbs.ReadMark.Buffer.Packed.{Packed, Packed-end, StartsPrintable}
use fbbs.ReadMark.Buffer.Find.{search_records, find_loop_lem, now}
use fbbs.ReadMark.Buffer.Merge.{merge_lem, others}

pub length-fresh : length fresh_buf.ptr ≡ buf_size
unfolding fresh_buf
length-fresh = length-replicate {A = ℕ} buf_size 0

-- A packed buffer is packed in any block with the same bytes in front of `end`.
module _ (block copy : List ℕ) (end : ℕ)
    (same : (i : ℕ) → i < end → get_elem? copy i ≡ get_elem? block i) where
  StandsAt-same :
      (n : ℕ) (xs : List ℕ) → n + length xs ≤ end → StandsAt block n xs → StandsAt copy n xs
  StandsAt-same n xs h at i lt = same (n + i) (omega arith) ∙ at i lt

  Packed-same : (n : ℕ) (bs : List Brc) → Packed block n bs end → Packed copy n bs end
  Packed-same n [] h = h
  Packed-same n (b ∷ bs) h =
      let fits = Packed-end block n (b ∷ bs) end h in
      (
        h.0,
        h.1,
        record {
          name_at =
              StandsAt-same n (b.name ++ 0 ∷ [])
                (omega (arith, fits, length-append b.name (0 ∷ []), h.0.name_size)) h.2.name_at;
          count_at =
              StandsAt-same (n + 20) (length b.items ∷ []) (omega (arith, fits)) h.2.count_at;
          items_at =
              StandsAt-same (n + 21) (pack b.items) (omega (arith, fits, length-pack b.items))
                h.2.items_at;
        },
        Packed-same (n + record_size b) bs h.3,
      )

load-bytes :
    (bytes : List ℕ) (buf : Buf)
    → length bytes ≤ buf_size
    → length buf.ptr ≡ buf_size
    → load (some bytes) buf
      ≡ ok (record {
        size = length bytes;
        dirty = false;
        initialized = true;
        ptr = overlay buf.ptr 0 bytes;
      })
unfolding load
load-bytes bytes buf small size =
    let all : take buf_size bytes ≡ bytes = take-all buf_size bytes small in
    let copied : copy_in buf.ptr 0 bytes ≡ ok (overlay buf.ptr 0 bytes) =
      copy_in-fits buf.ptr 0 bytes (omega arith) in
    rw (all, copied)

-- Reading back what was saved.
pub load-saved :
    (buf old : Buf) (bs : List Brc)
    → Packed buf.ptr 0 bs buf.size
    → buf.size ≤ buf_size
    → buf.size ≤ length buf.ptr
    → length old.ptr ≡ buf_size
    → (r : Buf) × (load (some (saved buf)) old ≡ ok r)
      × (r.size ≡ buf.size)
      × (length r.ptr ≡ buf_size)
      × Packed r.ptr 0 bs buf.size
load-saved buf old bs h small size fresh =
    let n : length (saved buf) ≡ buf.size = omega (arith, length-take buf.size buf.ptr) in
    let fits : 0 + length (saved buf) ≤ length old.ptr = omega arith in
    (
      record {
        size = length (saved buf);
        dirty = false;
        initialized = true;
        ptr = overlay old.ptr 0 (saved buf);
      },
      load-bytes (saved buf) old (omega arith) fresh,
      n,
      length-overlay old.ptr 0 (saved buf) fits ∙ fresh,
      Packed-same buf.ptr (overlay old.ptr 0 (saved buf)) buf.size
          (λ i lt. ground (
            arith,
            get_elem?-overlay old.ptr 0 (saved buf) i fits,
            get_elem?-take buf.size buf.ptr i lt,
          ))
          0 bs h,
    )

same_name_refl : (xs : List ℕ) → same_name xs xs ≡ true
unfolding same_name
same_name_refl [] = refl
same_name_refl (x ∷ xs) = ground (arith, same_name_refl xs)

-- A session that opens a board whose record stands first in the file.
init_first :
    (file : List ℕ) (b : Brc) (bs : List Brc) (old r : Buf)
    → same_name [] b.name ≡ false
    → old.initialized ≡ false
    → load (some file) old ≡ ok r
    → Packed r.ptr 0 (b ∷ bs) r.size
    → r.size ≤ length r.ptr
    → init (some file) b.name (record { buf = old; brc = no_record })
      ≡ ok (length b.items, record { buf = r; brc = now no_record b })
unfolding init search_records
init_first file b bs old r other cold e h room = rw (
  e,
  other,
  cold,
  find_loop_lem (r.size + 1) r.ptr 0 (b ∷ bs) r.size no_record b.name h room (omega arith),
  same_name_refl b.name,
)

sync-steps :
    (file : Option (List ℕ)) (s t : State) (other : Buf)
    → s.brc.dirty ≡ true
    → load file fresh_buf ≡ ok other
    → merge s other ≡ ok t
    → sync file s ≡ ok (t, some (saved t.buf))
unfolding sync
sync-steps file s t other dirty e m = simp (dirty, e, m)

cold_buf : fresh_buf.initialized ≡ false
unfolding fresh_buf
cold_buf = refl

named : (name : List ℕ) → StartsPrintable name → same_name [] name ≡ false
unfolding same_name
named [] p = absurd p
named (c ∷ cs) p = refl

-- A session marked posts of a board, and the file holds packed records that leave room for one more.
-- `brc_sync` succeeds, and a session that starts from the file it wrote and opens the board has the
-- items of the first session; the records of the other boards are still in the buffer.
pub sync-init :
    (file : Option (List ℕ)) (s : State) (other : Buf) (bs : List Brc)
    → IsRecord s.brc
    → StartsPrintable s.brc.name
    → s.brc.dirty ≡ true
    → length s.buf.ptr ≡ buf_size
    → load file fresh_buf ≡ ok other
    → Packed other.ptr 0 bs other.size
    → other.size ≤ buf_size - item_size
    → length other.ptr ≡ buf_size
    → (t : State) × (written : List ℕ) × (u : State) × (sync file s ≡ ok (t, some written))
      × (init (some written) s.brc.name reset ≡ ok (length s.brc.items, u))
      × (u.brc.name ≡ s.brc.name)
      × (u.brc.items ≡ s.brc.items)
      × Packed u.buf.ptr 0 (s.brc ∷ others s.brc bs) u.buf.size
sync-init file s other bs v p dirty size e h room whole =
    let (t, merged, packed, small, n, brc) = merge_lem s other bs v p h room (omega arith) size in
    let (r, loaded, same, m, again) =
      load-saved t.buf fresh_buf (s.brc ∷ others s.brc bs) packed small (omega arith)
        length-fresh in
    let kept : Packed r.ptr 0 (s.brc ∷ others s.brc bs) r.size =
      subst (λ n. Packed r.ptr 0 (s.brc ∷ others s.brc bs) n) (sym same) again in
    (
      t,
      saved t.buf,
      record { buf = r; brc = now no_record s.brc },
      sync-steps file s t other dirty e merged,
      init_first (saved t.buf) s.brc (others s.brc bs) fresh_buf r (named s.brc.name p) cold_buf
          loaded kept (omega arith),
      refl,
      refl,
      kept,
    )
