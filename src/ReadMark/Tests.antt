-- ===== src/ReadMark/Tests.antt =====
-- Runs of the read marks, and the theorems at concrete records.
use fbbs.Common.{
  zero, suc, sym, subst, suc, ℕ, ◌≤◌, ◌≡◌, refl, true, false, some, List, [], ◌∷◌, ◌++◌, arith,
  length, replicate,
}
use fbbs.Common.Run.{ok}
use fbbs.ReadMark.{
  Brc, scan, after_scan, behind, mark_as_read, unread, unread_loop, clear, zapbuf, last_read,
}
use fbbs.ReadMark.Marking.{IsValid, mark_as_read-IsValid, mark_as_read-other}
use fbbs.ReadMark.Clear.{clear_lem}
use fbbs.ReadMark.Record.{pack, put_record}
use fbbs.ReadMark.Record.RoundTrip.{IsRecord}
use fbbs.Common.Memory.{copy_in, StandsAt}
use fbbs.ReadMark.Buffer.{same_name, Buf, State, merge, sync, init, reset, fresh_buf, buf_size}
use fbbs.ReadMark.Buffer.Packed.{Packed}
use fbbs.ReadMark.Buffer.Merge.{merge_lem, others}
use fbbs.ReadMark.Buffer.Session.{load-saved, sync-init, length-fresh}

abbrev board : Brc
board = record { dirty = false; name = 97 ∷ 98 ∷ []; items = 9 ∷ 5 ∷ [] }

board-IsValid : IsValid board
board-IsValid = record { falling = ((omega arith, tt), (tt, tt)); bounded = omega arith }

board-IsRecord : IsRecord board
board-IsRecord = record {
  name_size = omega arith;
  name_text = (refl, (refl, tt));
  some_items = omega arith;
  few_items = omega arith;
  item_size = (omega arith, (omega arith, tt));
}

marks :
    (mark_as_read board 7 ≡ (true, record board { items = 9 ∷ 7 ∷ 5 ∷ []; dirty = true }))
    × (mark_as_read board 2 ≡ (false, record board { items = 9 ∷ 5 ∷ 2 ∷ []; dirty = true }))
    × (mark_as_read board 9 ≡ (false, board))
unfolding mark_as_read after_scan scan behind
marks = (refl, refl, refl)

unreads :
    (unread board 7 ≡ true)
    × (unread board 9 ≡ false)
    × (unread board 2 ≡ false)
    × (zapbuf board 3 ≡ 9)
    × (zapbuf board 0 ≡ 0)
    × (last_read board ≡ 9)
unfolding unread unread_loop zapbuf last_read
unreads = (refl, refl, refl, refl, refl, refl)

put_runs :
    put_record (replicate 30 1) 0 board
    ≡ ok (97 ∷ 98 ∷ 0 ∷ replicate 17 1 ++ 2 ∷ 9 ∷ 0 ∷ 0 ∷ 0 ∷ 5 ∷ 0 ∷ 0 ∷ 0 ∷ 1 ∷ [], 29)
unfolding put_record copy_in pack
put_runs = refl

mark_as_read-IsValid_example : IsValid (mark_as_read board 7).1
mark_as_read-IsValid_example = mark_as_read-IsValid board 7 board-IsValid

unread_7 : unread board 7 ≡ true
unfolding unread unread_loop
unread_7 = refl

unread_9 : unread board 9 ≡ false
unfolding unread unread_loop
unread_9 = refl

mark_as_read-other_example : unread (mark_as_read board 7).1 8 ≡ unread board 8
mark_as_read-other_example =
    mark_as_read-other board 7 8 (omega arith) (omega arith) unread_7 (omega arith)

clear_lem_example : (c : Brc) × (clear board 100 ≡ ok c) × IsValid c × (unread c 41 ≡ false)
clear_lem_example =
    clear_lem board 100 41 board-IsValid (omega arith) (omega arith) (omega arith) (omega arith)

abbrev block : List ℕ
block = replicate 40 0

abbrev other_board : Brc
other_board = record { dirty = false; name = 99 ∷ []; items = 4 ∷ [] }

other_board-IsRecord : IsRecord other_board
other_board-IsRecord = record {
  name_size = omega arith;
  name_text = (refl, tt);
  some_items = omega arith;
  few_items = omega arith;
  item_size = (omega arith, tt);
}

-- A file that holds one record.
abbrev other_buf : Buf
other_buf = record {
  size = 25;
  dirty = false;
  initialized = true;
  ptr = 99 ∷ 0 ∷ replicate 18 0 ++ 1 ∷ 4 ∷ 0 ∷ 0 ∷ 0 ∷ [];
}

other_name : StandsAt other_buf.ptr 0 (99 ∷ 0 ∷ [])
other_name zero h = refl
other_name (suc zero) h = refl
other_name (suc (suc i)) h = absurd (omega arith)

other_count : StandsAt other_buf.ptr 20 (1 ∷ [])
other_count zero h = refl
other_count (suc i) h = absurd (omega arith)

other_items : StandsAt other_buf.ptr 21 (pack (4 ∷ []))
unfolding pack
other_items zero h = refl
other_items (suc zero) h = refl
other_items (suc (suc zero)) h = refl
other_items (suc (suc (suc zero))) h = refl
other_items (suc (suc (suc (suc i)))) h = absurd (omega arith)

other_buf-Packed : Packed other_buf.ptr 0 (other_board ∷ []) 25
other_buf-Packed = (
  other_board-IsRecord,
  refl,
  record { name_at = other_name; count_at = other_count; items_at = other_items },
  refl,
)

abbrev marked : State
marked = record { buf = fresh_buf; brc = record board { dirty = true } }

marked-IsRecord : IsRecord marked.brc
marked-IsRecord = record {
  name_size = omega arith;
  name_text = (refl, (refl, tt));
  some_items = omega arith;
  few_items = omega arith;
  item_size = (omega arith, (omega arith, tt));
}

merge_lem_example :
    (t : State) × (merge marked other_buf ≡ ok t)
    × Packed t.buf.ptr 0 (marked.brc ∷ others marked.brc (other_board ∷ [])) t.buf.size
    × (t.buf.size ≤ buf_size)
    × (length t.buf.ptr ≡ buf_size)
    × (t.brc ≡ board)
merge_lem_example =
    merge_lem marked other_buf (other_board ∷ []) marked-IsRecord refl other_buf-Packed
      (omega arith) (omega arith) length-fresh

others_runs : others marked.brc (other_board ∷ board ∷ []) ≡ other_board ∷ []
unfolding others same_name
others_runs = refl

sync-init_example :
    (t : State) × (written : List ℕ) × (u : State) × (sync (some other_buf.ptr) marked
      ≡ ok (t, some written))
    × (init (some written) (97 ∷ 98 ∷ []) reset ≡ ok (2, u))
    × (u.brc.name ≡ 97 ∷ 98 ∷ [])
    × (u.brc.items ≡ 9 ∷ 5 ∷ [])
    × Packed u.buf.ptr 0 (marked.brc ∷ others marked.brc (other_board ∷ [])) u.buf.size
sync-init_example =
    let (read, loaded, size, whole, packed) =
      load-saved other_buf fresh_buf (other_board ∷ []) other_buf-Packed (omega arith) (omega arith)
        length-fresh in
    sync-init (some other_buf.ptr) marked read (other_board ∷ []) marked-IsRecord refl refl
      length-fresh loaded (subst (λ n. Packed read.ptr 0 (other_board ∷ []) n) (sym size) packed)
      (omega arith) whole
