-- ===== src/Terminal/Output/Stream.antt =====
-- The output buffer against the stream of bytes that it stands for.
use fbbs.Common.{
  length-drop, take-append-drop, append_assoc, sym, ap, length-take, append-nil, ◌∙◌, ℕ, zero, suc,
  ◌+◌, ◌-◌, ◌%◌, ◌≤◌, ◌<◌, ◌≡◌, refl, true, false, List, [], ◌∷◌, ◌++◌, arith, ltb, leb, ◌==◌,
  if◌then◌else◌, length, take, drop, inl, inr, Bool-cases,
}
use fbbs.Common.Memory.{take-overlay, copy_in, overlay, copy_in-fits, length-overlay}
use fbbs.Common.Run.{Run, ok}
use fbbs.Terminal.Output.{Output, buffer_size, flush, write_loop, write_cached}

pub record IsOutput (o : Output) : Type 0 where
  pub whole : length o.ptr ≡ buffer_size
  pub within : o.size ≤ buffer_size

-- What the terminal has got or will get.
abbrev pub stream : Output → List ℕ
stream o = o.sent ++ take o.size o.ptr

pub flush-IsOutput : (o : Output) → IsOutput o → IsOutput (flush o)
unfolding flush
flush-IsOutput o v = elim (Bool-cases (ltb 0 o.size)) [
  | inl some_bytes ↦ rw some_bytes (record { whole = v.whole; within = omega arith })
  | inr empty ↦ rw empty (record { whole = v.whole; within = omega arith })
]

pub flush-stream : (o : Output) → (stream (flush o) ≡ stream o) × ((flush o).size ≡ 0)
unfolding flush
flush-stream o = elim (Bool-cases (ltb 0 o.size)) [
  | inl some_bytes ↦ rw some_bytes (append-nil (o.sent ++ take o.size o.ptr), refl)
  | inr empty ↦
      let none_left : o.size ≡ 0 = ground arith in
      rw empty (ap (λ (n : ℕ). o.sent ++ take n o.ptr) (sym none_left), refl)
]

-- The level of the buffer after `k` more bytes at the level `n`.
unfoldable pub level_after : (n k : ℕ) → ℕ
level_after n k = if leb (n + k) buffer_size then n + k else (n + k - 1) % buffer_size + 1

pub record Wrote (o : Output) (str : List ℕ) (w : Output) : Type 0 where
  pub valid : IsOutput w
  pub bytes : stream w ≡ stream o ++ str
  pub level : w.size ≡ level_after o.size (length str)

-- The buffer with the bytes behind what it holds.
abbrev pub added : Output → List ℕ → Output
added o str = record o { ptr = overlay o.ptr o.size str; size = o.size + length str }

pub added-lem :
    (o : Output) (str : List ℕ)
    → IsOutput o
    → o.size + length str ≤ buffer_size
    → (copy_in o.ptr o.size str ≡ ok (overlay o.ptr o.size str))
      × IsOutput (added o str)
      × (stream (added o str) ≡ stream o ++ str)
added-lem o str v h =
    let room : o.size + length str ≤ length o.ptr = omega (arith, v.whole) in
    (
      copy_in-fits o.ptr o.size str room,
      record { whole = length-overlay o.ptr o.size str room ∙ v.whole; within = h },
      ap (λ (t : List ℕ). o.sent ++ t) (take-overlay o.ptr o.size str room)
          ∙ sym (append_assoc o.sent (take o.size o.ptr) str),
    )

-- The steps of the loop, as equations.
write_loop-done : (fuel : ℕ) (o : Output) → write_loop (suc fuel) o [] ≡ ok o
unfolding write_loop
write_loop-done fuel o = ground arith

write_loop-fits :
    (fuel : ℕ) (o : Output) (c : ℕ) (str : List ℕ) (ptr : List ℕ)
    → o.size + length (c ∷ str) ≤ buffer_size
    → copy_in o.ptr o.size (c ∷ str) ≡ ok ptr
    → write_loop (suc fuel) o (c ∷ str)
      ≡ ok (record o { ptr = ptr; size = o.size + length (c ∷ str) })
unfolding write_loop
write_loop-fits fuel o c str ptr h e =
    let more : ltb 0 (length (c ∷ str)) ≡ true = ground arith in
    let fits : ltb (buffer_size - o.size) (length (c ∷ str)) ≡ false = ground arith in
    rw (more, fits, e) refl

write_loop-fills :
    (fuel : ℕ) (o : Output) (str ptr : List ℕ)
    → o.size ≤ buffer_size
    → buffer_size < o.size + length str
    → copy_in o.ptr o.size (take (buffer_size - o.size) str) ≡ ok ptr
    → write_loop (suc fuel) o str
      ≡ write_loop fuel
          (flush (record o { ptr = ptr; size = o.size + (buffer_size - o.size) }))
          (drop (buffer_size - o.size) str)
unfolding write_loop
write_loop-fills fuel o str ptr room h e =
    let more : ltb 0 (length str) ≡ true = ground arith in
    let fills : ltb (buffer_size - o.size) (length str) ≡ true = ground arith in
    rw (more, fills, e) refl

abbrev pub Writes : Output → List ℕ → Run Output → Type 0
Writes o str m = (w : Output) × (m ≡ ok w) × Wrote o str w

level_wraps :
    (n k : ℕ)
    → n ≤ buffer_size
    → buffer_size < n + k
    → level_after 0 (k - (buffer_size - n)) ≡ level_after n k
unfolding level_after
level_wraps n k h more = elim (Bool-cases (leb (0 + (k - (buffer_size - n))) buffer_size)) [
  | inl short ↦ ground arith
  | inr long ↦
      let last : (0 + (k - (buffer_size - n)) - 1) % 4088 ≡ (n + k - 1) % 4088 = omega arith in
      ground arith
]

-- A loop that goes on with an empty buffer.
after_flush :
    (o w : Output) (str : List ℕ)
    → IsOutput o
    → buffer_size < o.size + length str
    → let len = buffer_size - o.size in
      Wrote (flush (added o (take len str))) (drop len str) w → Wrote o str w
after_flush o w str v h wrote =
    let len : ℕ = buffer_size - o.size in
    let part : length (take len str) ≡ len = omega (arith, length-take len str) in
    let (e, valid, bytes) = added-lem o (take len str) v (omega (arith, v.within)) in
    let (same, empty) = flush-stream (added o (take len str)) in
    record {
      valid = wrote.valid;
      bytes =
          wrote.bytes
          ∙ ap (λ (t : List ℕ). t ++ drop len str) (same ∙ bytes)
          ∙ append_assoc (stream o) (take len str) (drop len str)
          ∙ ap (λ (t : List ℕ). stream o ++ t) (take-append-drop len str);
      level =
          wrote.level
          ∙ ap (λ (n : ℕ). level_after n (length (drop len str))) empty
          ∙ ap (level_after 0) (length-drop len str)
          ∙ level_wraps o.size (length str) v.within h;
    }

write_loop-Writes :
    (fuel : ℕ) (o : Output) (str : List ℕ)
    → IsOutput o
    → length str + (if o.size == buffer_size then 1 else 0) < fuel
    → Writes o str (write_loop fuel o str)
write_loop-Writes zero o str v f = absurd (omega arith)
write_loop-Writes (suc fuel) o [] v f = (
  o,
  write_loop-done fuel o,
  record {
    valid = v;
    bytes = sym (append-nil (stream o));
    level = unfold level_after in ground (arith, v.within);
  },
)
write_loop-Writes (suc fuel) o (c ∷ str) v f =
    elim (Bool-cases (leb (o.size + length (c ∷ str)) buffer_size)) [
      | inl fits ↦
          let h : o.size + length (c ∷ str) ≤ buffer_size = ground arith in
          let (e, valid, bytes) = added-lem o (c ∷ str) v h in
          (
            added o (c ∷ str),
            write_loop-fits fuel o c str (overlay o.ptr o.size (c ∷ str)) h e,
            record { valid = valid; bytes = bytes; level = unfold level_after in ground arith },
          )
      | inr fills ↦
          let len : ℕ = buffer_size - o.size in
          let h : buffer_size < o.size + length (c ∷ str) = ground arith in
          let part : length (take len (c ∷ str)) ≡ len = omega (arith, length-take len (c ∷ str)) in
          let (e, valid, bytes) = added-lem o (take len (c ∷ str)) v (omega (arith, v.within)) in
          let next : Output = flush (added o (take len (c ∷ str))) in
          let empty : next.size ≡ 0 = (flush-stream (added o (take len (c ∷ str)))).1 in
          let (w, run, wrote) =
            write_loop-Writes fuel next (drop len (c ∷ str)) (flush-IsOutput _ valid)
              (ground (arith, length-drop len (c ∷ str), empty, v.within)) in
          (
            w,
            write_loop-fills fuel o (c ∷ str) (overlay o.ptr o.size (take len (c ∷ str))) v.within h
                  e
                ∙ ap
                    (λ (n : ℕ).
                      write_loop fuel
                        (flush (record o {
                          ptr = overlay o.ptr o.size (take len (c ∷ str));
                          size = o.size + n;
                        }))
                        (drop len (c ∷ str)))
                    (sym part)
                ∙ run,
            after_flush o w (c ∷ str) v h wrote,
          )
    ]

pub write_cached_lem : (o : Output) (str : List ℕ) → IsOutput o → Writes o str (write_cached o str)
unfolding write_cached
write_cached_lem o str v = write_loop-Writes (length str + 2) o str v (ground arith)
