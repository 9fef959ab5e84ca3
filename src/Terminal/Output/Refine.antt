-- ===== src/Terminal/Output/Refine.antt =====
-- Any sequence of operations on the output buffer, against a stream of bytes with a level.
use fbbs.Common.{
  ap, ◌∙◌, ℕ, ◌+◌, ◌%◌, ◌^◌, ◌≡◌, refl, true, false, Option, none, some, List, [], ◌∷◌, ◌++◌, arith,
  ◌==◌, if◌then◌else◌, length, inl, inr, Bool-cases,
}
use fbbs.Common.Memory.{copy_in}
use fbbs.Common.Run.{Run, ok, fault, bad_access, ◌>>=◌}
use fbbs.Terminal.Output.{Output, buffer_size, flush, put_raw_ch, putchar, write_cached}
use fbbs.Terminal.Output.Stream.{
  IsOutput, stream, level_after, added, added-lem, flush-IsOutput, flush-stream, write_cached_lem,
}

pub data Op : Type 0 where
  put : ℕ → Op
  write : List ℕ → Op
  flush_all : Op

pub step : Output → Op → Run Output
step o (put c) = putchar o c
step o (write str) = write_cached o str
step o flush_all = ok (flush o)

unfoldable pub run : Output → List Op → Run Output
unfolding step
run o [] = ok o
run o (op ∷ ops) = do w ← step o op; run w ops

-- The bytes written so far, and how many of them the buffer holds.
pub record Stream : Type 0 where
  pub bytes : List ℕ
  pub level : ℕ

-- A single byte has no place in a buffer that is full.
unfoldable pub spec_step : Stream → Op → Option Stream
spec_step s (put c) =
    if s.level == buffer_size
    then none
    else some (record {
      bytes = s.bytes ++ (c % 2 ^ 8) ∷ [];
      level = if s.level + 1 == buffer_size then 0 else s.level + 1;
    })
spec_step s (write str) =
    some (record { bytes = s.bytes ++ str; level = level_after s.level (length str) })
spec_step s flush_all = some (record s { level = 0 })

unfoldable pub spec_run : Stream → List Op → Option Stream
spec_run s [] = some s
spec_run s (op ∷ ops) = elim (spec_step s op) [ none ↦ none | some t ↦ spec_run t ops ]

pub record Refines (o : Output) (s : Stream) : Type 0 where
  pub valid : IsOutput o
  pub same : stream o ≡ s.bytes
  pub level : o.size ≡ s.level

-- A run that ends as the specification says, or writes behind the buffer where that has no step.
abbrev pub Agrees : Run Output → Option Stream → Type 0
Agrees m none = m ≡ fault bad_access
Agrees m (some s) = (w : Output) × (m ≡ ok w) × Refines w s

putchar-full :
    (o : Output) (c : ℕ) → IsOutput o → o.size ≡ buffer_size → putchar o c ≡ fault bad_access
unfolding putchar copy_in
putchar-full o c v full = ground (arith, v.whole)

putchar-steps :
    (o w : Output) (c : ℕ) (ptr : List ℕ)
    → copy_in o.ptr o.size ((c % 2 ^ 8) ∷ []) ≡ ok ptr
    → (if o.size + 1 == buffer_size
        then flush (record o { ptr = ptr; size = o.size + 1 })
        else record o { ptr = ptr; size = o.size + 1 })
      ≡ w
    → putchar o c ≡ ok w
unfolding putchar put_raw_ch
putchar-steps o w c ptr e h = rw e (ap ok h)

putchar-Agrees :
    (o : Output) (s : Stream) (c : ℕ) → Refines o s → Agrees (putchar o c) (spec_step s (put c))
unfolding spec_step
putchar-Agrees o s c r = elim (Bool-cases (s.level == buffer_size)) [
  | inl full ↦ rw full (putchar-full o c r.valid (ground (arith, r.level)))
  | inr room ↦
      let b : List ℕ = (c % 2 ^ 8) ∷ [] in
      let (e, valid, bytes) = added-lem o b r.valid (ground (arith, r.level, r.valid.within)) in
      rw room (elim (Bool-cases (s.level + 1 == buffer_size)) [
        | inl fills ↦
            let now : (o.size + 1 == buffer_size) ≡ true = ground (arith, r.level) in
            let (same, empty) = flush-stream (added o b) in
            (
              flush (added o b),
              putchar-steps o (flush (added o b)) c _ e (rw now refl),
              rw fills (record {
                valid = flush-IsOutput (added o b) valid;
                same = same ∙ bytes ∙ ap (λ (t : List ℕ). t ++ b) r.same;
                level = empty;
              }),
            )
        | inr below ↦
            let now : (o.size + 1 == buffer_size) ≡ false = ground (arith, r.level) in
            (
              added o b,
              putchar-steps o (added o b) c _ e (rw now refl),
              rw below (record {
                valid = valid;
                same = bytes ∙ ap (λ (t : List ℕ). t ++ b) r.same;
                level = omega (arith, r.level);
              }),
            )
      ])
]

step-Agrees :
    (o : Output) (s : Stream) (op : Op) → Refines o s → Agrees (step o op) (spec_step s op)
unfolding step
step-Agrees o s (put c) r = putchar-Agrees o s c r
step-Agrees o s (write str) r =
    let (w, e, wrote) = write_cached_lem o str r.valid in
    unfold spec_step in
    (
      w,
      e,
      record {
        valid = wrote.valid;
        same = wrote.bytes ∙ ap (λ (t : List ℕ). t ++ str) r.same;
        level = wrote.level ∙ ap (λ (n : ℕ). level_after n (length str)) r.level;
      },
    )
step-Agrees o s flush_all r =
    let (same, empty) = flush-stream o in
    unfold spec_step in
    (
      flush o,
      refl,
      record { valid = flush-IsOutput o r.valid; same = same ∙ r.same; level = empty },
    )

Agrees-bind :
    (m : Run Output) (x : Option Stream) (next : Output → Run Output)
    (then_spec : Stream → Option Stream)
    → Agrees m x
    → ((w : Output) (t : Stream) → Refines w t → Agrees (next w) (then_spec t))
    → Agrees (m >>= next) (elim x [ none ↦ none | some t ↦ then_spec t ])
Agrees-bind m none next then_spec e rest = rw e refl
Agrees-bind m (some t) next then_spec (w, e, r) rest = rw e (rest w t r)

-- Every sequence of writes and flushes leaves in the buffer and sends exactly the bytes written, in
-- their order; it faults where a single byte is put into a buffer that a longer write left full, and
-- nowhere else.
pub run-Refines :
    (o : Output) (s : Stream) (ops : List Op) → Refines o s → Agrees (run o ops) (spec_run s ops)
unfolding run spec_run
run-Refines o s [] r = (o, refl, r)
run-Refines o s (op ∷ ops) r =
    Agrees-bind (step o op) (spec_step s op) (λ w. run w ops) (λ t. spec_run t ops)
      (step-Agrees o s op r) (λ w t q. run-Refines w t ops q)

-- A write that just fills the buffer leaves it full, and the next single byte is written behind it.
pub full_overflows :
    (o : Output) (str : List ℕ) (c : ℕ)
    → IsOutput o
    → o.size + length str ≡ buffer_size
    → (write_cached o str >>= λ w. putchar w c) ≡ fault bad_access
full_overflows o str c v h =
    let (w, e, wrote) = write_cached_lem o str v in
    rw e (putchar-full w c wrote.valid (wrote.level ∙ unfold level_after in ground arith))
