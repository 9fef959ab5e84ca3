-- ===== src/Text/Pstring/Printf.antt =====
-- What `pstring_append_printf` appends.
use fbbs.Common.{
  true, ℕ, suc, ◌+◌, ◌-◌, ◌^◌, ◌≤◌, ◌<◌, ◌≡◌, refl, sym, ap, ◌∙◌, append_assoc, List, [], ◌∷◌, ◌++◌,
  arith, leb, length, take, drop, length-take, length-append, take-all, take-length-append, inl,
  inr, Bool-cases,
}
use fbbs.Common.Run.{Run, ok}
use fbbs.Common.Memory.{copy_in, overlay}
use fbbs.Text.Pstring.{Pstring, pstring_append_printf}
use fbbs.Text.Pstring.Append.{IsPstring, content, written-lem, pstring_move-Moves, take-take}
use fbbs.Text.Pstring.Size.{round_size-Ends}

-- A run that leaves a string with the bytes, and room for the NUL.
abbrev pub Prints : Pstring → List ℕ → Run Pstring → Type 0
Prints s bytes m =
    (t : Pstring) × (m ≡ ok t)
    × (content t ≡ content s ++ bytes)
    × (length t.str ≡ t.size)
    × (t.len < t.size)

-- Bytes and a NUL behind the content: what stands there up to the NUL.
before_nul :
    (t : Pstring) (bytes : List ℕ)
    → t.len + suc (length bytes) ≤ length t.str
    → take (t.len + length bytes) (overlay t.str t.len (bytes ++ 0 ∷ [])) ≡ content t ++ bytes
before_nul t bytes h =
    let size : length (bytes ++ 0 ∷ []) ≡ suc (length bytes) =
      length-append bytes (0 ∷ []) ∙ omega arith in
    let (run, whole, text) = written-lem t (bytes ++ 0 ∷ []) (omega (arith, size, h)) in
    let kept : length (content t ++ bytes) ≡ t.len + length bytes =
      ground (arith, length-append (content t) bytes, length-take t.len t.str, h) in
    sym (
      take-take (t.len + length bytes) (t.len + length (bytes ++ 0 ∷ []))
        (overlay t.str t.len (bytes ++ 0 ∷ [])) (omega (arith, size)))
    ∙ (ap (take (t.len + length bytes)) (text ∙ sym (append_assoc (content t) bytes (0 ∷ [])))
        ∙ (ap (λ n. take n ((content t ++ bytes) ++ 0 ∷ [])) (sym kept)
            ∙ take-length-append (content t ++ bytes) (0 ∷ [])))

content-overlay :
    (block : List ℕ) (at : ℕ) (src : List ℕ)
    → at ≤ length block
    → take at (overlay block at src) ≡ take at block
content-overlay block at src h =
    let size : at ≡ length (take at block) = ground (arith, length-take at block, h) in
    ap (λ n. take n (overlay block at src)) size
    ∙ take-length-append (take at block) (src ++ drop (at + length src) block)

-- The format written whole, behind a string that stands in a block with room for it.
written_whole :
    (s t : Pstring) (bytes : List ℕ)
    → content t ≡ content s
    → length t.str ≡ t.size
    → t.len + length bytes < t.size
    → (copy_in t.str t.len (bytes ++ 0 ∷ []) ≡ ok (overlay t.str t.len (bytes ++ 0 ∷ [])))
      × Prints s bytes (
          ok (record {
            str = overlay t.str t.len (bytes ++ 0 ∷ []);
            len = t.len + length bytes;
            size = t.size;
          }))
written_whole s t bytes kept whole h =
    let size : length (bytes ++ 0 ∷ []) ≡ suc (length bytes) =
      length-append bytes (0 ∷ []) ∙ omega arith in
    let (run, length_kept, text) =
      written-lem t (bytes ++ 0 ∷ []) (omega (arith, size, whole, h)) in
    (
      run,
      (
        record {
          str = overlay t.str t.len (bytes ++ 0 ∷ []);
          len = t.len + length bytes;
          size = t.size;
        },
        refl,
        before_nul t bytes (omega (arith, whole, h)) ∙ ap (λ u. u ++ bytes) kept,
        length_kept ∙ whole,
        h,
      ),
    )

-- What the format gives is appended to any string, in a larger block, which the pool gives, where it does
-- not fit, up to 2^31 bytes in all.
pub append_printf_lem :
    (s : Pstring) (formatted : List ℕ)
    → IsPstring s
    → s.len + length formatted + 1 < 2 ^ 31
    → Prints s formatted (pstring_append_printf true s formatted)
unfolding pstring_append_printf
append_printf_lem s f v h = elim (Bool-cases (leb (s.size - s.len) (length f))) [
  | inr fits ↦
      let below : s.len + length f < s.size = ground (arith, fits, v.room) in
      let part : take (s.size - s.len - 1) f ≡ f =
        take-all (s.size - s.len - 1) f (omega (arith, below)) in
      let (run, printed) = written_whole s s f refl v.whole below in rw (fits, part, run) printed
  | inl cut ↦
      let part : List ℕ = take (s.size - s.len - 1) f in
      let size : length (part ++ 0 ∷ []) ≤ s.size - s.len =
        ground (arith, length-append part (0 ∷ []), length-take (s.size - s.len - 1) f, v.room) in
      let (copied, whole, text) =
        written-lem s (part ++ 0 ∷ []) (omega (arith, size, v.whole, v.room)) in
      let first : Pstring = record {
        str = overlay s.str s.len (part ++ 0 ∷ []);
        len = s.len;
        size = s.size;
      } in
      let (r, rounded, larger) = round_size-Ends (s.len + length f + 1) h in
      let (room, run, m) =
        pstring_move-Moves first r (omega (arith, whole, v.whole, v.room))
          (omega (arith, larger)) in
      let same : content room ≡ content s =
        m.kept ∙ content-overlay s.str s.len (part ++ 0 ∷ []) (omega (arith, v.whole, v.room)) in
      let (again, printed) =
        written_whole s room f same (m.whole ∙ sym m.size) (omega (arith, m.len, m.size, larger)) in
      rw (copied, cut, rounded, run, again) printed
]
