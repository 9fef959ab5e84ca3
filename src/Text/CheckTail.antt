-- ===== src/Text/CheckTail.antt =====
-- `string_check_tail` of a string of whole characters, and of one that was cut.
use fbbs.Common.{
  append_assoc, sym, append-nil, take-length-append, subst, drop-length-append, ◌∙◌,
  get_elem?-append, ap, length-append, ℕ, zero, suc, ◌+◌, ◌-◌, ◌≤◌, ◌<◌, ◌≡◌, refl, true, false,
  Option, none, some, List, [], ◌∷◌, ◌++◌, arith, length, take, get_elem?, All,
}
use fbbs.Text.{cut_at, char_at, is_cont, wide, next_wchar, no_limit, tail_loop, check_tail}
use fbbs.Text.Utf8.{encode, IsChar, next_wchar-encode}
use fbbs.Text.Tail.{AllCont, IsSequence, encode-HasSequence}

unfoldable pub encode_all : List ℕ → List ℕ
encode_all [] = []
encode_all (c ∷ cs) = encode c ++ encode_all cs

-- The loop passes over continuation bytes.
tail_loop-down :
    (j i : ℕ) (s : List ℕ)
    → ((k : ℕ) → i ≤ k → k < i + j → is_cont (char_at s k) ≡ true)
    → tail_loop (i + j) s ≡ tail_loop i s
unfolding tail_loop
tail_loop-down zero i s all = ap (λ (n : ℕ). tail_loop n s) (omega arith)
tail_loop-down (suc j) i s all =
    let e : i + suc j ≡ suc (i + j) = omega arith in
    let here : is_cont (char_at s (i + j)) ≡ true = all (i + j) (omega arith) (omega arith) in
    rw (e, here) (tail_loop-down j i s (λ k p q. all k p (omega arith)))

All-get_elem? : (xs : List ℕ) (k : ℕ) → AllCont xs → k < length xs → is_cont (char_at xs k) ≡ true
All-get_elem? [] k h lt = absurd (omega arith)
All-get_elem? (x ∷ xs) zero h lt = h.0
All-get_elem? (x ∷ xs) (suc k) h lt = All-get_elem? xs k h.1 (omega arith)

module _ (front : List ℕ) (lead : ℕ) (conts : List ℕ) where
  abbrev s : List ℕ
  s = front ++ lead ∷ conts

  get_elem?-behind : (k i : ℕ) → k ≡ length front + i → get_elem? s k ≡ get_elem? (lead ∷ conts) i
  get_elem?-behind k i e =
      ground (arith, get_elem?-append front (lead ∷ conts) k) ∙ ap (get_elem? (lead ∷ conts)) at
    where
      at : k - length front ≡ i
      at = omega arith

  abbrev or_nul : Option ℕ → ℕ
  or_nul o = elim o [ none ↦ 0 | some c ↦ c ]

  check_tail-sequence :
      is_cont lead ≡ false
      → AllCont conts
      → check_tail s ≡ cut_at s (length front) (next_wchar (lead ∷ conts) no_limit)
  unfolding check_tail tail_loop
  check_tail-sequence starts continues =
      let size : length s ≡ suc (length front) + length conts =
        omega (arith, length-append front (lead ∷ conts)) in
      let first : char_at s (length front) ≡ lead =
        ap or_nul (get_elem?-behind (length front) 0 (omega arith)) in
      ap (λ (n : ℕ). tail_loop n s) size
      ∙ tail_loop-down (length conts) (suc (length front)) s inside
      ∙ rw (first, starts, drop-length-append front (lead ∷ conts)) refl
    where
      inside :
          (k : ℕ)
          → suc (length front) ≤ k
          → k < suc (length front) + length conts
          → is_cont (char_at s k) ≡ true
      inside k p q =
          let i : ℕ = k - suc (length front) in
          ap (λ (o : Option ℕ). is_cont (or_nul o)) (get_elem?-behind k (suc i) (omega arith))
          ∙ All-get_elem? conts i continues (omega arith)

pub encode_size : (c : ℕ) → (0 < length (encode c)) × (length (encode c) ≤ 4)
unfolding encode
encode_size c = ground arith

check_tail-whole :
    (front : List ℕ) (c : ℕ) → IsChar c → check_tail (front ++ encode c) ≡ (front ++ encode c, 0)
check_tail-whole front c v =
    let (lead, conts, e, q) = encode-HasSequence c v in
    let read : next_wchar (lead ∷ conts) no_limit ≡ wide c (length (encode c)) =
      subst (λ (t : List ℕ). next_wchar t no_limit ≡ wide c (length (encode c)))
        (append-nil (encode c) ∙ e)
        (next_wchar-encode c no_limit [] v (omega (arith, encode_size c))) in
    subst (λ (t : List ℕ). check_tail (front ++ t) ≡ (front ++ t, 0)) (sym e)
      (check_tail-sequence front lead conts q.starts q.continues
        ∙ ap (cut_at (front ++ lead ∷ conts) (length front)) read)

AllCont-take : (m : ℕ) (xs : List ℕ) → AllCont xs → AllCont (take m xs)
AllCont-take zero xs h = tt
AllCont-take (suc m) [] h = tt
AllCont-take (suc m) (x ∷ xs) h = (h.0, AllCont-take m xs h.1)

check_tail-sequence_cut :
    (front : List ℕ) (lead : ℕ) (conts : List ℕ) (m : ℕ)
    → IsSequence lead conts
    → m < length conts
    → (check_tail (front ++ lead ∷ take m conts)).0 ≡ front
check_tail-sequence_cut front lead conts m q h =
    ap (λ (r : List ℕ × ℕ). r.0)
      (check_tail-sequence front lead (take m conts) q.starts (AllCont-take m conts q.continues)
        ∙ ap (cut_at (front ++ lead ∷ take m conts) (length front)) (q.cut m h))
    ∙ take-length-append front (lead ∷ take m conts)

pub check_tail-cut :
    (front : List ℕ) (c m : ℕ)
    → IsChar c
    → 0 < m
    → m < length (encode c)
    → (check_tail (front ++ take m (encode c))).0 ≡ front
check_tail-cut front c zero v pos h = absurd (omega arith)
check_tail-cut front c (suc m) v pos h =
    let (lead, conts, e, q) = encode-HasSequence c v in
    subst (λ (t : List ℕ). (check_tail (front ++ take (suc m) t)).0 ≡ front) (sym e)
      (check_tail-sequence_cut front lead conts m q (omega (arith, ap length e)))

pub check_tail-encode_all :
    (front : List ℕ) (c : ℕ) (cs : List ℕ)
    → All IsChar (c ∷ cs)
    → check_tail (front ++ encode_all (c ∷ cs)) ≡ (front ++ encode_all (c ∷ cs), 0)
unfolding encode_all
check_tail-encode_all front c [] v =
    subst (λ (t : List ℕ). check_tail (front ++ t) ≡ (front ++ t, 0)) (sym (append-nil (encode c)))
      (check_tail-whole front c v.0)
check_tail-encode_all front c (d ∷ cs) v =
    subst (λ (t : List ℕ). check_tail t ≡ (t, 0))
      (append_assoc front (encode c) (encode_all (d ∷ cs)))
      (check_tail-encode_all (front ++ encode c) d cs v.1)
