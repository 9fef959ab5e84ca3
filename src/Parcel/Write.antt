-- ===== src/Parcel/Write.antt =====
-- `parcel_write`: the buffer grows, keeps what it holds, and takes the new bytes behind it.
use native.Mathlib.Nat.{pow-suc}
use fbbs.Common.{
  ℕ, zero, suc, ◌+◌, ◌*◌, ◌^◌, ◌≤◌, ◌<◌, ◌≡◌, refl, ap, sym, ◌∙◌, ◌⊎◌, inl, inr, true, false,
  Option, none, some, List, arith, ltb, Bool-cases, length, get_elem?,
}
use fbbs.Common.Alloc.{Allocator, IsAllocator}
use fbbs.Common.Run.{ok}
use fbbs.Common.Memory.{overlay, copy_in-fits, length-overlay, get_elem?-overlay, StandsAt}
use fbbs.Parcel.{Parcel, u64, double, make_room, append_bytes, write}

-- The doubling loop ends at `capacity * 2 ^ j`.
abbrev Ends : (fuel capacity new_size : ℕ) → Type 0
Ends fuel capacity new_size =
    (c : ℕ) × (double fuel capacity new_size ≡ ok c)
    × (new_size ≤ c)
    × (capacity ≤ c)
    × (c < 2 ^ 63)

go_on :
    (fuel capacity new_size : ℕ)
    → capacity < new_size
    → capacity < 2 ^ 62
    → Ends fuel (capacity * 2) new_size
    → Ends (suc fuel) capacity new_size
unfolding double
go_on fuel capacity new_size more small (c, e, enough, grows, below) =
    let whole : u64 (capacity * 2) ≡ capacity * 2 = omega arith in
    (c, ground arith, enough, omega arith, below)

double-Ends :
    (fuel capacity new_size : ℕ)
    → 2 ^ 62 ≤ capacity * 2 ^ fuel
    → new_size ≤ 2 ^ 62
    → capacity < 2 ^ 63
    → Ends (suc fuel) capacity new_size
unfolding double
double-Ends zero capacity new_size wide h top =
    (capacity, ground arith, omega arith, omega arith, top)
double-Ends (suc fuel) capacity new_size wide h top = elim (Bool-cases (ltb capacity new_size)) [
  | inl more ↦
      let small : capacity < 2 ^ 62 = ground arith in
      go_on (suc fuel) capacity new_size (ground arith) small (
        double-Ends fuel (capacity * 2) new_size
          (omega (arith, ap (λ (t : ℕ). capacity * t) (pow-suc 2 fuel))) h (omega arith))
  | inr done ↦ (capacity, rw done, ground arith, omega arith, top)
]

-- A parcel that can be written: its block has `capacity` bytes.
pub record IsOpen (p : Parcel) : Type 0 where
  pub within : p.size ≤ p.capacity
  pub positive : 0 < p.capacity
  pub bounded : p.capacity < 2 ^ 63
  pub clean : p.error ≡ false
  pub block : (b : List ℕ) × (p.ptr ≡ some b) × (length b ≡ p.capacity)

-- What a write of `bytes` that reports no error has done.
pub record Written (p : Parcel) (bytes : List ℕ) (q : Parcel) : Type 0 where
  pub valid : IsOpen q
  pub size : q.size ≡ p.size + length bytes
  pub new_bytes : (b : List ℕ) → q.ptr ≡ some b → StandsAt b p.size bytes
  pub old_bytes :
      (b c : List ℕ) (i : ℕ)
      → p.ptr ≡ some b
      → q.ptr ≡ some c
      → i < p.size
      → get_elem? c i ≡ get_elem? b i

append-Written :
    (p : Parcel) (bytes b : List ℕ)
    → p.ptr ≡ some b
    → length b ≡ p.capacity
    → 0 < p.capacity
    → p.capacity < 2 ^ 63
    → p.error ≡ false
    → p.size + length bytes ≤ p.capacity
    → (q : Parcel) × (append_bytes p bytes ≡ ok q) × Written p bytes q
unfolding append_bytes
append-Written p bytes b e size pos top clean fits = (
  record p { ptr = some new; size = p.size + length bytes },
  ground (arith, copy_in-fits b p.size bytes),
  record {
    valid = record {
      within = fits;
      positive = pos;
      bounded = top;
      clean = clean;
      block = (new, refl, length-overlay b p.size bytes (omega arith) ∙ size);
    };
    size = refl;
    new_bytes = λ b' q i h. ground (arith, get_elem?-overlay b p.size bytes (p.size + i));
    old_bytes = λ b' c i q r h. ground (arith, get_elem?-overlay b p.size bytes i);
  },
)
  where
    new : List ℕ
    new = overlay b p.size bytes

-- The parcel reports an error, and the allocator failed.
abbrev pub OutOfMemory : Allocator → Parcel → Type 0
OutOfMemory al q = (q.error ≡ true) × ((o : Option (List ℕ)) × (n : ℕ) × (al.realloc o n ≡ none))

IsOpen-writes :
    (p : Parcel) (bytes : List ℕ) (c : ℕ) (o : Option (List ℕ))
    → IsOpen p
    → p.size + length bytes ≤ c
    → c < 2 ^ 63
    → p.capacity ≤ c
    → ((b : List ℕ) → o ≡ some b → length b ≡ c)
    → ((b d : List ℕ) (i : ℕ)
        → p.ptr ≡ some d
        → o ≡ some b
        → i < p.capacity
        → get_elem? b i ≡ get_elem? d i)
    → (q : Parcel) × (append_bytes (record p { capacity = c; ptr = o }) bytes ≡ ok q)
      × (((q.error ≡ true) × (o ≡ none)) ⊎ Written p bytes q)
unfolding append_bytes
IsOpen-writes p bytes c none v fits top grows size keeps =
    (record p { capacity = c; ptr = none; error = true }, refl, inl (refl, refl))
IsOpen-writes p bytes c (some b) v fits top grows size keeps =
    let (q, e, w) =
      append-Written (record p { capacity = c; ptr = some b }) bytes b refl (size b refl)
        (omega (arith, v.positive)) top v.clean fits in
    (
      q,
      e,
      inr (record {
        valid = w.valid;
        size = w.size;
        new_bytes = w.new_bytes;
        old_bytes = λ d b' i x y h.
            w.old_bytes b b' i refl y h ∙ keeps b d i x refl (omega (arith, v.within));
      }),
    )

-- A write to an open parcel returns. Its bytes stand behind the old ones, or it reports an error and
-- the allocator failed.
pub write_lem :
    (al : Allocator) (p : Parcel) (bytes : List ℕ)
    → IsAllocator al
    → IsOpen p
    → p.size + length bytes ≤ 2 ^ 62
    → (q : Parcel) × (write al p bytes ≡ ok q) × (OutOfMemory al q ⊎ Written p bytes q)
unfolding write make_room
write_lem al p bytes lawful v small = elim (Bool-cases (ltb p.capacity (p.size + length bytes))) [
  | inl more ↦
      let (c, e, enough, grows, below) =
        double-Ends 63 p.capacity (p.size + length bytes) (omega (arith, v.positive)) small
          v.bounded in
      let (q, run, w) =
        IsOpen-writes p bytes c (al.realloc p.ptr c) v enough below grows (sized c)
          (kept c grows) in
      (q, ground (arith, whole, e, run, v.clean), failed q c w)
  | inr done ↦
      let (b, e, size) = v.block in
      let (q, run, w) =
        append-Written p bytes b e size v.positive v.bounded v.clean (ground arith) in
      (q, ground (arith, whole, run, v.clean), inr w)
]
  where
    failed :
        (q : Parcel) (c : ℕ)
        → ((q.error ≡ true) × (al.realloc p.ptr c ≡ none)) ⊎ Written p bytes q
        → OutOfMemory al q ⊎ Written p bytes q
    failed q c (inl (e, none_left)) = inl (e, (p.ptr, c, none_left))
    failed q c (inr w) = inr w

    whole : u64 (p.size + length bytes) ≡ p.size + length bytes
    whole = omega arith

    sized : (c : ℕ) (b : List ℕ) → al.realloc p.ptr c ≡ some b → length b ≡ c
    sized c b e =
        let (old, is, size) = v.block in
        lawful.realloc_size old b c (ap (λ o. al.realloc o c) (sym is) ∙ e)

    kept :
        (c : ℕ)
        → p.capacity ≤ c
        → (b d : List ℕ) (i : ℕ) → p.ptr ≡ some d
        → al.realloc p.ptr c ≡ some b
        → i < p.capacity
        → get_elem? b i ≡ get_elem? d i
    kept c grows b d i x y h =
        let (old, is, size) = v.block in
        lawful.realloc_keeps d b c i (ap (λ o. al.realloc o c) (sym x) ∙ y)
          (ground (arith, is, size, x)) (omega arith)
