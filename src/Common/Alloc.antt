-- ===== src/Common/Alloc.antt =====
-- `malloc` and `realloc` of the C library, which the program only calls. A block is the list of its
-- bytes; `none` is NULL. Each call of the model is given an allocator of its own.
use fbbs.Common.{
  ℕ, ◌<◌, ◌≡◌, Option, none, some, List, ◌++◌, arith, length, get_elem?, take, replicate,
  length-take, length-append, length-replicate, get_elem?-take, get_elem?-append_left,
}

pub record Allocator : Type 0 where
  pub malloc : ℕ → Option (List ℕ)
  pub realloc : Option (List ℕ) → ℕ → Option (List ℕ)

-- What the C standard says of a call that succeeds.
pub record IsAllocator (a : Allocator) : Type 0 where
  pub malloc_size : (n : ℕ) (b : List ℕ) → a.malloc n ≡ some b → length b ≡ n
  pub realloc_null : (n : ℕ) (b : List ℕ) → a.realloc none n ≡ some b → length b ≡ n
  pub realloc_size : (old b : List ℕ) (n : ℕ) → a.realloc (some old) n ≡ some b → length b ≡ n
  pub realloc_keeps :
      (old b : List ℕ) (n i : ℕ)
      → a.realloc (some old) n ≡ some b
      → i < length old
      → i < n
      → get_elem? b i ≡ get_elem? old i

-- An allocator that always succeeds and clears new bytes: the assumptions can be met.
abbrev pub zeroing : Allocator
zeroing = record {
  malloc = λ n. some (replicate n 0);
  realloc = λ o n. elim o [
    | none ↦ some (replicate n 0)
    | some old ↦ some (take n (old ++ replicate n 0))
  ];
}

-- An allocator that is out of memory.
abbrev pub exhausted : Allocator
exhausted = record { malloc = λ n. none; realloc = λ o n. none }

pub zeroing-IsAllocator : IsAllocator zeroing
zeroing-IsAllocator = record {
  malloc_size = λ n b e. ground (arith, length-replicate {A = ℕ} n 0);
  realloc_null = λ n b e. ground (arith, length-replicate {A = ℕ} n 0);
  realloc_size = λ old b n e. ground (
    arith,
    length-take n (old ++ replicate n 0),
    length-append old (replicate n 0),
    length-replicate {A = ℕ} n 0,
  );
  realloc_keeps = λ old b n i e h k. ground (
    arith,
    get_elem?-take n (old ++ replicate n 0) i,
    get_elem?-append_left old (replicate n 0) i,
  );
}

pub exhausted-IsAllocator : IsAllocator exhausted
exhausted-IsAllocator = record {
  malloc_size = λ n b e. cc;
  realloc_null = λ n b e. cc;
  realloc_size = λ old b n e. cc;
  realloc_keeps = λ old b n i e h k. cc;
}
