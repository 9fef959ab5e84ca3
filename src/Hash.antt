-- ===== src/Hash.antt =====
-- lib/hash.c: the hash table with chains. The chain of a slot is the list of its entries in order; a
-- free entry keeps nothing, so the list of free entries is its length. A key is the list of its bytes,
-- which the caller does not change while it is in the table.
pub mod Chain
pub mod Lookup
pub mod Iterate
pub mod Expand
pub mod Growth
mod Tests
use fbbs.Common.{
  ℕ, zero, suc, ◌+◌, ◌-◌, ◌*◌, ◌%◌, ◌^◌, bit_and, Bool, true, false, not, ◌&&◌, Option, none, some,
  List, [], ◌∷◌, ltb, ◌==◌, if◌then◌else◌, length, get_elem?, set, replicate,
}
use fbbs.Common.Run.{Run, ok, fault, bad_access, null_pointer, ◌>>=◌}

-- `hash_entry_t`; `val` is a pointer that is not NULL.
pub record Entry : Type 0 where
  pub key : List ℕ
  pub hash : ℕ
  pub val : ℕ

-- `hash_t`, without its function.
pub record Table : Type 0 where
  pub count : ℕ
  pub max : ℕ
  pub array : List (List Entry)
  pub free : ℕ

-- A byte as a signed `char` that is added to an unsigned integer.
abbrev pub as_char : ℕ → ℕ
as_char c = if ltb c 128 then c else c + (2 ^ 32 - 256)

unfoldable pub hash_loop : (value : ℕ) → List ℕ → ℕ
hash_loop value [] = value
hash_loop value (c ∷ key) = hash_loop ((value + (value * 33 + as_char c)) % 2 ^ 32) key

pub hash_func_default : List ℕ → ℕ
hash_func_default key = hash_loop 0 key

-- `memcmp` of as many bytes as both keys have.
unfoldable pub same_bytes : List ℕ → List ℕ → Bool
same_bytes [] [] = true
same_bytes [] (y ∷ ys) = false
same_bytes (x ∷ xs) [] = false
same_bytes (x ∷ xs) (y ∷ ys) = x == y && same_bytes xs ys

abbrev pub matches : (key : List ℕ) → (hash : ℕ) → Entry → Bool
matches key hash e = e.hash == hash && same_bytes e.key key

-- The loop of `find_entry`: what the entry with the key holds, and the chain after it was written or
-- taken out.
unfoldable pub find_in : List ℕ → ℕ → List Entry → Option ℕ
find_in key hash [] = none
find_in key hash (e ∷ es) = if matches key hash e then some e.val else find_in key hash es

unfoldable pub put_in : List ℕ → ℕ → ℕ → List Entry → List Entry
put_in key hash val [] = record { key = key; hash = hash; val = val } ∷ []
put_in key hash val (e ∷ es) =
    if matches key hash e then record e { val = val } ∷ es else e ∷ put_in key hash val es

unfoldable pub remove_in : List ℕ → ℕ → List Entry → List Entry
remove_in key hash [] = []
remove_in key hash (e ∷ es) = if matches key hash e then es else e ∷ remove_in key hash es

unfoldable pub chain_at : List (List Entry) → ℕ → Run (List Entry)
chain_at array slot = elim (get_elem? array slot) [ none ↦ fault bad_access | some es ↦ ok es ]

-- `malloc` gives the array or it does not.
pub create : (memory : Bool) → (max : ℕ) → Option Table
create memory max =
    let slots = if max == 0 then 15 else max in
    if memory
    then some
        (record { count = 0; max = slots; array = replicate ((slots + 1) % 2 ^ 32) []; free = 0 })
    else none

-- The loops of `hash_expand`: each entry is put in front of its new chain.
pub move_chain : (max : ℕ) → List Entry → List (List Entry) → Run (List (List Entry))
move_chain max [] array = ok array
move_chain max (e ∷ es) array = do
  chain ← chain_at array (bit_and e.hash max)
  move_chain max es (set array (bit_and e.hash max) (e ∷ chain))

pub move_all : (max : ℕ) → List (List Entry) → List (List Entry) → Run (List (List Entry))
move_all max [] array = ok array
move_all max (es ∷ chains) array = do moved ← move_chain max es array; move_all max chains moved

-- The result is whether it is 0.
pub expand : (memory : Bool) → Table → Run (Bool × Table)
expand memory t = if not memory then ok (false, t) else do
  let max = (2 * t.max + 1) % 2 ^ 32
  array ← move_all max t.array (replicate ((max + 1) % 2 ^ 32) [])
  ok (true, record t { max = max; array = array })

-- `find_entry` for a value: an entry is taken from the free ones or from `malloc`. Where there is none
-- NULL is returned, which `hash_set` reads through.
unfoldable pub take_entry : (memory : Bool) → Table → Run Table
take_entry memory t =
    if not (t.free == 0)
    then ok (record t { free = t.free - 1; count = t.count + 1 })
    else if memory
    then ok (record t { count = t.count + 1 })
    else fault null_pointer

unfoldable pub entry_for : (memory : Bool) → Table → (found : Option ℕ) → Run Table
unfolding take_entry
entry_for memory t none = take_entry memory t
entry_for memory t (some old) = ok t

-- `hash_set`, with what the two calls of `malloc` find, for the function of the table.
unfoldable pub hash_set :
    (func : List ℕ → ℕ)
    → (entry_memory array_memory : Bool) → Table
    → List ℕ
    → Option ℕ
    → Run (Bool × Table)
hash_set func entry_memory array_memory t key (some val) = do
  let hash = func key
  let slot = bit_and hash t.max
  chain ← chain_at t.array slot
  u ← entry_for entry_memory t (find_in key hash chain)
  let w = record u { array = set t.array slot (put_in key hash val chain) }
  if ltb w.max w.count then expand array_memory w else ok (true, w)
hash_set func entry_memory array_memory t key none = do
  let hash = func key
  let slot = bit_and hash t.max
  chain ← chain_at t.array slot
  elim (find_in key hash chain) [
    | none ↦ ok (true, t)
    | some old ↦ ok (
      true,
      record t {
        count = t.count - 1;
        array = set t.array slot (remove_in key hash chain);
        free = t.free + 1;
      },
    )
  ]

-- `hash_get`
unfoldable pub hash_get : (func : List ℕ → ℕ) → Table → List ℕ → Run (Option ℕ)
hash_get func t key = do
  let hash = func key
  chain ← chain_at t.array (bit_and hash t.max)
  ok (find_in key hash chain)
