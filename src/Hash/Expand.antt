-- ===== src/Hash/Expand.antt =====
-- lib/hash.c: `hash_expand` keeps what the keys have.
use fbbs.Common.{
  ℕ, ◌-◌, ◌^◌, ◌<◌, ◌≡◌, ◌≢◌, refl, sym, ap, ◌∙◌, bit_and, false, Option, some, List, [], ◌∷◌, ◌++◌,
  arith, ◌==◌, if◌then◌else◌, length, get_elem?, set, length-set, get_elem?-set_self,
  get_elem?-set_ne, inl, inr, Bool-cases,
}
use native.Mathlib.Nat.{mod-lt, one-le-pow}
use fbbs.Common.Bits.{bit_and_mask}
use fbbs.Common.Run.{Run, ok}
use fbbs.Hash.{Entry, matches, find_in, move_chain, move_all}
use fbbs.Hash.Lookup.{chain_at-some, chain_at-ok}
use fbbs.Hash.Iterate.{entries}

pub mask-lt : (width hash : ℕ) → bit_and hash (2 ^ width - 1) < 2 ^ width
mask-lt width hash =
    omega (arith, bit_and_mask width hash, mod-lt hash (one-le-pow width 2 (omega arith)))

-- What is found when entries are put in front of a chain, one after another.
unfoldable pub moved_in : (key : List ℕ) → (hash : ℕ) → List Entry → Option ℕ → Option ℕ
moved_in key hash [] x = x
moved_in key hash (e ∷ es) x = moved_in key hash es (if matches key hash e then some e.val else x)

pub moved_in-append :
    (key : List ℕ) (hash : ℕ) (es ds : List Entry) (x : Option ℕ)
    → moved_in key hash (es ++ ds) x ≡ moved_in key hash ds (moved_in key hash es x)
unfolding moved_in
moved_in-append key hash [] ds x = refl
moved_in-append key hash (e ∷ es) ds x =
    moved_in-append key hash es ds (if matches key hash e then some e.val else x)

module _ (width : ℕ) (key : List ℕ) (hash : ℕ) where
  abbrev pub max : ℕ
  max = 2 ^ width - 1

  -- An array of all slots, and what is found in the slot of the key.
  pub record Holds (array : List (List Entry)) (x : Option ℕ) : Type 0 where
    pub size : length array ≡ 2 ^ width
    pub chain : List Entry
    pub here : get_elem? array (bit_and hash max) ≡ some chain
    pub found : find_in key hash chain ≡ x

  -- One entry is put in front of its chain.
  put-Holds :
      (array : List (List Entry)) (x : Option ℕ) (e : Entry) (es : List Entry)
      → Holds array x
      → get_elem? array (bit_and e.hash max) ≡ some es
      → Holds
          (set array (bit_and e.hash max) (e ∷ es))
          (if matches key hash e then some e.val else x)
  unfolding find_in
  put-Holds array x e es h at = elim (Bool-cases (bit_and e.hash max == bit_and hash max)) [
    | inl shared ↦
        let slot : bit_and e.hash max ≡ bit_and hash max = ground (arith, shared) in
        let inside : bit_and hash max < length array = omega (arith, mask-lt width hash, h.size) in
        let same : some es ≡ some h.chain = sym at ∙ (ap (get_elem? array) slot ∙ h.here) in
        let chain : es ≡ h.chain = cc in
        record {
          size = length-set array (bit_and e.hash max) (e ∷ es) ∙ h.size;
          chain = e ∷ es;
          here =
              ap (λ n. get_elem? (set array n (e ∷ es)) (bit_and hash max)) slot
              ∙ get_elem?-set_self array (bit_and hash max) (e ∷ es) inside;
          found =
              ap (λ y. if matches key hash e then some e.val else y)
                (ap (find_in key hash) chain ∙ h.found);
        }
    | inr apart ↦
        let slots : bit_and e.hash max ≢ bit_and hash max = ground (arith, apart) in
        let other : matches key hash e ≡ false = unlike e slots in
        record {
          size = length-set array (bit_and e.hash max) (e ∷ es) ∙ h.size;
          chain = h.chain;
          here = get_elem?-set_ne array (e ∷ es) slots ∙ h.here;
          found = rw other h.found;
        }
  ]
    where
      unlike : (d : Entry) → bit_and d.hash max ≢ bit_and hash max → matches key hash d ≡ false
      unlike d n = elim (Bool-cases (d.hash == hash)) [
        | inl same ↦
            let equal : d.hash ≡ hash = ground (arith, same) in
            absurd (n (ap (λ k. bit_and k max) equal))
        | inr differ ↦ ground (arith, differ)
      ]

  abbrev pub Moves : Run (List (List Entry)) → Option ℕ → Type 0
  Moves m x = (array : List (List Entry)) × (m ≡ ok array) × Holds array x

  move_chain-Moves :
      (es : List Entry) (array : List (List Entry)) (x : Option ℕ)
      → Holds array x
      → Moves (move_chain max es array) (moved_in key hash es x)
  unfolding move_chain moved_in
  move_chain-Moves [] array x h = (array, refl, h)
  move_chain-Moves (e ∷ es) array x h =
      let (chain, at) =
        chain_at-some array (bit_and e.hash max) (omega (arith, mask-lt width e.hash, h.size)) in
      let (moved, run, holds) =
        move_chain-Moves es (set array (bit_and e.hash max) (e ∷ chain))
          (if matches key hash e then some e.val else x) (put-Holds array x e chain h at) in
      (moved, rw (chain_at-ok array (bit_and e.hash max) chain at) run, holds)

  pub move_all-Moves :
      (chains array : List (List Entry)) (x : Option ℕ)
      → Holds array x
      → Moves (move_all max chains array) (moved_in key hash (entries chains) x)
  unfolding move_all entries
  move_all-Moves [] array x h = (array, refl, unfold moved_in in h)
  move_all-Moves (es ∷ chains) array x h =
      let (moved, run, holds) = move_chain-Moves es array x h in
      let (last, rest, end) = move_all-Moves chains moved (moved_in key hash es x) holds in
      (last, rw run rest, rw (moved_in-append key hash es (entries chains) x) end)
