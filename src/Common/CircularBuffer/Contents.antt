-- ===== src/Common/CircularBuffer/Contents.antt =====
-- include/hohnor/common/CircularBuffer.h as a FIFO queue of at most `max_size - 1` items.
use hohnor.Prelude.{
  ℕ, zero, suc, ◌+◌, ◌-◌, ◌%◌, ◌≤◌, ◌<◌, ◌≡◌, refl, ap, ap₂, true, List, [], ◌∷◌, ◌++◌, some,
  if◌then◌else◌, ◌==◌, leb, add64, u64_mod, set, get_or, length, length-replicate, get_or-set_self,
  get_or-set_ne, arith, Bool-cases, inl, inr,
}
use hohnor.Common.CircularBuffer.{CircularBuffer, create, empty, full, size}
use native.Mathlib.Nat.{mod-eq_of_lt, mod_self}

-- The index after `h`, and how far `i` lies behind `h` going round.
abbrev pub next_index : ℕ → ℕ → ℕ
next_index m h = if suc h == m then 0 else suc h

abbrev pub distance : ℕ → ℕ → ℕ → ℕ
distance m h i = if leb h i then i - h else i + m - h

pub next_index_lem : (m h : ℕ) → h < m → m < u64_mod → add64 h 1 % m ≡ next_index m h
next_index_lem m h p q = elim (Bool-cases (suc h == m)) [
  | inl e ↦ rw (wide, same e, mod_self m) (ground arith)
  | inr e ↦ rw (wide, mod-eq_of_lt {n = suc h} {m = m} (ground arith)) (ground arith)
]
  where
    wide : add64 h 1 ≡ suc h
    wide = omega arith

    same : (suc h == m) ≡ true → suc h ≡ m
    same e = ground arith

-- The representation invariant.
pub record IsValid {ℓ} {A : Type ℓ} (b : CircularBuffer A) : Type 0 where
  pub slots : length b.buffer ≡ b.max_size
  pub word : b.max_size < u64_mod
  pub roomy : 3 ≤ b.max_size
  pub head_in : b.head < b.max_size
  pub tail_in : b.tail < b.max_size

module _ {ℓ} {A : Type ℓ} (d : A) where
  -- The `n` items from index `h` on, going round at `m`.
  abbrev pub gather : List A → ℕ → ℕ → ℕ → List A
  gather xs m zero h = []
  gather xs m (suc n) h = get_or xs h d ∷ gather xs m n (next_index m h)

  abbrev pub contents : CircularBuffer A → List A
  contents b = gather b.buffer b.max_size (distance b.max_size b.head b.tail) b.head

  pub length-gather : (xs : List A) (m n h : ℕ) → length (gather xs m n h) ≡ n
  length-gather xs m zero h = refl
  length-gather xs m (suc n) h = ap suc (length-gather xs m n (next_index m h))

  -- Going round from `h`, the slot `i` is not met before `distance m h i` steps.
  pub gather-set :
      (xs : List A) (m i n h : ℕ) (x : A)
      → h < m
      → i < m
      → n ≤ distance m h i
      → gather (set xs i x) m n h ≡ gather xs m n h
  gather-set xs m i zero h x p q r = refl
  gather-set xs m i (suc n) h x p q r = ground (
    arith,
    get_or-set_ne xs i h x d (ground arith),
    gather-set xs m i n (next_index m h) x (ground arith) q (ground arith),
  )

  -- Writing the slot just behind a window extends it by that item.
  pub gather-snoc :
      (xs : List A) (m i n h : ℕ) (x : A)
      → h < m
      → i < m
      → i < length xs
      → n ≡ distance m h i
      → gather (set xs i x) m (suc n) h ≡ gather xs m n h ++ x ∷ []
  gather-snoc xs m i zero h x p q r e =
      let same : h ≡ i = ground arith in ap (λ v. v ∷ []) (rw same (get_or-set_self xs i x d r))
  gather-snoc xs m i (suc n) h x p q r e =
      ap₂ ◌∷◌ (get_or-set_ne xs i h x d (ground arith))
        (gather-snoc xs m i n (next_index m h) x (ground arith) q r (ground arith))

  -- On a valid ring `size` counts the contents, wrapped round the end of the storage or not.
  pub size-contents : (b : CircularBuffer A) → IsValid b → size b ≡ length (contents b)
  unfolding size
  size-contents b v =
      ground (arith, length-gather b.buffer b.max_size (distance b.max_size b.head b.tail) b.head)

  pub create-IsValid :
      (n : ℕ) {b : CircularBuffer A}
      → n + 1 < u64_mod
      → create d n ≡ some b
      → IsValid b × (contents b ≡ []) × (b.max_size ≡ n + 1)
  unfolding create
  create-IsValid n h e = ground (arith, length-replicate (add64 n 1) d)

module _ {ℓ} {A : Type ℓ} where
  pub full_iff : (b : CircularBuffer A) → IsValid b → full b ≡ (size b + 1 == b.max_size)
  unfolding full size
  full_iff b v = ground (arith, next_index_lem b.max_size b.tail v.tail_in v.word)

  pub empty_iff : (b : CircularBuffer A) → IsValid b → empty b ≡ (size b == 0)
  unfolding empty size
  empty_iff b v = ground arith

  -- One slot always stays free.
  pub size-lt-max_size : (b : CircularBuffer A) → IsValid b → size b < b.max_size
  unfolding size
  size-lt-max_size b v = ground arith
