-- ===== src/Gateway/Registry/Slots.antt =====
-- Every member of a `Registry` is where its slot says.
use llmbridge.Base.{
  ℕ, zero, suc, ◌+◌, ◌-◌, ◌%◌, ◌^◌, ◌≤◌, ◌<◌, ◌≡◌, refl, ap, ◌∙◌, true, false, List, [], ◌∷◌, ◌++◌,
  ◌==◌, if◌then◌else◌, Bool-cases, inl, inr, length, length-append, length-take, get_or, take, ltb,
  arith,
}
use llmbridge.Gateway.Registry.{Registry, replace, holds, add, remove}

get_or-replace :
    (xs : List ℕ) (i j v : ℕ)
    → i < length xs
    → get_or (replace xs i v) j 0 ≡ (if j == i then v else get_or xs j 0)
get_or-replace [] i j v h = absurd (omega arith)
get_or-replace (x ∷ xs) zero zero v h = refl
get_or-replace (x ∷ xs) zero (suc j) v h = ground arith
get_or-replace (x ∷ xs) (suc i) zero v h = ground arith
get_or-replace (x ∷ xs) (suc i) (suc j) v h =
    let r = get_or-replace xs i j v (omega arith) in ground (arith, r)

length-replace : (xs : List ℕ) (i v : ℕ) → length (replace xs i v) ≡ length xs
length-replace [] i v = refl
length-replace (x ∷ xs) zero v = refl
length-replace (x ∷ xs) (suc i) v = ap suc (length-replace xs i v)

get_or-take : (xs : List ℕ) (n j : ℕ) → j < n → get_or (take n xs) j 0 ≡ get_or xs j 0
get_or-take xs zero j h = absurd (omega arith)
get_or-take [] (suc n) j h = refl
get_or-take (x ∷ xs) (suc n) zero h = refl
get_or-take (x ∷ xs) (suc n) (suc j) h = get_or-take xs n j (omega arith)

get_or-snoc :
    (xs : List ℕ) (v j : ℕ)
    → j ≤ length xs
    → get_or (xs ++ v ∷ []) j 0 ≡ (if j == length xs then v else get_or xs j 0)
get_or-snoc [] v zero h = refl
get_or-snoc [] v (suc j) h = absurd (omega arith)
get_or-snoc (x ∷ xs) v zero h = ground arith
get_or-snoc (x ∷ xs) v (suc j) h = let r = get_or-snoc xs v j (omega arith) in ground (arith, r)

-- The members from the index `k` on have their indices for their slots.
abbrev pub AreIndexed : (ℕ → ℕ) → ℕ → List ℕ → Type 0
AreIndexed slot k [] = Unit
AreIndexed slot k (x ∷ xs) = (slot x ≡ k) × AreIndexed slot (suc k) xs

abbrev pub IsIndexed : Registry → Type 0
IsIndexed r = AreIndexed r.slot 0 r.items

AreIndexed-at :
    (slot : ℕ → ℕ) (k i : ℕ) (xs : List ℕ)
    → AreIndexed slot k xs
    → i < length xs
    → slot (get_or xs i 0) ≡ k + i
AreIndexed-at slot k i [] h l = absurd (omega arith)
AreIndexed-at slot k zero (x ∷ xs) (h, hs) l = h ∙ (omega arith)
AreIndexed-at slot k (suc i) (x ∷ xs) (h, hs) l =
    AreIndexed-at slot (suc k) i xs hs (omega arith) ∙ (omega arith)

AreIndexed-intro :
    (slot : ℕ → ℕ) (k : ℕ) (xs : List ℕ)
    → ((i : ℕ) → i < length xs → slot (get_or xs i 0) ≡ k + i)
    → AreIndexed slot k xs
AreIndexed-intro slot k [] h = tt
AreIndexed-intro slot k (x ∷ xs) h = (
  h 0 (omega arith) ∙ (omega arith),
  AreIndexed-intro slot (suc k) xs (λ i l. h (suc i) (omega arith) ∙ (omega arith)),
)

add-at :
    (r : Registry) (p i : ℕ)
    → IsIndexed r
    → length r.items < 2 ^ 32
    → holds r p ≡ false
    → i < length (r.items ++ p ∷ [])
    → (add r p).slot (get_or (r.items ++ p ∷ []) i 0) ≡ 0 + i
unfolding holds add
add-at r p i h k l m =
    let size = length r.items in
    let n = length-append r.items (p ∷ []) in
    let w : size % 2 ^ 32 ≡ size = omega arith in
    let e = get_or-snoc r.items p i (omega arith) in
    elim (Bool-cases (i == size)) [
      | inl q ↦ ground (arith, e, q, w)
      | inr q ↦
          let t = AreIndexed-at r.slot 0 i r.items h (ground arith) in ground (arith, e, q, w, t)
    ]

add-holds : (r : Registry) (p : ℕ) → length r.items < 2 ^ 32 → holds (add r p) p ≡ true
unfolding holds add
add-holds r p k =
    let size = length r.items in
    let n = length-append r.items (p ∷ []) in
    let w : size % 2 ^ 32 ≡ size = omega arith in
    let at = get_or-snoc r.items p size (omega arith) in ground (arith, n, w, at)

-- Nobody else comes or goes.
add-others :
    (r : Registry) (p q : ℕ)
    → length r.items < 2 ^ 32
    → (q == p) ≡ false
    → holds (add r p) q ≡ holds r q
unfolding holds add
add-others r p q k d =
    let size = length r.items in
    let n = length-append r.items (p ∷ []) in
    elim (Bool-cases (ltb (r.slot q) size)) [
      | inl e ↦
          let at = get_or-snoc r.items p (r.slot q) (ground (arith, e)) in
          ground (arith, n, d, e, at)
      | inr e ↦ elim (Bool-cases (r.slot q == size)) [
        | inl c ↦
            let at = get_or-snoc r.items p (r.slot q) (ground (arith, c)) in
            ground (arith, n, d, e, c, at)
        | inr c ↦ ground (arith, n, d, e, c)
      ]
    ]

-- Where every member of a registry is at its slot, the registry has fewer members than an unsigned
-- number of 32 bits counts, and `p` is not held: once `p` is added every member is at its slot, `p`
-- is held, and of all others the same are held as before.
pub add-IsIndexed :
    (r : Registry) (p : ℕ)
    → IsIndexed r
    → length r.items < 2 ^ 32
    → holds r p ≡ false
    → IsIndexed (add r p)
      × (holds (add r p) p ≡ true)
      × ((q : ℕ) → (q == p) ≡ false → holds (add r p) q ≡ holds r q)
add-IsIndexed r p h k l = (
  AreIndexed-intro (add r p).slot 0 (add r p).items (λ i m. unfold add in add-at r p i h k l m),
  add-holds r p k,
  λ q d. add-others r p q k d,
)

remove-at :
    (r : Registry) (p i : ℕ)
    → IsIndexed r
    → holds r p ≡ true
    → i < length (remove r p).items
    → (remove r p).slot (get_or (remove r p).items i 0) ≡ 0 + i
unfolding holds remove
remove-at r p i h e m =
    let size = length r.items in
    let last = get_or r.items (size - 1) 0 in
    let moved = replace r.items (r.slot p) last in
    let n = length-take (size - 1) moved in
    let o = length-replace r.items (r.slot p) last in
    let there : r.slot p < size = ground (arith, e) in
    let short : i < size - 1 = ground (arith, e, m, n, o) in
    let gt = get_or-take moved (size - 1) i short in
    let gr = get_or-replace r.items (r.slot p) i last there in
    let hi = AreIndexed-at r.slot 0 i r.items h (omega arith) in
    let hl = AreIndexed-at r.slot 0 (size - 1) r.items h (omega arith) in
    ground (arith, e, gt, gr, hi, hl)

remove-absent : (r : Registry) (p : ℕ) → holds r p ≡ false → remove r p ≡ r
unfolding remove
remove-absent r p e = ground (arith, e)

remove-holds :
    (r : Registry) (p : ℕ)
    → holds r p ≡ true
    → length r.items < 2 ^ 32
    → holds (remove r p) p ≡ false
unfolding holds remove
remove-holds r p e k =
    let size = length r.items in
    let last = get_or r.items (size - 1) 0 in
    let moved = replace r.items (r.slot p) last in
    let n = length-take (size - 1) moved in
    let o = length-replace r.items (r.slot p) last in ground (arith, n, o)

remove-others :
    (r : Registry) (p q : ℕ)
    → IsIndexed r
    → holds r p ≡ true
    → (q == p) ≡ false
    → holds (remove r p) q ≡ holds r q
unfolding holds remove
remove-others r p q h e d =
    let size = length r.items in
    let last = get_or r.items (size - 1) 0 in
    let moved = replace r.items (r.slot p) last in
    let n = length-take (size - 1) moved in
    let o = length-replace r.items (r.slot p) last in
    let there : r.slot p < size = ground (arith, e) in
    let hl = AreIndexed-at r.slot 0 (size - 1) r.items h (omega arith) in
    let at = get_or-replace r.items (r.slot p) (r.slot q) last there in
    let at_hole = get_or-replace r.items (r.slot p) (r.slot p) last there in
    elim (Bool-cases (q == last)) [
      | inl c ↦ elim (Bool-cases (ltb (r.slot p) (size - 1))) [
        | inl b ↦
            let t = get_or-take moved (size - 1) (r.slot p) (ground (arith, b)) in
            let eq : q ≡ last = ground (arith, c) in
            let hq : r.slot q ≡ size - 1 = ap r.slot eq ∙ hl ∙ omega arith in
            ground (arith, e, d, c, b, n, o, at_hole, t, hq)
        | inr b ↦
            let end : r.slot p ≡ size - 1 = ground (arith, b, there) in
            let same = ap (λ k. get_or r.items k 0) end in absurd (ground (arith, e, d, c, same))
      ]
      | inr c ↦ elim (Bool-cases (ltb (r.slot q) (size - 1))) [
        | inl b ↦
            let t = get_or-take moved (size - 1) (r.slot q) (ground (arith, b)) in
            ground (arith, e, d, c, b, n, o, at, t)
        | inr b ↦ ground (arith, e, d, c, b, n, o)
      ]
    ]

-- Where every member of a registry of less than 2 ^ 32 members is at its slot: once `p` is removed
-- every member is at its slot, `p` is held no longer, and of all others the same are held as before.
pub remove-IsIndexed :
    (r : Registry) (p : ℕ)
    → IsIndexed r
    → length r.items < 2 ^ 32
    → IsIndexed (remove r p)
      × (holds (remove r p) p ≡ false)
      × ((q : ℕ) → (q == p) ≡ false → holds (remove r p) q ≡ holds r q)
remove-IsIndexed r p h k = elim (Bool-cases (holds r p)) [
  | inl e ↦ (
    AreIndexed-intro (remove r p).slot 0 (remove r p).items (λ i m. remove-at r p i h e m),
    remove-holds r p e k,
    λ q d. remove-others r p q h e d,
  )
  | inr e ↦ let s = remove-absent r p e in rw s (h, e, λ q d. refl)
]
