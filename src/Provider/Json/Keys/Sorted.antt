-- ===== src/Provider/Json/Keys/Sorted.antt =====
-- Insertion sort, and what `std::adjacent_find` sees in its result.
use llmbridge.Base.{
  ◌≡◌, refl, ap, sym, ◌∙◌, Bool, true, false, not, ◌&&◌, ◌||◌, List, [], ◌∷◌, Bool-cases, inl, inr,
  arith,
}
use llmbridge.Base.Bytes.{Bytes, same}
use llmbridge.Provider.Json.Keys.{text_le, insert_sorted, sort, no_adjacent, is_in}

-- No key stands twice in the list.
unfoldable pub distinct : List Bytes → Bool
distinct [] = true
distinct (k ∷ ks) = not (is_in k ks) && distinct ks

pub same_refl : (s : Bytes) → same s s ≡ true
unfolding same
same_refl [] = refl
same_refl (c ∷ s) = ground (arith, same_refl s)

pub same_sym : (s t : Bytes) → same s t ≡ same t s
unfolding same
same_sym [] [] = refl
same_sym [] (d ∷ t) = refl
same_sym (c ∷ s) [] = refl
same_sym (c ∷ s) (d ∷ t) = ground (arith, same_sym s t)

pub same-eq : (s t : Bytes) → same s t ≡ true → s ≡ t
unfolding same
same-eq [] [] h = refl
same-eq [] (d ∷ t) h = cc
same-eq (c ∷ s) [] h = cc
same-eq (c ∷ s) (d ∷ t) h = ground (arith, h, same-eq s t)

text_le_total : (s t : Bytes) → text_le s t ≡ false → text_le t s ≡ true
unfolding text_le
text_le_total [] t h = cc
text_le_total (c ∷ s) [] h = refl
text_le_total (c ∷ s) (d ∷ t) h = ground (arith, h, text_le_total s t)

text_le_trans : (s t u : Bytes) → text_le s t ≡ true → text_le t u ≡ true → text_le s u ≡ true
unfolding text_le
text_le_trans [] t u h k = refl
text_le_trans (c ∷ s) [] u h k = cc
text_le_trans (c ∷ s) (d ∷ t) [] h k = cc
text_le_trans (c ∷ s) (d ∷ t) (e ∷ u) h k = ground (arith, h, k, text_le_trans s t u)

text_le_antisym : (s t : Bytes) → text_le s t ≡ true → text_le t s ≡ true → s ≡ t
unfolding text_le
text_le_antisym [] [] h k = refl
text_le_antisym [] (d ∷ t) h k = cc
text_le_antisym (c ∷ s) [] h k = cc
text_le_antisym (c ∷ s) (d ∷ t) h k = ground (arith, h, k, text_le_antisym s t)

is_in-insert_sorted :
    (k x : Bytes) (ls : List Bytes) → is_in k (insert_sorted x ls) ≡ (same k x || is_in k ls)
unfolding is_in insert_sorted
is_in-insert_sorted k x [] = refl
is_in-insert_sorted k x (l ∷ ls) = ground (arith, is_in-insert_sorted k x ls)

distinct-insert_sorted :
    (x : Bytes) (ls : List Bytes)
    → distinct (insert_sorted x ls) ≡ (not (is_in x ls) && distinct ls)
unfolding distinct insert_sorted is_in
distinct-insert_sorted x [] = refl
distinct-insert_sorted x (l ∷ ls) =
    ground (arith, distinct-insert_sorted x ls, is_in-insert_sorted l x ls, same_sym l x)

is_in-sort : (k : Bytes) (ks : List Bytes) → is_in k (sort ks) ≡ is_in k ks
unfolding is_in sort
is_in-sort k [] = refl
is_in-sort k (l ∷ ls) = ground (arith, is_in-insert_sorted k l (sort ls), is_in-sort k ls)

distinct-sort : (ks : List Bytes) → distinct (sort ks) ≡ distinct ks
unfolding distinct sort
distinct-sort [] = refl
distinct-sort (k ∷ ks) =
    ground (arith, distinct-insert_sorted k (sort ks), is_in-sort k ks, distinct-sort ks)

-- `k` comes before all of them.
all_above : Bytes → List Bytes → Bool
all_above k [] = true
all_above k (l ∷ ls) = text_le k l && all_above k ls

sorted : List Bytes → Bool
sorted [] = true
sorted (k ∷ ks) = all_above k ks && sorted ks

all_above_trans :
    (k l : Bytes) (ls : List Bytes)
    → text_le k l ≡ true
    → all_above l ls ≡ true
    → all_above k ls ≡ true
unfolding all_above
all_above_trans k l [] h a = refl
all_above_trans k l (m ∷ ls) h a = ground (arith, h, a, all_above_trans k l ls, text_le_trans k l m)

all_above-insert_sorted :
    (k x : Bytes) (ls : List Bytes)
    → all_above k (insert_sorted x ls) ≡ (text_le k x && all_above k ls)
unfolding all_above insert_sorted
all_above-insert_sorted k x [] = refl
all_above-insert_sorted k x (l ∷ ls) = ground (arith, all_above-insert_sorted k x ls)

sorted-insert_sorted :
    (x : Bytes) (ls : List Bytes) → sorted ls ≡ true → sorted (insert_sorted x ls) ≡ true
unfolding sorted insert_sorted all_above
sorted-insert_sorted x [] h = refl
sorted-insert_sorted x (l ∷ ls) h = ground (
  arith,
  h,
  sorted-insert_sorted x ls,
  all_above_trans x l ls,
  text_le_total x l,
  all_above-insert_sorted l x ls,
)

sorted-sort : (ks : List Bytes) → sorted (sort ks) ≡ true
unfolding sorted sort
sorted-sort [] = refl
sorted-sort (k ∷ ks) = sorted-insert_sorted k (sort ks) (sorted-sort ks)

-- In sorted keys, one that differs from the next differs from all behind it.
absent-sorted :
    (k l : Bytes) (ls : List Bytes)
    → text_le k l ≡ true
    → same k l ≡ false
    → all_above l ls ≡ true
    → is_in k ls ≡ false
unfolding is_in all_above
absent-sorted k l [] h d a = refl
absent-sorted k l (m ∷ ls) h d a = elim (Bool-cases (same k m)) [
  | inl e ↦
      let le : text_le l m ≡ true = ground (arith, a) in
      let back : text_le l k ≡ true = ap (text_le l) (same-eq k m e) ∙ le in
      let one : same k l ≡ true =
        ap (λ x. same k x) (sym (text_le_antisym k l h back)) ∙ same_refl k in
      cc (one, d)
  | inr e ↦ ground (arith, e, a, absent-sorted k l ls h d)
]

no_adjacent-distinct : (ks : List Bytes) → sorted ks ≡ true → no_adjacent ks ≡ distinct ks
unfolding no_adjacent distinct sorted is_in all_above
no_adjacent-distinct [] h = refl
no_adjacent-distinct (k ∷ []) h = refl
no_adjacent-distinct (k ∷ l ∷ ls) h =
    ground (arith, h, no_adjacent-distinct (l ∷ ls), absent-sorted k l ls)

pub no_adjacent-sort : (ks : List Bytes) → no_adjacent (sort ks) ≡ distinct ks
no_adjacent-sort ks = no_adjacent-distinct (sort ks) (sorted-sort ks) ∙ distinct-sort ks
