-- ===== src/Gateway/Registry.antt =====
-- `Registry` (gateway/src/core/registry.hpp), a dense set of connections. A member is named by a
-- number, and the field `slot` of all members is one function of their names.
pub mod Slots
use llmbridge.Base.{
  ℕ, zero, suc, ◌+◌, ◌-◌, ◌%◌, ◌^◌, Bool, true, false, not, ◌&&◌, List, [], ◌∷◌, ◌++◌, ltb, ◌==◌,
  if◌then◌else◌, length, get_or, take,
}

pub record Registry : Type 0 where
  pub items : List ℕ
  pub slot : ℕ → ℕ

-- `UINT32_MAX`
abbrev pub no_slot : ℕ
no_slot = 2 ^ 32 - 1

-- `p->slot = v`
abbrev pub put : (ℕ → ℕ) → ℕ → ℕ → ℕ → ℕ
put slot p v q = if q == p then v else slot q

-- `items[i] = v`
abbrev pub replace : List ℕ → ℕ → ℕ → List ℕ
replace [] i v = []
replace (x ∷ xs) zero v = v ∷ xs
replace (x ∷ xs) (suc i) v = x ∷ replace xs i v

unfoldable pub holds : Registry → ℕ → Bool
holds r p = ltb (r.slot p) (length r.items) && get_or r.items (r.slot p) 0 == p

unfoldable pub add : Registry → ℕ → Registry
add r p = record { items = r.items ++ p ∷ []; slot = put r.slot p (length r.items % 2 ^ 32) }

unfoldable pub remove : Registry → ℕ → Registry
remove r p =
    let size = length r.items in
    let last = get_or r.items (size - 1) 0 in
    if not (holds r p) then r else record {
      items = take (size - 1) (replace r.items (r.slot p) last);
      slot = put (put r.slot last (r.slot p)) p no_slot;
    }

-- The slots of the members that `clear` goes over.
abbrev cleared : List ℕ → (ℕ → ℕ) → ℕ → ℕ
cleared [] slot = slot
cleared (p ∷ ps) slot = cleared ps (put slot p no_slot)

-- `clear(f)`, and the state that `f` captures; each member is handed over with its slot reset.
unfoldable pub clear_items {ℓ} : {S : Type ℓ} → (S → ℕ → S) → S → List ℕ → S
clear_items f s [] = s
clear_items f s (p ∷ ps) = clear_items f (f s p) ps

unfoldable pub clear {ℓ} : {S : Type ℓ} → (S → ℕ → S) → S → Registry → Registry × S
unfolding clear_items
clear f s r = (record { items = []; slot = cleared r.items r.slot }, clear_items f s r.items)
