-- ===== src/Deferred/Slots.antt =====
-- The dict `_slots` of the boundary.
use dagr_mcp.Prelude.{
  String, ◌≡◌, refl, Option, none, some, List, [], ◌∷◌, arith, str_eq, eq_iff, if◌then◌else◌,
}
use dagr_mcp.Deferred.{DeferredSlot}

-- `slots.get(key)`
unfoldable pub lookup : String → List (String × DeferredSlot) → Option DeferredSlot
lookup key [] = none
lookup key ((k, s) ∷ slots) = if str_eq k key then some s else lookup key slots

-- `slots[key] = slot`
unfoldable pub insert :
    String → DeferredSlot → List (String × DeferredSlot) → List (String × DeferredSlot)
insert key slot [] = (key, slot) ∷ []
insert key slot ((k, s) ∷ slots) =
    if str_eq k key then (k, slot) ∷ slots else (k, s) ∷ insert key slot slots

pub lookup-insert :
    (key j : String) (slot : DeferredSlot) (slots : List (String × DeferredSlot))
    → lookup j (insert key slot slots) ≡ (if str_eq key j then some slot else lookup j slots)
unfolding lookup insert
lookup-insert key j slot [] = refl
lookup-insert key j slot ((k, s) ∷ slots) =
    ground (arith, eq_iff k key, eq_iff k j, eq_iff key j, lookup-insert key j slot slots)
