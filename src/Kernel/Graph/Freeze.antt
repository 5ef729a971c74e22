-- ===== src/Kernel/Graph/Freeze.antt =====
-- Freezing (kernel/graph_support.py, `_frozen_value`) is done once and for all, and what is frozen
-- equals itself: so an append-only write may be repeated.
use trading_agents.Prelude.{◌≡◌, refl, ap, ap₂, true, arith, ==_refl, string_eq, String, ℕ, nat_beq}
use trading_agents.Prelude.Int.{pos, negsuc}
use trading_agents.Kernel.Graph.Value.{
  Value, Items, Fields, null, num, str, list, tuple, set, frozenset, dict, proxy, nil, cons, end,
  field, freeze, freeze_items, freeze_fields, value_eq, items_eq, items_in, fields_in, has_item,
  has_field, size_items, size_fields,
}

mutual
  unfolding freeze freeze_items freeze_fields

  freeze_idem : (v : Value) → freeze (freeze v) ≡ freeze v
  freeze_idem null = refl
  freeze_idem (num n) = refl
  freeze_idem (str s) = refl
  freeze_idem (list xs) = ap tuple (freeze_items_idem xs)
  freeze_idem (tuple xs) = ap tuple (freeze_items_idem xs)
  freeze_idem (set xs) = ap frozenset (freeze_items_idem xs)
  freeze_idem (frozenset xs) = ap frozenset (freeze_items_idem xs)
  freeze_idem (dict fs) = ap proxy (freeze_fields_idem fs)
  freeze_idem (proxy fs) = ap proxy (freeze_fields_idem fs)

  freeze_items_idem : (xs : Items) → freeze_items (freeze_items xs) ≡ freeze_items xs
  freeze_items_idem nil = refl
  freeze_items_idem (cons x xs) = ap₂ cons (freeze_idem x) (freeze_items_idem xs)

  freeze_fields_idem : (fs : Fields) → freeze_fields (freeze_fields fs) ≡ freeze_fields fs
  freeze_fields_idem end = refl
  freeze_fields_idem (field k v fs) = ap₂ (field k) (freeze_idem v) (freeze_fields_idem fs)

pub freeze-freeze : (v : Value) → freeze (freeze v) ≡ freeze v
freeze-freeze v = freeze_idem v

nat_beq_refl : (n : ℕ) → nat_beq n n ≡ true
nat_beq_refl n = ground arith

-- Every item of the first list has an equal in the second.
abbrev AllIn : Items → Items → Type 0
AllIn nil ys = Unit
AllIn (cons x xs) ys = (has_item (value_eq x) ys ≡ true) × AllIn xs ys

AllIn-cons : (y : Value) (xs ys : Items) → AllIn xs ys → AllIn xs (cons y ys)
unfolding has_item
AllIn-cons y nil ys h = tt
AllIn-cons y (cons x xs) ys h = (ground (arith, h.0), AllIn-cons y xs ys h.1)

items_in_of_AllIn : (xs ys : Items) → AllIn xs ys → items_in xs ys ≡ true
unfolding value_eq
items_in_of_AllIn nil ys h = refl
items_in_of_AllIn (cons x xs) ys h = ground (arith, h.0, items_in_of_AllIn xs ys h.1)

abbrev AllFieldsIn : Fields → Fields → Type 0
AllFieldsIn end gs = Unit
AllFieldsIn (field k v fs) gs = (has_field k (value_eq v) gs ≡ true) × AllFieldsIn fs gs

AllFieldsIn-field :
    (k : String) (v : Value) (fs gs : Fields) → AllFieldsIn fs gs → AllFieldsIn fs (field k v gs)
unfolding has_field
AllFieldsIn-field k v end gs h = tt
AllFieldsIn-field k v (field j u fs) gs h = (ground (arith, h.0), AllFieldsIn-field k v fs gs h.1)

fields_in_of_AllFieldsIn : (fs gs : Fields) → AllFieldsIn fs gs → fields_in fs gs ≡ true
unfolding value_eq
fields_in_of_AllFieldsIn end gs h = refl
fields_in_of_AllFieldsIn (field k v fs) gs h =
    ground (arith, h.0, fields_in_of_AllFieldsIn fs gs h.1)

mutual
  unfolding value_eq has_item has_field

  eq_self : (v : Value) → value_eq v v ≡ true
  eq_self null = refl
  eq_self (num (pos n)) = nat_beq_refl n
  eq_self (num (negsuc n)) = nat_beq_refl n
  eq_self (str s) = ==_refl s
  eq_self (list xs) = items_eq_self xs
  eq_self (tuple xs) = items_eq_self xs
  eq_self (set xs) =
      ground (arith, nat_beq_refl (size_items xs), items_in_of_AllIn xs xs (items_in_self xs))
  eq_self (frozenset xs) =
      ground (arith, nat_beq_refl (size_items xs), items_in_of_AllIn xs xs (items_in_self xs))
  eq_self (dict fs) =
      ground
        (arith, nat_beq_refl (size_fields fs), fields_in_of_AllFieldsIn fs fs (fields_in_self fs))
  eq_self (proxy fs) =
      ground
        (arith, nat_beq_refl (size_fields fs), fields_in_of_AllFieldsIn fs fs (fields_in_self fs))

  items_eq_self : (xs : Items) → items_eq xs xs ≡ true
  items_eq_self nil = refl
  items_eq_self (cons x xs) = ground (arith, eq_self x, items_eq_self xs)

  items_in_self : (xs : Items) → AllIn xs xs
  items_in_self nil = tt
  items_in_self (cons x xs) = (ground (arith, eq_self x), AllIn-cons x xs xs (items_in_self xs))

  fields_in_self : (fs : Fields) → AllFieldsIn fs fs
  fields_in_self end = tt
  fields_in_self (field k v fs) =
      (ground (arith, eq_self v, ==_refl k), AllFieldsIn-field k v fs fs (fields_in_self fs))

pub value_eq_refl : (v : Value) → value_eq v v ≡ true
value_eq_refl v = eq_self v
