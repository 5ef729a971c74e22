-- ===== src/Kernel/Graph/Value.antt =====
-- The values of node properties: JSON-like data of Python (kernel/graph_support.py). A float is not
-- modelled, and a bool is the int that it equals.
use trading_agents.Prelude.{ℕ, suc, String, Bool, true, false, ◌&&◌, ◌||◌, ◌==◌, nat_beq, string_eq}
use trading_agents.Prelude.Int.{ℤ, pos, negsuc}

mutual
  pub data Value : Type 0 where
    null : Value
    num : ℤ → Value
    str : String → Value
    list tuple set frozenset : Items → Value
    dict proxy : Fields → Value

  pub data Items : Type 0 where
    nil : Items
    cons : Value → Items → Items

  pub data Fields : Type 0 where
    end : Fields
    field : String → Value → Fields → Fields

-- `_frozen_value`: a mapping becomes a read-only view, a list a tuple, a set a frozenset.
unfoldable mutual
  pub freeze : Value → Value
  freeze null = null
  freeze (num n) = num n
  freeze (str s) = str s
  freeze (list xs) = tuple (freeze_items xs)
  freeze (tuple xs) = tuple (freeze_items xs)
  freeze (set xs) = frozenset (freeze_items xs)
  freeze (frozenset xs) = frozenset (freeze_items xs)
  freeze (dict fs) = proxy (freeze_fields fs)
  freeze (proxy fs) = proxy (freeze_fields fs)

  pub freeze_items : Items → Items
  freeze_items nil = nil
  freeze_items (cons x xs) = cons (freeze x) (freeze_items xs)

  pub freeze_fields : Fields → Fields
  freeze_fields end = end
  freeze_fields (field k v fs) = field k (freeze v) (freeze_fields fs)

-- Python's `==`: of sequences item by item, of mappings and sets whatever the order.
abbrev int_eq : ℤ → ℤ → Bool
int_eq (pos m) (pos n) = nat_beq m n
int_eq (negsuc m) (negsuc n) = nat_beq m n
int_eq _ _ = false

unfoldable pub size_items : Items → ℕ
size_items nil = 0
size_items (cons x xs) = suc (size_items xs)

unfoldable pub size_fields : Fields → ℕ
size_fields end = 0
size_fields (field k v fs) = suc (size_fields fs)

unfoldable pub has_item : (Value → Bool) → Items → Bool
has_item p nil = false
has_item p (cons x xs) = p x || has_item p xs

unfoldable pub has_field : String → (Value → Bool) → Fields → Bool
has_field k p end = false
has_field k p (field j v fs) = (j == k && p v) || has_field k p fs

unfoldable mutual
  unfolding size_items size_fields has_item has_field

  pub value_eq : Value → Value → Bool
  value_eq null null = true
  value_eq (num m) (num n) = int_eq m n
  value_eq (str s) (str t) = s == t
  value_eq (list xs) (list ys) = items_eq xs ys
  value_eq (tuple xs) (tuple ys) = items_eq xs ys
  value_eq (set xs) (set ys) = nat_beq (size_items xs) (size_items ys) && items_in xs ys
  value_eq (set xs) (frozenset ys) = nat_beq (size_items xs) (size_items ys) && items_in xs ys
  value_eq (frozenset xs) (set ys) = nat_beq (size_items xs) (size_items ys) && items_in xs ys
  value_eq (frozenset xs) (frozenset ys) = nat_beq (size_items xs) (size_items ys) && items_in xs ys
  value_eq (dict fs) (dict gs) = nat_beq (size_fields fs) (size_fields gs) && fields_in fs gs
  value_eq (dict fs) (proxy gs) = nat_beq (size_fields fs) (size_fields gs) && fields_in fs gs
  value_eq (proxy fs) (dict gs) = nat_beq (size_fields fs) (size_fields gs) && fields_in fs gs
  value_eq (proxy fs) (proxy gs) = nat_beq (size_fields fs) (size_fields gs) && fields_in fs gs
  value_eq _ _ = false

  pub items_eq : Items → Items → Bool
  items_eq nil nil = true
  items_eq (cons x xs) (cons y ys) = value_eq x y && items_eq xs ys
  items_eq _ _ = false

  pub items_in : Items → Items → Bool
  items_in nil ys = true
  items_in (cons x xs) ys = has_item (value_eq x) ys && items_in xs ys

  pub fields_in : Fields → Fields → Bool
  fields_in end gs = true
  fields_in (field k v fs) gs = has_field k (value_eq v) gs && fields_in fs gs
