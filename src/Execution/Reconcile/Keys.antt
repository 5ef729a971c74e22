-- ===== src/Execution/Reconcile/Keys.antt =====
-- Sorted keys, and lists that are empty (agents/execution/domain/reconcile.py).
use trading_agents.Prelude.{
  suc, ◌≡◌, ◌≢◌, refl, ap, String, Bool, true, false, ◌||◌, ◌==◌, ==_iff, ==_refl, List, [], ◌∷◌,
  ◌++◌, map, length, filter, elem, arith, string_eq,
}
use trading_agents.Prelude.Dict.{Dict, get, keys, is_some}
use trading_agents.Execution.Reconcile.{insert, sorted}

module _ {V : Type 0} where
  pub elem-keys : (k : String) (d : Dict String V) → elem k (keys d) ≡ is_some (get k d)
  unfolding get
  elem-keys k [] = refl
  elem-keys k ((j, v) ∷ d) = ground (arith, elem-keys k d)

pub elem-insert :
    (k key : String) (l : List String) → elem k (insert key l) ≡ (key == k || elem k l)
elem-insert k key [] = refl
elem-insert k key (other ∷ rest) = ground (arith, elem-insert k key rest)

pub elem-sorted : (k : String) (l : List String) → elem k (sorted l) ≡ elem k l
unfolding sorted
elem-sorted k [] = refl
elem-sorted k (key ∷ rest) = ground (arith, elem-insert k key (sorted rest), elem-sorted k rest)

pub length-insert : (key : String) (l : List String) → length (insert key l) ≡ suc (length l)
length-insert key [] = refl
length-insert key (other ∷ rest) = ground (arith, length-insert key rest)

pub length-sorted : (l : List String) → length (sorted l) ≡ length l
unfolding sorted
length-sorted [] = refl
length-sorted (key ∷ rest) = ground (arith, length-insert key (sorted rest), length-sorted rest)

pub length-map : {A B : Type 0} (f : A → B) (l : List A) → length (map f l) ≡ length l
length-map f [] = refl
length-map f (x ∷ l) = ap suc (length-map f l)

pub elem-filter_of :
    (p : String → Bool) (k : String) (l : List String)
    → elem k l ≡ true
    → p k ≡ true
    → elem k (filter p l) ≡ true
elem-filter_of p k [] h e = h
elem-filter_of p k (x ∷ l) h e = ground (arith, elem-filter_of p k l, h, e, ==_iff x k)

pub not_empty : (k : String) (l : List String) → elem k l ≡ true → l ≢ []
not_empty k [] h e = absurd (ground (arith, h))
not_empty k (x ∷ l) h e = absurd (ground (arith, e))

pub append_empty : {A : Type 0} (l m : List A) → l ++ m ≡ [] → (l ≡ []) × (m ≡ [])
append_empty [] m h = (refl, h)
append_empty (x ∷ l) m h = absurd (ground (arith, h))

pub map_empty : {A B : Type 0} (f : A → B) (l : List A) → map f l ≡ [] → l ≡ []
map_empty f [] h = refl
map_empty f (x ∷ l) h = absurd (ground (arith, h))

pub filter_empty :
    (p : String → Bool) (l : List String)
    → ((k : String) → elem k l ≡ true → p k ≡ false)
    → filter p l ≡ []
filter_empty p [] h = refl
filter_empty p (x ∷ l) h =
    rw (h x (rw (==_refl x) refl)) (filter_empty p l (λ k at. h k (ground (arith, at))))
