-- ===== src/Comm/Cells.antt =====
-- What a linked list stands for: the addresses and the data pointers of its elements, in order.
use gateway_project.Base.{
  ℕ, ◌≡◌, ◌≢◌, refl, List, [], ◌∷◌, Bool, true, false, ◌||◌, none, some, length, arith, ◌==◌,
}
use gateway_project.Comm.Heap.{Ptr, null, elmt, Heap}
use gateway_project.Comm.LinkedList.{Store}

abbrev pub Cells : Type 0
Cells = List (Ptr × ℕ)

abbrev pub has : Ptr → Cells → Bool
has a [] = false
has a ((p, d) ∷ xs) = (a == p) || has a xs

abbrev pub head_of : Cells → Ptr
head_of [] = null
head_of ((p, d) ∷ xs) = p

abbrev pub last_of : Cells → Ptr
last_of [] = null
last_of ((p, d) ∷ []) = p
last_of ((p, d) ∷ x ∷ xs) = last_of (x ∷ xs)

-- Each element is at its address, points at the next one, and occurs once.
abbrev pub Linked : Heap → Cells → Type 0
Linked h [] = Unit {0}
Linked h ((p, d) ∷ xs) =
    (p ≢ null) × (h p ≡ some (elmt d (head_of xs))) × (has p xs ≡ false) × Linked h xs

pub record IsList (s : Store) (xs : Cells) : Type 0 where
  pub linked : Linked s.heap xs
  pub size : s.list.size ≡ length xs
  pub head : s.list.head ≡ head_of xs
  pub tail : s.list.tail ≡ last_of xs

-- A heap that differs at no element of the list.
pub Linked-frame :
    {h g : Heap} (xs : Cells)
    → Linked h xs
    → ((a : Ptr) → has a xs ≡ true → g a ≡ h a)
    → Linked g xs
Linked-frame [] l same = tt
Linked-frame ((p, d) ∷ xs) (ne, e, out, l) same =
    (ne, ground (arith, same p), out, Linked-frame xs l λ a i. same a (ground arith))

pub not-has_of_none :
    (h : Heap) (a : Ptr) (xs : Cells) → Linked h xs → h a ≡ none → has a xs ≡ false
not-has_of_none h a [] l e = refl
not-has_of_none h a ((p, d) ∷ xs) (ne, hp, out, l) e = ground (arith, not-has_of_none h a xs l e)

pub null-not-has : (h : Heap) (xs : Cells) → Linked h xs → has null xs ≡ false
null-not-has h [] l = refl
null-not-has h ((p, d) ∷ xs) (ne, hp, out, l) = ground (arith, null-not-has h xs l)

pub has-last_of : (x : Ptr × ℕ) (xs : Cells) → has (last_of (x ∷ xs)) (x ∷ xs) ≡ true
has-last_of (p, d) [] = ground arith
has-last_of (p, d) (y ∷ xs) = ground (arith, has-last_of y xs)

pub last_of-ne-null :
    (h : Heap) (x : Ptr × ℕ) (xs : Cells) → Linked h (x ∷ xs) → last_of (x ∷ xs) ≢ null
last_of-ne-null h (p, d) [] (ne, _, _, _) = ne
last_of-ne-null h (p, d) (y ∷ xs) (ne, hp, out, l) = last_of-ne-null h y xs l
