-- ===== src/Comm/Walk.antt =====
-- The loop `for (ptr = list_head(list); ptr != NULL; ptr = ptr->next)` over a list of comm/list.h, with a
-- body that gets the data pointer and changes a state other than the list.
use gateway_project.Base.{
  ℕ, zero, suc, ◌≡◌, refl, ap, ◌∙◌, ◌<◌, List, [], ◌∷◌, length, arith, ◌==◌, ==_false, Run, ok,
  out_of_fuel, ◌>>=◌, bind_cong, true, false,
}
use gateway_project.Comm.Heap.{Ptr, null, elmt, Heap, load, load-ok}
use gateway_project.Comm.LinkedList.{Store}
use gateway_project.Comm.Cells.{Cells, head_of, Linked, IsList}
use gateway_project.Comm.Remove.{data_of}

module _ {E S : Type 0} (body : ℕ → S → Run E S) where
  unfoldable pub walk : (fuel : ℕ) → Heap → Ptr → S → Run E S
  walk zero h p s = out_of_fuel
  walk (suc fuel) h p s = elim (p == null) [
    | true ↦ ok s
    | false ↦ do e ← load h p; s' ← body e.data_ptr s; walk fuel h e.next s'
  ]

  -- The body for each data pointer, in order.
  abbrev pub for_each : List ℕ → S → Run E S
  for_each [] s = ok s
  for_each (d ∷ ds) s = do s' ← body d s; for_each ds s'

  walk-Linked :
      (fuel : ℕ) (h : Heap) (xs : Cells) (s : S)
      → Linked h xs
      → length xs < fuel
      → walk fuel h (head_of xs) s ≡ for_each (data_of xs) s
  unfolding walk
  walk-Linked zero h xs s l f = absurd (omega (arith, f))
  walk-Linked (suc fuel) h [] s l f = refl
  walk-Linked (suc fuel) h ((p, d) ∷ xs) s (ne, hp, out, l) f =
      rw (walk, ==_false p null ne, load-ok {E = E} h p (elmt d (head_of xs)) ne hp)
        (bind_cong (body d s) (λ t. walk-Linked fuel h xs t l (omega (arith, f))))

  -- The loop over a list runs the body for each data pointer, from the first element to the last, and
  -- ends, with one round of fuel more than the list has elements.
  pub walk-for_each :
      (fuel : ℕ) (store : Store) (xs : Cells) (s : S)
      → IsList store xs
      → length xs < fuel
      → walk fuel store.heap store.list.head s ≡ for_each (data_of xs) s
  walk-for_each fuel store xs s w f =
      ap (λ (p : ℕ). walk fuel store.heap p s) w.head ∙ walk-Linked fuel store.heap xs s w.linked f
