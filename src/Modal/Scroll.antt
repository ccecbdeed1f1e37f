-- ===== src/Modal/Scroll.antt =====
-- The scroll of the page as modals open and close.
use wai_ai.Common.{ℕ, suc, ◌≡◌, refl, ap, ◌∙◌, String, List, ◌∷◌, eqb_iff, arith}
use wai_ai.Modal.{Modals, saved_of, forget, open_modal, close_modal}

-- Modals that close in the reverse order of their opening: one that is open during others, and then more.
pub data Visits : Type 0 where
  done : Visits
  visit : Visits → Visits → Visits

unfoldable pub perform : Visits → Modals → Modals
unfolding open_modal close_modal
perform done s = s
perform (visit inner later) s = perform later (close_modal s.next (perform inner (open_modal s)))

forget_first :
    (t : ℕ) (prev : String) (rest : List (ℕ × String)) → forget t ((t, prev) ∷ rest) ≡ rest
unfolding forget
forget_first t prev rest = rw ((eqb_iff t t).1 refl) refl

saved_first :
    (t : ℕ) (prev : String) (rest : List (ℕ × String)) (current : String)
    → saved_of t ((t, prev) ∷ rest) current ≡ prev
unfolding saved_of
saved_first t prev rest current = rw ((eqb_iff t t).1 refl) refl

perform_keeps :
    (v : Visits) (s : Modals)
    → ((perform v s).saved ≡ s.saved) × ((perform v s).overflow ≡ s.overflow)
unfolding perform open_modal close_modal saved_of forget
perform_keeps done s = (refl, refl)
perform_keeps (visit inner later) s =
    let (a, b) = perform_keeps inner (open_modal s) in
    let (c, d) = perform_keeps later (close_modal s.next (perform inner (open_modal s))) in
    (
      c ∙ ap (forget s.next) a ∙ forget_first s.next s.overflow s.saved,
      d
          ∙ ap (λ l. saved_of s.next l (perform inner (open_modal s)).overflow) a
          ∙ saved_first s.next s.overflow s.saved _,
    )

-- If each modal is closed before those that were opened before it, the page scrolls afterwards as it did
-- before; but of two modals, if the first is closed first, the page stays locked with both closed.
pub perform_overflow :
    (v : Visits) (s : Modals)
    → ((perform v s).overflow ≡ s.overflow)
      × ((close_modal (suc s.next) (close_modal s.next (open_modal (open_modal s)))).overflow
          ≡ "hidden")
unfolding open_modal close_modal saved_of forget
perform_overflow v s = ((perform_keeps v s).1, ground arith)
