-- ===== src/Modal.antt =====
-- ui/src/components/ui/useModalBehavior.ts: the stack of open dialogs and sheets, the Escape key, the Tab
-- key, and the lock of the page's scroll. Where the focus goes as a modal opens and closes is not
-- modelled.
pub mod Escape
pub mod Scroll
mod Tests
use wai_ai.Common.{
  ℕ, suc, ◌-◌, String, Bool, true, false, not, ◌&&◌, ◌||◌, Option, none, some, List, [], ◌∷◌, ◌++◌,
  eqb, length, if◌then◌else◌,
}

-- What the module and the effects of the open modals hold. A modal is known by the number of its
-- symbol; `saved` is the `prev` of each effect that locks the scroll.
pub record Modals : Type 0 where
  pub stack : List ℕ
  pub next : ℕ
  pub saved : List (ℕ × String)
  pub overflow : String

-- `modalStack[modalStack.length - 1]`
unfoldable pub top : List ℕ → Option ℕ
top [] = none
top (t ∷ []) = some t
top (t ∷ u ∷ us) = top (u ∷ us)

-- `modalStack.splice(modalStack.indexOf(token), 1)`, if it is there
unfoldable pub remove : ℕ → List ℕ → List ℕ
remove t [] = []
remove t (u ∷ us) = if eqb u t then us else u ∷ remove t us

-- `prev` of the effect of a modal, or the overflow as it is if that modal is not open.
unfoldable pub saved_of : ℕ → List (ℕ × String) → String → String
saved_of t [] current = current
saved_of t ((u, prev) ∷ rest) current = if eqb u t then prev else saved_of t rest current

unfoldable pub forget : ℕ → List (ℕ × String) → List (ℕ × String)
forget t [] = []
forget t ((u, prev) ∷ rest) = if eqb u t then rest else (u, prev) ∷ forget t rest

-- The effects as a modal opens.
unfoldable pub open_modal : Modals → Modals
open_modal s = record {
  stack = s.stack ++ s.next ∷ [];
  next = suc s.next;
  saved = (s.next, s.overflow) ∷ s.saved;
  overflow = "hidden";
}

-- Their cleanup as the modal `t` closes.
unfoldable pub close_modal : ℕ → Modals → Modals
unfolding remove saved_of forget
close_modal t s = record s {
  stack = remove t s.stack;
  saved = forget t s.saved;
  overflow = saved_of t s.saved s.overflow;
}

-- A press of Escape: whether another handler has prevented it, and whether it comes from a menu.
pub record EscapeKey : Type 0 where
  pub default_prevented : Bool
  pub in_popper : Bool

-- `modalStack[modalStack.length - 1] === token`
unfoldable pub is_top : Option ℕ → ℕ → Bool
is_top none t = false
is_top (some u) t = eqb u t

-- `handleKeyDown` of each open modal in turn; `closes` tells which ones close on Escape. The modals
-- whose `onClose` is called.
unfoldable pub handlers : (ℕ → Bool) → Option ℕ → EscapeKey → List ℕ → List ℕ
unfolding is_top
handlers closes last key [] = []
handlers closes last key (t ∷ ts) =
    let passed = handlers closes last key ts in
    let prevented = handlers closes last (record key { default_prevented = true }) ts in
    if key.default_prevented || not (closes t) || not (is_top last t) || key.in_popper
    then passed
    else t ∷ prevented

unfoldable pub press_escape : (ℕ → Bool) → EscapeKey → Modals → List ℕ
unfolding handlers top
press_escape closes key s = handlers closes (top s.stack) key s.stack

-- `handlePanelKeyDown`, for the Tab key on a panel of `n` elements, of which the one at `active` has the
-- focus: the element that gets it, none if the browser goes on.
unfoldable pub tab_target : ℕ → Option ℕ → Bool → Option ℕ
tab_target n none shift = none
tab_target n (some i) shift =
    if eqb n 0
    then none
    else if shift && eqb i 0
    then some (n - 1)
    else if not shift && eqb i (n - 1)
    then some 0
    else none
