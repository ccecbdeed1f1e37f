-- ===== src/Modal/Escape.antt =====
-- Escape closes the top-most modal, and no other.
use wai_ai.Common.{ℕ, ◌<◌, List, [], ◌∷◌, All, AllDistinct, String}
use wai_ai.Modal.{Modals, open_modal, close_modal}

pub data ModalEvent : Type 0 where
  opens : ModalEvent
  closes_modal : ℕ → ModalEvent

unfoldable pub run : List ModalEvent → Modals → Modals
run [] s = s
run (opens ∷ es) s = run es (open_modal s)
run (closes_modal t ∷ es) s = run es (close_modal t s)

abbrev pub no_modals : String → Modals
no_modals overflow = record { stack = []; next = 0; saved = []; overflow = overflow }

-- The open modals are different, and their numbers were given before.
abbrev IsStack : ℕ → List ℕ → Type 0
IsStack next ts = AllDistinct ts × All (λ t. t < next) ts
