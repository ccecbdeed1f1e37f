-- ===== src/Toasts/Tests.antt =====
-- The toasts of a short session.
use wai_ai.Common.{◌≡◌, refl, none, some, List, [], ◌∷◌}
use wai_ai.Toasts.{
  ToastOptions, success, error, toast_of, dismiss, last_five, show_toast, update, Call, show_call,
  update_call, dismiss_call, step, run,
}

abbrev saved : ToastOptions
saved = record { message = "Saved"; variant = success; duration = none }

abbrev failed : ToastOptions
failed = record { message = "Failed"; variant = error; duration = some 1000 }

abbrev calls : List Call
calls =
    show_call "a" saved
    ∷ show_call "b" saved
    ∷ show_call "c" failed
    ∷ update_call "b" failed
    ∷ show_call "d" saved
    ∷ show_call "e" saved
    ∷ show_call "f" saved
    ∷ dismiss_call "c"
    ∷ []

after_calls :
    run calls []
    ≡ toast_of "b" failed ∷ toast_of "d" saved ∷ toast_of "e" saved ∷ toast_of "f" saved ∷ []
unfolding run step show_toast last_five update dismiss toast_of
after_calls = refl
