-- ===== src/Toasts/Bounds.antt =====
-- At most five toasts are kept, and the newest is among them.
use wai_ai.Common.{
  ℕ, zero, suc, ◌-◌, ◌≤◌, ◌<◌, String, ◌≡◌, ◌⊎◌, inl, inr, refl, ap, ◌∙◌, Bool, not, List, [], ◌∷◌,
  ◌++◌, map, arith, length, drop, filter, length-drop, length-append, if◌then◌else◌, ◌==◌,
}
use wai_ai.Toasts.{
  Toast, ToastOptions, toast_of, dismiss, last_five, show_toast, update, Call, show_call,
  update_call, dismiss_call, step, run,
}

length-last_five : (ts : List Toast) → length (last_five ts) ≤ 5
unfolding last_five
length-last_five ts = ground (arith, length-drop (length ts - 5) ts)

length-filter {ℓ} : {A : Type ℓ} (p : A → Bool) (xs : List A) → length (filter p xs) ≤ length xs
length-filter p [] = omega arith
length-filter p (x ∷ xs) = ground (arith, length-filter p xs)

length-map {ℓ κ} :
    {A : Type ℓ} {B : Type κ} (f : A → B) (xs : List A) → length (map f xs) ≡ length xs
length-map f [] = refl
length-map f (x ∷ xs) = ap suc (length-map f xs)

step-length : (c : Call) (ts : List Toast) → length ts ≤ 5 → length (step c ts) ≤ 5
unfolding step show_toast update dismiss
step-length (show_call id opts) ts h = length-last_five (ts ++ toast_of id opts ∷ [])
step-length (update_call id opts) ts h =
    omega (arith, length-map (λ t. if t.id == id then toast_of id opts else t) ts)
step-length (dismiss_call id) ts h = omega (arith, length-filter (λ t. not (t.id == id)) ts)

run_keeps : (cs : List Call) (ts : List Toast) → length ts ≤ 5 → length (run cs ts) ≤ 5
unfolding run
run_keeps [] ts h = h
run_keeps (c ∷ cs) ts h = run_keeps cs (step c ts) (step-length c ts h)

-- Whatever is called, at most five toasts are kept.
pub length-run : (cs : List Call) → length (run cs []) ≤ 5
length-run cs = run_keeps cs [] (omega arith)

drop-append :
    (n : ℕ) (xs : List Toast) (t : Toast)
    → n ≤ length xs
    → drop n (xs ++ t ∷ []) ≡ drop n xs ++ t ∷ []
drop-append zero xs t h = refl
drop-append (suc n) [] t h = absurd (omega arith)
drop-append (suc n) (x ∷ xs) t h = drop-append n xs t (omega arith)

at_most_five : (n : ℕ) → n ≤ 5 → (n < 5) ⊎ (n ≡ 5)
at_most_five n h = ground arith

last_five-room : (ts : List Toast) → length ts ≤ 5 → last_five ts ≡ ts
unfolding last_five
last_five-room ts h = ground arith

last_five-full : (ts : List Toast) → length ts ≡ 6 → last_five ts ≡ drop 1 ts
unfolding last_five
last_five-full ts h = rw h refl

-- A new toast comes last, after the toasts before it; when there were five already, the oldest of
-- them goes.
pub show_toast_lem :
    (cs : List Call) (id : String) (opts : ToastOptions)
    → ((length (run cs []) < 5)
        × (show_toast id opts (run cs []) ≡ run cs [] ++ toast_of id opts ∷ []))
      ⊎ ((length (run cs []) ≡ 5)
          × (show_toast id opts (run cs []) ≡ drop 1 (run cs []) ++ toast_of id opts ∷ []))
unfolding show_toast
show_toast_lem cs id opts =
    let ts = run cs [] in
    let t = toast_of id opts in
    let len = length-append ts (t ∷ []) in
    elim (at_most_five (length ts) (length-run cs)) [
      | inl room ↦ inl (room, last_five-room (ts ++ t ∷ []) (omega arith))
      | inr full ↦
          inr (full, last_five-full (ts ++ t ∷ []) (omega arith) ∙ drop-append 1 ts t (omega arith))
    ]
