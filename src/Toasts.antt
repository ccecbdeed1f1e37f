-- ===== src/Toasts.antt =====
-- ui/src/hooks/useToast.tsx: the toasts that the provider keeps. The random id of a new toast is an
-- argument, and the callbacks are functions on the list. The timer that dismisses a toast and the
-- drawing are not modelled.
pub mod Bounds
mod Tests
use wai_ai.Common.{
  ℕ, ◌-◌, String, Bool, not, Option, List, [], ◌∷◌, ◌++◌, map, filter, length, drop, ltb,
  or_default, if◌then◌else◌, ◌==◌,
}

pub data Variant : Type 0 where
  success error info : Variant

pub record Toast : Type 0 where
  pub id : String
  pub message : String
  pub variant : Variant
  pub duration : ℕ

-- What a caller passes: a toast without its id, and perhaps without its duration.
pub record ToastOptions : Type 0 where
  pub message : String
  pub variant : Variant
  pub duration : Option ℕ

-- `DEFAULT_DURATION`; 0 stays until it is dismissed.
abbrev pub default_duration : Variant → ℕ
default_duration success = 3000
default_duration info = 3000
default_duration error = 0

-- `{ ...opts, id, duration }`
unfoldable pub toast_of : String → ToastOptions → Toast
toast_of id opts = record {
  id = id;
  message = opts.message;
  variant = opts.variant;
  duration = or_default opts.duration (default_duration opts.variant);
}

-- `dismiss`
unfoldable pub dismiss : String → List Toast → List Toast
dismiss id toasts = filter (λ t. not (t.id == id)) toasts

-- `next.length > 5 ? next.slice(next.length - 5) : next`
unfoldable pub last_five : List Toast → List Toast
last_five next = if ltb 5 (length next) then drop (length next - 5) next else next

-- `toast`
unfoldable pub show_toast : String → ToastOptions → List Toast → List Toast
show_toast id opts toasts = last_five (toasts ++ toast_of id opts ∷ [])

-- `update`
unfoldable pub update : String → ToastOptions → List Toast → List Toast
update id opts toasts = map (λ t. if t.id == id then toast_of id opts else t) toasts

-- The callbacks of the context, one call at a time.
pub data Call : Type 0 where
  show_call : String → ToastOptions → Call
  update_call : String → ToastOptions → Call
  dismiss_call : String → Call

unfoldable pub step : Call → List Toast → List Toast
step (show_call id opts) ts = show_toast id opts ts
step (update_call id opts) ts = update id opts ts
step (dismiss_call id) ts = dismiss id ts

unfoldable pub run : List Call → List Toast → List Toast
run [] ts = ts
run (c ∷ cs) ts = run cs (step c ts)
