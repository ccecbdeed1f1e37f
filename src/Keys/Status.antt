-- ===== src/Keys/Status.antt =====
-- The status of a key against its expiry and the clock.
use mathlib.Core.Option.{some-injective}
use wai_ai.Common.{
  inl, inr, sym, subst, refl, ◌≤◌, String, ◌≡◌, ◌↔◌, ◌⊎◌, Option, none, some, arith,
}
use wai_ai.Common.Int.{ℤ, pos, ◌+ℤ◌, ◌≤ℤ◌, ◌<ℤ◌, +ℤ_parts, -ℤ_parts}
use wai_ai.Keys.{
  ApiKey, status_at, KeyStatus, active, expiring, expired, expiring_window_ms, parse_time,
  key_status, status_order,
}

-- The expiry can be read, and it satisfies `P`.
abbrev pub Expiry : Option ℤ → (ℤ → Type 0) → Type 0
Expiry o P = (exp : ℤ) × (o ≡ some exp) × P exp

abbrev pub StatusTable : Option ℤ → ℤ → KeyStatus → Type 0
StatusTable o now s =
    ((s ≡ expired) ↔ Expiry o (λ exp. exp ≤ℤ now))
    × ((s ≡ expiring) ↔ Expiry o (λ exp. (now <ℤ exp) × (exp ≤ℤ now +ℤ pos expiring_window_ms)))
    × ((s ≡ active) ↔ ((o ≡ none) ⊎ Expiry o (λ exp. now +ℤ pos expiring_window_ms <ℤ exp)))

Expiry-some : (exp : ℤ) (P : ℤ → Type 0) → Expiry (some exp) P → P exp
Expiry-some exp P (found, e, p) = subst P (sym (some-injective exp found e)) p

Expiry_iff : {A : Type 0} (exp : ℤ) (P : ℤ → Type 0) → A ↔ P exp → A ↔ Expiry (some exp) P
Expiry_iff exp P e = (λ a. (exp, refl, e.0 a), λ w. e.1 (Expiry-some exp P w))

status_at-StatusTable : (o : Option ℤ) (now : ℤ) → StatusTable o now (status_at o now)
unfolding status_at
status_at-StatusTable none now = ground arith
status_at-StatusTable (some exp) now =
    let table : ((status_at (some exp) now ≡ expired) ↔ (exp ≤ℤ now))
        × ((status_at (some exp) now ≡ expiring)
            ↔ ((now <ℤ exp) × (exp ≤ℤ now +ℤ pos expiring_window_ms)))
        × ((status_at (some exp) now ≡ active) ↔ (now +ℤ pos expiring_window_ms <ℤ exp)) =
      ground (arith, -ℤ_parts exp now, +ℤ_parts now (pos expiring_window_ms)) in
    let late = Expiry_iff exp (λ e. now +ℤ pos expiring_window_ms <ℤ e) table.2 in
    (
      Expiry_iff exp (λ e. e ≤ℤ now) table.0,
      Expiry_iff exp (λ e. (now <ℤ e) × (e ≤ℤ now +ℤ pos expiring_window_ms)) table.1,
      (λ h. inr (late.0 h), λ w. elim w [ inl none_e ↦ cc | inr found ↦ late.1 found ]),
    )

-- A key is expired exactly from its expiry on, expiring in the seven days before that, and active
-- before those days, or when it has no expiry that can be read.
pub key_status-StatusTable :
    (parse_date : String → Option ℤ) (key : ApiKey) (now : ℤ)
    → StatusTable (parse_time parse_date key.expires_at) now (key_status parse_date key now)
unfolding key_status
key_status-StatusTable parse_date key now =
    status_at-StatusTable (parse_time parse_date key.expires_at) now

status_at_mono :
    (o : Option ℤ) (now later : ℤ)
    → now ≤ℤ later
    → status_order (status_at o now) ≤ status_order (status_at o later)
unfolding status_at
status_at_mono none now later h = omega arith
status_at_mono (some exp) now later h = ground (arith, -ℤ_parts exp now, -ℤ_parts exp later)

-- As the clock moves on, a status never goes back: active, expiring, expired.
pub key_status_mono :
    (parse_date : String → Option ℤ) (key : ApiKey) (now later : ℤ)
    → now ≤ℤ later
    → status_order (key_status parse_date key now) ≤ status_order (key_status parse_date key later)
unfolding key_status
key_status_mono parse_date key now later h =
    status_at_mono (parse_time parse_date key.expires_at) now later h
