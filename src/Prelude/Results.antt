-- ===== src/Prelude/Results.antt =====
-- Rust's `Result` with the `?` operator as a bind.
use mathlib.Core.Path.{◌≡◌, refl}
use mathlib.Core.Bool.{Bool, true, false}
use mathlib.Core.Option.{Option, none, some}

pub data Result {ℓ κ} (T : Type ℓ) (F : Type κ) : Type (ℓ ⊔ κ) where
  ok : T → Result T F
  err : F → Result T F

-- `is_ok`, and `ok_or`.
abbrev pub is_ok {ℓ κ} : {T : Type ℓ} {F : Type κ} → Result T F → Bool
is_ok (err _) = false
is_ok (ok _) = true

abbrev pub ok_or {ℓ κ} : {T : Type ℓ} {F : Type κ} → F → Option T → Result T F
ok_or failure (some t) = ok t
ok_or failure none = err failure

infixl 5 ◌>>=◌ ◌>>◌
abbrev pub ◌>>=◌ {ℓ κ μ} :
    {T : Type ℓ} {S : Type κ} {F : Type μ} → Result T F → (T → Result S F) → Result S F
err failure >>= next = err failure
ok t >>= next = next t

-- `map_err`.
abbrev pub map_err {ℓ κ μ} :
    {T : Type ℓ} {F : Type κ} {G : Type μ} → (F → G) → Result T F → Result T G
map_err g (err failure) = err (g failure)
map_err g (ok t) = ok t

abbrev pub ◌>>◌ {ℓ κ} : {S : Type ℓ} {F : Type κ} → Result (Unit {0}) F → Result S F → Result S F
first >> second = first >>= λ _. second

-- An early return unless the test holds.
abbrev pub guard {κ} : {F : Type κ} → Bool → F → Result (Unit {0}) F
guard false failure = err failure
guard true failure = ok tt

pub >>=-eq-ok {ℓ κ μ} :
    {T : Type ℓ} {S : Type κ} {F : Type μ} (m : Result T F) (next : T → Result S F) {s : S}
    → (m >>= next) ≡ ok s
    → (t : T) × (m ≡ ok t) × (next t ≡ ok s)
>>=-eq-ok (ok t) next h = (t, refl, h)
>>=-eq-ok (err failure) next h = cc

pub ok_inj {ℓ κ} : {T : Type ℓ} {F : Type κ} {s t : T} → ◌≡◌ {A = Result T F} (ok s) (ok t) → s ≡ t
ok_inj e = cc
