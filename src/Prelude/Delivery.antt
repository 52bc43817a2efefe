-- ===== src/Prelude/Delivery.antt =====
-- What a loop that relays packets has delivered of those it was asked to.
use mathlib.Core.Path.{◌≡◌, refl, ap}
use mathlib.Core.Logic.{◌≢◌, ◌⊎◌, inl, inr}
use mathlib.Core.Option.{Option, none, some}
use mathlib.Core.List.{List, [], ◌∷◌, ◌++◌}

-- The first of the items asked for, and all of them unless the run has ended.
abbrev pub Delivers {ℓ κ} : {A : Type ℓ} {E : Type κ} → List A → List A → Option E → Type (ℓ ⊔ κ)
Delivers {A} done asked ending =
    (rest : List A) × (asked ≡ done ++ rest) × ((rest ≡ []) ⊎ (ending ≢ none))

pub Delivers-start {ℓ κ} : {A : Type ℓ} {E : Type κ} → Delivers {A = A} {E = E} [] [] none
Delivers-start = ([], refl, inl refl)

pub Delivers-ended {ℓ κ} :
    {A : Type ℓ} {E : Type κ} (asked : List A) (e : E) → Delivers [] asked (some e)
Delivers-ended asked e = (asked, refl, inr (λ h. cc))

pub Delivers-next {ℓ κ} :
    {A : Type ℓ} {E : Type κ} (a : A) (done asked : List A) (ending : Option E)
    → Delivers done asked ending
    → Delivers (a ∷ done) (a ∷ asked) ending
Delivers-next a done asked ending (rest, same, whole) = (rest, ap (λ l. a ∷ l) same, whole)
